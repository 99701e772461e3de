-- ===== src/Program/Examples.antt =====
-- The theorems on the loop of commands, for a journal in memory.
use cashmere.Base.{ℕ, ◌≡◌, refl, false, List, [], ◌∷◌, ◌++◌, Option, none, some, codes}
use cashmere.Base.Int.{negsuc, ◌+ℤ◌}
use cashmere.OrderedMap.{lookup, assign, nat_order}
use cashmere.Clock.{clock_eq}
use cashmere.Clock.Lexicographic.{clock_lt, clock_order}
use cashmere.Entry.{Data}
use cashmere.Ledger.{
  balance_of, from_entries, add_entries, add_entry, perform, evaluate, replaces, store, value_at,
}
use cashmere.Text.{fresh, scan, skip_space, read_u64, print_u64, print_i64, print_from}
use cashmere.Text.Clocks.{print_clock, print_pair, print_pairs}
use cashmere.Broker.{World, M, done, ◌>>=◌, pure, node, link, at, clock}
use cashmere.Broker.Lone.{lone}
use cashmere.Broker.Provides.{sources, versions}
use cashmere.Broker.Query.{entries_of}
use cashmere.Broker.Topology.{disconnect}
use cashmere.Broker.Dispatch.{network, append_data}
use cashmere.Command.{empty_command, read_word, stoi}
use cashmere.Program.{Calls, aborted, execute, prompt, serve}
use cashmere.Program.Ending.{serve_disconnect}
use cashmere.Program.Help.{print_commands}
use cashmere.Program.Main.{fails, usage, program, program_refuses}

abbrev calls : ℕ → ℕ → Calls
calls fuel self = record {
  id = (do n ← node self; pure n.id);
  clock = clock self;
  entries = (do n ← node self; pure (entries_of n.entries));
  sources = (do n ← node self; pure (sources n 0));
  versions = (do n ← node self; pure (versions n));
  connect = λ conn. (network fuel).connect self conn;
  disconnect = λ source. disconnect (network fuel) self source;
  append = λ d. append_data fuel self d;
  relay = λ d. (network fuel).relay self d 0;
}

abbrev no_store : List ℕ → M (Option ℕ)
no_store url = pure none

abbrev spent : Data
spent = record { id = 0xaa; value = negsuc 6; alters = [] }

abbrev host : World
host = lone 0xaa 0 ((0xaa, 1) ∷ []) [] (((0xaa, 1) ∷ [], spent) ∷ []) ∷ []

abbrev first_prompt : List ℕ
first_prompt = codes "{{aa, 1}}:-7 > "

nothing_printed :
    execute [] no_store (calls 2 0) 5000 empty_command.kind empty_command host ≡ done [] host
unfolding execute pure
nothing_printed = refl

prompted : prompt [] no_store (calls 2 0) 5000 host ≡ done (some first_prompt) host
unfolding prompt clock link node at ◌>>=◌ pure entries_of balance_of from_entries add_entries
    add_entry perform evaluate replaces store lookup assign clock_lt clock_eq print_clock print_pair
    print_pairs print_u64 print_i64 print_from ◌+ℤ◌ value_at
prompted = refl

bare_name : (read_word (fresh (codes "disconnect"))).0 ≡ codes "disconnect"
unfolding read_word
bare_name = refl

-- There is no number behind the name, in the line that ends there and before another word.
nothing_is_no_number :
    (scan 10 (skip_space (read_word (read_word (fresh (codes "disconnect"))).1).0)).2 ≡ false
unfolding scan skip_space read_word
nothing_is_no_number = refl

port_is_no_number :
    (scan 10 (skip_space (read_word (read_word (fresh (codes "disconnect port"))).1).0)).2 ≡ false
unfolding scan skip_space read_word
port_is_no_number = refl

serve_disconnect_example :
    serve [] no_store (calls 2 0) 5000 (codes "disconnect" ∷ codes "add 5" ∷ []) empty_command host
    ≡ done (aborted first_prompt) host
serve_disconnect_example =
    serve_disconnect [] no_store (calls 2 0) 5000 (codes "disconnect") (codes "add 5" ∷ [])
      empty_command host host host [] first_prompt bare_name nothing_is_no_number nothing_printed
      prompted

program_refuses_example :
    program
      (λ url. pure (calls 2 0))
      no_store
      (codes "/tmp/1")
      (codes "add 5" ∷ [])
      (codes "cashmere")
      ((b's', []) ∷ (b'p', codes "port") ∷ [])
      []
      host
    ≡ done (fails (usage (codes "cashmere") ++ print_commands)) host
unfolding stoi scan skip_space read_u64
program_refuses_example =
    program_refuses (λ url. pure (calls 2 0)) no_store (codes "/tmp/1") (codes "add 5" ∷ [])
      (codes "cashmere") ((b's', []) ∷ (b'p', codes "port") ∷ []) [] (b'p', codes "port") host refl
