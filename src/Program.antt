-- ===== src/Program.antt =====
-- The loop of commands of `RunService`, and `RunCommand`, of src/cli/main.cpp. The terminal gives the
-- lines that are typed, the last of which is the end of the input, and gets back the text that is
-- printed, prompts included. The help of PrintCommands is a parameter.
pub mod Ending
pub mod Help
pub mod Main
pub mod Examples
use cashmere.Base.{
  ℕ, Bool, true, false, not, List, [], ◌∷◌, ◌++◌, Option, none, some, codes, if◌then◌else◌,
}
use cashmere.Base.Int.{ℤ}
use cashmere.Clock.{Clock, valid}
use cashmere.Entry.{Data, Entry}
use cashmere.Ledger.{balance_of}
use cashmere.Text.{fresh, print_u64, print_i64, line_feed}
use cashmere.Text.Clocks.{print_clock}
use cashmere.Broker.{SourcesMap, IdClockMap, Link, empty_link, M, ◌>>=◌, ◌>>◌, pure}
use cashmere.Broker.Provides.{is_connected}
use cashmere.Broker.Printing.{print_sources, print_versions}
use cashmere.Command.{
  CommandType, invalid, connect, disconnect, append, relay, sources, versions, list_commands, quit,
  Command, Parsed, ok, throws, read_command,
}

-- What the program calls of a broker: virtual methods, with the source 0 where it is a default.
pub record Calls : Type 0 where
  pub id : M ℕ
  pub clock : M Clock
  pub entries : M (List Entry)
  pub sources : M SourcesMap
  pub versions : M IdClockMap
  pub connect : Link → M Link
  pub disconnect : ℕ → M ℕ
  pub append : Data → M Bool
  pub relay : Data → M Clock

-- The text, or that an exception ended the program.
pub data Session : Type 0 where
  ended : List ℕ → Session
  aborted : List ℕ → Session

abbrev put_before : List ℕ → Session → Session
put_before text (ended rest) = ended (text ++ rest)
put_before text (aborted rest) = aborted (text ++ rest)

module _ (help : List ℕ) (get_or_create : List ℕ → M (Option ℕ)) where
  -- Connection(store->getOrCreate(std::format("grpc://{}", url)))
  unfoldable pub peer : List ℕ → M Link
  peer url = do b ← get_or_create (codes "grpc://" ++ url); pure (record empty_link { broker = b })

  module _ (journal : Calls) (port : ℕ) where
    abbrev connection_line : Command → Link → List ℕ
    connection_line c conn =
        if is_connected conn
        then []
        else c.name ++ codes ": failed " ++ print_u64 10 port (line_feed ∷ [])

    -- The switch of RunService.
    unfoldable pub execute : CommandType → Command → M (List ℕ)
    unfolding peer
    execute invalid c =
        pure (elim c.name [
          | [] ↦ []
          | x ∷ rest ↦ codes "unknown command: " ++ c.name ++ line_feed ∷ []
        ])
    execute connect c = do
      conn ← peer c.url
      answer ← journal.connect conn
      pure (connection_line c answer)
    execute disconnect c = do journal.disconnect c.source; pure []
    execute append c = do id ← journal.id; journal.append (record c.entry { id = id }); pure []
    execute relay c = do journal.relay c.entry; pure []
    execute sources c = do s ← journal.sources; pure (print_sources s (line_feed ∷ []))
    execute versions c = do v ← journal.versions; pure (print_versions v (line_feed ∷ []))
    execute list_commands c = pure help
    execute quit c = pure []

    -- std::format("{}:{} > ", clock, balance); `none` is the exception of Ledger::Balance.
    unfoldable pub prompt : M (Option (List ℕ))
    prompt = do
      now ← journal.clock
      entries ← journal.entries
      pure (elim (balance_of entries) [
        | none ↦ none
        | some balance ↦ some (print_clock now (codes ":" ++ print_i64 balance (codes " > ")))
      ])

    abbrev is_quit : CommandType → Bool
    is_quit quit = true
    is_quit _ = false

    abbrev bye : Session
    bye = ended (codes "bye!\n")

    abbrev next_command : (Command → M Session) → Parsed Command → M Session
    next_command again throws = pure (aborted [])
    next_command again (ok c) = if is_quit c.kind then pure bye else again c

    -- The loop of RunService, which reads a line after each command, the first included.
    unfoldable pub serve : List (List ℕ) → Command → M Session
    unfolding execute prompt
    serve [] c = do
      printed ← execute c.kind c
      p ← prompt
      pure (elim p [ none ↦ aborted printed | some text ↦ put_before (printed ++ text) bye ])
    serve (line ∷ rest) c = do
      printed ← execute c.kind c
      p ← prompt
      (elim p [
        | none ↦ pure (aborted printed)
        | some text ↦ do
          later ← next_command (serve rest) (read_command (fresh line))
          pure (put_before (printed ++ text) later)
      ])

  -- The switch of RunCommand, on a stub: the text, and whether the program exits with EXIT_FAILURE.
  unfoldable pub run_command : Calls → Command → M (Bool × List ℕ)
  unfolding peer
  run_command stub c = elim c.kind [
    | connect ↦ do conn ← peer c.url; stub.connect conn; pure (false, [])
    | append ↦ do answer ← stub.relay c.entry; pure (not (valid answer), [])
    | relay ↦ do answer ← stub.relay c.entry; pure (not (valid answer), [])
    | sources ↦ do s ← stub.sources; pure (false, print_sources s (line_feed ∷ []))
    | list_commands ↦ pure (false, help)
    | _ ↦ pure (false, [])
  ]
