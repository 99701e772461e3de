-- ===== src/Program/Main.antt =====
-- The whole program: `main`, with RunService and RunCommand, of src/cli/main.cpp.
use cashmere.Base.{
  ℕ, Bool, false, not, ◌≡◌, refl, arith, ◌∙◌, List, [], ◌++◌, Option, some, codes, if◌then◌else◌,
  Bool-cases, inl, inr,
}
use cashmere.Broker.{World, done, M, ◌>>=◌, pure}
use cashmere.Command.{Parsed, ok, throws}
use cashmere.Command.Options.{
  Options, default_options, is_ok, read_options, parse_options, first_bad, reported,
  read_options-first_bad,
}
use cashmere.Url.{journal_url, service_url}
use cashmere.Program.{Calls, Session, ended, aborted, serve, run_command}
use cashmere.Program.Help.{print_commands}

-- How the program ends: with an exit code, of success or of failure, or by an exception.
pub data Exit : Type 0 where
  succeeds fails dies : List ℕ → Exit

-- The usage that main prints; `name` is argv[0].
abbrev pub usage : List ℕ → List ℕ
usage name =
    codes "usage: " ++ (name ++ codes " [-s] [-h hostname] [-p port] [-i id] [<command>...]\n")

abbrev service_exit : Session → Exit
service_exit (ended text) = succeeds text
service_exit (aborted text) = dies text

abbrev command_exit : Bool × List ℕ → Exit
command_exit (failed, text) = if failed then fails text else succeeds text

reported-not_ok : (o : Options) (x : ℕ × List ℕ) → reported o ≡ some x → is_ok o ≡ false
unfolding is_ok
reported-not_ok o x h = elim (Bool-cases (is_ok o)) [
  | inl p ↦ absurd (ground (arith, p, h))
  | inr p ↦ p
]

-- The brokers come from the stores: `broker_at` gives what a broker offers whose url is given, and
-- `get_or_create` is what a store gives for a url. A directory is at hand for a service without one.
module _ (broker_at : List ℕ → M Calls) (get_or_create : List ℕ → M (Option ℕ)) (temp : List ℕ)
    (lines : List (List ℕ)) (name : List ℕ) where
  -- RunService, up to the server
  unfoldable pub run_service : Options → M Exit
  unfolding journal_url serve print_commands
  run_service o = do
    journal ← broker_at (journal_url temp o)
    session ← serve print_commands get_or_create journal o.source lines o.command
    pure (service_exit session)

  -- RunCommand
  unfoldable pub run_options : Options → M Exit
  unfolding service_url run_command print_commands
  run_options o = do
    stub ← broker_at (service_url o)
    result ← run_command print_commands get_or_create stub o.command
    pure (command_exit result)

  abbrev start_with : Parsed Options → M Exit
  start_with throws = pure (dies [])
  start_with (ok o) =
      if not (is_ok o)
      then pure (fails (usage name ++ print_commands))
      else if o.service
      then run_service o
      else run_options o

  -- main
  unfoldable pub program : List (ℕ × List ℕ) → List (List ℕ) → M Exit
  unfolding parse_options run_service run_options
  program found words = start_with (parse_options found words)

  -- A program that is started with an id or a port that cannot be read prints the usage and the commands,
  -- and fails. It opens no broker and reads no command, whatever else is on its command line.
  pub program_refuses :
      (found : List (ℕ × List ℕ)) (words : List (List ℕ)) (bad : ℕ × List ℕ) (w : World)
      → first_bad found ≡ some bad
      → program found words w ≡ done (fails (usage name ++ print_commands)) w
  unfolding program pure parse_options
  program_refuses found words bad w h =
      let bad_options : is_ok (read_options found default_options) ≡ false =
        reported-not_ok (read_options found default_options) bad
          (read_options-first_bad found default_options refl ∙ h) in
      rw (parse_options, bad_options, bad_options) refl
