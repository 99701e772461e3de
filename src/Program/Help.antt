-- ===== src/Program/Help.antt =====
-- PrintCommands of src/cli/main.cpp.
use cashmere.Base.{ℕ, zero, suc, ◌-◌, ◌≡◌, refl, List, [], ◌∷◌, ◌++◌, length, codes}
use cashmere.Text.{space, line_feed}

abbrev spaces : ℕ → List ℕ
spaces zero = []
spaces (suc n) = space ∷ spaces n

-- {: <n}
unfoldable pub pad : ℕ → List ℕ → List ℕ
pad n text = text ++ spaces (n - length text)

-- kCommandsHelp, in the order of the keys
abbrev commands_help : List (List ℕ × List ℕ)
commands_help =
    (
      codes "add <value> [<version>]",
      codes "Appends a new entry to the local database: 'add 100 {{aaff, 1}}'.",
    )
    ∷ (codes "connect <host>:<port>", codes "Connects to another instance: 'connect 0.0.0.0:5000'.")
    ∷ (
      codes "disconnect <number>",
      codes "Disconnects from a host by its connection number: 'disconnect 1'",
    )
    ∷ (codes "list", codes "List commands.")
    ∷ (codes "quit", codes "Quit the instance.")
    ∷ (
      codes "relay <id> <value> [<version>]",
      codes "Relay an addition to another instance: 'relay aaff 10'",
    )
    ∷ (codes "sources", codes "Print this instance data sources.")
    ∷ []

unfoldable pub help_lines : List (List ℕ × List ℕ) → List ℕ
unfolding pad
help_lines [] = line_feed ∷ []
help_lines ((command, help) ∷ rest) =
    (space ∷ space ∷ pad 35 command) ++ (pad 45 help ++ (line_feed ∷ help_lines rest))

-- PrintCommands
unfoldable pub print_commands : List ℕ
unfolding help_lines
print_commands = line_feed ∷ help_lines commands_help

pad_test : pad 35 (codes "list") ≡ codes "list                               "
unfolding pad
pad_test = refl
