-- ===== src/Command/Comparison.antt =====
-- The comparisons and the text forms of commands and options: src/cli/command.cpp and
-- src/cli/options.cpp.
use cashmere.Base.{
  ℕ, Bool, true, false, not, ◌&&◌, ◌≡◌, ◌↔◌, refl, sym, ap, ◌∙◌, arith, List, [], ◌∷◌, ◌++◌, ◌==◌,
  some, get_elem?, codes,
}
use mathlib.Core.Option.{some-injective}
use cashmere.Entry.{data_eq, data_eq_iff}
use cashmere.Text.{print_u64, print_from}
use cashmere.Command.{
  CommandType, invalid, connect, disconnect, append, relay, sources, versions, list_commands, quit,
  Command, text_eq,
}
use cashmere.Command.Options.{
  Status, fine, invalid_argument, invalid_option_argument, missing_command,
  missing_command_argument, missing_option, Options, default_options,
}

-- The value of an enumerator of Command::Type.
unfoldable type_value : CommandType → ℕ
type_value invalid = 0
type_value connect = 1
type_value disconnect = 2
type_value append = 3
type_value relay = 4
type_value sources = 5
type_value versions = 6
type_value list_commands = 7
type_value quit = 8

-- operator==(const Command&, const Command&)
unfoldable pub command_eq : Command → Command → Bool
unfolding type_value
command_eq a b = type_value a.kind == type_value b.kind && data_eq a.entry b.entry

-- Command::ok
abbrev pub command_ok : Command → Bool
command_ok c = elim c.kind [ invalid ↦ false | _ ↦ true ]

abbrev bool_eq : Bool → Bool → Bool
bool_eq true b = b
bool_eq false b = not b

-- operator==(const Options&, const Options&), which leaves the path of the database and the error aside
unfoldable pub options_eq : Options → Options → Bool
unfolding command_eq text_eq
options_eq a b =
    a.id == b.id
    && a.source == b.source
    && text_eq a.hostname b.hostname
    && bool_eq a.service b.service
    && command_eq a.command b.command

-- The value of an enumerator of Options::Status.
unfoldable pub status_value : Status → ℕ
status_value fine = 0
status_value invalid_argument = 1
status_value invalid_option_argument = 2
status_value missing_command = 3
status_value missing_command_argument = 4
status_value missing_option = 5

-- operator==(const Options::Error&, const Options::Error&)
unfoldable pub error_eq : Options → Options → Bool
unfolding status_value text_eq
error_eq a b =
    status_value a.status == status_value b.status
    && a.option == b.option
    && text_eq a.option_argument b.option_argument

-- operator<<(std::ostream&, const Options::Error&)
unfoldable pub print_error : Options → List ℕ → List ℕ
unfolding status_value
print_error o out =
    codes "Options::Error{status = "
    ++ print_u64 10 (status_value o.status) (
        codes ", option = "
        ++ (o.option
            ∷ (codes ", optionArgument = " ++ (o.option_argument ++ (codes "}\n}" ++ out)))))

abbrev types : List CommandType
types =
    invalid ∷ connect ∷ disconnect ∷ append ∷ relay ∷ sources ∷ versions ∷ list_commands ∷ quit ∷ []

get_elem?-type_value : (k : CommandType) → get_elem? types (type_value k) ≡ some k
unfolding type_value
get_elem?-type_value invalid = refl
get_elem?-type_value connect = refl
get_elem?-type_value disconnect = refl
get_elem?-type_value append = refl
get_elem?-type_value relay = refl
get_elem?-type_value sources = refl
get_elem?-type_value versions = refl
get_elem?-type_value list_commands = refl
get_elem?-type_value quit = refl

type_value_injective : (a b : CommandType) → type_value a ≡ type_value b → a ≡ b
type_value_injective a b e =
    some-injective a b
      (sym (get_elem?-type_value a) ∙ ap (get_elem? types) e ∙ get_elem?-type_value b)

-- Two commands compare as equal if they have the type and the data in common.
command_eq_iff :
    (a b : Command) → (command_eq a b ≡ true) ↔ ((a.kind ≡ b.kind) × (a.entry ≡ b.entry))
unfolding command_eq
command_eq_iff a b = (
  λ e.
      let same : type_value a.kind ≡ type_value b.kind = ground (arith, e) in
      let data_same : data_eq a.entry b.entry ≡ true = ground (arith, e) in
      (type_value_injective a.kind b.kind same, (data_eq_iff a.entry b.entry).0 data_same),
  λ (k, d).
      let same : type_value a.kind ≡ type_value b.kind = ap type_value k in
      let data_same = (data_eq_iff a.entry b.entry).1 d in ground (arith, same, data_same),
)

error_test :
    print_error (record default_options { status = missing_command; option = b'p' }) []
    ≡ codes "Options::Error{status = 3, option = p, optionArgument = }\n}"
unfolding print_error print_u64 status_value print_from
error_test = refl
