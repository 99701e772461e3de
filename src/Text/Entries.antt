-- ===== src/Text/Entries.antt =====
-- The text form of data and entries: operator<<, Data::Read and Entry::Read of
-- cashmere/crdt/src/entry.cpp.
use cashmere.Base.{ℕ, true, List, [], ◌∷◌, ◌≡◌, refl, codes}
use cashmere.Base.Int.{ℤ}
use cashmere.OrderedMap.{assign}
use cashmere.Entry.{Data, Entry, empty_data}
use cashmere.Text.{
  peek, read_spaces, read_pair, fresh, Step, ◌then_read◌, token, number, unchecked, member,
  read_u64, read_i64, read_char, print_u64, print_i64, comma, space, open_curly, close_curly,
}
use cashmere.Text.Clocks.{read_body, read_loop, read_pairs, print_clock, read_clock}

unfoldable pub print_data : Data → List ℕ → List ℕ
print_data d out =
    open_curly
    ∷ print_u64 16 d.id (
        comma
        ∷ space
        ∷ print_i64 d.value (comma ∷ space ∷ print_clock d.alters (close_curly ∷ out)))

unfoldable pub print_entry : Entry → List ℕ → List ℕ
print_entry e out =
    open_curly ∷ print_clock e.clock (comma ∷ space ∷ print_data e.entry (close_curly ∷ out))

-- Data::str
abbrev data_str : Data → List ℕ
data_str d = print_data d []

-- Entry::str
abbrev entry_str : Entry → List ℕ
entry_str e = print_entry e []

-- Data::Read
unfoldable pub read_data : Step Data
read_data =
    token open_curly
    then_read unchecked (read_u64 16) (λ d. d.id) (λ d id. record d { id = id })
    then_read token comma
    then_read number read_i64 (λ d. d.value) (λ d value. record d { value = value })
    then_read token comma
    then_read member read_clock (λ d. d.alters) (λ d alters. record d { alters = alters })
    then_read token close_curly

-- Entry::Read
unfoldable pub read_entry : Step Entry
read_entry =
    token open_curly
    then_read member read_clock (λ e. e.clock) (λ e clock. record e { clock = clock })
    then_read token comma
    then_read member read_data (λ e. e.entry) (λ e entry. record e { entry = entry })
    then_read token close_curly

-- Entry{}
abbrev pub empty_entry : Entry
empty_entry = record { clock = []; entry = empty_data }

entry_test : read_entry empty_entry (fresh (codes "{{{a, 1}}, {a, -5, {}}}\nmore")) ≡ (
  true,
  (record { clock = (10, 1) ∷ []; entry = record { id = 10; value = ℤ.negsuc 4; alters = [] } }),
  fresh (codes "\nmore"),
)
unfolding read_entry read_data read_clock read_body read_loop read_pairs read_pair read_char
    read_spaces peek read_u64 read_i64 assign
entry_test = refl
