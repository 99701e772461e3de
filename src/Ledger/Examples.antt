-- ===== src/Ledger/Examples.antt =====
-- Entries of cashmere/crdt/tests/test_ledger.cpp, and the theorems at them.
use mathlib.Core.List.{Perm}
use mathlib.Core.List.Perm
use cashmere.Base.{ℕ, ◌^◌, ◌<◌, ◌≡◌, ◌⊎◌, inl, inr, refl, sym, ◌∙◌, [], ◌∷◌, ◌++◌, some, arith}
use cashmere.Base.Int.{pos, ◌+ℤ◌, ◌-ℤ◌, abs}
use cashmere.OrderedMap.{lookup, assign, IsSorted}
use cashmere.Clock.{Clock, smaller_than, concurrent, clock_eq, merge}
use cashmere.Clock.Lexicographic.{clock_order, clock_lt}
use cashmere.Entry.{Entry}
use cashmere.Ledger.{
  Ledger, from_entries, balance_of, add_entry, add_entries, perform, evaluate, replaces, store,
  value_at, empty_ledger,
}
use cashmere.Ledger.Rows.{target}
use cashmere.Ledger.Balance.{total, from_entries-balance}
use cashmere.Ledger.Bounds.{weight, balance_fits, less_row}
use cashmere.Ledger.Convergence.{All, from_entries-perm}
use cashmere.Ledger.Conflict.{
  OneRound, equal, rivals, first, second, round-IsRanked, OneRound-converges, edit_of_edit_diverges,
}
use cashmere.Ledger.Redelivery.{add_entry_twice}

abbrev make : Clock → ℕ → ℕ → Clock → Entry
make clock id value alters = record {
  clock = clock;
  entry = record { id = id; value = pos value; alters = alters };
}

abbrev ff : Clock
ff = (0xff, 1) ∷ []

abbrev original : Entry
original = make ff 0xff 300 []

abbrev edit_aa : Entry
edit_aa = make ((0xaa, 1) ∷ (0xff, 1) ∷ []) 0xaa 50 ff

abbrev edit_ff : Entry
edit_ff = make ((0xff, 2) ∷ []) 0xff 10 ff

balance_test : balance_of (original ∷ edit_aa ∷ edit_ff ∷ []) ≡ some (pos 10)
unfolding balance_of from_entries add_entries add_entry perform evaluate replaces store value_at
    lookup assign smaller_than clock_eq merge clock_lt ◌+ℤ◌ ◌-ℤ◌
balance_test = refl

from_entries-balance_example :
    (l : Ledger) × (from_entries (original ∷ edit_aa ∷ []) ≡ some l)
    × (l.balance ≡ total l.rows)
    × IsSorted l.rows
from_entries-balance_example = from_entries-balance (original ∷ edit_aa ∷ [])

light : weight ((original ∷ []) ++ edit_aa ∷ edit_ff ∷ []) < 2 ^ 63
unfolding weight
light = omega arith

balance_fits_example :
    (l : Ledger) × (from_entries (original ∷ []) ≡ some l)
    × (abs l.balance < 2 ^ 63)
    × (abs (less_row original.clock l) < 2 ^ 63)
balance_fits_example = balance_fits (original ∷ []) (edit_aa ∷ edit_ff ∷ []) original.clock light

abbrev Pool : Entry → Type 0
Pool e = (e ≡ original) ⊎ ((e ≡ edit_aa) ⊎ (e ≡ edit_ff))

Pool-rounds : (x y : Entry) → Pool x → Pool y → target x ≡ target y → OneRound x y
unfolding smaller_than concurrent clock_eq merge lookup assign
Pool-rounds x y (inl p) (inl q) t = equal (p ∙ sym q)
Pool-rounds x y (inl p) (inr (inl q)) t = rw (p, q) (first refl refl refl)
Pool-rounds x y (inl p) (inr (inr q)) t = rw (p, q) (first refl refl refl)
Pool-rounds x y (inr (inl p)) (inl q) t = rw (p, q) (second refl refl refl refl)
Pool-rounds x y (inr (inl p)) (inr (inl q)) t = equal (p ∙ sym q)
Pool-rounds x y (inr (inl p)) (inr (inr q)) t = rw (p, q) (rivals refl refl refl (omega arith))
Pool-rounds x y (inr (inr p)) (inl q) t = rw (p, q) (second refl refl refl refl)
Pool-rounds x y (inr (inr p)) (inr (inl q)) t = rw (p, q) (rivals refl refl refl (omega arith))
Pool-rounds x y (inr (inr p)) (inr (inr q)) t = equal (p ∙ sym q)

in-Pool : All Pool (original ∷ edit_aa ∷ edit_ff ∷ [])
in-Pool = (inl refl, (inr (inl refl), (inr (inr refl), tt)))

swapped : Perm (original ∷ edit_aa ∷ edit_ff ∷ []) (original ∷ edit_ff ∷ edit_aa ∷ [])
swapped = Perm.cons original (Perm.swap edit_ff edit_aa [])

from_entries-perm_example :
    from_entries (original ∷ edit_aa ∷ edit_ff ∷ [])
    ≡ from_entries (original ∷ edit_ff ∷ edit_aa ∷ [])
from_entries-perm_example =
    from_entries-perm Pool (original ∷ edit_aa ∷ edit_ff ∷ []) (original ∷ edit_ff ∷ edit_aa ∷ [])
      (round-IsRanked Pool Pool-rounds) in-Pool swapped

OneRound-converges_example :
    from_entries (original ∷ edit_aa ∷ edit_ff ∷ [])
    ≡ from_entries (original ∷ edit_ff ∷ edit_aa ∷ [])
OneRound-converges_example =
    OneRound-converges Pool (original ∷ edit_aa ∷ edit_ff ∷ []) (original ∷ edit_ff ∷ edit_aa ∷ [])
      Pool-rounds in-Pool swapped

-- Device 3 edits, device 1 has seen that edit and edits again, device 2 edits on its own.
abbrev edit_3 : Entry
edit_3 = make ((3, 1) ∷ (0xff, 1) ∷ []) 3 30 ff

abbrev edit_1 : Entry
edit_1 = make ((1, 1) ∷ (3, 1) ∷ (0xff, 1) ∷ []) 1 10 ff

abbrev edit_2 : Entry
edit_2 = make ((2, 1) ∷ (0xff, 1) ∷ []) 2 20 ff

edit_of_edit_diverges_example :
    (balance_of (edit_3 ∷ edit_1 ∷ edit_2 ∷ []) ≡ some (pos 20))
    × (balance_of (edit_2 ∷ edit_3 ∷ edit_1 ∷ []) ≡ some (pos 10))
unfolding smaller_than concurrent clock_eq merge
edit_of_edit_diverges_example =
    edit_of_edit_diverges ff edit_3 edit_1 edit_2 refl refl refl refl refl refl refl refl refl
      (omega arith) (omega arith)

abbrev one_row : Ledger
one_row = record { balance = pos 300; rows = (ff, original) ∷ [] }

first_delivery : add_entry empty_ledger original ≡ some one_row
unfolding add_entry perform evaluate replaces store value_at lookup assign clock_lt ◌+ℤ◌
first_delivery = refl

add_entry_twice_example : add_entry one_row original ≡ some one_row
add_entry_twice_example = add_entry_twice empty_ledger one_row original first_delivery
