-- ===== src/Entry.antt =====
-- The records of cashmere/crdt/include/cashmere/entry.h, with the parts of
-- cashmere/crdt/src/entry.cpp that are not input or output. An `Amount` is an exact integer: signed
-- overflow is undefined in the source, and Ledger/Bounds.antt says when there is none.
use cashmere.Base.{ℕ, ◌≡◌, ◌↔◌, Bool, true, false, not, ◌&&◌, [], ◌∷◌, arith, ◌==◌}
use cashmere.Base.Int.{ℤ, int_eq, int_eq_iff}
use cashmere.Clock.{Clock, clock_eq}
use cashmere.Clock.Causality.{clock_eq_iff}

pub record Data : Type 0 where
  pub id : ℕ
  pub value : ℤ
  pub alters : Clock

pub record Entry : Type 0 where
  pub clock : Clock
  pub entry : Data

-- Data{}
abbrev pub empty_data : Data
empty_data = record { id = 0; value = ℤ.pos 0; alters = [] }

-- Data::valid: `alters` has a first id, and it is not 0.
unfoldable pub data_valid : Data → Bool
data_valid d = elim d.alters [ [] ↦ false | x ∷ rest ↦ not (x.0 == 0) ]

unfoldable pub data_eq : Data → Data → Bool
data_eq a b = a.id == b.id && int_eq a.value b.value && clock_eq a.alters b.alters

unfoldable pub entry_eq : Entry → Entry → Bool
entry_eq a b = clock_eq a.clock b.clock && data_eq a.entry b.entry

pub data_eq_iff : (a b : Data) → (data_eq a b ≡ true) ↔ (a ≡ b)
unfolding data_eq
data_eq_iff a b = ground (arith, int_eq_iff a.value b.value, clock_eq_iff a.alters b.alters)

pub entry_eq_iff : (a b : Entry) → (entry_eq a b ≡ true) ↔ (a ≡ b)
unfolding entry_eq
entry_eq_iff a b = ground (arith, clock_eq_iff a.clock b.clock, data_eq_iff a.entry b.entry)
