-- ===== src/Ledger/Balance.antt =====
-- The running balance of the ledger is the sum of its rows, and stays within the entries' total.
use cashmere.Base.{◌≡◌, refl, List, [], ◌∷◌, Option, none, some, arith, Bool-cases, inl, inr}
use cashmere.Base.Int.{ℤ, pos, ◌+ℤ◌, ◌-ℤ◌, int_laws}
use cashmere.OrderedMap.{lookup, assign, IsSorted}
use cashmere.OrderedMap.Laws.{compare_keys, before, same, after}
use cashmere.Clock.{Clock}
use cashmere.Clock.Lexicographic.{clock_order}
use cashmere.Entry.{Entry}
use cashmere.Ledger.{Rows, Ledger, empty_ledger, from_entries}
use cashmere.Ledger.Rows.{
  target, wins, outcome, outcome_row, add_all, add_entries_lem, add_all-IsSorted,
}

-- The sum of the rows' values.
unfoldable pub total : Rows → ℤ
total [] = pos 0
total ((k, row) ∷ rows) = row.entry.value +ℤ total rows

total-assign_new :
    (k : Clock) (e : Entry) (rows : Rows)
    → lookup k rows ≡ none
    → total (assign k e rows) ≡ total rows +ℤ e.entry.value
unfolding total assign lookup
total-assign_new k e [] h = omega int_laws
total-assign_new k e ((j, row) ∷ rows) h = elim (compare_keys k j) [
  | before p q ↦ rw p (omega int_laws)
  | same e' p q ↦ absurd (ground arith)
  | after p q ↦ rw (q, p) (rw (total-assign_new k e rows (ground arith)) (omega int_laws))
]

total-assign_old :
    (k : Clock) (e r : Entry) (rows : Rows)
    → lookup k rows ≡ some r
    → total (assign k e rows) ≡ total rows -ℤ r.entry.value +ℤ e.entry.value
unfolding total assign lookup
total-assign_old k e r [] h = cc
total-assign_old k e r ((j, row) ∷ rows) h = elim (compare_keys k j) [
  | before p q ↦ absurd (ground arith)
  | same e' p q ↦ let found : row ≡ r = ground arith in rw (p, q) (rw found (omega int_laws))
  | after p q ↦ rw (q, p) (rw (total-assign_old k e r rows (ground arith)) (omega int_laws))
]

pub total_outcome :
    (l : Ledger) (e : Entry) (row : Option Entry)
    → lookup (target e) l.rows ≡ row
    → l.balance ≡ total l.rows
    → (outcome l e row).balance ≡ total (outcome l e row).rows
total_outcome l e none found h = rw (total-assign_new (target e) e l.rows found, h)
total_outcome l e (some r) found h = elim (Bool-cases (wins r e)) [
  | inl won ↦ rw (won, total-assign_old (target e) e r l.rows found, h)
  | inr lost ↦ rw lost h
]

pub total-add_all :
    (l : Ledger) (entries : List Entry)
    → l.balance ≡ total l.rows
    → (add_all l entries).balance ≡ total (add_all l entries).rows
unfolding add_all outcome_row
total-add_all l [] h = h
total-add_all l (e ∷ entries) h =
    total-add_all (outcome_row l e) entries (total_outcome l e (lookup (target e) l.rows) refl h)

-- Every list of entries gives a ledger: the constructor never throws. Its balance is the sum of the
-- values of its rows, and its rows are a well-formed map.
pub from_entries-balance :
    (entries : List Entry)
    → (l : Ledger) × (from_entries entries ≡ some l) × (l.balance ≡ total l.rows) × IsSorted l.rows
unfolding from_entries total
from_entries-balance entries = (
  add_all empty_ledger entries,
  add_entries_lem empty_ledger entries,
  total-add_all empty_ledger entries refl,
  add_all-IsSorted empty_ledger entries tt,
)
