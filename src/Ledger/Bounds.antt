-- ===== src/Ledger/Bounds.antt =====
-- When the `int64_t` arithmetic of the balance cannot overflow.
use cashmere.Base.{
  Option-cases, inl, inr, none, some, ℕ, ◌+◌, ◌^◌, ◌≤◌, ◌<◌, ◌≡◌, refl, List, [], ◌∷◌, ◌++◌, Option,
  none, some, arith, Bool-cases, inl, inr,
}
use cashmere.Base.Int.{ℤ, ◌-ℤ◌, abs, abs-add-le, add_sub_cancel, add_sub_assoc}
use cashmere.OrderedMap.{lookup, assign}
use cashmere.OrderedMap.Laws.{compare_keys, before, same, after}
use cashmere.Clock.{Clock}
use cashmere.Clock.Lexicographic.{clock_order}
use cashmere.Entry.{Entry}
use cashmere.Ledger.{Rows, Ledger, empty_ledger, from_entries}
use cashmere.Ledger.Rows.{target, wins, outcome, outcome_row, add_all, add_entries_lem}
use cashmere.Ledger.Balance.{total, total-add_all}

-- The absolute values of the entries, added up.
unfoldable pub weight : List Entry → ℕ
weight [] = 0
weight (e ∷ entries) = abs e.entry.value + weight entries

row_weight : Rows → ℕ
row_weight [] = 0
row_weight ((k, row) ∷ rows) = abs row.entry.value + row_weight rows

abs-total-le : (rows : Rows) → abs (total rows) ≤ row_weight rows
unfolding total row_weight
abs-total-le [] = omega arith
abs-total-le ((k, row) ∷ rows) =
    omega (arith, abs-add-le row.entry.value (total rows), abs-total-le rows)

row_weight-assign-le :
    (k : Clock) (e : Entry) (rows : Rows)
    → row_weight (assign k e rows) ≤ row_weight rows + abs e.entry.value
unfolding row_weight assign
row_weight-assign-le k e [] = omega arith
row_weight-assign-le k e ((j, row) ∷ rows) = ground (arith, row_weight-assign-le k e rows)

-- Without one of its rows the sum is within the weight too.
abs-sub-row-le :
    (k : Clock) (r : Entry) (rows : Rows)
    → lookup k rows ≡ some r
    → abs (total rows -ℤ r.entry.value) ≤ row_weight rows
unfolding total row_weight lookup
abs-sub-row-le k r [] h = cc
abs-sub-row-le k r ((j, row) ∷ rows) h = elim (compare_keys k j) [
  | before p q ↦ absurd (ground arith)
  | same e p q ↦
      let found : row ≡ r = ground arith in
      rw (found, add_sub_cancel r.entry.value (total rows)) (omega (arith, abs-total-le rows))
  | after p q ↦ rw (add_sub_assoc row.entry.value (total rows) r.entry.value) (
      omega (
        arith,
        abs-add-le row.entry.value (total rows -ℤ r.entry.value),
        abs-sub-row-le k r rows (ground arith),
      ))
]

row_weight-outcome :
    (l : Ledger) (e : Entry) (row : Option Entry)
    → row_weight (outcome l e row).rows ≤ row_weight l.rows + abs e.entry.value
row_weight-outcome l e none = row_weight-assign-le (target e) e l.rows
row_weight-outcome l e (some r) = elim (Bool-cases (wins r e)) [
  | inl won ↦ rw won (row_weight-assign-le (target e) e l.rows)
  | inr lost ↦ rw lost (omega arith)
]

row_weight-add_all :
    (l : Ledger) (entries : List Entry)
    → row_weight (add_all l entries).rows ≤ row_weight l.rows + weight entries
unfolding add_all outcome_row weight
row_weight-add_all l [] = omega arith
row_weight-add_all l (e ∷ entries) = omega (
  arith,
  row_weight-add_all (outcome_row l e) entries,
  row_weight-outcome l e (lookup (target e) l.rows),
)

weight-append : (xs ys : List Entry) → weight (xs ++ ys) ≡ weight xs + weight ys
unfolding weight
weight-append [] ys = omega arith
weight-append (x ∷ xs) ys = omega (arith, weight-append xs ys)

row_weight-prefix-le :
    (xs ys : List Entry) → row_weight (add_all empty_ledger xs).rows ≤ weight (xs ++ ys)
unfolding row_weight
row_weight-prefix-le xs ys = omega (arith, row_weight-add_all empty_ledger xs, weight-append xs ys)

-- `_balance - _rows.at(what).entry.value`, and the balance where there is no such row.
abbrev pub less_row : Clock → Ledger → ℤ
less_row what l = elim (lookup what l.rows) [
  | none ↦ l.balance
  | some r ↦ l.balance -ℤ r.entry.value
]

-- If the absolute values of all entries add up to less than 2^63, then after every prefix of the
-- entries the balance is within an `int64_t`, and so is the balance less the value of any row, which
-- is what `Replace` computes on the way.
pub balance_fits :
    (xs ys : List Entry) (what : Clock)
    → weight (xs ++ ys) < 2 ^ 63
    → (l : Ledger) × (from_entries xs ≡ some l)
      × (abs l.balance < 2 ^ 63)
      × (abs (less_row what l) < 2 ^ 63)
unfolding from_entries total
balance_fits xs ys what h =
    let l = add_all empty_ledger xs in
    let sum : l.balance ≡ total l.rows = total-add_all empty_ledger xs refl in
    let fits : abs l.balance < 2 ^ 63 =
      rw sum (omega (arith, abs-total-le l.rows, row_weight-prefix-le xs ys)) in
    (
      l,
      add_entries_lem empty_ledger xs,
      fits,
      elim (Option-cases (lookup what l.rows)) [
        | inl missing ↦ rw (less_row, missing) fits
        | inr found ↦
            rw (less_row, found.1)
              (rw sum (
                omega
                  (arith, abs-sub-row-le what found.0 l.rows found.1, row_weight-prefix-le xs ys)))
      ],
    )
