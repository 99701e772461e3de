-- ===== src/Ledger/Rows.antt =====
-- What one entry does to the rows of the ledger: it changes at most the row of its target.
use cashmere.Base.{
  ◌≡◌, ◌≢◌, refl, ap, ◌∙◌, Bool, not, ◌&&◌, ◌||◌, List, [], ◌∷◌, Option, none, some, arith, ltb,
  if◌then◌else◌, Bool-cases, inl, inr,
}
use cashmere.Base.Int.{ℤ, ◌+ℤ◌, ◌-ℤ◌}
use cashmere.OrderedMap.{lookup, assign, IsSorted}
use cashmere.OrderedMap.Laws.{lookup-assign_self, lookup-assign_ne, assign-IsSorted}
use cashmere.Clock.{Clock, smaller_than}
use cashmere.Clock.Lexicographic.{clock_order}
use cashmere.Entry.{Entry}
use cashmere.Ledger.{
  Rows, Ledger, ignore, insert, replace, is_empty, replaces, evaluate, store, perform, value_at,
  add_entry, add_entries,
}

-- The transaction that an entry is about: itself, or the one that it alters.
abbrev pub target : Entry → Clock
target e = if is_empty e.entry.alters then e.clock else e.entry.alters

-- Whether `incoming` takes the row from `existing`: it is an edit, and it comes after `existing` or,
-- if neither comes after the other, has the larger device id.
unfoldable pub wins : Entry → Entry → Bool
wins existing incoming =
    not (is_empty incoming.entry.alters)
    && (smaller_than existing.clock incoming.clock
        || (not (smaller_than incoming.clock existing.clock)
            && ltb existing.entry.id incoming.entry.id))

-- The row of a target after an entry for it.
unfoldable pub pick : Option Entry → Entry → Entry
pick none e = e
pick (some r) e = if wins r e then e else r

-- The action for each state of the target's row.
pub evaluate_lem :
    (rows : Rows) (e : Entry)
    → evaluate rows e ≡ elim (lookup (target e) rows) [
      | none ↦ (insert, target e)
      | some r ↦ if wins r e then (replace, target e) else (ignore, [])
    ]
unfolding evaluate replaces wins
evaluate_lem rows e = ground arith

store_lem :
    (balance : ℤ) (rows : Rows) (what : Clock) (e : Entry)
    → store balance rows what e
      ≡ some (record { balance = balance +ℤ e.entry.value; rows = assign what e rows })
unfolding store value_at
store_lem balance rows what e = ground (arith, lookup-assign_self what e rows)

-- One entry, as a function of the row that it finds.
abbrev pub outcome : Ledger → Entry → Option Entry → Ledger
outcome l e none = record {
  balance = l.balance +ℤ e.entry.value;
  rows = assign (target e) e l.rows;
}
outcome l e (some r) =
    if wins r e
    then record {
      balance = l.balance -ℤ r.entry.value +ℤ e.entry.value;
      rows = assign (target e) e l.rows;
    }
    else l

perform-replace :
    (l : Ledger) (what : Clock) (e r : Entry)
    → lookup what l.rows ≡ some r
    → perform l (replace, what) e ≡ store (l.balance -ℤ r.entry.value) l.rows what e
unfolding perform value_at
perform-replace l what e r found = rw (found, perform)

perform_row :
    (l : Ledger) (e : Entry) (row : Option Entry)
    → lookup (target e) l.rows ≡ row
    → perform l
        (elim row [
          | none ↦ (insert, target e)
          | some r ↦ if wins r e then (replace, target e) else (ignore, [])
        ])
        e
      ≡ some (outcome l e row)
unfolding perform
perform_row l e none found = store_lem l.balance l.rows (target e) e
perform_row l e (some r) found = elim (Bool-cases (wins r e)) [
  | inl won ↦ rw won (
      perform-replace l (target e) e r found
      ∙ store_lem (l.balance -ℤ r.entry.value) l.rows (target e) e)
  | inr lost ↦ rw lost
]

unfoldable pub outcome_row : Ledger → Entry → Ledger
outcome_row l e = outcome l e (lookup (target e) l.rows)

-- An entry is always taken in: `at` finds the row that it asks for.
pub add_entry_lem : (l : Ledger) (e : Entry) → add_entry l e ≡ some (outcome_row l e)
unfolding add_entry outcome_row
add_entry_lem l e =
    ap (λ what. perform l what e) (evaluate_lem l.rows e)
    ∙ perform_row l e (lookup (target e) l.rows) refl

pick_row :
    (l : Ledger) (e : Entry) (row : Option Entry)
    → lookup (target e) l.rows ≡ row
    → lookup (target e) (outcome l e row).rows ≡ some (pick row e)
unfolding pick
pick_row l e none found = lookup-assign_self (target e) e l.rows
pick_row l e (some r) found = elim (Bool-cases (wins r e)) [
  | inl won ↦ rw won (lookup-assign_self (target e) e l.rows)
  | inr lost ↦ rw lost found
]

-- The rows after an entry: its target's row is picked, every other is as it was.
pub lookup-outcome_self :
    (l : Ledger) (e : Entry)
    → lookup (target e) (outcome_row l e).rows ≡ some (pick (lookup (target e) l.rows) e)
unfolding outcome_row
lookup-outcome_self l e = pick_row l e (lookup (target e) l.rows) refl

keep_row :
    (l : Ledger) (e : Entry) (k : Clock) (row : Option Entry)
    → k ≢ target e
    → lookup k (outcome l e row).rows ≡ lookup k l.rows
keep_row l e k none apart = lookup-assign_ne k (target e) e l.rows apart
keep_row l e k (some r) apart = elim (Bool-cases (wins r e)) [
  | inl won ↦ rw won (lookup-assign_ne k (target e) e l.rows apart)
  | inr lost ↦ rw lost
]

pub lookup-outcome_ne :
    (l : Ledger) (e : Entry) (k : Clock)
    → k ≢ target e
    → lookup k (outcome_row l e).rows ≡ lookup k l.rows
unfolding outcome_row
lookup-outcome_ne l e k apart = keep_row l e k (lookup (target e) l.rows) apart

outcome-IsSorted :
    (l : Ledger) (e : Entry) (row : Option Entry)
    → IsSorted l.rows
    → IsSorted (outcome l e row).rows
outcome-IsSorted l e none s = assign-IsSorted (target e) e l.rows s
outcome-IsSorted l e (some r) s = elim (Bool-cases (wins r e)) [
  | inl won ↦ rw won (assign-IsSorted (target e) e l.rows s)
  | inr lost ↦ rw lost s
]

pub outcome_row-IsSorted :
    (l : Ledger) (e : Entry) → IsSorted l.rows → IsSorted (outcome_row l e).rows
unfolding outcome_row
outcome_row-IsSorted l e s = outcome-IsSorted l e (lookup (target e) l.rows) s

-- The ledger after a list of entries, without the exceptions.
unfoldable pub add_all : Ledger → List Entry → Ledger
add_all l [] = l
add_all l (e ∷ entries) = add_all (outcome_row l e) entries

-- No entries make the constructor's `at` throw.
pub add_entries_lem :
    (l : Ledger) (entries : List Entry) → add_entries l entries ≡ some (add_all l entries)
unfolding add_entries add_all
add_entries_lem l [] = refl
add_entries_lem l (e ∷ entries) =
    rw (add_entry_lem l e, add_entries) (add_entries_lem (outcome_row l e) entries)

pub add_all-IsSorted :
    (l : Ledger) (entries : List Entry) → IsSorted l.rows → IsSorted (add_all l entries).rows
unfolding add_all
add_all-IsSorted l [] s = s
add_all-IsSorted l (e ∷ entries) s =
    add_all-IsSorted (outcome_row l e) entries (outcome_row-IsSorted l e s)
