-- ===== src/Ledger.antt =====
-- cashmere/crdt/include/cashmere/ledger.h and cashmere/crdt/src/ledger.cpp: the view of the entries,
-- a row for each transaction, in which an edit stands for the transaction that it alters.
-- `none` is the exception of `std::map::at` on a missing key.
pub mod Rows
pub mod Balance
pub mod Bounds
pub mod Swap
pub mod Convergence
pub mod Conflict
pub mod Redelivery
pub mod Examples
use cashmere.Base.{ℕ, ◌≡◌, Bool, true, false, List, [], ◌∷◌, Option, none, some, ltb, if◌then◌else◌}
use cashmere.Base.Int.{ℤ, pos, ◌+ℤ◌, ◌-ℤ◌}
use cashmere.OrderedMap.{OrderedMap, lookup, assign, contains}
use cashmere.Clock.{Clock, smaller_than}
use cashmere.Clock.Lexicographic.{clock_order}
use cashmere.Entry.{Entry}

abbrev pub Rows : Type 0
Rows = OrderedMap Clock Entry

pub data Action : Type 0 where
  ignore insert replace : Action

abbrev pub ActionClock : Type 0
ActionClock = Action × Clock

abbrev pub is_empty : Clock → Bool
is_empty [] = true
is_empty (x ∷ c) = false

unfoldable pub replaces : Entry → Entry → ActionClock
replaces existing incoming =
    if is_empty incoming.entry.alters
    then (ignore, [])
    else if smaller_than existing.clock incoming.clock
    then (replace, incoming.entry.alters)
    else if smaller_than incoming.clock existing.clock
    then (ignore, [])
    else if ltb existing.entry.id incoming.entry.id
    then (replace, incoming.entry.alters)
    else (ignore, [])

unfoldable pub evaluate : Rows → Entry → ActionClock
evaluate rows incoming =
    if is_empty incoming.entry.alters
    then (elim (lookup incoming.clock rows) [
      | none ↦ (insert, incoming.clock)
      | some existing ↦ (ignore, [])
    ])
    else elim (lookup incoming.entry.alters rows) [
      | none ↦ (insert, incoming.entry.alters)
      | some existing ↦ replaces existing incoming
    ]

pub record Ledger : Type 0 where
  pub balance : ℤ
  pub rows : Rows

abbrev pub empty_ledger : Ledger
empty_ledger = record { balance = pos 0; rows = [] }

-- _rows.at(what).entry.value
unfoldable pub value_at : Clock → Rows → Option ℤ
value_at what rows = elim (lookup what rows) [ none ↦ none | some row ↦ some row.entry.value ]

-- The `Insert` case: `_rows[what] = clockEntry; _balance += _rows.at(what).entry.value`.
unfoldable pub store : ℤ → Rows → Clock → Entry → Option Ledger
store balance rows what incoming =
    let rows' = assign what incoming rows in
    elim (value_at what rows') [
      | none ↦ none
      | some value ↦ some (record { balance = balance +ℤ value; rows = rows' })
    ]

-- The `switch` of the constructor's loop; `Replace` falls through to `Insert`.
unfoldable pub perform : Ledger → ActionClock → Entry → Option Ledger
perform l (ignore, what) incoming = some l
perform l (insert, what) incoming = store l.balance l.rows what incoming
perform l (replace, what) incoming = elim (value_at what l.rows) [
  | none ↦ none
  | some old ↦ store (l.balance -ℤ old) l.rows what incoming
]

unfoldable pub add_entry : Ledger → Entry → Option Ledger
add_entry l incoming = perform l (evaluate l.rows incoming) incoming

unfoldable pub add_entries : Ledger → List Entry → Option Ledger
add_entries l [] = some l
add_entries l (e ∷ entries) = elim (add_entry l e) [
  | none ↦ none
  | some l' ↦ add_entries l' entries
]

-- Ledger(const EntryList&)
unfoldable pub from_entries : List Entry → Option Ledger
from_entries entries = add_entries empty_ledger entries

-- Ledger::Balance
unfoldable pub balance_of : List Entry → Option ℤ
balance_of entries = elim (from_entries entries) [ none ↦ none | some l ↦ some l.balance ]
