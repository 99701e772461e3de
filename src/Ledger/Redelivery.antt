-- ===== src/Ledger/Redelivery.antt =====
-- An entry that is received again.
use cashmere.Base.{◌∙◌, ◌≡◌, ap, false, Option, none, some, arith}
use cashmere.OrderedMap.{lookup}
use cashmere.Clock.Lexicographic.{clock_order}
use cashmere.Entry.{Entry}
use cashmere.Ledger.{Ledger, add_entry}
use cashmere.Ledger.Rows.{
  target, wins, pick, outcome, outcome_row, lookup-outcome_self, add_entry_lem,
}
use cashmere.Ledger.Swap.{wins_irrefl}

wins-pick : (row : Option Entry) (e : Entry) → wins (pick row e) e ≡ false
unfolding pick
wins-pick none e = wins_irrefl e
wins-pick (some r) e = ground (arith, wins_irrefl e)

outcome_ignored :
    (l : Ledger) (e r : Entry)
    → lookup (target e) l.rows ≡ some r
    → wins r e ≡ false
    → outcome_row l e ≡ l
unfolding outcome_row
outcome_ignored l e r h lost = ap (outcome l e) h ∙ rw lost

-- Receiving an entry once more at once changes nothing, whatever the ledger: neither the rows nor
-- the balance count it twice.
pub add_entry_twice :
    (l l' : Ledger) (e : Entry) → add_entry l e ≡ some l' → add_entry l' e ≡ some l'
add_entry_twice l l' e h =
    let once : outcome_row l e ≡ l' = cc (add_entry_lem l e) in
    rw (← once) (
      add_entry_lem (outcome_row l e) e
      ∙ ap some (
          outcome_ignored (outcome_row l e) e (pick (lookup (target e) l.rows) e)
            (lookup-outcome_self l e) (wins-pick (lookup (target e) l.rows) e)))
