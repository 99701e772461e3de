-- ===== src/Ledger/Conflict.antt =====
-- Edits of one transaction on several devices. When nobody edits an edit the replicas agree; when a
-- device edits on top of an edit while another is concurrent to both, they may not.
use cashmere.Base.{
  ◌<◌, ◌≡◌, ◌≢◌, refl, ap, ◌∙◌, ◌⊎◌, inl, inr, true, false, List, [], ◌∷◌, some, arith, ltb,
}
use mathlib.Core.List.{Perm}
use cashmere.Base.Int.{int_laws}
use cashmere.OrderedMap.{lookup, assign}
use cashmere.Clock.{Clock, smaller_than, concurrent}
use cashmere.Clock.Lexicographic.{clock_order, clock_lt_irrefl}
use cashmere.Clock.Causality.{smaller_than_irrefl}
use cashmere.Entry.{Entry}
use cashmere.Ledger.{Ledger, empty_ledger, from_entries, balance_of, is_empty}
use cashmere.Ledger.Rows.{target, wins, outcome_row, add_all, add_entries_lem}
use cashmere.Ledger.Swap.{IsRanked}
use cashmere.Ledger.Convergence.{All, from_entries-perm}

abbrev pub IsEdit : Entry → Type 0
IsEdit e = is_empty e.entry.alters ≡ false

abbrev pub IsOriginal : Entry → Type 0
IsOriginal e = is_empty e.entry.alters ≡ true

-- Two entries for one transaction: the same entry, the original and an edit that has seen it, or two
-- concurrent edits by different devices.
pub data OneRound (x y : Entry) : Type 0 where
  equal : x ≡ y → OneRound x y
  first : IsOriginal x → IsEdit y → smaller_than x.clock y.clock ≡ true → OneRound x y
  second :
      IsOriginal y
      → IsEdit x
      → smaller_than x.clock y.clock ≡ false
      → smaller_than y.clock x.clock ≡ true
      → OneRound x y
  rivals :
      IsEdit x
      → IsEdit y
      → concurrent x.clock y.clock ≡ true
      → x.entry.id ≢ y.entry.id
      → OneRound x y

-- `wins` between such entries.
wins_round :
    (x y : Entry)
    → OneRound x y
    → ((x ≡ y) × (wins x y ≡ false))
      ⊎ (((IsOriginal x) × (IsEdit y) × (wins x y ≡ true) × (wins y x ≡ false))
          ⊎ (((IsOriginal y) × (IsEdit x) × (wins x y ≡ false) × (wins y x ≡ true))
              ⊎ ((IsEdit x)
                  × (IsEdit y)
                  × (x.entry.id ≢ y.entry.id)
                  × (wins x y ≡ ltb x.entry.id y.entry.id)
                  × (wins y x ≡ ltb y.entry.id x.entry.id))))
unfolding wins concurrent
wins_round x y (equal e) = inl (e, rw e (ground (arith, smaller_than_irrefl y.clock)))
wins_round x y (first o e s) = inr (inl (o, e, ground arith, ground arith))
wins_round x y (second o e n s) = inr (inr (inl (o, e, ground arith, ground arith)))
wins_round x y (rivals e e' c d) = inr (inr (inr (e, e', d, ground arith, ground arith)))

pub round-IsRanked :
    (U : Entry → Type 0)
    → ((x y : Entry) → U x → U y → target x ≡ target y → OneRound x y)
    → IsRanked U
round-IsRanked U rounds = record {
  trans = λ x y z ux uy uz p q won won'. ground (
    arith,
    wins_round x y (rounds x y ux uy p),
    wins_round y z (rounds y z uy uz q),
    wins_round x z (rounds x z ux uz (p ∙ q)),
  );
  total = λ x y ux uy p. ground (arith, wins_round x y (rounds x y ux uy p));
}

-- If for each transaction the edits are concurrent and by different devices, and have seen the
-- original, then all orders of receiving the entries give one ledger.
pub OneRound-converges :
    (U : Entry → Type 0) (xs ys : List Entry)
    → ((x y : Entry) → U x → U y → target x ≡ target y → OneRound x y)
    → All U xs
    → Perm xs ys
    → from_entries xs ≡ from_entries ys
OneRound-converges U xs ys rounds u p = from_entries-perm U xs ys (round-IsRanked U rounds) u p

module _ (k : Clock) where
  -- A ledger with one row.
  HasRow : Ledger → Entry → Type 0
  HasRow l e = (l.rows ≡ (k, e) ∷ []) × (l.balance ≡ e.entry.value)

  outcome_first : (e : Entry) → target e ≡ k → HasRow (outcome_row empty_ledger e) e
  unfolding HasRow outcome_row lookup assign
  outcome_first e t = rw t (refl, omega int_laws)

  outcome_won :
      (l : Ledger) (r e : Entry)
      → HasRow l r
      → target e ≡ k
      → wins r e ≡ true
      → HasRow (outcome_row l e) e
  unfolding HasRow outcome_row lookup assign
  outcome_won l r e h t won =
      rw (t, h.0, h.1, clock_lt_irrefl k, won) (rw (t, clock_lt_irrefl k) (refl, omega int_laws))

wins_later : (x y : Entry) → IsEdit y → smaller_than x.clock y.clock ≡ true → wins x y ≡ true
unfolding wins
wins_later x y e s = ground arith

wins_rival :
    (x y : Entry)
    → IsEdit y
    → concurrent x.clock y.clock ≡ true
    → x.entry.id < y.entry.id
    → wins x y ≡ true
unfolding wins concurrent
wins_rival x y e c lt = ground arith

-- Three edits of the transaction `k`, received so that each takes the row from the one before.
balance_chain :
    (k : Clock) (x y z : Entry)
    → target x ≡ k
    → target y ≡ k
    → target z ≡ k
    → wins x y ≡ true
    → wins y z ≡ true
    → balance_of (x ∷ y ∷ z ∷ []) ≡ some z.entry.value
unfolding balance_of from_entries HasRow
balance_chain k x y z tx ty tz xy yz =
    rw (add_entries_lem empty_ledger (x ∷ y ∷ z ∷ []), balance_of)
      (unfold add_all in
        ap some
          (outcome_won k (outcome_row (outcome_row empty_ledger x) y) y z
            (outcome_won k (outcome_row empty_ledger x) x y (outcome_first k x tx) ty xy) tz yz).1)

-- The device of `x` edits the transaction `k`, another device edits it again as `y` when it has seen
-- `x`, and a third edits it as `z` concurrently to both, with ids y < z < x. Of two replicas that
-- receive `x` before `y`, as it happened, one ends with the value of `z` as its balance and the other
-- with the value of `y`: `z` beats `y`, which beats `x`, which beats `z`.
pub edit_of_edit_diverges :
    (k : Clock) (x y z : Entry)
    → target x ≡ k
    → target y ≡ k
    → target z ≡ k
    → IsEdit x
    → IsEdit y
    → IsEdit z
    → smaller_than x.clock y.clock ≡ true
    → concurrent y.clock z.clock ≡ true
    → concurrent z.clock x.clock ≡ true
    → y.entry.id < z.entry.id
    → z.entry.id < x.entry.id
    → (balance_of (x ∷ y ∷ z ∷ []) ≡ some z.entry.value)
      × (balance_of (z ∷ x ∷ y ∷ []) ≡ some y.entry.value)
edit_of_edit_diverges k x y z tx ty tz ex ey ez xy yz zx i j = (
  balance_chain k x y z tx ty tz (wins_later x y ey xy) (wins_rival y z ez yz i),
  balance_chain k z x y tz tx ty (wins_rival z x ex zx j) (wins_later x y ey xy),
)
