-- ===== src/Broker/Answers.antt =====
-- What a journal answers to `query` (cashmere/src/journalbase.cpp).
use cashmere.Base.{
  ◌≡◌, ◌≢◌, ◌↔◌, sym, subst, true, false, ◌||◌, List, [], ◌∷◌, arith, Bool-cases, inl, inr, Among,
}
use cashmere.OrderedMap.{IsSorted, nat_order}
use cashmere.Clock.{Clock, smaller_than, concurrent}
use cashmere.Clock.Causality.{
  Precedes, Precedes-refl, smaller_than-Precedes, Relation, equal, earlier, later, parallel, relate,
}
use cashmere.Entry.{Entry}
use cashmere.Broker.{Node}
use cashmere.Broker.Query.{entries_of, select, journal_query}

-- Each entry has a clock that is a well-formed map.
abbrev pub AreSorted : List Entry → Type 0
AreSorted [] = Unit {0}
AreSorted (e ∷ rest) = IsSorted e.clock × AreSorted rest

module _ (time from : Clock) (st : IsSorted time) (sf : IsSorted from) where
  ahead-Precedes : time ≢ from → smaller_than time from ≡ false → ¬ Precedes time from
  ahead-Precedes apart ahead seen =
      absurd (ground (arith, ahead, (smaller_than-Precedes time from st sf).1 (apart, seen)))

  selected :
      Relation time from
      → ((concurrent time from || smaller_than from time) ≡ true) ↔ (¬ Precedes time from)
  selected (equal same p q r) = (
    λ h. absurd (ground (arith, h, q, r)),
    λ h. absurd (h (subst (λ t. Precedes time t) same (Precedes-refl time))),
  )
  selected (earlier apart p q r) = (
    λ h. absurd (ground (arith, h, q, r)),
    λ h. absurd (h ((smaller_than-Precedes time from st sf).0 p).1),
  )
  selected (later apart p q r) = (λ h. ahead-Precedes apart p, λ h. ground (arith, q))
  selected (parallel apart p q r) = (λ h. ahead-Precedes apart p, λ h. ground (arith, r))

  -- The test of the loop: the entry's event is one that `from` has not seen.
  unseen : ((concurrent time from || smaller_than from time) ≡ true) ↔ (¬ Precedes time from)
  unseen = selected (relate time from st sf)

Among-select :
    (from : Clock) (entries : List Entry) (e : Entry)
    → IsSorted from
    → AreSorted entries
    → Among e (select from entries) ↔ (Among e entries × (¬ Precedes e.clock from))
unfolding select
Among-select from [] e sf s = (λ h. absurd h, λ h. absurd h.0)
Among-select from (x ∷ rest) e sf s =
    let later = Among-select from rest e sf s.1 in
    let test = unseen x.clock from s.0 sf in
    elim (Bool-cases (concurrent x.clock from || smaller_than from x.clock)) [
      | inl new ↦ rw new (
        λ h. elim h [
          | inl same ↦ (inl same, subst (λ t. ¬ Precedes t.clock from) (sym same) (test.0 new))
          | inr there ↦ let k = later.0 there in (inr k.0, k.1)
        ],
        λ h. elim h.0 [ inl same ↦ inl same | inr there ↦ inr (later.1 (there, h.1)) ],
      )
      | inr old ↦ rw old (
        λ h. let k = later.0 h in (inr k.0, k.1),
        λ h. elim h.0 [
          | inl same ↦
              absurd (ground (arith, old, test.1 (subst (λ t. ¬ Precedes t.clock from) same h.1)))
          | inr there ↦ later.1 (there, h.1)
        ],
      )
    ]

-- A journal whose recorded clocks are well-formed answers a query from a well-formed clock with
-- exactly the entries that it has recorded and whose events the clock has not seen.
pub journal_query_complete :
    (n : Node) (from : Clock) (e : Entry)
    → IsSorted from
    → AreSorted (entries_of n.entries)
    → Among e (journal_query n from) ↔ (Among e (entries_of n.entries) × (¬ Precedes e.clock from))
unfolding journal_query
journal_query_complete n from e sf s = Among-select from (entries_of n.entries) e sf s
