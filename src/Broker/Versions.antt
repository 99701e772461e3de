-- ===== src/Broker/Versions.antt =====
-- What Broker::versions (cashmere/src/hub.cpp) answers.
use cashmere.Base.{
  ℕ, ◌≡◌, ◌↔◌, sym, subst, ap, Bool, List, [], ◌∷◌, ◌==◌, if◌then◌else◌, ==_iff, arith, Bool-cases,
  inl, inr,
}
use cashmere.OrderedMap.{lookup, assign, IsSorted, nat_order}
use cashmere.OrderedMap.Laws.{lookup-assign_self, lookup-assign_ne}
use cashmere.Clock.{Clock, merge}
use cashmere.Clock.Causality.{Precedes, merge_least}
use cashmere.Broker.{IdConnectionInfoMap, IdClockMap, Link, Node}
use cashmere.Broker.Provides.{clock_or_empty, merge_versions, versions_from, versions}

-- Each clock that `infos` lists for `id` is at or below `c`.
abbrev pub Bounded : ℕ → Clock → IdConnectionInfoMap → Type 0
Bounded id c [] = Unit {0}
Bounded id c ((i, info) ∷ rest) =
    (if i == id then Precedes info.clock c else Unit {0}) × Bounded id c rest

abbrev pub AllBounded : ℕ → Clock → List Link → Type 0
AllBounded id c [] = Unit {0}
AllBounded id c (l ∷ rest) = Bounded id c l.sources × AllBounded id c rest

-- The clocks of the infos are well-formed maps.
abbrev pub ClocksAreSorted : IdConnectionInfoMap → Type 0
ClocksAreSorted [] = Unit {0}
ClocksAreSorted ((i, info) ∷ rest) = IsSorted info.clock × ClocksAreSorted rest

abbrev pub LinksAreSorted : List Link → Type 0
LinksAreSorted [] = Unit {0}
LinksAreSorted (l ∷ rest) = ClocksAreSorted l.sources × LinksAreSorted rest

-- The clock of `id` in a map of clocks.
abbrev pub clock_of : ℕ → IdClockMap → Clock
clock_of id out = clock_or_empty (lookup id out)

clock_of-assign :
    (id i : ℕ) (seen c : Clock) (out : IdClockMap)
    → IsSorted seen
    → Precedes (clock_of id (assign i (merge (clock_of i out) seen) out)) c
      ↔ (Precedes (clock_of id out) c × (if i == id then Precedes seen c else Unit {0}))
clock_of-assign id i seen c out s =
    let out' = assign i (merge (clock_of i out) seen) out in
    let goal : Bool → Type 0 = λ b.
      Precedes (clock_of id out') c
      ↔ (Precedes (clock_of id out) c × (if b then Precedes seen c else Unit {0})) in
    elim (Bool-cases (i == id)) [
      | inl same ↦
          let merged : clock_of id out' ≡ merge (clock_of id out) seen =
            subst (λ k. clock_of k out' ≡ merge (clock_of k out) seen) ((==_iff i id).0 same)
              (ap clock_or_empty (lookup-assign_self i (merge (clock_of i out) seen) out)) in
          subst goal (sym same) (
            subst (λ x. Precedes x c ↔ (Precedes (clock_of id out) c × Precedes seen c))
              (sym merged) (merge_least (clock_of id out) seen s c))
      | inr other ↦
          let kept : clock_of id out' ≡ clock_of id out = ap clock_or_empty (
            lookup-assign_ne id i (merge (clock_of i out) seen) out
              (λ e. ground (arith, other, e))) in
          subst goal (sym other) (
            subst (λ x. Precedes x c ↔ (Precedes (clock_of id out) c × Unit {0})) (sym kept)
              (λ h. (h, tt), λ h. h.0))
    ]

clock_of-merge_versions :
    (id : ℕ) (c : Clock) (infos : IdConnectionInfoMap) (out : IdClockMap)
    → ClocksAreSorted infos
    → Precedes (clock_of id (merge_versions infos out)) c
      ↔ (Precedes (clock_of id out) c × Bounded id c infos)
unfolding merge_versions
clock_of-merge_versions id c [] out s = (λ h. (h, tt), λ h. h.0)
clock_of-merge_versions id c ((i, info) ∷ rest) out s =
    let later =
      clock_of-merge_versions id c rest (assign i (merge (clock_of i out) info.clock) out) s.1 in
    let now = clock_of-assign id i info.clock c out s.0 in
    (
      λ h. let k = later.0 h in let m = now.0 k.0 in (m.0, (m.1, k.1)),
      λ h. later.1 (now.1 (h.0, h.1.0), h.1.1),
    )

clock_of-versions_from :
    (id : ℕ) (c : Clock) (links : List Link) (out : IdClockMap)
    → LinksAreSorted links
    → Precedes (clock_of id (versions_from links out)) c
      ↔ (Precedes (clock_of id out) c × AllBounded id c links)
unfolding versions_from
clock_of-versions_from id c [] out s = (λ h. (h, tt), λ h. h.0)
clock_of-versions_from id c (l ∷ rest) out s =
    let later = clock_of-versions_from id c rest (merge_versions l.sources out) s.1 in
    let now = clock_of-merge_versions id c l.sources out s.0 in
    (
      λ h. let k = later.0 h in let m = now.0 k.0 in (m.0, (m.1, k.1)),
      λ h. later.1 (now.1 (h.0, h.1.0), h.1.1),
    )

-- The clock that `versions` has for an id is the least upper bound of the clocks that the connections
-- list for the id, which are well-formed: a clock is at or above it exactly when it is at or above
-- each of them.
pub versions_least :
    (n : Node) (id : ℕ) (c : Clock)
    → LinksAreSorted n.connections
    → Precedes (clock_of id (versions n)) c ↔ AllBounded id c n.connections
unfolding versions lookup
versions_least n id c s =
    let all = clock_of-versions_from id c n.connections [] s in
    (λ h. (all.0 h).1, λ h. all.1 ((λ i. tt), h))
