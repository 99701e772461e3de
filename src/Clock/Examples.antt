-- ===== src/Clock/Examples.antt =====
-- Clocks of cashmere/crdt/tests/test_clock.cpp, and the theorems at them.
use cashmere.Base.{◌+◌, ◌<◌, ◌-◌, ◌≡◌, ◌↔◌, ◌≢◌, refl, true, false, [], ◌∷◌, some, arith}
use cashmere.OrderedMap.{lookup, nat_order, IsSorted}
use cashmere.Clock.{
  Clock, from_list, merge, tick, clock_eq, smaller_than, concurrent, valid, is_next, at_or_zero,
  time_mod, invalid_clock,
}
use cashmere.Clock.Merge.{merge_laws}
use cashmere.Clock.Causality.{Precedes, Relation, relate, smaller_than-Precedes, merge_least}
use cashmere.Clock.Advance.{tick_wraps}

abbrev pub aa : Clock
aa = (0xaa, 1) ∷ []

abbrev pub bb : Clock
bb = (0xbb, 1) ∷ []

abbrev pub aa_bb : Clock
aa_bb = (0xaa, 1) ∷ (0xbb, 2) ∷ []

aa_bb-IsSorted : IsSorted aa_bb
aa_bb-IsSorted = (refl, tt)

from_list_test : from_list ((0xbb, 2) ∷ (0xcc, 0) ∷ (0xaa, 1) ∷ (0xaa, 7) ∷ []) ≡ aa_bb
unfolding from_list
from_list_test = refl

merge_test : merge aa ((0xaa, 3) ∷ (0xbb, 2) ∷ []) ≡ (0xaa, 3) ∷ (0xbb, 2) ∷ []
unfolding merge
merge_test = refl

tests :
    (smaller_than aa aa_bb ≡ true)
    × (smaller_than aa_bb aa ≡ false)
    × (concurrent aa bb ≡ true)
    × (is_next aa_bb ((0xaa, 1) ∷ (0xbb, 1) ∷ []) 0xbb ≡ true)
    × (is_next aa_bb aa 0xbb ≡ false)
    × (valid invalid_clock ≡ false)
unfolding smaller_than concurrent is_next valid clock_eq merge
tests = (refl, refl, refl, refl, refl, refl)

merge_laws_example :
    (merge aa bb ≡ merge bb aa)
    × (merge (merge aa bb) aa_bb ≡ merge aa (merge bb aa_bb))
    × (merge aa aa ≡ aa)
merge_laws_example = merge_laws aa bb aa_bb tt tt aa_bb-IsSorted

merge_least_example : Precedes (merge aa bb) aa_bb ↔ (Precedes aa aa_bb × Precedes bb aa_bb)
merge_least_example = merge_least aa bb tt aa_bb

smaller_than-Precedes_example : (smaller_than aa aa_bb ≡ true) ↔ ((aa ≢ aa_bb) × Precedes aa aa_bb)
smaller_than-Precedes_example = smaller_than-Precedes aa aa_bb tt aa_bb-IsSorted

relate_example : Relation aa bb
relate_example = relate aa bb tt tt

room_for_tick : at_or_zero aa_bb 0xbb + 1 < time_mod
unfolding lookup
room_for_tick = omega arith

abbrev full : Clock
full = (0xaa, time_mod - 1) ∷ []

full_count : lookup 0xaa full ≡ some (time_mod - 1)
unfolding lookup
full_count = refl

tick_wraps_example :
    (lookup 0xaa (tick full 0xaa) ≡ some 0) × (smaller_than full (tick full 0xaa) ≡ false)
tick_wraps_example = tick_wraps full 0xaa tt full_count
