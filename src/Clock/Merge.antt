-- ===== src/Clock/Merge.antt =====
-- `Clock::merge` is the join of a semilattice: pointwise the larger count, an absent id below 0.
use cashmere.Base.{ℕ, ◌≡◌, refl, ap, ◌∙◌, max, [], ◌∷◌, Option, none, some, arith}
use cashmere.OrderedMap.{nat_order, lookup, assign, Above, IsSorted}
use cashmere.OrderedMap.Laws.{
  before, same, after, compare_keys, lookup-assign_self, lookup-assign_ne, assign-IsSorted,
  lookup-lt_Above, lookup-Above, Above-IsSorted, ext,
}
use cashmere.Clock.{Clock, at_or_zero, merge_into, merge}

abbrev pub join : Option ℕ → Option ℕ → Option ℕ
join none b = b
join (some x) none = some x
join (some x) (some y) = some (max x y)

pub join_comm : (a b : Option ℕ) → join a b ≡ join b a
join_comm none none = refl
join_comm none (some y) = refl
join_comm (some x) none = refl
join_comm (some x) (some y) = ap some (omega arith)

pub join_assoc : (a b c : Option ℕ) → join (join a b) c ≡ join a (join b c)
join_assoc none b c = refl
join_assoc (some x) none c = refl
join_assoc (some x) (some y) none = refl
join_assoc (some x) (some y) (some z) = ap some (omega arith)

pub join_idem : (a : Option ℕ) → join a a ≡ a
join_idem none = refl
join_idem (some x) = ap some (omega arith)

abbrev overwrite : Clock → ℕ → Option ℕ → Option ℕ → Option ℕ
overwrite self k old none = old
overwrite self k old (some count) = some (max (at_or_zero self k) count)

-- One round of the loop: the id that is written is below those that are left.
overwrite_round :
    (k id count : ℕ) (self out rest : Clock)
    → Above id rest
    → overwrite self k (lookup k (assign id (max (at_or_zero self id) count) out)) (lookup k rest)
      ≡ overwrite self k (lookup k out) (lookup k ((id, count) ∷ rest))
overwrite_round k id count self out rest s = elim (compare_keys k id) [
  | before p q ↦
      rw (lookup-lt_Above k id rest p s, lookup-assign_ne k id _ out (λ e. ground arith))
        (unfold lookup in rw p)
  | same e p q ↦
      rw (e, lookup-Above id rest s, lookup-assign_self id _ out) (unfold lookup in ground arith)
  | after p q ↦ rw (lookup-assign_ne k id _ out (λ e. ground arith)) (unfold lookup in rw (q, p))
]

lookup-merge_into :
    (k : ℕ) (self out other : Clock)
    → IsSorted other
    → lookup k (merge_into self out other) ≡ overwrite self k (lookup k out) (lookup k other)
unfolding merge_into
lookup-merge_into k self out [] s = unfold lookup in refl
lookup-merge_into k self out ((id, count) ∷ rest) s =
    lookup-merge_into k self (assign id (max (at_or_zero self id) count) out) rest
      (Above-IsSorted id rest s)
    ∙ overwrite_round k id count self out rest s

overwrite-eq-join :
    (k : ℕ) (self : Clock) (b : Option ℕ)
    → overwrite self k (lookup k self) b ≡ join (lookup k self) b
overwrite-eq-join k self b = ground arith

-- What `merge` holds under an id is the join of what the two clocks hold.
pub lookup-merge :
    (k : ℕ) (a b : Clock) → IsSorted b → lookup k (merge a b) ≡ join (lookup k a) (lookup k b)
unfolding merge
lookup-merge k a b s = lookup-merge_into k a a b s ∙ overwrite-eq-join k a (lookup k b)

merge_into-IsSorted : (self out other : Clock) → IsSorted out → IsSorted (merge_into self out other)
unfolding merge_into
merge_into-IsSorted self out [] s = s
merge_into-IsSorted self out ((id, count) ∷ rest) s =
    merge_into-IsSorted self (assign id (max (at_or_zero self id) count) out) rest
      (assign-IsSorted id _ out s)

pub merge-IsSorted : (a b : Clock) → IsSorted a → IsSorted (merge a b)
unfolding merge
merge-IsSorted a b s = merge_into-IsSorted a a b s

module _ (a b : Clock) (sa : IsSorted a) (sb : IsSorted b) where
  pub merge_comm : merge a b ≡ merge b a
  merge_comm =
      ext (merge a b) (merge b a) (merge-IsSorted a b sa) (merge-IsSorted b a sb) (λ k.
        rw (lookup-merge k a b sb, lookup-merge k b a sa) (join_comm (lookup k a) (lookup k b)))

  pub merge_assoc : (c : Clock) → IsSorted c → merge (merge a b) c ≡ merge a (merge b c)
  merge_assoc c sc =
      ext (merge (merge a b) c) (merge a (merge b c))
        (merge-IsSorted (merge a b) c (merge-IsSorted a b sa)) (merge-IsSorted a (merge b c) sa)
        (λ k.
          rw
            (
              lookup-merge k (merge a b) c sc,
              lookup-merge k a b sb,
              lookup-merge k a (merge b c) (merge-IsSorted b c sb),
              lookup-merge k b c sc,
            )
            (join_assoc (lookup k a) (lookup k b) (lookup k c)))

pub merge_idem : (a : Clock) → IsSorted a → merge a a ≡ a
merge_idem a s =
    ext (merge a a) a (merge-IsSorted a a s) s
      (λ k. rw (lookup-merge k a a s) (join_idem (lookup k a)))

-- `merge` is the join of a semilattice on well-formed clocks: commutative, associative and
-- idempotent, so that the order and the number of times that clocks are merged do not matter.
pub merge_laws :
    (a b c : Clock)
    → IsSorted a
    → IsSorted b
    → IsSorted c
    → (merge a b ≡ merge b a) × (merge (merge a b) c ≡ merge a (merge b c)) × (merge a a ≡ a)
merge_laws a b c sa sb sc = (merge_comm a b sa sb, merge_assoc a b sa sb c sc, merge_idem a sa)
