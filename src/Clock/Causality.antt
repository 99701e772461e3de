-- ===== src/Clock/Causality.antt =====
-- `Clock::smallerThan` is a strict partial order, the strict part of the pointwise order, in which
-- `Clock::merge` is the least upper bound; `Clock::concurrent` is incomparability.
use cashmere.Base.{
  max, ◌==◌, ℕ, ◌≤◌, ◌≡◌, ◌≢◌, ◌↔◌, inl, inr, refl, sym, ap, ◌∙◌, true, false, [], ◌∷◌, Option,
  none, some, arith, Bool-cases,
}
use cashmere.OrderedMap.{assign, nat_order, lookup, IsSorted}
use cashmere.OrderedMap.Laws.{ext, lookup-assign_self, lookup-assign_ne}
use cashmere.Clock.{at_or_zero, merge_into, Clock, merge, clock_eq, smaller_than, concurrent}
use cashmere.Clock.Merge.{join, join_comm, lookup-merge, merge-IsSorted, merge_comm, merge_assoc}

pub clock_eq_refl : (a : Clock) → clock_eq a a ≡ true
unfolding clock_eq
clock_eq_refl [] = refl
clock_eq_refl ((i, s) ∷ a) = ground (arith, clock_eq_refl a)

pub eq_of_clock_eq : (a b : Clock) → clock_eq a b ≡ true → a ≡ b
unfolding clock_eq
eq_of_clock_eq [] [] h = refl
eq_of_clock_eq [] (y ∷ b) h = cc
eq_of_clock_eq (x ∷ a) [] h = cc
eq_of_clock_eq ((i, s) ∷ a) ((j, t) ∷ b) h =
    let tails : clock_eq a b ≡ true = ground arith in
    let heads : (i ≡ j) × (s ≡ t) = ground arith in cc (heads.0, heads.1, eq_of_clock_eq a b tails)

pub clock_eq_iff : (a b : Clock) → (clock_eq a b ≡ true) ↔ (a ≡ b)
clock_eq_iff a b = (eq_of_clock_eq a b, λ e. rw e (clock_eq_refl b))

pub clock_eq_ne : (a b : Clock) → a ≢ b → clock_eq a b ≡ false
clock_eq_ne a b h = elim (Bool-cases (clock_eq a b)) [
  | inl e ↦ absurd (h (eq_of_clock_eq a b e))
  | inr e ↦ e
]

-- The two conditions of the test, read as equations.
pub smaller_than_iff : (a b : Clock) → (smaller_than a b ≡ true) ↔ ((a ≢ b) × (merge a b ≡ b))
unfolding smaller_than
smaller_than_iff a b = (
  λ h. (λ e. ground (arith, (clock_eq_iff a b).1 e), eq_of_clock_eq (merge a b) b (ground arith)),
  λ h. rw (clock_eq_ne a b h.0, (clock_eq_iff (merge a b) b).1 h.1),
)

-- The count under an id is there, and is at most the other's.
abbrev pub LeAt : Option ℕ → Option ℕ → Type 0
LeAt none b = Unit {0}
LeAt (some x) none = ⊥
LeAt (some x) (some y) = x ≤ y

-- Every event that `a` has seen `b` has seen too.
abbrev pub Precedes : Clock → Clock → Type 0
Precedes a b = (id : ℕ) → LeAt (lookup id a) (lookup id b)

LeAt-refl : (a : Option ℕ) → LeAt a a
LeAt-refl none = tt
LeAt-refl (some x) = omega arith

LeAt-trans : (a b c : Option ℕ) → LeAt a b → LeAt b c → LeAt a c
LeAt-trans none b c h k = tt
LeAt-trans (some x) none c h k = absurd h
LeAt-trans (some x) (some y) none h k = k
LeAt-trans (some x) (some y) (some z) h k = omega arith

pub Precedes-refl : (a : Clock) → Precedes a a
Precedes-refl a id = LeAt-refl (lookup id a)

pub Precedes-trans : (a b c : Clock) → Precedes a b → Precedes b c → Precedes a c
Precedes-trans a b c h k id = LeAt-trans (lookup id a) (lookup id b) (lookup id c) (h id) (k id)

join_absorb : (a b : Option ℕ) → LeAt a b → join a b ≡ b
join_absorb none b h = refl
join_absorb (some x) none h = elim h [ ]
join_absorb (some x) (some y) h = ap some (omega arith)

LeAt-of_join : (a b : Option ℕ) → join a b ≡ b → LeAt a b
LeAt-of_join none b h = tt
LeAt-of_join (some x) none h = cc
LeAt-of_join (some x) (some y) h = ground arith

pub merge-eq_iff : (a b : Clock) → IsSorted a → IsSorted b → (merge a b ≡ b) ↔ Precedes a b
merge-eq_iff a b sa sb = (
  λ e id.
      LeAt-of_join (lookup id a) (lookup id b) (sym (lookup-merge id a b sb) ∙ ap (lookup id) e),
  λ h.
      ext (merge a b) b (merge-IsSorted a b sa) sb
        (λ id. lookup-merge id a b sb ∙ join_absorb (lookup id a) (lookup id b) (h id)),
)

-- For well-formed clocks, `smallerThan` holds exactly when the clocks differ and each count of the
-- first is in the second, at least as large.
pub smaller_than-Precedes :
    (a b : Clock) → IsSorted a → IsSorted b → (smaller_than a b ≡ true) ↔ ((a ≢ b) × Precedes a b)
smaller_than-Precedes a b sa sb = (
  λ h. let p = (smaller_than_iff a b).0 h in (p.0, (merge-eq_iff a b sa sb).0 p.1),
  λ h. (smaller_than_iff a b).1 (h.0, (merge-eq_iff a b sa sb).1 h.1),
)

pub smaller_than_irrefl : (a : Clock) → smaller_than a a ≡ false
unfolding smaller_than
smaller_than_irrefl a = rw (clock_eq_refl a)

pub smaller_than_asymm :
    (a b : Clock) → IsSorted a → IsSorted b → smaller_than a b ≡ true → smaller_than b a ≡ false
smaller_than_asymm a b sa sb h = elim (Bool-cases (smaller_than b a)) [
  | inl k ↦
      let p = (smaller_than_iff a b).0 h in
      let q = (smaller_than_iff b a).0 k in absurd (p.0 (sym q.1 ∙ merge_comm b a sb sa ∙ p.1))
  | inr k ↦ k
]

pub smaller_than_trans :
    (a b c : Clock)
    → IsSorted a
    → IsSorted b
    → IsSorted c
    → smaller_than a b ≡ true
    → smaller_than b c ≡ true
    → smaller_than a c ≡ true
smaller_than_trans a b c sa sb sc h k =
    let p = (smaller_than_iff a b).0 h in
    let q = (smaller_than_iff b c).0 k in
    (smaller_than_iff a c).1 (
      λ e. ground (arith, smaller_than_asymm a b sa sb h, ap (smaller_than b) e),
      ap (merge a) (sym q.1) ∙ sym (merge_assoc a b sa sb c sc) ∙ ap (λ x. merge x c) p.1 ∙ q.1,
    )

-- How two clocks stand to each other, with the answer of each test.
pub data Relation (a b : Clock) : Type 0 where
  equal :
      a ≡ b
      → smaller_than a b ≡ false
      → smaller_than b a ≡ false
      → concurrent a b ≡ false
      → Relation a b
  earlier :
      a ≢ b
      → smaller_than a b ≡ true
      → smaller_than b a ≡ false
      → concurrent a b ≡ false
      → Relation a b
  later :
      a ≢ b
      → smaller_than a b ≡ false
      → smaller_than b a ≡ true
      → concurrent a b ≡ false
      → Relation a b
  parallel :
      a ≢ b
      → smaller_than a b ≡ false
      → smaller_than b a ≡ false
      → concurrent a b ≡ true
      → Relation a b

module _ (a b : Clock) (sa : IsSorted a) (sb : IsSorted b) where
  -- Of two well-formed clocks exactly one holds: they are equal, the first is smaller, the second is smaller,
  -- or they are concurrent; and the tests tell which.
  pub relate : Relation a b
  unfolding concurrent
  relate = elim (Bool-cases (clock_eq a b)) [
    | inl e ↦
        let same = eq_of_clock_eq a b e in
        equal same (rw same (smaller_than_irrefl b)) (rw same (smaller_than_irrefl b)) (rw e)
    | inr e ↦
        let differ : a ≢ b = λ p. ground (arith, (clock_eq_iff a b).1 p) in
        elim (Bool-cases (smaller_than a b)) [
          | inl h ↦ earlier differ h (smaller_than_asymm a b sa sb h) (rw (e, h))
          | inr h ↦ elim (Bool-cases (smaller_than b a)) [
            | inl k ↦ later differ h k (rw (e, h, k))
            | inr k ↦ parallel differ h k (rw (e, h, k))
          ]
        ]
  ]

  concurrent_of : Relation a b → concurrent a b ≡ concurrent b a
  unfolding concurrent
  concurrent_of (equal e p q r) = rw e
  concurrent_of (earlier e p q r) = ground arith
  concurrent_of (later e p q r) = ground arith
  concurrent_of (parallel e p q r) = ground (arith, clock_eq_ne b a (λ p. e (sym p)))

pub concurrent_symm : (a b : Clock) → IsSorted a → IsSorted b → concurrent a b ≡ concurrent b a
concurrent_symm a b sa sb = concurrent_of a b sa sb (relate a b sa sb)

le_join_left : (a b : Option ℕ) → LeAt a (join a b)
le_join_left none b = tt
le_join_left (some x) none = omega arith
le_join_left (some x) (some y) = omega arith

join_least : (a b c : Option ℕ) → LeAt a c → LeAt b c → LeAt (join a b) c
join_least none b c h k = k
join_least (some x) none c h k = h
join_least (some x) (some y) none h k = h
join_least (some x) (some y) (some z) h k = omega arith

module _ (a b : Clock) (sb : IsSorted b) where
  pub Precedes-merge : Precedes a (merge a b)
  Precedes-merge id = rw (lookup-merge id a b sb) (le_join_left (lookup id a) (lookup id b))

  pub Precedes-merge_right : Precedes b (merge a b)
  Precedes-merge_right id =
      rw (lookup-merge id a b sb, join_comm (lookup id a) (lookup id b))
        (le_join_left (lookup id b) (lookup id a))

  -- `merge` of two clocks, the second well-formed, is their least upper bound: a clock is at or
  -- above it exactly when it is at or above both.
  pub merge_least : (c : Clock) → Precedes (merge a b) c ↔ (Precedes a c × Precedes b c)
  merge_least c = (
    λ h. (
      Precedes-trans a (merge a b) c Precedes-merge h,
      Precedes-trans b (merge a b) c Precedes-merge_right h,
    ),
    λ h id.
        rw (lookup-merge id a b sb)
          (join_least (lookup id a) (lookup id b) (lookup id c) (h.0 id) (h.1 id)),
  )

-- `smallerThan` is a strict partial order.
pub smaller_than_order :
    (a b c : Clock)
    → IsSorted a
    → IsSorted b
    → IsSorted c
    → (smaller_than a a ≡ false)
      × (smaller_than a b ≡ true → smaller_than b a ≡ false)
      × (smaller_than a b ≡ true → smaller_than b c ≡ true → smaller_than a c ≡ true)
smaller_than_order a b c sa sb sc =
    (smaller_than_irrefl a, smaller_than_asymm a b sa sb, smaller_than_trans a b c sa sb sc)

-- A round of `merge` does not go below the clock that it started from.
round_above :
    (self out : Clock) (id count : ℕ)
    → Precedes self out
    → Precedes self (assign id (max (at_or_zero self id) count) out)
round_above self out id count h i = elim (Bool-cases (i == id)) [
  | inl hit ↦
      let e : i ≡ id = ground arith in
      rw (e, lookup-assign_self id (max (at_or_zero self id) count) out) (ground arith)
  | inr miss ↦ rw (lookup-assign_ne i id _ out (λ e. ground arith)) (h i)
]

merge_into_above :
    (self out other : Clock) → Precedes self out → Precedes self (merge_into self out other)
unfolding merge_into
merge_into_above self out [] h = h
merge_into_above self out ((id, count) ∷ rest) h =
    merge_into_above self (assign id (max (at_or_zero self id) count) out) rest
      (round_above self out id count h)

-- `merge` goes up, also where the other clock is no well-formed map.
pub Precedes-merge_any : (a b : Clock) → Precedes a (merge a b)
unfolding merge
Precedes-merge_any a b = merge_into_above a a b (Precedes-refl a)
