-- ===== src/Clock/Advance.antt =====
-- `Clock::tick`, `Clock::isNext` and `Clock::valid`.
use cashmere.Base.{
  ℕ, ◌+◌, ◌-◌, ◌%◌, ◌<◌, ◌≡◌, ◌≢◌, sym, subst, ap, ◌∙◌, true, false, not, ◌&&◌, Option, none, some,
  arith, ◌==◌, ==_iff, Bool-cases, inl, inr,
}
use cashmere.OrderedMap.{nat_order, lookup, IsSorted}
use cashmere.OrderedMap.Laws.{lookup-assign_self, lookup-assign_ne, assign-IsSorted}
use cashmere.Clock.{Clock, time_mod, at_or_zero, merge, tick, smaller_than, valid, is_next}
use cashmere.Clock.Merge.{lookup-merge}
use cashmere.Clock.Causality.{LeAt, Precedes, smaller_than-Precedes}

LeAt-refl : (a : Option ℕ) → LeAt a a
LeAt-refl none = tt
LeAt-refl (some x) = omega arith

pub tick-IsSorted : (c : Clock) (id : ℕ) → IsSorted c → IsSorted (tick c id)
unfolding tick
tick-IsSorted c id s = assign-IsSorted id _ c s

-- A device that ticks its own clock makes the next event of that device, also where the count wraps.
pub is_next-tick : (c : Clock) (id : ℕ) → is_next (tick c id) c id ≡ true
unfolding is_next tick
is_next-tick c id = ground (arith, lookup-assign_self id ((at_or_zero c id + 1) % time_mod) c)

pub lookup-tick_ne : (i id : ℕ) (c : Clock) → i ≢ id → lookup i (tick c id) ≡ lookup i c
unfolding tick
lookup-tick_ne i id c h = lookup-assign_ne i id _ c h

lookup-tick_self :
    (c : Clock) (id : ℕ)
    → at_or_zero c id + 1 < time_mod
    → lookup id (tick c id) ≡ some (at_or_zero c id + 1)
unfolding tick
lookup-tick_self c id h = lookup-assign_self id _ c ∙ ap some (omega arith)

module _ (c : Clock) (id : ℕ) (room : at_or_zero c id + 1 < time_mod) where
  LeAt-tick_self : LeAt (lookup id c) (lookup id (tick c id))
  LeAt-tick_self = rw (lookup-tick_self c id room) (ground arith)

  pub Precedes-tick : Precedes c (tick c id)
  Precedes-tick i = elim (Bool-cases (i == id)) [
    | inl z ↦
        let e : i ≡ id = ground arith in
        subst (λ x. LeAt (lookup x c) (lookup x (tick c id))) (sym e) LeAt-tick_self
    | inr apart ↦ rw (lookup-tick_ne i id c (λ e. ground arith)) (LeAt-refl (lookup i c))
  ]

  tick-ne : c ≢ tick c id
  tick-ne e = absurd (ground (arith, ap (lookup id) e, lookup-tick_self c id room))

  -- The tick of a well-formed clock is after the clock, while the count has room to grow: an event
  -- comes after all that its device had seen.
  smaller_than-tick : IsSorted c → smaller_than c (tick c id) ≡ true
  smaller_than-tick s =
      (smaller_than-Precedes c (tick c id) s (tick-IsSorted c id s)).1 (tick-ne, Precedes-tick)

-- At the largest count the tick of a well-formed clock goes back to 0, and the new clock is not
-- after the old one.
pub tick_wraps :
    (c : Clock) (id : ℕ)
    → IsSorted c
    → lookup id c ≡ some (time_mod - 1)
    → (lookup id (tick c id) ≡ some 0) × (smaller_than c (tick c id) ≡ false)
unfolding tick
tick_wraps c id s h = (
  after_tick,
  ground (arith, falls, smaller_than-Precedes c (tick c id) s (tick-IsSorted c id s)),
)
  where
    after_tick : lookup id (tick c id) ≡ some 0
    after_tick = lookup-assign_self id _ c ∙ ap some (ground arith)

    falls : (smaller_than c (tick c id) ≡ true) → ⊥
    falls k = ground (
      arith,
      after_tick,
      ((smaller_than-Precedes c (tick c id) s (tick-IsSorted c id s)).0 k).1 id,
    )

-- A merged clock is valid exactly when both are, when the second is well-formed.
pub valid-merge : (a b : Clock) → IsSorted b → valid (merge a b) ≡ (valid a && valid b)
unfolding valid
valid-merge a b s = ground (arith, lookup-merge 0 a b s)

-- A tick keeps a clock valid exactly when it is not for the id 0, which no device may use.
pub valid-tick : (c : Clock) (id : ℕ) → valid (tick c id) ≡ (valid c && not (id == 0))
unfolding valid tick
valid-tick c id = elim (Bool-cases (id == 0)) [
  | inl z ↦ ground (
    arith,
    lookup-assign_self id ((at_or_zero c id + 1) % time_mod) c,
    ap (λ x. lookup x (tick c id)) ((==_iff id 0).0 z),
  )
  | inr z ↦
      ground (arith, lookup-assign_ne 0 id ((at_or_zero c id + 1) % time_mod) c (λ e. ground arith))
]

-- A clock that has the tick is no longer behind.
pub tick-not-Precedes :
    (c : Clock) (id : ℕ) → at_or_zero c id + 1 < time_mod → ¬ Precedes (tick c id) c
tick-not-Precedes c id room h = absurd (ground (arith, h id, lookup-tick_self c id room))
