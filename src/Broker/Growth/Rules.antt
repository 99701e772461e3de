-- ===== src/Broker/Growth/Rules.antt =====
-- The rules of `Keeps` for the steps on the state.
use cashmere.Base.{
  ℕ, zero, suc, ◌≡◌, ◌≢◌, refl, sym, subst, inl, inr, Bool, true, false, List, [], ◌∷◌, ◌++◌,
  Option, none, some, arith, get_elem?, set, Option-cases, if◌then◌else◌,
}
use cashmere.OrderedMap.{nat_order}
use cashmere.Clock.Lexicographic.{clock_order}
use cashmere.Clock.Causality.{Precedes-refl}
use cashmere.Broker.{
  Link, Node, World, M, ◌>>=◌, pure, at, node, put_node, link, put_link, push_link, modify, clock,
}
use cashmere.Broker.Provides.{front_clock}
use cashmere.Broker.Growth.{IsFront, GoodAt, NodeGrows, GrowsAt, Grows-refl, GrowsAt-refl, Keeps}

pub set-GoodAt :
    (w : World) (self : ℕ) (n : Node) (i : ℕ)
    → IsFront n.connections
    → GoodAt (get_elem? w i)
    → GoodAt (get_elem? (set w self n) i)
set-GoodAt [] self n i f g = g
set-GoodAt (x ∷ w) zero n zero f g = f
set-GoodAt (x ∷ w) zero n (suc i) f g = g
set-GoodAt (x ∷ w) (suc self) n zero f g = g
set-GoodAt (x ∷ w) (suc self) n (suc i) f g = set-GoodAt w self n i f g

pub set-GrowsAt :
    (w : World) (self : ℕ) (n n' : Node) (i : ℕ)
    → get_elem? w self ≡ some n
    → NodeGrows n n'
    → GrowsAt (get_elem? w i) (get_elem? (set w self n') i)
set-GrowsAt [] self n n' i e g = tt
set-GrowsAt (x ∷ w) zero n n' zero e g = let p : x ≡ n = cc in subst (λ m. NodeGrows m n') (sym p) g
set-GrowsAt (x ∷ w) zero n n' (suc i) e g = GrowsAt-refl (get_elem? w i)
set-GrowsAt (x ∷ w) (suc self) n n' zero e g = GrowsAt-refl (some x)
set-GrowsAt (x ∷ w) (suc self) n n' (suc i) e g = set-GrowsAt w self n n' i e g

pub Keeps-modify :
    (self : ℕ) (f : Node → Node)
    → ((n : Node) → IsFront n.connections → IsFront (f n).connections × NodeGrows n (f n))
    → Keeps (modify self f)
unfolding modify node put_node at ◌>>=◌
Keeps-modify self f h w g = elim (Option-cases (get_elem? w self)) [
  | inl e ↦ rw e tt
  | inr (n, e) ↦
      let good : IsFront n.connections = subst GoodAt e (g self) in
      let r = h n good in
      rw e (λ i. set-GoodAt w self (f n) i r.0 (g i), λ i. set-GrowsAt w self n (f n) i e r.1)
]

module _ {ℓ} {A : Type ℓ} where
  pub Keeps-pure : (a : A) → Keeps (pure a)
  unfolding pure
  Keeps-pure a w g = (g, Grows-refl w)

  pub Keeps-at : (o : Option A) → Keeps (at o)
  unfolding at
  Keeps-at none w g = tt
  Keeps-at (some a) w g = (g, Grows-refl w)

  pub Keeps-if : (b : Bool) (m n : M A) → Keeps m → Keeps n → Keeps (if b then m else n)
  Keeps-if true m n h k = h
  Keeps-if false m n h k = k

module _ {ℓ} {A : Type ℓ} where
  -- The branch that is taken may use its test.
  pub Keeps-branch :
      (b : Bool) (m n : M A)
      → (b ≡ true → Keeps m)
      → (b ≡ false → Keeps n)
      → Keeps (if b then m else n)
  Keeps-branch true m n h k = h refl
  Keeps-branch false m n h k = k refl

  -- What is read of a node may use that it has its first connection.
  pub Keeps-read :
      (self : ℕ) (f : Node → M A)
      → ((n : Node) → IsFront n.connections → Keeps (f n))
      → Keeps (node self >>= f)
  unfolding node at ◌>>=◌
  Keeps-read self f h w g = elim (Option-cases (get_elem? w self)) [
    | inl e ↦ rw e tt
    | inr (n, e) ↦ rw e (h n (subst GoodAt e (g self)) w g)
  ]

pub Keeps-node : (self : ℕ) → Keeps (node self)
unfolding node
Keeps-node self w g = Keeps-at (get_elem? w self) w g

pub front_link :
    (cs : List Link) (i : ℕ) (c : Link)
    → IsFront cs
    → get_elem? cs i ≡ some c
    → i ≡ 0
    → c.broker ≡ none
front_link [] i c f e z = absurd f
front_link (x ∷ cs) zero c f e z = let p : x ≡ c = cc in rw (← p) f
front_link (x ∷ cs) (suc i) c f e z = absurd (omega arith)

module _ {ℓ} {A : Type ℓ} where
  -- A link that leads somewhere is not the first one.
  pub Keeps-link :
      (self i : ℕ) (f : Link → M A)
      → ((c : Link) → (i ≡ 0 → c.broker ≡ none) → Keeps (f c))
      → Keeps (link self i >>= f)
  unfolding link node at ◌>>=◌
  Keeps-link self i f h w g = elim (Option-cases (get_elem? w self)) [
    | inl e ↦ rw e tt
    | inr (n, e) ↦
        let good : IsFront n.connections = subst GoodAt e (g self) in
        elim (Option-cases (get_elem? n.connections i)) [
          | inl e' ↦ rw (e, e') tt
          | inr (c, e') ↦ rw (e, e') (h c (front_link n.connections i c good e') w g)
        ]
  ]

pub set-IsFront :
    (cs : List Link) (i : ℕ) (c : Link)
    → (i ≡ 0 → c.broker ≡ none)
    → IsFront cs
    → IsFront (set cs i c)
set-IsFront [] i c h f = f
set-IsFront (x ∷ cs) zero c h f = h refl
set-IsFront (x ∷ cs) (suc i) c h f = f

front_clock-set :
    (cs : List Link) (i : ℕ) (c : Link) → i ≢ 0 → front_clock (set cs i c) ≡ front_clock cs
front_clock-set [] i c h = refl
front_clock-set (x ∷ cs) zero c h = absurd (h refl)
front_clock-set (x ∷ cs) (suc i) c h = refl

append_IsFront : (cs more : List Link) → IsFront cs → IsFront (cs ++ more)
append_IsFront [] more f = absurd f
append_IsFront (x ∷ cs) more f = f

front_clock-append : (cs more : List Link) → IsFront cs → front_clock (cs ++ more) ≡ front_clock cs
front_clock-append [] more f = absurd f
front_clock-append (x ∷ cs) more f = refl

-- A step that leaves the clock and the entries of a node alone.
quiet :
    (n : Node) (cs : List Link)
    → front_clock cs ≡ front_clock n.connections
    → NodeGrows n (record n { connections = cs })
quiet n cs e = record {
  same_kind = refl;
  same_id = refl;
  clocks = rw e (Precedes-refl (front_clock n.connections));
  entries = λ time d h. h;
}

pub Keeps-put_link : (self i : ℕ) (c : Link) → i ≢ 0 → Keeps (put_link self i c)
unfolding put_link
Keeps-put_link self i c h = Keeps-modify self _ (λ n f. (
  set-IsFront n.connections i c (λ z. absurd (h z)) f,
  quiet n (set n.connections i c) (front_clock-set n.connections i c h),
))

pub Keeps-push_link : (self : ℕ) (c : Link) → Keeps (push_link self c)
unfolding push_link
Keeps-push_link self c = Keeps-modify self _ (λ n f. (
  append_IsFront n.connections (c ∷ []) f,
  quiet n (n.connections ++ c ∷ []) (front_clock-append n.connections (c ∷ []) f),
))

pub Keeps-clock : (self : ℕ) → Keeps (clock self)
unfolding clock
Keeps-clock self = Keeps-link self 0 _ (λ c h. Keeps-pure c.version)
