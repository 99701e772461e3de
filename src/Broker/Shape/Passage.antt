-- ===== src/Broker/Shape/Passage.antt =====
-- What has come about whenever an operation of a broker returns: rules by which a part of the operation
-- brings it about, and the rest, before and after, does not undo it.
use cashmere.Base.{ℕ, ◌≡◌, subst, inl, inr, ◌⊎◌, none, some, get_elem?, Option-cases}
use cashmere.Broker.{
  Link, Node, World, Outcome, done, fault, timeout, M, continue, ◌>>=◌, at, node, link,
}
use cashmere.Broker.Growth.{Good, IsFront, GoodAt, Grows, After, Keeps}
use cashmere.Broker.Growth.Rules.{front_link}
use cashmere.Broker.Shape.{Shape, shape, wire, part, port_of, Result, Runs, part_at, wire_at}

abbrev pub Ends {ℓ} : {A : Type ℓ} → (World → Type 0) → Outcome A → Type 0
Ends P (done a w) = P w
Ends P fault = Unit
Ends P timeout = Unit

-- What holds of a world holds of each that has grown from it.
abbrev pub Lasts : (World → Type 0) → Type 0
Lasts P = (w w' : World) → Grows w w' → P w → P w'

-- `P` is what comes about, and `Q` what holds until then.
module _ (t : Shape) (Q P : World → Type 0) (lasts : Lasts P) where
  abbrev pub Brings {ℓ} : {A : Type ℓ} → M A → Type 0
  Brings m = (w : World) → Good w → shape w ≡ t → Q w → Ends P (m w)

  abbrev pub Stays {ℓ} : {A : Type ℓ} → M A → Type 0
  Stays m = (w : World) → Good w → Q w ⊎ P w → Ends (λ w. Q w ⊎ P w) (m w)

  module _ {ℓ κ} {A : Type ℓ} {B : Type κ} where
    after :
        (r : Outcome A) (f : A → M B)
        → Ends P r
        → (w : World) → After w r
        → ((a : A) → Keeps (f a))
        → Ends P (continue r f)
    after (done a w') f h w g k = later (f a w') (k a w' g.0)
      where
        later : (r : Outcome B) → After w' r → Ends P r
        later (done b u) g' = lasts w' u g'.1 h
        later fault g' = tt
        later timeout g' = tt
    after fault f h w g k = tt
    after timeout f h w g k = tt

    pub Brings-first :
        (m : M A) (f : A → M B) → Keeps m → Brings m → ((a : A) → Keeps (f a)) → Brings (m >>= f)
    unfolding ◌>>=◌
    Brings-first m f keep h k w g s q = after (m w) f (h w g s q) w (keep w g) k

    before :
        (w : World) (r : Outcome A) (f : A → M B)
        → After w r
        → Result Unit t r
        → Ends (λ w. Q w ⊎ P w) r
        → ((a : A) → Brings (f a))
        → ((a : A) → Keeps (f a))
        → Ends P (continue r f)
    before w (done a w') f g s (inl q) k keep = k a w' g.0 s q
    before w (done a w') f g s (inr p) k keep = after (done a w') f p w g keep
    before w fault f g s h k keep = tt
    before w timeout f g s h k keep = tt

    pub Brings-then :
        (m : M A) (f : A → M B)
        → Keeps m
        → Runs Unit t m
        → Stays m
        → ((a : A) → Brings (f a))
        → ((a : A) → Keeps (f a))
        → Brings (m >>= f)
    unfolding ◌>>=◌
    Brings-then m f keep run stay k keep' w g s q =
        before w (m w) f (keep w g) (run w s) (stay w g (inl q)) k keep'

    staying :
        (w : World) (r : Outcome A) (f : A → M B)
        → After w r
        → Ends (λ w. Q w ⊎ P w) r
        → ((a : A) → Stays (f a))
        → Ends (λ w. Q w ⊎ P w) (continue r f)
    staying w (done a w') f g h k = k a w' g.0 h
    staying w fault f g h k = tt
    staying w timeout f g h k = tt

    pub Stays-bind :
        (m : M A) (f : A → M B) → Keeps m → Stays m → ((a : A) → Stays (f a)) → Stays (m >>= f)
    unfolding ◌>>=◌
    Stays-bind m f keep stay k w g h = staying w (m w) f (keep w g) (stay w g h) k

  module _ {ℓ} {A : Type ℓ} (self : ℕ) where
    pub Brings-read :
        (f : Node → M A)
        → ((n : Node) → get_elem? t self ≡ some (part n) → Brings (f n))
        → Brings (node self >>= f)
    unfolding node at ◌>>=◌
    Brings-read f k w g s q = elim (Option-cases (get_elem? w self)) [
      | inl e ↦ rw e tt
      | inr (n, e) ↦ rw e (k n (part_at Unit t self w s n e) w g s q)
    ]

    pub Brings-link :
        (i : ℕ) (f : Link → M A)
        → ((c : Link) → (i ≡ 0 → c.broker ≡ none) → port_of t self i ≡ some (wire c) → Brings (f c))
        → Brings (link self i >>= f)
    unfolding link node at ◌>>=◌
    Brings-link i f k w g s q = elim (Option-cases (get_elem? w self)) [
      | inl e ↦ rw e tt
      | inr (n, e) ↦ elim (Option-cases (get_elem? n.connections i)) [
        | inl e' ↦ rw (e, e') tt
        | inr (c, e') ↦
            let good : IsFront n.connections = subst GoodAt e (g self) in
            rw (e, e')
              (k c (front_link n.connections i c good e') (wire_at Unit t self w s i n c e e') w g s
                q)
      ]
    ]
