-- ===== src/Broker/Shape/Waiting.antt =====
-- A journal (cashmere/src/journalbase.cpp and cashmere/plugins/src/cache.cpp) that waits for an entry, and
-- the operations of other brokers that leave it alone.
use cashmere.Base.{
  ℕ, zero, suc, ◌≡◌, ◌≢◌, refl, ap, ◌∙◌, Bool, true, false, [], ◌∷◌, Option, none, some, get_elem?,
  set, if◌then◌else◌,
}
use cashmere.OrderedMap.{lookup, assign, contains, nat_order}
use cashmere.Clock.{Clock, is_next}
use cashmere.Clock.Lexicographic.{clock_order}
use cashmere.Entry.{Entry}
use cashmere.Broker.{
  Link, Node, cache, World, Outcome, done, fault, timeout, M, continue, ◌>>=◌, pure, at, node,
  put_node, link, put_link, modify, clock, set_clock, Remote,
}
use cashmere.Broker.Connection.{accepted}
use cashmere.Broker.Insert.{save, advance, mark}
use cashmere.Broker.Growth.{GrowsAt}
use cashmere.Broker.Shape.Passage.{Ends, Lasts}

-- A journal that has not recorded the entry and would take it as the next event of its device.
abbrev pub AwaitsAt : Entry → Option Node → Type 0
AwaitsAt e none = ⊥
AwaitsAt e (some n) =
    (n.kind ≡ cache)
    × ((l : Link) × (get_elem? n.connections 0 ≡ some l)
        × (is_next e.clock l.version e.entry.id ≡ true))
    × (contains e.clock n.entries ≡ false)

abbrev pub RecordsAt : Entry → Option Node → Type 0
RecordsAt e none = ⊥
RecordsAt e (some n) = lookup e.clock n.entries ≡ some e.entry

-- The journal when it has saved the entry.
abbrev pub saved_node : Entry → Node → Node
saved_node e n = record n { entries = assign e.clock e.entry n.entries }

abbrev pub Awaits : Entry → ℕ → World → Type 0
Awaits e b w = AwaitsAt e (get_elem? w b)

abbrev pub Records : Entry → ℕ → World → Type 0
Records e b w = RecordsAt e (get_elem? w b)

grown_record : (e : Entry) (o o' : Option Node) → GrowsAt o o' → RecordsAt e o → RecordsAt e o'
grown_record e none o' g h = absurd h
grown_record e (some n) none g h = g
grown_record e (some n) (some n') g h = g.entries e.clock e.entry h

pub Records-Lasts : (e : Entry) (b : ℕ) → Lasts (Records e b)
Records-Lasts e b w w' grows h = grown_record e (get_elem? w b) (get_elem? w' b) (grows b) h

-- The broker `b` is left as it is.
module _ (b : ℕ) where
  abbrev pub Spares {ℓ} : {A : Type ℓ} → M A → Type 0
  Spares m = (w : World) → Ends (λ w'. get_elem? w' b ≡ get_elem? w b) (m w)

  module _ {ℓ κ} {A : Type ℓ} {B : Type κ} where
    sparing :
        (w : World) (r : Outcome A) (f : A → M B)
        → Ends (λ w'. get_elem? w' b ≡ get_elem? w b) r
        → ((a : A) → Spares (f a))
        → Ends (λ w'. get_elem? w' b ≡ get_elem? w b) (continue r f)
    sparing w (done a w') f h k = further (f a w') (k a w')
      where
        further :
            (r : Outcome B)
            → Ends (λ u. get_elem? u b ≡ get_elem? w' b) r
            → Ends (λ u. get_elem? u b ≡ get_elem? w b) r
        further (done c u) g = g ∙ h
        further fault g = tt
        further timeout g = tt
    sparing w fault f h k = tt
    sparing w timeout f h k = tt

    Spares-bind : (m : M A) (f : A → M B) → Spares m → ((a : A) → Spares (f a)) → Spares (m >>= f)
    unfolding ◌>>=◌
    Spares-bind m f h k w = sparing w (m w) f (h w) k

  module _ {ℓ} {A : Type ℓ} where
    pub Spares-pure : (a : A) → Spares (pure a)
    unfolding pure
    Spares-pure a w = refl

    Spares-at : (o : Option A) → Spares (at o)
    unfolding at
    Spares-at none w = tt
    Spares-at (some a) w = refl

    pub Spares-if : (c : Bool) (m n : M A) → Spares m → Spares n → Spares (if c then m else n)
    Spares-if true m n h k = h
    Spares-if false m n h k = k

  pub Spares-node : (self : ℕ) → Spares (node self)
  unfolding node
  Spares-node self w = Spares-at (get_elem? w self) w

  pub set_other :
      (w : World) (self b : ℕ) (n : Node) → self ≢ b → get_elem? (set w self n) b ≡ get_elem? w b
  set_other [] self b n h = refl
  set_other (x ∷ w) zero zero n h = absurd (h refl)
  set_other (x ∷ w) zero (suc b) n h = refl
  set_other (x ∷ w) (suc self) zero n h = refl
  set_other (x ∷ w) (suc self) (suc b) n h = set_other w self b n (λ p. h (ap suc p))

  module _ (self : ℕ) (apart : self ≢ b) where
    Spares-put_node : (n : Node) → Spares (put_node self n)
    unfolding put_node
    Spares-put_node n w = set_other w self b n apart

    pub Spares-link : (i : ℕ) → Spares (link self i)
    unfolding link
    Spares-link i = Spares-bind _ _ (Spares-node self) (λ n. Spares-at (get_elem? n.connections i))

    Spares-put_link : (i : ℕ) (c : Link) → Spares (put_link self i c)
    unfolding put_link modify
    Spares-put_link i c = Spares-bind _ _ (Spares-node self) (λ n. Spares-put_node _)

    pub Spares-clock : Spares (clock self)
    unfolding clock
    Spares-clock = Spares-bind _ _ (Spares-link 0) (λ c. Spares-pure c.version)

    pub Spares-advance : (time : Clock) → Spares (advance self time)
    unfolding advance set_clock
    Spares-advance time =
        Spares-bind _ _ Spares-clock
          (λ seen. Spares-bind _ _ (Spares-link 0) (λ c. Spares-put_link 0 _))

    pub Spares-mark : (i id : ℕ) → Spares (mark self i id)
    unfolding mark
    Spares-mark i id =
        Spares-bind _ _ (Spares-link i)
          (λ c. Spares-bind _ _ Spares-clock (λ now. Spares-put_link i _))

    pub Spares-save : (e : Entry) → Spares (save self e)
    unfolding save
    Spares-save e = Spares-bind _ _ (Spares-node self) (λ n.
        Spares-if (contains e.clock n.entries) _ _ (Spares-pure false)
          (Spares-bind _ _ (Spares-put_node _) (λ _. Spares-pure true)))

    pub Spares-accepted :
        (remote : Remote) (i : ℕ) (e : Entry) (answer : Clock)
        → Spares (accepted remote self i e answer)
    unfolding accepted
    Spares-accepted remote i e answer =
        Spares-bind _ _ (Spares-link i)
          (λ c. Spares-bind _ _ (Spares-put_link i _) (λ _. Spares-pure answer))
