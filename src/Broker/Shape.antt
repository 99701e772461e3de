-- ===== src/Broker/Shape.antt =====
-- The shape of a network (cashmere/src/hub.cpp): the class of each broker, and where each of its
-- connections leads. `Runs` says of an operation that it leaves the shape as it is, and of one that does
-- not end that `bad` holds: the unit type where nothing is known, the empty type where it always ends.
pub mod Insertion
pub mod Ends
pub mod Passage
pub mod Hub
pub mod Endless
pub mod Reach
pub mod Waiting
pub mod Arrival
pub mod Delivery
pub mod Append
pub mod Agreement
pub mod Examples
use cashmere.Base.{
  ℕ, zero, suc, ◌≡◌, refl, sym, ap, subst, ◌∙◌, inl, inr, ◌⊎◌, Bool, true, false, List, [], ◌∷◌,
  Option, none, some, map, get_elem?, set, length, ◌<◌, arith, Option-cases, if◌then◌else◌,
}
use cashmere.Clock.{Clock}
use cashmere.Broker.{
  Link, Node, Kind, World, Outcome, done, fault, timeout, M, continue, ◌>>=◌, pure, at, node,
  put_node, link, put_link, modify, clock,
}

-- Where a connection leads: the broker at the other end, and the port there.
abbrev pub Wire : Type 0
Wire = Option ℕ × ℕ

abbrev pub wire : Link → Wire
wire c = (c.broker, c.source)

abbrev pub Part : Type 0
Part = Kind × List Wire

abbrev pub part : Node → Part
part n = (n.kind, map wire n.connections)

abbrev pub Shape : Type 0
Shape = List Part

abbrev pub shape : World → Shape
shape w = map part w

module _ {A B : Type 0} (f : A → B) where
  -- Writing what has the same image.
  pub map-set_same :
      (xs : List A) (i : ℕ) (y : A)
      → get_elem? (map f xs) i ≡ some (f y)
      → map f (set xs i y) ≡ map f xs
  map-set_same [] i y e = refl
  map-set_same (z ∷ xs) zero y e = let p : f z ≡ f y = cc in ap (λ t. t ∷ map f xs) (sym p)
  map-set_same (z ∷ xs) (suc i) y e = ap (λ t. f z ∷ t) (map-set_same xs i y e)

  pub map-get_elem? :
      (xs : List A) (i : ℕ) (x : A) → get_elem? xs i ≡ some x → get_elem? (map f xs) i ≡ some (f x)
  map-get_elem? [] i x e = cc
  map-get_elem? (z ∷ xs) zero x e = cc
  map-get_elem? (z ∷ xs) (suc i) x e = map-get_elem? xs i x e

  pub map-get_none : (xs : List A) (i : ℕ) → get_elem? xs i ≡ none → get_elem? (map f xs) i ≡ none
  map-get_none [] i e = refl
  map-get_none (z ∷ xs) zero e = cc
  map-get_none (z ∷ xs) (suc i) e = map-get_none xs i e

-- Where the connection `i` of the broker `self` leads.
unfoldable pub port_of : Shape → ℕ → ℕ → Option Wire
port_of t self i = elim (get_elem? t self) [ none ↦ none | some p ↦ get_elem? p.1 i ]

pub get_elem?-set_there :
    (w : World) (b : ℕ) (n n' : Node) → get_elem? w b ≡ some n → get_elem? (set w b n') b ≡ some n'
get_elem?-set_there [] b n n' e = absurd (cc)
get_elem?-set_there (x ∷ w) zero n n' e = refl
get_elem?-set_there (x ∷ w) (suc b) n n' e = get_elem?-set_there w b n n' e

abbrev pub Result {ℓ} : {A : Type ℓ} → Type 0 → Shape → Outcome A → Type 0
Result bad t (done a w) = shape w ≡ t
Result bad t fault = bad
Result bad t timeout = bad

module _ (bad : Type 0) (t : Shape) where
  abbrev pub Runs {ℓ} : {A : Type ℓ} → M A → Type 0
  Runs m = (w : World) → shape w ≡ t → Result bad t (m w)

  module _ {ℓ κ} {A : Type ℓ} {B : Type κ} where
    continue-Result :
        (r : Outcome A) (f : A → M B)
        → Result bad t r
        → ((a : A) → Runs (f a))
        → Result bad t (continue r f)
    continue-Result (done a w) f h k = k a w h
    continue-Result fault f h k = h
    continue-Result timeout f h k = h

    pub Runs-bind : (m : M A) (f : A → M B) → Runs m → ((a : A) → Runs (f a)) → Runs (m >>= f)
    unfolding ◌>>=◌
    Runs-bind m f h k w s = continue-Result (m w) f (h w s) k

  module _ {ℓ} {A : Type ℓ} where
    pub Runs-pure : (a : A) → Runs (pure a)
    unfolding pure
    Runs-pure a w s = s

    pub Runs-if : (b : Bool) (m n : M A) → Runs m → Runs n → Runs (if b then m else n)
    Runs-if true m n h k = h
    Runs-if false m n h k = k

  -- Something is there, or `bad` holds.
  abbrev pub IsThere {ℓ} : {A : Type ℓ} → Option A → Type 0
  IsThere none = bad
  IsThere (some a) = Unit

  -- A broker with a port is there.
  pub port-IsThere : (self i : ℕ) → IsThere (port_of t self i) → IsThere (get_elem? t self)
  unfolding port_of
  port-IsThere self i h = opened (get_elem? t self) h
    where
      opened :
          (o : Option Part)
          → IsThere (elim o [ none ↦ none | some p ↦ get_elem? p.1 i ])
          → IsThere o
      opened none h = h
      opened (some p) h = tt

  port_at : (self i : ℕ) (p : Part) → get_elem? t self ≡ some p → port_of t self i ≡ get_elem? p.1 i
  unfolding port_of
  port_at self i p e = ap (λ o. elim o [ none ↦ none | some q ↦ get_elem? q.1 i ]) e

  -- A broker has a port for each of its connections.
  pub port_below :
      (self i : ℕ) (n : Node)
      → get_elem? t self ≡ some (part n)
      → i < length n.connections
      → IsThere (port_of t self i)
  port_below self i n e below =
      subst IsThere (sym (port_at self i (part n) e)) (has n.connections i below)
    where
      has : (cs : List Link) (i : ℕ) → i < length cs → IsThere (get_elem? (map wire cs) i)
      has [] i below = absurd (omega arith)
      has (c ∷ cs) zero below = tt
      has (c ∷ cs) (suc i) below = has cs i (omega arith)

  -- A port that is there is one of the connections.
  pub port_in_range :
      (self i : ℕ) (n : Node)
      → get_elem? t self ≡ some (part n)
      → (c : Wire) → port_of t self i ≡ some c
      → i < length n.connections
  port_in_range self i n e c h = within n.connections i c (sym (port_at self i (part n) e) ∙ h)
    where
      within :
          (cs : List Link) (i : ℕ) (c : Wire) → get_elem? (map wire cs) i ≡ some c → i < length cs
      within [] i c e = absurd (cc)
      within (x ∷ cs) zero c e = omega arith
      within (x ∷ cs) (suc i) c e = let rest = within cs i c e in omega arith

  module _ (self : ℕ) (w : World) (s : shape w ≡ t) where
    part_at : (n : Node) → get_elem? w self ≡ some n → get_elem? t self ≡ some (part n)
    part_at n e = ap (λ u. get_elem? u self) (sym s) ∙ map-get_elem? part w self n e

    no_part : get_elem? w self ≡ none → get_elem? t self ≡ none
    no_part e = ap (λ u. get_elem? u self) (sym s) ∙ map-get_none part w self e

    wire_at :
        (i : ℕ) (n : Node) (c : Link)
        → get_elem? w self ≡ some n
        → get_elem? n.connections i ≡ some c
        → port_of t self i ≡ some (wire c)
    wire_at i n c e e' =
        port_at self i (part n) (part_at n e) ∙ map-get_elem? wire n.connections i c e'

    no_wire :
        (i : ℕ) (n : Node)
        → get_elem? w self ≡ some n
        → get_elem? n.connections i ≡ none
        → port_of t self i ≡ none
    no_wire i n e e' = port_at self i (part n) (part_at n e) ∙ map-get_none wire n.connections i e'

  module _ {ℓ} {A : Type ℓ} (self : ℕ) where
    pub Runs-read :
        (f : Node → M A)
        → IsThere (get_elem? t self)
        → ((n : Node) → get_elem? t self ≡ some (part n) → Runs (f n))
        → Runs (node self >>= f)
    unfolding node at ◌>>=◌
    Runs-read f h k w s = elim (Option-cases (get_elem? w self)) [
      | inl e ↦ rw e (subst IsThere (no_part self w s e) h)
      | inr (n, e) ↦ rw e (k n (part_at self w s n e) w s)
    ]

    pub Runs-link :
        (i : ℕ) (f : Link → M A)
        → IsThere (port_of t self i)
        → ((c : Link) → port_of t self i ≡ some (wire c) → Runs (f c))
        → Runs (link self i >>= f)
    unfolding link node at ◌>>=◌
    Runs-link i f h k w s = elim (Option-cases (get_elem? w self)) [
      | inl e ↦ rw e (subst IsThere (no_part self w s e) (port-IsThere self i h))
      | inr (n, e) ↦ elim (Option-cases (get_elem? n.connections i)) [
        | inl e' ↦ rw (e, e') (subst IsThere (no_wire self w s i n e e') h)
        | inr (c, e') ↦ rw (e, e') (k c (wire_at self w s i n c e e') w s)
      ]
    ]

  module _ (self : ℕ) where
    -- A write to a node that leaves its class and its wires alone.
    pub Runs-put_node : (n : Node) → get_elem? t self ≡ some (part n) → Runs (put_node self n)
    unfolding put_node
    Runs-put_node n e w s = map-set_same part w self n (ap (λ u. get_elem? u self) s ∙ e) ∙ s

    pub Runs-put_link :
        (i : ℕ) (c : Link)
        → IsThere (get_elem? t self)
        → port_of t self i ≡ some (wire c)
        → Runs (put_link self i c)
    unfolding put_link modify
    Runs-put_link i c h leads = Runs-read self _ h (λ n e. Runs-put_node _ (
        e
        ∙ ap (λ ws. some (n.kind, ws))
            (sym (map-set_same wire n.connections i c (sym (port_at self i (part n) e) ∙ leads)))))

    pub Runs-clock : IsThere (port_of t self 0) → Runs (clock self)
    unfolding clock
    Runs-clock h = Runs-link self 0 _ h (λ c _. Runs-pure c.version)
