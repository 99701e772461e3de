-- ===== src/Broker/Growth.antt =====
-- What no operation of a network undoes: entries that a journal has recorded stay as they are, and
-- the clock of a broker only grows. The rules here prove it of an operation from its parts.
pub mod Rules
pub mod Writes
pub mod Operations
pub mod Membership
pub mod Runs
use cashmere.Base.{
  ℕ, zero, suc, ◌+◌, ◌≤◌, ◌≡◌, ◌≢◌, refl, sym, ap, ◌∙◌, Bool, true, false, List, [], ◌∷◌, ◌++◌,
  Option, none, some, arith, get_elem?, set, length, max,
}
use cashmere.OrderedMap.{OrderedMap, lookup, nat_order}
use cashmere.OrderedMap.Laws.{lookup-assign_self, lookup-assign_ne}
use cashmere.Clock.{Clock, merge}
use cashmere.Clock.Lexicographic.{clock_order}
use cashmere.Clock.Causality.{LeAt, Precedes, Precedes-refl, Precedes-trans}
use cashmere.Entry.{Data, Entry}
use cashmere.Broker.{
  Link, Node, World, Outcome, done, fault, timeout, M, continue, ◌>>=◌, pure, at, node, put_node,
  link, put_link, push_link, modify, clock, set_clock,
}
use cashmere.Broker.Provides.{front_clock}

-- The first connection is the broker's own: it leads nowhere.
abbrev pub IsFront : List Link → Type 0
IsFront [] = ⊥
IsFront (c ∷ rest) = c.broker ≡ none

abbrev pub GoodAt : Option Node → Type 0
GoodAt none = Unit
GoodAt (some n) = IsFront n.connections

abbrev pub Good : World → Type 0
Good w = (i : ℕ) → GoodAt (get_elem? w i)

pub record NodeGrows (n n' : Node) : Type 0 where
  pub same_kind : n'.kind ≡ n.kind
  pub same_id : n'.id ≡ n.id
  pub clocks : Precedes (front_clock n.connections) (front_clock n'.connections)
  pub entries :
      (time : Clock) (d : Data) → lookup time n.entries ≡ some d → lookup time n'.entries ≡ some d

abbrev pub GrowsAt : Option Node → Option Node → Type 0
GrowsAt none none = Unit
GrowsAt none (some n') = ⊥
GrowsAt (some n) none = ⊥
GrowsAt (some n) (some n') = NodeGrows n n'

abbrev pub Grows : World → World → Type 0
Grows w w' = (i : ℕ) → GrowsAt (get_elem? w i) (get_elem? w' i)

NodeGrows-refl : (n : Node) → NodeGrows n n
NodeGrows-refl n = record {
  same_kind = refl;
  same_id = refl;
  clocks = Precedes-refl (front_clock n.connections);
  entries = λ time d h. h;
}

pub GrowsAt-refl : (o : Option Node) → GrowsAt o o
GrowsAt-refl none = tt
GrowsAt-refl (some n) = NodeGrows-refl n

pub GrowsAt-trans : (a b c : Option Node) → GrowsAt a b → GrowsAt b c → GrowsAt a c
GrowsAt-trans none none none g h = tt
GrowsAt-trans none none (some z) g h = h
GrowsAt-trans none (some y) c g h = absurd g
GrowsAt-trans (some x) none c g h = absurd g
GrowsAt-trans (some x) (some y) none g h = h
GrowsAt-trans (some x) (some y) (some z) g h = record {
  same_kind = h.same_kind ∙ g.same_kind;
  same_id = h.same_id ∙ g.same_id;
  clocks =
      Precedes-trans (front_clock x.connections) (front_clock y.connections)
        (front_clock z.connections) g.clocks h.clocks;
  entries = λ time d found. h.entries time d (g.entries time d found);
}

pub Grows-refl : (w : World) → Grows w w
Grows-refl w i = GrowsAt-refl (get_elem? w i)

pub Grows-trans : (u v w : World) → Grows u v → Grows v w → Grows u w
Grows-trans u v w g h i = GrowsAt-trans (get_elem? u i) (get_elem? v i) (get_elem? w i) (g i) (h i)

-- From a good world the operation ends in one that has grown, unless it does not end.
abbrev pub After {ℓ} : {A : Type ℓ} → World → Outcome A → Type 0
After w (done a w') = Good w' × Grows w w'
After w fault = Unit
After w timeout = Unit

abbrev pub Keeps {ℓ} : {A : Type ℓ} → M A → Type 0
Keeps m = (w : World) → Good w → After w (m w)

module _ {ℓ κ} {A : Type ℓ} {B : Type κ} where
  continue-After :
      (w : World) (r : Outcome A) (f : A → M B)
      → After w r
      → ((a : A) → Keeps (f a))
      → After w (continue r f)
  continue-After w (done a w') f h k = onward (f a w') (k a w' h.0)
    where
      onward : (r : Outcome B) → After w' r → After w r
      onward (done b u) g = (g.0, Grows-trans w w' u h.1 g.1)
      onward fault g = tt
      onward timeout g = tt
  continue-After w fault f h k = tt
  continue-After w timeout f h k = tt

  pub Keeps-bind : (m : M A) (f : A → M B) → Keeps m → ((a : A) → Keeps (f a)) → Keeps (m >>= f)
  unfolding ◌>>=◌
  Keeps-bind m f h k w g = continue-After w (m w) f (h w g) k
