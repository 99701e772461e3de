-- ===== src/Broker/Shape/Reach.antt =====
-- `Broker::insert` (cashmere/src/hub.cpp) and the clocks of the plain brokers on the way.
use cashmere.Base.{
  ℕ, zero, suc, ◌≤◌, ◌≡◌, ◌≢◌, refl, subst, inl, inr, List, [], ◌∷◌, Option, none, some, get_elem?,
  set, Option-cases,
}
use cashmere.OrderedMap.{IsSorted, nat_order}
use cashmere.Clock.{Clock, merge}
use cashmere.Clock.Causality.{Precedes, Precedes-trans, Precedes-merge_right}
use cashmere.Entry.{Entry}
use cashmere.Broker.{
  Link, Node, World, done, timed_out, ◌>>=◌, pure, at, node, put_node, link, put_link, modify,
  clock, set_clock,
}
use cashmere.Broker.Provides.{front_clock}
use cashmere.Broker.Insert.{advance}
use cashmere.Broker.Dispatch.{network}
use cashmere.Broker.Growth.{Good, GrowsAt}
use cashmere.Broker.Growth.Membership.{network-Keeps}
use cashmere.Broker.Shape.{Shape, shape, port_of, get_elem?-set_there}
use cashmere.Broker.Shape.Passage.{Ends, Lasts, Brings}
use cashmere.Broker.Shape.Hub.{IsHub, Always, Always-PartsStay, Brings-own, Brings-via}
use cashmere.Broker.Shape.Ends.{Within, insert_ends}
use cashmere.Broker.Shape.Endless.{network-Runs}

-- A way from a broker, not through its port `source`, to another, through plain brokers.
pub data Way (t : Shape) : ℕ → ℕ → ℕ → Type 0 where
  here : (self source : ℕ) → IsHub t self source → Way t self source self
  onward :
      (self source i b s last : ℕ)
      → IsHub t self source
      → i ≢ source
      → port_of t self i ≡ some (some b, s)
      → Way t b s last
      → Way t self source last

-- The clock of the broker is not before `time`.
abbrev pub Saw : Clock → ℕ → World → Type 0
Saw time b w = (n : Node) × (get_elem? w b ≡ some n) × Precedes time (front_clock n.connections)

Saw-Lasts : (time : Clock) (b : ℕ) → Lasts (Saw time b)
Saw-Lasts time b w w' grows (n, at_b, seen) =
    kept (get_elem? w' b) refl (subst (λ o. GrowsAt o (get_elem? w' b)) at_b (grows b))
  where
    kept : (o : Option Node) → get_elem? w' b ≡ o → GrowsAt (some n) o → Saw time b w'
    kept none e g = absurd g
    kept (some n') e g = (
      n',
      e,
      Precedes-trans time (front_clock n.connections) (front_clock n'.connections) seen g.clocks,
    )

front_advanced :
    (cs : List Link) (c : Link) (time : Clock)
    → IsSorted time
    → get_elem? cs 0 ≡ some c
    → Precedes time (front_clock (set cs 0 (record c { version = merge c.version time })))
front_advanced [] c time sorted e = absurd (cc)
front_advanced (x ∷ cs) c time sorted e = Precedes-merge_right c.version time sorted

advance-Saw :
    (t : Shape) (time : Clock) (self : ℕ)
    → IsSorted time
    → Brings t Always (Saw time self) (Saw-Lasts time self) (advance self time)
unfolding advance set_clock put_link modify clock link node put_node pure at ◌>>=◌
advance-Saw t time self sorted w good s q = elim (Option-cases (get_elem? w self)) [
  | inl e ↦ rw e tt
  | inr (n, e) ↦ elim (Option-cases (get_elem? n.connections 0)) [
    | inl e' ↦ rw (e, e') tt
    | inr (c, e') ↦
        rw (e, e', e, e', e)
          (_, get_elem?-set_there w self n _ e, front_advanced n.connections c time sorted e')
  ]
]

insert-Brings-Way :
    (t : Shape) (fuel self source last : ℕ) (e : Entry)
    → IsSorted e.clock
    → Way t self source last
    → Brings t Always
        (Saw e.clock last)
        (Saw-Lasts e.clock last)
        ((network fuel).insert self e source)
unfolding network timed_out
insert-Brings-Way t zero self source last e sorted way = λ w good s q. tt
insert-Brings-Way t (suc fuel) self source last e sorted (here _ _ h) =
    Brings-own t Always (Saw e.clock last) (Saw-Lasts e.clock last) (network fuel)
      (network-Keeps fuel) (network-Runs t fuel) self source e h (advance-Saw t e.clock self sorted)
insert-Brings-Way t (suc fuel) self source last e sorted (onward _ _ i b s _ h apart leads way) =
    Brings-via t Always (Saw e.clock last) (Saw-Lasts e.clock last) (network fuel)
      (network-Keeps fuel) (network-Runs t fuel) self source e i b s h apart leads
      (Always-PartsStay t (Saw e.clock last) (Saw-Lasts e.clock last) (network fuel)
        (network-Keeps fuel) (network-Runs t fuel) self source e)
      (insert-Brings-Way t fuel b s last e sorted way)

-- An insertion into a network in which each way from the broker, but not through the port of the
-- sender, passes fewer than `n` other brokers returns, if calls may be nested `n` deep or deeper, and
-- then the clock of each broker to which a way through plain brokers leads, the first one included, is
-- not before the clock of the entry, if that clock is sorted and the first connection of each broker is
-- its own.
pub insert_reaches :
    (n fuel self source last : ℕ) (e : Entry) (w : World)
    → n ≤ fuel
    → Good w
    → IsSorted e.clock
    → Within (shape w) n self source
    → Way (shape w) self source last
    → (c : Clock) × (w' : World) × ((network fuel).insert self e source w ≡ done c w')
      × Saw e.clock last w'
insert_reaches n fuel self source last e w le good sorted h way =
    let (c, w', ran, same) = insert_ends n fuel self source e w le h in
    (
      c,
      w',
      ran,
      subst (Ends (Saw e.clock last)) ran
          (insert-Brings-Way (shape w) fuel self source last e sorted way w good refl tt),
    )
