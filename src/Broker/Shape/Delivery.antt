-- ===== src/Broker/Shape/Delivery.antt =====
-- `Broker::insert` (cashmere/src/hub.cpp) and the journals that wait for the entry behind plain brokers.
use cashmere.Base.{
  ℕ, zero, suc, ◌≤◌, ◌≡◌, ◌≢◌, refl, sym, ap, subst, ◌∙◌, inl, inr, List, some, get_elem?,
  Option-cases,
}
use mathlib.Core.Option.{some-injective}
use cashmere.Clock.Lexicographic.{clock_order}
use cashmere.Clock.{Clock}
use cashmere.Entry.{Entry}
use cashmere.Broker.{hub, cache, World, done, timed_out}
use cashmere.Broker.Dispatch.{network}
use cashmere.Broker.Growth.{Good}
use cashmere.Broker.Growth.Membership.{network-Keeps}
use cashmere.Broker.Shape.{Shape, shape, Wire, port_of, part, part_at}
use cashmere.Broker.Shape.Passage.{Ends, Brings}
use cashmere.Broker.Shape.Hub.{IsHub, Brings-via}
use cashmere.Broker.Shape.Ends.{Within, insert_ends}
use cashmere.Broker.Shape.Endless.{network-Runs}
use cashmere.Broker.Shape.Waiting.{AwaitsAt, Awaits, Records, Records-Lasts}
use cashmere.Broker.Shape.Arrival.{insert-Records, Waits-parts, network-Waits}

-- A way from a broker, not through its port `source`, to `last`, on which all but `last` are plain
-- brokers.
pub data Road (t : Shape) (last : ℕ) : ℕ → ℕ → Type 0 where
  arrived : (source : ℕ) → Road t last last source
  along :
      (self source i b s : ℕ)
      → IsHub t self source
      → i ≢ source
      → port_of t self i ≡ some (some b, s)
      → Road t last b s
      → Road t last self source

-- A plain broker is no journal.
hub_apart :
    (t : Shape) (e : Entry) (self last : ℕ) (ws : List Wire) (w : World)
    → get_elem? t self ≡ some (hub, ws)
    → shape w ≡ t
    → Awaits e last w
    → self ≢ last
hub_apart t e self last ws w is_hub s q same = elim (Option-cases (get_elem? w last)) [
  | inl e' ↦ subst (AwaitsAt e) e' q
  | inr (n, here) ↦
      let at_last : get_elem? t last ≡ some (part n) = part_at Unit t last w s n here in
      let journal : n.kind ≡ cache = (subst (AwaitsAt e) here q).0 in
      let at_self : get_elem? t last ≡ some (hub, ws) =
        subst (λ b. get_elem? t b ≡ some (hub, ws)) same is_hub in
      let same_kind : hub ≡ n.kind =
        ap (λ x. x.0) (some-injective (hub, ws) (part n) (sym at_self ∙ at_last)) in
      let no : hub ≡ cache = same_kind ∙ journal in cc
]

pub insert-Brings-Road :
    (t : Shape) (e : Entry) (last fuel self source : ℕ)
    → Road t last self source
    → Brings t
        (Awaits e last)
        (Records e last)
        (Records-Lasts e last)
        ((network fuel).insert self e source)
unfolding network timed_out
insert-Brings-Road t e last zero self source road = λ w g s q. tt
insert-Brings-Road t e last (suc fuel) self source (arrived _) =
    λ w g s q. insert-Records t e last (network fuel) (network-Keeps fuel) source w g q
insert-Brings-Road t e last (suc fuel) self source
      (along _ _ i b s (ws, at_self, at_source) apart leads road) =
    λ w g same q.
      let other : self ≢ last = hub_apart t e self last ws w at_self same q in
      Brings-via t (Awaits e last) (Records e last) (Records-Lasts e last) (network fuel)
        (network-Keeps fuel) (network-Runs t fuel) self source e i b s (ws, at_self, at_source)
        apart leads
        (Waits-parts t e last (network fuel) (network-Keeps fuel) (network-Runs t fuel)
          (network-Waits t e last fuel) self other source)
        (insert-Brings-Road t e last fuel b s road) w g same q

-- An insertion into a network in which each way from the broker, but not through the port of the
-- sender, passes fewer than `n` other brokers returns, if calls may be nested `n` deep or deeper, and
-- then each journal has recorded the entry under its clock that waited for it and to which a way leads on
-- which all others are plain brokers. A journal waits for an entry that is the next event of its device
-- and that it has not recorded. The first connection of each broker is its own.
pub insert_delivers :
    (n fuel self source last : ℕ) (e : Entry) (w : World)
    → n ≤ fuel
    → Good w
    → Within (shape w) n self source
    → Road (shape w) last self source
    → Awaits e last w
    → (c : Clock) × (w' : World) × ((network fuel).insert self e source w ≡ done c w')
      × Records e last w'
insert_delivers n fuel self source last e w le good h road waits =
    let (c, w', ran, same) = insert_ends n fuel self source e w le h in
    (
      c,
      w',
      ran,
      subst (Ends (Records e last)) ran
          (insert-Brings-Road (shape w) e last fuel self source road w good refl waits),
    )
