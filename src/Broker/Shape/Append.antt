-- ===== src/Broker/Shape/Append.antt =====
-- `BrokerBase::append` (cashmere/src/brokerbase.cpp) at a journal of a network: what it records, and where.
use cashmere.Base.{
  ℕ, zero, suc, ◌≤◌, ◌≡◌, ◌≢◌, refl, sym, subst, ◌∙◌, Bool, false, some, get_elem?, set,
}
use cashmere.OrderedMap.{contains}
use cashmere.Clock.Lexicographic.{clock_order}
use cashmere.Clock.{Clock, tick, valid}
use cashmere.Clock.Advance.{is_next-tick}
use cashmere.Entry.{Data, Entry}
use cashmere.Broker.{
  Link, Node, cache, World, Outcome, done, fault, timeout, timed_out, continue, ◌>>=◌, pure, at,
  node, link, clock,
}
use cashmere.Broker.Dispatch.{network, append_data}
use cashmere.Broker.Growth.{Good}
use cashmere.Broker.Growth.Membership.{network-Keeps}
use cashmere.Broker.Shape.{Shape, shape, wire, port_of, part, wire_at, map-set_same, map-get_elem?}
use cashmere.Broker.Shape.Passage.{Ends}
use cashmere.Broker.Shape.Hub.{Brings-port}
use cashmere.Broker.Shape.Ends.{Within, append_data_ends}
use cashmere.Broker.Shape.Endless.{network-Runs}
use cashmere.Broker.Shape.Waiting.{AwaitsAt, saved_node, Awaits, Records, Records-Lasts, set_other}
use cashmere.Broker.Shape.Arrival.{
  insert-Records, Waits-parts, network-Waits, journal_takes, saved-Good,
}
use cashmere.Broker.Shape.Delivery.{Road, insert-Brings-Road}

-- The entry that a journal makes of data, by the clock of its own connection.
abbrev pub event : Data → Link → Entry
event d own = record { clock = tick own.version d.id; entry = d }

pub append_Ends :
    (P : World → Type 0) (fuel self : ℕ) (d : Data) (own : Link) (w : World) (n : Node)
    → get_elem? w self ≡ some n
    → get_elem? n.connections 0 ≡ some own
    → Ends P ((network fuel).insert self (event d own) 0 w)
    → Ends P (append_data fuel self d w)
unfolding append_data clock link node at pure ◌>>=◌
append_Ends P fuel self d own w n here front h =
    rw (here, front) (onward ((network fuel).insert self (event d own) 0 w) h)
  where
    onward :
        (r : Outcome Clock) → Ends P r → Ends P (continue r (λ answer w'. done (valid answer) w'))
    onward (done c w') h = h
    onward fault h = tt
    onward timeout h = tt

-- A waiting journal passes on what it has taken.
insert-Brings-port :
    (t : Shape) (e : Entry) (last fuel self i b s : ℕ) (own : Link) (n : Node) (w : World)
    → Good w
    → shape w ≡ t
    → get_elem? w self ≡ some n
    → get_elem? n.connections 0 ≡ some own
    → AwaitsAt e (some n)
    → self ≢ last
    → i ≢ 0
    → port_of t self i ≡ some (some b, s)
    → Road t last b s
    → Awaits e last w
    → Ends (Records e last) ((network fuel).insert self e 0 w)
unfolding network timed_out
insert-Brings-port t e last zero self i b s own n w good same here front takes other apart leads
      road q =
    tt
insert-Brings-port t e last (suc fuel) self i b s own n w good same here front takes other apart
      leads road q =
    let w1 : World = set w self (saved_node e n) in
    let same1 : shape w1 ≡ t =
      map-set_same part w self (saved_node e n) (map-get_elem? part w self n here) ∙ same in
    let q1 : Awaits e last w1 =
      subst (AwaitsAt e) (sym (set_other last w self last (saved_node e n) other)) q in
    subst (Ends (Records e last)) (sym (journal_takes (network fuel) e w self 0 n here takes)) (
      Brings-port t (Awaits e last) (Records e last) (Records-Lasts e last) (network fuel)
        (network-Keeps fuel) (network-Runs t fuel) self 0 e i b s
        (wire own, wire_at Unit t self w same 0 n own here front) apart leads
        (Waits-parts t e last (network fuel) (network-Keeps fuel) (network-Runs t fuel)
          (network-Waits t e last fuel) self other 0)
        (insert-Brings-Road t e last fuel b s road) w1 (saved-Good e w self n good here) same1 q1)

self-Records :
    (t : Shape) (e : Entry) (fuel self : ℕ) (w : World)
    → Good w
    → Awaits e self w
    → Ends (Records e self) ((network fuel).insert self e 0 w)
unfolding network timed_out
self-Records t e zero self w good q = tt
self-Records t e (suc fuel) self w good q =
    insert-Records t e self (network fuel) (network-Keeps fuel) 0 w good q

-- Append at a journal, in a network in which each way from it passes fewer than `n` other brokers,
-- returns, if calls may be nested `n` deep or deeper. Then the journal has recorded the entry, with the
-- next event of the device as its clock, if it had none under that clock before, and so has each other
-- journal that waited for that entry and to which a way from a port of the journal leads on which all
-- between them are plain brokers. The first connection of each broker is its own.
pub append_delivers :
    (n fuel self i b s last : ℕ) (d : Data) (w : World) (journal : Node) (own : Link)
    → n ≤ fuel
    → Good w
    → Within (shape w) n self 0
    → get_elem? w self ≡ some journal
    → journal.kind ≡ cache
    → get_elem? journal.connections 0 ≡ some own
    → contains (tick own.version d.id) journal.entries ≡ false
    → i ≢ 0
    → port_of (shape w) self i ≡ some (some b, s)
    → Road (shape w) last b s
    → self ≢ last
    → Awaits (event d own) last w
    → (ok : Bool) × (w' : World) × (append_data fuel self d w ≡ done ok w')
      × Records (event d own) self w'
      × Records (event d own) last w'
append_delivers n fuel self i b s last d w journal own le good h here kind front fresh apart leads
      road other waits =
    let (ok, w', ran, same) = append_data_ends n fuel self d w le h in
    let takes : AwaitsAt (event d own) (some journal) =
      (kind, (own, front, is_next-tick own.version d.id), fresh) in
    (
      ok,
      w',
      ran,
      subst (Ends (Records (event d own) self)) ran (
          append_Ends (Records (event d own) self) fuel self d own w journal here front (
            self-Records (shape w) (event d own) fuel self w good
              (subst (AwaitsAt (event d own)) (sym here) takes))),
      subst (Ends (Records (event d own) last)) ran (
          append_Ends (Records (event d own) last) fuel self d own w journal here front (
            insert-Brings-port (shape w) (event d own) last fuel self i b s own journal w good refl
              here front takes other apart leads road waits)),
    )
