-- ===== src/Broker/Shape/Agreement.antt =====
-- `BrokerBase::append` (cashmere/src/brokerbase.cpp) in a network of journals, and the balances
-- (cashmere/crdt/src/ledger.cpp) that they show.
use cashmere.Base.{
  ℕ, ◌≤◌, ◌≡◌, ◌≢◌, refl, sym, ap, subst, ◌∙◌, inl, inr, Bool, false, Option, none, some, arith,
  get_elem?,
}
use cashmere.OrderedMap.{lookup, assign, contains}
use cashmere.Clock.{Clock, tick}
use cashmere.Clock.Lexicographic.{clock_order}
use cashmere.Entry.{Data, Entry}
use cashmere.Ledger.{balance_of}
use cashmere.Broker.{Link, Node, cache, World, Outcome, done, fault, timeout}
use cashmere.Broker.Query.{entries_of}
use cashmere.Broker.Dispatch.{append_data}
use cashmere.Broker.Growth.{Good}
use cashmere.Broker.Additions.{AddsAt, Adds, Result, network-IsAdding}
use cashmere.Broker.Shape.{shape, port_of}
use cashmere.Broker.Shape.Passage.{Ends}
use cashmere.Broker.Shape.Ends.{Within}
use cashmere.Broker.Shape.Waiting.{RecordsAt, Awaits}
use cashmere.Broker.Shape.Delivery.{Road}
use cashmere.Broker.Shape.Append.{event, append_Ends, append_delivers}

Ends-Result : (e : Entry) (w : World) (r : Outcome Clock) → Result e w r → Ends (Adds e w) r
Ends-Result e w (done c w') h = h
Ends-Result e w fault h = tt
Ends-Result e w timeout h = tt

-- What has the entry now and had none under its clock has it besides what it had.
added_exactly :
    (e : Entry) (n : Node) (o : Option Node)
    → contains e.clock n.entries ≡ false
    → AddsAt e (some n) o
    → RecordsAt e o
    → (n' : Node) × (o ≡ some n') × (n'.entries ≡ assign e.clock e.entry n.entries)
added_exactly e n none fresh adds found = absurd adds
added_exactly e n (some n') fresh (inr (_, added)) found = (n', refl, added)
added_exactly e n (some n') fresh (inl same) found =
    let there : lookup e.clock n.entries ≡ some e.entry = ap (lookup e.clock) (sym same) ∙ found in
    absurd (ground (arith, there, fresh))

-- Two journals with the same entries still have the same entries, the old ones and the new one and no
-- others, when one of them has recorded data with append, and a ledger of the one shows the balance that a
-- ledger of the other shows. That holds in a network in which each way from the first journal passes
-- fewer than `n` other brokers, with calls that may be nested `n` deep, if a way of plain brokers leads
-- from one of its ports to the second journal, if the second waits for the new event, if the first has
-- nothing recorded under the clock of that event, and if the first connection of each broker is its own.
pub append_agrees :
    (n fuel self i b s last : ℕ) (d : Data) (w : World) (journal other : Node) (own : Link)
    → n ≤ fuel
    → Good w
    → Within (shape w) n self 0
    → get_elem? w self ≡ some journal
    → get_elem? w last ≡ some other
    → other.entries ≡ journal.entries
    → journal.kind ≡ cache
    → get_elem? journal.connections 0 ≡ some own
    → contains (tick own.version d.id) journal.entries ≡ false
    → i ≢ 0
    → port_of (shape w) self i ≡ some (some b, s)
    → Road (shape w) last b s
    → self ≢ last
    → Awaits (event d own) last w
    → (ok : Bool) × (w' : World) × (x : Node) × (y : Node) × (append_data fuel self d w
        ≡ done ok w')
      × (get_elem? w' self ≡ some x)
      × (get_elem? w' last ≡ some y)
      × (x.entries ≡ assign (tick own.version d.id) d journal.entries)
      × (y.entries ≡ x.entries)
      × (balance_of (entries_of y.entries) ≡ balance_of (entries_of x.entries))
append_agrees n fuel self i b s last d w journal other own le good h here there alike kind front
      fresh apart leads road distinct waits =
    let (ok, w', ran, mine, theirs) =
      append_delivers n fuel self i b s last d w journal own le good h here kind front fresh apart
        leads road distinct waits in
    let e : Entry = event d own in
    let adds : Adds e w w' = subst (Ends (Adds e w)) ran (
      append_Ends (Adds e w) fuel self d own w journal here front
        (Ends-Result e w _ (network-IsAdding e fuel self 0 w))) in
    let (x, at_self, x_is) =
      added_exactly e journal (get_elem? w' self) fresh
        (subst (λ o. AddsAt e o (get_elem? w' self)) here (adds self)) mine in
    let (y, at_last, y_is) =
      added_exactly e other (get_elem? w' last) (ap (contains e.clock) alike ∙ fresh)
        (subst (λ o. AddsAt e o (get_elem? w' last)) there (adds last)) theirs in
    let same : y.entries ≡ x.entries = y_is ∙ ap (assign e.clock d) alike ∙ sym x_is in
    (ok, w', x, y, ran, at_self, at_last, x_is, same, ap (λ es. balance_of (entries_of es)) same)
