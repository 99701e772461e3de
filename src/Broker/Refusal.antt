-- ===== src/Broker/Refusal.antt =====
-- What `JournalBase::insert` refuses, and that it refuses for good.
use cashmere.Base.{
  ℕ, ◌≤◌, ◌<◌, ◌≡◌, refl, subst, ◌∙◌, false, List, [], ◌∷◌, Option, none, some, arith, get_elem?,
}
use cashmere.OrderedMap.{lookup, nat_order}
use cashmere.Clock.{Clock, time_mod, is_next, invalid_clock}
use cashmere.Clock.Causality.{LeAt}
use cashmere.Entry.{Entry}
use cashmere.Broker.{Link, Node, cache, World, done, Remote, ◌>>=◌, pure, at, node, link, clock}
use cashmere.Broker.Provides.{front_clock}
use cashmere.Broker.Insert.{journal_insert, insert}
use cashmere.Broker.Growth.{IsFront, GoodAt, Good}
use cashmere.Broker.Growth.Runs.{Call, run, run_grows, run-Good}

module _ (remote : Remote) (w : World) (self : ℕ) (n : Node) (c : Link) (rest : List Link)
    (e : Entry) (source : ℕ) where
  -- A journal takes an entry only if it is the next event of its device. Any other entry is answered
  -- by the invalid clock, and nothing changes: no state, and no other broker is called.
  insert_refused :
      get_elem? w self ≡ some n
      → n.kind ≡ cache
      → n.connections ≡ c ∷ rest
      → is_next e.clock c.version e.entry.id ≡ false
      → insert remote self e source w ≡ done invalid_clock w
  unfolding insert journal_insert clock link node at pure ◌>>=◌
  insert_refused here kind front late = rw (here, kind) (rw (here, front) (rw late))

-- An event that is not after what the clock has of its device is not the next one.
late_not_next :
    (time seen_clock : Clock) (id count seen : ℕ)
    → lookup id time ≡ some count
    → lookup id seen_clock ≡ some seen
    → 0 < count
    → count ≤ seen
    → seen < time_mod
    → is_next time seen_clock id ≡ false
unfolding is_next
late_not_next time seen_clock id count seen p q pos le room = ground arith

front_split :
    (cs : List Link)
    → IsFront cs
    → (c : Link) × (rest : List Link) × (cs ≡ c ∷ rest) × (front_clock cs ≡ c.version)
front_split [] f = absurd f
front_split (c ∷ rest) f = (c, rest, refl, refl)

seen_still :
    (seen : ℕ) (o : Option ℕ) → LeAt (some seen) o → (later : ℕ) × (o ≡ some later) × (seen ≤ later)
seen_still seen none h = absurd h
seen_still seen (some later) h = (later, refl, h)

-- Once the clock of a journal has passed an event of a device, whether or not the journal has
-- recorded the event, the journal never takes it again: after whatever calls, as long as counts are
-- within a `uint64_t`, `insert` of the event answers with the invalid clock and changes nothing.
pub refused_forever :
    (remote : Remote) (fuel : ℕ) (calls : List Call) (w w' : World) (self source : ℕ) (n : Node)
    (e : Entry) (count seen : ℕ)
    → Good w
    → get_elem? w self ≡ some n
    → n.kind ≡ cache
    → lookup e.entry.id e.clock ≡ some count
    → 0 < count
    → lookup e.entry.id (front_clock n.connections) ≡ some seen
    → count ≤ seen
    → run fuel calls w ≡ done tt w'
    → ((n' : Node) (later : ℕ)
        → get_elem? w' self ≡ some n'
        → lookup e.entry.id (front_clock n'.connections) ≡ some later
        → later < time_mod)
    → insert remote self e source w' ≡ done invalid_clock w'
refused_forever remote fuel calls w w' self source n e count seen good here kind p pos q le ran
      fits =
    let r = run_grows fuel calls w w' self n good ran here in
    let n' = r.0 in
    let later = seen_still seen (lookup e.entry.id (front_clock n'.connections)) (
      subst (λ o. LeAt o (lookup e.entry.id (front_clock n'.connections))) q
        (r.2.clocks e.entry.id)) in
    let front =
      front_split n'.connections (subst GoodAt r.1 (run-Good fuel calls w w' good ran self)) in
    insert_refused remote w' self n' front.0 front.1 e source r.1 (r.2.same_kind ∙ kind) front.2 (
      rw (← front.3) (
        late_not_next e.clock (front_clock n'.connections) e.entry.id count later.0 p later.1 pos
          (omega (arith, later.2)) (fits n' later.0 r.1 later.1)))
