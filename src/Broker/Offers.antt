-- ===== src/Broker/Offers.antt =====
-- What a broker hands to a neighbour of itself: Broker::connect, Broker::refreshConnections and
-- Broker::sources (cashmere/src/hub.cpp), and JournalBase::sources (cashmere/src/journalbase.cpp).
use cashmere.Base.{
  ℕ, suc, ltb, ◌==◌, Bool, true, false, not, ◌&&◌, ◌||◌, if◌then◌else◌, ◌≡◌, refl, sym, ◌∙◌, ap,
  List, [], ◌∷◌, Option, none, some, or_else, get_elem?, arith, Bool-cases, inl, inr, subst,
}
use cashmere.Base.Int.{pos, int_eq, ◌+ℤ◌}
use cashmere.Clock.{Clock}
use cashmere.Entry.{Data}
use cashmere.OrderedMap.{OrderedMap, lookup, assign, Above, IsSorted, nat_order}
use cashmere.Broker.{
  ConnectionInfo, IdConnectionInfoMap, SourcesMap, Kind, Link, Node, hub, cache, World, done, ◌>>=◌,
  pure, at, node, link, clock,
}
use cashmere.Broker.Provides.{is_connected, no_infos, collect, farther, sources, update_provides}
use cashmere.Broker.Topology.{offer}
use cashmere.Broker.Advertised.{offered, first_offer, InfosAreSorted, lookup-update_provides}

-- The offer for `id` of the first connection, of `links` that are numbered from `i` on, that is
-- connected, is not the one of `receiver`, and lists the id: the clock and the distance that are stored
-- with it, one step farther.
abbrev pub first_from : ℕ → ℕ → ℕ → List Link → Option ConnectionInfo
first_from id receiver i [] = none
first_from id receiver i (c ∷ rest) =
    if (ltb 0 i && i == receiver) || not (is_connected c)
    then first_from id receiver (suc i) rest
    else or_else (offered id c.sources) (first_from id receiver (suc i) rest)

-- What a broker of that kind and id, with the connections `front ∷ rest`, has for a neighbour: a journal
-- has itself first, at the distance of one step.
abbrev pub has_for : Kind → ℕ → Link → List Link → ℕ → ℕ → Option ConnectionInfo
has_for hub own front rest receiver id = first_from id receiver 0 (front ∷ rest)
has_for cache own front rest receiver id =
    if id == own
    then some (record { distance = pos 1; clock = front.version })
    else first_from id receiver 1 rest

abbrev pub SourcesAreSorted : List Link → Type 0
SourcesAreSorted [] = Unit {0}
SourcesAreSorted (c ∷ rest) = IsSorted c.sources × SourcesAreSorted rest

module _ (receiver : ℕ) where
  collect-InfosAreSorted :
      (i : ℕ) (links : List Link)
      → SourcesAreSorted links
      → InfosAreSorted (collect receiver i links)
  unfolding collect
  collect-InfosAreSorted i [] s = tt
  collect-InfosAreSorted i (c ∷ rest) s =
      let later = collect-InfosAreSorted (suc i) rest s.1 in
      elim (Bool-cases
        ((ltb 0 i && i == receiver) || (not (is_connected c) || no_infos c.sources))) [
          | inl skipped ↦ rw skipped later
          | inr kept ↦ rw kept (s.0, later)
        ]

  collect-Above :
      (k i : ℕ) (links : List Link) → ltb k i ≡ true → Above k (collect receiver i links)
  unfolding collect
  collect-Above k i [] p = tt
  collect-Above k i (c ∷ rest) p =
      elim (Bool-cases
        ((ltb 0 i && i == receiver) || (not (is_connected c) || no_infos c.sources))) [
          | inl skipped ↦ rw skipped (collect-Above k (suc i) rest (ground (arith, p)))
          | inr kept ↦ rw kept (p, collect-Above i (suc i) rest (ground arith))
        ]

  -- A connection that lists nothing may be left out or not.
  kept_or_not :
      (id : ℕ) (skip connected : Bool) (port : ℕ) (infos : IdConnectionInfoMap) (later : SourcesMap)
      → first_offer id
          (if skip || (not connected || no_infos infos) then later else (port, infos) ∷ later)
        ≡ (if skip || not connected
            then first_offer id later
            else or_else (offered id infos) (first_offer id later))
  unfolding lookup
  kept_or_not id true connected port infos later = refl
  kept_or_not id false false port infos later = refl
  kept_or_not id false true port [] later = refl
  kept_or_not id false true port (info ∷ infos) later = refl

  first_offer-collect :
      (id i : ℕ) (links : List Link)
      → first_offer id (collect receiver i links) ≡ first_from id receiver i links
  unfolding collect
  first_offer-collect id i [] = refl
  first_offer-collect id i (c ∷ rest) =
      kept_or_not id (ltb 0 i && i == receiver) (is_connected c) i c.sources
        (collect receiver (suc i) rest)
      ∙ ap
          (λ later.
            if (ltb 0 i && i == receiver) || not (is_connected c)
            then later
            else or_else (offered id c.sources) later)
          (first_offer-collect id (suc i) rest)

assign_first :
    (infos : IdConnectionInfoMap) (m : SourcesMap) → Above 0 m → assign 0 infos m ≡ (0, infos) ∷ m
unfolding assign
assign_first infos [] a = refl
assign_first infos ((port, old) ∷ m) a = rw a.0 refl

-- A journal puts itself in the place of its connection 0.
pub assign-collect :
    (receiver : ℕ) (infos : IdConnectionInfoMap) (front : Link) (rest : List Link)
    → assign 0 infos (collect receiver 0 (front ∷ rest)) ≡ (0, infos) ∷ collect receiver 1 rest
unfolding collect assign
assign-collect receiver infos front rest =
    elim (Bool-cases (not (is_connected front) || no_infos front.sources)) [
      | inl skipped ↦
          rw skipped
            (assign_first infos (collect receiver 1 rest) (collect-Above receiver 0 1 rest refl))
      | inr kept ↦ rw kept refl
    ]

own_first :
    (id own : ℕ) (v : Clock) (later : Option ConnectionInfo)
    → or_else (offered id ((own, record { distance = pos 0; clock = v }) ∷ [])) later
      ≡ (if id == own then some (record { distance = pos 1; clock = v }) else later)
unfolding lookup farther int_eq ◌+ℤ◌
own_first id own v later = ground arith

-- The broker of that kind, id, connections and entries.
abbrev pub broker_of : Kind → ℕ → List Link → OrderedMap Clock Data → Node
broker_of kind own links entries = record {
  kind = kind;
  id = own;
  connections = links;
  entries = entries;
}

module _ (own : ℕ) (front : Link) (rest : List Link) (entries : OrderedMap Clock Data) where
  first_offer-sources :
      (kind : Kind) (receiver id : ℕ)
      → first_offer id (sources (broker_of kind own (front ∷ rest) entries) receiver)
        ≡ has_for kind own front rest receiver id
  unfolding sources
  first_offer-sources hub receiver id = first_offer-collect receiver id 0 (front ∷ rest)
  first_offer-sources cache receiver id =
      ap (first_offer id) (assign-collect receiver _ front rest)
      ∙ own_first id own front.version (first_offer id (collect receiver 1 rest))
      ∙ ap
          (λ later.
            if id == own then some (record { distance = pos 1; clock = front.version }) else later)
          (first_offer-collect receiver id 1 rest)

  sources-InfosAreSorted :
      (kind : Kind) (receiver : ℕ)
      → SourcesAreSorted (front ∷ rest)
      → InfosAreSorted (sources (broker_of kind own (front ∷ rest) entries) receiver)
  unfolding sources
  sources-InfosAreSorted hub receiver s = collect-InfosAreSorted receiver 0 (front ∷ rest) s
  sources-InfosAreSorted cache receiver s =
      subst InfosAreSorted (sym (assign-collect receiver _ front rest))
        (tt, collect-InfosAreSorted receiver 1 rest s.1)

  -- What a broker puts together for the neighbour at its port `receiver`, to connect to it or to refresh
  -- it: a pointer to itself, that port, its own clock, and for each id what the first of its ports has, in
  -- the order of the ports and not of the distances, one step farther as an `int16_t` counts. The ports are
  -- those that are connected, without the neighbour's own, and a journal has itself before them, at the
  -- distance 1. The broker is in the world and has its connection 0, as all brokers have from their
  -- construction on, and the maps of its connections are well-formed.
  pub offer_tells :
      (w : World) (self receiver id : ℕ) (kind : Kind)
      → get_elem? w self ≡ some (broker_of kind own (front ∷ rest) entries)
      → SourcesAreSorted (front ∷ rest)
      → (news : Link) × (offer self receiver w ≡ done news w)
        × (news.source ≡ receiver)
        × (news.broker ≡ some self)
        × (news.version ≡ front.version)
        × (lookup id news.sources ≡ has_for kind own front rest receiver id)
  unfolding offer clock link node at pure ◌>>=◌
  offer_tells w self receiver id kind found s = (
    record {
      source = receiver;
      version = front.version;
      sources = update_provides (sources (broker_of kind own (front ∷ rest) entries) receiver);
      broker = some self;
    },
    rw found (rw found refl),
    refl,
    refl,
    refl,
    lookup-update_provides id (sources (broker_of kind own (front ∷ rest) entries) receiver)
          (sources-InfosAreSorted kind receiver s)
        ∙ first_offer-sources kind receiver id,
  )
