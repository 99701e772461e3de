-- ===== src/Broker/Routes.antt =====
-- What Broker::relay (cashmere/src/hub.cpp) and JournalBase::relay (cashmere/src/journalbase.cpp) do
-- with data, by what the ports offer.
use cashmere.Base.{
  Bool, true, false, Option, none, List, [], ◌∷◌, suc, ◌+◌, ◌&&◌, ◌||◌, not, ltb, ◌==◌, arith,
  Bool-cases, ℕ, ◌≡◌, ◌⊎◌, refl, sym, ap, ◌∙◌, subst, inl, inr, some, get_elem?,
}
use cashmere.Base.Int.{ℤ, pos, int_eq, int_eq_iff}
use cashmere.Clock.{Clock, tick, invalid_clock}
use cashmere.Entry.{Data}
use cashmere.Broker.{
  Kind, hub, cache, link, World, Outcome, Node, Link, done, continue, ◌>>=◌, pure, at, node, clock,
  Remote,
}
use cashmere.Broker.Connection.{conn_relay}
use cashmere.Broker.Provides.{has_broker, is_connected, no_infos, collect, sources}
use cashmere.Broker.Insert.{insert}
use cashmere.Broker.Relay.{Route, here, via, unknown, find_route, own_id, follow, hub_relay, relay}
use cashmere.OrderedMap.{OrderedMap, assign, nat_order}
use cashmere.Broker.Offers.{broker_of, assign-collect}
use cashmere.Broker.Nearest.{Lists, Offers, IsBest, find_route-IsBest}

-- The port of a broker that is connected to another one, by `c`.
abbrev pub Joins : Node → ℕ → Link → ℕ → Type 0
Joins n port c b = (get_elem? n.connections port ≡ some c) × (c.broker ≡ some b)

has_broker-some :
    (o : Option ℕ) (skip empty : Bool)
    → (skip || (not (has_broker o) || empty)) ≡ false
    → (b : ℕ) × (o ≡ some b)
has_broker-some none true empty h = absurd (ground (arith, h))
has_broker-some none false empty h = absurd (ground (arith, h))
has_broker-some (some b) skip empty h = (b, refl)

module _ (wanted sender : ℕ) where
  -- The ports in what a broker can reach are connected.
  Offers-collect :
      (i : ℕ) (links : List Link) (port : ℕ) (d : ℤ)
      → Offers wanted sender (collect 0 i links) port d
      → (k : ℕ) × (c : Link) × (b : ℕ) × (port ≡ i + k)
        × (get_elem? links k ≡ some c)
        × (c.broker ≡ some b)
  unfolding collect
  Offers-collect i [] port d h = absurd h
  Offers-collect i (c ∷ rest) port d h =
      elim (Bool-cases ((ltb 0 i && i == 0) || (not (is_connected c) || no_infos c.sources))) [
        | inl skipped ↦
            let (k, l, b, e, there, joined) =
              Offers-collect (suc i) rest port d (rw skipped at h) in
            (suc k, l, b, omega (arith, e), there, joined)
        | inr kept ↦ elim (rw kept at h) [
          | inl now ↦
              let (b, joined) =
                has_broker-some c.broker (ltb 0 i && i == 0) (no_infos c.sources) kept in
              (0, c, b, omega (arith, now.1), refl, joined)
          | inr later ↦
              let (k, l, b, e, there, joined) = Offers-collect (suc i) rest port d later in
              (suc k, l, b, omega (arith, e), there, joined)
        ]
      ]

  -- A journal lists itself at the distance 0.
  own_near :
      (own : ℕ) (d : ℤ) (v : Clock)
      → int_eq d (pos 0) ≡ false
      → Lists wanted ((own, record { distance = pos 0; clock = v }) ∷ []) d
      → ⊥
  own_near own d v far (inl near) = cc (sym far ∙ (int_eq_iff d (pos 0)).1 near.1)
  own_near own d v far (inr k) = k

  -- A port that is not at the distance 0 is one of the broker's connections.
  Offers-Joins :
      (kind : Kind) (own : ℕ) (links : List Link) (entries : OrderedMap Clock Data) (port : ℕ)
      (d : ℤ)
      → int_eq d (pos 0) ≡ false
      → Offers wanted sender (sources (broker_of kind own links entries) 0) port d
      → (c : Link) × (b : ℕ) × Joins (broker_of kind own links entries) port c b
  unfolding sources assign collect
  Offers-Joins hub own links entries port d far h =
      let (k, c, b, e, there, joined) = Offers-collect 0 links port d h in
      let same : port ≡ k = omega (arith, e) in (c, b, (ap (get_elem? links) same ∙ there, joined))
  Offers-Joins cache own [] entries port d far h = elim h [
    | inl itself ↦ absurd (own_near own d [] far itself.2)
    | inr none_left ↦ absurd none_left
  ]
  Offers-Joins cache own (front ∷ rest) entries port d far h =
      elim (subst (λ offers. Offers wanted sender offers port d) (assign-collect 0 _ front rest)
        h) [
          | inl itself ↦ absurd (own_near own d front.version far itself.2)
          | inr other ↦
              let (k, c, b, e, there, joined) = Offers-collect 1 rest port d other in
              let same : port ≡ suc k = omega (arith, e) in
              (c, b, (ap (get_elem? (front ∷ rest)) same ∙ there, joined))
        ]

module _ (remote : Remote) (self : ℕ) where
  -- What becomes of the data `d` at the broker `n` in the world `w`, by the offers `P`.
  abbrev pub Goes : Node → (ℕ → ℤ → Type 0) → Data → World → Outcome Clock → Type 0
  Goes n P d w outcome =
      (((port : ℕ) × P port (pos 0))
        × (outcome
            ≡ (do
              now ← clock self
              insert remote self (record { clock = tick now d.id; entry = d }) 0)
                w))
      ⊎ (((port : ℕ) × (best : ℤ) × (c : Link) × (b : ℕ) × IsBest P (via port best)
            × Joins n port c b
            × (outcome ≡ remote.relay b d c.source w))
          ⊎ (((port : ℕ) (distance : ℤ) → P port distance → ⊥) × (outcome ≡ done invalid_clock w)))

  conn_relay-Joins :
      (n : Node) (port b : ℕ) (c : Link) (d : Data) (w : World)
      → get_elem? w self ≡ some n
      → Joins n port c b
      → conn_relay remote self port d w ≡ remote.relay b d c.source w
  unfolding conn_relay link node at ◌>>=◌
  conn_relay-Joins n port b c d w found h = rw found (rw (h.0, h.1) refl)

  follow-Goes :
      (n : Node) (wanted sender : ℕ) (d : Data) (w : World) (route : Route)
      → get_elem? w self ≡ some n
      → IsBest (Offers wanted sender (sources n 0)) route
      → Goes n (Offers wanted sender (sources n 0)) d w (follow remote self d route w)
  unfolding follow pure
  follow-Goes n wanted sender d w here found b = inl (b, refl)
  follow-Goes n wanted sender d w (via port best) found b =
      let (c, other, joins) =
        Offers-Joins wanted sender n.kind n.id n.connections n.entries port best
          (b.1 port best b.0).0 b.0 in
      inr (inl (port, best, c, other, b, joins, conn_relay-Joins n port other c d w found joins))
  follow-Goes n wanted sender d w unknown found b = inr (inr (b, refl))

  -- The broker looks itself up for its own id, and for the route.
  relay-follow :
      (d : Data) (sender : ℕ) (w : World) (n : Node)
      → get_elem? w self ≡ some n
      → relay remote self d sender w
        ≡ follow remote self (own_id n d) (find_route n (own_id n d).id sender) w
  unfolding relay hub_relay node at ◌>>=◌
  relay-follow d sender w n found =
      ap (λ o. continue (at o w) (λ m. hub_relay remote self (own_id m d) sender)) found
      ∙ ap
          (λ o.
            continue (at o w)
              (λ m. follow remote self (own_id n d) (find_route m (own_id n d).id sender)))
          found

  -- The relay of a broker, whatever its connections, of data for an id (a journal takes the id 0 for
  -- its own). If a port other than the sender's offers the id at the distance 0, the broker inserts the
  -- data itself, under its clock ticked for the id. Else, if such a port offers the id, the broker at the
  -- other end of one of them is asked to relay the data, under the port at which it has this broker, and no
  -- such port offers the id at a smaller distance. Else the answer is the invalid clock, and the world stays
  -- as it is. The broker is in the world.
  pub relay-Goes :
      (d : Data) (sender : ℕ) (w : World) (n : Node)
      → get_elem? w self ≡ some n
      → Goes n
          (Offers (own_id n d).id sender (sources n 0))
          (own_id n d)
          w
          (relay remote self d sender w)
  relay-Goes d sender w n found =
      let d' = own_id n d in
      subst (Goes n (Offers d'.id sender (sources n 0)) d' w)
        (sym (relay-follow d sender w n found))
        (follow-Goes n d'.id sender d' w (find_route n d'.id sender) found
          (find_route-IsBest n d'.id sender))
