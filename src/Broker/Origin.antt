-- ===== src/Broker/Origin.antt =====
-- What a connection reads of the broker at its other end: `Connection::clock` and `Connection::provides`
-- of cashmere/src/brokerbase.cpp, with Origin::Remote.
use cashmere.Base.{ℕ, ◌≡◌, ◌↔◌, refl, ap, ◌∙◌, [], ◌∷◌, or_else}
use cashmere.OrderedMap.{lookup, nat_order}
use cashmere.Clock.{Clock, merge}
use cashmere.Clock.Causality.{Precedes, merge_least}
use cashmere.Broker.{
  IdConnectionInfoMap, SourcesMap, Link, M, ◌>>=◌, ◌>>◌, pure, at, node, link, put_link, clock,
}
use cashmere.Broker.Provides.{sources, merge_farther, update_provides_into}
use cashmere.Broker.Advertised.{InfosAreSorted, first_offer, lookup-update_provides_into}
use cashmere.Broker.Versions.{ClocksAreSorted}

-- _version = _version.merge(data.clock), for each of a port
unfoldable pub merge_clocks : IdConnectionInfoMap → Clock → Clock
merge_clocks [] version = version
merge_clocks ((id, info) ∷ rest) version = merge_clocks rest (merge version info.clock)

-- The loop over the ports: every distance counts one up, and ids that the connection knows stay as they
-- are.
unfoldable pub absorb : SourcesMap → Link → Link
unfolding merge_clocks merge_farther
absorb [] c = c
absorb ((port, infos) ∷ rest) c =
    absorb rest
      (record c { version = merge_clocks infos c.version; sources = merge_farther infos c.sources })

module _ (self : ℕ) where
  -- Connection::clock(Origin::Remote); the null pointer is not tested.
  unfoldable pub conn_clock : ℕ → M Clock
  conn_clock i = do
    c ← link self i
    b ← at c.broker
    v ← clock b
    put_link self i (record c { version = v })
    pure v

  -- Connection::provides(Origin::Remote); the null pointer is not tested.
  unfoldable pub conn_provides : ℕ → M IdConnectionInfoMap
  unfolding absorb
  conn_provides i = do
    c ← link self i
    b ← at c.broker
    n ← node b
    put_link self i (absorb (sources n c.source) c)
    pure (absorb (sources n c.source) c).sources

absorb_sources :
    (p : SourcesMap) (c : Link) → (absorb p c).sources ≡ update_provides_into p c.sources
unfolding absorb update_provides_into
absorb_sources [] c = refl
absorb_sources ((port, infos) ∷ rest) c =
    absorb_sources rest
      (record c { version = merge_clocks infos c.version; sources = merge_farther infos c.sources })

-- After the read, the connection has for an id what it had, or else the offer of the first port of the
-- other broker, one step farther.
lookup-absorb :
    (id : ℕ) (p : SourcesMap) (c : Link)
    → InfosAreSorted p
    → lookup id (absorb p c).sources ≡ or_else (lookup id c.sources) (first_offer id p)
lookup-absorb id p c s =
    ap (lookup id) (absorb_sources p c) ∙ lookup-update_provides_into id p c.sources s

-- Each clock of these is at or below `d`.
abbrev AllPrecede : IdConnectionInfoMap → Clock → Type 0
AllPrecede [] d = Unit {0}
AllPrecede ((id, info) ∷ rest) d = Precedes info.clock d × AllPrecede rest d

merge_clocks_least :
    (infos : IdConnectionInfoMap) (version d : Clock)
    → ClocksAreSorted infos
    → Precedes (merge_clocks infos version) d ↔ (Precedes version d × AllPrecede infos d)
unfolding merge_clocks
merge_clocks_least [] version d s = (λ h. (h, tt), λ h. h.0)
merge_clocks_least ((id, info) ∷ rest) version d s =
    let later = merge_clocks_least rest (merge version info.clock) d s.1 in
    let here = merge_least version info.clock s.0 d in
    (
      λ h. let (m, r) = later.0 h in let (v, i) = here.0 m in (v, (i, r)),
      λ h. later.1 (here.1 (h.0, h.1.0), h.1.1),
    )

abbrev AllClocksAreSorted : SourcesMap → Type 0
AllClocksAreSorted [] = Unit {0}
AllClocksAreSorted ((port, infos) ∷ rest) = ClocksAreSorted infos × AllClocksAreSorted rest

abbrev AllOffersPrecede : SourcesMap → Clock → Type 0
AllOffersPrecede [] d = Unit {0}
AllOffersPrecede ((port, infos) ∷ rest) d = AllPrecede infos d × AllOffersPrecede rest d

-- After the read, the version of the connection is the least clock at or above its own and those of all
-- that the other broker offers.
absorb_least :
    (p : SourcesMap) (c : Link) (d : Clock)
    → AllClocksAreSorted p
    → Precedes (absorb p c).version d ↔ (Precedes c.version d × AllOffersPrecede p d)
unfolding absorb
absorb_least [] c d s = (λ h. (h, tt), λ h. h.0)
absorb_least ((port, infos) ∷ rest) c d s =
    let c' = record c {
      version = merge_clocks infos c.version;
      sources = merge_farther infos c.sources;
    } in
    let later = absorb_least rest c' d s.1 in
    let here = merge_clocks_least infos c.version d s.0 in
    (
      λ h. let (m, r) = later.0 h in let (v, i) = here.0 m in (v, (i, r)),
      λ h. later.1 (here.1 (h.0, h.1.0), h.1.1),
    )
