-- ===== src/Broker/Relay.antt =====
-- Broker::relay (cashmere/src/hub.cpp) and JournalBase::relay (cashmere/src/journalbase.cpp): data
-- goes to the broker that provides its id, through the port from which that is nearest.
use cashmere.Base.{ℕ, ◌+◌, Bool, true, false, ◌&&◌, [], ◌∷◌, ltb, ◌==◌, if◌then◌else◌}
use cashmere.Base.Int.{ℤ, pos, pos_part, neg_part, int_eq}
use cashmere.Clock.{Clock, tick, invalid_clock}
use cashmere.Entry.{Data}
use cashmere.Broker.{
  ConnectionInfo, IdConnectionInfoMap, SourcesMap, Node, hub, cache, M, ◌>>=◌, pure, node, Remote,
  clock,
}
use cashmere.Broker.Connection.{conn_relay}
use cashmere.Broker.Provides.{sources}
use cashmere.Broker.Insert.{insert}

-- What the search finds: this broker itself, the nearest port with its distance, or neither.
pub data Route : Type 0 where
  here : Route
  via : ℕ → ℤ → Route
  unknown : Route

-- info.distance < distance; an `int16_t` is below the `long` that stands for no route.
abbrev pub nearer : ℤ → Route → Bool
nearer d here = false
nearer d (via port best) = ltb (pos_part d + neg_part best) (pos_part best + neg_part d)
nearer d unknown = true

-- The entry of one id. `return` leaves both loops: nothing changes `here`.
unfoldable pub consider : ℕ → ℕ → ℕ → ConnectionInfo → Route → Route
consider wanted port id info here = here
consider wanted port id info route =
    if id == wanted
    then (if int_eq info.distance (pos 0)
        then here
        else if nearer info.distance route
        then via port info.distance
        else route)
    else route

unfoldable pub route_infos : ℕ → ℕ → IdConnectionInfoMap → Route → Route
unfolding consider
route_infos wanted port [] route = route
route_infos wanted port ((id, info) ∷ rest) route =
    route_infos wanted port rest (consider wanted port id info route)

unfoldable pub route_from : ℕ → ℕ → SourcesMap → Route → Route
unfolding route_infos
route_from wanted sender [] route = route
route_from wanted sender ((port, infos) ∷ rest) route =
    route_from wanted sender rest
      (if ltb 0 sender && port == sender then route else route_infos wanted port infos route)

-- The search loops of `Broker::relay`, over `sources()`.
unfoldable pub find_route : Node → ℕ → ℕ → Route
unfolding route_from
find_route n wanted sender = route_from wanted sender (sources n 0) unknown

-- A journal takes the id 0 for its own.
abbrev pub own_id : Node → Data → Data
own_id n d = elim n.kind [ hub ↦ d | cache ↦ if d.id == 0 then record d { id = n.id } else d ]

module _ (remote : Remote) (self : ℕ) where
  unfoldable pub follow : Data → Route → M Clock
  follow d here = do
    now ← clock self
    insert remote self (record { clock = tick now d.id; entry = d }) 0
  follow d (via port distance) = conn_relay remote self port d
  follow d unknown = pure invalid_clock

  unfoldable pub hub_relay : Data → ℕ → M Clock
  unfolding follow
  hub_relay d sender = do n ← node self; follow d (find_route n d.id sender)

  -- The virtual `relay`.
  unfoldable pub relay : Data → ℕ → M Clock
  relay d sender = do n ← node self; hub_relay (own_id n d) sender
