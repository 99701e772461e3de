-- ===== src/Broker/Provides.antt =====
-- What a broker says that it can reach: `Broker::sources`, `JournalBase::sources`, `UpdateProvides`,
-- `Broker::versions` and `Broker::connectedPorts` (cashmere/src/hub.cpp, cashmere/src/journalbase.cpp).
use cashmere.Base.{
  ℕ, suc, Bool, true, false, not, ◌&&◌, ◌||◌, List, [], ◌∷◌, Option, none, some, ltb, ◌==◌,
  if◌then◌else◌,
}
use cashmere.Base.Int.{pos, negsuc, ◌+ℤ◌, int_eq}
use cashmere.OrderedMap.{lookup, assign, emplace, nat_order}
use cashmere.Clock.{Clock, merge}
use cashmere.Broker.{
  ConnectionInfo, IdConnectionInfoMap, SourcesMap, IdClockMap, Link, Node, hub, cache,
}

abbrev pub has_broker : Option ℕ → Bool
has_broker none = false
has_broker (some b) = true

-- Connection::valid
abbrev pub is_connected : Link → Bool
is_connected c = has_broker c.broker

abbrev pub no_infos : IdConnectionInfoMap → Bool
no_infos [] = true
no_infos (x ∷ rest) = false

-- The loop of `Broker::sources` from the connection `i`.
unfoldable pub collect : ℕ → ℕ → List Link → SourcesMap
collect sender i [] = []
collect sender i (c ∷ rest) =
    let later = collect sender (suc i) rest in
    if (ltb 0 i && i == sender) || (not (is_connected c) || no_infos c.sources)
    then later
    else (i, c.sources) ∷ later

-- _connections.front().clock()
abbrev pub front_clock : List Link → Clock
front_clock [] = []
front_clock (c ∷ rest) = c.version

-- out[id] of a map of clocks
abbrev pub clock_or_empty : Option Clock → Clock
clock_or_empty none = []
clock_or_empty (some c) = c

-- JournalBase::sources puts the journal itself under the port 0.
unfoldable pub sources : Node → ℕ → SourcesMap
sources n sender = elim n.kind [
  | hub ↦ collect sender 0 n.connections
  | cache ↦
      assign 0 ((n.id, record { distance = pos 0; clock = front_clock n.connections }) ∷ [])
        (collect sender 0 n.connections)
]

-- ++data.distance, of an `int16_t`
unfoldable pub farther : ConnectionInfo → ConnectionInfo
farther info = record info {
  distance = if int_eq info.distance (pos 32767) then negsuc 32767 else info.distance +ℤ pos 1;
}

-- out.merge(infoMap), with each distance counted up: an id that is there already stays as it is.
unfoldable pub merge_farther : IdConnectionInfoMap → IdConnectionInfoMap → IdConnectionInfoMap
merge_farther [] out = out
merge_farther ((id, info) ∷ rest) out = merge_farther rest (emplace id (farther info) out)

unfoldable pub update_provides_into : SourcesMap → IdConnectionInfoMap → IdConnectionInfoMap
update_provides_into [] out = out
update_provides_into ((port, infos) ∷ rest) out =
    update_provides_into rest (merge_farther infos out)

-- UpdateProvides
unfoldable pub update_provides : SourcesMap → IdConnectionInfoMap
unfolding update_provides_into merge_farther
update_provides provides = update_provides_into provides []

unfoldable pub merge_versions : IdConnectionInfoMap → IdClockMap → IdClockMap
merge_versions [] out = out
merge_versions ((id, info) ∷ rest) out =
    merge_versions rest (assign id (merge (clock_or_empty (lookup id out)) info.clock) out)

unfoldable pub versions_from : List Link → IdClockMap → IdClockMap
versions_from [] out = out
versions_from (c ∷ rest) out = versions_from rest (merge_versions c.sources out)

-- Broker::versions
unfoldable pub versions : Node → IdClockMap
unfolding versions_from merge_versions
versions n = versions_from n.connections []

ports_from : ℕ → List Link → List ℕ
ports_from i [] = []
ports_from i (c ∷ rest) = i ∷ ports_from (suc i) rest

-- Broker::connectedPorts: the indices from 1, a set in the order of its elements.
unfoldable pub connected_ports : Node → List ℕ
unfolding ports_from
connected_ports n = elim n.connections [ [] ↦ [] | c ∷ rest ↦ ports_from 1 rest ]
