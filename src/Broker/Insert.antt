-- ===== src/Broker/Insert.antt =====
-- `insert`: Broker::insert (cashmere/src/hub.cpp), which passes an entry on to every other
-- connection, JournalBase::insert (cashmere/src/journalbase.cpp), which takes only the next event of
-- a device, and Journal::save (cashmere/plugins/src/cache.cpp).
use cashmere.Base.{
  ℕ, zero, suc, Bool, true, false, not, List, [], ◌∷◌, none, some, length, leb, ◌==◌, if◌then◌else◌,
}
use cashmere.Base.Int.{pos}
use cashmere.OrderedMap.{lookup, assign, contains, nat_order}
use cashmere.Clock.{Clock, merge, is_next, invalid_clock}
use cashmere.Clock.Lexicographic.{clock_order}
use cashmere.Entry.{Entry}
use cashmere.Broker.{
  IdConnectionInfoMap, Kind, hub, cache, M, ◌>>=◌, ◌>>◌, pure, node, put_node, link, put_link,
  Remote, clock, set_clock,
}
use cashmere.Broker.Connection.{conn_insert}

-- infos[id].clock = c; an id that is not there is made with the distance 0.
unfoldable pub set_info_clock : ℕ → Clock → IdConnectionInfoMap → IdConnectionInfoMap
set_info_clock id c infos = elim (lookup id infos) [
  | none ↦ assign id (record { distance = pos 0; clock = c }) infos
  | some info ↦ assign id (record info { clock = c }) infos
]

-- Journal::save
unfoldable pub save : ℕ → Entry → M Bool
save self e = do
  n ← node self
  if contains e.clock n.entries
      then pure false
      else do put_node self (record n { entries = assign e.clock e.entry n.entries }); pure true

-- setClock(clock().merge(time))
unfoldable pub advance : ℕ → Clock → M (Unit {0})
advance self time = do seen ← clock self; set_clock self (merge seen time)

-- _connections.at(i).provides()[id].clock = clock()
unfoldable pub mark : ℕ → ℕ → ℕ → M (Unit {0})
mark self i id = do
  c ← link self i
  now ← clock self
  put_link self i (record c { sources = set_info_clock id now c.sources })

module _ (remote : Remote) (self : ℕ) where
  unfoldable pub forward_to : ℕ → ℕ → Entry → M (Unit {0})
  forward_to i source e = if i == source then pure tt else (do conn_insert remote self i e; pure tt)

  -- The loop over `count` connections from `i`.
  unfoldable pub forward : ℕ → ℕ → ℕ → Entry → M (Unit {0})
  forward zero i source e = pure tt
  forward (suc count) i source e = do forward_to i source e; forward count (suc i) source e

  -- Broker::insert
  unfoldable pub hub_insert : Entry → ℕ → M Clock
  hub_insert e source = do
    n ← node self
    if leb (length n.connections) source then pure invalid_clock else do
      advance self e.clock
      mark self source e.entry.id
      forward (length n.connections) 0 source e
      clock self

  -- JournalBase::insert
  unfoldable pub journal_insert : Entry → ℕ → M Clock
  journal_insert e source = do
    seen ← clock self
    if not (is_next e.clock seen e.entry.id)
        then pure invalid_clock
        else do saved ← save self e; if saved then hub_insert e source else pure invalid_clock

  abbrev pub insert_by : Kind → Entry → ℕ → M Clock
  insert_by hub e source = hub_insert e source
  insert_by cache e source = journal_insert e source

  -- The virtual `insert(const Entry&, Source)`.
  unfoldable pub insert : Entry → ℕ → M Clock
  insert e source = do n ← node self; insert_by n.kind e source

  -- BrokerBase::insert(const EntryList&, Source)
  unfoldable pub insert_all : List Entry → ℕ → M Clock
  insert_all [] source = clock self
  insert_all (e ∷ entries) source = do insert e source; insert_all entries source
