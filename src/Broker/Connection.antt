-- ===== src/Broker/Connection.antt =====
-- The methods of `Connection` in cashmere/src/brokerbase.cpp: calls of the broker at the other end,
-- with what the connection caches of it. The connection is `_connections[i]` of the broker `self`.
use cashmere.Base.{ℕ, Bool, false, List, [], ◌∷◌, Option, none, some, if◌then◌else◌}
use cashmere.Clock.{Clock, merge, valid}
use cashmere.Entry.{Data, Entry}
use cashmere.Broker.{
  IdConnectionInfoMap, Link, empty_link, M, ◌>>=◌, ◌>>◌, pure, at, link, put_link, Remote,
}

-- for (auto& [id, info] : _sources) info.clock = info.clock.merge(clock)
unfoldable pub merge_infos : Clock → IdConnectionInfoMap → IdConnectionInfoMap
merge_infos c [] = []
merge_infos c ((id, info) ∷ rest) =
    (id, record info { clock = merge info.clock c }) ∷ merge_infos c rest

module _ (remote : Remote) (self : ℕ) where
  -- What is left to do when the other broker has answered.
  unfoldable pub accepted : ℕ → Entry → Clock → M Clock
  unfolding merge_infos
  accepted i e answer = do
    c ← link self i
    put_link self i (record c { version = answer; sources = merge_infos e.clock c.sources })
    pure answer

  unfoldable pub insert_at : ℕ → Entry → Link → Option ℕ → M Clock
  insert_at i e c none = pure []
  insert_at i e c (some b) = do
    answer ← remote.insert b e c.source
    if valid answer then accepted i e answer else pure []

  -- Connection::insert(const Entry&)
  unfoldable pub conn_insert : ℕ → Entry → M Clock
  unfolding insert_at accepted
  conn_insert i e = do c ← link self i; insert_at i e c c.broker

  -- Connection::insert(const EntryList&); the null pointer is not tested.
  unfoldable pub conn_insert_all : ℕ → List Entry → M Clock
  conn_insert_all i entries = do
    c ← link self i
    b ← at c.broker
    answer ← remote.insert_all b entries c.source
    if valid answer
        then (do
          c' ← link self i
          put_link self i (record c' { sources = merge_infos answer c'.sources })
          pure answer)
        else pure answer

  unfoldable pub refresh_at : Link → Link → Option ℕ → M Bool
  refresh_at news c none = pure false
  refresh_at news c (some b) = remote.refresh b news c.source

  -- Connection::refresh
  unfoldable pub conn_refresh : ℕ → Link → M Bool
  unfolding refresh_at
  conn_refresh i news = do c ← link self i; refresh_at news c c.broker

  -- Connection::query; the null pointer is not tested.
  unfoldable pub conn_query : ℕ → Clock → M (List Entry)
  conn_query i from = do c ← link self i; b ← at c.broker; remote.query b from c.source

  -- Connection::relay
  unfoldable pub conn_relay : ℕ → Data → M Clock
  conn_relay i d = do c ← link self i; b ← at c.broker; remote.relay b d c.source

  -- Connection::connect: the answer is copied, the pointer stays.
  unfoldable pub conn_connect : ℕ → Link → M (Unit {0})
  conn_connect i offer = do
    c ← link self i
    b ← at c.broker
    other ← remote.connect b offer
    c' ← link self i
    put_link self i
        (record c' { source = other.source; version = other.version; sources = other.sources })

  unfoldable pub reset_at : ℕ → Link → Option ℕ → M (Unit {0})
  reset_at i c none = pure tt
  reset_at i c (some b) = do
    remote.refresh b empty_link c.source
    c' ← link self i
    put_link self i (record c' { broker = none })

  -- Connection::disconnect
  unfoldable pub conn_disconnect : ℕ → M (Unit {0})
  unfolding reset_at
  conn_disconnect i = do c ← link self i; reset_at i c c.broker
