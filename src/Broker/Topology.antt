-- ===== src/Broker/Topology.antt =====
-- Joining and leaving: Broker::connect, Broker::refresh, Broker::disconnect and refreshConnections
-- (cashmere/src/hub.cpp).
use cashmere.Base.{
  ℕ, zero, suc, ◌-◌, Bool, true, false, not, ◌||◌, List, [], ◌∷◌, length, leb, ◌==◌, if◌then◌else◌,
}
use cashmere.Entry.{Entry}
use cashmere.Broker.{
  Link, M, ◌>>=◌, ◌>>◌, pure, node, link, put_link, push_link, Remote, clock, stub, no_source,
}
use cashmere.Broker.Connection.{
  merge_infos, conn_refresh, conn_query, conn_connect, conn_disconnect, conn_insert_all,
}
use cashmere.Broker.Provides.{is_connected, sources, update_provides}
use cashmere.Broker.Insert.{insert_all}
use cashmere.Broker.Query.{query}

-- The `data` that a broker hands to the other end of the connection `i`.
unfoldable pub offer : ℕ → ℕ → M Link
offer self i = do
  now ← clock self
  n ← node self
  pure (record (stub self) { source = i; version = now; sources = update_provides (sources n i) })

abbrev pub is_nil {ℓ} : {A : Type ℓ} → List A → Bool
is_nil [] = true
is_nil (x ∷ rest) = false

module _ (remote : Remote) (self : ℕ) where
  unfoldable pub refresh_to : ℕ → ℕ → M (Unit {0})
  refresh_to i ignore =
      if i == ignore
      then pure tt
      else (do news ← offer self i; conn_refresh remote self i news; pure tt)

  -- The loop of `refreshConnections` over `count` connections from `i`.
  unfoldable pub refresh_from : ℕ → ℕ → ℕ → M (Unit {0})
  refresh_from zero i ignore = pure tt
  refresh_from (suc count) i ignore = do refresh_to i ignore; refresh_from count (suc i) ignore

  -- Broker::refreshConnections
  unfoldable pub refresh_connections : ℕ → M (Unit {0})
  refresh_connections ignore = do n ← node self; refresh_from (length n.connections - 1) 1 ignore

  -- Broker::refresh
  unfoldable pub refresh : Link → ℕ → M Bool
  refresh news sender = do
    n ← node self
    if sender == 0 || leb (length n.connections) sender then pure false else do
      c ← link self sender
      put_link self sender
          (record c { source = news.source; version = news.version; sources = news.sources })
      refresh_connections sender
      pure true

  unfoldable pub insert_fetched : List Entry → ℕ → M (Unit {0})
  insert_fetched entries i =
      if is_nil entries then pure tt else (do insert_all remote self entries i; pure tt)

  unfoldable pub send_missing : List Entry → ℕ → M (Unit {0})
  send_missing entries i =
      if is_nil entries then pure tt else (do conn_insert_all remote self i entries; pure tt)

  -- Each end gets the entries that it lacks.
  unfoldable pub exchange : ℕ → M (Unit {0})
  exchange port = do
    c ← link self port
    mine ← query remote self c.version port
    now ← clock self
    theirs ← conn_query remote self port now
    insert_fetched theirs port
    send_missing mine port

  -- The first half of the handshake, `conn.source() == 0`: offer a port to the other end,
  -- and exchange entries.
  unfoldable pub connect_first : Link → M Link
  connect_first conn =
      if not (is_connected conn) then pure (record (stub self) { source = no_source }) else do
        n ← node self
        let port = length n.connections
        push_link self conn
        news ← offer self port
        conn_connect remote self port news
        exchange port
        refresh_connections port
        pure (record (stub self) { source = port })

  -- The second half: the other end has offered its port.
  unfoldable pub connect_back : Link → M Link
  connect_back conn = do
    n ← node self
    let port = length n.connections
    version ← clock self
    push_link self (record conn { sources = merge_infos version conn.sources })
    refresh_connections port
    n' ← node self
    pure (record (stub self) {
      source = port;
      version = version;
      sources = update_provides (sources n' port);
    })

  -- Broker::connect
  unfoldable pub connect : Link → M Link
  connect conn = if conn.source == 0 then connect_first conn else connect_back conn

  -- Broker::disconnect
  unfoldable pub disconnect : ℕ → M ℕ
  disconnect source = do
    n ← node self
    if leb (length n.connections) source then pure no_source else do
      c ← link self source
      if is_connected c
          then (do conn_disconnect remote self source; refresh_connections source; pure source)
          else pure no_source
