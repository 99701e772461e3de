-- ===== src/Broker/Growth/Membership.antt =====
-- Connecting, refreshing, leaving and relaying keep `Keeps` too, and so does a whole network.
use cashmere.Base.{
  ℕ, zero, suc, ◌≢◌, ◌||◌, true, false, not, List, [], ◌∷◌, arith, length, leb, ◌==◌,
}
use cashmere.Entry.{Data, Entry}
use cashmere.Broker.{Link, timed_out, Remote}
use cashmere.Broker.Provides.{is_connected}
use cashmere.Broker.Topology
use cashmere.Broker.Topology.{is_nil}
use cashmere.Broker.Relay
use cashmere.Broker.Relay.{Route, here, via, unknown, own_id}
use cashmere.Broker.Dispatch.{network, through}
use cashmere.Broker.Growth.{IsFront, Keeps, Keeps-bind}
use cashmere.Broker.Growth.Rules.{
  Keeps-pure, Keeps-if, Keeps-branch, Keeps-node, Keeps-read, Keeps-link, Keeps-put_link,
  Keeps-push_link, Keeps-clock,
}
use cashmere.Broker.Growth.Operations.{
  RemoteKeeps, insert-Keeps, insert_all-Keeps, query-Keeps, conn_insert_all-Keeps,
  conn_refresh-Keeps, conn_query-Keeps, conn_relay-Keeps, conn_connect-Keeps, conn_disconnect-Keeps,
}

length-ne-zero : (cs : List Link) → IsFront cs → length cs ≢ 0
length-ne-zero [] f = absurd f
length-ne-zero (c ∷ cs) f = omega arith

offer-Keeps : (self i : ℕ) → Keeps (Topology.offer self i)
unfolding Topology.offer
offer-Keeps self i =
    Keeps-bind _ _ (Keeps-clock self) (λ now. Keeps-bind _ _ (Keeps-node self) (λ n. Keeps-pure _))

module _ (remote : Remote) (keeps : RemoteKeeps remote) (self : ℕ) where
  refresh_to-Keeps : (i ignore : ℕ) → Keeps (Topology.refresh_to remote self i ignore)
  unfolding Topology.refresh_to
  refresh_to-Keeps i ignore = Keeps-if (i == ignore) _ _ (Keeps-pure tt) (
      Keeps-bind _ _ (offer-Keeps self i)
        (λ news. Keeps-bind _ _ (conn_refresh-Keeps remote keeps self i news) (λ _. Keeps-pure tt)))

  refresh_from-Keeps :
      (count i ignore : ℕ) → Keeps (Topology.refresh_from remote self count i ignore)
  unfolding Topology.refresh_from
  refresh_from-Keeps zero i ignore = Keeps-pure tt
  refresh_from-Keeps (suc count) i ignore =
      Keeps-bind _ _ (refresh_to-Keeps i ignore) (λ _. refresh_from-Keeps count (suc i) ignore)

  refresh_connections-Keeps : (ignore : ℕ) → Keeps (Topology.refresh_connections remote self ignore)
  unfolding Topology.refresh_connections
  refresh_connections-Keeps ignore =
      Keeps-bind _ _ (Keeps-node self) (λ n. refresh_from-Keeps _ 1 ignore)

  refresh-Keeps : (news : Link) (sender : ℕ) → Keeps (Topology.refresh remote self news sender)
  unfolding Topology.refresh
  refresh-Keeps news sender = Keeps-bind _ _ (Keeps-node self) (λ n.
      Keeps-branch (sender == 0 || leb (length n.connections) sender) _ _ (λ _. Keeps-pure false)
        (λ in_range. Keeps-link self sender _ (λ c _.
          Keeps-bind _ _ (Keeps-put_link self sender _ (λ z. absurd (ground arith)))
            (λ _. Keeps-bind _ _ (refresh_connections-Keeps sender) (λ _. Keeps-pure true)))))

  insert_fetched-Keeps :
      (es : List Entry) (i : ℕ) → Keeps (Topology.insert_fetched remote self es i)
  unfolding Topology.insert_fetched
  insert_fetched-Keeps es i =
      Keeps-if (is_nil es) _ _ (Keeps-pure tt)
        (Keeps-bind _ _ (insert_all-Keeps remote keeps self es i) (λ _. Keeps-pure tt))

  send_missing-Keeps :
      (es : List Entry) (i : ℕ) → i ≢ 0 → Keeps (Topology.send_missing remote self es i)
  unfolding Topology.send_missing
  send_missing-Keeps es i h =
      Keeps-if (is_nil es) _ _ (Keeps-pure tt)
        (Keeps-bind _ _ (conn_insert_all-Keeps remote keeps self i es h) (λ _. Keeps-pure tt))

  exchange-Keeps : (port : ℕ) → port ≢ 0 → Keeps (Topology.exchange remote self port)
  unfolding Topology.exchange
  exchange-Keeps port h = Keeps-link self port _ (λ c _.
      Keeps-bind _ _ (query-Keeps remote keeps self c.version port) (λ mine.
        Keeps-bind _ _ (Keeps-clock self) (λ now.
          Keeps-bind _ _ (conn_query-Keeps remote keeps self port now) (λ theirs.
            Keeps-bind _ _ (insert_fetched-Keeps theirs port)
              (λ _. send_missing-Keeps mine port h)))))

  connect_first-Keeps : (conn : Link) → Keeps (Topology.connect_first remote self conn)
  unfolding Topology.connect_first
  connect_first-Keeps conn = Keeps-if (not (is_connected conn)) _ _ (Keeps-pure _) (
      Keeps-read self _ (λ n f. Keeps-bind _ _ (Keeps-push_link self conn) (λ _.
        Keeps-bind _ _ (offer-Keeps self _) (λ news.
          Keeps-bind _ _
            (conn_connect-Keeps remote keeps self _ news (length-ne-zero n.connections f))
            (λ _.
              Keeps-bind _ _ (exchange-Keeps _ (length-ne-zero n.connections f))
                (λ _. Keeps-bind _ _ (refresh_connections-Keeps _) (λ _. Keeps-pure _)))))))

  connect_back-Keeps : (conn : Link) → Keeps (Topology.connect_back remote self conn)
  unfolding Topology.connect_back
  connect_back-Keeps conn = Keeps-bind _ _ (Keeps-node self) (λ n.
      Keeps-bind _ _ (Keeps-clock self) (λ version. Keeps-bind _ _ (Keeps-push_link self _) (λ _.
        Keeps-bind _ _ (refresh_connections-Keeps _)
          (λ _. Keeps-bind _ _ (Keeps-node self) (λ n'. Keeps-pure _)))))

  connect-Keeps : (conn : Link) → Keeps (Topology.connect remote self conn)
  unfolding Topology.connect
  connect-Keeps conn =
      Keeps-if (conn.source == 0) _ _ (connect_first-Keeps conn) (connect_back-Keeps conn)

  pub disconnect-Keeps : (source : ℕ) → Keeps (Topology.disconnect remote self source)
  unfolding Topology.disconnect
  disconnect-Keeps source = Keeps-bind _ _ (Keeps-node self) (λ n.
      Keeps-if (leb (length n.connections) source) _ _ (Keeps-pure _) (
        Keeps-link self source _ (λ c _.
          Keeps-if (is_connected c) _ _
            (Keeps-bind _ _ (conn_disconnect-Keeps remote keeps self source)
              (λ _. Keeps-bind _ _ (refresh_connections-Keeps source) (λ _. Keeps-pure source)))
            (Keeps-pure _))))

  follow-Keeps : (d : Data) (route : Route) → Keeps (Relay.follow remote self d route)
  unfolding Relay.follow
  follow-Keeps d here =
      Keeps-bind _ _ (Keeps-clock self) (λ now. insert-Keeps remote keeps self _ 0)
  follow-Keeps d (via port distance) = conn_relay-Keeps remote keeps self port d
  follow-Keeps d unknown = Keeps-pure _

  hub_relay-Keeps : (d : Data) (sender : ℕ) → Keeps (Relay.hub_relay remote self d sender)
  unfolding Relay.hub_relay
  hub_relay-Keeps d sender = Keeps-bind _ _ (Keeps-node self) (λ n. follow-Keeps d _)

  relay-Keeps : (d : Data) (sender : ℕ) → Keeps (Relay.relay remote self d sender)
  unfolding Relay.relay
  relay-Keeps d sender = Keeps-bind _ _ (Keeps-node self) (λ n. hub_relay-Keeps (own_id n d) sender)

through-Keeps : (remote : Remote) → RemoteKeeps remote → RemoteKeeps (through remote)
through-Keeps remote keeps = record {
  insert = insert-Keeps remote keeps;
  insert_all = insert_all-Keeps remote keeps;
  query = query-Keeps remote keeps;
  refresh = refresh-Keeps remote keeps;
  connect = connect-Keeps remote keeps;
  relay = relay-Keeps remote keeps;
}

-- However deep the calls go.
pub network-Keeps : (fuel : ℕ) → RemoteKeeps (network fuel)
unfolding network timed_out
network-Keeps zero = record {
  insert = λ b e source w g. tt;
  insert_all = λ b es source w g. tt;
  query = λ b from sender w g. tt;
  refresh = λ b news sender w g. tt;
  connect = λ b conn w g. tt;
  relay = λ b d sender w g. tt;
}
network-Keeps (suc fuel) = through-Keeps (network fuel) (network-Keeps fuel)
