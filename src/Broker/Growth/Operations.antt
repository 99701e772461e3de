-- ===== src/Broker/Growth/Operations.antt =====
-- Every operation of a broker keeps `Keeps`, if the operations of the others do.
use cashmere.Base.{
  ℕ, zero, suc, ◌≡◌, ◌≢◌, refl, false, List, [], ◌∷◌, Option, none, some, arith, ◌==◌,
}
use cashmere.Clock.{Clock, valid}
use cashmere.Entry.{Data, Entry}
use cashmere.Broker.{Link, empty_link, Node, Kind, hub, cache, Remote}
use cashmere.Broker.Connection
use cashmere.Broker.Connection.{
  conn_insert, conn_insert_all, conn_refresh, conn_query, conn_relay, conn_connect, conn_disconnect,
}
use cashmere.Broker.Insert
use cashmere.Broker.Insert.{
  advance, mark, save, forward_to, forward, hub_insert, journal_insert, insert_all,
}
use cashmere.Broker.Query
use cashmere.Broker.Growth.{Keeps, Keeps-bind}
use cashmere.Broker.Growth.Rules.{
  Keeps-pure, Keeps-at, Keeps-if, Keeps-node, Keeps-link, Keeps-put_link, Keeps-push_link,
  Keeps-clock,
}
use cashmere.Broker.Growth.Writes.{Keeps-advance, Keeps-mark, Keeps-save}

pub record RemoteKeeps (remote : Remote) : Type 0 where
  pub insert : (b : ℕ) (e : Entry) (source : ℕ) → Keeps (remote.insert b e source)
  pub insert_all : (b : ℕ) (es : List Entry) (source : ℕ) → Keeps (remote.insert_all b es source)
  pub query : (b : ℕ) (from : Clock) (sender : ℕ) → Keeps (remote.query b from sender)
  pub refresh : (b : ℕ) (news : Link) (sender : ℕ) → Keeps (remote.refresh b news sender)
  pub connect : (b : ℕ) (conn : Link) → Keeps (remote.connect b conn)
  pub relay : (b : ℕ) (d : Data) (sender : ℕ) → Keeps (remote.relay b d sender)

ruleset keeping = (
  Keeps-pure, Keeps-at, Keeps-if, Keeps-node, Keeps-clock, Keeps-advance, Keeps-mark, Keeps-save,
  Keeps-push_link, Keeps-bind,
)

-- A link that leads somewhere stands behind the first one.
pub behind_front : (i b : ℕ) (o : Option ℕ) → (i ≡ 0 → o ≡ none) → o ≡ some b → i ≢ 0
behind_front i b o h e z = absurd (ground (arith, h z))

module _ (remote : Remote) (keeps : RemoteKeeps remote) (self : ℕ) where
  pub accepted-Keeps :
      (i : ℕ) (e : Entry) (answer : Clock)
      → i ≢ 0
      → Keeps (Connection.accepted remote self i e answer)
  unfolding Connection.accepted
  accepted-Keeps i e answer h =
      Keeps-link self i _
        (λ c _. Keeps-bind _ _ (Keeps-put_link self i _ h) (λ _. Keeps-pure answer))

  insert_at_Keeps :
      (i : ℕ) (e : Entry) (c : Link) (o : Option ℕ)
      → (i ≡ 0 → o ≡ none)
      → Keeps (Connection.insert_at remote self i e c o)
  unfolding Connection.insert_at
  insert_at_Keeps i e c none h = Keeps-pure []
  insert_at_Keeps i e c (some b) h = Keeps-bind _ _ (keeps.insert b e c.source) (λ answer.
      Keeps-if (valid answer) _ _ (accepted-Keeps i e answer (behind_front i b (some b) h refl))
        (Keeps-pure []))

  pub conn_insert-Keeps : (i : ℕ) (e : Entry) → Keeps (conn_insert remote self i e)
  unfolding conn_insert
  conn_insert-Keeps i e = Keeps-link self i _ (λ c h. insert_at_Keeps i e c c.broker h)

  pub conn_insert_all-Keeps :
      (i : ℕ) (es : List Entry) → i ≢ 0 → Keeps (conn_insert_all remote self i es)
  unfolding conn_insert_all
  conn_insert_all-Keeps i es h = Keeps-link self i _ (λ c _.
      Keeps-bind _ _ (Keeps-at c.broker) (λ b.
        Keeps-bind _ _ (keeps.insert_all b es c.source) (λ answer.
          Keeps-if (valid answer) _ _
            (Keeps-link self i _
              (λ c' _. Keeps-bind _ _ (Keeps-put_link self i _ h) (λ _. Keeps-pure answer)))
            (Keeps-pure answer))))

  refresh_at_Keeps :
      (news c : Link) (o : Option ℕ) → Keeps (Connection.refresh_at remote self news c o)
  unfolding Connection.refresh_at
  refresh_at_Keeps news c none = Keeps-pure false
  refresh_at_Keeps news c (some b) = keeps.refresh b news c.source

  pub conn_refresh-Keeps : (i : ℕ) (news : Link) → Keeps (conn_refresh remote self i news)
  unfolding conn_refresh
  conn_refresh-Keeps i news = Keeps-link self i _ (λ c _. refresh_at_Keeps news c c.broker)

  pub conn_query-Keeps : (i : ℕ) (from : Clock) → Keeps (conn_query remote self i from)
  unfolding conn_query
  conn_query-Keeps i from =
      Keeps-link self i _
        (λ c _. Keeps-bind _ _ (Keeps-at c.broker) (λ b. keeps.query b from c.source))

  pub conn_relay-Keeps : (i : ℕ) (d : Data) → Keeps (conn_relay remote self i d)
  unfolding conn_relay
  conn_relay-Keeps i d =
      Keeps-link self i _
        (λ c _. Keeps-bind _ _ (Keeps-at c.broker) (λ b. keeps.relay b d c.source))

  pub conn_connect-Keeps : (i : ℕ) (news : Link) → i ≢ 0 → Keeps (conn_connect remote self i news)
  unfolding conn_connect
  conn_connect-Keeps i news h = Keeps-link self i _ (λ c _. Keeps-bind _ _ (Keeps-at c.broker) (λ b.
      Keeps-bind _ _ (keeps.connect b news)
        (λ other. Keeps-link self i _ (λ c' _. Keeps-put_link self i _ h))))

  reset_at_Keeps :
      (i : ℕ) (c : Link) (o : Option ℕ)
      → (i ≡ 0 → o ≡ none)
      → Keeps (Connection.reset_at remote self i c o)
  unfolding Connection.reset_at
  reset_at_Keeps i c none h = Keeps-pure tt
  reset_at_Keeps i c (some b) h = Keeps-bind _ _ (keeps.refresh b empty_link c.source) (λ _.
      Keeps-link self i _ (λ c' _. Keeps-put_link self i _ (behind_front i b (some b) h refl)))

  pub conn_disconnect-Keeps : (i : ℕ) → Keeps (conn_disconnect remote self i)
  unfolding conn_disconnect
  conn_disconnect-Keeps i = Keeps-link self i _ (λ c h. reset_at_Keeps i c c.broker h)

  pub forward_to-Keeps : (i source : ℕ) (e : Entry) → Keeps (forward_to remote self i source e)
  unfolding forward_to
  forward_to-Keeps i source e =
      Keeps-if (i == source) _ _ (Keeps-pure tt)
        (Keeps-bind _ _ (conn_insert-Keeps i e) (λ _. Keeps-pure tt))

  pub forward-Keeps :
      (count i source : ℕ) (e : Entry) → Keeps (forward remote self count i source e)
  unfolding forward
  forward-Keeps zero i source e = Keeps-pure tt
  forward-Keeps (suc count) i source e =
      Keeps-bind _ _ (forward_to-Keeps i source e) (λ _. forward-Keeps count (suc i) source e)

  pub hub_insert-Keeps : (e : Entry) (source : ℕ) → Keeps (hub_insert remote self e source)
  unfolding hub_insert
  hub_insert-Keeps e source = search (keeping, forward-Keeps) depth 12

  journal_insert-Keeps : (e : Entry) (source : ℕ) → Keeps (journal_insert remote self e source)
  unfolding journal_insert
  journal_insert-Keeps e source = search (keeping, hub_insert-Keeps) depth 12

  insert_by_Keeps :
      (kind : Kind) (e : Entry) (source : ℕ) → Keeps (Insert.insert_by remote self kind e source)
  insert_by_Keeps hub e source = hub_insert-Keeps e source
  insert_by_Keeps cache e source = journal_insert-Keeps e source

  pub insert-Keeps : (e : Entry) (source : ℕ) → Keeps (Insert.insert remote self e source)
  unfolding Insert.insert
  insert-Keeps e source = Keeps-bind _ _ (Keeps-node self) (λ n. insert_by_Keeps n.kind e source)

  pub insert_all-Keeps : (es : List Entry) (source : ℕ) → Keeps (insert_all remote self es source)
  unfolding insert_all
  insert_all-Keeps [] source = Keeps-clock self
  insert_all-Keeps (e ∷ es) source =
      Keeps-bind _ _ (insert-Keeps e source) (λ _. insert_all-Keeps es source)

  ask_Keeps : (from : Clock) (port : Option ℕ) → Keeps (Query.ask remote self from port)
  unfolding Query.ask
  ask_Keeps from none = Keeps-pure []
  ask_Keeps from (some i) = conn_query-Keeps i from

  query_by_Keeps :
      (n : Node) (kind : Kind) (from : Clock) (sender : ℕ)
      → Keeps (Query.query_by remote self n kind from sender)
  unfolding Query.query_by
  query_by_Keeps n hub from sender = ask_Keeps from _
  query_by_Keeps n cache from sender = Keeps-pure _

  pub query-Keeps : (from : Clock) (sender : ℕ) → Keeps (Query.query remote self from sender)
  unfolding Query.query
  query-Keeps from sender =
      Keeps-bind _ _ (Keeps-node self) (λ n. query_by_Keeps n n.kind from sender)
