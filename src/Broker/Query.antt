-- ===== src/Broker/Query.antt =====
-- `query`: Broker::query (cashmere/src/hub.cpp) asks the first other connection that provides
-- something; JournalBase::query (cashmere/src/journalbase.cpp) answers from the journal's entries.
use cashmere.Base.{ℕ, suc, ◌||◌, List, [], ◌∷◌, Option, none, some, ◌==◌, if◌then◌else◌}
use cashmere.OrderedMap.{OrderedMap}
use cashmere.Clock.{Clock, smaller_than, concurrent}
use cashmere.Entry.{Data, Entry}
use cashmere.Broker.{Link, Node, Kind, hub, cache, M, ◌>>=◌, pure, node, Remote}
use cashmere.Broker.Provides.{is_connected, no_infos}
use cashmere.Broker.Connection.{conn_query}

-- The first connection from `i` that is not the sender, provides something and is valid.
unfoldable pub first_provider : ℕ → ℕ → List Link → Option ℕ
first_provider sender i [] = none
first_provider sender i (c ∷ rest) =
    let later = first_provider sender (suc i) rest in
    if i == sender || no_infos c.sources then later else if is_connected c then some i else later

abbrev pub after_front : List Link → List Link
after_front [] = []
after_front (c ∷ rest) = rest

-- Journal::entries
unfoldable pub entries_of : OrderedMap Clock Data → List Entry
entries_of [] = []
entries_of ((time, d) ∷ rest) = record { clock = time; entry = d } ∷ entries_of rest

-- The loop of `JournalBase::query`.
unfoldable pub select : Clock → List Entry → List Entry
select from [] = []
select from (e ∷ rest) =
    let later = select from rest in
    if concurrent e.clock from || smaller_than from e.clock then e ∷ later else later

-- JournalBase::query
unfoldable pub journal_query : Node → Clock → List Entry
journal_query n from = select from (entries_of n.entries)

module _ (remote : Remote) (self : ℕ) where
  unfoldable pub ask : Clock → Option ℕ → M (List Entry)
  ask from none = pure []
  ask from (some i) = conn_query remote self i from

  unfoldable pub query_by : Node → Kind → Clock → ℕ → M (List Entry)
  unfolding ask
  query_by n hub from sender = ask from (first_provider sender 1 (after_front n.connections))
  query_by n cache from sender = pure (journal_query n from)

  -- The virtual `query`.
  unfoldable pub query : Clock → ℕ → M (List Entry)
  unfolding query_by
  query from sender = do n ← node self; query_by n n.kind from sender
