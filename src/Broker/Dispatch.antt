-- ===== src/Broker/Dispatch.antt =====
-- Brokers that call one another: the operations of a network, with a bound on the depth of the calls
-- that one operation makes, and the rest of `BrokerBase` (cashmere/src/brokerbase.cpp).
use cashmere.Base.{ℕ, zero, suc, Bool, [], none, some}
use cashmere.Base.Int.{ℤ, pos}
use cashmere.OrderedMap.{lookup}
use cashmere.Clock.{Clock, tick, valid}
use cashmere.Clock.Lexicographic.{clock_order}
use cashmere.Entry.{Data, empty_data, data_valid}
use cashmere.Broker.{Node, hub, cache, M, ◌>>=◌, pure, timed_out, node, Remote, clock}
use cashmere.Broker.Insert.{insert, insert_all}
use cashmere.Broker.Query.{query}
use cashmere.Broker.Topology.{refresh, connect}
use cashmere.Broker.Relay.{relay}

abbrev pub no_calls : Remote
no_calls = record {
  insert = λ b e source. timed_out;
  insert_all = λ b entries source. timed_out;
  query = λ b from sender. timed_out;
  refresh = λ b news sender. timed_out;
  connect = λ b conn. timed_out;
  relay = λ b d sender. timed_out;
}

-- The operations of every broker, whose calls of others go through `remote`.
abbrev pub through : Remote → Remote
through remote = record {
  insert = insert remote;
  insert_all = insert_all remote;
  query = query remote;
  refresh = refresh remote;
  connect = connect remote;
  relay = relay remote;
}

unfoldable pub network : ℕ → Remote
network zero = no_calls
network (suc fuel) = through (network fuel)

-- The virtual `entry(Clock)`: Journal::entry, and BrokerBase::entry, which knows none.
unfoldable pub entry : Node → Clock → Data
entry n time = elim n.kind [
  | hub ↦ empty_data
  | cache ↦ elim (lookup time n.entries) [ none ↦ empty_data | some d ↦ d ]
]

-- BrokerBase::contains
unfoldable pub contains_entry : Node → Clock → Bool
contains_entry n time = data_valid (entry n time)

module _ (fuel : ℕ) (self : ℕ) where
  -- BrokerBase::append(const Data&)
  unfoldable pub append_data : Data → M Bool
  append_data d = do
    now ← clock self
    answer ← (network fuel).insert self (record { clock = tick now d.id; entry = d }) 0
    pure (valid answer)

  -- BrokerBase::append(Amount)
  unfoldable pub append : ℤ → M Bool
  unfolding append_data
  append value = do n ← node self; append_data (record { id = n.id; value = value; alters = [] })

  -- BrokerBase::replace
  unfoldable pub replace : ℤ → Clock → M Bool
  unfolding append_data
  replace value time = do
    n ← node self
    append_data (record { id = n.id; value = value; alters = time })

  -- BrokerBase::erase
  unfoldable pub erase : Clock → M Bool
  unfolding append_data
  erase time = do n ← node self; append_data (record { id = n.id; value = pos 0; alters = time })
