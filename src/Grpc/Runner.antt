-- ===== src/Grpc/Runner.antt =====
-- What a host offers to others: the calls of `GrpcRunner` in grpc/runner/src/grpcrunner.cpp. They go
-- to the broker `self`, whose operations are `broker`. The store of the broker, which finds or makes
-- the broker of a url, or gives the null pointer, is a parameter.
use cashmere.Base.{ℕ, List, Option, none, some, map, ◌==◌, if◌then◌else◌}
use cashmere.Clock.{valid}
use cashmere.Broker.{Link, empty_link, M, ◌>>=◌, ◌>>◌, pure, node, Remote, clock}
use cashmere.Broker.Provides.{sources}
use cashmere.Grpc.{ProtoMap, new_entry}
use cashmere.Grpc.Convert.{
  clock_from, data_from, entry_from, infos_from, set_clock, set_entry, set_infos, set_sources,
}
use cashmere.Grpc.Service.{
  ConnectionRequest, ConnectionResponse, QueryRequest, QueryResponse, InsertRequest, InsertResponse,
  RefreshRequest, RelayInsertRequest, SourcesRequest, SourcesResponse, ClockResponse, Service,
}

module _ (P : ProtoMap) (broker : Remote) (get_or_create : List ℕ → M (Option ℕ)) (self : ℕ) where
  -- The two branches of GrpcRunner::Connect.
  unfoldable pub connect_port_zero : Link → M (Option (ConnectionResponse P))
  connect_port_zero peer = do
    conn ← broker.connect self peer
    pure (some (record { source = conn.source; clock = P.empty; sources = P.empty }))

  unfoldable pub connect_port : Link → M (Option (ConnectionResponse P))
  connect_port peer = do
    out ← broker.connect self peer
    pure (
        some (record {
          source = out.source;
          clock = set_clock P out.version P.empty;
          sources = set_infos P out.sources P.empty;
        }))

  -- GrpcRunner::Connect
  unfoldable pub run_connect : ConnectionRequest P → M (Option (ConnectionResponse P))
  unfolding connect_port_zero connect_port
  run_connect request = do
    b ← get_or_create request.url
    if request.source == 0
        then connect_port_zero (record empty_link { broker = b })
        else connect_port (record {
          source = request.source;
          version = clock_from P request.clock;
          sources = infos_from P request.sources;
          broker = b;
        })

  -- GrpcRunner::Query
  unfoldable pub run_query : QueryRequest P → M (Option (QueryResponse P))
  run_query request = do
    entries ← broker.query self (clock_from P request.clock) request.sender
    pure (some (record { entries = map (λ e. set_entry P e (new_entry P)) entries }))

  abbrev reply_clock : M (Option (InsertResponse P))
  reply_clock = do now ← clock self; pure (some (record { clock = set_clock P now P.empty }))

  -- GrpcRunner::Insert
  unfoldable pub run_insert : InsertRequest P → M (Option (InsertResponse P))
  run_insert request = do
    answer ← broker.insert self (entry_from P request.entry) request.sender
    if valid answer then reply_clock else pure none

  -- GrpcRunner::Refresh
  unfoldable pub run_refresh : RefreshRequest P → M (Option (Unit {0}))
  run_refresh request = do
    broker.refresh self
        (record empty_link {
          source = request.source;
          version = clock_from P request.clock;
          sources = infos_from P request.sources;
        })
        request.sender
    pure (some tt)

  -- GrpcRunner::Relay
  unfoldable pub run_relay : RelayInsertRequest P → M (Option (InsertResponse P))
  run_relay request = do
    answer ← broker.relay self (data_from P request.entry) request.sender
    pure (some (record { clock = set_clock P answer P.empty }))

  -- GrpcRunner::Sources
  unfoldable pub run_sources : SourcesRequest P → M (Option (SourcesResponse P))
  run_sources request = do
    n ← node self
    pure (some (record { sources = set_sources P (sources n request.sender) P.empty }))

  -- GrpcRunner::GetClock
  unfoldable pub run_clock : Unit {0} → M (Option (ClockResponse P))
  run_clock request = do now ← clock self; pure (some (record { clock = set_clock P now P.empty }))

  -- The service that a runner registers.
  abbrev pub runner : Service P
  runner = record {
    connect = run_connect;
    query = run_query;
    insert = run_insert;
    refresh = run_refresh;
    relay = run_relay;
    get_clock = run_clock;
    sources = run_sources;
  }
