-- ===== src/Grpc/Stub.antt =====
-- A broker on another host: `BrokerGrpcStub` of grpc/plugins/src/grpc.cpp. Its calls go through the
-- service that gRPC gives it.
use cashmere.Base.{ℕ, Bool, true, false, List, [], Option, none, some, map}
use cashmere.Clock.{Clock, invalid_clock}
use cashmere.Entry.{Data, Entry}
use cashmere.Broker.{IdClockMap, SourcesMap, Link, empty_link, stub, M, ◌>>=◌, pure}
use cashmere.Grpc.{ProtoMap, new_data, new_entry}
use cashmere.Grpc.Convert.{
  clock_from, entry_from, sources_from, set_clock, set_data, set_entry, set_infos,
}
use cashmere.Grpc.Service.{
  ConnectionResponse, QueryResponse, InsertResponse, SourcesResponse, ClockResponse, Service,
}

module _ (P : ProtoMap) (service : Service P) where
  abbrev stub_clock_of : Option (ClockResponse P) → Clock
  stub_clock_of none = invalid_clock
  stub_clock_of (some response) = clock_from P response.clock

  -- BrokerGrpcStub::clock
  unfoldable pub stub_clock : M Clock
  stub_clock = do reply ← service.get_clock tt; pure (stub_clock_of reply)

  -- BrokerGrpcStub::versions
  unfoldable pub stub_versions : IdClockMap
  stub_versions = []

  abbrev stub_sources_of : Option (SourcesResponse P) → SourcesMap
  stub_sources_of none = []
  stub_sources_of (some response) = sources_from P response.sources

  -- BrokerGrpcStub::sources
  unfoldable pub stub_sources : ℕ → M SourcesMap
  stub_sources sender = do
    reply ← service.sources (record { sender = sender })
    pure (stub_sources_of reply)

  abbrev inserted : Option (InsertResponse P) → Clock
  inserted none = []
  inserted (some response) = clock_from P response.clock

  -- BrokerGrpcStub::insert
  unfoldable pub stub_insert : Entry → ℕ → M Clock
  stub_insert e sender = do
    reply ← service.insert (record { sender = sender; entry = set_entry P e (new_entry P) })
    pure (inserted reply)

  abbrev answered : Option (QueryResponse P) → List Entry
  answered none = []
  answered (some response) = map (entry_from P) response.entries

  -- BrokerGrpcStub::query
  unfoldable pub stub_query : Clock → ℕ → M (List Entry)
  stub_query from sender = do
    reply ← service.query (record { sender = sender; clock = set_clock P from P.empty })
    pure (answered reply)

  abbrev connected : ℕ → Option (ConnectionResponse P) → Link
  connected self none = empty_link
  connected self (some response) = record (stub self) {
    source = response.source;
    version = clock_from P response.clock;
  }

  -- BrokerGrpcStub::connect, of the stub `self`; `url` is what `conn.url()` gives.
  unfoldable pub stub_connect : ℕ → List ℕ → Link → M Link
  stub_connect self url conn = do
    reply ← service.connect (record {
      url = url;
      source = conn.source;
      clock = set_clock P conn.version P.empty;
      sources = set_infos P conn.sources P.empty;
    })
    pure (connected self reply)

  abbrev refreshed : Option (Unit {0}) → Bool
  refreshed none = false
  refreshed (some response) = true

  -- BrokerGrpcStub::refresh
  unfoldable pub stub_refresh : Link → ℕ → M Bool
  stub_refresh conn sender = do
    reply ← service.refresh (record {
      sender = sender;
      source = conn.source;
      clock = set_clock P conn.version P.empty;
      sources = set_infos P conn.sources P.empty;
    })
    pure (refreshed reply)

  abbrev relayed : Option (InsertResponse P) → Clock
  relayed none = invalid_clock
  relayed (some response) = clock_from P response.clock

  -- BrokerGrpcStub::relay
  unfoldable pub stub_relay : Data → ℕ → M Clock
  stub_relay d sender = do
    reply ← service.relay (record { sender = sender; entry = set_data P d (new_data P) })
    pure (relayed reply)
