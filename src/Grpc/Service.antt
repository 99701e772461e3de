-- ===== src/Grpc/Service.antt =====
-- The service `Broker` of grpc/proto/proto/cashmere.proto: its requests and responses, and its calls.
use cashmere.Base.{ℕ, List, Option}
use cashmere.Broker.{M}
use cashmere.Grpc.{ProtoMap, InfoMessage, InfoMapMessage, DataMessage, EntryMessage}

module _ (P : ProtoMap) where
  -- `broker.url` stands for the message `broker`, whose `type` nobody sets or reads.
  pub record ConnectionRequest : Type 0 where
    pub url : List ℕ
    pub source : ℕ
    pub clock : P.Map ℕ
    pub sources : P.Map (InfoMessage P)

  pub record ConnectionResponse : Type 0 where
    pub source : ℕ
    pub clock : P.Map ℕ
    pub sources : P.Map (InfoMessage P)

  pub record QueryRequest : Type 0 where
    pub sender : ℕ
    pub clock : P.Map ℕ

  pub record QueryResponse : Type 0 where
    pub entries : List (EntryMessage P)

  pub record InsertRequest : Type 0 where
    pub sender : ℕ
    pub entry : EntryMessage P

  pub record InsertResponse : Type 0 where
    pub clock : P.Map ℕ

  pub record RefreshRequest : Type 0 where
    pub sender : ℕ
    pub source : ℕ
    pub clock : P.Map ℕ
    pub sources : P.Map (InfoMessage P)

  pub record RelayInsertRequest : Type 0 where
    pub sender : ℕ
    pub entry : DataMessage P

  pub record SourcesRequest : Type 0 where
    pub sender : ℕ

  pub record SourcesResponse : Type 0 where
    pub sources : P.Map (InfoMapMessage P)

  pub record ClockResponse : Type 0 where
    pub clock : P.Map ℕ

  -- The calls. `none` is every status but OK.
  pub record Service : Type 0 where
    pub connect : ConnectionRequest → M (Option ConnectionResponse)
    pub query : QueryRequest → M (Option QueryResponse)
    pub insert : InsertRequest → M (Option InsertResponse)
    pub refresh : RefreshRequest → M (Option (Unit {0}))
    pub relay : RelayInsertRequest → M (Option InsertResponse)
    pub get_clock : Unit {0} → M (Option ClockResponse)
    pub sources : SourcesRequest → M (Option SourcesResponse)
