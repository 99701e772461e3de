-- ===== src/Grpc/Convert.antt =====
-- The conversions between messages and the types of the brokers: grpc/utils/src/grpcutils.cpp.
pub mod RoundTrip
use cashmere.Base.{ℕ, ◌-◌, ◌^◌, ◌%◌, Option, ltb, if◌then◌else◌}
use cashmere.Base.Int.{ℤ, pos, negsuc}
use cashmere.Clock.{Clock}
use cashmere.Entry.{Data, Entry}
use cashmere.Broker.{ConnectionInfo, IdConnectionInfoMap, SourcesMap}
use cashmere.Grpc.{
  ProtoMap, InfoMessage, InfoMapMessage, DataMessage, EntryMessage, new_info, new_info_map, get_or,
}
use cashmere.Grpc.Maps.{take, fill}

-- The `int16_t` that an `int32` becomes.
unfoldable pub i16_of : ℤ → ℤ
i16_of (pos n) =
    let low = n % 2 ^ 16 in if ltb low (2 ^ 15) then pos low else negsuc (2 ^ 16 - low - 1)
i16_of (negsuc n) =
    let low = n % 2 ^ 16 in if ltb low (2 ^ 15) then negsuc low else pos (2 ^ 16 - low - 1)

module _ (P : ProtoMap) where
  -- ClockFrom
  unfoldable pub clock_from : P.Map ℕ → Clock
  unfolding take
  clock_from version = take P (λ count. count) version

  -- DataFrom
  unfoldable pub data_from : DataMessage P → Data
  unfolding clock_from
  data_from m = record { id = m.id; value = m.value; alters = clock_from m.alters }

  -- EntryFrom
  unfoldable pub entry_from : EntryMessage P → Entry
  unfolding data_from clock_from
  entry_from m = record { clock = clock_from m.clock; entry = data_from m.entry }

  unfoldable pub info_from : InfoMessage P → ConnectionInfo
  unfolding clock_from i16_of
  info_from m = record { distance = i16_of m.distance; clock = clock_from m.clock }

  -- IdConnectionInfoMapFrom
  unfoldable pub infos_from : P.Map (InfoMessage P) → IdConnectionInfoMap
  unfolding take info_from
  infos_from sources = take P info_from sources

  -- SourcesFrom
  unfoldable pub sources_from : P.Map (InfoMapMessage P) → SourcesMap
  unfolding take infos_from
  sources_from sources = take P (λ m. infos_from m.info) sources

  -- SetClock
  unfoldable pub set_clock : Clock → P.Map ℕ → P.Map ℕ
  unfolding fill
  set_clock c version = fill P (λ count old. count) c version

  -- SetData
  unfoldable pub set_data : Data → DataMessage P → DataMessage P
  unfolding set_clock
  set_data d m = record { id = d.id; value = d.value; alters = set_clock d.alters m.alters }

  -- SetEntry
  unfoldable pub set_entry : Entry → EntryMessage P → EntryMessage P
  unfolding set_clock set_data
  set_entry e m = record { clock = set_clock e.clock m.clock; entry = set_data e.entry m.entry }

  -- SetConnectionInfo
  unfoldable pub set_info : ConnectionInfo → InfoMessage P → InfoMessage P
  unfolding set_clock
  set_info i m = record { distance = i.distance; clock = set_clock i.clock m.clock }

  -- SetIdConnectionInfoMap
  unfoldable pub set_infos : IdConnectionInfoMap → P.Map (InfoMessage P) → P.Map (InfoMessage P)
  unfolding fill set_info
  set_infos infos sources =
      fill P (λ info old. set_info info (get_or (new_info P) old)) infos sources

  abbrev set_info_map : IdConnectionInfoMap → InfoMapMessage P → InfoMapMessage P
  set_info_map infos m = record { info = set_infos infos m.info }

  -- SetSources
  unfoldable pub set_sources : SourcesMap → P.Map (InfoMapMessage P) → P.Map (InfoMapMessage P)
  unfolding fill set_infos
  set_sources sources proto =
      fill P (λ infos old. set_info_map infos (get_or (new_info_map P) old)) sources proto
