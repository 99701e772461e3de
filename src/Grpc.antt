-- ===== src/Grpc.antt =====
-- The messages of grpc/proto/proto/cashmere.proto. The class `google::protobuf::Map` is a parameter; a
-- repeated field is a list, and a field that is not set has the value of an empty one.
pub mod Maps
pub mod Convert
pub mod Service
pub mod Stub
pub mod Runner
pub mod Bridge
pub mod Examples
use cashmere.Base.{ℕ, ◌≡◌, ◌≢◌, List, [], Option, none, some, Among}
use cashmere.Base.Int.{ℤ, pos}

-- `google::protobuf::Map` with integer keys. The order in which an iteration visits the pairs is not
-- specified.
pub record ProtoMap : Type 1 where
  pub Map : Type 0 → Type 0
  pub empty : {V : Type 0} → Map V
  -- m[k] = v
  pub put : {V : Type 0} → ℕ → V → Map V → Map V
  -- m.find(k)
  pub find : {V : Type 0} → ℕ → Map V → Option V
  -- for (const auto& [k, v] : m)
  pub items : {V : Type 0} → Map V → List (ℕ × V)
  pub find_empty : {V : Type 0} (k : ℕ) → find k (empty {V = V}) ≡ none
  pub find-put_self : {V : Type 0} (k : ℕ) (v : V) (m : Map V) → find k (put k v m) ≡ some v
  pub find-put_ne :
      {V : Type 0} (j k : ℕ) (v : V) (m : Map V) → j ≢ k → find j (put k v m) ≡ find j m
  pub items_found :
      {V : Type 0} (k : ℕ) (v : V) (m : Map V) → Among (k, v) (items m) → find k m ≡ some v
  pub found_items :
      {V : Type 0} (k : ℕ) (v : V) (m : Map V) → find k m ≡ some v → Among (k, v) (items m)

module _ (P : ProtoMap) where
  pub record InfoMessage : Type 0 where
    pub distance : ℤ
    pub clock : P.Map ℕ

  pub record InfoMapMessage : Type 0 where
    pub info : P.Map InfoMessage

  pub record DataMessage : Type 0 where
    pub id : ℕ
    pub value : ℤ
    pub alters : P.Map ℕ

  pub record EntryMessage : Type 0 where
    pub clock : P.Map ℕ
    pub entry : DataMessage

  abbrev pub new_info : InfoMessage
  new_info = record { distance = pos 0; clock = P.empty }

  abbrev pub new_info_map : InfoMapMessage
  new_info_map = record { info = P.empty }

  abbrev pub new_data : DataMessage
  new_data = record { id = 0; value = pos 0; alters = P.empty }

  abbrev pub new_entry : EntryMessage
  new_entry = record { clock = P.empty; entry = new_data }

-- m[k], which is a new message if the key is not there.
abbrev pub get_or : {V : Type 0} → V → Option V → V
get_or new none = new
get_or new (some v) = v
