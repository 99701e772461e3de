-- ===== src/Broker.antt =====
-- The state of a network of brokers, and what the operations on it are made of. A broker object is a
-- `Node` (cashmere/include/cashmere/hub.h, cashmere/include/cashmere/journalbase.h and
-- cashmere/plugins/include/cache.h), and a pointer to it is its index in the `World`. A `Connection`
-- (cashmere/include/cashmere/connection.h) holds a weak pointer: `none` is the pointer that was never
-- set or was reset. Brokers outlive the operations, so a pointer that is set can be locked.
pub mod Connection
pub mod Provides
pub mod Insert
pub mod Query
pub mod Topology
pub mod Relay
pub mod Dispatch
pub mod Growth
pub mod Lone
pub mod Refusal
pub mod Answers
pub mod Nearest
pub mod Routes
pub mod Advertised
pub mod Versions
pub mod Offers
pub mod Origin
pub mod Printing
pub mod Shape
pub mod Additions
pub mod Examples
use cashmere.Base.{
  ℕ, suc, ◌+◌, ◌-◌, ◌^◌, ◌≡◌, Bool, true, false, List, [], ◌∷◌, ◌++◌, Option, none, some, get_elem?,
  set, length, ltb, leb, if◌then◌else◌,
}
use cashmere.Base.Int.{ℤ, pos, negsuc, ◌+ℤ◌, int_eq}
use cashmere.OrderedMap.{OrderedMap}
use cashmere.Clock.{Clock}
use cashmere.Entry.{Data, Entry}

-- cashmere/crdt/include/cashmere/connectioninfo.h; `distance` is an `int16_t`.
pub record ConnectionInfo : Type 0 where
  pub distance : ℤ
  pub clock : Clock

abbrev pub IdConnectionInfoMap : Type 0
IdConnectionInfoMap = OrderedMap ℕ ConnectionInfo

abbrev pub SourcesMap : Type 0
SourcesMap = OrderedMap ℕ IdConnectionInfoMap

abbrev pub IdClockMap : Type 0
IdClockMap = OrderedMap ℕ Clock

pub record Link : Type 0 where
  pub source : ℕ
  pub version : Clock
  pub sources : IdConnectionInfoMap
  pub broker : Option ℕ

-- Connection()
abbrev pub empty_link : Link
empty_link = record { source = 0; version = []; sources = []; broker = none }

-- Connection(broker)
abbrev pub link_to : ℕ → Link
link_to b = record { source = 0; version = []; sources = []; broker = some b }

-- The classes `Broker` and `Journal`, with the plugin names of their `schema()`.
pub data Kind : Type 0 where
  hub cache : Kind

pub record Node : Type 0 where
  pub kind : Kind
  pub id : ℕ
  pub connections : List Link
  -- `_entries` of a journal
  pub entries : OrderedMap Clock Data

-- The constructors of `Broker` and `Journal`.
abbrev pub new_node : Kind → ℕ → Node
new_node kind id = record { kind = kind; id = id; connections = empty_link ∷ []; entries = [] }

abbrev pub World : Type 0
World = List Node

-- `fault` is a null pointer or an index out of range; `timeout` says that the fuel, a bound on the
-- depth of the calls from broker to broker, ran out.
pub data Outcome {ℓ} (A : Type ℓ) : Type ℓ where
  done : A → World → Outcome A
  fault timeout : Outcome A

abbrev pub M {ℓ} : Type ℓ → Type ℓ
M A = World → Outcome A

module _ {ℓ κ} {A : Type ℓ} {B : Type κ} where
  abbrev pub continue : Outcome A → (A → M B) → Outcome B
  continue (done a w) f = f a w
  continue fault f = fault
  continue timeout f = timeout

  infixl 10 ◌>>=◌
  unfoldable pub ◌>>=◌ : M A → (A → M B) → M B
  ◌>>=◌ m f w = continue (m w) f

infixl 10 ◌>>◌
abbrev pub ◌>>◌ {ℓ κ} : {A : Type ℓ} {B : Type κ} → M A → M B → M B
m >> n = m >>= λ _. n

module _ {ℓ} {A : Type ℓ} where
  unfoldable pub pure : A → M A
  pure a w = done a w

  -- v.at(i), p->f
  unfoldable pub at : Option A → M A
  at none w = fault
  at (some a) w = done a w

  unfoldable pub gets : (World → A) → M A
  gets f w = done (f w) w

  unfoldable pub timed_out : M A
  timed_out w = timeout

unfoldable pub node : ℕ → M Node
node self w = at (get_elem? w self) w

-- Assignments to the members of a broker.
unfoldable pub put_node : ℕ → Node → M (Unit {0})
put_node self n w = done tt (set w self n)

unfoldable pub modify : ℕ → (Node → Node) → M (Unit {0})
modify self f = do n ← node self; put_node self (f n)

unfoldable pub link : ℕ → ℕ → M Link
link self i = do n ← node self; at (get_elem? n.connections i)

-- Assignments to the members of `_connections[i]`.
unfoldable pub put_link : ℕ → ℕ → Link → M (Unit {0})
put_link self i c = modify self (λ n. record n { connections = set n.connections i c })

-- _connections.push_back(conn)
unfoldable pub push_link : ℕ → Link → M (Unit {0})
push_link self c = modify self (λ n. record n { connections = n.connections ++ c ∷ [] })

-- The operations of other brokers that a broker calls through its connections. They are virtual.
pub record Remote : Type 0 where
  pub insert : ℕ → Entry → ℕ → M Clock
  pub insert_all : ℕ → List Entry → ℕ → M Clock
  pub query : ℕ → Clock → ℕ → M (List Entry)
  pub refresh : ℕ → Link → ℕ → M Bool
  pub connect : ℕ → Link → M Link
  pub relay : ℕ → Data → ℕ → M Clock

-- Broker::clock
unfoldable pub clock : ℕ → M Clock
clock self = do c ← link self 0; pure c.version

-- Broker::setClock
unfoldable pub set_clock : ℕ → Clock → M (Unit {0})
set_clock self v = do c ← link self 0; put_link self 0 (record c { version = v })

-- BrokerBase::stub, of a broker that is in no store or is in the store under its own url.
abbrev pub stub : ℕ → Link
stub self = link_to self

-- (Source)-1
abbrev pub no_source : ℕ
no_source = 2 ^ 32 - 1
