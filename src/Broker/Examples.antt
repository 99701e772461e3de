-- ===== src/Broker/Examples.antt =====
-- Small networks, run, and the theorems on brokers at concrete inputs.
use cashmere.Base.{
  ℕ, zero, suc, sym, subst, ap, ◌+◌, ◌≡◌, ◌≢◌, ◌<◌, ◌↔◌, refl, arith, true, List, [], ◌∷◌, Option,
  none, some, get_elem?,
}
use cashmere.Base.Int.{pos, ◌+ℤ◌, int_eq}
use cashmere.OrderedMap.{nat_order, OrderedMap, lookup, assign, emplace}
use cashmere.Clock.{
  Clock, at_or_zero, time_mod, merge_into, merge, tick, is_next, valid, clock_eq, smaller_than,
  concurrent, invalid_clock,
}
use cashmere.Clock.Lexicographic.{clock_lt, clock_order}
use cashmere.Entry.{Data, Entry}
use cashmere.Broker.{
  Node, cache, new_node, World, Outcome, done, fault, timeout, ◌>>=◌, pure, at, node, put_node,
  modify, link, put_link, push_link, clock, set_clock,
}
use cashmere.Broker.Connection.{
  accepted, insert_at, merge_infos, refresh_at, conn_insert, conn_insert_all, conn_refresh,
  conn_query, conn_connect,
}
use cashmere.Broker.Provides.{
  merge_farther, update_provides_into, front_clock, collect, sources, farther, update_provides,
}
use cashmere.Broker.Insert.{
  set_info_clock, save, advance, mark, forward_to, forward, hub_insert, journal_insert, insert,
  insert_all,
}
use cashmere.Broker.Query.{ask, first_provider, entries_of, select, journal_query, query}
use cashmere.Broker.Topology.{
  offer, refresh_to, refresh_from, refresh_connections, refresh, insert_fetched, send_missing,
  exchange, connect_first, connect_back, connect,
}
use cashmere.Broker.Dispatch.{network, append_data}
use cashmere.Broker.Growth.{Good, NodeGrows}
use cashmere.Broker.Growth.Runs.{appends, connects, perform, run, run_grows}
use cashmere.Broker.Refusal.{refused_forever}
use cashmere.Broker.Lone.{lone, at_self, Consistent, append-records}
use cashmere.Broker.{Link, empty_link, hub}
use cashmere.Broker.Offers.{has_for, offer_tells}
use cashmere.Broker.Provides.{versions}
use cashmere.Broker.Versions.{AllBounded, LinksAreSorted, clock_of, versions_least}
use cashmere.Base.{Among}
use cashmere.Broker.Answers.{AreSorted, journal_query_complete}
use cashmere.Broker.Nearest.{Offers}
use cashmere.Broker.Routes.{Goes, relay-Goes}
use cashmere.Clock.Causality.{Precedes}
use cashmere.Base.Int.{ℤ}
use cashmere.Broker.Relay.{relay, find_route, here, via, route_from, route_infos, consider}

abbrev amount : ℕ → ℕ → Data
amount id value = record { id = id; value = pos value; alters = [] }

-- The clock of each broker, and what it has recorded.
abbrev views : World → List (Clock × OrderedMap Clock Data)
views [] = []
views (n ∷ w) = ((elim n.connections [ [] ↦ [] | c ∷ rest ↦ c.version ]), n.entries) ∷ views w

abbrev view : Outcome (Unit {0}) → Option (List (Clock × OrderedMap Clock Data))
view (done a w) = some (views w)
view fault = none
view timeout = none

abbrev pair : World
pair = new_node cache 0xaa ∷ new_node cache 0xbb ∷ []

-- A device has recorded an event of another and then one of its own.
abbrev ahead : World
ahead =
    lone 0xaa 0 ((0xaa, 1) ∷ (0xbb, 1) ∷ []) []
      (((0xaa, 1) ∷ (0xbb, 1) ∷ [], amount 0xaa 7) ∷ ((0xbb, 1) ∷ [], amount 0xbb 5) ∷ [])
    ∷ new_node cache 0xcc
    ∷ []

-- Two journals, one of which connects to the other, both end with both events.
appends_reach_both :
    view (run 8 (appends 0 (amount 0xaa 5) ∷ connects 1 0 ∷ appends 1 (amount 0xbb 7) ∷ []) pair)
    ≡ some (
        (
          (0xaa, 1) ∷ (0xbb, 1) ∷ [],
          ((0xaa, 1) ∷ [], amount 0xaa 5) ∷ ((0xaa, 1) ∷ (0xbb, 1) ∷ [], amount 0xbb 7) ∷ [],
        )
        ∷ (
          (0xaa, 1) ∷ (0xbb, 1) ∷ [],
          ((0xaa, 1) ∷ [], amount 0xaa 5) ∷ ((0xaa, 1) ∷ (0xbb, 1) ∷ [], amount 0xbb 7) ∷ [],
        )
        ∷ [])
unfolding run perform append_data network ◌>>=◌ connect connect_first node at push_link modify
    put_node offer clock link pure conn_connect connect_back refresh_connections refresh_from
    refresh_to conn_insert conn_insert_all conn_query conn_refresh accepted insert_at merge_infos
    refresh_at advance forward forward_to hub_insert insert insert_all journal_insert mark save
    set_info_clock collect farther merge_farther sources update_provides update_provides_into ask
    entries_of first_provider journal_query query select exchange insert_fetched refresh
    send_missing put_link set_clock clock_lt clock_eq concurrent is_next merge merge_into
    smaller_than tick valid assign emplace lookup int_eq ◌+ℤ◌
appends_reach_both = refl

-- The journal that connects has the clock of both events and only one of the two.
abbrev behind : World
behind =
    record {
      kind = cache;
      id = 0xaa;
      connections =
          record { source = 0; version = (0xaa, 1) ∷ (0xbb, 1) ∷ []; sources = []; broker = none }
          ∷ record {
            source = 1;
            version = [];
            sources = (0xcc, record { distance = pos 1; clock = (0xaa, 1) ∷ (0xbb, 1) ∷ [] }) ∷ [];
            broker = some 1;
          }
          ∷ [];
      entries = ((0xaa, 1) ∷ (0xbb, 1) ∷ [], amount 0xaa 7) ∷ ((0xbb, 1) ∷ [], amount 0xbb 5) ∷ [];
    }
    ∷ record {
      kind = cache;
      id = 0xcc;
      connections =
          record { source = 0; version = (0xaa, 1) ∷ (0xbb, 1) ∷ []; sources = []; broker = none }
          ∷ record {
            source = 1;
            version = (0xaa, 1) ∷ (0xbb, 1) ∷ [];
            sources = (0xaa, record { distance = pos 1; clock = (0xaa, 1) ∷ (0xbb, 1) ∷ [] }) ∷ [];
            broker = some 0;
          }
          ∷ [];
      entries = ((0xaa, 1) ∷ (0xbb, 1) ∷ [], amount 0xaa 7) ∷ [];
    }
    ∷ []

connect_loses : run 8 (connects 1 0 ∷ []) ahead ≡ done tt behind
unfolding run perform append_data network ◌>>=◌ connect connect_first node at push_link modify
    put_node offer clock link pure conn_connect connect_back refresh_connections refresh_from
    refresh_to conn_insert conn_insert_all conn_query conn_refresh accepted insert_at merge_infos
    refresh_at advance forward forward_to hub_insert insert insert_all journal_insert mark save
    set_info_clock collect farther merge_farther sources update_provides update_provides_into ask
    entries_of first_provider journal_query query select exchange insert_fetched refresh
    send_missing put_link set_clock clock_lt clock_eq concurrent is_next merge merge_into
    smaller_than tick valid assign emplace lookup int_eq ◌+ℤ◌
connect_loses = refl

ahead-Good : Good ahead
ahead-Good zero = refl
ahead-Good (suc zero) = refl
ahead-Good (suc (suc i)) = tt

behind-Good : Good behind
behind-Good zero = refl
behind-Good (suc zero) = refl
behind-Good (suc (suc i)) = tt

run_grows_example :
    (n' : Node) × (get_elem? behind 1 ≡ some n') × NodeGrows (new_node cache 0xcc) n'
run_grows_example =
    run_grows 8 (connects 1 0 ∷ []) ahead behind 1 (new_node cache 0xcc) ahead-Good connect_loses
      refl

-- The entry that was passed over.
abbrev lost : Entry
lost = record { clock = (0xbb, 1) ∷ []; entry = amount 0xbb 5 }

abbrev late_node : Node
late_node = elim (get_elem? behind 1) [ none ↦ new_node cache 0 | some n ↦ n ]

behind_still : run 8 [] behind ≡ done tt behind
unfolding run pure
behind_still = refl

count_fits :
    (n' : Node) (later : ℕ)
    → get_elem? behind 1 ≡ some n'
    → lookup lost.entry.id (front_clock n'.connections) ≡ some later
    → later < time_mod
unfolding lookup
count_fits n' later found q =
    let same : late_node ≡ n' = ap (λ o. elim o [ none ↦ late_node | some n ↦ n ]) found in
    let known : some 1 ≡ some later =
      subst (λ n. lookup lost.entry.id (front_clock n.connections) ≡ some later) (sym same) q in
    ground (arith, known)

refused_forever_example : insert (network 8) 1 lost 1 behind ≡ done invalid_clock behind
unfolding lookup
refused_forever_example =
    refused_forever (network 8) 8 [] behind behind 1 1 late_node lost 1 1 behind-Good refl refl refl
      (omega arith) refl (omega arith) behind_still count_fits

nothing_recorded : Consistent [] []
unfolding valid lookup
nothing_recorded = record {
  sorted = tt;
  is_valid = refl;
  seen = λ time there. ground (arith, there);
}

room_for_one : at_or_zero [] 0xaa + 1 < time_mod
unfolding lookup
room_for_one = ground arith

real_id : (amount 0xaa 5).id ≢ 0
real_id e = absurd (ground (arith, e))

append-records_example :
    (append_data 3 0 (amount 0xaa 5) (at_self pair 0 0xaa 0 [] [] [])
      ≡ done true (
          at_self pair 0 0xaa 0
            (tick [] 0xaa)
            (set_info_clock 0xaa (tick [] 0xaa) [])
            (assign (tick [] 0xaa) (amount 0xaa 5) [])))
    × (lookup {V = Data} (tick [] 0xaa) [] ≡ none)
    × Consistent (tick [] 0xaa) (assign (tick [] 0xaa) (amount 0xaa 5) [])
append-records_example =
    append-records 2 pair 0 0xaa 0 (new_node cache 0xaa) refl [] [] [] (amount 0xaa 5)
      nothing_recorded room_for_one real_id

late_sorted : AreSorted (entries_of late_node.entries)
unfolding entries_of
late_sorted = ((refl, tt), tt)

journal_query_complete_example :
    Among lost (journal_query late_node ((0xaa, 1) ∷ []))
    ↔ (Among lost (entries_of late_node.entries) × (¬ Precedes lost.clock ((0xaa, 1) ∷ [])))
journal_query_complete_example =
    journal_query_complete late_node ((0xaa, 1) ∷ []) lost tt late_sorted

-- The journal offers its own id at the distance 0.
routes_home : find_route late_node 0xcc 1 ≡ here
unfolding find_route route_from route_infos consider sources collect lookup assign int_eq
routes_home = refl

routes_on : find_route late_node 0xaa 0 ≡ via 1 (pos 1)
unfolding find_route route_from route_infos consider sources collect lookup assign int_eq
routes_on = refl

relay-Goes_example :
    Goes
      (network 8)
      1
      late_node
      (Offers 0xaa 0 (sources late_node 0))
      (amount 0xaa 5)
      behind
      (relay (network 8) 1 (amount 0xaa 5) 0 behind)
relay-Goes_example = relay-Goes (network 8) 1 (amount 0xaa 5) 0 behind late_node refl

-- Two ports offer one id, the first at the larger distance, and so does the port of the neighbour.
abbrev port_to : ℕ → ℤ → Link
port_to b distance = record {
  source = 1;
  version = [];
  sources = (0xaa, record { distance = distance; clock = [] }) ∷ [];
  broker = some b;
}

abbrev three_ports : List Link
three_ports = port_to 1 (pos 3) ∷ port_to 2 (pos 1) ∷ port_to 3 (pos 0) ∷ []

abbrev crossing : World
crossing =
    record { kind = hub; id = 0xdd; connections = empty_link ∷ three_ports; entries = [] } ∷ []

first_not_nearest :
    has_for hub 0xdd empty_link three_ports 3 0xaa ≡ some (record { distance = pos 4; clock = [] })
unfolding lookup farther int_eq ◌+ℤ◌
first_not_nearest = refl

offer_tells_example :
    (news : Link) × (offer 0 3 crossing ≡ done news crossing)
    × (news.source ≡ 3)
    × (news.broker ≡ some 0)
    × (news.version ≡ [])
    × (lookup 0xaa news.sources ≡ has_for hub 0xdd empty_link three_ports 3 0xaa)
offer_tells_example =
    offer_tells 0xdd empty_link three_ports [] crossing 0 3 0xaa hub refl (tt, (tt, (tt, (tt, tt))))

late_links_sorted : LinksAreSorted late_node.connections
late_links_sorted = (tt, ((((refl, tt), tt)), tt))

versions_least_example :
    Precedes (clock_of 0xaa (versions late_node)) ((0xaa, 2) ∷ (0xbb, 1) ∷ [])
    ↔ AllBounded 0xaa ((0xaa, 2) ∷ (0xbb, 1) ∷ []) late_node.connections
versions_least_example =
    versions_least late_node 0xaa ((0xaa, 2) ∷ (0xbb, 1) ∷ []) late_links_sorted
