-- ===== src/Grpc/Examples.antt =====
-- A `google::protobuf::Map` that is kept in order, and the theorems on the bridge at concrete inputs.
use cashmere.Base.{ℕ, ◌≡◌, refl, false, [], ◌∷◌, none, some, arith, codes}
use cashmere.Base.Int.{pos, negsuc, int_eq}
use cashmere.OrderedMap.{OrderedMap, lookup, assign, IsSorted, nat_order}
use cashmere.OrderedMap.Laws.{lookup-assign_self, lookup-assign_ne, assign-IsSorted}
use cashmere.Grpc.{ProtoMap}
use cashmere.Clock.{
  Clock, merge_into, merge, tick, is_next, valid, clock_eq, smaller_than, concurrent,
}
use cashmere.Clock.Lexicographic.{clock_lt, clock_order}
use cashmere.Entry.{Data}
use cashmere.Broker.{
  SourcesMap, Node, Link, cache, World, done, ◌>>=◌, pure, at, node, put_node, modify, link,
  put_link, clock, set_clock as assign_clock, Remote,
}
use cashmere.Broker.Insert.{
  set_info_clock, save, advance, mark, forward_to, forward, hub_insert, journal_insert, insert,
}
use cashmere.Broker.Query.{entries_of, select, journal_query, query}
use cashmere.Broker.Provides.{collect, sources}
use cashmere.Broker.Relay.{relay, hub_relay, follow, find_route, route_from, route_infos, consider}
use cashmere.Broker.Dispatch.{network, no_calls}
use cashmere.Broker.Lone.{lone}
use cashmere.Grpc.Maps.{Among-lookup, lookup-Among}
use cashmere.Grpc.Stub.{stub_insert, stub_query, stub_connect, stub_sources}
use cashmere.Grpc.Runner.{runner}
use cashmere.Grpc.Bridge.{
  stub_query-runner, stub_insert-runner, stub_sources-runner, stub_connect-runner,
}

abbrev ordered : ProtoMap
ordered = record {
  Map = λ V. (m : OrderedMap ℕ V) × IsSorted m;
  empty = ([], tt);
  put = λ k v m. (assign k v m.0, assign-IsSorted k v m.0 m.1);
  find = λ k m. lookup k m.0;
  items = λ m. m.0;
  find_empty = λ k. unfold lookup in refl;
  find-put_self = λ k v m. lookup-assign_self k v m.0;
  find-put_ne = λ j k v m h. lookup-assign_ne j k v m.0 h;
  items_found = λ k v m h. Among-lookup k v m.0 m.1 h;
  found_items = λ k v m h. lookup-Among k v m.0 h;
}

abbrev ticked : ℕ → Clock
ticked count = (0xaa, count) ∷ []

abbrev spent : Data
spent = record { id = 0xaa; value = negsuc 6; alters = [] }

-- A journal that has recorded one event.
abbrev host : World
host = lone 0xaa 0 (ticked 1) [] ((ticked 1, spent) ∷ []) ∷ []

abbrev host_two : World
host_two =
    lone 0xaa 0 (ticked 2) ((0xaa, record { distance = pos 0; clock = ticked 2 }) ∷ [])
      ((ticked 1, spent) ∷ (ticked 2, spent) ∷ [])
    ∷ []

host_answers :
    (network 2).query 0 [] 0 host ≡ done (record { clock = ticked 1; entry = spent } ∷ []) host
unfolding network query journal_query select entries_of node at ◌>>=◌ pure concurrent smaller_than
    merge merge_into clock_eq
host_answers = refl

stub_query-runner_example :
    stub_query ordered (runner ordered (network 2) (λ url. pure (some 0)) 0) [] 0 host
    ≡ done (record { clock = ticked 1; entry = spent } ∷ []) host
stub_query-runner_example =
    stub_query-runner ordered (network 2) (λ url. pure (some 0)) 0 [] 0 host host
      (record { clock = ticked 1; entry = spent } ∷ []) tt (tt, tt, tt) host_answers

-- An event that is not the next is refused.
host_refuses :
    (network 2).insert 0 (record { clock = ticked 5; entry = spent }) 0 host
    ≡ done ((0, 0) ∷ []) host
unfolding network insert journal_insert clock link node at ◌>>=◌ pure is_next lookup
host_refuses = refl

host_clock : clock 0 host ≡ done (ticked 1) host
unfolding clock link node at ◌>>=◌ pure
host_clock = refl

stub_insert-runner_example :
    stub_insert ordered
      (runner ordered (network 2) (λ url. pure (some 0)) 0)
      (record { clock = ticked 5; entry = spent })
      0
      host
    ≡ done [] host
unfolding valid lookup
stub_insert-runner_example =
    stub_insert-runner ordered (network 2) (λ url. pure (some 0)) 0
      (record { clock = ticked 5; entry = spent }) 0 host host ((0, 0) ∷ []) (ticked 1) tt tt tt
      host_refuses host_clock

host_relays : (network 2).relay 0 spent 0 host ≡ done (ticked 2) host_two
unfolding network relay hub_relay follow find_route route_from route_infos consider sources collect
    assign insert journal_insert hub_insert advance mark set_info_clock save forward forward_to
    modify put_node put_link assign_clock clock link node at ◌>>=◌ pure is_next valid tick merge
    merge_into lookup clock_lt int_eq
host_relays = refl

-- A journal with a neighbour that knows the device 0xbb.
abbrev journal : Node
journal = record {
  kind = cache;
  id = 0xaa;
  connections =
      record { source = 0; version = []; sources = []; broker = none }
      ∷ record {
        source = 4;
        version = [];
        sources = (0xbb, record { distance = pos 1; clock = [] }) ∷ [];
        broker = some 1;
      }
      ∷ [];
  entries = [];
}

abbrev linked : World
linked = journal ∷ []

abbrev linked_sources : SourcesMap
linked_sources =
    (0, (0xaa, record { distance = pos 0; clock = [] }) ∷ [])
    ∷ (1, (0xbb, record { distance = pos 1; clock = [] }) ∷ [])
    ∷ []

stub_sources-runner_example :
    stub_sources ordered (runner ordered (network 2) (λ url. pure (some 0)) 0) 0 linked
    ≡ done linked_sources linked
unfolding sources collect assign node at
stub_sources-runner_example =
    stub_sources-runner ordered (network 2) (λ url. pure (some 0)) 0 0 linked journal refl
      (refl, tt)
      (
        (tt, (((omega arith, omega arith), tt), tt)),
        ((tt, (((omega arith, omega arith), tt), tt)), tt),
      )

-- A broker that takes every connection as its third.
abbrev greeter : Remote
greeter = record no_calls {
  connect = λ b conn. pure (record conn { source = 3; version = ticked 1 });
  refresh = λ b conn sender. pure false;
}

abbrev call : Link
call = record { source = 2; version = ticked 1; sources = []; broker = some 0 }

stub_connect-runner_example :
    stub_connect ordered
      (runner ordered greeter (λ url. pure (some 7)) 0)
      5
      (codes "grpc://0.0.0.0:1")
      call
      host
    ≡ done (record { source = 3; version = ticked 1; sources = []; broker = some 5 }) host
stub_connect-runner_example =
    stub_connect-runner ordered greeter (λ url. pure (some 7)) 0 5 (some 7)
      (codes "grpc://0.0.0.0:1") call
      (record { source = 3; version = ticked 1; sources = []; broker = some 7 }) host host host tt
      (tt, tt) tt (unfold pure in refl) (unfold pure in refl)
