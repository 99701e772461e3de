-- ===== src/Broker/Shape/Examples.antt =====
-- Insertion on small networks: a tree of three brokers, and a round of three plain brokers.
use cashmere.Base.{
  ℕ, Bool, zero, suc, ◌≡◌, ◌≢◌, refl, subst, List, [], ◌∷◌, Option, none, some, false, ◌⊎◌,
  get_elem?, arith,
}
use cashmere.Base.Int.{pos}
use cashmere.OrderedMap.{IsSorted, nat_order, lookup, assign, contains}
use cashmere.Clock.{Clock, is_next, tick, merge, merge_into}
use cashmere.Clock.Lexicographic.{clock_order}
use cashmere.Entry.{Data, Entry}
use cashmere.Broker.{Link, empty_link, Node, Kind, hub, cache, World, done}
use cashmere.Broker.Dispatch.{network, append_data}
use cashmere.Broker.Growth.{Good}
use cashmere.Broker.Shape.{Wire, Shape, shape, port_of}
use cashmere.Broker.Shape.Ends.{Within, insert_ends}
use cashmere.Broker.Shape.Endless.{IsRound, insert_endless}
use cashmere.Broker.Shape.Waiting.{Records}
use cashmere.Broker.Shape.Delivery.{Road, along, arrived, insert_delivers}
use cashmere.Broker.Shape.Append.{event, append_delivers}
use cashmere.Broker.Shape.Agreement.{append_agrees}
use cashmere.Broker.Additions.{insert_adds}
use cashmere.Ledger.{balance_of}
use cashmere.Broker.Query.{entries_of}
use cashmere.Broker.Insert.{
  insert, journal_insert, hub_insert, save, advance, mark, forward, forward_to, set_info_clock,
}
use cashmere.Broker.{clock, set_clock, node, link, at, pure, put_node, put_link, modify, ◌>>=◌}
use cashmere.Broker.Shape.Reach.{Way, here, onward, Saw, insert_reaches}

abbrev to : ℕ → ℕ → Link
to b s = record { source = s; version = []; sources = []; broker = some b }

abbrev broker : Kind → ℕ → List Link → Node
broker kind id links = record {
  kind = kind;
  id = id;
  connections = empty_link ∷ links;
  entries = [];
}

-- A journal, a plain broker and a broker of either class, in a row.
abbrev row : Kind → World
row k =
    broker cache 0xaa (to 1 1 ∷ [])
    ∷ broker hub 0xbb (to 0 1 ∷ to 2 1 ∷ [])
    ∷ broker k 0xcc (to 1 2 ∷ [])
    ∷ []

abbrev news : Entry
news = record { clock = (0xaa, 1) ∷ []; entry = record { id = 0xaa; value = pos 10; alters = [] } }

-- The one way on from a broker.
only :
    (t : Shape) (n a x b s : ℕ)
    → ◌≡◌ {A = Option Wire} (some (some a, x)) (some (some b, s))
    → Within t n a x
    → Within t n b s
only t n a x b s e h =
    let p : a ≡ b = cc in
    let q : x ≡ s = cc in subst (λ y. Within t n y s) p (subst (λ y. Within t n a y) q h)

row_end : (k : Kind) → Within (shape (row k)) 1 2 1
unfolding Within port_of
row_end k = (tt, λ i b s apart leads. go i b s apart leads)
  where
    go : (i b s : ℕ) → i ≢ 1 → port_of (shape (row k)) 2 i ≡ some (some b, s) → ⊥
    go zero b s apart leads = cc
    go (suc zero) b s apart leads = apart refl
    go (suc (suc i)) b s apart leads = cc

row_middle : (k : Kind) → Within (shape (row k)) 2 1 1
unfolding Within port_of
row_middle k = (tt, λ i b s apart leads. go i b s apart leads)
  where
    go :
        (i b s : ℕ)
        → i ≢ 1
        → port_of (shape (row k)) 1 i ≡ some (some b, s)
        → Within (shape (row k)) 1 b s
    go zero b s apart leads = absurd (cc)
    go (suc zero) b s apart leads = absurd (apart refl)
    go (suc (suc zero)) b s apart leads = only (shape (row k)) 1 2 1 b s leads (row_end k)
    go (suc (suc (suc i))) b s apart leads = absurd (cc)

row-Within : (k : Kind) → Within (shape (row k)) 3 0 0
unfolding Within port_of
row-Within k = (tt, λ i b s apart leads. go i b s apart leads)
  where
    go :
        (i b s : ℕ)
        → i ≢ 0
        → port_of (shape (row k)) 0 i ≡ some (some b, s)
        → Within (shape (row k)) 2 b s
    go zero b s apart leads = absurd (apart refl)
    go (suc zero) b s apart leads = only (shape (row k)) 2 1 1 b s leads (row_middle k)
    go (suc (suc i)) b s apart leads = absurd (cc)

insert_ends_example :
    (c : Clock) × (w' : World) × ((network 3).insert 0 news 0 (row cache) ≡ done c w')
    × (shape w' ≡ shape (row cache))
insert_ends_example = insert_ends 3 3 0 0 news (row cache) (omega arith) (row-Within cache)

row-Good : (k : Kind) → Good (row k)
row-Good k zero = refl
row-Good k (suc zero) = refl
row-Good k (suc (suc zero)) = refl
row-Good k (suc (suc (suc i))) = tt

news-IsSorted : IsSorted news.clock
news-IsSorted = tt

-- From the plain broker in the middle to the last one.
row-Way : Way (shape (row hub)) 1 1 2
unfolding port_of
row-Way =
    onward 1 1 2 2 1 2 (_, refl, (_, refl)) (λ p. absurd (omega arith)) refl
      (here 2 1 (_, refl, (_, refl)))

-- And to a journal there.
row-Road : Road (shape (row cache)) 2 1 1
unfolding port_of
row-Road = along 1 1 2 2 1 (_, refl, (_, refl)) (λ p. absurd (omega arith)) refl (arrived 1)

insert_reaches_example :
    (c : Clock) × (w' : World) × ((network 2).insert 1 news 1 (row hub) ≡ done c w')
    × Saw news.clock 2 w'
insert_reaches_example =
    insert_reaches 2 2 1 1 2 news (row hub) (omega arith) (row-Good hub) news-IsSorted
      (row_middle hub) row-Way

insert_delivers_example :
    (c : Clock) × (w' : World) × ((network 2).insert 1 news 1 (row cache) ≡ done c w')
    × Records news 2 w'
unfolding is_next lookup
insert_delivers_example =
    insert_delivers 2 2 1 1 2 news (row cache) (omega arith) (row-Good cache) (row_middle cache)
      row-Road (refl, (empty_link, refl, refl), refl)

append_delivers_example :
    (ok : Bool) × (w' : World) × (append_data 3 0 news.entry (row cache) ≡ done ok w')
    × Records (event news.entry empty_link) 0 w'
    × Records (event news.entry empty_link) 2 w'
unfolding is_next lookup tick assign port_of
append_delivers_example =
    append_delivers 3 3 0 1 1 1 2 news.entry (row cache) (broker cache 0xaa (to 1 1 ∷ []))
      empty_link (omega arith) (row-Good cache) (row-Within cache) refl refl refl refl
      (λ p. absurd (omega arith)) refl row-Road (λ p. absurd (omega arith))
      (refl, (empty_link, refl, refl), refl)

-- Three plain brokers, each of which is connected to the other two.
abbrev round : World
round =
    broker hub 0xaa (to 1 2 ∷ to 2 1 ∷ [])
    ∷ broker hub 0xbb (to 2 2 ∷ to 0 1 ∷ [])
    ∷ broker hub 0xcc (to 0 2 ∷ to 1 1 ∷ [])
    ∷ []

round-Good : Good round
round-Good zero = refl
round-Good (suc zero) = refl
round-Good (suc (suc zero)) = refl
round-Good (suc (suc (suc i))) = tt

-- Where an entry that the first broker records comes by.
data Turn : ℕ → ℕ → Type 0 where
  first : Turn 0 0
  again : Turn 0 2
  second : Turn 1 2
  third : Turn 2 2

round-IsRound : IsRound (shape round) Turn
unfolding port_of
round-IsRound _ _ first =
    ((_, refl, (_, refl)), (1, 1, 2, (λ p. absurd (omega arith)), refl, second))
round-IsRound _ _ again =
    ((_, refl, (_, refl)), (1, 1, 2, (λ p. absurd (omega arith)), refl, second))
round-IsRound _ _ second =
    ((_, refl, (_, refl)), (1, 2, 2, (λ p. absurd (omega arith)), refl, third))
round-IsRound _ _ third =
    ((_, refl, (_, refl)), (1, 0, 2, (λ p. absurd (omega arith)), refl, again))

insert_endless_example : (network 1000).insert 0 news 0 round ≢ done ((0xaa, 1) ∷ []) round
insert_endless_example =
    insert_endless Turn 1000 0 0 news round round ((0xaa, 1) ∷ []) round-Good round-IsRound first

append_agrees_example :
    (ok : Bool) × (w' : World) × (x : Node) × (y : Node) × (append_data 3 0 news.entry (row cache)
      ≡ done ok w')
    × (get_elem? w' 0 ≡ some x)
    × (get_elem? w' 2 ≡ some y)
    × (x.entries ≡ ((0xaa, 1) ∷ [], news.entry) ∷ [])
    × (y.entries ≡ x.entries)
    × (balance_of (entries_of y.entries) ≡ balance_of (entries_of x.entries))
unfolding is_next lookup tick assign port_of
append_agrees_example =
    append_agrees 3 3 0 1 1 1 2 news.entry (row cache) (broker cache 0xaa (to 1 1 ∷ []))
      (broker cache 0xcc (to 1 2 ∷ [])) empty_link (omega arith) (row-Good cache) (row-Within cache)
      refl refl refl refl refl refl (λ p. absurd (omega arith)) refl row-Road
      (λ p. absurd (omega arith)) (refl, (empty_link, refl, refl), refl)

abbrev alone : World
alone = broker cache 0xaa [] ∷ []

abbrev recorded : World
recorded =
    record {
      kind = cache;
      id = 0xaa;
      connections =
          record {
            source = 0;
            version = (0xaa, 1) ∷ [];
            sources = (0xaa, record { distance = pos 0; clock = (0xaa, 1) ∷ [] }) ∷ [];
            broker = none;
          }
          ∷ [];
      entries = ((0xaa, 1) ∷ [], news.entry) ∷ [];
    }
    ∷ []

inserted : (network 1).insert 0 news 0 alone ≡ done ((0xaa, 1) ∷ []) recorded
unfolding network insert journal_insert hub_insert save advance mark forward forward_to
    set_info_clock clock set_clock node link at pure put_node put_link modify ◌>>=◌ is_next lookup
    assign merge merge_into
inserted = refl

insert_adds_example :
    (n' : Node) × (get_elem? recorded 0 ≡ some n')
    × ((n'.entries ≡ [])
        ⊎ ((contains {V = Data} news.clock [] ≡ false)
            × (n'.entries ≡ ((0xaa, 1) ∷ [], news.entry) ∷ [])))
unfolding assign
insert_adds_example =
    insert_adds 1 0 0 0 news alone recorded ((0xaa, 1) ∷ []) (broker cache 0xaa []) inserted refl
