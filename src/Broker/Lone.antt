-- ===== src/Broker/Lone.antt =====
-- A journal that is connected to nobody: appending is recording.
use cashmere.Base.{
  ℕ, zero, suc, ◌+◌, ◌<◌, ◌≡◌, ◌≢◌, refl, sym, subst, ap, true, false, [], ◌∷◌, none, some, arith,
  get_elem?, set, Bool-cases, inl, inr,
}
use cashmere.OrderedMap.{OrderedMap, lookup, assign, contains, nat_order, IsSorted}
use cashmere.OrderedMap.Laws.{lookup-assign_ne}
use cashmere.Clock.{Clock, clock_eq, time_mod, at_or_zero, merge, tick, valid, is_next}
use cashmere.Clock.Lexicographic.{clock_order}
use cashmere.Clock.Causality.{Precedes, Precedes-refl, Precedes-trans, clock_eq_iff, merge-eq_iff}
use cashmere.Clock.Advance.{
  tick-IsSorted, is_next-tick, valid-tick, Precedes-tick, tick-not-Precedes,
}
use cashmere.Entry.{Data, Entry}
use cashmere.Broker.{
  Node, cache, World, done, Remote, ◌>>=◌, pure, at, node, put_node, modify, link, put_link,
  IdConnectionInfoMap, clock, set_clock,
}
use cashmere.Broker.Insert.{
  set_info_clock, save, advance, mark, forward_to, forward, hub_insert, journal_insert, insert,
}
use cashmere.Broker.Dispatch.{network, append_data}

get_elem?-set :
    (w : World) (self : ℕ) (n n' : Node)
    → get_elem? w self ≡ some n
    → get_elem? (set w self n') self ≡ some n'
get_elem?-set [] self n n' h = cc
get_elem?-set (x ∷ w) zero n n' h = refl
get_elem?-set (x ∷ w) (suc self) n n' h = get_elem?-set w self n n' h

set-get_elem? : (w : World) (self : ℕ) (n : Node) → get_elem? w self ≡ some n → set w self n ≡ w
set-get_elem? [] self n h = refl
set-get_elem? (x ∷ w) zero n h = cc
set-get_elem? (x ∷ w) (suc self) n h = ap (λ t. x ∷ t) (set-get_elem? w self n h)

set-set : (w : World) (self : ℕ) (a b : Node) → set (set w self a) self b ≡ set w self b
set-set [] self a b = refl
set-set (x ∷ w) zero a b = refl
set-set (x ∷ w) (suc self) a b = ap (λ t. x ∷ t) (set-set w self a b)

-- A journal with the id `i` and no connection but its own.
abbrev pub lone : ℕ → ℕ → Clock → IdConnectionInfoMap → OrderedMap Clock Data → Node
lone i port version infos entries = record {
  kind = cache;
  id = i;
  connections = record { source = port; version = version; sources = infos; broker = none } ∷ [];
  entries = entries;
}

-- The world in which the journal is `lone` with this state.
unfoldable pub at_self :
    World → ℕ → ℕ → ℕ → Clock → IdConnectionInfoMap → OrderedMap Clock Data → World
at_self w self i port v infos es = set w self (lone i port v infos es)

module _ (w : World) (self i port : ℕ) (before : Node) (here : get_elem? w self ≡ some before) where
  node_self :
      (v : Clock) (infos : IdConnectionInfoMap) (es : OrderedMap Clock Data)
      → get_elem? (at_self w self i port v infos es) self ≡ some (lone i port v infos es)
  unfolding at_self
  node_self v infos es = get_elem?-set w self before _ here

  set_self :
      (v v' : Clock) (infos infos' : IdConnectionInfoMap) (es es' : OrderedMap Clock Data)
      → set (at_self w self i port v infos es) self (lone i port v' infos' es')
        ≡ at_self w self i port v' infos' es'
  unfolding at_self
  set_self v v' infos infos' es es' = set-set w self _ _

  module _ (v : Clock) (infos : IdConnectionInfoMap) (es : OrderedMap Clock Data) where
    clock_self :
        clock self (at_self w self i port v infos es) ≡ done v (at_self w self i port v infos es)
    unfolding clock link node at pure ◌>>=◌
    clock_self = rw (node_self v infos es)

    save_self :
        (e : Entry)
        → contains e.clock es ≡ false
        → save self e (at_self w self i port v infos es)
          ≡ done true (at_self w self i port v infos (assign e.clock e.entry es))
    unfolding save node put_node at pure ◌>>=◌
    save_self e fresh =
        rw (node_self v infos es, fresh) (ap (done true) (set_self v v infos infos es _))

    advance_self :
        (time : Clock)
        → advance self time (at_self w self i port v infos es)
          ≡ done tt (at_self w self i port (merge v time) infos es)
    unfolding advance set_clock put_link modify put_node clock link node at pure ◌>>=◌
    advance_self time = rw (node_self v infos es) (
        rw (node_self v infos es)
          (rw (node_self v infos es) (ap (done tt) (set_self v _ infos infos es es))))

    mark_self :
        (id : ℕ)
        → mark self 0 id (at_self w self i port v infos es)
          ≡ done tt (at_self w self i port v (set_info_clock id v infos) es)
    unfolding mark put_link modify put_node clock link node at pure ◌>>=◌
    mark_self id = rw (node_self v infos es) (
        rw (node_self v infos es) (
          rw (node_self v infos es)
            (ap (done tt) (set_self v v infos (set_info_clock id v infos) es es))))

  module _ (remote : Remote) (v : Clock) (infos : IdConnectionInfoMap)
      (es : OrderedMap Clock Data) where
    hub_insert_self :
        (e : Entry)
        → hub_insert remote self e 0 (at_self w self i port v infos es)
          ≡ done (merge v e.clock) (
              at_self w self i port
                (merge v e.clock)
                (set_info_clock e.entry.id (merge v e.clock) infos)
                es)
    unfolding hub_insert forward forward_to node at pure ◌>>=◌
    hub_insert_self e =
        let seen = merge v e.clock in
        rw (node_self v infos es) (
          rw (advance_self v infos es e.clock) (
            rw (mark_self seen infos es e.entry.id)
              (clock_self seen (set_info_clock e.entry.id seen infos) es)))

  module _ (remote : Remote) (v : Clock) (infos : IdConnectionInfoMap)
      (es : OrderedMap Clock Data) where
    -- Of the next event of a device, a journal that is connected to nobody records the data.
    pub insert_self :
        (e : Entry)
        → is_next e.clock v e.entry.id ≡ true
        → contains e.clock es ≡ false
        → insert remote self e 0 (at_self w self i port v infos es)
          ≡ done (merge v e.clock) (
              at_self w self i port
                (merge v e.clock)
                (set_info_clock e.entry.id (merge v e.clock) infos)
                (assign e.clock e.entry es))
    unfolding insert journal_insert node at pure ◌>>=◌
    insert_self e next fresh = rw (node_self v infos es) (
        rw (clock_self v infos es) (
          rw next (
            rw (save_self v infos es e fresh)
              (hub_insert_self remote v infos (assign e.clock e.entry es) e))))

-- What holds of the clock and the entries of a journal: each recorded event has been seen.
pub record Consistent (v : Clock) (es : OrderedMap Clock Data) : Type 0 where
  pub sorted : IsSorted v
  pub is_valid : valid v ≡ true
  pub seen : (time : Clock) → contains time es ≡ true → Precedes time v

contains_of :
    (a b : Clock) (es es' : OrderedMap Clock Data)
    → lookup a es' ≡ lookup b es
    → contains a es' ≡ true
    → contains b es ≡ true
contains_of a b es es' p there = ground (arith, p, there)

module _ (v : Clock) (es : OrderedMap Clock Data) (d : Data) (good : Consistent v es)
    (room : at_or_zero v d.id + 1 < time_mod) where
  tick_fresh : contains (tick v d.id) es ≡ false
  tick_fresh = elim (Bool-cases (contains (tick v d.id) es)) [
    | inl there ↦ absurd (tick-not-Precedes v d.id room (good.seen (tick v d.id) there))
    | inr fresh ↦ fresh
  ]

  merge-tick : merge v (tick v d.id) ≡ tick v d.id
  merge-tick =
      (merge-eq_iff v (tick v d.id) good.sorted (tick-IsSorted v d.id good.sorted)).1
        (Precedes-tick v d.id room)

  still-Consistent : d.id ≢ 0 → Consistent (tick v d.id) (assign (tick v d.id) d es)
  still-Consistent real = record {
    sorted = tick-IsSorted v d.id good.sorted;
    is_valid = ground (arith, valid-tick v d.id, good.is_valid);
    seen = λ time there. elim (Bool-cases (clock_eq time (tick v d.id))) [
      | inl e ↦
          subst (λ t. Precedes t (tick v d.id)) (sym ((clock_eq_iff time (tick v d.id)).0 e))
            (Precedes-refl (tick v d.id))
      | inr e ↦
          let apart : time ≢ tick v d.id =
            λ p. ground (arith, (clock_eq_iff time (tick v d.id)).1 p) in
          Precedes-trans time v (tick v d.id)
            (good.seen time
              (contains_of time time es _ ((lookup-assign_ne time (tick v d.id) d es apart)) there))
            (Precedes-tick v d.id room)
    ];
  }

-- On a journal that is connected to nobody and whose recorded events have all been seen, append
-- succeeds for every data with an id other than 0 and a count that has room: the clock ticks for the
-- id, the data is recorded under the new clock, which recorded nothing before, every other entry
-- stays, and the journal is again one whose recorded events have all been seen.
pub append-records :
    (fuel : ℕ) (w : World) (self i port : ℕ) (before : Node) (here : get_elem? w self ≡ some before)
    (v : Clock) (infos : IdConnectionInfoMap) (es : OrderedMap Clock Data) (d : Data)
    → Consistent v es
    → at_or_zero v d.id + 1 < time_mod
    → d.id ≢ 0
    → (append_data (suc fuel) self d (at_self w self i port v infos es)
        ≡ done true (
            at_self w self i port
              (tick v d.id)
              (set_info_clock d.id (tick v d.id) infos)
              (assign (tick v d.id) d es)))
      × (lookup (tick v d.id) es ≡ none)
      × Consistent (tick v d.id) (assign (tick v d.id) d es)
unfolding append_data network pure ◌>>=◌
append-records fuel w self i port before here v infos es d good room real =
    let t = tick v d.id in
    (
      rw (clock_self w self i port before here v infos es) (
          rw
            (insert_self w self i port before here (network fuel) v infos es
              (record { clock = t; entry = d }) (is_next-tick v d.id) (tick_fresh v es d good room))
            (rw (merge-tick v es d good room, (still-Consistent v es d good room real).is_valid)
              refl)),
      ground (arith, tick_fresh v es d good room),
      still-Consistent v es d good room real,
    )
