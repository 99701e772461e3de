-- ===== src/Broker/Shape/Hub.antt =====
-- The passage of an entry through a plain broker, `Broker::insert` (cashmere/src/hub.cpp): what its parts
-- bring about, and what they leave alone.
use cashmere.Base.{
  ℕ, zero, suc, ◌+◌, ◌<◌, ◌≤◌, ◌≡◌, ◌≢◌, sym, ap, subst, ◌∙◌, inl, inr, ◌⊎◌, false, List, [],
  Option, none, some, arith, get_elem?, length, leb, ◌==◌, ==-cases,
}
use mathlib.Core.Option.{some-injective}
use cashmere.Clock.{valid}
use cashmere.Entry.{Entry}
use cashmere.Broker.{Link, Node, hub, World, Outcome, done, fault, timeout, ◌>>◌, Remote, clock}
use cashmere.Broker.Connection.{insert_at, conn_insert}
use cashmere.Broker.Insert.{advance, mark, forward_to, forward, hub_insert, insert}
use cashmere.Broker.Growth.{Keeps, Keeps-bind}
use cashmere.Broker.Growth.Rules.{Keeps-pure, Keeps-if, Keeps-clock}
use cashmere.Broker.Growth.Writes.{Keeps-advance, Keeps-mark}
use cashmere.Broker.Growth.Operations.{
  RemoteKeeps, conn_insert-Keeps, accepted-Keeps, forward_to-Keeps, forward-Keeps, behind_front,
}
use cashmere.Broker.Shape.{Shape, wire, part, port_of, IsThere, Runs, port_in_range, Wire}
use cashmere.Broker.Shape.Insertion.{Runs-advance, Runs-mark, Runs-forward_to}
use cashmere.Broker.Shape.Passage.{
  Ends, Lasts, Brings, Stays, Brings-first, Brings-then, Brings-read, Brings-link,
}

pub anything_IsThere {ℓ} : {A : Type ℓ} (t : Shape) (o : Option A) → IsThere Unit t o
anything_IsThere t none = tt
anything_IsThere t (some a) = tt

-- A hub with a port `source`.
abbrev pub IsHub : Shape → ℕ → ℕ → Type 0
IsHub t self source =
    (ws : List Wire) × (get_elem? t self ≡ some (hub, ws))
    × ((c : Wire) × (port_of t self source ≡ some c))

module _ (t : Shape) (Q P : World → Type 0) (lasts : Lasts P) where
  -- A broker of the network, with the connections of the shape.
  module _ (remote : Remote) (keeps : RemoteKeeps remote)
      (runs : (b : ℕ) (e : Entry) (s : ℕ) → Runs Unit t (remote.insert b e s)) (self source : ℕ)
      (e : Entry) where
    -- The clock, the port of the sender, and the connections.
    abbrev pub PartsStay : Type 0
    PartsStay =
        Stays t Q P lasts (advance self e.clock)
        × Stays t Q P lasts (mark self source e.entry.id)
        × ((j : ℕ) → Stays t Q P lasts (forward_to remote self j source e))

    module _ (i b s : ℕ) (apart : i ≢ source) (leads : port_of t self i ≡ some (some b, s))
        (brings : Brings t Q P lasts (remote.insert b e s))
        (stays : (j : ℕ) → Stays t Q P lasts (forward_to remote self j source e)) where
      Brings-insert_at :
          (c : Link)
          → (i ≡ 0 → c.broker ≡ none)
          → wire c ≡ (some b, s)
          → Brings t Q P lasts (insert_at remote self i e c c.broker)
      unfolding insert_at
      Brings-insert_at c front same =
          let to_b : c.broker ≡ some b = ap (λ x. x.0) same in
          let to_s : c.source ≡ s = ap (λ x. x.1) same in
          rw (to_b, to_s)
            (Brings-first t Q P lasts _ _ (keeps.insert b e s) brings (λ answer.
              Keeps-if (valid answer) _ _
                (accepted-Keeps remote keeps self i e answer (behind_front i b c.broker front to_b))
                (Keeps-pure [])))

      Brings-forward_to : Brings t Q P lasts (forward_to remote self i source e)
      unfolding forward_to conn_insert
      Brings-forward_to =
          let no : (i == source) ≡ false = ground (arith, apart) in
          rw no (
            Brings-first t Q P lasts _ _ (conn_insert-Keeps remote keeps self i e)
              (Brings-link t Q P lasts self i _
                (λ c front at_i. Brings-insert_at c front (some-injective _ _ (sym at_i ∙ leads))))
              (λ _. Keeps-pure tt))

      Brings-forward :
          (count j : ℕ)
          → j ≤ i
          → i < j + count
          → Brings t Q P lasts (forward remote self count j source e)
      unfolding forward
      Brings-forward zero j le lt = absurd (omega arith)
      Brings-forward (suc count) j le lt = elim (==-cases j i) [
        | inl p ↦
            Brings-first t Q P lasts _ _ (forward_to-Keeps remote keeps self j source e)
              (subst (λ x. Brings t Q P lasts (forward_to remote self x source e)) (sym p)
                Brings-forward_to)
              (λ _. forward-Keeps remote keeps self count (suc j) source e)
        | inr ne ↦
            Brings-then t Q P lasts _ _ (forward_to-Keeps remote keeps self j source e)
              (Runs-forward_to Unit t remote self e source (λ i b s _ _. runs b e s) j
                (anything_IsThere t (port_of t self j)))
              (stays j) (λ _. Brings-forward count (suc j) (ground (arith, ne)) (omega arith))
              (λ _. forward-Keeps remote keeps self count (suc j) source e)
      ]

    -- Past the guard, the clock moves, the port of the sender is marked, and the entry goes on.
    Brings-past_guard :
        (c : Wire) × (port_of t self source ≡ some c)
        → ((n : Node)
            → get_elem? t self ≡ some (part n)
            → Brings t Q P lasts (do
              advance self e.clock
              mark self source e.entry.id
              forward remote self (length n.connections) 0 source e
              clock self))
        → Brings t Q P lasts (hub_insert remote self e source)
    unfolding hub_insert
    Brings-past_guard (c, at_source) k = Brings-read t Q P lasts self _ (λ n here.
        let below = port_in_range Unit t self source n here c at_source in
        let open_port : leb (length n.connections) source ≡ false = ground (arith, below) in
        rw open_port (k n here))

    Brings-hub :
        IsHub t self source
        → Brings t Q P lasts (hub_insert remote self e source)
        → Brings t Q P lasts (insert remote self e source)
    unfolding insert
    Brings-hub (ws, at_self, at_source) brings =
        Brings-read t Q P lasts self _
          (λ n here. let is_hub : n.kind ≡ hub = cc in rw is_hub brings)

    onward-Keeps : (count : ℕ) → Keeps (do forward remote self count 0 source e; clock self)
    onward-Keeps count =
        Keeps-bind _ _ (forward-Keeps remote keeps self count 0 source e) (λ _. Keeps-clock self)

    rest-Keeps :
        (count : ℕ)
        → Keeps (do mark self source e.entry.id; forward remote self count 0 source e; clock self)
    rest-Keeps count = Keeps-bind _ _ (Keeps-mark self source e.entry.id) (λ _. onward-Keeps count)

    -- What an advance of the clock brings about at the hub itself.
    pub Brings-own :
        IsHub t self source
        → Brings t Q P lasts (advance self e.clock)
        → Brings t Q P lasts (insert remote self e source)
    Brings-own h brings = Brings-hub h (
        Brings-past_guard h.2 (λ n here.
          Brings-first t Q P lasts _ _ (Keeps-advance self e.clock) brings
            (λ _. rest-Keeps (length n.connections))))

    -- What the insertion at a neighbour brings about.
    pub Brings-port :
        (i b s : ℕ)
        → (c : Wire) × (port_of t self source ≡ some c)
        → i ≢ source
        → port_of t self i ≡ some (some b, s)
        → PartsStay
        → Brings t Q P lasts (remote.insert b e s)
        → Brings t Q P lasts (hub_insert remote self e source)
    Brings-port i b s entered apart leads (advance_stays, mark_stays, forward_stays) brings =
        Brings-past_guard entered (λ n here.
          let below = port_in_range Unit t self i n here (some b, s) leads in
          Brings-then t Q P lasts _ _ (Keeps-advance self e.clock)
            (Runs-advance Unit t self (anything_IsThere t (port_of t self 0)) e.clock) advance_stays
            (λ _.
              Brings-then t Q P lasts _ _ (Keeps-mark self source e.entry.id)
                (Runs-mark Unit t self (anything_IsThere t (port_of t self 0)) source e.entry.id
                  (anything_IsThere t (port_of t self source)))
                mark_stays
                (λ _.
                  Brings-first t Q P lasts _ _
                    (forward-Keeps remote keeps self (length n.connections) 0 source e)
                    (Brings-forward i b s apart leads brings forward_stays (length n.connections) 0
                      (omega arith) (omega (arith, below)))
                    (λ _. Keeps-clock self))
                (λ _. onward-Keeps (length n.connections)))
            (λ _. rest-Keeps (length n.connections)))

    pub Brings-via :
        (i b s : ℕ)
        → IsHub t self source
        → i ≢ source
        → port_of t self i ≡ some (some b, s)
        → PartsStay
        → Brings t Q P lasts (remote.insert b e s)
        → Brings t Q P lasts (insert remote self e source)
    Brings-via i b s h apart leads stays brings =
        Brings-hub h (Brings-port i b s h.2 apart leads stays brings)

-- Nothing is asked to hold until then.
abbrev pub Always : World → Type 0
Always w = Unit

any_outcome {ℓ} : {A : Type ℓ} (P : World → Type 0) (r : Outcome A) → Ends (λ w. Always w ⊎ P w) r
any_outcome P (done a w') = inl tt
any_outcome P fault = tt
any_outcome P timeout = tt

module _ (t : Shape) (P : World → Type 0) (lasts : Lasts P) (remote : Remote)
    (keeps : RemoteKeeps remote)
    (runs : (b : ℕ) (e : Entry) (s : ℕ) → Runs Unit t (remote.insert b e s)) (self source : ℕ)
    (e : Entry) where
  pub Always-PartsStay : PartsStay t Always P lasts remote keeps runs self source e
  Always-PartsStay = (
    λ w g h. any_outcome P (advance self e.clock w),
    λ w g h. any_outcome P (mark self source e.entry.id w),
    λ j w g h. any_outcome P (forward_to remote self j source e w),
  )
