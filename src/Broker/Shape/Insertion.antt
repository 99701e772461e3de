-- ===== src/Broker/Shape/Insertion.antt =====
-- The rules of `Runs` for `insert` of cashmere/src/hub.cpp and cashmere/src/journalbase.cpp, from its parts
-- and from the insertions that it makes at other brokers.
use cashmere.Base.{
  ℕ, zero, suc, ◌+◌, ◌<◌, ◌≡◌, ◌≢◌, refl, ap, ◌∙◌, inl, inr, true, false, not, [], Option, none,
  some, arith, length, leb, ◌==◌, Bool-cases,
}
use cashmere.OrderedMap.{contains}
use cashmere.Clock.Lexicographic.{clock_order}
use cashmere.Clock.{Clock, is_next, valid, invalid_clock}
use cashmere.Entry.{Entry}
use cashmere.Broker.{Link, Kind, hub, cache, set_clock, Remote}
use cashmere.Broker.Connection.{accepted, insert_at, conn_insert}
use cashmere.Broker.Insert.{
  save, advance, mark, forward_to, forward, hub_insert, journal_insert, insert_by, insert,
}
use cashmere.Broker.Shape.{
  Shape, IsThere, port_of, port-IsThere, port_below, Runs, Runs-bind, Runs-pure, Runs-if, Runs-read,
  Runs-link, Runs-put_node, Runs-put_link, Runs-clock,
}

module _ (bad : Type 0) (t : Shape) where
  module _ (self : ℕ) (own : IsThere bad t (port_of t self 0)) where
    pub Runs-advance : (time : Clock) → Runs bad t (advance self time)
    unfolding advance set_clock
    Runs-advance time = Runs-bind bad t _ _ (Runs-clock bad t self own) (λ seen.
        Runs-link bad t self 0 _ own
          (λ c leads. Runs-put_link bad t self 0 _ (port-IsThere bad t self 0 own) leads))

    pub Runs-mark : (i id : ℕ) → IsThere bad t (port_of t self i) → Runs bad t (mark self i id)
    unfolding mark
    Runs-mark i id h = Runs-link bad t self i _ h (λ c leads.
        Runs-bind bad t _ _ (Runs-clock bad t self own)
          (λ now. Runs-put_link bad t self i _ (port-IsThere bad t self i h) leads))

    pub Runs-save : (e : Entry) → Runs bad t (save self e)
    unfolding save
    Runs-save e = Runs-read bad t self _ (port-IsThere bad t self 0 own) (λ n at_self.
        Runs-if bad t (contains e.clock n.entries) _ _ (Runs-pure bad t false)
          (Runs-bind bad t _ _ (Runs-put_node bad t self _ at_self) (λ _. Runs-pure bad t true)))

  -- The insertions that a broker makes when an entry comes in at `source`.
  abbrev pub OthersRun : Remote → ℕ → Entry → ℕ → Type 0
  OthersRun remote self e source =
      (i b s : ℕ)
      → i ≢ source
      → port_of t self i ≡ some (some b, s)
      → Runs bad t (remote.insert b e s)

  module _ (remote : Remote) (self : ℕ) where
    Runs-insert_at :
        (i : ℕ) (e : Entry) (c : Link) (o : Option ℕ)
        → IsThere bad t (port_of t self i)
        → ((b : ℕ) → o ≡ some b → Runs bad t (remote.insert b e c.source))
        → Runs bad t (insert_at remote self i e c o)
    unfolding insert_at accepted
    Runs-insert_at i e c none h k = Runs-pure bad t []
    Runs-insert_at i e c (some b) h k = Runs-bind bad t _ _ (k b refl) (λ answer.
        Runs-if bad t (valid answer) _ _
          (Runs-link bad t self i _ h (λ c' leads.
            Runs-bind bad t _ _ (Runs-put_link bad t self i _ (port-IsThere bad t self i h) leads)
              (λ _. Runs-pure bad t answer)))
          (Runs-pure bad t []))

    module _ (e : Entry) (source : ℕ) (others : OthersRun remote self e source) where
      Runs-conn_insert :
          (i : ℕ)
          → i ≢ source
          → IsThere bad t (port_of t self i)
          → Runs bad t (conn_insert remote self i e)
      unfolding conn_insert
      Runs-conn_insert i apart h = Runs-link bad t self i _ h (λ c leads.
          Runs-insert_at i e c c.broker h
            (λ b p. others i b c.source apart (leads ∙ ap (λ o. some (o, c.source)) p)))

      pub Runs-forward_to :
          (i : ℕ)
          → IsThere bad t (port_of t self i)
          → Runs bad t (forward_to remote self i source e)
      unfolding forward_to
      Runs-forward_to i h = elim (Bool-cases (i == source)) [
        | inl p ↦ rw p (Runs-pure bad t tt)
        | inr p ↦ rw p (
            Runs-bind bad t _ _ (Runs-conn_insert i (λ q. ground (arith, p, q)) h)
              (λ _. Runs-pure bad t tt))
      ]

      Runs-forward :
          (count i : ℕ)
          → ((j : ℕ) → j < i + count → IsThere bad t (port_of t self j))
          → Runs bad t (forward remote self count i source e)
      unfolding forward
      Runs-forward zero i h = Runs-pure bad t tt
      Runs-forward (suc count) i h =
          Runs-bind bad t _ _ (Runs-forward_to i (h i (omega arith)))
            (λ _. Runs-forward count (suc i) (λ j below. h j (omega arith)))

      Runs-hub_insert :
          IsThere bad t (port_of t self 0) → Runs bad t (hub_insert remote self e source)
      unfolding hub_insert
      Runs-hub_insert own = Runs-read bad t self _ (port-IsThere bad t self 0 own) (λ n at_self.
          let ports : (j : ℕ) → j < 0 + length n.connections → IsThere bad t (port_of t self j) =
            λ j below. port_below bad t self j n at_self (omega arith) in
          elim (Bool-cases (leb (length n.connections) source)) [
            | inl p ↦ rw p (Runs-pure bad t invalid_clock)
            | inr p ↦ rw p (
                Runs-bind bad t _ _ (Runs-advance self own e.clock) (λ _.
                  Runs-bind bad t _ _
                    (Runs-mark self own source e.entry.id (ports source (ground arith)))
                    (λ _.
                      Runs-bind bad t _ _ (Runs-forward (length n.connections) 0 ports)
                        (λ _. Runs-clock bad t self own))))
          ])

      Runs-journal_insert :
          IsThere bad t (port_of t self 0) → Runs bad t (journal_insert remote self e source)
      unfolding journal_insert
      Runs-journal_insert own = Runs-bind bad t _ _ (Runs-clock bad t self own) (λ seen.
          Runs-if bad t (not (is_next e.clock seen e.entry.id)) _ _ (Runs-pure bad t invalid_clock)
            (Runs-bind bad t _ _ (Runs-save self own e) (λ saved.
              Runs-if bad t saved _ _ (Runs-hub_insert own) (Runs-pure bad t invalid_clock))))

      pub Runs-insert : IsThere bad t (port_of t self 0) → Runs bad t (insert remote self e source)
      unfolding insert
      Runs-insert own =
          Runs-read bad t self _ (port-IsThere bad t self 0 own) (λ n _. by_kind n.kind)
        where
          by_kind : (k : Kind) → Runs bad t (insert_by remote self k e source)
          by_kind hub = Runs-hub_insert own
          by_kind cache = Runs-journal_insert own
