-- ===== src/Broker/Shape/Arrival.antt =====
-- `JournalBase::insert` (cashmere/src/journalbase.cpp) at a journal that waits for the entry, and the
-- insertions elsewhere that stand before it.
use cashmere.Base.{
  ℕ, zero, suc, ◌≡◌, ◌≢◌, refl, sym, subst, ◌∙◌, inl, inr, ◌⊎◌, Bool, true, false, not, [], Option,
  none, some, get_elem?, set, length, leb, ◌==◌, ==-cases, Option-cases, if◌then◌else◌,
}
use cashmere.OrderedMap.{nat_order}
use cashmere.OrderedMap.Laws.{lookup-assign_self}
use cashmere.Clock.{is_next, valid, invalid_clock}
use cashmere.Clock.Lexicographic.{clock_order}
use cashmere.Entry.{Entry}
use cashmere.Broker.{
  Link, Node, Kind, hub, cache, World, Outcome, done, fault, timeout, timed_out, M, ◌>>=◌, pure, at,
  node, put_node, link, clock, Remote,
}
use cashmere.Broker.Connection.{insert_at, conn_insert}
use cashmere.Broker.Insert.{
  save, forward_to, forward, hub_insert, journal_insert, insert_by, insert,
}
use cashmere.Broker.Dispatch.{network}
use cashmere.Broker.Growth.{Good, GoodAt, After, Keeps, Keeps-bind}
use cashmere.Broker.Growth.Rules.{set-GoodAt, Keeps-at, Keeps-node, Keeps-clock}
use cashmere.Broker.Growth.Writes.{Keeps-advance, Keeps-mark, Keeps-save}
use cashmere.Broker.Growth.Operations.{
  RemoteKeeps, forward_to-Keeps, forward-Keeps, hub_insert-Keeps, insert-Keeps, conn_insert-Keeps,
}
use cashmere.Broker.Growth.Membership.{network-Keeps}
use cashmere.Broker.Shape.{Shape, Runs, get_elem?-set_there}
use cashmere.Broker.Shape.Passage.{Ends, Stays, Stays-bind}
use cashmere.Broker.Shape.Hub.{PartsStay}
use cashmere.Broker.Shape.Endless.{network-Runs}
use cashmere.Broker.Shape.Waiting.{
  AwaitsAt, RecordsAt, saved_node, Awaits, Records, Records-Lasts, Spares, Spares-if, Spares-pure,
  Spares-node, Spares-link, Spares-clock, Spares-advance, Spares-mark, Spares-accepted, Spares-save,
}

insert_at_journal :
    (remote : Remote) (e : Entry) (w : World) (self source : ℕ) (n : Node)
    → get_elem? w self ≡ some n
    → n.kind ≡ cache
    → insert remote self e source w ≡ journal_insert remote self e source w
unfolding insert node at ◌>>=◌
insert_at_journal remote e w self source n here kind = rw (here, kind) refl

-- A waiting journal goes on like a plain broker, when it has saved the entry.
pub journal_takes :
    (remote : Remote) (e : Entry) (w : World) (self source : ℕ) (n : Node)
    → get_elem? w self ≡ some n
    → AwaitsAt e (some n)
    → insert remote self e source w ≡ hub_insert remote self e source (set w self (saved_node e n))
journal_takes remote e w self source n here (kind, (l, front, next), fresh) =
    insert_at_journal remote e w self source n here kind ∙ goes_on
  where
    goes_on :
        journal_insert remote self e source w
        ≡ hub_insert remote self e source (set w self (saved_node e n))
    goes_on =
        unfold journal_insert save clock link node at pure put_node ◌>>=◌ in
        rw (here, front) (rw next (rw (here, fresh) refl))

pub saved-Good :
    (e : Entry) (w : World) (self : ℕ) (n : Node)
    → Good w
    → get_elem? w self ≡ some n
    → Good (set w self (saved_node e n))
saved-Good e w self n g here i =
    set-GoodAt w self (saved_node e n) i (subst GoodAt here (g self)) (g i)

module _ (t : Shape) (e : Entry) (last : ℕ) where
  abbrev pub Waits {ℓ} : {A : Type ℓ} → M A → Type 0
  Waits m = Stays t (Awaits e last) (Records e last) (Records-Lasts e last) m

  module _ {ℓ} {A : Type ℓ} where
    spared :
        (w : World) (r : Outcome A)
        → Ends (λ w'. get_elem? w' last ≡ get_elem? w last) r
        → Awaits e last w ⊎ Records e last w
        → Ends (λ w. Awaits e last w ⊎ Records e last w) r
    spared w (done a w') same (inl q) = inl (subst (AwaitsAt e) (sym same) q)
    spared w (done a w') same (inr p) = inr (subst (RecordsAt e) (sym same) p)
    spared w fault same h = tt
    spared w timeout same h = tt

    -- An operation that leaves the journal alone.
    Waits-Spares : (m : M A) → Spares last m → Waits m
    Waits-Spares m spare w g h = spared w (m w) (spare w) h

    Waits-if : (c : Bool) (m n : M A) → Waits m → Waits n → Waits (if c then m else n)
    Waits-if true m n h k = h
    Waits-if false m n h k = k

    -- What is recorded stays recorded.
    recorded : (w : World) (r : Outcome A) → After w r → Records e last w → Ends (Records e last) r
    recorded w (done a w') g p = Records-Lasts e last w w' g.1 p
    recorded w fault g p = tt
    recorded w timeout g p = tt

    then_some :
        (r : Outcome A) → Ends (Records e last) r → Ends (λ w. Awaits e last w ⊎ Records e last w) r
    then_some (done a w') p = inr p
    then_some fault p = tt
    then_some timeout p = tt

  Waits-bind {ℓ κ} :
      {A : Type ℓ} {B : Type κ} (m : M A) (f : A → M B)
      → Keeps m
      → Waits m
      → ((a : A) → Waits (f a))
      → Waits (m >>= f)
  Waits-bind m f = Stays-bind t (Awaits e last) (Records e last) (Records-Lasts e last) m f

  link-Keeps : (self i : ℕ) → Keeps (link self i)
  unfolding link
  link-Keeps self i = Keeps-bind _ _ (Keeps-node self) (λ n. Keeps-at (get_elem? n.connections i))

  module _ (remote : Remote) (keeps : RemoteKeeps remote)
      (runs : (b : ℕ) (e : Entry) (s : ℕ) → Runs Unit t (remote.insert b e s))
      (waits : (b s : ℕ) → Waits (remote.insert b e s)) (self : ℕ) where
    module _ (apart : self ≢ last) (source : ℕ) where
      Waits-insert_at : (i : ℕ) (c : Link) (o : Option ℕ) → Waits (insert_at remote self i e c o)
      unfolding insert_at
      Waits-insert_at i c none = Waits-Spares _ (Spares-pure last [])
      Waits-insert_at i c (some b) =
          Waits-bind _ _ (keeps.insert b e c.source) (waits b c.source) (λ answer. Waits-Spares _ (
            Spares-if last (valid answer) _ _ (Spares-accepted last self apart remote i e answer)
              (Spares-pure last [])))

      Waits-forward_to : (i : ℕ) → Waits (forward_to remote self i source e)
      unfolding forward_to conn_insert
      Waits-forward_to i = Waits-if (i == source) _ _ (Waits-Spares _ (Spares-pure last tt)) (
          Waits-bind _ _ (conn_insert-Keeps remote keeps self i e)
            (Waits-bind _ _ (link-Keeps self i) (Waits-Spares _ (Spares-link last self apart i))
              (λ c. Waits-insert_at i c c.broker))
            (λ _. Waits-Spares _ (Spares-pure last tt)))

      Waits-forward : (count i : ℕ) → Waits (forward remote self count i source e)
      unfolding forward
      Waits-forward zero i = Waits-Spares _ (Spares-pure last tt)
      Waits-forward (suc count) i =
          Waits-bind _ _ (forward_to-Keeps remote keeps self i source e) (Waits-forward_to i)
            (λ _. Waits-forward count (suc i))

      -- What a hub does with the entry leaves the journal as it is.
      pub Waits-parts :
          PartsStay t
            (Awaits e last)
            (Records e last)
            (Records-Lasts e last)
            remote
            keeps
            runs
            self
            source
            e
      Waits-parts = (
        Waits-Spares _ (Spares-advance last self apart e.clock),
        Waits-Spares _ (Spares-mark last self apart source e.entry.id),
        Waits-forward_to,
      )

      Waits-hub_insert : Waits (hub_insert remote self e source)
      unfolding hub_insert
      Waits-hub_insert =
          let (advance_waits, mark_waits, forward_waits) = Waits-parts in
          Waits-bind _ _ (Keeps-node self) (Waits-Spares _ (Spares-node last self)) (λ n.
            Waits-if (leb (length n.connections) source) _ _
              (Waits-Spares _ (Spares-pure last invalid_clock))
              (Waits-bind _ _ (Keeps-advance self e.clock) advance_waits (λ _.
                Waits-bind _ _ (Keeps-mark self source e.entry.id) mark_waits (λ _.
                  Waits-bind _ _ (forward-Keeps remote keeps self (length n.connections) 0 source e)
                    (Waits-forward (length n.connections) 0)
                    (λ _. Waits-Spares _ (Spares-clock last self apart))))))

      Waits-journal_insert : Waits (journal_insert remote self e source)
      unfolding journal_insert
      Waits-journal_insert =
          Waits-bind _ _ (Keeps-clock self) (Waits-Spares _ (Spares-clock last self apart)) (λ seen.
            Waits-if (not (is_next e.clock seen e.entry.id)) _ _
              (Waits-Spares _ (Spares-pure last invalid_clock))
              (Waits-bind _ _ (Keeps-save self e) (Waits-Spares _ (Spares-save last self apart e))
                (λ saved.
                  Waits-if saved _ _ Waits-hub_insert
                    (Waits-Spares _ (Spares-pure last invalid_clock)))))

      Waits-elsewhere : Waits (insert remote self e source)
      unfolding insert
      Waits-elsewhere =
          Waits-bind _ _ (Keeps-node self) (Waits-Spares _ (Spares-node last self))
            (λ n. by_kind n.kind)
        where
          by_kind : (k : Kind) → Waits (insert_by remote self k e source)
          by_kind hub = Waits-hub_insert
          by_kind cache = Waits-journal_insert

  module _ (remote : Remote) (keeps : RemoteKeeps remote) (source : ℕ) where
    -- The journal takes the entry, whatever comes of passing it on.
    taken :
        (w : World) (n : Node)
        → Good w
        → get_elem? w last ≡ some n
        → AwaitsAt e (some n)
        → Ends (Records e last) (insert remote last e source w)
    taken w n g here q =
        let w1 : World = set w last (saved_node e n) in
        let after : After w1 (hub_insert remote last e source w1) =
          hub_insert-Keeps remote keeps last e source w1 (saved-Good e w last n g here) in
        let written : Records e last w1 =
          subst (RecordsAt e) (sym (get_elem?-set_there w last n (saved_node e n) here))
            (lookup-assign_self e.clock e.entry n.entries) in
        subst (Ends (Records e last)) (sym (journal_takes remote e w last source n here q))
          (recorded w1 _ after written)

    pub insert-Records :
        (w : World)
        → Good w
        → Awaits e last w
        → Ends (Records e last) (insert remote last e source w)
    insert-Records w g q = elim (Option-cases (get_elem? w last)) [
      | inl none_there ↦ absurd (subst (AwaitsAt e) none_there q)
      | inr (n, here) ↦ taken w n g here (subst (AwaitsAt e) here q)
    ]

  module _ (remote : Remote) (keeps : RemoteKeeps remote)
      (runs : (b : ℕ) (e : Entry) (s : ℕ) → Runs Unit t (remote.insert b e s))
      (waits : (b s : ℕ) → Waits (remote.insert b e s)) where
    Waits-insert : (self source : ℕ) → Waits (insert remote self e source)
    Waits-insert self source = elim (==-cases self last) [
      | inl same ↦
          subst (λ b. Waits (insert remote b e source)) (sym same)
            (λ w g h. then_some _ (elim h [
              | inl q ↦ insert-Records remote keeps source w g q
              | inr p ↦ recorded w _ (insert-Keeps remote keeps last e source w g) p
            ]))
      | inr apart ↦ Waits-elsewhere remote keeps runs waits self apart source
    ]

  pub network-Waits : (fuel b s : ℕ) → Waits ((network fuel).insert b e s)
  unfolding network timed_out
  network-Waits zero b s = λ w g h. tt
  network-Waits (suc fuel) b s =
      Waits-insert (network fuel) (network-Keeps fuel) (network-Runs t fuel) (network-Waits fuel) b
        s
