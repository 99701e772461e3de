-- ===== src/Broker/Additions.antt =====
-- What an insertion writes into the entries of journals (cashmere/src/hub.cpp, cashmere/src/journalbase.cpp
-- and cashmere/plugins/src/cache.cpp).
use cashmere.Base.{
  ℕ, zero, suc, ◌≡◌, refl, sym, subst, ap, ◌∙◌, inl, inr, ◌⊎◌, Bool, true, false, [], ◌∷◌, Option,
  none, some, arith, get_elem?, set, ◌==◌, Option-cases, Bool-cases, if◌then◌else◌,
}
use cashmere.OrderedMap.{lookup, assign, contains, nat_order}
use cashmere.OrderedMap.Laws.{lookup-assign_self}
use cashmere.Clock.{Clock, valid}
use cashmere.Clock.Lexicographic.{clock_order}
use cashmere.Entry.{Entry}
use cashmere.Broker.{
  Link, Node, Kind, hub, cache, World, Outcome, done, fault, timeout, timed_out, M, continue, ◌>>=◌,
  pure, at, node, put_node, link, put_link, modify, clock, set_clock, Remote,
}
use cashmere.Broker.Connection.{accepted, insert_at, conn_insert}
use cashmere.Broker.Insert.{
  save, advance, mark, forward_to, forward, hub_insert, journal_insert, insert_by, insert,
}
use cashmere.Broker.Dispatch.{network}

-- The entries of a broker are as they were, or they did not have the clock of the entry, and the entry
-- was added.
abbrev pub AddsAt : Entry → Option Node → Option Node → Type 0
AddsAt e none none = Unit
AddsAt e none (some n') = ⊥
AddsAt e (some n) none = ⊥
AddsAt e (some n) (some n') =
    (n'.entries ≡ n.entries)
    ⊎ ((contains e.clock n.entries ≡ false) × (n'.entries ≡ assign e.clock e.entry n.entries))

module _ (e : Entry) where
  AddsAt-refl : (o : Option Node) → AddsAt e o o
  AddsAt-refl none = tt
  AddsAt-refl (some n) = inl refl

  AddsAt-trans : (a b c : Option Node) → AddsAt e a b → AddsAt e b c → AddsAt e a c
  AddsAt-trans none none none g h = tt
  AddsAt-trans none none (some z) g h = h
  AddsAt-trans none (some y) c g h = absurd g
  AddsAt-trans (some x) none c g h = absurd g
  AddsAt-trans (some x) (some y) none g h = h
  AddsAt-trans (some x) (some y) (some z) (inl p) (inl q) = inl (q ∙ p)
  AddsAt-trans (some x) (some y) (some z) (inl p) (inr (fresh, q)) =
      inr (ap (contains e.clock) (sym p) ∙ fresh, q ∙ ap (assign e.clock e.entry) p)
  AddsAt-trans (some x) (some y) (some z) (inr (fresh, p)) (inl q) = inr (fresh, q ∙ p)
  AddsAt-trans (some x) (some y) (some z) (inr (fresh, p)) (inr (again, q)) =
      let there : lookup e.clock (assign e.clock e.entry x.entries) ≡ some e.entry =
        lookup-assign_self e.clock e.entry x.entries in
      let late : contains e.clock (assign e.clock e.entry x.entries) ≡ false =
        ap (contains e.clock) (sym p) ∙ again in
      absurd (ground (arith, there, late))

  abbrev pub Adds : World → World → Type 0
  Adds w w' = (b : ℕ) → AddsAt e (get_elem? w b) (get_elem? w' b)

  abbrev pub Result {ℓ} : {A : Type ℓ} → World → Outcome A → Type 0
  Result w (done a w') = Adds w w'
  Result w fault = Unit
  Result w timeout = Unit

  abbrev pub IsAdding {ℓ} : {A : Type ℓ} → M A → Type 0
  IsAdding m = (w : World) → Result w (m w)

  module _ {ℓ κ} {A : Type ℓ} {B : Type κ} where
    adding :
        (w : World) (r : Outcome A) (f : A → M B)
        → Result w r
        → ((a : A) → IsAdding (f a))
        → Result w (continue r f)
    adding w (done a w') f h k = onward (f a w') (k a w')
      where
        onward : (r : Outcome B) → Result w' r → Result w r
        onward (done c u) g =
            λ b. AddsAt-trans (get_elem? w b) (get_elem? w' b) (get_elem? u b) (h b) (g b)
        onward fault g = tt
        onward timeout g = tt
    adding w fault f h k = tt
    adding w timeout f h k = tt

    bind-IsAdding :
        (m : M A) (f : A → M B) → IsAdding m → ((a : A) → IsAdding (f a)) → IsAdding (m >>= f)
    unfolding ◌>>=◌
    bind-IsAdding m f h k w = adding w (m w) f (h w) k

  module _ {ℓ} {A : Type ℓ} where
    pure-IsAdding : (a : A) → IsAdding (pure a)
    unfolding pure
    pure-IsAdding a w b = AddsAt-refl (get_elem? w b)

    at-IsAdding : (o : Option A) → IsAdding (at o)
    unfolding at
    at-IsAdding none w = tt
    at-IsAdding (some a) w = λ b. AddsAt-refl (get_elem? w b)

    if-IsAdding : (c : Bool) (m n : M A) → IsAdding m → IsAdding n → IsAdding (if c then m else n)
    if-IsAdding true m n h k = h
    if-IsAdding false m n h k = k

  set-AddsAt :
      (w : World) (self : ℕ) (n n' : Node) (b : ℕ)
      → get_elem? w self ≡ some n
      → AddsAt e (some n) (some n')
      → AddsAt e (get_elem? w b) (get_elem? (set w self n') b)
  set-AddsAt [] self n n' b h g = tt
  set-AddsAt (x ∷ w) zero n n' zero h g =
      let p : x ≡ n = cc in subst (λ m. AddsAt e (some m) (some n')) (sym p) g
  set-AddsAt (x ∷ w) zero n n' (suc b) h g = AddsAt-refl (get_elem? w b)
  set-AddsAt (x ∷ w) (suc self) n n' zero h g = AddsAt-refl (some x)
  set-AddsAt (x ∷ w) (suc self) n n' (suc b) h g = set-AddsAt w self n n' b h g

  node-IsAdding : (self : ℕ) → IsAdding (node self)
  unfolding node
  node-IsAdding self w = at-IsAdding (get_elem? w self) w

  modify-IsAdding :
      (self : ℕ) (f : Node → Node)
      → ((n : Node) → (f n).entries ≡ n.entries)
      → IsAdding (modify self f)
  unfolding modify node put_node at ◌>>=◌
  modify-IsAdding self f h w = elim (Option-cases (get_elem? w self)) [
    | inl p ↦ rw p tt
    | inr (n, p) ↦ rw p (λ b. set-AddsAt w self n (f n) b p (inl (h n)))
  ]

  save-IsAdding : (self : ℕ) → IsAdding (save self e)
  unfolding save node put_node pure at ◌>>=◌
  save-IsAdding self w = elim (Option-cases (get_elem? w self)) [
    | inl p ↦ rw p tt
    | inr (n, p) ↦ elim (Bool-cases (contains e.clock n.entries)) [
      | inl old ↦ rw (p, old) (λ b. AddsAt-refl (get_elem? w b))
      | inr new ↦ rw (p, new) (λ b. set-AddsAt w self n _ b p (inr (new, refl)))
    ]
  ]

  link-IsAdding : (self i : ℕ) → IsAdding (link self i)
  unfolding link
  link-IsAdding self i =
      bind-IsAdding _ _ (node-IsAdding self) (λ n. at-IsAdding (get_elem? n.connections i))

  put_link-IsAdding : (self i : ℕ) (c : Link) → IsAdding (put_link self i c)
  unfolding put_link
  put_link-IsAdding self i c = modify-IsAdding self _ (λ n. refl)

  clock-IsAdding : (self : ℕ) → IsAdding (clock self)
  unfolding clock
  clock-IsAdding self = bind-IsAdding _ _ (link-IsAdding self 0) (λ c. pure-IsAdding c.version)

  ruleset adding_rules = (
    pure-IsAdding, if-IsAdding, node-IsAdding, link-IsAdding, put_link-IsAdding, clock-IsAdding,
    save-IsAdding, bind-IsAdding,
  )

  advance-IsAdding : (self : ℕ) (time : Clock) → IsAdding (advance self time)
  unfolding advance set_clock
  advance-IsAdding self time = search adding_rules depth 8

  mark-IsAdding : (self i id : ℕ) → IsAdding (mark self i id)
  unfolding mark
  mark-IsAdding self i id = search adding_rules depth 8

  module _ (remote : Remote) (others : (b s : ℕ) → IsAdding (remote.insert b e s)) (self : ℕ) where
    accepted-IsAdding : (i : ℕ) (answer : Clock) → IsAdding (accepted remote self i e answer)
    unfolding accepted
    accepted-IsAdding i answer = search adding_rules depth 8

    insert_at-IsAdding :
        (i : ℕ) (c : Link) (o : Option ℕ) → IsAdding (insert_at remote self i e c o)
    unfolding insert_at
    insert_at-IsAdding i c none = pure-IsAdding []
    insert_at-IsAdding i c (some b) =
        bind-IsAdding _ _ (others b c.source)
          (λ answer. if-IsAdding (valid answer) _ _ (accepted-IsAdding i answer) (pure-IsAdding []))

    conn_insert-IsAdding : (i : ℕ) → IsAdding (conn_insert remote self i e)
    unfolding conn_insert
    conn_insert-IsAdding i =
        bind-IsAdding _ _ (link-IsAdding self i) (λ c. insert_at-IsAdding i c c.broker)

    forward_to-IsAdding : (i source : ℕ) → IsAdding (forward_to remote self i source e)
    unfolding forward_to
    forward_to-IsAdding i source =
        if-IsAdding (i == source) _ _ (pure-IsAdding tt)
          (bind-IsAdding _ _ (conn_insert-IsAdding i) (λ _. pure-IsAdding tt))

    forward-IsAdding : (count i source : ℕ) → IsAdding (forward remote self count i source e)
    unfolding forward
    forward-IsAdding zero i source = pure-IsAdding tt
    forward-IsAdding (suc count) i source =
        bind-IsAdding _ _ (forward_to-IsAdding i source)
          (λ _. forward-IsAdding count (suc i) source)

    hub_insert-IsAdding : (source : ℕ) → IsAdding (hub_insert remote self e source)
    unfolding hub_insert
    hub_insert-IsAdding source =
        search (adding_rules, advance-IsAdding, mark-IsAdding, forward-IsAdding) depth 12

    journal_insert-IsAdding : (source : ℕ) → IsAdding (journal_insert remote self e source)
    unfolding journal_insert
    journal_insert-IsAdding source = search (adding_rules, hub_insert-IsAdding) depth 12

    insert-IsAdding : (source : ℕ) → IsAdding (insert remote self e source)
    unfolding insert
    insert-IsAdding source = bind-IsAdding _ _ (node-IsAdding self) (λ n. by_kind n.kind)
      where
        by_kind : (k : Kind) → IsAdding (insert_by remote self k e source)
        by_kind hub = hub_insert-IsAdding source
        by_kind cache = journal_insert-IsAdding source

  pub network-IsAdding : (fuel b s : ℕ) → IsAdding ((network fuel).insert b e s)
  unfolding network timed_out
  network-IsAdding zero b s = λ w. tt
  network-IsAdding (suc fuel) b s = insert-IsAdding (network fuel) (network-IsAdding fuel) b s

added_at :
    (e : Entry) (n : Node) (o : Option Node)
    → AddsAt e (some n) o
    → (n' : Node) × (o ≡ some n') × AddsAt e (some n) (some n')
added_at e n none h = absurd h
added_at e n (some n') h = (n', refl, h)

-- Whatever the network, an insertion that returns leaves the entries of each broker as they were, or adds
-- to them the entry that is inserted and nothing else, and that only where none stood under its clock.
pub insert_adds :
    (fuel self source b : ℕ) (e : Entry) (w w' : World) (c : Clock) (n : Node)
    → (network fuel).insert self e source w ≡ done c w'
    → get_elem? w b ≡ some n
    → (n' : Node) × (get_elem? w' b ≡ some n')
      × ((n'.entries ≡ n.entries)
          ⊎ ((contains e.clock n.entries ≡ false)
              × (n'.entries ≡ assign e.clock e.entry n.entries)))
insert_adds fuel self source b e w w' c n ran here =
    let adds : Adds e w w' = subst (Result e w) ran (network-IsAdding e fuel self source w) in
    added_at e n (get_elem? w' b) (subst (λ o. AddsAt e o (get_elem? w' b)) here (adds b))
