-- ===== src/Ledger/Swap.antt =====
-- Two entries in either order: when they leave the same ledger.
use cashmere.Base.{
  ◌≡◌, ◌≢◌, refl, sym, ap, ◌∙◌, ◌⊎◌, inl, inr, true, false, Option, none, some, arith, Bool-cases,
}
use cashmere.OrderedMap.{lookup, IsSorted}
use cashmere.OrderedMap.Laws.{ext}
use cashmere.Clock.{Clock, clock_eq}
use cashmere.Clock.Lexicographic.{clock_order}
use cashmere.Clock.Causality.{smaller_than_irrefl, clock_eq_iff}
use cashmere.Entry.{Entry}
use cashmere.Ledger.{Ledger}
use cashmere.Ledger.Rows.{
  target, wins, pick, outcome_row, lookup-outcome_self, lookup-outcome_ne, outcome_row-IsSorted,
}
use cashmere.Ledger.Balance.{total, total_outcome}

-- Among the entries of `U` for one transaction, `wins` is a strict total order.
pub record IsRanked (U : Entry → Type 0) : Type 0 where
  pub trans :
      (x y z : Entry)
      → U x
      → U y
      → U z
      → target x ≡ target y
      → target y ≡ target z
      → wins x y ≡ true
      → wins y z ≡ true
      → wins x z ≡ true
  pub total :
      (x y : Entry)
      → U x
      → U y
      → target x ≡ target y
      → (x ≡ y) ⊎ ((wins x y ≡ true) ⊎ (wins y x ≡ true))

pub wins_irrefl : (x : Entry) → wins x x ≡ false
unfolding wins
wins_irrefl x = ground (arith, smaller_than_irrefl x.clock)

-- A row of the ledger holds an entry of `U` for the row's key.
abbrev pub IsRow : (Entry → Type 0) → Clock → Option Entry → Type 0
IsRow U k none = Unit
IsRow U k (some r) = U r × (target r ≡ k)

pub record IsGood (U : Entry → Type 0) (l : Ledger) : Type 0 where
  pub sorted : IsSorted l.rows
  pub summed : l.balance ≡ total l.rows
  pub known : (k : Clock) → IsRow U k (lookup k l.rows)

pub Clock-cases : (a b : Clock) → (a ≡ b) ⊎ (a ≢ b)
Clock-cases a b = elim (Bool-cases (clock_eq a b)) [
  | inl e ↦ inl ((clock_eq_iff a b).0 e)
  | inr e ↦ inr (λ p. ground (arith, (clock_eq_iff a b).1 p))
]

pick-IsRow :
    (U : Entry → Type 0) (row : Option Entry) (e : Entry)
    → U e
    → IsRow U (target e) row
    → IsRow U (target e) (some (pick row e))
unfolding pick
pick-IsRow U none e u h = (u, refl)
pick-IsRow U (some r) e u h = elim (Bool-cases (wins r e)) [
  | inl won ↦ rw won (u, refl)
  | inr lost ↦ rw lost h
]

pub outcome-IsGood :
    (U : Entry → Type 0) (l : Ledger) (e : Entry) → U e → IsGood U l → IsGood U (outcome_row l e)
outcome-IsGood U l e u g = record {
  sorted = outcome_row-IsSorted l e g.sorted;
  summed = unfold outcome_row in total_outcome l e (lookup (target e) l.rows) refl g.summed;
  known = λ k. elim (Clock-cases k (target e)) [
    | inl hit ↦
        rw (hit, lookup-outcome_self l e)
          (pick-IsRow U (lookup (target e) l.rows) e u (g.known (target e)))
    | inr miss ↦ rw (lookup-outcome_ne l e k miss) (g.known k)
  ];
}

after_one :
    (l : Ledger) (x : Entry) (k : Clock)
    → k ≡ target x
    → lookup k (outcome_row l x).rows ≡ some (pick (lookup k l.rows) x)
after_one l x k hit = rw hit (lookup-outcome_self l x)

after_two :
    (l : Ledger) (x y : Entry) (k : Clock)
    → k ≡ target x
    → k ≡ target y
    → lookup k (outcome_row (outcome_row l x) y).rows
      ≡ some (pick (some (pick (lookup k l.rows) x)) y)
after_two l x y k hit hit' =
    after_one (outcome_row l x) y k hit' ∙ ap (λ row. some (pick row y)) (after_one l x k hit)

one :
    (l : Ledger) (x y : Entry) (k : Clock)
    → k ≡ target x
    → k ≢ target y
    → lookup k (outcome_row l x).rows ≡ lookup k (outcome_row (outcome_row l y) x).rows
one l x y k hit miss =
    after_one l x k hit
    ∙ ap (λ row. some (pick row x)) (sym (lookup-outcome_ne l y k miss))
    ∙ sym (after_one (outcome_row l y) x k hit)

module _ (U : Entry → Type 0) (ranked : IsRanked U) where
  pick_swap_row :
      (r x y : Entry)
      → U r
      → U x
      → U y
      → target r ≡ target x
      → target x ≡ target y
      → pick (some (pick (some r) x)) y ≡ pick (some (pick (some r) y)) x
  unfolding pick
  pick_swap_row r x y ur ux uy p q = ground (
    arith,
    ranked.total x y ux uy q,
    ranked.trans r x y ur ux uy p q,
    ranked.trans r y x ur uy ux (p ∙ q) (sym q),
    ranked.trans x y x ux uy ux q (sym q),
    wins_irrefl x,
    wins_irrefl y,
  )

  pick_swap :
      (k : Clock) (row : Option Entry) (x y : Entry)
      → IsRow U k row
      → U x
      → U y
      → k ≡ target x
      → target x ≡ target y
      → pick (some (pick row x)) y ≡ pick (some (pick row y)) x
  pick_swap k none x y h ux uy p q =
      unfold pick in
      ground (
        arith,
        ranked.total x y ux uy q,
        ranked.trans x y x ux uy ux q (sym q),
        wins_irrefl x,
        wins_irrefl y,
      )
  pick_swap k (some r) x y h ux uy p q = pick_swap_row r x y h.0 ux uy (h.1 ∙ p) q

  both :
      (l : Ledger) (x y : Entry)
      → IsGood U l
      → U x
      → U y
      → (k : Clock) → k ≡ target x
      → k ≡ target y
      → lookup k (outcome_row (outcome_row l x) y).rows
        ≡ lookup k (outcome_row (outcome_row l y) x).rows
  both l x y g ux uy k hit hit' =
      after_two l x y k hit hit'
      ∙ ap some (pick_swap k (lookup k l.rows) x y (g.known k) ux uy hit (sym hit ∙ hit'))
      ∙ sym (after_two l y x k hit' hit)

  -- What the two orders leave under a key.
  lookup_swap :
      (l : Ledger) (x y : Entry)
      → IsGood U l
      → U x
      → U y
      → (k : Clock)
      → lookup k (outcome_row (outcome_row l x) y).rows
        ≡ lookup k (outcome_row (outcome_row l y) x).rows
  lookup_swap l x y g ux uy k = elim (Clock-cases k (target x)) [
    | inl hit ↦ elim (Clock-cases k (target y)) [
      | inl hit' ↦ both l x y g ux uy k hit hit'
      | inr miss' ↦ lookup-outcome_ne (outcome_row l x) y k miss' ∙ one l x y k hit miss'
    ]
    | inr miss ↦ elim (Clock-cases k (target y)) [
      | inl hit' ↦ sym (lookup-outcome_ne (outcome_row l y) x k miss ∙ one l y x k hit' miss)
      | inr miss' ↦
          lookup-outcome_ne (outcome_row l x) y k miss'
          ∙ lookup-outcome_ne l x k miss
          ∙ sym (lookup-outcome_ne l y k miss')
          ∙ sym (lookup-outcome_ne (outcome_row l y) x k miss)
    ]
  ]

  pub outcome_swap :
      (l : Ledger) (x y : Entry)
      → IsGood U l
      → U x
      → U y
      → outcome_row (outcome_row l x) y ≡ outcome_row (outcome_row l y) x
  outcome_swap l x y g ux uy =
      let gxy = outcome-IsGood U (outcome_row l x) y uy (outcome-IsGood U l x ux g) in
      let gyx = outcome-IsGood U (outcome_row l y) x ux (outcome-IsGood U l y uy g) in
      let same_rows =
        ext (outcome_row (outcome_row l x) y).rows (outcome_row (outcome_row l y) x).rows gxy.sorted
          gyx.sorted (lookup_swap l x y g ux uy) in
      λ i. record {
        balance = (gxy.summed ∙ ap total same_rows ∙ sym gyx.summed) i;
        rows = same_rows i;
      }
