-- ===== src/Grpc/Maps.antt =====
-- Filling a `google::protobuf::Map` from a `std::map` and back, whatever order it is iterated in.
use cashmere.Base.{
  ℕ, ◌≡◌, ◌≢◌, refl, sym, ap, ◌∙◌, inl, inr, List, [], ◌∷◌, Option, none, some, or_else,
  or_else-none, Option-cases, ==-cases, arith, Among,
}
use cashmere.OrderedMap.{
  OrderedMap, lookup, assign, assign_all, IsSorted, Above, nat_order, ltb_irrefl,
}
use cashmere.OrderedMap.Laws.{
  before, same, after, compare_keys, lookup-assign_self, lookup-assign_ne, lookup-Above,
  lookup-lt_Above, Above-IsSorted, Above-mono, ext,
}
use cashmere.OrderedMap.Fill.{assign_all-IsSorted}
use cashmere.Grpc.{ProtoMap}

-- What the assignments of these pairs leave under a key.
data Filled {V : Type 0} (k : ℕ) (xs : List (ℕ × V)) (out : OrderedMap ℕ V) : Type 0 where
  taken : (v : V) → lookup k (assign_all xs out) ≡ some v → Among (k, v) xs → Filled k xs out
  kept :
      lookup k (assign_all xs out) ≡ lookup k out
      → ((v : V) → Among (k, v) xs → ⊥)
      → Filled k xs out

filled : {V : Type 0} (k : ℕ) (xs : List (ℕ × V)) (out : OrderedMap ℕ V) → Filled k xs out
unfolding assign_all
filled k [] out = kept refl (λ v h. absurd h)
filled k ((j, w) ∷ rest) out = elim (filled k rest (assign j w out)) [
  | taken v e h ↦ taken v e (inr h)
  | kept e h ↦ elim (==-cases k j) [
    | inl q ↦
        taken w (e ∙ ap (λ i. lookup k (assign i w out)) (sym q) ∙ lookup-assign_self k w out)
          (inl (ap (λ i. (i, w)) q))
    | inr q ↦
        kept (e ∙ lookup-assign_ne k j w out q)
          (λ v a. elim a [ inl p ↦ absurd (q (ap (λ t. t.0) p)) | inr p ↦ h v p ])
  ]
]

module _ {V : Type 0} where
  lookup-cons_self : (k : ℕ) (v : V) (m : OrderedMap ℕ V) → lookup k ((k, v) ∷ m) ≡ some v
  unfolding lookup
  lookup-cons_self k v m = rw (ltb_irrefl k) refl

  lookup-cons_ne :
      (k j : ℕ) (v : V) (m : OrderedMap ℕ V)
      → k ≢ j
      → Above j m
      → lookup k ((j, v) ∷ m) ≡ lookup k m
  lookup-cons_ne k j v m h a = elim (compare_keys k j) [
    | before p q ↦ unfold lookup in rw p (sym (lookup-lt_Above k j m p a))
    | same e p q ↦ absurd (h e)
    | after p q ↦ unfold lookup in rw (q, p) refl
  ]

-- In a sorted map, each pair is the one of its key.
Among-Above :
    {V : Type 0} (j k : ℕ) (v : V) (m : OrderedMap ℕ V) → Above j m → Among (k, v) m → k ≢ j
Among-Above j k v [] a h = absurd h
Among-Above j k v ((i, w) ∷ rest) a h = elim h [
  | inl p ↦ λ e. ground (arith, a.0, e, ap (λ t. t.0) p)
  | inr p ↦ Among-Above j k v rest (Above-mono j i rest a.0 a.1) p
]

pub Among-lookup :
    {V : Type 0} (k : ℕ) (v : V) (m : OrderedMap ℕ V)
    → IsSorted m
    → Among (k, v) m
    → lookup k m ≡ some v
Among-lookup k v [] s h = absurd h
Among-lookup k v ((j, w) ∷ rest) s h = elim h [
  | inl p ↦
      ap (λ t. lookup t.0 ((j, w) ∷ rest)) p
      ∙ lookup-cons_self j w rest
      ∙ ap some (sym (ap (λ t. t.1) p))
  | inr p ↦
      lookup-cons_ne k j w rest (Among-Above j k v rest s p) s
      ∙ Among-lookup k v rest (Above-IsSorted j rest s) p
]

pub lookup-Among :
    {V : Type 0} (k : ℕ) (v : V) (m : OrderedMap ℕ V) → lookup k m ≡ some v → Among (k, v) m
unfolding lookup
lookup-Among k v [] e = cc
lookup-Among k v ((j, w) ∷ rest) e = elim (compare_keys k j) [
  | before p q ↦ absurd (ground (arith, e, p))
  | same i p q ↦ inl (ground (arith, e, i, p, q))
  | after p q ↦ inr (lookup-Among k v rest (ground (arith, e, p, q)))
]

abbrev pub map_option : {V W : Type 0} → (V → W) → Option V → Option W
map_option g none = none
map_option g (some v) = some (g v)

abbrev pub map_pairs : {V W : Type 0} → (V → W) → List (ℕ × V) → List (ℕ × W)
map_pairs g [] = []
map_pairs g ((k, v) ∷ rest) = (k, g v) ∷ map_pairs g rest

Among-map_pairs :
    {V W : Type 0} (g : V → W) (k : ℕ) (w : W) (xs : List (ℕ × V))
    → Among (k, w) (map_pairs g xs)
    → (v : V) × Among (k, v) xs × (w ≡ g v)
Among-map_pairs g k w [] h = absurd h
Among-map_pairs g k w ((j, v) ∷ rest) h = elim h [
  | inl p ↦ (v, inl (ap (λ t. (t.0, v)) p), ap (λ t. t.1) p)
  | inr p ↦ let later = Among-map_pairs g k w rest p in (later.0, inr later.1, later.2)
]

map_pairs-Among :
    {V W : Type 0} (g : V → W) (k : ℕ) (v : V) (xs : List (ℕ × V))
    → Among (k, v) xs
    → Among (k, g v) (map_pairs g xs)
map_pairs-Among g k v [] h = absurd h
map_pairs-Among g k v ((j, w) ∷ rest) h = elim h [
  | inl p ↦ inl (ap (λ t. (t.0, g t.1)) p)
  | inr p ↦ inr (map_pairs-Among g k v rest p)
]

module _ (P : ProtoMap) where
  -- for (const auto& [k, v] : m) out[k] = g(v), of an `out` that was empty
  unfoldable pub take : {V W : Type 0} → (V → W) → P.Map V → OrderedMap ℕ W
  unfolding assign_all
  take g m = assign_all (map_pairs g (P.items m)) []

  -- for (const auto& [k, a] : xs) the assignment of what `f` makes of `a` and of m[k]
  unfoldable pub fill : {A V : Type 0} → (A → Option V → V) → OrderedMap ℕ A → P.Map V → P.Map V
  fill f [] m = m
  fill f ((k, a) ∷ rest) m = fill f rest (P.put k (f a (P.find k m)) m)

  pub take-IsSorted : {V W : Type 0} (g : V → W) (m : P.Map V) → IsSorted (take g m)
  unfolding take
  take-IsSorted g m = assign_all-IsSorted (map_pairs g (P.items m)) [] tt

  lookup-take :
      {V W : Type 0} (g : V → W) (k : ℕ) (m : P.Map V)
      → lookup k (take g m) ≡ map_option g (P.find k m)
  unfolding take
  lookup-take g k m = elim (filled k (map_pairs g (P.items m)) []) [
    | taken w e h ↦
        let from = Among-map_pairs g k w (P.items m) h in
        e ∙ ap some from.2 ∙ sym (ap (map_option g) (P.items_found k from.0 m from.1))
    | kept e h ↦ elim (Option-cases (P.find k m)) [
      | inl p ↦ e ∙ unfold lookup in sym (ap (map_option g) p)
      | inr p ↦ absurd (h (g p.0) (map_pairs-Among g k p.0 (P.items m) (P.found_items k p.0 m p.1)))
    ]
  ]

  module _ {A V : Type 0} (f : A → Option V → V) where
    fresh_after :
        (j : ℕ) (a : A) (rest : OrderedMap ℕ A) (m : P.Map V)
        → Above j rest
        → ((i : ℕ) (b : A) → lookup i ((j, a) ∷ rest) ≡ some b → P.find i m ≡ none)
        → (i : ℕ) (b : A) → lookup i rest ≡ some b
        → P.find i (P.put j (f a (P.find j m)) m) ≡ none
    fresh_after j a rest m s fresh i b e = elim (==-cases i j) [
      | inl p ↦ absurd (ground (arith, lookup-Above j rest s, e, p))
      | inr p ↦
          P.find-put_ne i j (f a (P.find j m)) m p ∙ fresh i b (lookup-cons_ne i j a rest p s ∙ e)
    ]

    find-fill :
        (xs : OrderedMap ℕ A) (m : P.Map V) (k : ℕ)
        → IsSorted xs
        → ((i : ℕ) (a : A) → lookup i xs ≡ some a → P.find i m ≡ none)
        → P.find k (fill f xs m) ≡ or_else (map_option (λ a. f a none) (lookup k xs)) (P.find k m)
    unfolding fill
    find-fill [] m k s fresh = unfold lookup in refl
    find-fill ((j, a) ∷ rest) m k s fresh =
        let m' = P.put j (f a (P.find j m)) m in
        let unset : P.find j m ≡ none = fresh j a (lookup-cons_self j a rest) in
        let later =
          find-fill rest m' k (Above-IsSorted j rest s) (fresh_after j a rest m s fresh) in
        elim (==-cases k j) [
          | inl e ↦
              later
              ∙ rw (e, lookup-Above j rest s, lookup-cons_self j a rest)
                  (P.find-put_self j (f a (P.find j m)) m ∙ rw unset refl)
          | inr h ↦
              later
              ∙ rw (lookup-cons_ne k j a rest h s, P.find-put_ne k j (f a (P.find j m)) m h) refl
        ]

  -- A map that is put into a message and taken out again is the same, when each value is.
  pub take-fill :
      {A V : Type 0} (f : A → Option V → V) (g : V → A) (xs : OrderedMap ℕ A)
      → IsSorted xs
      → ((k : ℕ) (a : A) → lookup k xs ≡ some a → g (f a none) ≡ a)
      → take g (fill f xs P.empty) ≡ xs
  take-fill {A = A} f g xs s back =
      ext (take g (fill f xs P.empty)) xs (take-IsSorted g (fill f xs P.empty)) s (λ k.
        lookup-take g k (fill f xs P.empty)
        ∙ ap (map_option g) (
            find-fill f xs P.empty k s (λ i a e. P.find_empty i)
            ∙ ap (or_else (map_option (λ a. f a none) (lookup k xs))) (P.find_empty k)
            ∙ or_else-none (map_option (λ a. f a none) (lookup k xs)))
        ∙ same_value k (lookup k xs) (λ a e. back k a e))
    where
      same_value :
          (k : ℕ) (o : Option A)
          → ((a : A) → o ≡ some a → g (f a none) ≡ a)
          → map_option g (map_option (λ a. f a none) o) ≡ o
      same_value k none h = refl
      same_value k (some a) h = ap some (h a refl)
