-- ===== src/OrderedMap/Laws.antt =====
-- The laws of `std::map` that the components use.
use cashmere.Base.{
  subst, ◌≢◌, ◌≡◌, refl, sym, ◌∙◌, inl, inr, true, false, [], ◌∷◌, none, some, arith, Bool-cases,
}
use cashmere.OrderedMap.{Order, OrderedMap, lookup, assign, emplace, Above, IsSorted}

module _ {ℓ} {K : Type ℓ} ⦃o : Order K⦄ where
  -- Exactly one of the three holds of two keys.
  pub data Comparison (a b : K) : Type ℓ where
    before : o.lt a b ≡ true → o.lt b a ≡ false → Comparison a b
    same : a ≡ b → o.lt a b ≡ false → o.lt b a ≡ false → Comparison a b
    after : o.lt b a ≡ true → o.lt a b ≡ false → Comparison a b

  pub lt_asymm : (a b : K) → o.lt a b ≡ true → o.lt b a ≡ false
  lt_asymm a b p = elim (Bool-cases (o.lt b a)) [
    | inl q ↦ ground (arith, o.lt_trans a b a p q, o.lt_irrefl a)
    | inr q ↦ q
  ]

  pub compare_keys : (a b : K) → Comparison a b
  compare_keys a b = elim (Bool-cases (o.lt a b)) [
    | inl p ↦ before p (lt_asymm a b p)
    | inr p ↦ elim (Bool-cases (o.lt b a)) [
      | inl q ↦ after q p
      | inr q ↦ same (o.lt_total a b p q) p q
    ]
  ]

module _ {ℓ κ} {K : Type ℓ} {V : Type κ} ⦃o : Order K⦄ where
  pub lookup-assign_self : (k : K) (v : V) (m : OrderedMap K V) → lookup k (assign k v m) ≡ some v
  unfolding lookup assign
  lookup-assign_self k v [] = ground (arith, o.lt_irrefl k)
  lookup-assign_self k v ((j, w) ∷ m) = ground (arith, o.lt_irrefl k, lookup-assign_self k v m)

  pub lookup-assign_ne :
      (i k : K) (v : V) (m : OrderedMap K V) → i ≢ k → lookup i (assign k v m) ≡ lookup i m
  unfolding lookup assign
  lookup-assign_ne i k v [] h = elim (compare_keys i k) [
    | before p q ↦ rw (p)
    | same e p q ↦ absurd (h e)
    | after p q ↦ rw (q, p)
  ]
  lookup-assign_ne i k v ((j, w) ∷ m) h = elim (compare_keys k j) [
    | before p q ↦ elim (compare_keys i k) [
      | before p' q' ↦ ground (arith, o.lt_trans i k j p' p)
      | same e _ _ ↦ absurd (h e)
      | after p' q' ↦ ground arith
    ]
    | same e p q ↦ elim (compare_keys i k) [
      | before p' q' ↦ ground arith
      | same e _ _ ↦ absurd (h e)
      | after p' q' ↦ ground arith
    ]
    | after p q ↦ ground (arith, lookup-assign_ne i k v m h)
  ]

  pub lookup-emplace_self :
      (k : K) (v : V) (m : OrderedMap K V)
      → lookup k (emplace k v m) ≡ elim (lookup k m) [ none ↦ some v | some w ↦ some w ]
  unfolding lookup emplace
  lookup-emplace_self k v [] = ground (arith, o.lt_irrefl k)
  lookup-emplace_self k v ((j, w) ∷ m) = ground (arith, o.lt_irrefl k, lookup-emplace_self k v m)

  pub lookup-emplace_ne :
      (i k : K) (v : V) (m : OrderedMap K V) → i ≢ k → lookup i (emplace k v m) ≡ lookup i m
  unfolding lookup emplace
  lookup-emplace_ne i k v [] h = elim (compare_keys i k) [
    | before p q ↦ rw p
    | same e p q ↦ absurd (h e)
    | after p q ↦ rw (q, p)
  ]
  lookup-emplace_ne i k v ((j, w) ∷ m) h = elim (compare_keys k j) [
    | before p q ↦ elim (compare_keys i k) [
      | before p' q' ↦ ground (arith, o.lt_trans i k j p' p)
      | same e _ _ ↦ absurd (h e)
      | after p' q' ↦ ground arith
    ]
    | same e p q ↦ rw (p, q)
    | after p q ↦ ground (arith, lookup-emplace_ne i k v m h)
  ]

  pub Above-IsSorted : (k : K) (m : OrderedMap K V) → Above k m → IsSorted m
  Above-IsSorted k [] a = tt
  Above-IsSorted k ((j, w) ∷ m) a = a.1

  pub Above-mono : (i k : K) (m : OrderedMap K V) → o.lt i k ≡ true → Above k m → Above i m
  Above-mono i k [] p a = tt
  Above-mono i k ((j, w) ∷ m) p a = (o.lt_trans i k j p a.0, a.1)

  assign-Above :
      (i k : K) (v : V) (m : OrderedMap K V) → o.lt i k ≡ true → Above i m → Above i (assign k v m)
  unfolding assign
  assign-Above i k v [] p a = (p, tt)
  assign-Above i k v ((j, w) ∷ m) p a = elim (compare_keys k j) [
    | before q r ↦ rw q (p, (q, a.1))
    | same e q r ↦ rw (q, r) (p, subst (λ x. Above x m) (sym e) a.1)
    | after q r ↦ rw (r, q) (a.0, assign-Above j k v m q a.1)
  ]

  pub assign-IsSorted : (k : K) (v : V) (m : OrderedMap K V) → IsSorted m → IsSorted (assign k v m)
  unfolding assign
  assign-IsSorted k v [] s = tt
  assign-IsSorted k v ((j, w) ∷ m) s = elim (compare_keys k j) [
    | before q r ↦ rw q (q, s)
    | same e q r ↦ rw (q, r) (subst (λ x. Above x m) (sym e) s)
    | after q r ↦ rw (r, q) (assign-Above j k v m q s)
  ]

  pub lookup-Above : (k : K) (m : OrderedMap K V) → Above k m → lookup k m ≡ none
  unfolding lookup
  lookup-Above k [] a = refl
  lookup-Above k ((j, w) ∷ m) a = rw a.0

  pub lookup-lt_Above :
      (i k : K) (m : OrderedMap K V) → o.lt i k ≡ true → Above k m → lookup i m ≡ none
  lookup-lt_Above i k m p a = lookup-Above i m (Above-mono i k m p a)

  -- Under a key that is above all of `k`'s, two maps agree on what is behind `k`.
  tails_agree :
      (k : K) (v w : V) (m n : OrderedMap K V)
      → Above k m
      → Above k n
      → ((i : K) → lookup i ((k, v) ∷ m) ≡ lookup i ((k, w) ∷ n))
      → (i : K) → lookup i m ≡ lookup i n
  unfolding lookup
  tails_agree k v w m n a b h i = elim (compare_keys i k) [
    | before p q ↦ lookup-lt_Above i k m p a ∙ sym (lookup-lt_Above i k n p b)
    | same e p q ↦
        subst (λ x. lookup x m ≡ lookup x n) (sym e) (lookup-Above k m a ∙ sym (lookup-Above k n b))
    | after p q ↦ ground (arith, h i)
  ]

  ext_same :
      (k : K) (v w : V) (m n : OrderedMap K V)
      → Above k m
      → (((i : K) → lookup i m ≡ lookup i n) → m ≡ n)
      → Above k n
      → ((i : K) → lookup i ((k, v) ∷ m) ≡ lookup i ((k, w) ∷ n))
      → (k, v) ∷ m ≡ (k, w) ∷ n
  unfolding lookup
  ext_same k v w m n a rest b h =
      let values : v ≡ w = ground (arith, h k, o.lt_irrefl k) in
      cc (values, rest (tails_agree k v w m n a b h))

  -- Two sorted maps with the same entries are one.
  pub ext :
      (m n : OrderedMap K V) → IsSorted m → IsSorted n → ((i : K) → lookup i m ≡ lookup i n) → m ≡ n
  unfolding lookup
  ext [] [] s t h = refl
  ext [] ((k, v) ∷ n) s t h = absurd (ground (arith, h k, o.lt_irrefl k))
  ext ((k, v) ∷ m) [] s t h = absurd (ground (arith, h k, o.lt_irrefl k))
  ext ((k, v) ∷ m) ((j, w) ∷ n) s t h = elim (compare_keys k j) [
    | before p q ↦ absurd (ground (arith, h k, o.lt_irrefl k))
    | same e p q ↦
        subst
          (λ x.
            Above x n
            → ((i : K) → lookup i ((k, v) ∷ m) ≡ lookup i ((x, w) ∷ n))
            → (k, v) ∷ m ≡ (x, w) ∷ n)
          e (ext_same k v w m n s (λ f. ext m n (Above-IsSorted k m s) (Above-IsSorted j n t) f)) t
          h
    | after p q ↦ absurd (ground (arith, h j, o.lt_irrefl j))
  ]
