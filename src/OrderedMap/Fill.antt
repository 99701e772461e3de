-- ===== src/OrderedMap/Fill.antt =====
-- Maps that are filled by assigning the pairs of another.
use cashmere.Base.{
  ◌≡◌, ◌≢◌, refl, sym, subst, ◌∙◌, true, List, [], ◌∷◌, or_else, or_else-none, arith,
}
use cashmere.OrderedMap.{Order, OrderedMap, lookup, assign, assign_all, Above, IsSorted}
use cashmere.OrderedMap.Laws.{
  before, same, after, compare_keys, lookup-assign_self, lookup-assign_ne, assign-IsSorted,
  lookup-Above, lookup-lt_Above, Above-IsSorted, ext,
}

module _ {ℓ} {K : Type ℓ} ⦃o : Order K⦄ where
  ne_of_lt : (a b : K) → o.lt a b ≡ true → a ≢ b
  ne_of_lt a b p e = absurd (ground (arith, p, o.lt_irrefl b, subst (λ x. o.lt x b ≡ true) e p))

module _ {ℓ κ} {K : Type ℓ} {V : Type κ} ⦃o : Order K⦄ where
  fill_round :
      (i k : K) (v : V) (rest out : OrderedMap K V)
      → Above k rest
      → or_else (lookup i rest) (lookup i (assign k v out))
        ≡ or_else (lookup i ((k, v) ∷ rest)) (lookup i out)
  fill_round i k v rest out a = elim (compare_keys i k) [
    | before p q ↦
        rw (lookup-lt_Above i k rest p a, lookup-assign_ne i k v out (ne_of_lt i k p))
          (unfold lookup in rw p refl)
    | same e p q ↦
        rw (e, lookup-Above k rest a, lookup-assign_self k v out)
          (unfold lookup in rw (o.lt_irrefl k) refl)
    | after p q ↦
        rw (lookup-assign_ne i k v out (λ e. ne_of_lt k i p (sym e)))
          (unfold lookup in rw (q, p) refl)
  ]

  lookup-assign_all :
      (i : K) (m out : OrderedMap K V)
      → IsSorted m
      → lookup i (assign_all m out) ≡ or_else (lookup i m) (lookup i out)
  unfolding assign_all
  lookup-assign_all i [] out s = unfold lookup in refl
  lookup-assign_all i ((k, v) ∷ rest) out s =
      lookup-assign_all i rest (assign k v out) (Above-IsSorted k rest s)
      ∙ fill_round i k v rest out s

  pub assign_all-IsSorted :
      (m : List (K × V)) (out : OrderedMap K V) → IsSorted out → IsSorted (assign_all m out)
  unfolding assign_all
  assign_all-IsSorted [] out s = s
  assign_all-IsSorted ((k, v) ∷ rest) out s =
      assign_all-IsSorted rest (assign k v out) (assign-IsSorted k v out s)

  -- Assigning the pairs of a map, in order, to an empty map copies it.
  pub assign_all-nil : (m : OrderedMap K V) → IsSorted m → assign_all m [] ≡ m
  assign_all-nil m s =
      ext (assign_all m []) m (assign_all-IsSorted m [] tt) s
        (λ i. lookup-assign_all i m [] s ∙ unfold lookup in or_else-none (lookup i m))
