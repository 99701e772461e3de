-- ===== src/OrderedMap.antt =====
-- `std::map`: the entries in the order of their keys, each key once. The interface `Order` is what
-- the container takes of `std::less`: a strict total order. Equality of keys is incomparability.
pub mod Laws
pub mod Fill
use cashmere.Base.{
  ℕ, ◌≡◌, Bool, true, false, List, [], ◌∷◌, Option, none, some, arith, ltb, if◌then◌else◌,
}

pub record Order {ℓ} (K : Type ℓ) : Type ℓ where
  pub lt : K → K → Bool
  pub lt_irrefl : (a : K) → lt a a ≡ false
  pub lt_trans : (a b c : K) → lt a b ≡ true → lt b c ≡ true → lt a c ≡ true
  pub lt_total : (a b : K) → lt a b ≡ false → lt b a ≡ false → a ≡ b

pub ltb_irrefl : (a : ℕ) → ltb a a ≡ false
ltb_irrefl a = ground arith

pub ltb_trans : (a b c : ℕ) → ltb a b ≡ true → ltb b c ≡ true → ltb a c ≡ true
ltb_trans a b c p q = ground arith

pub ltb_total : (a b : ℕ) → ltb a b ≡ false → ltb b a ≡ false → a ≡ b
ltb_total a b p q = ground arith

instance abbrev pub nat_order : Order ℕ
nat_order = record { lt = ltb; lt_irrefl = ltb_irrefl; lt_trans = ltb_trans; lt_total = ltb_total }

abbrev pub OrderedMap {ℓ κ} : Type ℓ → Type κ → Type (ℓ ⊔ κ)
OrderedMap K V = List (K × V)

module _ {ℓ κ} {K : Type ℓ} {V : Type κ} ⦃o : Order K⦄ where
  -- m.find(k)
  unfoldable pub lookup : K → OrderedMap K V → Option V
  lookup k [] = none
  lookup k ((j, w) ∷ m) = if o.lt k j then none else if o.lt j k then lookup k m else some w

  -- m[k] = v
  unfoldable pub assign : K → V → OrderedMap K V → OrderedMap K V
  assign k v [] = (k, v) ∷ []
  assign k v ((j, w) ∷ m) =
      if o.lt k j
      then (k, v) ∷ (j, w) ∷ m
      else if o.lt j k
      then (j, w) ∷ assign k v m
      else (k, v) ∷ m

  -- A loop that assigns pairs, one after the other.
  unfoldable pub assign_all : List (K × V) → OrderedMap K V → OrderedMap K V
  assign_all [] out = out
  assign_all ((k, v) ∷ rest) out = assign_all rest (assign k v out)

  -- m.insert({k, v}), which keeps a value that is there.
  unfoldable pub emplace : K → V → OrderedMap K V → OrderedMap K V
  emplace k v [] = (k, v) ∷ []
  emplace k v ((j, w) ∷ m) =
      if o.lt k j
      then (k, v) ∷ (j, w) ∷ m
      else if o.lt j k
      then (j, w) ∷ emplace k v m
      else (j, w) ∷ m

  -- m.find(k) != m.end()
  abbrev pub contains : K → OrderedMap K V → Bool
  contains k m = elim (lookup k m) [ none ↦ false | some v ↦ true ]

  -- The keys are above `k` and increase.
  abbrev pub Above : K → OrderedMap K V → Type 0
  Above k [] = Unit {0}
  Above k ((j, w) ∷ m) = (o.lt k j ≡ true) × Above j m

  -- What `std::map` maintains of itself.
  abbrev pub IsSorted : OrderedMap K V → Type 0
  IsSorted [] = Unit {0}
  IsSorted ((j, w) ∷ m) = Above j m
