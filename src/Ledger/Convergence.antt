-- ===== src/Ledger/Convergence.antt =====
-- Replicas that receive the same entries in different orders: when their ledgers agree.
use mathlib.Core.List.{Perm, Permᴰ}
use mathlib.Core.Logic.{∥∥₁_elim}
use cashmere.Base.{◌≡◌, refl, sym, subst, ap, ◌∙◌, List, [], ◌∷◌, Option, some}
use cashmere.OrderedMap.{lookup}
use cashmere.Clock.Lexicographic.{clock_order}
use cashmere.Entry.{Entry}
use cashmere.Ledger.{Ledger, empty_ledger, from_entries}
use cashmere.Ledger.Rows.{outcome_row, add_all, add_entries_lem}
use cashmere.Ledger.Balance.{total}
use cashmere.Ledger.Swap.{IsRanked, IsGood, outcome-IsGood, outcome_swap}

abbrev pub All {ℓ κ} : {A : Type ℓ} → (A → Type κ) → List A → Type κ
All P [] = Unit
All P (x ∷ xs) = P x × All P xs

All-permd : (P : Entry → Type 0) {xs ys : List Entry} → Permᴰ xs ys → All P xs → All P ys
All-permd P Permᴰ.nil h = h
All-permd P (Permᴰ.cons e p) h = (subst P e h.0, All-permd P p h.1)
All-permd P (Permᴰ.swap e e') h = (subst P e' h.1.0, (subst P e h.0, h.1.1))
All-permd P (Permᴰ.trans p q) h = All-permd P q (All-permd P p h)

module _ (U : Entry → Type 0) (ranked : IsRanked U) where
  add_all-permd :
      {xs ys : List Entry}
      → Permᴰ xs ys
      → (l : Ledger) → IsGood U l
      → All U xs
      → add_all l xs ≡ add_all l ys
  unfolding add_all
  add_all-permd Permᴰ.nil l g u = refl
  add_all-permd (Permᴰ.cons {a = x} {b = y} {l₂ = ys} e p) l g u =
      add_all-permd p (outcome_row l x) (outcome-IsGood U l x u.0 g) u.1
      ∙ ap (λ z. add_all (outcome_row l z) ys) e
  add_all-permd (Permᴰ.swap {a = x} {b = y} {a' = y'} {l = rest} e e') l g u =
      ap (λ m. add_all m rest) (outcome_swap U ranked l x y g u.0 u.1.0)
      ∙ ap (λ z. add_all (outcome_row (outcome_row l z) x) rest) e'
      ∙ ap (λ z. add_all (outcome_row (outcome_row l y') z) rest) e
  add_all-permd (Permᴰ.trans p q) l g u =
      add_all-permd p l g u ∙ add_all-permd q l g (All-permd U p u)

  empty-IsGood : IsGood U empty_ledger
  empty-IsGood = record {
    sorted = tt;
    summed = unfold total in refl;
    known = λ k. unfold lookup in tt;
  }

  from_entries-permd :
      {xs ys : List Entry} → Permᴰ xs ys → All U xs → from_entries xs ≡ from_entries ys
  unfolding from_entries
  from_entries-permd {xs} {ys} p u =
      add_entries_lem empty_ledger xs
      ∙ ap some (add_all-permd p empty_ledger empty-IsGood u)
      ∙ sym (add_entries_lem empty_ledger ys)

Ledger-set : IsSet (Option Ledger)
Ledger-set = hlevel

-- If `Replaces` ranks all entries of each transaction, that is, orders any two that differ and is
-- transitive on them, then every order of receiving the entries gives one ledger, rows and balance.
pub from_entries-perm :
    (U : Entry → Type 0) (xs ys : List Entry)
    → IsRanked U
    → All U xs
    → Perm xs ys
    → from_entries xs ≡ from_entries ys
from_entries-perm U xs ys ranked u p =
    ∥∥₁_elim p (Ledger-set (from_entries xs) (from_entries ys))
      (λ d. from_entries-permd U ranked d u)
