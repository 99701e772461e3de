-- ===== src/Files/Names.antt =====
-- Devices have different files.
use cashmere.Base.{
  ℕ, zero, suc, ◌-◌, ◌≡◌, ◌↔◌, refl, sym, ap, ◌∙◌, true, List, [], ◌∷◌, ◌++◌, length, arith, ◌==◌,
  Bool-cases, inl, inr, ==_iff,
}
use cashmere.Text.{digits_in, digit_of, print_u64}
use cashmere.Text.Numbers.{hex-IsBase, digits_in-print_from}
use cashmere.Files.{FilePath, path_eq, zeros, padded, directory, filename}

pub path_eq_iff : (a b : FilePath) → (path_eq a b ≡ true) ↔ (a ≡ b)
unfolding path_eq
path_eq_iff [] [] = ground arith
path_eq_iff [] (y ∷ ys) = ground arith
path_eq_iff (x ∷ xs) [] = ground arith
path_eq_iff (x ∷ xs) (y ∷ ys) = ground (arith, path_eq_iff xs ys)

digits_in-zeros :
    (n : ℕ) (text : List ℕ) → digits_in 16 (zeros n text) 0 true ≡ digits_in 16 text 0 true
unfolding digits_in digit_of
digits_in-zeros zero text = refl
digits_in-zeros (suc n) text = digits_in-zeros n text

-- The digits of a file's name stand for the id.
value-padded : (id : ℕ) → digits_in 16 (padded id) 0 true ≡ (id, true, [])
unfolding padded
value-padded id =
    digits_in-zeros (16 - length (print_u64 16 id [])) (print_u64 16 id [])
    ∙ unfold print_u64 in
      digits_in-print_from 16 hex-IsBase (suc id) id [] true (omega arith)
      ∙ unfold digits_in in refl

append_cancel : (xs ys zs : List ℕ) → xs ++ ys ≡ xs ++ zs → ys ≡ zs
append_cancel [] ys zs e = e
append_cancel (x ∷ xs) ys zs e = append_cancel xs ys zs (cc)

-- Different ids have different files.
pub filename_injective : (base : FilePath) (i j : ℕ) → filename base i ≡ filename base j → i ≡ j
unfolding filename
filename_injective base i j e =
    let same : padded i ≡ padded j = append_cancel (directory base) (padded i) (padded j) e in
    ap (λ t. t.0) (sym (value-padded i) ∙ ap (λ t. digits_in 16 t 0 true) same ∙ value-padded j)

-- Filename gives two devices the same file exactly when their ids are the same.
pub path_eq-filename :
    (base : FilePath) (i j : ℕ) → path_eq (filename base i) (filename base j) ≡ (i == j)
path_eq-filename base i j = elim (Bool-cases (path_eq (filename base i) (filename base j))) [
  | inl same ↦
      let e =
        filename_injective base i j ((path_eq_iff (filename base i) (filename base j)).0 same) in
      same ∙ sym ((==_iff i j).1 e)
  | inr apart ↦ elim (Bool-cases (i == j)) [
    | inl e ↦ absurd (
        ground (
          arith,
          apart,
          (path_eq_iff (filename base i) (filename base j)).1
              (ap (filename base) ((==_iff i j).0 e)),
        ))
    | inr e ↦ apart ∙ sym e
  ]
]
