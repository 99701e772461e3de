-- ===== src/Url/Numbers.antt =====
-- A printed number, as the text of a url, and what std::stoul makes of it.
use cashmere.Base.{
  ℕ, zero, suc, ◌/◌, ◌%◌, ◌^◌, ◌<◌, ◌≡◌, ◌≢◌, ◌⊎◌, refl, sym, ap, ◌∙◌, true, false, List, [], ◌∷◌,
  ◌++◌, arith, ◌==◌, ltb, Bool-cases, inl, inr,
}
use cashmere.Text.{digit_char, digits_in, skip_space, sign_in, print_from, print_u64, u64_max}
use cashmere.Text.Numbers.{IsBase, digits_in-print_from, print_from_head}
use cashmere.Command.{ok}
use cashmere.Url.{after_0x, stoul}
use cashmere.Url.Search.{Lacks}

module _ (base : ℕ) where
  print_from-append :
      (fuel n : ℕ) (xs out : List ℕ)
      → print_from base fuel n (xs ++ out) ≡ print_from base fuel n xs ++ out
  unfolding print_from
  print_from-append zero n xs out = refl
  print_from-append (suc fuel) n xs out = elim (Bool-cases (ltb n base)) [
    | inl p ↦ rw p refl
    | inr p ↦ rw p (print_from-append fuel (n / base) (digit_char (n % base) ∷ xs) out)
  ]

  pub print_u64-append : (n : ℕ) (out : List ℕ) → print_u64 base n out ≡ print_u64 base n [] ++ out
  unfolding print_u64
  print_u64-append n out = print_from-append (suc n) n [] out

  -- The text of a number has digits only.
  print_from-Lacks :
      (c fuel n : ℕ) (out : List ℕ)
      → ((d : ℕ) → digit_char d ≢ c)
      → Lacks c out
      → Lacks c (print_from base fuel n out)
  unfolding print_from
  print_from-Lacks c zero n out h k = k
  print_from-Lacks c (suc fuel) n out h k = elim (Bool-cases (ltb n base)) [
    | inl p ↦ rw p (h n, k)
    | inr p ↦
        rw p (print_from-Lacks c fuel (n / base) (digit_char (n % base) ∷ out) h (h (n % base), k))
  ]

  pub print_u64-Lacks : (c n : ℕ) → ((d : ℕ) → digit_char d ≢ c) → Lacks c (print_u64 base n [])
  unfolding print_u64
  print_u64-Lacks c n h = print_from-Lacks c (suc n) n [] h tt

  module _ (b : IsBase base) where
    skip_digit :
        (d : ℕ) (tail : List ℕ) → d < base → skip_space (digit_char d ∷ tail) ≡ digit_char d ∷ tail
    unfolding skip_space
    skip_digit d tail h = ground (arith, b.small)

    sign_digit :
        (d : ℕ) (tail : List ℕ)
        → d < base
        → sign_in (digit_char d ∷ tail) ≡ (false, digit_char d ∷ tail)
    unfolding sign_in
    sign_digit d tail h = ground (arith, b.small)

    no_0x :
        (d : ℕ) (tail : List ℕ)
        → d < base
        → (0 < d) ⊎ (tail ≡ [])
        → after_0x base (digit_char d ∷ tail) ≡ digit_char d ∷ tail
    unfolding after_0x
    no_0x d [] h first = refl
    no_0x d (x ∷ []) h first = refl
    no_0x d (x ∷ y ∷ tail) h first = elim first [
      | inl p ↦
          let digit : (digit_char d == b'0') ≡ false = ground (arith, b.small) in
          elim (Bool-cases (base == 16)) [ inl q ↦ rw (q, digit) refl | inr q ↦ rw q refl ]
      | inr e ↦ absurd (cc)
    ]

    pub stoul-print_u64 : (n : ℕ) → n < 2 ^ 64 → stoul base (print_u64 base n []) ≡ ok n
    unfolding stoul print_u64
    stoul-print_u64 n fits =
        let (d, tail, shape, below, first) = print_from_head base b (suc n) n [] (omega arith) in
        let lead : (0 < d) ⊎ (tail ≡ []) = elim first [ inl p ↦ inl p | inr z ↦ inr z.1 ] in
        let read : digits_in base (digit_char d ∷ tail) 0 false ≡ (n, true, []) =
          ap (λ t. digits_in base t 0 false) (sym shape)
          ∙ digits_in-print_from base b (suc n) n [] false (omega arith) in
        let room : ltb u64_max n ≡ false = ground arith in
        rw
          (
            shape,
            skip_digit d tail below,
            sign_digit d tail below,
            no_0x d tail below lead,
            read,
            room,
          )
          refl
