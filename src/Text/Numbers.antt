-- ===== src/Text/Numbers.antt =====
-- A number that is printed is read back.
use native.Mathlib.Nat.{div-add-mod', mod-lt}
use cashmere.Base.{
  ℕ, zero, suc, ◌+◌, ◌*◌, ◌/◌, ◌%◌, ◌^◌, ◌≤◌, ◌<◌, ◌≡◌, ◌≢◌, ◌⊎◌, refl, sym, ap, ◌∙◌, Bool, true,
  false, List, [], ◌∷◌, none, some, ltb, Bool-cases, inl, inr, arith,
}
use cashmere.Base.Int.{ℤ, pos, negsuc, pos_part, neg_part}
use cashmere.Text.{
  i64_of, read_i64, print_i64, space, fresh, skip_space, digit_of, digits_in, sign_in, prefix_in,
  scan, u64_of, read_u64, digit_char, print_from, print_u64,
}

digit_of-digit_char : (base d : ℕ) → base ≤ 16 → d < base → digit_of base (digit_char d) ≡ some d
unfolding digit_of
digit_of-digit_char base d small h = ground arith

-- A base in which division by the base makes a number smaller.
pub record IsBase (base : ℕ) : Type 0 where
  pub small : base ≤ 16
  pub big : 2 ≤ base
  pub shrinks : (n : ℕ) → base ≤ n → n / base < n

pub decimal-IsBase : IsBase 10
decimal-IsBase = record { small = omega arith; big = omega arith; shrinks = λ n h. omega arith }

pub hex-IsBase : IsBase 16
hex-IsBase = record { small = omega arith; big = omega arith; shrinks = λ n h. omega arith }

module _ (base : ℕ) (b : IsBase base) where
  digits_in_digit :
      (d : ℕ) (rest : List ℕ) (value : ℕ) (found : Bool)
      → d < base
      → digits_in base (digit_char d ∷ rest) value found
        ≡ digits_in base rest (value * base + d) true
  unfolding digits_in
  digits_in_digit d rest value found h = rw (digits_in, digit_of-digit_char base d b.small h) refl

  pub digits_in-print_from :
      (fuel n : ℕ) (out : List ℕ) (found : Bool)
      → n < fuel
      → digits_in base (print_from base fuel n out) 0 found ≡ digits_in base out n true
  unfolding print_from
  digits_in-print_from zero n out found h = absurd (omega arith)
  digits_in-print_from (suc fuel) n out found h = elim (Bool-cases (ltb n base)) [
    | inl small ↦ rw small (
        digits_in_digit n out 0 found (ground arith)
        ∙ ap (λ v. digits_in base out v true) (omega arith))
    | inr large ↦ rw large (
        digits_in-print_from fuel (n / base) (digit_char (n % base) ∷ out) found
          (omega (arith, b.shrinks n (ground arith)))
        ∙ digits_in_digit (n % base) out (n / base) true (mod-lt n (omega (arith, b.big)))
        ∙ ap (λ v. digits_in base out v true) (div-add-mod' n base))
  ]

  quotient_pos : (n : ℕ) → base ≤ n → n / base ≢ 0
  quotient_pos n h e = absurd (
      omega (
        arith,
        div-add-mod' n base,
        mod-lt n {m = base} (omega (arith, b.big)),
        ap (λ (q : ℕ). q * base) e,
      ))

  -- The first digit of a number is 0 only for 0.
  pub print_from_head :
      (fuel n : ℕ) (out : List ℕ)
      → n < fuel
      → (d : ℕ) × (tail : List ℕ) × (print_from base fuel n out ≡ digit_char d ∷ tail)
        × (d < base)
        × ((0 < d) ⊎ ((n ≡ 0) × (tail ≡ out)))
  unfolding print_from
  print_from_head zero n out h = absurd (omega arith)
  print_from_head (suc fuel) n out h = elim (Bool-cases (ltb n base)) [
    | inl small ↦ rw small (n, out, refl, ground arith, first_digit n)
    | inr large ↦
        let first =
          print_from_head fuel (n / base) (digit_char (n % base) ∷ out)
            (omega (arith, b.shrinks n (ground arith))) in
        rw large (
          first.0,
          first.1,
          first.2,
          first.3,
          elim first.4 [ inl p ↦ inl p | inr z ↦ absurd (quotient_pos n (ground arith) z.0) ],
        )
  ]
    where
      first_digit : (n : ℕ) → (0 < n) ⊎ ((n ≡ 0) × (out ≡ out))
      first_digit zero = inr (refl, refl)
      first_digit (suc n) = inl (omega arith)

  scanned :
      (d : ℕ) (tail : List ℕ) (c : ℕ) (rest : List ℕ) (value : ℕ)
      → d < base
      → (0 < d) ⊎ (tail ≡ c ∷ rest)
      → c ≢ b'x'
      → c ≢ b'X'
      → digits_in base (digit_char d ∷ tail) 0 false ≡ (value, true, c ∷ rest)
      → scan base (digit_char d ∷ tail) ≡ (false, value, true, c ∷ rest)
  unfolding scan sign_in prefix_in
  scanned d [] c rest value h first x X e = ground (arith, b.small, e)
  scanned d (c' ∷ tail) c rest value h first x X e = ground (arith, b.small, e)

  digits_in_stop :
      (c : ℕ) (rest : List ℕ) (value : ℕ)
      → digit_of base c ≡ none
      → digits_in base (c ∷ rest) value true ≡ (value, true, c ∷ rest)
  unfolding digits_in
  digits_in_stop c rest value stop = rw (digits_in, stop) refl

  -- Of a number that is printed before a character that cannot go on with it, the scan finds the
  -- value and stops at that character.
  scan-print_u64 :
      (n c : ℕ) (rest : List ℕ)
      → digit_of base c ≡ none
      → c ≢ b'x'
      → c ≢ b'X'
      → (d : ℕ) × (tail : List ℕ) × (print_u64 base n (c ∷ rest) ≡ digit_char d ∷ tail)
        × (d < base)
        × (scan base (digit_char d ∷ tail) ≡ (false, n, true, c ∷ rest))
  unfolding print_u64
  scan-print_u64 n c rest stop x X =
      let first = print_from_head (suc n) n (c ∷ rest) (omega arith) in
      let read : digits_in base (digit_char first.0 ∷ first.1) 0 false ≡ (n, true, c ∷ rest) =
        ap (λ t. digits_in base t 0 false) (sym first.2)
        ∙ digits_in-print_from (suc n) n (c ∷ rest) false (omega arith)
        ∙ digits_in_stop c rest n stop in
      (
        first.0,
        first.1,
        first.2,
        first.3,
        scanned first.0 first.1 c rest n first.3 (elim first.4 [ inl p ↦ inl p | inr z ↦ inr z.1 ])
            x X read,
      )

  skip_digit :
      (d : ℕ) (tail : List ℕ) → d < base → skip_space (digit_char d ∷ tail) ≡ digit_char d ∷ tail
  unfolding skip_space
  skip_digit d tail h = ground (arith, b.small)

  read_scan :
      (old c : ℕ) (tail : List ℕ)
      → skip_space (c ∷ tail) ≡ c ∷ tail
      → read_u64 base old (fresh (c ∷ tail)) ≡ u64_of (scan base (c ∷ tail))
  unfolding read_u64
  read_scan old c tail h = rw (skip_space, h) refl

  in_range :
      (n : ℕ) (rest : List ℕ) (c : ℕ)
      → n < 2 ^ 64
      → u64_of (false, n, true, c ∷ rest) ≡ (n, fresh (c ∷ rest))
  in_range n rest c h = ground arith

  -- A `uint64_t` that is printed, in base 10 or 16, is read back, if what follows cannot go on with
  -- it, and what follows is left unread.
  pub read_u64-print_u64 :
      (old n c : ℕ) (rest : List ℕ)
      → n < 2 ^ 64
      → digit_of base c ≡ none
      → c ≢ b'x'
      → c ≢ b'X'
      → read_u64 base old (fresh (print_u64 base n (c ∷ rest))) ≡ (n, fresh (c ∷ rest))
  read_u64-print_u64 old n c rest fits stop x X =
      let (d, tail, printed, small, read) = scan-print_u64 n c rest stop x X in
      ap (λ t. read_u64 base old (fresh t)) printed
      ∙ read_scan old (digit_char d) tail (skip_digit d tail small)
      ∙ ap u64_of read
      ∙ in_range n rest c fits

  pub read_u64-space :
      (old : ℕ) (text : List ℕ)
      → read_u64 base old (fresh (space ∷ text)) ≡ read_u64 base old (fresh text)
  unfolding read_u64 skip_space
  read_u64-space old text = refl

-- What fits an `int64_t`.
abbrev pub IsI64 : ℤ → Type 0
IsI64 x = (pos_part x < 2 ^ 63) × (neg_part x ≤ 2 ^ 63)

read_scan_i64 :
    (old : ℤ) (text : List ℕ)
    → skip_space text ≡ text
    → text ≢ []
    → read_i64 old (fresh text) ≡ i64_of (scan 10 text)
unfolding read_i64
read_scan_i64 old [] h ne = absurd (ne refl)
read_scan_i64 old (c ∷ rest) h ne = rw (skip_space, h) refl

pos_in_range :
    (n c : ℕ) (rest : List ℕ)
    → n < 2 ^ 63
    → i64_of (false, n, true, c ∷ rest) ≡ (pos n, fresh (c ∷ rest))
pos_in_range n c rest h = ground arith

neg_in_range :
    (n c : ℕ) (rest : List ℕ)
    → n + 1 ≤ 2 ^ 63
    → i64_of (true, n + 1, true, c ∷ rest) ≡ (negsuc n, fresh (c ∷ rest))
neg_in_range n c rest h = ground arith

minus_scan :
    (d : ℕ) (tail : List ℕ) (value : ℕ) (rest : List ℕ)
    → d < 10
    → scan 10 (digit_char d ∷ tail) ≡ (false, value, true, rest)
    → scan 10 (b'-' ∷ digit_char d ∷ tail) ≡ (true, value, true, rest)
unfolding scan sign_in
minus_scan d tail value rest h e = ground (arith, e)

-- An `int64_t` that is printed is read back, if what follows is no digit.
pub read_i64-print_i64 :
    (old x : ℤ) (c : ℕ) (rest : List ℕ)
    → IsI64 x
    → digit_of 10 c ≡ none
    → c ≢ b'x'
    → c ≢ b'X'
    → read_i64 old (fresh (print_i64 x (c ∷ rest))) ≡ (x, fresh (c ∷ rest))
unfolding print_i64
read_i64-print_i64 old (pos n) c rest fits stop x X =
    let (d, tail, printed, small, read) = scan-print_u64 10 decimal-IsBase n c rest stop x X in
    ap (λ t. read_i64 old (fresh t)) printed
    ∙ read_scan_i64 old (digit_char d ∷ tail) (skip_digit 10 decimal-IsBase d tail small) (cc)
    ∙ ap i64_of read
    ∙ pos_in_range n c rest fits.0
read_i64-print_i64 old (negsuc n) c rest fits stop x X =
    let (d, tail, printed, small, read) =
      scan-print_u64 10 decimal-IsBase (n + 1) c rest stop x X in
    ap (λ t. read_i64 old (fresh (b'-' ∷ t))) printed
    ∙ read_scan_i64 old (b'-' ∷ digit_char d ∷ tail) (unfold skip_space in refl) (cc)
    ∙ ap i64_of (minus_scan d tail (n + 1) (c ∷ rest) small read)
    ∙ neg_in_range n c rest (omega (arith, fits.1))

pub read_i64-space :
    (old : ℤ) (text : List ℕ) → read_i64 old (fresh (space ∷ text)) ≡ read_i64 old (fresh text)
unfolding read_i64 skip_space
read_i64-space old text = refl
