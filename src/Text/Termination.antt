-- ===== src/Text/Termination.antt =====
-- The loop of Clock::Read ends: every reader leaves at most what it found, and a round of the loop that
-- goes on leaves less.
use cashmere.Base.{
  ℕ, zero, suc, ◌+◌, ◌*◌, ◌≤◌, ◌<◌, ◌≡◌, refl, sym, ap, ◌∙◌, some, Bool, true, false, List, [], ◌∷◌,
  arith, length, Bool-cases, Option-cases, List-cases, inl, inr,
}
use cashmere.OrderedMap.{assign, nat_order}
use cashmere.Clock.{Clock}
use cashmere.Text.{
  Stream, good, peek, get, spaces_in, read_spaces, read_char, expect, skip_space, digit_of,
  digits_in, sign_in, prefix_in, scan, u64_of, Scanned, read_u64, Step, ◌then_read◌, token, number,
  read_pair, comma, open_curly, close_curly,
}
use cashmere.Text.Clocks.{store_pair, after_pair, Rounds, result_of, read_pairs, read_loop}

spaces_in-le : (text : List ℕ) (found : Bool) → length (spaces_in text found).1.text ≤ length text
unfolding spaces_in
spaces_in-le [] found = omega arith
spaces_in-le (c ∷ rest) found = ground (arith, spaces_in-le rest true)

read_spaces-le : (s : Stream) → length (read_spaces s).1.text ≤ length s.text
unfolding read_spaces
read_spaces-le s = ground (arith, spaces_in-le s.text false)

-- A character that `peek` saw is taken by `get`.
expect_shortens :
    (expected : ℕ) (text : List ℕ) (eof fail : Bool) (s : Stream)
    → s ≡ record { text = text; eof = eof; fail = fail }
    → (expect expected (peek s)).0 ≡ true
    → length (expect expected (peek s)).1.text < length text
unfolding peek get
expect_shortens expected [] eof fail s e h = ground (arith, e, h)
expect_shortens expected (c ∷ rest) eof fail s e h = ground (arith, e, h)

expect-le :
    (expected : ℕ) (text : List ℕ) (eof fail : Bool) (s : Stream)
    → s ≡ record { text = text; eof = eof; fail = fail }
    → length (expect expected (peek s)).1.text ≤ length text
unfolding peek get
expect-le expected [] eof fail s e = ground (arith, e)
expect-le expected (c ∷ rest) eof fail s e = ground (arith, e)

read_char-le : (expected : ℕ) (s : Stream) → length (read_char expected s).1.text ≤ length s.text
unfolding read_char
read_char-le expected s =
    let s' = (read_spaces s).1 in
    omega (arith, expect-le expected s'.text s'.eof s'.fail s' refl, read_spaces-le s)

read_char-lt :
    (expected : ℕ) (s : Stream)
    → (read_char expected s).0 ≡ true
    → length (read_char expected s).1.text < length s.text
unfolding read_char
read_char-lt expected s h =
    let s' = (read_spaces s).1 in
    omega (arith, expect_shortens expected s'.text s'.eof s'.fail s' refl h, read_spaces-le s)

skip_space-le : (text : List ℕ) → length (skip_space text) ≤ length text
unfolding skip_space
skip_space-le [] = omega arith
skip_space-le (c ∷ rest) = ground (arith, skip_space-le rest)

digits_in-le :
    (base : ℕ) (text : List ℕ) (value : ℕ) (found : Bool)
    → length (digits_in base text value found).2 ≤ length text
unfolding digits_in
digits_in-le base [] value found = omega arith
digits_in-le base (c ∷ rest) value found = elim (Option-cases (digit_of base c)) [
  | inl e ↦
      let r : digits_in base (c ∷ rest) value found ≡ (value, found, c ∷ rest) =
        rw (e, digits_in) refl in
      omega (arith, ap (λ r. length r.2) r)
  | inr e ↦
      let r : digits_in base (c ∷ rest) value found
          ≡ digits_in base rest (value * base + e.0) true =
        rw (e.1, digits_in) refl in
      omega (arith, ap (λ r. length r.2) r, digits_in-le base rest (value * base + e.0) true)
]

sign_in-le : (text : List ℕ) → length (sign_in text).1 ≤ length text
unfolding sign_in
sign_in-le [] = omega arith
sign_in-le (c ∷ rest) = ground arith

prefix_in-le : (base : ℕ) (text : List ℕ) → length (prefix_in base text) ≤ length text
unfolding prefix_in
prefix_in-le base [] = omega arith
prefix_in-le base (c ∷ []) = omega arith
prefix_in-le base (c ∷ x ∷ rest) = ground arith

scan-le : (base : ℕ) (text : List ℕ) → length (scan base text).3 ≤ length text
unfolding scan
scan-le base text = omega (
  arith,
  digits_in-le base (prefix_in base (sign_in text).1) 0 false,
  prefix_in-le base (sign_in text).1,
  sign_in-le text,
)

u64_of_text : (r : Scanned) → (u64_of r).1.text ≡ r.3
u64_of_text (negative, value, found, rest) = ground arith

read_u64-le : (base old : ℕ) (s : Stream) → length (read_u64 base old s).1.text ≤ length s.text
unfolding read_u64
read_u64-le base old s = elim (Bool-cases (good s)) [
  | inl g ↦ elim (List-cases (skip_space s.text)) [
    | inl e ↦ rw (g, e) (omega arith)
    | inr e ↦
        rw (g, e.2, u64_of_text (scan base (e.0 ∷ e.1)))
          (omega (arith, scan-le base (e.0 ∷ e.1), skip_space-le s.text, ap length e.2))
  ]
  | inr g ↦ rw g (omega arith)
]

-- A step that leaves at most what it found.
abbrev Shortens : {V : Type 0} → Step V → Type 0
Shortens step = (v : _) (s : Stream) → length (step v s).2.text ≤ length s.text

-- A step that takes something if it succeeds.
abbrev Takes : {V : Type 0} → Step V → Type 0
Takes step = (v : _) (s : Stream) → (step v s).0 ≡ true → length (step v s).2.text < length s.text

module _ {V : Type 0} where
  then_read-Shortens :
      (first next : Step V) → Shortens first → Shortens next → Shortens (first then_read next)
  then_read-Shortens first next h k v s = elim (Bool-cases (first v s).0) [
    | inl e ↦ rw e (omega (arith, h v s, k (first v s).1 (first v s).2))
    | inr e ↦ rw e (h v s)
  ]

  then_read-Takes :
      (first next : Step V) → Takes first → Shortens next → Takes (first then_read next)
  then_read-Takes first next h k v s r = elim (Bool-cases (first v s).0) [
    | inl e ↦ rw e (omega (arith, h v s e, k (first v s).1 (first v s).2))
    | inr e ↦ ground (arith, e, r)
  ]

-- The steps of ReadPair.
abbrev token_of : ℕ → Step (ℕ × ℕ)
token_of expected = token expected

abbrev id_step : Step (ℕ × ℕ)
id_step = number (read_u64 16) (λ v. v.0) (λ v id. (id, v.1))

abbrev time_step : Step (ℕ × ℕ)
time_step = number (read_u64 10) (λ v. v.1) (λ v time. (v.0, time))

abbrev last_steps : Step (ℕ × ℕ)
last_steps = time_step then_read token_of close_curly

abbrev comma_steps : Step (ℕ × ℕ)
comma_steps = token_of comma then_read last_steps

abbrev after_bracket : Step (ℕ × ℕ)
after_bracket = id_step then_read comma_steps

after_bracket-Shortens : Shortens after_bracket
after_bracket-Shortens =
    then_read-Shortens id_step comma_steps (λ v s. read_u64-le 16 v.0 s)
      (then_read-Shortens (token_of comma) last_steps (λ v s. read_char-le comma s)
        (then_read-Shortens time_step (token_of close_curly) (λ v s. read_u64-le 10 v.1 s)
          (λ v s. read_char-le close_curly s)))

-- A pair that is read is not empty.
read_pair-Takes : Takes read_pair
unfolding read_pair
read_pair-Takes =
    then_read-Takes (token_of open_curly) after_bracket (λ v s. read_char-lt open_curly s)
      after_bracket-Shortens

-- With `again` or with `other` for the next rounds, the loop comes to one and the same result.
abbrev Ends : Rounds → Rounds → Clock → Stream → Type 0
Ends again other c s = (r : Bool × Clock × Stream) × (again c s ≡ some r) × (other c s ≡ some r)

-- A round ends if the next ones do on less text.
round_ends :
    (again other : Rounds) (c : Clock) (n : ℕ) (r : Bool × (ℕ × ℕ) × Stream)
    → ((c' : Clock) (s' : Stream) → length s'.text < n → Ends again other c' s')
    → (r.0 ≡ true → length r.2.text < n)
    → (out : Bool × Clock × Stream) × (after_pair again (store_pair c r) ≡ some out)
      × (after_pair other (store_pair c r) ≡ some out)
round_ends again other c n (false, pair, s) h k = ((false, c, s), refl, refl)
round_ends again other c n (true, (id, time), s) h k = elim (Bool-cases (read_char comma s).0) [
  | inl e ↦
      rw e
        (h (assign id time c) (read_char comma s).1 (omega (arith, k refl, read_char-le comma s)))
  | inr e ↦ rw e ((true, assign id time c, (read_char comma s).1), refl, refl)
]

-- The loop comes to one result for all numbers of rounds above the length of the text.
loops_end :
    (m n : ℕ) (c : Clock) (s : Stream)
    → length s.text < m
    → length s.text < n
    → Ends (read_pairs m) (read_pairs n) c s
unfolding read_pairs
loops_end zero n c s h k = absurd (omega arith)
loops_end (suc m) zero c s h k = absurd (omega arith)
loops_end (suc m) (suc n) c s h k =
    round_ends (read_pairs m) (read_pairs n) c (length s.text) (read_pair (0, 0) s)
      (λ c' s' less. loops_end m n c' s' (omega arith) (omega arith)) (read_pair-Takes (0, 0) s)

-- The loop of Clock::Read ends, whatever the state of the stream: if more rounds are allowed than there
-- are characters to read, they do not run out, and what they leave is what Clock::Read goes on with.
pub read_pairs_ends :
    (fuel : ℕ) (c : Clock) (s : Stream)
    → length s.text < fuel
    → read_pairs fuel c s ≡ some (read_loop c s)
unfolding read_loop
read_pairs_ends fuel c s h =
    let (r, left, used) = loops_end fuel (suc (length s.text)) c s h (omega arith) in
    left ∙ ap some (sym (ap (λ o. result_of o c s) used))
