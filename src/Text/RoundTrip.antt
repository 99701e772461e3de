-- ===== src/Text/RoundTrip.antt =====
-- Clocks, data and entries that are printed are read back.
use cashmere.Base.{
  ℕ, zero, suc, ◌+◌, ◌/◌, ◌%◌, ◌^◌, ◌≤◌, ◌<◌, ◌≡◌, ◌≢◌, refl, ap, ◌∙◌, true, false, List, [], ◌∷◌,
  none, some, arith, length,
}
use cashmere.Base.Int.{ℤ, pos}
use cashmere.OrderedMap.{assign, assign_all, IsSorted, nat_order}
use cashmere.OrderedMap.Fill.{assign_all-nil}
use cashmere.Clock.{Clock}
use cashmere.Entry.{Data, Entry, empty_data}
use cashmere.Text.{
  digit_char, fresh, peek, get, read_spaces, read_char, digit_of, read_pair, print_i64, print_u64,
  print_from, read_u64, read_i64, comma, space, open_curly, close_curly,
}
use cashmere.Text.Numbers.{
  decimal-IsBase, hex-IsBase, read_u64-print_u64, read_u64-space, IsI64, read_i64-print_i64,
  read_i64-space,
}
use cashmere.Text.Clocks.{
  print_pair, print_pairs, print_clock, result_of, read_pairs, read_loop, read_body, read_clock,
}
use cashmere.Text.Entries.{print_data, print_entry, read_data, read_entry, empty_entry}

-- A character that is there is read, with or without a space in front of it.
pub read_char_here :
    (c : ℕ) (rest : List ℕ) → c ≢ space → read_char c (fresh (c ∷ rest)) ≡ (true, fresh rest)
unfolding read_char read_spaces peek get
read_char_here c rest h = ground arith

read_char_after_space :
    (c : ℕ) (rest : List ℕ)
    → c ≢ space
    → read_char c (fresh (space ∷ c ∷ rest)) ≡ (true, fresh rest)
unfolding read_char read_spaces peek get
read_char_after_space c rest h = ground arith

read_char_other :
    (c d : ℕ) (rest : List ℕ)
    → d ≢ space
    → d ≢ c
    → read_char c (fresh (d ∷ rest)) ≡ (false, fresh (d ∷ rest))
unfolding read_char read_spaces peek get
read_char_other c d rest h k = ground arith

module _ (base : ℕ) where
  comma_stops : base ≤ 16 → digit_of base comma ≡ none
  unfolding digit_of
  comma_stops h = ground arith

  curly_stops : base ≤ 16 → digit_of base close_curly ≡ none
  unfolding digit_of
  curly_stops h = ground arith

-- An id before a comma, and a count before a curly bracket.
read_id :
    (old id : ℕ) (rest : List ℕ)
    → id < 2 ^ 64
    → read_u64 16 old (fresh (print_u64 16 id (comma ∷ rest))) ≡ (id, fresh (comma ∷ rest))
read_id old id rest h =
    read_u64-print_u64 16 hex-IsBase old id comma rest h (comma_stops 16 (omega arith))
      (omega arith) (omega arith)

read_count :
    (old count : ℕ) (rest : List ℕ)
    → count < 2 ^ 64
    → read_u64 10 old (fresh (space ∷ print_u64 10 count (close_curly ∷ rest)))
      ≡ (count, fresh (close_curly ∷ rest))
read_count old count rest h =
    read_u64-space 10 decimal-IsBase old _
    ∙ read_u64-print_u64 10 decimal-IsBase old count close_curly rest h
        (curly_stops 10 (omega arith)) (omega arith) (omega arith)

-- Ids and counts are of 64 bits.
abbrev pub IsU64 : ℕ × ℕ → Type 0
IsU64 (id, count) = (id < 2 ^ 64) × (count < 2 ^ 64)

abbrev pub AreU64 : Clock → Type 0
AreU64 [] = Unit {0}
AreU64 (pair ∷ rest) = IsU64 pair × AreU64 rest

read_pair-print_pair :
    (old : ℕ × ℕ) (pair : ℕ × ℕ) (rest : List ℕ)
    → IsU64 pair
    → read_pair old (fresh (print_pair pair rest)) ≡ (true, pair, fresh rest)
unfolding read_pair print_pair
read_pair-print_pair old (id, count) rest h = rw (read_char_here open_curly _ (omega arith)) (
    rw (read_id old.0 id _ h.0) (
      rw (read_char_here comma _ (omega arith)) (
        rw (read_count old.1 count rest h.1)
          (rw (read_char_here close_curly rest (omega arith)) refl))))

read_pair-print_pair_after_space :
    (old : ℕ × ℕ) (pair : ℕ × ℕ) (rest : List ℕ)
    → IsU64 pair
    → read_pair old (fresh (space ∷ print_pair pair rest)) ≡ (true, pair, fresh rest)
unfolding read_pair print_pair
read_pair-print_pair_after_space old (id, count) rest h =
    rw (read_char_after_space open_curly _ (omega arith)) (
      rw (read_id old.0 id _ h.0) (
        rw (read_char_here comma _ (omega arith)) (
          rw (read_count old.1 count rest h.1)
            (rw (read_char_here close_curly rest (omega arith)) refl))))

-- The loop reads the pair that is next and all that follow, up to the closing bracket.
read_pairs-print_pairs :
    (fuel : ℕ) (c : Clock) (pair : ℕ × ℕ) (ps : Clock) (text rest : List ℕ)
    → length ps < fuel
    → AreU64 ps
    → read_pair (0, 0) (fresh text) ≡ (true, pair, fresh (print_pairs ps (close_curly ∷ rest)))
    → read_pairs fuel c (fresh text)
      ≡ some (true, assign_all (pair ∷ ps) c, fresh (close_curly ∷ rest))
unfolding read_pairs print_pairs assign_all
read_pairs-print_pairs zero c pair ps text rest h fits e = absurd (omega arith)
read_pairs-print_pairs (suc fuel) c pair [] text rest h fits e =
    rw e (rw (read_char_other comma close_curly rest (omega arith) (omega arith)) refl)
read_pairs-print_pairs (suc fuel) c pair (q ∷ qs) text rest h fits e = rw e (
    rw (read_char_here comma _ (omega arith)) (
      read_pairs-print_pairs fuel (assign pair.0 pair.1 c) q qs _ rest (omega arith) fits.1
        (read_pair-print_pair_after_space (0, 0) q _ fits.0)))

length-print_from-le :
    (base fuel n : ℕ) (out : List ℕ) → length out ≤ length (print_from base fuel n out)
unfolding print_from
length-print_from-le base zero n out = omega arith
length-print_from-le base (suc fuel) n out =
    ground (arith, length-print_from-le base fuel (n / base) (digit_char (n % base) ∷ out))

length-print_pair-le : (pair : ℕ × ℕ) (out : List ℕ) → length out ≤ length (print_pair pair out)
unfolding print_pair print_u64
length-print_pair-le (id, count) out = omega (
  arith,
  length-print_from-le 16 (suc id) id (comma ∷ space ∷ print_u64 10 count (close_curly ∷ out)),
  length-print_from-le 10 (suc count) count (close_curly ∷ out),
)

length-print_pairs-le :
    (ps : Clock) (out : List ℕ) → length ps + length out ≤ length (print_pairs ps out)
unfolding print_pairs
length-print_pairs-le [] out = omega arith
length-print_pairs-le (p ∷ ps) out =
    omega (arith, length-print_pair-le p (print_pairs ps out), length-print_pairs-le ps out)

read_body-print_pairs :
    (pair : ℕ × ℕ) (ps : Clock) (rest : List ℕ)
    → AreU64 (pair ∷ ps)
    → read_body [] (fresh (print_pair pair (print_pairs ps (close_curly ∷ rest))))
      ≡ (true, assign_all (pair ∷ ps) [], fresh (close_curly ∷ rest))
unfolding read_body read_loop read_spaces peek print_pair
read_body-print_pairs (id, count) ps rest h =
    let text = print_pair (id, count) (print_pairs ps (close_curly ∷ rest)) in
    ap (λ o. result_of o [] (fresh text))
      (read_pairs-print_pairs (suc (length text)) [] (id, count) ps text rest
        (omega (
          arith,
          length-print_pair-le (id, count) (print_pairs ps (close_curly ∷ rest)),
          length-print_pairs-le ps (close_curly ∷ rest),
        ))
        h.1 (read_pair-print_pair (0, 0) (id, count) (print_pairs ps (close_curly ∷ rest)) h.0))

-- Clock::Read reads back what operator<< printed, of a well-formed clock of 64-bit ids and counts,
-- and leaves what follows unread.
pub read_clock-print_clock :
    (c : Clock) (rest : List ℕ)
    → IsSorted c
    → AreU64 c
    → read_clock [] (fresh (print_clock c rest)) ≡ (true, c, fresh rest)
unfolding read_clock print_clock
read_clock-print_clock [] rest s h = unfold read_body read_char read_spaces peek get in refl
read_clock-print_clock (pair ∷ ps) rest s h = rw (read_char_here open_curly _ (omega arith)) (
    rw (read_body-print_pairs pair ps rest h) (
      rw (read_char_here close_curly rest (omega arith))
        (ap (λ c. (true, c, fresh rest)) (assign_all-nil (pair ∷ ps) s))))

read_clock-space :
    (c : Clock) (text : List ℕ)
    → read_clock c (fresh (space ∷ open_curly ∷ text)) ≡ read_clock c (fresh (open_curly ∷ text))
unfolding read_clock
read_clock-space c text =
    rw (read_char_after_space open_curly text (omega arith))
      (rw (read_char_here open_curly text (omega arith)) refl)

read_clock-print_clock_after_space :
    (c : Clock) (rest : List ℕ)
    → IsSorted c
    → AreU64 c
    → read_clock [] (fresh (space ∷ print_clock c rest)) ≡ (true, c, fresh rest)
read_clock-print_clock_after_space [] rest s h =
    unfold print_clock in (read_clock-space [] _ ∙ read_clock-print_clock [] rest s h)
read_clock-print_clock_after_space (pair ∷ ps) rest s h =
    unfold print_clock in (read_clock-space [] _ ∙ read_clock-print_clock (pair ∷ ps) rest s h)

-- Data of a 64-bit id and amount, with a well-formed clock.
pub record IsPrintable (d : Data) : Type 0 where
  pub id_fits : d.id < 2 ^ 64
  pub value_fits : IsI64 d.value
  pub alters_sorted : IsSorted d.alters
  pub alters_fit : AreU64 d.alters

read_value :
    (old x : ℤ) (rest : List ℕ)
    → IsI64 x
    → read_i64 old (fresh (space ∷ print_i64 x (comma ∷ rest))) ≡ (x, fresh (comma ∷ rest))
read_value old x rest h =
    read_i64-space old _
    ∙ read_i64-print_i64 old x comma rest h (comma_stops 10 (omega arith)) (omega arith)
        (omega arith)

-- Data::Read reads back what operator<< printed.
pub read_data-print_data :
    (d : Data) (rest : List ℕ)
    → IsPrintable d
    → read_data empty_data (fresh (print_data d rest)) ≡ (true, d, fresh rest)
unfolding read_data print_data
read_data-print_data d rest h = rw (read_char_here open_curly _ (omega arith)) (
    rw (read_id 0 d.id _ h.id_fits) (
      rw (read_char_here comma _ (omega arith)) (
        rw (read_value (pos 0) d.value _ h.value_fits) (
          rw (read_char_here comma _ (omega arith)) (
            rw
              (read_clock-print_clock_after_space d.alters (close_curly ∷ rest) h.alters_sorted
                h.alters_fit)
              (rw (read_char_here close_curly rest (omega arith)) refl))))))

read_data-space :
    (d : Data) (text : List ℕ)
    → read_data d (fresh (space ∷ open_curly ∷ text)) ≡ read_data d (fresh (open_curly ∷ text))
unfolding read_data
read_data-space d text =
    rw (read_char_after_space open_curly text (omega arith))
      (rw (read_char_here open_curly text (omega arith)) refl)

read_data-print_data_after_space :
    (d : Data) (rest : List ℕ)
    → IsPrintable d
    → read_data empty_data (fresh (space ∷ print_data d rest)) ≡ (true, d, fresh rest)
read_data-print_data_after_space d rest h =
    unfold print_data in (read_data-space empty_data _ ∙ read_data-print_data d rest h)

pub record IsPrintableEntry (e : Entry) : Type 0 where
  pub clock_sorted : IsSorted e.clock
  pub clock_fits : AreU64 e.clock
  pub data_printable : IsPrintable e.entry

-- Entry::Read reads back what operator<< printed, of an entry of well-formed clocks, 64-bit ids and
-- counts and a 64-bit amount, and leaves what follows unread.
pub read_entry-print_entry :
    (e : Entry) (rest : List ℕ)
    → IsPrintableEntry e
    → read_entry empty_entry (fresh (print_entry e rest)) ≡ (true, e, fresh rest)
unfolding read_entry print_entry
read_entry-print_entry e rest h = rw (read_char_here open_curly _ (omega arith)) (
    rw (read_clock-print_clock e.clock _ h.clock_sorted h.clock_fits) (
      rw (read_char_here comma _ (omega arith)) (
        rw (read_data-print_data_after_space e.entry (close_curly ∷ rest) h.data_printable)
          (rw (read_char_here close_curly rest (omega arith)) refl))))
