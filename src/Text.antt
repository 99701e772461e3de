-- ===== src/Text.antt =====
-- Text streams: what the parsers of cashmere/utils/src/fileutils.cpp and cashmere/crdt/src use of
-- `std::istream` and `std::ostream`, and the helpers of fileutils.cpp. A character is its code. An
-- output operator puts its text in front of what is printed after it.
pub mod Numbers
pub mod RoundTrip
pub mod Termination
pub mod Printers
pub mod Clocks
pub mod Entries
pub mod Examples
use cashmere.Base.Int.{ℤ, pos, negsuc, sub_ℕ}
use cashmere.Base.{
  ℕ, zero, suc, ◌+◌, ◌-◌, ◌*◌, ◌/◌, ◌%◌, ◌^◌, Bool, true, false, not, ◌&&◌, ◌||◌, List, [], ◌∷◌,
  Option, none, some, ltb, leb, ◌==◌, ◌≡◌, refl, if◌then◌else◌,
}

abbrev pub space : ℕ
space = b' '

abbrev pub comma : ℕ
comma = b','

abbrev pub open_curly : ℕ
open_curly = b'{'

abbrev pub close_curly : ℕ
close_curly = b'}'

abbrev pub line_feed : ℕ
line_feed = b'\n'

-- What is unread, `eofbit` and `failbit`.
pub record Stream : Type 0 where
  pub text : List ℕ
  pub eof : Bool
  pub fail : Bool

-- A stream in which nothing has failed and whose end has not been met.
abbrev pub fresh : List ℕ → Stream
fresh text = record { text = text; eof = false; fail = false }

abbrev pub good : Stream → Bool
good s = not s.eof && not s.fail

-- peek(): an attempt on a stream that is not good fails it.
unfoldable pub peek : Stream → Option ℕ × Stream
peek s =
    if good s
    then elim s.text [ [] ↦ (none, record s { eof = true }) | c ∷ rest ↦ (some c, s) ]
    else (none, record s { fail = true })

-- get(), its result left aside
unfoldable pub get : Stream → Stream
get s =
    if good s
    then elim s.text [
      | [] ↦ record s { eof = true; fail = true }
      | c ∷ rest ↦ record s { text = rest }
    ]
    else record s { fail = true }

-- The loop of `ReadSpaces` on a good stream; the flag is `c == kSpace`.
unfoldable pub spaces_in : List ℕ → Bool → Bool × Stream
spaces_in [] found = (found, record { text = []; eof = true; fail = false })
spaces_in (c ∷ rest) found = if c == space then spaces_in rest true else (found, fresh (c ∷ rest))

-- ReadSpaces
unfoldable pub read_spaces : Stream → Bool × Stream
unfolding spaces_in
read_spaces s = if good s then spaces_in s.text false else (false, record s { fail = true })

abbrev pub is_char : ℕ → Option ℕ → Bool
is_char expected none = false
is_char expected (some c) = c == expected

abbrev pub expect : ℕ → Option ℕ × Stream → Bool × Stream
expect expected (seen, s) = if is_char expected seen then (true, get s) else (false, s)

-- ReadChar
unfoldable pub read_char : ℕ → Stream → Bool × Stream
unfolding read_spaces peek get
read_char expected s = expect expected (peek (read_spaces s).1)

-- `isspace`
abbrev pub is_space : ℕ → Bool
is_space c = c == space || (leb 9 c && leb c 13)

unfoldable pub skip_space : List ℕ → List ℕ
skip_space [] = []
skip_space (c ∷ rest) = if is_space c then skip_space rest else c ∷ rest

-- The digit that a character stands for, in a base up to 16.
unfoldable pub digit_of : ℕ → ℕ → Option ℕ
digit_of base c =
    let d =
      if leb b'0' c && leb c b'9'
      then c - b'0'
      else if leb b'a' c && leb c b'f'
      then c - 87
      else if leb b'A' c && leb c b'F'
      then c - 55
      else 16 in
    if ltb d base then some d else none

-- The digits at the front: their value behind `value`, whether there was one, and what follows.
unfoldable pub digits_in : ℕ → List ℕ → ℕ → Bool → ℕ × Bool × List ℕ
digits_in base [] value found = (value, found, [])
digits_in base (c ∷ rest) value found = elim (digit_of base c) [
  | none ↦ (value, found, c ∷ rest)
  | some d ↦ digits_in base rest (value * base + d) true
]

-- A sign at the front.
unfoldable pub sign_in : List ℕ → Bool × List ℕ
sign_in [] = (false, [])
sign_in (c ∷ rest) =
    if c == b'-' then (true, rest) else if c == b'+' then (false, rest) else (false, c ∷ rest)

-- `0x` at the front, which base 16 allows.
unfoldable pub prefix_in : ℕ → List ℕ → List ℕ
prefix_in base [] = []
prefix_in base (c ∷ []) = c ∷ []
prefix_in base (c ∷ x ∷ rest) =
    if base == 16 && c == b'0' && (x == b'x' || x == b'X') then rest else c ∷ x ∷ rest

abbrev pub is_end : List ℕ → Bool
is_end [] = true
is_end (c ∷ rest) = false

-- What is read: the sign, the value of the digits, whether there was a digit, and the rest.
abbrev pub Scanned : Type 0
Scanned = Bool × ℕ × Bool × List ℕ

unfoldable pub scan : ℕ → List ℕ → Scanned
unfolding sign_in prefix_in digits_in digit_of
scan base text =
    let (negative, unsigned) = sign_in text in
    let (value, found, rest) = digits_in base (prefix_in base unsigned) 0 false in
    (negative, value, found, rest)

abbrev pub u64_max : ℕ
u64_max = 2 ^ 64 - 1

-- `num_get` of a `uint64_t`: 0 if there is no digit, the largest value if the number does not fit.
abbrev pub u64_of : Scanned → ℕ × Stream
u64_of (negative, value, found, rest) =
    if not found
    then (0, record { text = rest; eof = is_end rest; fail = true })
    else if ltb u64_max value
    then (u64_max, record { text = rest; eof = is_end rest; fail = true })
    else (
      (if negative then (2 ^ 64 - value) % 2 ^ 64 else value),
      record { text = rest; eof = is_end rest; fail = false },
    )

-- What `>>` does before it reads a number: it fails on a stream that is not good or that has nothing
-- but space, and then leaves the variable as it is.
abbrev pub extract {ℓ} : {A : Type ℓ} → (List ℕ → A × Stream) → A → Stream → A × Stream
extract read old s =
    if good s
    then elim (skip_space s.text) [
      | [] ↦ (old, record { text = []; eof = true; fail = true })
      | c ∷ rest ↦ read (c ∷ rest)
    ]
    else (old, record s { fail = true })

-- in >> std::hex >> n (base 16), in >> n (base 10), of a `uint64_t`
unfoldable pub read_u64 : ℕ → ℕ → Stream → ℕ × Stream
unfolding scan skip_space
read_u64 base = extract (λ text. u64_of (scan base text))

-- `num_get` of an `int64_t`
abbrev pub i64_of : Scanned → ℤ × Stream
i64_of (negative, value, found, rest) =
    let ended = is_end rest in
    if not found
    then (pos 0, record { text = rest; eof = ended; fail = true })
    else if negative
    then (if ltb (2 ^ 63) value
        then (negsuc (2 ^ 63 - 1), record { text = rest; eof = ended; fail = true })
        else (sub_ℕ 0 value, record { text = rest; eof = ended; fail = false }))
    else if ltb (2 ^ 63 - 1) value
    then (pos (2 ^ 63 - 1), record { text = rest; eof = ended; fail = true })
    else (pos value, record { text = rest; eof = ended; fail = false })

-- in >> value, of an `int64_t`
unfoldable pub read_i64 : ℤ → Stream → ℤ × Stream
unfolding scan skip_space
read_i64 = extract (λ text. i64_of (scan 10 text))

abbrev pub digit_char : ℕ → ℕ
digit_char d = if ltb d 10 then b'0' + d else 87 + d

unfoldable pub print_from : ℕ → ℕ → ℕ → List ℕ → List ℕ
print_from base zero n out = out
print_from base (suc fuel) n out =
    let more = print_from base fuel (n / base) (digit_char (n % base) ∷ out) in
    if ltb n base then digit_char n ∷ out else more

-- os << std::hex << n (base 16), os << n (base 10): each round takes a digit of `n`, so `n + 1`
-- rounds are enough.
unfoldable pub print_u64 : ℕ → ℕ → List ℕ → List ℕ
unfolding print_from
print_u64 base n = print_from base (suc n) n

-- A step of a parser that fills in the variables `V`: whether it succeeded, the variables and the
-- stream. What a failing step has written stays written.
abbrev pub Step : Type 0 → Type 0
Step V = V → Stream → Bool × V × Stream

module _ {V : Type 0} where
  abbrev pub and_then : Bool × V × Stream → Step V → Bool × V × Stream
  and_then (ok, v, s) next = if ok then next v s else (false, v, s)

  -- `if (!first) return false;`, and then the next step
  infixr 10 ◌then_read◌
  abbrev pub ◌then_read◌ : Step V → Step V → Step V
  ◌then_read◌ first next v s = and_then (first v s) next

  abbrev pub with_stream : V → Bool × Stream → Bool × V × Stream
  with_stream v (ok, s) = (ok, v, s)

  -- ReadChar
  abbrev pub token : ℕ → Step V
  token expected v s = with_stream v (read_char expected s)

  abbrev pub read_into {ℓ} : {A : Type ℓ} → (A → V) → A × Stream → Bool × V × Stream
  read_into set (a, s) = (not s.fail, set a, s)

  -- `in >> variable; if (in.fail()) return false;`
  abbrev pub number {ℓ} : {A : Type ℓ} → (A → Stream → A × Stream) → (V → A) → (V → A → V) → Step V
  number read get set v s = read_into (set v) (read (get v) s)

  -- `in >> variable;`
  abbrev pub unchecked {ℓ} :
      {A : Type ℓ} → (A → Stream → A × Stream) → (V → A) → (V → A → V) → Step V
  unchecked read get set v s = let (a, s') = read (get v) s in (true, set v a, s')

  abbrev pub put_back : {U : Type 0} → (U → V) → Bool × U × Stream → Bool × V × Stream
  put_back set (ok, u, s) = (ok, set u, s)

  -- A step on a member of `V`.
  abbrev pub member : {U : Type 0} → Step U → (V → U) → (V → U → V) → Step V
  member step get set v s = put_back (set v) (step (get v) s)

unfoldable pub print_i64 : ℤ → List ℕ → List ℕ
print_i64 (pos n) out = print_u64 10 n out
print_i64 (negsuc n) out = b'-' ∷ print_u64 10 (n + 1) out

-- ReadPair, of an id and a count.
unfoldable pub read_pair : Step (ℕ × ℕ)
read_pair =
    token open_curly
    then_read number (read_u64 16) (λ v. v.0) (λ v id. (id, v.1))
    then_read token comma
    then_read number (read_u64 10) (λ v. v.1) (λ v time. (v.0, time))
    then_read token close_curly

pair_test :
    read_pair
      (0, 0)
      (fresh (open_curly ∷ print_u64 16 255 (comma ∷ space ∷ print_u64 10 907 (close_curly ∷ []))))
    ≡ (true, (255, 907), fresh [])
unfolding read_pair read_char read_u64 print_u64
pair_test = refl
