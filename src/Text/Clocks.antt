-- ===== src/Text/Clocks.antt =====
-- The text form of clocks: operator<< and Clock::Read of cashmere/crdt/src/clock.cpp.
use cashmere.Base.{
  ℕ, zero, suc, Bool, true, false, List, [], ◌∷◌, Option, none, some, length, ◌≡◌, refl, codes,
  if◌then◌else◌,
}
use cashmere.OrderedMap.{assign, nat_order}
use cashmere.Clock.{Clock}
use cashmere.Text.{
  Stream, read_u64, fresh, peek, read_spaces, read_char, is_char, Step, ◌then_read◌, token,
  read_pair, print_u64, comma, space, open_curly, close_curly,
}

unfoldable pub print_pair : ℕ × ℕ → List ℕ → List ℕ
print_pair (id, count) out =
    open_curly ∷ print_u64 16 id (comma ∷ space ∷ print_u64 10 count (close_curly ∷ out))

-- The loop of operator<<, from the second pair.
unfoldable pub print_pairs : Clock → List ℕ → List ℕ
print_pairs [] out = out
print_pairs (pair ∷ rest) out = comma ∷ space ∷ print_pair pair (print_pairs rest out)

-- operator<<
unfoldable pub print_clock : Clock → List ℕ → List ℕ
print_clock [] out = open_curly ∷ close_curly ∷ out
print_clock (pair ∷ rest) out = open_curly ∷ print_pair pair (print_pairs rest (close_curly ∷ out))

-- Clock::str
unfoldable pub clock_str : Clock → List ℕ
clock_str c = print_clock c []

abbrev pub store_pair : Clock → Bool × (ℕ × ℕ) × Stream → Bool × Clock × Stream
store_pair c (false, pair, s) = (false, c, s)
store_pair c (true, (id, time), s) = (true, assign id time c, s)

-- What the loop leaves; `none` says that the rounds that were allowed ran out, and is no result of
-- the program.
abbrev pub Rounds : Type 0
Rounds = Clock → Stream → Option (Bool × Clock × Stream)

abbrev pub repeat : Rounds → Clock → Bool × Stream → Option (Bool × Clock × Stream)
repeat again c (more, s) = if more then again c s else some (true, c, s)

abbrev pub after_pair : Rounds → Bool × Clock × Stream → Option (Bool × Clock × Stream)
after_pair again (ok, c, s) = if ok then repeat again c (read_char comma s) else some (false, c, s)

-- The `do` loop of Clock::Read, of so many rounds at most.
unfoldable pub read_pairs : ℕ → Rounds
read_pairs zero c s = none
read_pairs (suc fuel) c s = after_pair (read_pairs fuel) (store_pair c (read_pair (0, 0) s))

abbrev pub result_of : Option (Bool × Clock × Stream) → Clock → Stream → Bool × Clock × Stream
result_of none c s = (false, c, s)
result_of (some r) c s = r

-- The `do` loop of Clock::Read. Each round reads a character at least, so that these rounds do not run
-- out.
unfoldable pub read_loop : Step Clock
read_loop c s = result_of (read_pairs (suc (length s.text)) c s) c s

abbrev pub read_if_open : Clock → Option ℕ × Stream → Bool × Clock × Stream
read_if_open c (seen, s) = if is_char open_curly seen then read_loop c s else (true, c, s)

-- The `if` of Clock::Read, with its loop.
unfoldable pub read_body : Step Clock
read_body c s = read_if_open c (peek (read_spaces s).1)

-- Clock::Read
unfoldable pub read_clock : Step Clock
read_clock = token open_curly then_read read_body then_read token close_curly

clock_test :
    read_clock [] (fresh (clock_str ((0xaa, 1) ∷ (0xff, 20) ∷ [])))
    ≡ (true, (0xaa, 1) ∷ (0xff, 20) ∷ [], fresh [])
unfolding read_clock read_body read_loop read_pairs read_pair read_char read_spaces peek read_u64
    clock_str print_clock print_pairs print_pair print_u64 assign
clock_test = refl

text_test : clock_str ((0xaa, 1) ∷ (0xff, 20) ∷ []) ≡ codes "{{aa, 1}, {ff, 20}}"
unfolding clock_str print_clock print_pairs print_pair print_u64
text_test = refl
