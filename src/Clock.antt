-- ===== src/Clock.antt =====
-- cashmere/crdt/include/cashmere/clock.h and cashmere/crdt/src/clock.cpp: the vector clock, a
-- `std::map` from device ids to counts. Times are `uint64_t`, and wrap.
pub mod Merge
pub mod Lexicographic
pub mod Causality
pub mod Advance
pub mod Examples
use cashmere.Base.{
  ℕ, ◌+◌, ◌%◌, ◌^◌, max, Bool, true, false, not, ◌&&◌, List, [], ◌∷◌, Option, none, some, ◌==◌,
  if◌then◌else◌,
}
use cashmere.OrderedMap.{OrderedMap, nat_order, lookup, assign, emplace, contains}

abbrev pub time_mod : ℕ
time_mod = 2 ^ 64

abbrev pub Clock : Type 0
Clock = OrderedMap ℕ ℕ

-- The range constructor of `std::map`: the first of two equal keys stays.
unfoldable pub emplace_all : List (ℕ × ℕ) → Clock → Clock
unfolding emplace
emplace_all [] out = out
emplace_all ((id, count) ∷ rest) out = emplace_all rest (emplace id count out)

unfoldable pub erase_zeros : Clock → Clock
erase_zeros [] = []
erase_zeros ((id, count) ∷ rest) =
    let kept = erase_zeros rest in if not (id == 0) && count == 0 then kept else (id, count) ∷ kept

-- Clock(const std::initializer_list<std::pair<const Id, Time>>&)
unfoldable pub from_list : List (ℕ × ℕ) → Clock
unfolding emplace_all erase_zeros
from_list list = erase_zeros (emplace_all list [])

-- find(id) != end() ? at(id) : 0
abbrev pub at_or_zero : Clock → ℕ → ℕ
at_or_zero c id = elim (lookup id c) [ none ↦ 0 | some count ↦ count ]

unfoldable pub merge_into : Clock → Clock → Clock → Clock
merge_into self out [] = out
merge_into self out ((id, count) ∷ rest) =
    merge_into self (assign id (max (at_or_zero self id) count) out) rest

unfoldable pub merge : Clock → Clock → Clock
unfolding merge_into assign lookup
merge c other = merge_into c c other

unfoldable pub tick : Clock → ℕ → Clock
tick c id = assign id ((at_or_zero c id + 1) % time_mod) c

-- operator== of `std::map`
unfoldable pub clock_eq : Clock → Clock → Bool
clock_eq [] [] = true
clock_eq [] (y ∷ ys) = false
clock_eq (x ∷ xs) [] = false
clock_eq ((i, s) ∷ xs) ((j, t) ∷ ys) = i == j && s == t && clock_eq xs ys

unfoldable pub smaller_than : Clock → Clock → Bool
smaller_than c other = not (clock_eq c other) && clock_eq (merge c other) other

unfoldable pub concurrent : Clock → Clock → Bool
concurrent c other =
    not (clock_eq c other) && not (smaller_than c other) && not (smaller_than other c)

unfoldable pub valid : Clock → Bool
valid c = not (contains 0 c)

unfoldable pub is_next : Clock → Clock → ℕ → Bool
is_next c other id = elim (lookup id c) [
  | none ↦ false
  | some count ↦ elim (lookup id other) [
    | none ↦ count == 1
    | some seen ↦ count == (seen + 1) % time_mod
  ]
]

-- Clock{{0, 0}}, which operations return for a failure.
abbrev pub invalid_clock : Clock
invalid_clock = (0, 0) ∷ []
