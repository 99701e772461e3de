-- ===== src/Clock/Lexicographic.antt =====
-- `operator<` of `std::map`, by which clocks are the keys of other maps: lexicographic, the pairs by
-- id and then by count.
use cashmere.Base.{◌≡◌, refl, Bool, true, false, [], ◌∷◌, arith, ltb, if◌then◌else◌}
use cashmere.OrderedMap.{Order}
use cashmere.Clock.{Clock}

unfoldable pub clock_lt : Clock → Clock → Bool
clock_lt a [] = false
clock_lt [] (y ∷ b) = true
clock_lt ((i, s) ∷ a) ((j, t) ∷ b) =
    let behind = clock_lt a b in
    if ltb i j
    then true
    else if ltb j i
    then false
    else if ltb s t
    then true
    else if ltb t s
    then false
    else behind

pub clock_lt_irrefl : (a : Clock) → clock_lt a a ≡ false
unfolding clock_lt
clock_lt_irrefl [] = refl
clock_lt_irrefl ((i, s) ∷ a) = ground (arith, clock_lt_irrefl a)

pub clock_lt_trans :
    (a b c : Clock) → clock_lt a b ≡ true → clock_lt b c ≡ true → clock_lt a c ≡ true
unfolding clock_lt
clock_lt_trans a b [] h k = k
clock_lt_trans a [] (z ∷ c) h k = ground arith
clock_lt_trans [] (y ∷ b) (z ∷ c) h k = refl
clock_lt_trans ((i, s) ∷ a) ((j, t) ∷ b) ((k, u) ∷ c) p q = ground (arith, clock_lt_trans a b c)

pub clock_lt_total : (a b : Clock) → clock_lt a b ≡ false → clock_lt b a ≡ false → a ≡ b
unfolding clock_lt
clock_lt_total [] [] h k = refl
clock_lt_total [] (y ∷ b) h k = cc
clock_lt_total (x ∷ a) [] h k = cc
clock_lt_total ((i, s) ∷ a) ((j, t) ∷ b) h k = ground (arith, clock_lt_total a b)

instance abbrev pub clock_order : Order Clock
clock_order = record {
  lt = clock_lt;
  lt_irrefl = clock_lt_irrefl;
  lt_trans = clock_lt_trans;
  lt_total = clock_lt_total;
}
