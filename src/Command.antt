-- ===== src/Command.antt =====
-- The commands of the terminal: Command::Read, ReadData and ReadValueAndOptionalClock of
-- src/cli/command.cpp.
pub mod RoundTrip
pub mod Options
pub mod Comparison
pub mod Examples
use cashmere.Base.{
  ℕ, ◌-◌, ◌^◌, ◌%◌, ◌≡◌, refl, Bool, true, false, not, ◌||◌, ◌&&◌, List, [], ◌∷◌, Option, none,
  some, ltb, leb, ◌==◌, if◌then◌else◌, codes,
}
use cashmere.Base.Int.{ℤ, pos, negsuc}
use cashmere.Clock.{Clock}
use cashmere.Entry.{Data, empty_data}
use cashmere.Text.{
  Stream, fresh, good, peek, read_spaces, is_space, skip_space, is_char, Step, member, ◌then_read◌,
  number, read_i64, read_u64, scan, line_feed,
}
use cashmere.Text.Clocks.{read_clock}

pub data CommandType : Type 0 where
  invalid connect disconnect append relay sources versions list_commands quit : CommandType

pub record Command : Type 0 where
  pub kind : CommandType
  pub url : List ℕ
  pub source : ℕ
  pub entry : Data
  pub name : List ℕ

-- Command command = {};
abbrev pub empty_command : Command
empty_command = record { kind = invalid; url = []; source = 0; entry = empty_data; name = [] }

unfoldable pub text_eq : List ℕ → List ℕ → Bool
text_eq [] [] = true
text_eq [] (y ∷ ys) = false
text_eq (x ∷ xs) [] = false
text_eq (x ∷ xs) (y ∷ ys) = x == y && text_eq xs ys

-- kNameTypeMap
abbrev pub command_types : List (List ℕ × CommandType)
command_types =
    (codes "connect", connect)
    ∷ (codes "disconnect", disconnect)
    ∷ (codes "add", append)
    ∷ (codes "relay", relay)
    ∷ (codes "sources", sources)
    ∷ (codes "list", list_commands)
    ∷ (codes "quit", quit)
    ∷ []

unfoldable pub find_type : List ℕ → List (List ℕ × CommandType) → Option CommandType
unfolding text_eq
find_type name [] = none
find_type name ((known, kind) ∷ rest) =
    if text_eq name known then some kind else find_type name rest

-- The word at the front, up to a space, and what follows.
unfoldable pub word_in : List ℕ → List ℕ × List ℕ
word_in [] = ([], [])
word_in (c ∷ rest) =
    let (word, left) = word_in rest in if is_space c then ([], c ∷ rest) else (c ∷ word, left)

abbrev pub after_word : List ℕ × List ℕ → List ℕ × Stream
after_word (word, []) = (word, record { text = []; eof = true; fail = false })
after_word (word, c ∷ left) = (word, fresh (c ∷ left))

-- in >> text, of a string that was empty
unfoldable pub read_word : Stream → List ℕ × Stream
unfolding word_in skip_space
read_word s =
    if good s
    then elim (skip_space s.text) [
      | [] ↦ ([], record { text = []; eof = true; fail = true })
      | c ∷ rest ↦ after_word (word_in (c ∷ rest))
    ]
    else ([], record s { fail = true })

abbrev pub clock_or_end : Data → Option ℕ × Stream → Bool × Data × Stream
clock_or_end d (seen, s) =
    if is_char line_feed seen || s.eof
    then (true, d, s)
    else member read_clock (λ d. d.alters) (λ d alters. record d { alters = alters }) d s

-- `ReadSpaces(in)`, and the rest of ReadValueAndOptionalClock
unfoldable pub read_optional_clock : Step Data
read_optional_clock d s = clock_or_end d (peek (read_spaces s).1)

-- ReadValueAndOptionalClock
unfoldable pub read_value_and_optional_clock : Step Data
read_value_and_optional_clock =
    number read_i64 (λ d. d.value) (λ d value. record d { value = value })
    then_read read_optional_clock

-- ReadData
unfoldable pub read_data : Step Data
read_data =
    number (read_u64 16) (λ d. d.id) (λ d id. record d { id = id })
    then_read read_value_and_optional_clock

-- What std::stoi throws, or its value as a `Source`.
pub data Parsed (A : Type 0) : Type 0 where
  ok : A → Parsed A
  throws : Parsed A

-- command.source = std::stoi(argument)
unfoldable pub stoi : List ℕ → Parsed ℕ
unfolding scan skip_space
stoi text =
    let (negative, value, found, rest) = scan 10 (skip_space text) in
    if not found || ltb (if negative then 2 ^ 31 else 2 ^ 31 - 1) value
    then throws
    else ok (if negative then (2 ^ 32 - value) % 2 ^ 32 else value)

abbrev pub with_entry : Command → CommandType → Bool × Data × Stream → Parsed Command
with_entry c kind (read, d, s) = ok (record c { kind = if read then kind else invalid; entry = d })

abbrev pub with_source : Command → Parsed ℕ → Parsed Command
with_source c throws = throws
with_source c (ok source) = ok (record c { kind = disconnect; source = source })

-- The switch of Command::Read, on the type that the name stands for.
unfoldable pub read_arguments : Command → CommandType → Stream → Parsed Command
read_arguments c connect s = ok (record c { kind = connect; url = (read_word s).0 })
read_arguments c relay s = with_entry c relay (read_data c.entry s)
read_arguments c append s = with_entry c append (read_value_and_optional_clock c.entry s)
read_arguments c disconnect s = with_source c (stoi (read_word s).0)
read_arguments c kind s = ok (record c { kind = kind })

abbrev pub read_known : Command → Option CommandType → Stream → Parsed Command
read_known c none s = ok c
read_known c (some kind) s = read_arguments c kind s

-- Command::Read
unfoldable pub read_command : Stream → Parsed Command
read_command s =
    let (name, s') = read_word s in
    read_known (record empty_command { name = name }) (find_type name command_types) s'
