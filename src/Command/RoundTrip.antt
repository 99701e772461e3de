-- ===== src/Command/RoundTrip.antt =====
-- The commands that users write, read.
use cashmere.Base.{
  ℕ, ◌^◌, ◌<◌, ◌≡◌, refl, ap, ◌∙◌, Bool, true, false, List, [], ◌∷◌, ◌++◌, none, some, arith, codes,
}
use cashmere.Base.Int.{ℤ, pos}
use cashmere.OrderedMap.{IsSorted, nat_order}
use cashmere.Clock.{Clock}
use cashmere.Entry.{Data, empty_data}
use cashmere.Text.{
  Stream, fresh, peek, read_spaces, digit_of, scan, skip_space, read_u64, read_i64, print_u64,
  print_i64, space, open_curly,
}
use cashmere.Text.Numbers.{
  hex-IsBase, read_u64-print_u64, read_u64-space, IsI64, read_i64-print_i64, read_i64-space,
}
use cashmere.Text.Clocks.{print_clock, read_clock}
use cashmere.Text.RoundTrip.{AreU64, read_clock-print_clock, IsPrintable}
use cashmere.Command.{
  Command, disconnect, relay, empty_command, command_types, find_type, text_eq, read_word,
  read_optional_clock, read_value_and_optional_clock, read_data, ok, throws, stoi, read_arguments,
  read_command, read_known, with_entry, with_source,
}

space_stops_hex : digit_of 16 space ≡ none
unfolding digit_of
space_stops_hex = refl

space_stops : digit_of 10 space ≡ none
unfolding digit_of
space_stops = refl

-- An amount between spaces.
read_amount :
    (old x : ℤ) (rest : List ℕ)
    → IsI64 x
    → read_i64 old (fresh (space ∷ print_i64 x (space ∷ rest))) ≡ (x, fresh (space ∷ rest))
read_amount old x rest h =
    read_i64-space old _
    ∙ read_i64-print_i64 old x space rest h space_stops (omega arith) (omega arith)

read_device :
    (old id : ℕ) (rest : List ℕ)
    → id < 2 ^ 64
    → read_u64 16 old (fresh (space ∷ print_u64 16 id (space ∷ rest))) ≡ (id, fresh (space ∷ rest))
read_device old id rest h =
    read_u64-space 16 hex-IsBase old _
    ∙ read_u64-print_u64 16 hex-IsBase old id space rest h space_stops_hex (omega arith)
        (omega arith)

abbrev with_alters : Data → Bool × Clock × Stream → Bool × Data × Stream
with_alters d (read, c, s) = (read, record d { alters = c }, s)

-- A clock behind a space is read, and so is the end of the text.
optional_open :
    (d : Data) (text : List ℕ)
    → read_optional_clock d (fresh (space ∷ open_curly ∷ text))
      ≡ with_alters d (read_clock d.alters (fresh (open_curly ∷ text)))
unfolding read_optional_clock read_spaces peek
optional_open d text = refl

optional_clock :
    (d : Data) (c : Clock) (rest : List ℕ)
    → d.alters ≡ []
    → IsSorted c
    → AreU64 c
    → read_optional_clock d (fresh (space ∷ print_clock c rest))
      ≡ (true, record d { alters = c }, fresh rest)
optional_clock d [] rest e s fits =
    unfold print_clock in
    (optional_open d _
      ∙ ap (λ a. with_alters d (read_clock a (fresh (print_clock [] rest)))) e
      ∙ ap (with_alters d) (read_clock-print_clock [] rest s fits))
optional_clock d (pair ∷ ps) rest e s fits =
    unfold print_clock in
    (optional_open d _
      ∙ ap (λ a. with_alters d (read_clock a (fresh (print_clock (pair ∷ ps) rest)))) e
      ∙ ap (with_alters d) (read_clock-print_clock (pair ∷ ps) rest s fits))

optional_end :
    (d : Data)
    → read_optional_clock d (fresh (space ∷ []))
      ≡ (true, d, record { text = []; eof = true; fail = true })
unfolding read_optional_clock read_spaces peek
optional_end d = refl

-- What a user writes to relay data: the id, the amount and the clock of the event to alter.
unfoldable pub relay_line : Data → List ℕ → List ℕ
relay_line d rest =
    codes "relay"
    ++ space ∷ print_u64 16 d.id (space ∷ print_i64 d.value (space ∷ print_clock d.alters rest))

name_of :
    (rest : List ℕ)
    → read_word (fresh (codes "relay" ++ space ∷ rest)) ≡ (codes "relay", fresh (space ∷ rest))
unfolding read_word
name_of rest = refl

read_data_line :
    (d : Data) (rest : List ℕ)
    → IsPrintable d
    → read_data empty_data (
        fresh (
          space
          ∷ print_u64 16 d.id (space ∷ print_i64 d.value (space ∷ print_clock d.alters rest))))
      ≡ (true, d, fresh rest)
unfolding read_data read_value_and_optional_clock
read_data_line d rest h = rw (read_device 0 d.id _ h.id_fits) (
    rw (read_amount (pos 0) d.value _ h.value_fits) (
      optional_clock (record { id = d.id; value = d.value; alters = [] }) d.alters rest refl
        h.alters_sorted h.alters_fit))

abbrev named : List ℕ → Command
named name = record empty_command { name = name }

after_name :
    (text name : List ℕ) (s : Stream)
    → read_word (fresh text) ≡ (name, s)
    → read_command (fresh text) ≡ read_known (named name) (find_type name command_types) s
unfolding read_command
after_name text name s e = ap (λ r. read_known (named r.0) (find_type r.0 command_types) r.1) e

relay_known : find_type (codes "relay") command_types ≡ some relay
unfolding find_type text_eq
relay_known = refl

disconnect_known : find_type (codes "disconnect") command_types ≡ some disconnect
unfolding find_type text_eq
disconnect_known = refl

-- Command::Read takes a relay line that names an id, an amount and a clock for what it says, whatever
-- follows the clock, for data of 64-bit numbers and a well-formed clock.
pub read_command-relay_line :
    (d : Data) (rest : List ℕ)
    → IsPrintable d
    → read_command (fresh (relay_line d rest))
      ≡ ok (record { kind = relay; url = []; source = 0; entry = d; name = codes "relay" })
unfolding relay_line read_arguments
read_command-relay_line d rest h =
    after_name (relay_line d rest) (codes "relay") _ (name_of _)
    ∙ ap
        (λ k. read_known (named (codes "relay")) k (
          fresh (
            space
            ∷ print_u64 16 d.id (space ∷ print_i64 d.value (space ∷ print_clock d.alters rest)))))
        relay_known
    ∙ ap (with_entry (named (codes "relay")) relay) (read_data_line d rest h)

no_number : (word : List ℕ) → (scan 10 (skip_space word)).2 ≡ false → stoi word ≡ throws
unfolding stoi
no_number word h = ground (arith, h)

-- The name `disconnect` and then a word that does not begin with a number, or no word: std::stoi throws,
-- and Command::Read does not catch it.
pub disconnect_throws :
    (line : List ℕ)
    → (read_word (fresh line)).0 ≡ codes "disconnect"
    → (scan 10 (skip_space (read_word (read_word (fresh line)).1).0)).2 ≡ false
    → read_command (fresh line) ≡ throws
unfolding read_arguments
disconnect_throws line e h =
    let s = (read_word (fresh line)).1 in
    after_name line (codes "disconnect") s (ap (λ name. (name, s)) e)
    ∙ ap (λ k. read_known (named (codes "disconnect")) k s) disconnect_known
    ∙ ap (with_source (named (codes "disconnect"))) (no_number (read_word s).0 h)
