-- ===== src/Command/Options.antt =====
-- The options of the program: the class `Options` of src/cli/options.cpp. What `getopt` finds is given:
-- the options with their arguments, in order, and the words from `optind` on.
use cashmere.Base.{
  ℕ, Bool, true, false, not, ◌≡◌, refl, ap, ◌∙◌, List, [], ◌∷◌, ◌++◌, Option, none, some, arith,
  ◌==◌, if◌then◌else◌, codes, Bool-cases, List-cases, ◌⊎◌, inl, inr,
}
use cashmere.Text.{Stream, fresh, space, skip_space, read_u64}
use cashmere.Command.{Command, empty_command, Parsed, ok, throws, stoi, read_command}

pub data Status : Type 0 where
  fine invalid_argument invalid_option_argument missing_command missing_command_argument
        missing_option :
      Status

-- `option` and `option_argument` are those of the error.
pub record Options : Type 0 where
  pub id : ℕ
  pub source : ℕ
  pub hostname : List ℕ
  pub service : Bool
  pub db_path : List ℕ
  pub command : Command
  pub status : Status
  pub option : ℕ
  pub option_argument : List ℕ

-- Options::Options(); the error's option has no value in the source.
abbrev pub default_options : Options
default_options = record {
  id = 0;
  source = 54321;
  hostname = codes "0.0.0.0";
  service = false;
  db_path = [];
  command = empty_command;
  status = fine;
  option = 0;
  option_argument = [];
}

-- Options::ok
unfoldable pub is_ok : Options → Bool
is_ok o = elim o.status [ fine ↦ true | _ ↦ false ]

abbrev with_id : Options → ℕ × Stream → Options
with_id o (id, s) = record o {
  id = id;
  status = if s.fail then invalid_option_argument else o.status;
}

abbrev with_port : Options → Parsed ℕ → Options
with_port o throws = record o { status = invalid_option_argument }
with_port o (ok port) = record o { source = port }

-- The switch on an option and its argument.
unfoldable pub read_option : ℕ × List ℕ → Options → Options
read_option (c, argument) o =
    if c == b'i'
    then with_id o (read_u64 16 o.id (fresh argument))
    else if c == b'd'
    then record o { db_path = argument }
    else if c == b'p'
    then with_port o (stoi argument)
    else if c == b'h'
    then record o { hostname = argument }
    else if c == b's'
    then record o { service = true }
    else o

-- The loop, and what it leaves of the option that ended it.
unfoldable pub read_options : List (ℕ × List ℕ) → Options → Options
unfolding read_option is_ok
read_options [] o = o
read_options (x ∷ rest) o =
    let o' = read_option x o in
    let later = read_options rest o' in
    if is_ok o' then later else record o' { option = x.0; option_argument = x.1 }

-- ss << argv[optind] << " "
abbrev pub join : List (List ℕ) → List ℕ
join [] = []
join (word ∷ rest) = word ++ space ∷ join rest

abbrev with_command : Options → Parsed Command → Parsed Options
with_command o throws = throws
with_command o (ok command) = ok (record o { command = command })

-- The command, when the options are fine.
unfoldable pub read_words : List (List ℕ) → Options → Parsed Options
read_words [] o = ok (if o.service then o else record o { status = missing_command })
read_words (word ∷ rest) o = with_command o (read_command (fresh (join (word ∷ rest))))

-- Options::Options(int, char*[])
unfoldable pub parse_options : List (ℕ × List ℕ) → List (List ℕ) → Parsed Options
unfolding read_options read_words is_ok
parse_options found words =
    let o = read_options found default_options in if is_ok o then read_words words o else ok o

-- An option whose argument cannot be read: an id that is no hexadecimal number, a port that is no number.
abbrev pub is_bad : ℕ × List ℕ → Bool
is_bad (c, argument) =
    if c == b'i'
    then (read_u64 16 0 (fresh argument)).1.fail
    else if c == b'p'
    then elim (stoi argument) [ throws ↦ true | ok port ↦ false ]
    else false

abbrev pub first_bad : List (ℕ × List ℕ) → Option (ℕ × List ℕ)
first_bad [] = none
first_bad (x ∷ rest) = if is_bad x then some x else first_bad rest

-- The option that is reported.
abbrev pub reported : Options → Option (ℕ × List ℕ)
reported o = if is_ok o then none else some (o.option, o.option_argument)

-- Whether a number can be read does not depend on the variable.
read_u64_stream :
    (base a b : ℕ) (text : List ℕ)
    → (read_u64 base a (fresh text)).1 ≡ (read_u64 base b (fresh text)).1
unfolding read_u64
read_u64_stream base a b text = elim (List-cases (skip_space text)) [
  | inl e ↦ rw e refl
  | inr e ↦ rw e.2 refl
]

Parsed-cases : {A : Type 0} (p : Parsed A) → (p ≡ throws) ⊎ ((a : A) × (p ≡ ok a))
Parsed-cases throws = inl refl
Parsed-cases (ok a) = inr (a, refl)

read_option-is_bad :
    (x : ℕ × List ℕ) (o : Options) → is_ok o ≡ true → is_ok (read_option x o) ≡ not (is_bad x)
unfolding read_option is_ok
read_option-is_bad (c, argument) o h =
    let same_stream = read_u64_stream 16 o.id 0 argument in
    elim (Parsed-cases (stoi argument)) [
      | inl e ↦ ground (arith, e, h, same_stream)
      | inr e ↦ ground (arith, e.1, h, same_stream)
    ]

is_ok_report :
    (o : Options) (c : ℕ) (argument : List ℕ)
    → is_ok (record o { option = c; option_argument = argument }) ≡ is_ok o
unfolding is_ok
is_ok_report o c argument = refl

-- The loop stops at the first option whose argument cannot be read and reports it, and reports nothing if
-- there is none.
pub read_options-first_bad :
    (found : List (ℕ × List ℕ)) (o : Options)
    → is_ok o ≡ true
    → reported (read_options found o) ≡ first_bad found
unfolding read_options
read_options-first_bad [] o h = rw h refl
read_options-first_bad (x ∷ rest) o h = elim (Bool-cases (is_bad x)) [
  | inl bad ↦
      let stops = read_option-is_bad x o h ∙ ap not bad in
      rw (stops, bad) (rw (is_ok_report (read_option x o) x.0 x.1, stops) refl)
  | inr good ↦
      let goes_on = read_option-is_bad x o h ∙ ap not good in
      rw (goes_on, good) (read_options-first_bad rest (read_option x o) goes_on)
]
