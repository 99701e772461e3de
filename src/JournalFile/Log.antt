-- ===== src/JournalFile/Log.antt =====
-- The files of a journal are a log of entries for each device.
use cashmere.Base.{
  ℕ, zero, suc, ◌-◌, ◌≤◌, ◌<◌, ◌≡◌, refl, sym, ap, ◌∙◌, true, List, [], ◌∷◌, ◌++◌, Option, none,
  some, length, get_elem?, arith, ◌==◌, ==_iff, if◌then◌else◌, Bool-cases, inl, inr,
}
use cashmere.Clock.{Clock, clock_eq}
use cashmere.Entry.{Data, Entry, empty_data}
use cashmere.Text.{Stream, line_feed}
use cashmere.Text.Entries.{print_entry, read_entry, empty_entry}
use cashmere.Files.{
  feeds, open_text, FilePath, Files, contents, append_to, open_file, filename, line_count,
  seek_to_line,
}
use cashmere.Files.Names.{path_eq-filename}
use cashmere.JournalFile.{save, entry_in, entry, read_lines, entries}
use cashmere.JournalFile.Lines.{
  lines, ArePrintable, read_lines-lines, lines-append, feeds-lines, seek_lines-lines,
}

abbrev pub Logs : Type 0
Logs = ℕ → List Entry

abbrev pub file_of : List Entry → Option (List ℕ)
file_of [] = none
file_of (e ∷ rest) = some (lines (e ∷ rest))

-- Below the location, each device's file has the lines of its log, and there is none for no lines.
abbrev pub Holds : FilePath → Files → Logs → Type 0
Holds location files logs = (id : ℕ) → files (filename location id) ≡ file_of (logs id)

-- The log of the device of an entry is longer by it.
abbrev pub record_entry : Entry → Logs → Logs
record_entry e logs id = if e.entry.id == id then logs id ++ e ∷ [] else logs id

contents-file_of : (es : List Entry) → contents (file_of es) ≡ lines es
contents-file_of [] = refl
contents-file_of (e ∷ rest) = refl

file_of-append :
    (es : List Entry) (e : Entry) → file_of (es ++ e ∷ []) ≡ some (lines (es ++ e ∷ []))
file_of-append [] e = refl
file_of-append (x ∷ rest) e = refl

-- What is in the file of `id` after an entry is appended to the file of `i`.
appended :
    (location : FilePath) (i id : ℕ) (text : List ℕ) (files : Files)
    → append_to (filename location i) text files (filename location id) ≡ (
        if i == id
        then some (contents (files (filename location i)) ++ text)
        else files (filename location id))
unfolding append_to
appended location i id text files =
    ap
      (λ b.
        if b
        then some (contents (files (filename location i)) ++ text)
        else files (filename location id))
      (path_eq-filename location i id)

module _ (location : FilePath) where
  longer :
      (e : Entry) (i id : ℕ) (files : Files) (logs : Logs)
      → Holds location files logs
      → i ≡ id
      → contents (files (filename location i)) ++ print_entry e (line_feed ∷ [])
        ≡ lines (logs id ++ e ∷ [])
  longer e i id files logs h same =
      ap (λ i. contents (files (filename location i)) ++ print_entry e (line_feed ∷ [])) same
      ∙ ap (λ f. contents f ++ print_entry e (line_feed ∷ [])) (h id)
      ∙ ap (λ t. t ++ print_entry e (line_feed ∷ [])) (contents-file_of (logs id))
      ∙ lines-append (logs id) e

  -- JournalFile::save puts an entry at the end of the log of its device, and leaves every other
  -- device's log as it is.
  pub save-Holds :
      (e : Entry) (files : Files) (logs : Logs)
      → Holds location files logs
      → Holds location (save location e files).1 (record_entry e logs)
  unfolding save
  save-Holds e files logs h id =
      appended location e.entry.id id (print_entry e (line_feed ∷ [])) files
      ∙ elim (Bool-cases (e.entry.id == id)) [
        | inl same ↦ rw same (
            ap some (longer e e.entry.id id files logs h ((==_iff e.entry.id id).0 same))
            ∙ sym (file_of-append (logs id) e))
        | inr other ↦ rw other (h id)
      ]

  -- LineCount is the number of entries of the device's log.
  line_count-Holds :
      (files : Files) (logs : Logs) (id : ℕ)
      → Holds location files logs
      → line_count (filename location id) files ≡ length (logs id)
  unfolding line_count
  line_count-Holds files logs id h =
      ap (λ f. feeds (contents f)) (h id)
      ∙ ap feeds (contents-file_of (logs id))
      ∙ feeds-lines (logs id)

-- The logs of the devices of a clock, in the order of their ids.
abbrev pub in_order : Clock → Logs → List Entry
in_order [] logs = []
in_order ((id, count) ∷ rest) logs = logs id ++ in_order rest logs

-- Each device's count in the clock is the length of its log.
abbrev pub Counts : Clock → Logs → Type 0
Counts [] logs = Unit {0}
Counts ((id, count) ∷ rest) logs = (count ≡ length (logs id)) × Counts rest logs

read_file :
    (es : List Entry) → ArePrintable es → read_lines (length es) (open_text (file_of es)) ≡ es
read_file [] p = unfold read_lines in refl
read_file (e ∷ rest) p = read_lines-lines (e ∷ rest) p

module _ (location : FilePath) (files : Files) (logs : Logs) (h : Holds location files logs)
    (p : (id : ℕ) → ArePrintable (logs id)) where
  -- JournalFile::entries gives the logs of the devices that the clock names, whole and in the order
  -- of their ids, when the clock counts their entries.
  pub entries-Holds : (c : Clock) → Counts c logs → entries location c files ≡ in_order c logs
  unfolding entries open_file
  entries-Holds [] n = refl
  entries-Holds ((id, count) ∷ rest) n =
      ap (λ es. es ++ entries location rest files)
        (ap (λ k. read_lines k (open_text (files (filename location id)))) n.0
          ∙ ap (λ f. read_lines (length (logs id)) (open_text f)) (h id)
          ∙ read_file (logs id) (p id))
      ∙ ap (λ es. logs id ++ es) (entries-Holds rest n.1)

-- The entry that a clock names: the one of an id's log, at the id's count, that has the clock.
abbrev pub chosen : Clock → Option Entry → Data → Data
chosen clock none later = empty_data
chosen clock (some e) later = if clock_eq e.clock clock then e.entry else later

abbrev pub named : Clock → Clock → Logs → Data
named clock [] logs = empty_data
named clock ((id, count) ∷ rest) logs =
    chosen clock (get_elem? (logs id) (count - 1)) (named clock rest logs)

-- The journal has recorded each event that the clock counts.
abbrev pub Recorded : Clock → Logs → Type 0
Recorded [] logs = Unit {0}
Recorded ((id, count) ∷ rest) logs = (0 < count) × (count ≤ length (logs id)) × Recorded rest logs

seek_file :
    (es : List Entry) (k : ℕ) (e : Entry)
    → ArePrintable es
    → get_elem? es k ≡ some e
    → (s : Stream) × (seek_to_line (suc k) (open_text (file_of es)) ≡ (true, s))
      × ((read_entry empty_entry s).1 ≡ e)
unfolding seek_to_line
seek_file [] k e p h = cc
seek_file (x ∷ es) k e p h =
    let line = seek_lines-lines k (x ∷ es) e p h in
    (line.0, ap (λ r. (r.0 == 1, r.1)) line.1, line.2)

get_elem?-lt : (es : List Entry) (k : ℕ) → k < length es → (e : Entry) × (get_elem? es k ≡ some e)
get_elem?-lt [] k h = absurd (omega arith)
get_elem?-lt (x ∷ es) zero h = (x, refl)
get_elem?-lt (x ∷ es) (suc k) h = get_elem?-lt es k (omega arith)

module _ (location : FilePath) (files : Files) (logs : Logs) (h : Holds location files logs)
    (p : (id : ℕ) → ArePrintable (logs id)) where
  entry_in-Holds :
      (clock c : Clock) → Recorded c logs → entry_in location clock c files ≡ named clock c logs
  unfolding entry_in open_file
  entry_in-Holds clock [] r = refl
  entry_in-Holds clock ((id, zero) ∷ rest) r = absurd (omega (arith, r.0))
  entry_in-Holds clock ((id, suc k) ∷ rest) r =
      let there = get_elem?-lt (logs id) k (omega (arith, r.1)) in
      let line = seek_file (logs id) k there.0 (p id) there.1 in
      let at_line : Stream → Data = λ s.
        let e = (read_entry empty_entry s).1 in
        if clock_eq e.clock clock then e.entry else entry_in location clock rest files in
      let taken : Entry → Data → Data =
        λ e later. if clock_eq e.clock clock then e.entry else later in
      ap (λ r. if r.0 then at_line r.1 else empty_data)
        (ap (λ f. seek_to_line (suc k) (open_text f)) (h id) ∙ line.1)
      ∙ ap (λ e. taken e (entry_in location clock rest files)) line.2
      ∙ ap (taken there.0) (entry_in-Holds clock rest r.2)
      ∙ ap (λ o. chosen clock o (named clock rest logs))
          (sym (ap (get_elem? (logs id)) (omega arith) ∙ there.1))

  -- For a clock whose counted events the journal has all recorded, JournalFile::entry gives the entry
  -- of that clock which stands in an id's log at the id's count, and no data if there is none.
  pub entry-Holds :
      (clock : Clock) → Recorded clock logs → entry location clock files ≡ named clock clock logs
  unfolding entry
  entry-Holds clock r = entry_in-Holds clock clock r
