-- ===== src/JournalFile.antt =====
-- The journal in files, one for each device with a line for each event: JournalFile::save, entry and
-- entries of cashmere/plugins/src/file.cpp. The rest of a journal is that of Broker.antt.
pub mod Lines
pub mod Log
pub mod Saved
pub mod Examples
use cashmere.Base.{
  ℕ, zero, suc, Bool, true, false, List, [], ◌∷◌, ◌++◌, Option, none, ◌≡◌, refl, if◌then◌else◌,
  codes,
}
use cashmere.Base.Int.{pos}
use cashmere.Clock.{Clock, clock_eq}
use cashmere.Entry.{Data, Entry, empty_data}
use cashmere.Text.{Stream, read_char, line_feed}
use cashmere.Text.Entries.{print_entry, read_entry, empty_entry}
use cashmere.Files.{FilePath, Files, append_to, open_file, filename, seek_to_line}

module _ (location : FilePath) where
  -- JournalFile::save
  unfoldable pub save : Entry → Files → Bool × Files
  save e files =
      (true, append_to (filename location e.entry.id) (print_entry e (line_feed ∷ [])) files)

  -- The loop of JournalFile::entry over the pairs of the clock.
  unfoldable pub entry_in : Clock → Clock → Files → Data
  entry_in clock [] files = empty_data
  entry_in clock ((id, count) ∷ rest) files =
      let (found, s) = seek_to_line count (open_file (filename location id) files) in
      let e = (read_entry empty_entry s).1 in
      let later = entry_in clock rest files in
      if found then (if clock_eq e.clock clock then e.entry else later) else empty_data

  -- JournalFile::entry
  unfoldable pub entry : Clock → Files → Data
  unfolding entry_in
  entry clock files = entry_in clock clock files

-- The inner loop of JournalFile::entries.
unfoldable pub read_lines : ℕ → Stream → List Entry
read_lines zero s = []
read_lines (suc n) s =
    let (ok, e, s') = read_entry empty_entry s in
    let rest = read_lines n (read_char line_feed s').1 in if ok then e ∷ rest else rest

module _ (location : FilePath) where
  -- JournalFile::entries, of a journal whose clock this is.
  unfoldable pub entries : Clock → Files → List Entry
  unfolding read_lines
  entries [] files = []
  entries ((id, count) ∷ rest) files =
      read_lines count (open_file (filename location id) files) ++ entries rest files
