-- ===== src/JournalFile/Saved.antt =====
-- What was saved is read back.
use cashmere.Base.{ℕ, ◌≡◌, refl, List, [], ◌∷◌, ◌++◌, none, ◌==◌, Bool-cases, inl, inr}
use cashmere.Clock.{Clock}
use cashmere.Entry.{Entry}
use cashmere.Text.RoundTrip.{IsPrintableEntry}
use cashmere.Files.{FilePath, Files}
use cashmere.JournalFile.{save, entries}
use cashmere.JournalFile.Lines.{ArePrintable}
use cashmere.JournalFile.Log.{
  Logs, Holds, record_entry, save-Holds, in_order, Counts, entries-Holds,
}

-- One save after the other.
unfoldable pub save_all : FilePath → List Entry → Files → Files
save_all location [] files = files
save_all location (e ∷ rest) files = save_all location rest (save location e files).1

-- The entries of each device, in the order in which they were saved.
abbrev pub logs_of : List Entry → Logs → Logs
logs_of [] logs = logs
logs_of (e ∷ rest) logs = logs_of rest (record_entry e logs)

abbrev pub no_files : Files
no_files path = none

abbrev pub no_logs : Logs
no_logs id = []

pub save_all-Holds :
    (location : FilePath) (es : List Entry) (files : Files) (logs : Logs)
    → Holds location files logs
    → Holds location (save_all location es files) (logs_of es logs)
unfolding save_all
save_all-Holds location [] files logs h = h
save_all-Holds location (e ∷ rest) files logs h =
    save_all-Holds location rest (save location e files).1 (record_entry e logs)
      (save-Holds location e files logs h)

append-ArePrintable :
    (es : List Entry) (e : Entry)
    → ArePrintable es
    → IsPrintableEntry e
    → ArePrintable (es ++ e ∷ [])
append-ArePrintable [] e p q = (q, tt)
append-ArePrintable (x ∷ es) e p q = (p.0, append-ArePrintable es e p.1 q)

record_entry-ArePrintable :
    (e : Entry) (logs : Logs)
    → IsPrintableEntry e
    → ((id : ℕ) → ArePrintable (logs id))
    → (id : ℕ) → ArePrintable (record_entry e logs id)
record_entry-ArePrintable e logs q p id = elim (Bool-cases (e.entry.id == id)) [
  | inl same ↦ rw same (append-ArePrintable (logs id) e (p id) q)
  | inr other ↦ rw other (p id)
]

pub logs_of-ArePrintable :
    (es : List Entry) (logs : Logs)
    → ArePrintable es
    → ((id : ℕ) → ArePrintable (logs id))
    → (id : ℕ) → ArePrintable (logs_of es logs id)
logs_of-ArePrintable [] logs q p = p
logs_of-ArePrintable (e ∷ rest) logs q p =
    logs_of-ArePrintable rest (record_entry e logs) q.1 (record_entry-ArePrintable e logs q.0 p)

-- Entries that are saved into an empty directory, in any number and by any devices, are all read
-- back by JournalFile::entries, those of each device in the order in which they were saved, when the
-- clock counts them.
pub entries-save_all :
    (location : FilePath) (es : List Entry) (c : Clock)
    → ArePrintable es
    → Counts c (logs_of es no_logs)
    → entries location c (save_all location es no_files) ≡ in_order c (logs_of es no_logs)
entries-save_all location es c p n =
    entries-Holds location (save_all location es no_files) (logs_of es no_logs)
      (save_all-Holds location es no_files no_logs (λ id. refl))
      (logs_of-ArePrintable es no_logs p (λ id. tt)) c n
