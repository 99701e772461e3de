-- ===== src/JournalFile/Examples.antt =====
-- The theorems on the journal in files at concrete inputs.
use cashmere.Base.{ℕ, ◌≡◌, refl, [], ◌∷◌, some, arith, codes}
use cashmere.Base.Int.{pos, negsuc}
use cashmere.Clock.{Clock, clock_eq}
use cashmere.Entry.{Entry}
use cashmere.Text.RoundTrip.{IsPrintableEntry}
use cashmere.Files.{FilePath, Files, filename}
use cashmere.JournalFile.{save, entry, entries}
use cashmere.JournalFile.Lines.{lines, ArePrintable}
use cashmere.JournalFile.Log.{Logs, Holds, save-Holds, entry-Holds}
use cashmere.JournalFile.Saved.{
  save_all, no_files, no_logs, logs_of, save_all-Holds, logs_of-ArePrintable, entries-save_all,
}

abbrev place : FilePath
place = codes "/tmp/db"

abbrev clock_a : Clock
clock_a = (0xa, 1) ∷ []

abbrev clock_b : Clock
clock_b = (0xa, 1) ∷ (0xb, 1) ∷ []

abbrev first : Entry
first = record { clock = clock_a; entry = record { id = 0xa; value = pos 100; alters = [] } }

abbrev second : Entry
second = record { clock = clock_b; entry = record { id = 0xb; value = negsuc 4; alters = clock_a } }

first-IsPrintableEntry : IsPrintableEntry first
first-IsPrintableEntry = record {
  clock_sorted = tt;
  clock_fits = ((omega arith, omega arith), tt);
  data_printable = record {
    id_fits = omega arith;
    value_fits = omega arith;
    alters_sorted = tt;
    alters_fit = tt;
  };
}

second-IsPrintableEntry : IsPrintableEntry second
second-IsPrintableEntry = record {
  clock_sorted = (refl, tt);
  clock_fits = ((omega arith, omega arith), ((omega arith, omega arith), tt));
  data_printable = record {
    id_fits = omega arith;
    value_fits = omega arith;
    alters_sorted = tt;
    alters_fit = ((omega arith, omega arith), tt);
  };
}

both-ArePrintable : ArePrintable (first ∷ second ∷ [])
both-ArePrintable = (first-IsPrintableEntry, (second-IsPrintableEntry, tt))

entries-save_all_example :
    entries place clock_b (save_all place (second ∷ first ∷ []) no_files) ≡ first ∷ second ∷ []
entries-save_all_example =
    entries-save_all place (second ∷ first ∷ []) clock_b
      (second-IsPrintableEntry, (first-IsPrintableEntry, tt)) (refl, (refl, tt))

save-Holds_example : (save place first no_files).1 (filename place 0xa) ≡ some (lines (first ∷ []))
save-Holds_example = save-Holds place first no_files no_logs (λ id. refl) 0xa

-- The files with both entries.
abbrev stored : Files
stored = save_all place (first ∷ second ∷ []) no_files

abbrev stored_logs : Logs
stored_logs = logs_of (first ∷ second ∷ []) no_logs

stored-Holds : Holds place stored stored_logs
stored-Holds = save_all-Holds place (first ∷ second ∷ []) no_files no_logs (λ id. refl)

stored-ArePrintable : (id : ℕ) → ArePrintable (stored_logs id)
stored-ArePrintable =
    logs_of-ArePrintable (first ∷ second ∷ []) no_logs both-ArePrintable (λ id. tt)

entry-Holds_example : entry place clock_b stored ≡ second.entry
unfolding clock_eq
entry-Holds_example =
    entry-Holds place stored stored_logs stored-Holds stored-ArePrintable clock_b
      (omega arith, omega arith, (omega arith, omega arith, tt))
