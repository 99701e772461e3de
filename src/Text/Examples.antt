-- ===== src/Text/Examples.antt =====
-- The theorems on text forms at concrete inputs.
use cashmere.Base.{◌≡◌, refl, true, false, some, [], ◌∷◌, arith, codes}
use cashmere.Base.Int.{negsuc}
use cashmere.OrderedMap.{assign, nat_order}
use cashmere.Clock.{Clock}
use cashmere.Entry.{Entry}
use cashmere.Text.{fresh, peek, get, read_spaces, read_char, read_u64, read_pair}
use cashmere.Text.Termination.{read_pairs_ends}
use cashmere.Text.Clocks.{read_pairs, read_loop}
use cashmere.Text.Entries.{print_entry, read_entry, empty_entry}
use cashmere.Text.RoundTrip.{AreU64, IsPrintable, IsPrintableEntry, read_entry-print_entry}

abbrev two_devices : Clock
two_devices = (0xaa, 1) ∷ (0xff, 20) ∷ []

two_devices-AreU64 : AreU64 two_devices
two_devices-AreU64 = ((omega arith, omega arith), ((omega arith, omega arith), tt))

-- An edit that takes 5 off.
abbrev edit : Entry
edit = record {
  clock = two_devices;
  entry = record { id = 0xff; value = negsuc 4; alters = (0xaa, 1) ∷ [] };
}

edit-IsPrintable : IsPrintable edit.entry
edit-IsPrintable = record {
  id_fits = omega arith;
  value_fits = omega arith;
  alters_sorted = tt;
  alters_fit = ((omega arith, omega arith), tt);
}

edit-IsPrintableEntry : IsPrintableEntry edit
edit-IsPrintableEntry = record {
  clock_sorted = (refl, tt);
  clock_fits = two_devices-AreU64;
  data_printable = edit-IsPrintable;
}

read_entry-print_entry_example :
    read_entry empty_entry (fresh (print_entry edit (codes "\n{}")))
    ≡ (true, edit, fresh (codes "\n{}"))
read_entry-print_entry_example = read_entry-print_entry edit (codes "\n{}") edit-IsPrintableEntry

read_pairs_ends_example :
    read_pairs 20 [] (fresh (codes "{aa, 1}, {ff, 2}}"))
    ≡ some (read_loop [] (fresh (codes "{aa, 1}, {ff, 2}}")))
read_pairs_ends_example = read_pairs_ends 20 [] (fresh (codes "{aa, 1}, {ff, 2}}")) (omega arith)

-- The end of the text ends the loop with a failure.
loop_fails : (read_loop [] (fresh (codes "{aa, 1}, "))).0 ≡ false
unfolding read_loop read_pairs read_pair read_char read_spaces peek get read_u64 assign
loop_fails = refl
