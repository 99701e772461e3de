-- ===== src/Command/Examples.antt =====
-- The theorems on commands at concrete inputs.
use cashmere.Base.{◌≡◌, refl, [], ◌∷◌, arith, codes}
use cashmere.Base.Int.{negsuc}
use cashmere.Entry.{Data}
use cashmere.Text.{fresh, print_u64, print_i64}
use cashmere.Text.Clocks.{print_clock, print_pair, print_pairs}
use cashmere.Text.RoundTrip.{IsPrintable}
use cashmere.Command.{relay, ok, read_command}
use cashmere.Command.RoundTrip.{relay_line, read_command-relay_line}

abbrev debt : Data
debt = record { id = 0xaaff; value = negsuc 9; alters = (0xaaff, 1) ∷ [] }

debt-IsPrintable : IsPrintable debt
debt-IsPrintable = record {
  id_fits = omega arith;
  value_fits = omega arith;
  alters_sorted = tt;
  alters_fit = ((omega arith, omega arith), tt);
}

line_test : relay_line debt [] ≡ codes "relay aaff -10 {{aaff, 1}}"
unfolding relay_line print_u64 print_i64 print_clock print_pair print_pairs
line_test = refl

read_command-relay_line_example :
    read_command (fresh (relay_line debt []))
    ≡ ok (record { kind = relay; url = []; source = 0; entry = debt; name = codes "relay" })
read_command-relay_line_example = read_command-relay_line debt [] debt-IsPrintable
