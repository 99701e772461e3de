-- ===== src/Files/Examples.antt =====
-- The names of the files of two devices.
use cashmere.Base.{◌≡◌, refl, false, codes}
use cashmere.Text.{print_u64, print_from}
use cashmere.Files.{filename, path_eq, padded, directory}

names_test : path_eq (filename (codes "/tmp/db") 10) (filename (codes "/tmp/db") 11) ≡ false
unfolding path_eq filename padded directory print_u64 print_from
names_test = refl
