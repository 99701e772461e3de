-- ===== src/Broker/Printing.antt =====
-- The text forms of cashmere/src/brokerbase.cpp.
use cashmere.Base.{ℕ, List, [], ◌∷◌, ◌++◌, codes}
use cashmere.Text.{print_u64, print_i64, comma, space, open_curly, close_curly}
use cashmere.Text.Clocks.{print_clock}
use cashmere.Broker.{ConnectionInfo, IdConnectionInfoMap, SourcesMap, IdClockMap}

-- operator<<(std::ostream&, const ConnectionInfo&)
unfoldable pub print_info : ConnectionInfo → List ℕ → List ℕ
print_info info out =
    codes "ConnectionInfo{ .distance = "
    ++ print_i64 info.distance (codes ", .version = " ++ print_clock info.clock (close_curly ∷ out))

module _ {V : Type 0} (base : ℕ) (print_value : V → List ℕ → List ℕ) where
  -- "{" and a key and ", " and a value and "}"
  abbrev print_item : ℕ × V → List ℕ → List ℕ
  print_item (k, v) out =
      open_curly ∷ print_u64 base k (comma ∷ space ∷ print_value v (close_curly ∷ out))

  abbrev print_more : List (ℕ × V) → List ℕ → List ℕ
  print_more [] out = out
  print_more (item ∷ rest) out = comma ∷ space ∷ print_item item (print_more rest out)

  -- The items, with ", " between them.
  abbrev print_items : List (ℕ × V) → List ℕ → List ℕ
  print_items [] out = out
  print_items (item ∷ rest) out = print_item item (print_more rest out)

-- operator<<(std::ostream&, const IdConnectionInfoMap&)
unfoldable pub print_infos : IdConnectionInfoMap → List ℕ → List ℕ
unfolding print_info
print_infos infos out =
    codes "IdConnectionInfoMap{" ++ print_items 16 print_info infos (close_curly ∷ out)

-- operator<<(std::ostream&, const SourcesMap&)
unfoldable pub print_sources : SourcesMap → List ℕ → List ℕ
unfolding print_infos
print_sources sources out =
    codes "SourcesMap{" ++ print_items 10 print_infos sources (close_curly ∷ out)

-- operator<<(std::ostream&, const IdClockMap&)
unfoldable pub print_versions : IdClockMap → List ℕ → List ℕ
print_versions versions out =
    codes "IdClockMap{" ++ print_items 16 print_clock versions (close_curly ∷ out)
