-- ===== src/JournalFile/Lines.antt =====
-- A file whose lines are printed entries.
use mathlib.Core.List.{append_assoc}
use cashmere.Base.{
  ℕ, zero, suc, ◌≡◌, refl, sym, ap, ◌∙◌, List, [], ◌∷◌, ◌++◌, some, length, get_elem?, arith,
}
use cashmere.Text.{Stream, fresh, line_feed}
use cashmere.Text.Entries.{print_entry, read_entry, empty_entry}
use cashmere.Text.RoundTrip.{IsPrintableEntry, read_entry-print_entry, read_char_here}
use cashmere.Entry.{Entry}
use cashmere.Text.Printers.{IsLine, print_entry-IsPrinter}
use cashmere.Files.{feeds, ignore_in, seek_lines}
use cashmere.JournalFile.{read_lines}

-- What is in a file of these entries.
abbrev pub lines : List Entry → List ℕ
lines [] = []
lines (e ∷ rest) = print_entry e (line_feed ∷ lines rest)

abbrev pub ArePrintable : List Entry → Type 0
ArePrintable [] = Unit {0}
ArePrintable (e ∷ rest) = IsPrintableEntry e × ArePrintable rest

-- As many lines as there are entries give the entries.
pub read_lines-lines :
    (es : List Entry) → ArePrintable es → read_lines (length es) (fresh (lines es)) ≡ es
unfolding read_lines
read_lines-lines [] p = refl
read_lines-lines (e ∷ rest) p = rw (read_entry-print_entry e (line_feed ∷ lines rest) p.0) (
    rw (read_char_here line_feed (lines rest) (omega arith))
      (ap (λ t. e ∷ t) (read_lines-lines rest p.1)))

feeds-append : (xs ys : List ℕ) → IsLine xs → feeds (xs ++ ys) ≡ feeds ys
unfolding feeds
feeds-append [] ys p = refl
feeds-append (x ∷ xs) ys p = ground (arith, p.0, feeds-append xs ys p.1)

ignore_in-append : (xs ys : List ℕ) → IsLine xs → ignore_in (xs ++ ys) ≡ ignore_in ys
unfolding ignore_in
ignore_in-append [] ys p = refl
ignore_in-append (x ∷ xs) ys p = ground (arith, p.0, ignore_in-append xs ys p.1)

-- A file has a line for each entry.
pub feeds-lines : (es : List Entry) → feeds (lines es) ≡ length es
feeds-lines [] = unfold feeds in refl
feeds-lines (e ∷ rest) =
    let printed = print_entry-IsPrinter e in
    ap feeds (printed.prints (line_feed ∷ lines rest))
    ∙ feeds-append printed.text (line_feed ∷ lines rest) printed.one_line
    ∙ one_more (feeds-lines rest)
  where
    one_more : feeds (lines rest) ≡ length rest → feeds (line_feed ∷ lines rest) ≡ suc (length rest)
    one_more e = unfold feeds in omega (arith, e)

-- A printed line goes behind the lines that are there.
pub lines-append :
    (es : List Entry) (e : Entry)
    → lines es ++ print_entry e (line_feed ∷ []) ≡ lines (es ++ e ∷ [])
lines-append [] e = refl
lines-append (x ∷ rest) e =
    let printed = print_entry-IsPrinter x in
    let last = print_entry e (line_feed ∷ []) in
    ap (λ t. t ++ last) (printed.prints (line_feed ∷ lines rest))
    ∙ append_assoc printed.text (line_feed ∷ lines rest) last
    ∙ ap (λ t. printed.text ++ line_feed ∷ t) (lines-append rest e)
    ∙ sym (printed.prints (line_feed ∷ lines (rest ++ e ∷ [])))

ignore_in-print_entry :
    (e : Entry) (rest : List ℕ) → ignore_in (print_entry e (line_feed ∷ rest)) ≡ fresh rest
ignore_in-print_entry e rest =
    let printed = print_entry-IsPrinter e in
    ap ignore_in (printed.prints (line_feed ∷ rest))
    ∙ ignore_in-append printed.text (line_feed ∷ rest) printed.one_line
    ∙ unfold ignore_in in refl

-- SeekToLine finds each line that is there, counted from 1, and the entry can be read from it.
pub seek_lines-lines :
    (k : ℕ) (es : List Entry) (e : Entry)
    → ArePrintable es
    → get_elem? es k ≡ some e
    → (s : Stream) × (seek_lines (suc k) (fresh (lines es)) ≡ (1, s))
      × ((read_entry empty_entry s).1 ≡ e)
unfolding seek_lines
seek_lines-lines k [] e p h = cc
seek_lines-lines zero (x ∷ es) e p h =
    (fresh (lines (x ∷ es)), refl, rw (read_entry-print_entry x (line_feed ∷ lines es) p.0) (cc))
seek_lines-lines (suc k) (x ∷ es) e p h =
    let next = seek_lines-lines k es e p.1 h in
    (next.0, ap (seek_lines (suc k)) (ignore_in-print_entry x (lines es)) ∙ next.1, next.2)
