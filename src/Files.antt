-- ===== src/Files.antt =====
-- Files, as far as the journal in a file uses them: Filename, LineCount and SeekToLine of
-- cashmere/utils/src/fileutils.cpp. A file system gives the text of each file that is there. Making
-- directories and writing never fail.
pub mod Names
pub mod Examples
use cashmere.Base.{
  ℕ, zero, suc, ◌+◌, ◌-◌, Bool, true, false, ◌&&◌, List, [], ◌∷◌, ◌++◌, Option, none, some, ◌≡◌,
  refl, length, ◌==◌, if◌then◌else◌, codes,
}
use cashmere.Text.{Stream, fresh, good, line_feed, print_u64}

abbrev pub FilePath : Type 0
FilePath = List ℕ

abbrev pub Files : Type 0
Files = FilePath → Option (List ℕ)

unfoldable pub path_eq : FilePath → FilePath → Bool
path_eq [] [] = true
path_eq [] (y ∷ ys) = false
path_eq (x ∷ xs) [] = false
path_eq (x ∷ xs) (y ∷ ys) = x == y && path_eq xs ys

-- The text of a file, which is empty where there is none.
abbrev pub contents : Option (List ℕ) → List ℕ
contents none = []
contents (some text) = text

-- `std::ofstream(path, std::ios::app) << text`
unfoldable pub append_to : FilePath → List ℕ → Files → Files
append_to path text files p =
    if path_eq path p then some (contents (files path) ++ text) else files p

abbrev pub open_text : Option (List ℕ) → Stream
open_text none = record { text = []; eof = false; fail = true }
open_text (some text) = fresh text

-- `std::fstream(path, std::ios::in)`
unfoldable pub open_file : FilePath → Files → Stream
open_file path files = open_text (files path)

abbrev pub zeros : ℕ → List ℕ → List ℕ
zeros zero text = text
zeros (suc n) text = b'0' ∷ zeros n text

-- os << std::hex << std::setfill('0') << std::setw(16) << id
unfoldable pub padded : ℕ → List ℕ
unfolding print_u64
padded id = let digits = print_u64 16 id [] in zeros (16 - length digits) digits

-- `fs::path(base) / name`, for a name without a slash
unfoldable pub directory : FilePath → FilePath
directory [] = []
directory (c ∷ []) = if c == b'/' then c ∷ [] else c ∷ b'/' ∷ []
directory (c ∷ d ∷ rest) = c ∷ directory (d ∷ rest)

-- Filename
unfoldable pub filename : FilePath → ℕ → FilePath
unfolding padded directory
filename base id = directory base ++ padded id

unfoldable pub feeds : List ℕ → ℕ
feeds [] = 0
feeds (c ∷ rest) = (if c == line_feed then 1 else 0) + feeds rest

-- LineCount
unfoldable pub line_count : FilePath → Files → ℕ
unfolding feeds
line_count path files = feeds (contents (files path))

-- file.ignore(…, kLineFeed) on a good stream with this text
unfoldable pub ignore_in : List ℕ → Stream
ignore_in [] = record { text = []; eof = true; fail = false }
ignore_in (c ∷ rest) = if c == line_feed then fresh rest else ignore_in rest

-- The loop of SeekToLine: the number of lines that are left to go, and the stream.
unfoldable pub seek_lines : ℕ → Stream → ℕ × Stream
unfolding ignore_in
seek_lines zero s = (zero, s)
seek_lines (suc zero) s = (1, s)
seek_lines (suc (suc line)) s =
    if good s then seek_lines (suc line) (ignore_in s.text) else (suc (suc line), s)

-- SeekToLine, of a stream that has just been opened.
unfoldable pub seek_to_line : ℕ → Stream → Bool × Stream
unfolding seek_lines
seek_to_line line s = let (left, s') = seek_lines line s in (left == 1, s')

name_test : filename (codes "/tmp/db") 0xaaff ≡ codes "/tmp/db/000000000000aaff"
unfolding filename
name_test = refl
