-- ===== src/Text/Printers.antt =====
-- What the output operators print is one line, put in front of what is printed after it.
use mathlib.Core.List.{append_assoc}
use cashmere.Base.{
  ℕ, zero, suc, ◌+◌, ◌/◌, ◌%◌, ◌≡◌, ◌≢◌, refl, sym, ap, ◌∙◌, List, [], ◌∷◌, ◌++◌, arith, ltb,
  Bool-cases, inl, inr,
}
use cashmere.Base.Int.{ℤ, pos, negsuc}
use cashmere.Clock.{Clock}
use cashmere.Entry.{Data, Entry}
use cashmere.Text.{
  digit_char, print_from, print_u64, print_i64, line_feed, comma, space, open_curly, close_curly,
}
use cashmere.Text.Clocks.{print_pair, print_pairs, print_clock}
use cashmere.Text.Entries.{print_data, print_entry}

-- No line feed.
abbrev pub IsLine : List ℕ → Type 0
IsLine [] = Unit {0}
IsLine (c ∷ rest) = (c ≢ line_feed) × IsLine rest

append-IsLine : (xs ys : List ℕ) → IsLine xs → IsLine ys → IsLine (xs ++ ys)
append-IsLine [] ys p q = q
append-IsLine (x ∷ xs) ys p q = (p.0, append-IsLine xs ys p.1 q)

pub record IsPrinter (p : List ℕ → List ℕ) : Type 0 where
  pub text : List ℕ
  pub one_line : IsLine text
  pub prints : (out : List ℕ) → p out ≡ text ++ out

nothing-IsPrinter : IsPrinter (λ out. out)
nothing-IsPrinter = record { text = []; one_line = tt; prints = λ out. refl }

char-IsPrinter : (c : ℕ) → c ≢ line_feed → IsPrinter (λ out. c ∷ out)
char-IsPrinter c h = record { text = c ∷ []; one_line = (h, tt); prints = λ out. refl }

after-IsPrinter : (p q : List ℕ → List ℕ) → IsPrinter p → IsPrinter q → IsPrinter (λ out. p (q out))
after-IsPrinter p q h k = record {
  text = h.text ++ k.text;
  one_line = append-IsLine h.text k.text h.one_line k.one_line;
  prints = λ out.
      h.prints (q out)
      ∙ ap (λ t. h.text ++ t) (k.prints out)
      ∙ sym (append_assoc h.text k.text out);
}

-- A character, and then more.
char_after :
    (c : ℕ) (q : List ℕ → List ℕ) → c ≢ line_feed → IsPrinter q → IsPrinter (λ out. c ∷ q out)
char_after c q h k = after-IsPrinter (λ out. c ∷ out) q (char-IsPrinter c h) k

same-IsPrinter :
    (p q : List ℕ → List ℕ) → ((out : List ℕ) → p out ≡ q out) → IsPrinter q → IsPrinter p
same-IsPrinter p q e k = record {
  text = k.text;
  one_line = k.one_line;
  prints = λ out. e out ∙ k.prints out;
}

digit_plain : (d : ℕ) → digit_char d ≢ line_feed
digit_plain d = ground arith

print_from-IsPrinter : (base fuel n : ℕ) → IsPrinter (print_from base fuel n)
unfolding print_from
print_from-IsPrinter base zero n = nothing-IsPrinter
print_from-IsPrinter base (suc fuel) n =
    let more : List ℕ → List ℕ =
      λ out. print_from base fuel (n / base) (digit_char (n % base) ∷ out) in
    elim (Bool-cases (ltb n base)) [
      | inl small ↦
          same-IsPrinter (print_from base (suc fuel) n) (λ out. digit_char n ∷ out)
            (λ out. rw small refl) (char-IsPrinter (digit_char n) (digit_plain n))
      | inr large ↦
          same-IsPrinter (print_from base (suc fuel) n) more (λ out. rw large refl)
            (after-IsPrinter (print_from base fuel (n / base)) (λ out. digit_char (n % base) ∷ out)
              (print_from-IsPrinter base fuel (n / base))
              (char-IsPrinter (digit_char (n % base)) (digit_plain (n % base))))
    ]

print_u64-IsPrinter : (base n : ℕ) → IsPrinter (print_u64 base n)
unfolding print_u64
print_u64-IsPrinter base n = print_from-IsPrinter base (suc n) n

print_i64-IsPrinter : (x : ℤ) → IsPrinter (print_i64 x)
unfolding print_i64
print_i64-IsPrinter (pos n) = print_u64-IsPrinter 10 n
print_i64-IsPrinter (negsuc n) =
    char_after b'-' (print_u64 10 (n + 1)) (omega arith) (print_u64-IsPrinter 10 (n + 1))

-- `, `, and then more.
separated : (q : List ℕ → List ℕ) → IsPrinter q → IsPrinter (λ out. comma ∷ space ∷ q out)
separated q k =
    char_after comma (λ out. space ∷ q out) (omega arith) (char_after space q (omega arith) k)

closing : IsPrinter (λ out. close_curly ∷ out)
closing = char-IsPrinter close_curly (omega arith)

print_pair-IsPrinter : (pair : ℕ × ℕ) → IsPrinter (print_pair pair)
unfolding print_pair
print_pair-IsPrinter (id, count) = char_after open_curly _ (omega arith) (
    after-IsPrinter (print_u64 16 id) _ (print_u64-IsPrinter 16 id)
      (separated _ (after-IsPrinter (print_u64 10 count) _ (print_u64-IsPrinter 10 count) closing)))

print_pairs-IsPrinter : (ps : Clock) → IsPrinter (print_pairs ps)
unfolding print_pairs
print_pairs-IsPrinter [] = nothing-IsPrinter
print_pairs-IsPrinter (p ∷ ps) = separated _ (
    after-IsPrinter (print_pair p) (print_pairs ps) (print_pair-IsPrinter p)
      (print_pairs-IsPrinter ps))

print_clock-IsPrinter : (c : Clock) → IsPrinter (print_clock c)
unfolding print_clock
print_clock-IsPrinter [] = char_after open_curly _ (omega arith) closing
print_clock-IsPrinter (p ∷ ps) = char_after open_curly _ (omega arith) (
    after-IsPrinter (print_pair p) _ (print_pair-IsPrinter p)
      (after-IsPrinter (print_pairs ps) _ (print_pairs-IsPrinter ps) closing))

print_data-IsPrinter : (d : Data) → IsPrinter (print_data d)
unfolding print_data
print_data-IsPrinter d = char_after open_curly _ (omega arith) (
    after-IsPrinter (print_u64 16 d.id) _ (print_u64-IsPrinter 16 d.id) (
      separated _ (
        after-IsPrinter (print_i64 d.value) _ (print_i64-IsPrinter d.value) (
          separated _
            (after-IsPrinter (print_clock d.alters) _ (print_clock-IsPrinter d.alters) closing)))))

pub print_entry-IsPrinter : (e : Entry) → IsPrinter (print_entry e)
unfolding print_entry
print_entry-IsPrinter e = char_after open_curly _ (omega arith) (
    after-IsPrinter (print_clock e.clock) _ (print_clock-IsPrinter e.clock)
      (separated _ (after-IsPrinter (print_data e.entry) _ (print_data-IsPrinter e.entry) closing)))
