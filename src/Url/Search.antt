-- ===== src/Url/Search.antt =====
-- What stands before and behind a character of a text, and what kRegexStr finds in urls.
use cashmere.Base.{
  ℕ, ◌≡◌, ◌≢◌, refl, ap, Bool, true, false, List, [], ◌∷◌, ◌++◌, Option, none, some, arith, ◌==◌,
  if◌then◌else◌, Bool-cases, inl, inr,
}
use cashmere.Text.{line_feed}
use cashmere.Url.{colon, slash, at_sign, Groups, before, behind}

abbrev pub Lacks : ℕ → List ℕ → Type 0
Lacks c [] = Unit {0}
Lacks c (x ∷ rest) = (x ≢ c) × Lacks c rest

abbrev lacks : ℕ → List ℕ → Bool
lacks c [] = true
lacks c (x ∷ rest) = if x == c then false else lacks c rest

-- Of a concrete text it can be computed.
pub lacks-Lacks : (c : ℕ) (text : List ℕ) → lacks c text ≡ true → Lacks c text
lacks-Lacks c [] h = tt
lacks-Lacks c (x ∷ rest) h = elim (Bool-cases (x == c)) [
  | inl p ↦ absurd (ground (arith, p, h))
  | inr p ↦ ((λ q. ground (arith, p, q)), lacks-Lacks c rest (ground (arith, p, h)))
]

pub append-Lacks : (c : ℕ) (a b : List ℕ) → Lacks c a → Lacks c b → Lacks c (a ++ b)
append-Lacks c [] b h k = k
append-Lacks c (x ∷ a) b h k = (h.0, append-Lacks c a b h.1 k)

module _ (c : ℕ) where
  pub before-append : (a b : List ℕ) → Lacks c a → before c (a ++ c ∷ b) ≡ a
  unfolding before
  before-append [] b h = ground arith
  before-append (x ∷ a) b h =
      let apart : (x == c) ≡ false = ground (arith, h.0) in
      rw (before, apart) (ap (λ t. x ∷ t) (before-append a b h.1))

  pub behind-append : (a b : List ℕ) → Lacks c a → behind c (a ++ c ∷ b) ≡ some b
  unfolding behind
  behind-append [] b h = ground arith
  behind-append (x ∷ a) b h =
      let apart : (x == c) ≡ false = ground (arith, h.0) in
      rw (behind, apart) (behind-append a b h.1)

  pub before-Lacks : (a : List ℕ) → Lacks c a → before c a ≡ a
  unfolding before
  before-Lacks [] h = refl
  before-Lacks (x ∷ a) h =
      let apart : (x == c) ≡ false = ground (arith, h.0) in
      rw (before, apart) (ap (λ t. x ∷ t) (before-Lacks a h.1))

  pub behind-Lacks : (a : List ℕ) → Lacks c a → behind c a ≡ none
  unfolding behind
  behind-Lacks [] h = refl
  behind-Lacks (x ∷ a) h =
      let apart : (x == c) ≡ false = ground (arith, h.0) in rw (behind, apart) (behind-Lacks a h.1)

-- A path is empty or starts with a slash, and is one line: `.` matches no line terminator.
abbrev pub IsPath : List ℕ → Type 0
IsPath [] = Unit {0}
IsPath (c ∷ rest) = (c ≡ slash) × Lacks line_feed rest × Lacks b'\r' rest

-- What `([^/][^@]*)` matches up to the first `@`.
abbrev pub IsUser : List ℕ → Type 0
IsUser [] = ⊥
IsUser (c ∷ rest) = (c ≢ slash) × Lacks at_sign (c ∷ rest)

-- What std::regex_search finds of "([^:]*):/{2}(([^/][^@]*)@){0,1}([^/]*){0,1}(/.*){0,1}" in a url, with
-- the groups greedy and the first match the leftmost one.
pub record SearchLaws (search : List ℕ → Option Groups) : Type 0 where
  pub with_user :
      (schema id hostport path : List ℕ)
      → Lacks colon schema
      → IsUser id
      → Lacks slash hostport
      → IsPath path
      → search (schema ++ (colon ∷ slash ∷ slash ∷ (id ++ (at_sign ∷ (hostport ++ path)))))
        ≡ some (record { schema = schema; id = id; hostport = hostport; path = path })
  pub without_user :
      (schema hostport path : List ℕ)
      → Lacks colon schema
      → Lacks slash hostport
      → Lacks at_sign (hostport ++ path)
      → IsPath path
      → search (schema ++ (colon ∷ slash ∷ slash ∷ (hostport ++ path)))
        ≡ some (record { schema = schema; id = []; hostport = hostport; path = path })
