-- ===== src/Store/Again.antt =====
-- A store makes a broker once.
use cashmere.Base.{
  ℕ, ◌≡◌, refl, sym, subst, ap, true, List, [], ◌∷◌, Option, none, some, arith, Option-cases,
  Bool-cases, inl, inr,
}
use cashmere.Broker.{link_to, World, Outcome, done, fault, timeout, continue, M, ◌>>=◌, pure}
use cashmere.Command.{text_eq}
use cashmere.Store.{Url, Store, find, add, is_member, build, found_or, get_or_create, stub_in}

pub text_eq_refl : (t : List ℕ) → text_eq t t ≡ true
unfolding text_eq
text_eq_refl [] = refl
text_eq_refl (x ∷ xs) = ground (arith, text_eq_refl xs)

-- If a broker was found or made, the store knows it under the url.
abbrev Kept : Url → Outcome (Store × Option ℕ) → Type 0
Kept url (done (s, none) w) = Unit {0}
Kept url (done (s, some b) w) = find url s.known ≡ some b
Kept url fault = Unit {0}
Kept url timeout = Unit {0}

make-Kept :
    (url : Url) (s : Store) (o : Outcome ℕ)
    → Kept url (continue o (λ b. pure (add url b s, some b)))
unfolding pure
make-Kept url s (done b w) = unfold find in rw (text_eq_refl url) refl
make-Kept url s fault = tt
make-Kept url s timeout = tt

module _ (schema_of : Url → List ℕ) (builder : List ℕ → Option (Url → M ℕ)) where
  known_found :
      (url : Url) (s : Store) (b : ℕ) (w : World)
      → find url s.known ≡ some b
      → get_or_create schema_of builder url s w ≡ done (s, some b) w
  unfolding get_or_create pure
  known_found url s b w e = ap (λ o. found_or schema_of builder url s o w) e

  unknown_made :
      (url : Url) (s : Store) (w : World)
      → find url s.known ≡ none
      → get_or_create schema_of builder url s w
        ≡ build schema_of builder url s (builder (schema_of url)) w
  unfolding get_or_create
  unknown_made url s w e = ap (λ o. found_or schema_of builder url s o w) e

  build-Kept :
      (url : Url) (s : Store) (w : World) (make : Option (Url → M ℕ))
      → Kept url (build schema_of builder url s make w)
  unfolding build ◌>>=◌ pure
  build-Kept url s w none = tt
  build-Kept url s w (some make) = make-Kept url s (make url w)

  get_or_create-Kept :
      (url : Url) (s : Store) (w : World) → Kept url (get_or_create schema_of builder url s w)
  get_or_create-Kept url s w = elim (Option-cases (find url s.known)) [
    | inl e ↦
        subst (Kept url) (sym (unknown_made url s w e))
          (build-Kept url s w (builder (schema_of url)))
    | inr e ↦ subst (Kept url) (sym (known_found url s e.0 w e.1)) e.1
  ]

  -- The broker that a store gave for a url it gives again, without making one or changing anything.
  pub get_or_create_again :
      (url : Url) (s s' : Store) (b : ℕ) (w w' w'' : World)
      → get_or_create schema_of builder url s w ≡ done (s', some b) w'
      → get_or_create schema_of builder url s' w'' ≡ done (s', some b) w''
  get_or_create_again url s s' b w w' w'' e =
      known_found url s' b w'' (subst (Kept url) e (get_or_create-Kept url s w))

  -- The stub of a broker that its store knows under its url is a connection to itself.
  pub stub_in_self :
      (self : ℕ) (url : Url) (s : Store) (w : World)
      → find url s.known ≡ some self
      → stub_in schema_of builder self url s w ≡ done (s, link_to self) w
  unfolding stub_in ◌>>=◌ pure
  stub_in_self self url s w e = elim (Bool-cases (is_member self s.members)) [
    | inl m ↦ rw (m, known_found url s self w e) refl
    | inr m ↦ rw m refl
  ]
