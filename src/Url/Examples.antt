-- ===== src/Url/Examples.antt =====
-- Urls of the program, with a matcher that finds what kRegexStr finds in them.
use cashmere.Base.{
  ℕ, ◌≡◌, refl, ap, ◌∙◌, false, List, [], ◌∷◌, ◌++◌, Option, none, some, arith, ◌==◌, if◌then◌else◌,
  codes,
}
use cashmere.Text.{print_u64, print_from}
use cashmere.Command.Options.{Options, default_options}
use cashmere.Url.{
  colon, slash, at_sign, Groups, new_impl, location, broker_url, journal_url, service_url, before,
  behind,
}
use cashmere.Url.Search.{
  Lacks, lacks-Lacks, IsPath, IsUser, SearchLaws, before-append, behind-append, behind-Lacks,
}
use cashmere.Url.Made.{journal_made, stub_meets_runner}
use cashmere.Url.Wrapper.{new_wrapper, start, channel_address}

-- What stands from the first slash on.
abbrev from_slash : List ℕ → List ℕ
from_slash [] = []
from_slash (x ∷ rest) = if x == slash then x ∷ rest else from_slash rest

abbrev host_groups : List ℕ → List ℕ → List ℕ → Groups
host_groups schema id text = record {
  schema = schema;
  id = id;
  hostport = before slash text;
  path = from_slash text;
}

abbrev user_groups : List ℕ → List ℕ → Option (List ℕ) → Groups
user_groups schema text none = host_groups schema [] text
user_groups schema text (some rest) = host_groups schema (before at_sign text) rest

abbrev after_colon : List ℕ → Option (List ℕ) → Option Groups
after_colon schema none = none
after_colon schema (some (a ∷ b ∷ text)) = some (user_groups schema text (behind at_sign text))
after_colon schema (some text) = none

abbrev split : List ℕ → Option Groups
split url = after_colon (before colon url) (behind colon url)

split_host :
    (hostport path : List ℕ)
    → Lacks slash hostport
    → IsPath path
    → before slash (hostport ++ path) ≡ hostport
unfolding before
split_host [] [] h p = refl
split_host [] (c ∷ rest) h p = ground (arith, p.0)
split_host (x ∷ hostport) path h p =
    let apart : (x == slash) ≡ false = ground (arith, h.0) in
    rw (before, apart) (ap (λ t. x ∷ t) (split_host hostport path h.1 p))

split_path :
    (hostport path : List ℕ)
    → Lacks slash hostport
    → IsPath path
    → from_slash (hostport ++ path) ≡ path
split_path [] [] h p = refl
split_path [] (c ∷ rest) h p = ground (arith, p.0)
split_path (x ∷ hostport) path h p =
    let apart : (x == slash) ≡ false = ground (arith, h.0) in
    rw apart (split_path hostport path h.1 p)

host_groups_lem :
    (schema id hostport path : List ℕ)
    → Lacks slash hostport
    → IsPath path
    → host_groups schema id (hostport ++ path)
      ≡ record { schema = schema; id = id; hostport = hostport; path = path }
host_groups_lem schema id hostport path h p =
    rw (split_host hostport path h p, split_path hostport path h p) refl

user_at : (id : List ℕ) → IsUser id → Lacks at_sign id
user_at [] u = tt
user_at (c ∷ rest) u = u.1

split_schema :
    (schema text : List ℕ)
    → Lacks colon schema
    → split (schema ++ (colon ∷ slash ∷ slash ∷ text))
      ≡ some (user_groups schema text (behind at_sign text))
split_schema schema text h =
    rw
      (
        before-append colon schema (slash ∷ slash ∷ text) h,
        behind-append colon schema (slash ∷ slash ∷ text) h,
      )
      refl

split-SearchLaws : SearchLaws split
split-SearchLaws = record {
  with_user = λ schema id hostport path a u b p.
      split_schema schema (id ++ (at_sign ∷ (hostport ++ path))) a
      ∙ rw
          (
            behind-append at_sign id (hostport ++ path) (user_at id u),
            before-append at_sign id (hostport ++ path) (user_at id u),
          )
          (ap some (host_groups_lem schema id hostport path b p));
  without_user = λ schema hostport path a b c p.
      split_schema schema (hostport ++ path) a
      ∙ rw (behind-Lacks at_sign (hostport ++ path) c)
          (ap some (host_groups_lem schema [] hostport path b p));
}

-- A folder that is given relative to the working directory.
abbrev relative : Options
relative = record default_options { id = 0xaaff; db_path = codes "data/main" }

journal_made_example :
    ((new_impl split 7 (journal_url [] relative)).id ≡ 0xaaff)
    × (location (new_impl split 7 (journal_url [] relative)) ≡ codes "/main")
    × ((new_impl split 7 (journal_url [] relative)).url.hostport
        ≡ codes "localhost" ++ codes "data")
    × ((new_impl split 7 (journal_url [] relative)).hostname
        ≡ codes "localhost" ++ before colon (codes "data"))
    × ((new_impl split 7 (journal_url [] relative)).url.schema ≡ codes "file")
    × (broker_url (new_impl split 7 (journal_url [] relative)) ≡ journal_url [] relative)
journal_made_example =
    journal_made split split-SearchLaws 7 relative [] (codes "data") (codes "/main") (omega arith)
      refl (lacks-Lacks slash (codes "data") refl)
      (refl, lacks-Lacks _ (codes "main") refl, lacks-Lacks _ (codes "main") refl)

stub_meets_runner_example :
    ((start split 0 (new_wrapper (service_url default_options))).address
      ≡ some (codes "0.0.0.0:54321"))
    × (channel_address (new_impl split 7 (service_url default_options)) ≡ codes "0.0.0.0:54321")
unfolding print_u64 print_from
stub_meets_runner_example =
    stub_meets_runner split split-SearchLaws 7 default_options 0
      (lacks-Lacks colon (codes "0.0.0.0") refl) (lacks-Lacks slash (codes "0.0.0.0") refl)
      (lacks-Lacks at_sign (codes "0.0.0.0") refl) (omega arith)
