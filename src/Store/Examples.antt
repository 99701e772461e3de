-- ===== src/Store/Examples.antt =====
-- The theorem on the store at a concrete input: a scheme with a plugin and one without.
use cashmere.Base.{
  ℕ, ◌≡◌, refl, List, [], ◌∷◌, Option, none, some, length, ◌==◌, ◌++◌, if◌then◌else◌, codes,
}
use cashmere.Broker.{cache, new_node, done, M, ◌>>=◌, pure}
use cashmere.Command.{text_eq}
use cashmere.Store.{Url, Store, find, build, get_or_create}
use cashmere.Store.Again.{get_or_create_again}

-- The part of a url before the colon.
abbrev before_colon : Url → List ℕ
before_colon [] = []
before_colon (c ∷ rest) = if c == b':' then [] else c ∷ before_colon rest

-- The plugin of the schema `c` makes a journal at the end of the world.
abbrev make_cache : Url → M ℕ
make_cache url w = done (length w) (w ++ new_node cache 7 ∷ [])

abbrev plugins : List ℕ → Option (Url → M ℕ)
plugins schema = if text_eq schema (codes "c") then some make_cache else none

abbrev no_brokers : Store
no_brokers = record { known = []; members = [] }

abbrev one_broker : Store
one_broker = record { known = (codes "c://7@", 0) ∷ []; members = 0 ∷ [] }

made :
    get_or_create before_colon plugins (codes "c://7@") no_brokers []
    ≡ done (one_broker, some 0) (new_node cache 7 ∷ [])
unfolding get_or_create find build text_eq ◌>>=◌ pure
made = refl

unknown_schema :
    get_or_create before_colon plugins (codes "x://7@") no_brokers [] ≡ done (no_brokers, none) []
unfolding get_or_create find build text_eq ◌>>=◌ pure
unknown_schema = refl

get_or_create_again_example :
    get_or_create before_colon plugins (codes "c://7@") one_broker [] ≡ done (one_broker, some 0) []
get_or_create_again_example =
    get_or_create_again before_colon plugins (codes "c://7@") no_brokers one_broker 0 []
      (new_node cache 7 ∷ []) [] made
