-- ===== src/Store.antt =====
-- The brokers by their urls: the class `BrokerStore` of cashmere/src/brokerstore.cpp, and the methods of
-- `BrokerBase` that go through it. The schema that ParseUrl finds in a url with a regular expression, and
-- what the plugin of a schema makes, are parameters.
pub mod Again
pub mod Examples
use cashmere.Base.{
  ℕ, suc, Bool, true, false, ◌&&◌, ◌≡◌, ◌≢◌, ◌↔◌, refl, sym, ap, ◌∙◌, List, [], ◌∷◌, Option, none,
  some, arith, ◌==◌, if◌then◌else◌, length, Option-cases, Bool-cases, List-cases, inl, inr,
}
use cashmere.Broker.{
  Link, empty_link, link_to, World, Outcome, done, fault, timeout, M, ◌>>=◌, pure, Remote,
}
use cashmere.Command.{text_eq}

abbrev pub Url : Type 0
Url = List ℕ

-- `_impl->store`, a pointer to a broker for each url, and the brokers whose store this is. The pairs that
-- were put in later stand first.
pub record Store : Type 0 where
  pub known : List (Url × ℕ)
  pub members : List ℕ

unfoldable pub find : Url → List (Url × ℕ) → Option ℕ
unfolding text_eq
find url [] = none
find url ((u, b) ∷ rest) = if text_eq url u then some b else find url rest

-- broker->impl()->setStore(shared_from_this()); _impl->store[url] = broker
abbrev pub add : Url → ℕ → Store → Store
add url b s = record { known = (url, b) ∷ s.known; members = b ∷ s.members }

-- BrokerStore::insert, which always gives `{}`.
abbrev pub store_insert : Url → ℕ → Store → Bool × Store
store_insert url b s = (false, add url b s)

abbrev pub is_member : ℕ → List ℕ → Bool
is_member b [] = false
is_member b (m ∷ rest) = if b == m then true else is_member b rest

module _ (schema_of : Url → List ℕ) (builder : List ℕ → Option (Url → M ℕ)) where
  unfoldable pub build : Url → Store → Option (Url → M ℕ) → M (Store × Option ℕ)
  build url s none = pure (s, none)
  build url s (some make) = do b ← make url; pure (add url b s, some b)

  abbrev found_or : Url → Store → Option ℕ → M (Store × Option ℕ)
  found_or url s none = build url s (builder (schema_of url))
  found_or url s (some b) = pure (s, some b)

  -- BrokerStore::getOrCreate
  unfoldable pub get_or_create : Url → Store → M (Store × Option ℕ)
  unfolding find build
  get_or_create url s = found_or url s (find url s.known)

  -- BrokerBase::stub, of the broker `self` with this url
  unfoldable pub stub_in : ℕ → Url → Store → M (Store × Link)
  stub_in self url s =
      if is_member self s.members
      then (do (s', b) ← get_or_create url s; pure (s', record empty_link { broker = b }))
      else pure (s, link_to self)
