-- ===== src/Url/Wrapper.antt =====
-- Wrappers, which make a broker a service: `WrapperBase` (cashmere/src/brokerwrapperbase.cpp),
-- `WrapperStore` (cashmere/src/wrapperstore.cpp), the start and the stop of `GrpcRunner`
-- (grpc/runner/src/grpcrunner.cpp), and the channel of a `BrokerGrpcStub` (grpc/plugins/src/grpc.cpp).
-- Which files are plugins is given: what a directory has, with what `create` of each file makes.
use cashmere.Base.{
  ℕ, zero, suc, ◌-◌, ◌≡◌, refl, sym, ap, subst, ◌∙◌, inl, inr, Option-cases, List, [], ◌∷◌, ◌++◌,
  Option, none, some, ltb, length, if◌then◌else◌, codes,
}
use cashmere.Text.{print_u64}
use cashmere.Command.{text_eq}
use cashmere.Store.{find}
use cashmere.Store.Again.{text_eq_refl}
use cashmere.Url.{colon, Groups, Impl, parse_url}

-- WrapperBase and GrpcRunner: the address is where the server listens, and `none` while there is no
-- server.
pub record Wrapper : Type 0 where
  pub url : List ℕ
  pub broker : Option ℕ
  pub address : Option (List ℕ)

-- WrapperBase::WrapperBase, GrpcRunner::GrpcRunner
abbrev pub new_wrapper : List ℕ → Wrapper
new_wrapper url = record { url = url; broker = none; address = none }

-- The pairs of `store` that were put in later stand first; a pointer is an index in `wrappers`.
pub record WrapperStore : Type 0 where
  pub known : List (List ℕ × ℕ)
  pub wrappers : List Wrapper

unfoldable pub drop : ℕ → List ℕ → List ℕ
drop zero text = text
drop (suc n) [] = []
drop (suc n) (c ∷ rest) = drop n rest

unfoldable pub take : ℕ → List ℕ → List ℕ
take zero text = []
take (suc n) [] = []
take (suc n) (c ∷ rest) = c ∷ take n rest

-- filename.substr(3, filename.size() - 6): `none` is its exception, and a size that is below 6 wraps
-- around to a count that takes all there is.
unfoldable pub plugin_schema : List ℕ → Option (List ℕ)
unfolding drop take
plugin_schema name =
    if ltb (length name) 3
    then none
    else some (take (if ltb (length name) 6 then length name else length name - 6) (drop 3 name))

module _ {C : Type 0} where
  -- The loop of LoadPlugins and of LoadWrapperPlugins over a directory, in which `none` stands for a
  -- file that cannot be opened or has no `create`. The plugins that were found later stand first.
  unfoldable pub load_plugins :
      List (List ℕ × Option C) → List (List ℕ × C) → Option (List (List ℕ × C))
  unfolding plugin_schema
  load_plugins [] found = some found
  load_plugins ((name, none) ∷ rest) found = load_plugins rest found
  load_plugins ((name, some create) ∷ rest) found = elim (plugin_schema name) [
    | none ↦ none
    | some schema ↦ load_plugins rest ((schema, create) ∷ found)
  ]

  -- _impl->builders.find(schema)
  unfoldable pub find_builder : List ℕ → List (List ℕ × C) → Option C
  unfolding text_eq
  find_builder schema [] = none
  find_builder schema ((s, create) ∷ rest) =
      if text_eq schema s then some create else find_builder schema rest

module _ (search : List ℕ → Option Groups) (builders : List (List ℕ × (List ℕ → Wrapper))) where
  abbrev put_wrapper : List ℕ → WrapperStore → Option (List ℕ → Wrapper) → WrapperStore × Option ℕ
  put_wrapper url s none = (s, none)
  put_wrapper url s (some create) = (
    record { known = (url, length s.wrappers) ∷ s.known; wrappers = s.wrappers ++ create url ∷ [] },
    some (length s.wrappers),
  )

  abbrev wrapper_or_new : List ℕ → WrapperStore → Option ℕ → WrapperStore × Option ℕ
  wrapper_or_new url s (some k) = (s, some k)
  wrapper_or_new url s none =
      put_wrapper url s (find_builder (parse_url search url).schema builders)

  -- WrapperStore::getOrCreate
  unfoldable pub get_or_create_wrapper : List ℕ → WrapperStore → WrapperStore × Option ℕ
  unfolding find find_builder parse_url
  get_or_create_wrapper url s = wrapper_or_new url s (find url s.known)

-- WrapperStore::size
abbrev pub wrapper_count : WrapperStore → ℕ
wrapper_count s = length s.known

-- GrpcRunner::start, of a server that can listen at the address
unfoldable pub start : (List ℕ → Option Groups) → ℕ → Wrapper → Wrapper
unfolding parse_url
start search broker runner = record runner {
  broker = some broker;
  address = some (parse_url search runner.url).hostport;
}

-- GrpcRunner::stop
abbrev pub stop : Wrapper → Wrapper
stop runner = record runner { address = none }

-- The address that BrokerGrpcStub::BrokerGrpcStub gives to grpc::CreateChannel.
unfoldable pub channel_address : Impl → List ℕ
channel_address impl = impl.hostname ++ colon ∷ print_u64 10 impl.port []

-- The files are named as `lib`, the schema and `.so`.
schema_test : plugin_schema (codes "libgrpc.so") ≡ some (codes "grpc")
unfolding plugin_schema
schema_test = refl

module _ (search : List ℕ → Option Groups) (builders : List (List ℕ × (List ℕ → Wrapper))) where
  found_again :
      (url : List ℕ) (s s' : WrapperStore) (k : ℕ) (create : Option (List ℕ → Wrapper))
      → put_wrapper search builders url s create ≡ (s', some k)
      → find url s'.known ≡ some k
  unfolding find
  found_again url s s' k none e = absurd (cc)
  found_again url s s' k (some create) e =
      let same : s'.known ≡ (url, length s.wrappers) ∷ s.known = ap (λ r. r.0.known) (sym e) in
      let this : some (length s.wrappers) ≡ some k = ap (λ r. r.1) e in
      rw same (rw (text_eq_refl url) this)

  -- What the store has given for a url it gives again, without another wrapper.
  get_or_create_wrapper_again :
      (url : List ℕ) (s s' : WrapperStore) (k : ℕ)
      → get_or_create_wrapper search builders url s ≡ (s', some k)
      → get_or_create_wrapper search builders url s' ≡ (s', some k)
  unfolding get_or_create_wrapper
  get_or_create_wrapper_again url s s' k e = elim (Option-cases (find url s.known)) [
    | inr (j, p) ↦
        let given : wrapper_or_new search builders url s (find url s.known) ≡ (s', some k) = e in
        let old : ◌≡◌ {A = WrapperStore × Option ℕ} (s, some j) (s', some k) =
          ap (wrapper_or_new search builders url s) (sym p) ∙ given in
        let same : s ≡ s' = ap (λ r. r.0) old in
        subst (λ u. get_or_create_wrapper search builders url u ≡ (s', some k)) same e
    | inl p ↦
        let made : wrapper_or_new search builders url s none ≡ (s', some k) =
          ap (wrapper_or_new search builders url s) (sym p) ∙ e in
        ap (wrapper_or_new search builders url s') (found_again url s s' k _ made)
  ]
