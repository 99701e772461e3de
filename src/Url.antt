-- ===== src/Url.antt =====
-- Urls and what a broker takes from its own: cashmere/utils/include/cashmere/utils/url.h,
-- cashmere/utils/src/urlutils.cpp, `BrokerBase::Impl` (cashmere/src/brokerbaseimpl.cpp), the accessors of
-- `BrokerBase` and what `Connection` reads of the other broker's url (cashmere/src/brokerbase.cpp), and
-- the urls that src/cli/main.cpp makes. `std::regex_search` and the random ids are parameters.
pub mod Search
pub mod Numbers
pub mod Wrapper
pub mod Made
pub mod Examples
use cashmere.Base.{
  ℕ, ◌-◌, ◌%◌, ◌^◌, ◌≡◌, ◌≢◌, Bool, true, false, not, ◌&&◌, ◌||◌, List, [], ◌∷◌, ◌++◌, Option, none,
  some, ltb, length, ◌==◌, if◌then◌else◌, codes,
}
use cashmere.Base.Int.{int_eq}
use cashmere.Clock.{clock_eq}
use cashmere.Text.{
  skip_space, sign_in, digit_of, digits_in, is_end, u64_max, print_u64, open_curly, close_curly,
  comma, space,
}
use cashmere.Text.Clocks.{print_clock}
use cashmere.Command.{Parsed, ok, throws, text_eq}
use cashmere.Command.Options.{Options}
use cashmere.Broker.{IdConnectionInfoMap, Link, empty_link, World, M, ◌>>=◌, pure}
use cashmere.Broker.Printing.{print_infos}
use cashmere.Store.{Store, is_member, get_or_create}

abbrev pub colon : ℕ
colon = b':'

abbrev pub slash : ℕ
slash = b'/'

abbrev pub at_sign : ℕ
at_sign = b'@'

pub record Url : Type 0 where
  pub url : List ℕ
  pub schema : List ℕ
  pub id : List ℕ
  pub hostport : List ℕ
  pub path : List ℕ

-- The groups 1, 3, 4 and 5 of a match with kRegexStr; a group that took no part is empty.
pub record Groups : Type 0 where
  pub schema : List ℕ
  pub id : List ℕ
  pub hostport : List ℕ
  pub path : List ℕ

-- Url::valid
unfoldable pub url_valid : Url → Bool
url_valid u =
    not (is_end u.url) && not (is_end u.schema) && (not (is_end u.id) || not (is_end u.hostport))

-- operator<<(std::ostream&, const Url&)
unfoldable pub print_url : Url → List ℕ → List ℕ
print_url u out =
    open_curly ∷ u.url
    ++ comma ∷ space ∷ u.id
    ++ comma ∷ space ∷ u.hostport
    ++ comma ∷ space ∷ u.path
    ++ close_curly ∷ out

-- text.substr(0, text.find(c))
unfoldable pub before : ℕ → List ℕ → List ℕ
before c [] = []
before c (x ∷ rest) = if x == c then [] else x ∷ before c rest

-- What follows the first `c`, or `none` if `find` gives `npos`.
unfoldable pub behind : ℕ → List ℕ → Option (List ℕ)
behind c [] = none
behind c (x ∷ rest) = if x == c then some rest else behind c rest

abbrev pub is_digit : ℕ → ℕ → Bool
is_digit base c = elim (digit_of base c) [ none ↦ false | some d ↦ true ]

-- `0x` before a digit, which `strtoul` passes over in base 16.
unfoldable pub after_0x : ℕ → List ℕ → List ℕ
after_0x base [] = []
after_0x base (c ∷ []) = c ∷ []
after_0x base (c ∷ x ∷ []) = c ∷ x ∷ []
after_0x base (c ∷ x ∷ d ∷ rest) =
    if base == 16 && c == b'0' && (x == b'x' || x == b'X') && is_digit base d
    then d ∷ rest
    else c ∷ x ∷ d ∷ rest

-- std::stoul: it throws when there is no digit, and when the number does not fit.
unfoldable pub stoul : ℕ → List ℕ → Parsed ℕ
unfolding skip_space sign_in digits_in digit_of after_0x
stoul base text =
    let (negative, unsigned) = sign_in (skip_space text) in
    let (value, found, rest) = digits_in base (after_0x base unsigned) 0 false in
    if not found || ltb u64_max value
    then throws
    else ok (if negative then (2 ^ 64 - value) % 2 ^ 64 else value)

-- The value, or another one in the handler of the exception.
abbrev pub or_else_value : ℕ → Parsed ℕ → ℕ
or_else_value other throws = other
or_else_value other (ok value) = value

-- BrokerBase::Impl
pub record Impl : Type 0 where
  pub url : Url
  pub id : ℕ
  pub hostname : List ℕ
  pub port : ℕ

-- hostport.substr(pos + 1): `npos + 1` is 0.
unfoldable pub port_text : List ℕ → List ℕ
unfolding behind
port_text hostport = elim (behind colon hostport) [ none ↦ hostport | some rest ↦ rest ]

-- What `parsed` gives of the fields of `Impl`; `random` is the next random id.
unfoldable pub impl_of : ℕ → Url → Impl
unfolding before port_text stoul
impl_of random parsed = record {
  url = parsed;
  id = or_else_value random (stoul 16 parsed.id);
  hostname = before colon parsed.hostport;
  port = or_else_value 0 (stoul 10 (port_text parsed.hostport)) % 2 ^ 16;
}

-- The two results of ParseUrl.
abbrev pub url_of : List ℕ → Option Groups → Url
url_of url none = record { url = url; schema = []; id = []; hostport = []; path = [] }
url_of url (some g) = record {
  url = url;
  schema = g.schema;
  id = g.id;
  hostport = g.hostport;
  path = g.path;
}

module _ (search : List ℕ → Option Groups) where
  -- ParseUrl
  unfoldable pub parse_url : List ℕ → Url
  parse_url url = url_of url (search url)

  -- BrokerBase::Impl::Impl
  unfoldable pub new_impl : ℕ → List ℕ → Impl
  unfolding parse_url impl_of
  new_impl random url = impl_of random (parse_url url)

-- BrokerBase::url
abbrev pub broker_url : Impl → List ℕ
broker_url impl = impl.url.url

-- BrokerBase::location
abbrev pub location : Impl → List ℕ
location impl = impl.url.path

-- The path of RunService; `temp` is the temporary directory.
abbrev pub db_path : List ℕ → Options → List ℕ
db_path temp o = if is_end o.db_path then temp else o.db_path

-- The url of the journal that RunService makes.
unfoldable pub journal_url : List ℕ → Options → List ℕ
journal_url temp o = codes "file://" ++ print_u64 16 o.id (codes "@localhost" ++ db_path temp o)

-- The url of the wrapper of RunService, and of the service that RunCommand calls.
unfoldable pub service_url : Options → List ℕ
service_url o = codes "grpc://" ++ o.hostname ++ colon ∷ print_u64 10 o.source []

module _ (impls : ℕ → Impl) where
  -- Connection::url
  unfoldable pub connection_url : Link → List ℕ
  connection_url c = elim c.broker [ none ↦ [] | some b ↦ broker_url (impls b) ]

  -- operator<<(std::ostream&, const Connection&), and Connection::str
  unfoldable pub print_connection : Link → List ℕ → List ℕ
  unfolding connection_url print_infos
  print_connection c out =
      codes "Connection{ .url: "
      ++ connection_url c
      ++ codes ", .source = "
      ++ print_u64 10 c.source (
          codes ".version= "
          ++ print_clock c.version
              (codes ", .provides = " ++ print_infos c.sources (close_curly ∷ out)))

  unfoldable pub infos_eq : IdConnectionInfoMap → IdConnectionInfoMap → Bool
  infos_eq [] [] = true
  infos_eq [] (y ∷ ys) = false
  infos_eq (x ∷ xs) [] = false
  infos_eq ((i, x) ∷ xs) ((j, y) ∷ ys) =
      i == j && int_eq x.distance y.distance && clock_eq x.clock y.clock && infos_eq xs ys

  -- Connection::operator==
  unfoldable pub connection_eq : Link → Link → Bool
  unfolding connection_url infos_eq text_eq
  connection_eq a b =
      text_eq (connection_url a) (connection_url b)
      && clock_eq a.version b.version
      && infos_eq a.sources b.sources
      && a.source == b.source

module _ (schema_of : List ℕ → List ℕ) (builder : List ℕ → Option (List ℕ → M ℕ))
    (connect : Link → M Link) where
  -- BrokerBase::connect(const std::string&) of the broker `self`
  unfoldable pub connect_url : ℕ → List ℕ → Store → M (Store × Link)
  connect_url self url s =
      if is_member self s.members
      then (do
        (s', b) ← get_or_create schema_of builder url s
        answer ← connect (record empty_link { broker = b })
        pure (s', answer))
      else (do answer ← connect empty_link; pure (s, answer))
