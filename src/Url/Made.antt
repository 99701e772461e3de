-- ===== src/Url/Made.antt =====
-- What brokers take from the urls that src/cli/main.cpp makes.
use cashmere.Base.{
  ℕ, suc, ◌%◌, ◌^◌, ◌<◌, ◌≡◌, ◌≢◌, refl, sym, ap, subst, ◌∙◌, List, [], ◌∷◌, ◌++◌, Option, some,
  arith, codes,
}
use cashmere.Text.{digit_char, print_u64}
use cashmere.Text.Numbers.{hex-IsBase, decimal-IsBase, print_from_head}
use cashmere.Command.Options.{Options}
use cashmere.Url.{
  colon, slash, at_sign, Groups, before, parse_url, url_of, impl_of, new_impl, location, broker_url,
  db_path, journal_url, service_url, or_else_value, port_text, stoul,
}
use cashmere.Url.Wrapper.{new_wrapper, start, channel_address}
use cashmere.Url.Search.{
  Lacks, append-Lacks, IsPath, IsUser, SearchLaws, lacks-Lacks, before-append, behind-append,
}
use cashmere.Url.Numbers.{print_u64-append, print_u64-Lacks, stoul-print_u64}

digit_no_slash : (d : ℕ) → digit_char d ≢ slash
digit_no_slash d e = absurd (ground (arith, e))

digit_no_at : (d : ℕ) → digit_char d ≢ at_sign
digit_no_at d e = absurd (ground (arith, e))

number-IsUser : (n : ℕ) → IsUser (print_u64 16 n [])
unfolding print_u64
number-IsUser n =
    let (d, tail, shape, below, first) = print_from_head 16 hex-IsBase (suc n) n [] (omega arith) in
    let no_at : Lacks at_sign (digit_char d ∷ tail) =
      subst (Lacks at_sign) shape (print_u64-Lacks 16 at_sign n digit_no_at) in
    subst IsUser (sym shape) (digit_no_slash d, no_at)

append_nil : (xs : List ℕ) → xs ++ [] ≡ xs
append_nil [] = refl
append_nil (x ∷ xs) = ap (λ t. x ∷ t) (append_nil xs)

localhost_before :
    (head : List ℕ)
    → before colon (codes "localhost" ++ head) ≡ codes "localhost" ++ before colon head
unfolding before
localhost_before head = refl

module _ (search : List ℕ → Option Groups) (laws : SearchLaws search) (random : ℕ)
    (o : Options) where
  new_impl_of :
      (url : List ℕ) (g : Groups)
      → search url ≡ some g
      → new_impl search random url
        ≡ impl_of random (record {
          url = url;
          schema = g.schema;
          id = g.id;
          hostport = g.hostport;
          path = g.path;
        })
  unfolding new_impl parse_url
  new_impl_of url g e = ap (λ r. impl_of random (url_of url r)) e

  -- The journal of RunService has the id that the options give, and keeps its files in the path that they
  -- give, from the first slash of it on. What the path has before its first slash is appended to
  -- `localhost` in the url, and what of that stands before a colon, in the name of the host; nothing of it
  -- is in the location. The scheme is `file`, and the url is kept as it was made. That holds of an id of
  -- 64 bits and a path without line ends, if the regular expression finds in urls what `SearchLaws` says.
  pub journal_made :
      (temp head tail : List ℕ)
      → o.id < 2 ^ 64
      → db_path temp o ≡ head ++ tail
      → Lacks slash head
      → IsPath tail
      → ((new_impl search random (journal_url temp o)).id ≡ o.id)
        × (location (new_impl search random (journal_url temp o)) ≡ tail)
        × ((new_impl search random (journal_url temp o)).url.hostport ≡ codes "localhost" ++ head)
        × ((new_impl search random (journal_url temp o)).hostname
            ≡ codes "localhost" ++ before colon head)
        × ((new_impl search random (journal_url temp o)).url.schema ≡ codes "file")
        × (broker_url (new_impl search random (journal_url temp o)) ≡ journal_url temp o)
  unfolding impl_of journal_url
  journal_made temp head tail fits given lacks path = rw found (
    ap (or_else_value random) (stoul-print_u64 16 hex-IsBase o.id fits),
    refl,
    refl,
    localhost_before head,
    refl,
    refl,
  )
    where
      id_text : List ℕ
      id_text = print_u64 16 o.id []

      hostport : List ℕ
      hostport = codes "localhost" ++ head

      same_text :
          journal_url temp o
          ≡ codes "file" ++ (colon ∷ slash ∷ slash ∷ (id_text ++ (at_sign ∷ (hostport ++ tail))))
      same_text =
          ap (λ p. codes "file://" ++ print_u64 16 o.id (codes "@localhost" ++ p)) given
          ∙ ap (λ t. codes "file://" ++ t)
              (print_u64-append 16 o.id (codes "@localhost" ++ (head ++ tail)))

      found :
          new_impl search random (journal_url temp o)
          ≡ impl_of random (record {
            url = journal_url temp o;
            schema = codes "file";
            id = id_text;
            hostport = hostport;
            path = tail;
          })
      found = new_impl_of (journal_url temp o) _ (
          ap search same_text
          ∙ laws.with_user (codes "file") id_text hostport tail
              (lacks-Lacks colon (codes "file") refl) (number-IsUser o.id)
              (append-Lacks slash (codes "localhost") head
                (lacks-Lacks slash (codes "localhost") refl) lacks)
              path)

  -- A broker with the url of the service that the options give, which has no id of its own, gets a
  -- random one, the host of the options and their port modulo 2 ^ 16, if the name of the host has no colon, slash or at sign and the port fits a number of 64 bits.
  service_made :
      Lacks colon o.hostname
      → Lacks slash o.hostname
      → Lacks at_sign o.hostname
      → o.source < 2 ^ 64
      → ((new_impl search random (service_url o)).hostname ≡ o.hostname)
        × ((new_impl search random (service_url o)).port ≡ o.source % 2 ^ 16)
        × ((new_impl search random (service_url o)).id ≡ random)
        × ((new_impl search random (service_url o)).url.schema ≡ codes "grpc")
        × ((new_impl search random (service_url o)).url.hostport
            ≡ o.hostname ++ colon ∷ print_u64 10 o.source [])
  unfolding impl_of service_url port_text
  service_made no_colon no_slash no_at fits = rw found (
    before-append colon o.hostname port_digits no_colon,
    rw (port_text, behind-append colon o.hostname port_digits no_colon)
        (ap (λ p. or_else_value 0 p % 2 ^ 16) (stoul-print_u64 10 decimal-IsBase o.source fits)),
    no_id,
    refl,
    refl,
  )
    where
      port_digits : List ℕ
      port_digits = print_u64 10 o.source []

      hostport : List ℕ
      hostport = o.hostname ++ colon ∷ port_digits

      free :
          (c : ℕ) → c ≢ colon → ((d : ℕ) → digit_char d ≢ c) → Lacks c o.hostname → Lacks c hostport
      free c apart no_digit h =
          append-Lacks c o.hostname (colon ∷ port_digits) h
            ((λ e. apart (sym e)), print_u64-Lacks 10 c o.source no_digit)

      no_id : or_else_value random (stoul 16 []) ≡ random
      no_id = refl

      found :
          new_impl search random (service_url o)
          ≡ impl_of random (record {
            url = service_url o;
            schema = codes "grpc";
            id = [];
            hostport = hostport;
            path = [];
          })
      found = new_impl_of (service_url o) _ (
          ap (λ t. search (codes "grpc" ++ (colon ∷ slash ∷ slash ∷ t))) (sym (append_nil hostport))
          ∙ laws.without_user (codes "grpc") hostport [] (lacks-Lacks colon (codes "grpc") refl)
              (free slash (λ e. absurd (omega (arith, e))) digit_no_slash no_slash)
              (rw (append_nil hostport)
                (free at_sign (λ e. absurd (omega (arith, e))) digit_no_at no_at))
              tt)

  -- The server that RunService starts listens at the host and the port of the options, and that is the
  -- address to which the stub of RunCommand connects if it is given the same options, if the name of the
  -- host has no colon, slash or at sign and the port is below 2 ^ 16.
  pub stub_meets_runner :
      (journal : ℕ)
      → Lacks colon o.hostname
      → Lacks slash o.hostname
      → Lacks at_sign o.hostname
      → o.source < 2 ^ 16
      → ((start search journal (new_wrapper (service_url o))).address
          ≡ some (o.hostname ++ colon ∷ print_u64 10 o.source []))
        × (channel_address (new_impl search random (service_url o))
            ≡ o.hostname ++ colon ∷ print_u64 10 o.source [])
  unfolding start channel_address new_impl impl_of
  stub_meets_runner journal no_colon no_slash no_at fits =
      let made = service_made no_colon no_slash no_at (omega (arith, fits)) in
      (
        ap some made.4,
        rw (made.0, made.1) (ap (λ p. o.hostname ++ colon ∷ print_u64 10 p []) (omega arith)),
      )
