-- ===== src/Grpc/Bridge.antt =====
-- A stub (grpc/plugins/src/grpc.cpp) whose calls all reach the runner of another host
-- (grpc/runner/src/grpcrunner.cpp), against the broker there.
use cashmere.Base.{
  ℕ, ◌≡◌, refl, sym, ap, ◌∙◌, Bool, true, List, [], ◌∷◌, Option, none, map, Bool-cases, inl, inr,
  if◌then◌else◌, ◌==◌,
}
use cashmere.OrderedMap.{IsSorted, nat_order}
use cashmere.Clock.{Clock, valid}
use cashmere.Entry.{Data, Entry}
use cashmere.Broker.{Node, World, done, M, ◌>>=◌, pure, node, Remote, clock, Link, empty_link, stub}
use cashmere.Broker.Provides.{sources}
use cashmere.Grpc.{ProtoMap, new_entry}
use cashmere.Grpc.Maps.{fill}
use cashmere.Grpc.Convert.{clock_from, entry_from, set_entry, set_clock}
use cashmere.Grpc.Convert.RoundTrip.{
  clock_from-set_clock, data_from-set_data, entry_from-set_entry, infos_from-set_infos,
  sources_from-set_sources, AreSendable, Each,
}
use cashmere.Grpc.Stub.{
  stub_clock, stub_sources, stub_insert, stub_query, stub_connect, stub_refresh, stub_relay,
}
use cashmere.Grpc.Runner.{
  runner, run_query, run_insert, run_relay, run_sources, run_clock, run_refresh, run_connect,
}

-- The clocks of entries are well-formed.
abbrev pub AreWellFormed : List Entry → Type 0
AreWellFormed [] = Unit {0}
AreWellFormed (e ∷ rest) = IsSorted e.clock × IsSorted e.entry.alters × AreWellFormed rest

module _ (P : ProtoMap) where
  entries_from-set_entries :
      (es : List Entry)
      → AreWellFormed es
      → map (entry_from P) (map (λ e. set_entry P e (new_entry P)) es) ≡ es
  entries_from-set_entries [] s = refl
  entries_from-set_entries (e ∷ rest) s =
      rw (entry_from-set_entry P e s.0 s.1, entries_from-set_entries rest s.2) refl

  clock_from_empty : clock_from P P.empty ≡ []
  clock_from_empty = unfold set_clock fill in clock_from-set_clock P [] tt

-- The connection that the broker at the other end is given: a blank one for the port 0.
abbrev pub offered : Bool → Option ℕ → Link → Link
offered blank b conn =
    if blank then record empty_link { broker = b } else record conn { broker = b }

module _ (P : ProtoMap) (broker : Remote) (get_or_create : List ℕ → M (Option ℕ)) (self : ℕ) where
  -- A query through the bridge gives what the broker at the other end answers, when the clocks are
  -- well-formed.
  pub stub_query-runner :
      (from : Clock) (sender : ℕ) (w w' : World) (es : List Entry)
      → IsSorted from
      → AreWellFormed es
      → broker.query self from sender w ≡ done es w'
      → stub_query P (runner P broker get_or_create self) from sender w ≡ done es w'
  unfolding stub_query run_query ◌>>=◌ pure
  stub_query-runner from sender w w' es s t e =
      rw (clock_from-set_clock P from s, e)
        (ap (λ es. done es w') (entries_from-set_entries P es t))

  -- A relay through the bridge gives what the broker at the other end answers, when the clocks are
  -- well-formed.
  pub stub_relay-runner :
      (d : Data) (sender : ℕ) (w w' : World) (answer : Clock)
      → IsSorted d.alters
      → IsSorted answer
      → broker.relay self d sender w ≡ done answer w'
      → stub_relay P (runner P broker get_or_create self) d sender w ≡ done answer w'
  unfolding stub_relay run_relay ◌>>=◌ pure
  stub_relay-runner d sender w w' answer s t e =
      rw (data_from-set_data P d s, e) (ap (λ c. done c w') (clock_from-set_clock P answer t))

  -- An insertion through the bridge gives the clock of the broker at the other end if that broker
  -- accepted the entry, and the empty clock, which is valid, if it refused; the clocks are
  -- well-formed.
  pub stub_insert-runner :
      (entry : Entry) (sender : ℕ) (w w' : World) (answer now : Clock)
      → IsSorted entry.clock
      → IsSorted entry.entry.alters
      → IsSorted now
      → broker.insert self entry sender w ≡ done answer w'
      → clock self w' ≡ done now w'
      → stub_insert P (runner P broker get_or_create self) entry sender w
        ≡ done (if valid answer then now else []) w'
  unfolding stub_insert run_insert ◌>>=◌ pure
  stub_insert-runner entry sender w w' answer now s t r e c =
      rw (entry_from-set_entry P entry s t, e)
        (elim (Bool-cases (valid answer)) [
          | inl v ↦ rw (v, c) (ap (λ x. done x w') (clock_from-set_clock P now r))
          | inr v ↦ rw v refl
        ])

  -- A refresh through the bridge tells the broker at the other end the port, the clock and the sources,
  -- and answers yes whatever that broker answers.
  stub_refresh-runner :
      (conn : Link) (sender : ℕ) (w w' : World) (answer : Bool)
      → IsSorted conn.version
      → AreSendable conn.sources
      → broker.refresh self (record conn { broker = none }) sender w ≡ done answer w'
      → stub_refresh P (runner P broker get_or_create self) conn sender w ≡ done true w'
  unfolding stub_refresh run_refresh ◌>>=◌ pure
  stub_refresh-runner conn sender w w' answer s t e =
      rw (clock_from-set_clock P conn.version s, infos_from-set_infos P conn.sources t, e) refl

  -- The clock through the bridge is the clock of the broker at the other end, when it is well-formed.
  pub stub_clock-runner :
      (w w' : World) (now : Clock)
      → IsSorted now
      → clock self w ≡ done now w'
      → stub_clock P (runner P broker get_or_create self) w ≡ done now w'
  unfolding stub_clock run_clock ◌>>=◌ pure
  stub_clock-runner w w' now s e = rw e (ap (λ c. done c w') (clock_from-set_clock P now s))

  -- The sources through the bridge are those that the broker at the other end has for the sender, when
  -- its maps are sorted and distances are of 16 bits.
  pub stub_sources-runner :
      (sender : ℕ) (w : World) (n : Node)
      → node self w ≡ done n w
      → IsSorted (sources n sender)
      → Each AreSendable (sources n sender)
      → stub_sources P (runner P broker get_or_create self) sender w ≡ done (sources n sender) w
  unfolding stub_sources run_sources ◌>>=◌ pure
  stub_sources-runner sender w n e s h =
      rw e (ap (λ x. done x w) (sources_from-set_sources P (sources n sender) s h))

  -- A connection through the bridge: with a port, the broker at the other end is offered the port, the
  -- clock and the sources of the caller, and the caller gets back its answer's port and clock, and no
  -- sources; with the port 0 the broker gets a blank connection, and the caller no clock either.
  pub stub_connect-runner :
      (peer : ℕ) (b : Option ℕ) (url : List ℕ) (conn answer : Link) (w w' w'' : World)
      → IsSorted conn.version
      → AreSendable conn.sources
      → IsSorted answer.version
      → get_or_create url w ≡ done b w'
      → broker.connect self (offered (conn.source == 0) b conn) w' ≡ done answer w''
      → stub_connect P (runner P broker get_or_create self) peer url conn w
        ≡ done
            (record (stub peer) {
              source = answer.source;
              version = if conn.source == 0 then [] else answer.version;
            })
            w''
  unfolding stub_connect run_connect ◌>>=◌ pure
  stub_connect-runner peer b url conn answer w w' w'' s t r g e =
      elim (Bool-cases (conn.source == 0)) [
        | inl v ↦
            let call = sym (ap (λ z. broker.connect self (offered z b conn) w') v) ∙ e in
            rw (g, v, call)
              (ap (λ c. done (record (stub peer) { source = answer.source; version = c }) w'')
                (clock_from_empty P))
        | inr v ↦
            let call = sym (ap (λ z. broker.connect self (offered z b conn) w') v) ∙ e in
            rw
              (
                clock_from-set_clock P conn.version s,
                infos_from-set_infos P conn.sources t,
                g,
                v,
                call,
              )
              (ap (λ c. done (record (stub peer) { source = answer.source; version = c }) w'')
                (clock_from-set_clock P answer.version r))
      ]
