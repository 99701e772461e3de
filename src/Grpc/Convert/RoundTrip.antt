-- ===== src/Grpc/Convert/RoundTrip.antt =====
-- What one side puts into a message, the other takes out of it.
use cashmere.Base.{
  ℕ, ◌^◌, ◌≤◌, ◌<◌, ◌≡◌, refl, sym, subst, ap, inl, inr, Among, [], ◌∷◌, some, arith,
}
use cashmere.Base.Int.{ℤ, pos, negsuc, pos_part, neg_part}
use cashmere.OrderedMap.{OrderedMap, lookup, IsSorted, nat_order}
use cashmere.Clock.{Clock}
use cashmere.Entry.{Data, Entry}
use cashmere.Broker.{ConnectionInfo, IdConnectionInfoMap, SourcesMap}
use cashmere.Grpc.{ProtoMap, new_data, new_entry, new_info, new_info_map, get_or}
use cashmere.Grpc.Maps.{take-fill, lookup-Among}
use cashmere.Grpc.Convert.{
  i16_of, clock_from, data_from, entry_from, info_from, infos_from, sources_from, set_clock,
  set_data, set_entry, set_info, set_infos, set_sources,
}

abbrev pub IsI16 : ℤ → Type 0
IsI16 x = (pos_part x < 2 ^ 15) × (neg_part x ≤ 2 ^ 15)

i16_of_small : (x : ℤ) → IsI16 x → i16_of x ≡ x
unfolding i16_of
i16_of_small (pos n) h = ground (arith, h.0)
i16_of_small (negsuc n) h = ground (arith, h.1)

abbrev pub Each : {V : Type 0} → (V → Type 0) → OrderedMap ℕ V → Type 0
Each Q [] = Unit {0}
Each Q ((k, v) ∷ rest) = Q v × Each Q rest

Each-Among :
    {V : Type 0} (Q : V → Type 0) (k : ℕ) (v : V) (m : OrderedMap ℕ V)
    → Each Q m
    → Among (k, v) m
    → Q v
Each-Among Q k v [] q h = absurd h
Each-Among Q k v ((j, w) ∷ rest) q h = elim h [
  | inl p ↦ subst Q (sym (ap (λ t. t.1) p)) q.0
  | inr p ↦ Each-Among Q k v rest q.1 p
]

Each-lookup :
    {V : Type 0} (Q : V → Type 0) (k : ℕ) (v : V) (m : OrderedMap ℕ V)
    → Each Q m
    → lookup k m ≡ some v
    → Q v
Each-lookup Q k v m q e = Each-Among Q k v m q (lookup-Among k v m e)

abbrev pub IsSendable : ConnectionInfo → Type 0
IsSendable info = IsI16 info.distance × IsSorted info.clock

-- The map is sorted, and so are the clocks in it; distances are of 16 bits.
abbrev pub AreSendable : IdConnectionInfoMap → Type 0
AreSendable infos = IsSorted infos × Each IsSendable infos

module _ (P : ProtoMap) where
  -- ClockFrom takes out of a message the clock that SetClock put into it.
  pub clock_from-set_clock : (c : Clock) → IsSorted c → clock_from P (set_clock P c P.empty) ≡ c
  unfolding clock_from set_clock
  clock_from-set_clock c s = take-fill P (λ count old. count) (λ count. count) c s (λ k a e. refl)

  pub data_from-set_data :
      (d : Data) → IsSorted d.alters → data_from P (set_data P d (new_data P)) ≡ d
  unfolding data_from set_data
  data_from-set_data d s = ap (λ c. record d { alters = c }) (clock_from-set_clock d.alters s)

  -- EntryFrom takes out of a message the entry that SetEntry put into it.
  pub entry_from-set_entry :
      (e : Entry)
      → IsSorted e.clock
      → IsSorted e.entry.alters
      → entry_from P (set_entry P e (new_entry P)) ≡ e
  unfolding entry_from set_entry
  entry_from-set_entry e s t =
      rw (clock_from-set_clock e.clock s, data_from-set_data e.entry t) refl

  info_from-set_info :
      (i : ConnectionInfo)
      → IsI16 i.distance
      → IsSorted i.clock
      → info_from P (set_info P i (new_info P)) ≡ i
  unfolding info_from set_info
  info_from-set_info i h s = rw (clock_from-set_clock i.clock s, i16_of_small i.distance h) refl

  pub infos_from-set_infos :
      (infos : IdConnectionInfoMap)
      → AreSendable infos
      → infos_from P (set_infos P infos P.empty) ≡ infos
  unfolding infos_from set_infos
  infos_from-set_infos infos h =
      take-fill P (λ info old. set_info P info (get_or (new_info P) old)) (info_from P) infos h.0
        (λ id info e.
          let here = Each-lookup IsSendable id info infos h.1 e in
          info_from-set_info info here.0 here.1)

  -- SourcesFrom takes out of a message the sources that SetSources put into it, whatever the order in
  -- which the maps of the message are iterated, when the maps are sorted and distances are of 16 bits.
  pub sources_from-set_sources :
      (sources : SourcesMap)
      → IsSorted sources
      → Each AreSendable sources
      → sources_from P (set_sources P sources P.empty) ≡ sources
  unfolding sources_from set_sources
  sources_from-set_sources sources s h =
      take-fill P
        (λ infos old. record { info = set_infos P infos (get_or (new_info_map P) old).info })
        (λ m. infos_from P m.info) sources s
        (λ port infos e.
          infos_from-set_infos infos (Each-lookup AreSendable port infos sources h e))
