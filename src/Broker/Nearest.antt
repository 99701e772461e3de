-- ===== src/Broker/Nearest.antt =====
-- The port that Broker::relay (cashmere/src/hub.cpp) chooses.
use cashmere.Base.{
  ℕ, ◌≡◌, ◌⊎◌, refl, sym, Bool, true, false, ◌&&◌, [], ◌∷◌, ltb, ◌==◌, if◌then◌else◌, ==_iff, arith,
  Bool-cases, inl, inr,
}
use cashmere.Base.Int.{ℤ, pos, int_eq, int_eq_iff}
use cashmere.Broker.{ConnectionInfo, IdConnectionInfoMap, SourcesMap, Node}
use cashmere.Broker.Provides.{sources}
use cashmere.Broker.Relay.{
  Route, here, via, unknown, nearer, consider, route_infos, route_from, find_route,
}

-- Among `infos` there is the id `wanted` at the distance `d`.
abbrev pub Lists : ℕ → IdConnectionInfoMap → ℤ → Type 0
Lists wanted [] d = ⊥
Lists wanted ((id, info) ∷ rest) d = ((id ≡ wanted) × (d ≡ info.distance)) ⊎ Lists wanted rest d

-- A port other than the sender's offers the id `wanted` at the distance `d`.
abbrev pub Offers : ℕ → ℕ → SourcesMap → ℕ → ℤ → Type 0
Offers wanted sender [] port d = ⊥
Offers wanted sender ((p, infos) ∷ rest) port d =
    (((ltb 0 sender && p == sender) ≡ false) × (port ≡ p) × Lists wanted infos d)
    ⊎ Offers wanted sender rest port d

-- A route is right for the offers `P`: `here` if one is at the distance 0, a port if its offer is
-- one of `P` and none is nearer, and `unknown` if there is no offer.
abbrev pub IsBest : (ℕ → ℤ → Type 0) → Route → Type 0
IsBest P here = (port : ℕ) × P port (pos 0)
IsBest P (via port best) =
    P port best
    × ((q : ℕ) (d : ℤ) → P q d → (int_eq d (pos 0) ≡ false) × (nearer d (via port best) ≡ false))
IsBest P unknown = (q : ℕ) (d : ℤ) → P q d → ⊥

IsBest-iff :
    (P Q : ℕ → ℤ → Type 0) (route : Route)
    → ((q : ℕ) (d : ℤ) → P q d → Q q d)
    → ((q : ℕ) (d : ℤ) → Q q d → P q d)
    → IsBest P route
    → IsBest Q route
IsBest-iff P Q here f g b = (b.0, f b.0 (pos 0) b.1)
IsBest-iff P Q (via port best) f g b = (f port best b.0, λ q d h. b.1 q d (g q d h))
IsBest-iff P Q unknown f g b = λ q d h. b q d (g q d h)

-- One more offer.
abbrev More : (ℕ → ℤ → Type 0) → ℕ → ℤ → ℕ → ℤ → Type 0
More P port distance q d = P q d ⊎ ((q ≡ port) × (d ≡ distance))

nearer_irrefl : (port : ℕ) (d : ℤ) → nearer d (via port d) ≡ false
nearer_irrefl port d = ground arith

module _ (P : ℕ → ℤ → Type 0) (port : ℕ) (distance : ℤ) where
  zero-IsBest : int_eq distance (pos 0) ≡ true → IsBest (More P port distance) here
  zero-IsBest z = (port, inr (refl, sym ((int_eq_iff distance (pos 0)).0 z)))

  take-IsBest :
      (route : Route)
      → int_eq distance (pos 0) ≡ false
      → nearer distance route ≡ true
      → IsBest P route
      → IsBest (More P port distance) (via port distance)
  take-IsBest here nz lt b = absurd (ground (arith, lt))
  take-IsBest (via p best) nz lt b = (
    inr (refl, refl),
    λ q d h. elim h [
      | inl k ↦ let old = b.1 q d k in (old.0, ground (arith, old.1, lt))
      | inr k ↦ (rw k.1 nz, rw k.1 (nearer_irrefl port distance))
    ],
  )
  take-IsBest unknown nz lt b = (
    inr (refl, refl),
    λ q d h. elim h [
      | inl k ↦ absurd (b q d k)
      | inr k ↦ (rw k.1 nz, rw k.1 (nearer_irrefl port distance))
    ],
  )

  keep-IsBest :
      (route : Route)
      → int_eq distance (pos 0) ≡ false
      → nearer distance route ≡ false
      → IsBest P route
      → IsBest (More P port distance) route
  keep-IsBest here nz ge b = (b.0, inl b.1)
  keep-IsBest (via p best) nz ge b =
      (inl b.0, λ q d h. elim h [ inl k ↦ b.1 q d k | inr k ↦ (rw k.1 nz, rw k.1 ge) ])
  keep-IsBest unknown nz ge b = absurd (ground (arith, ge))

-- One more entry of the infos of a port.
abbrev Listed : (ℕ → ℤ → Type 0) → ℕ → ℕ → ℕ → ConnectionInfo → ℕ → ℤ → Type 0
Listed P wanted port id info q d = P q d ⊎ ((q ≡ port) × (id ≡ wanted) × (d ≡ info.distance))

module _ (P : ℕ → ℤ → Type 0) (wanted port id : ℕ) (info : ConnectionInfo) where
  wanted-IsBest :
      (route : Route)
      → id ≡ wanted
      → IsBest (More P port info.distance) route
      → IsBest (Listed P wanted port id info) route
  wanted-IsBest route same =
      IsBest-iff (More P port info.distance) (Listed P wanted port id info) route
        (λ q d h. elim h [ inl k ↦ inl k | inr k ↦ inr (k.0, same, k.1) ])
        (λ q d h. elim h [ inl k ↦ inl k | inr k ↦ inr (k.0, k.2) ])

  choose-IsBest :
      (route : Route)
      → IsBest P route
      → IsBest (Listed P wanted port id info) (
          if id == wanted
          then (if int_eq info.distance (pos 0)
              then here
              else if nearer info.distance route
              then via port info.distance
              else route)
          else route)
  choose-IsBest route b = elim (Bool-cases (id == wanted)) [
    | inr other ↦ rw other (
        IsBest-iff P (Listed P wanted port id info) route (λ q d k. inl k)
          (λ q d h. elim h [ inl k ↦ k | inr k ↦ absurd (ground (arith, other, k.1)) ]) b)
    | inl same ↦
        let e = (==_iff id wanted).0 same in
        elim (Bool-cases (int_eq info.distance (pos 0))) [
          | inl z ↦ rw (same, z) (wanted-IsBest here e (zero-IsBest P port info.distance z))
          | inr nz ↦ elim (Bool-cases (nearer info.distance route)) [
            | inl lt ↦
                rw (same, nz, lt)
                  (wanted-IsBest (via port info.distance) e
                    (take-IsBest P port info.distance route nz lt b))
            | inr ge ↦
                rw (same, nz, ge)
                  (wanted-IsBest route e (keep-IsBest P port info.distance route nz ge b))
          ]
        ]
  ]

  consider-IsBest :
      (route : Route)
      → IsBest P route
      → IsBest (Listed P wanted port id info) (consider wanted port id info route)
  unfolding consider
  consider-IsBest here b = (b.0, inl b.1)
  consider-IsBest (via p best) b = choose-IsBest (via p best) b
  consider-IsBest unknown b = choose-IsBest unknown b

route_infos-IsBest :
    (P : ℕ → ℤ → Type 0) (wanted port : ℕ) (infos : IdConnectionInfoMap) (route : Route)
    → IsBest P route
    → IsBest
        (λ q d. P q d ⊎ ((q ≡ port) × Lists wanted infos d))
        (route_infos wanted port infos route)
unfolding route_infos
route_infos-IsBest P wanted port [] route b =
    IsBest-iff P (λ q d. P q d ⊎ ((q ≡ port) × ⊥)) route (λ q d k. inl k)
      (λ q d h. elim h [ inl k ↦ k | inr k ↦ absurd k.1 ]) b
route_infos-IsBest P wanted port ((id, info) ∷ rest) route b =
    IsBest-iff (λ q d. Listed P wanted port id info q d ⊎ ((q ≡ port) × Lists wanted rest d))
      (λ q d. P q d ⊎ ((q ≡ port) × Lists wanted ((id, info) ∷ rest) d))
      (route_infos wanted port rest (consider wanted port id info route))
      (λ q d h. elim h [
        | inl k ↦ elim k [ inl m ↦ inl m | inr m ↦ inr (m.0, inl (m.1, m.2)) ]
        | inr k ↦ inr (k.0, inr k.1)
      ])
      (λ q d h. elim h [
        | inl k ↦ inl (inl k)
        | inr k ↦ elim k.1 [ inl m ↦ inl (inr (k.0, m.0, m.1)) | inr m ↦ inr (k.0, m) ]
      ])
      (route_infos-IsBest (Listed P wanted port id info) wanted port rest
        (consider wanted port id info route) (consider-IsBest P wanted port id info route b))

-- A port whose entries are skipped, or not.
port-IsBest :
    (P : ℕ → ℤ → Type 0) (wanted port : ℕ) (infos : IdConnectionInfoMap) (route : Route)
    → IsBest P route
    → (skip : Bool)
    → IsBest
        (λ q d. P q d ⊎ ((skip ≡ false) × (q ≡ port) × Lists wanted infos d))
        (if skip then route else route_infos wanted port infos route)
port-IsBest P wanted port infos route b true =
    IsBest-iff P (λ q d. P q d ⊎ ((true ≡ false) × (q ≡ port) × Lists wanted infos d)) route
      (λ q d k. inl k) (λ q d h. elim h [ inl k ↦ k | inr k ↦ absurd (ground (arith, k.0)) ]) b
port-IsBest P wanted port infos route b false =
    IsBest-iff (λ q d. P q d ⊎ ((q ≡ port) × Lists wanted infos d))
      (λ q d. P q d ⊎ ((false ≡ false) × (q ≡ port) × Lists wanted infos d))
      (route_infos wanted port infos route)
      (λ q d h. elim h [ inl k ↦ inl k | inr k ↦ inr (refl, k.0, k.1) ])
      (λ q d h. elim h [ inl k ↦ inl k | inr k ↦ inr (k.1, k.2) ])
      (route_infos-IsBest P wanted port infos route b)

route_from-IsBest :
    (P : ℕ → ℤ → Type 0) (wanted sender : ℕ) (offered : SourcesMap) (route : Route)
    → IsBest P route
    → IsBest
        (λ q d. P q d ⊎ Offers wanted sender offered q d)
        (route_from wanted sender offered route)
unfolding route_from
route_from-IsBest P wanted sender [] route b =
    IsBest-iff P (λ q d. P q d ⊎ ⊥) route (λ q d k. inl k)
      (λ q d h. elim h [ inl k ↦ k | inr k ↦ absurd k ]) b
route_from-IsBest P wanted sender ((port, infos) ∷ rest) route b =
    let Q : ℕ → ℤ → Type 0 = λ q d.
      P q d ⊎ (((ltb 0 sender && port == sender) ≡ false) × (q ≡ port) × Lists wanted infos d) in
    let next =
      if ltb 0 sender && port == sender then route else route_infos wanted port infos route in
    IsBest-iff (λ q d. Q q d ⊎ Offers wanted sender rest q d)
      (λ q d. P q d ⊎ Offers wanted sender ((port, infos) ∷ rest) q d)
      (route_from wanted sender rest next)
      (λ q d h. elim h [
        | inl k ↦ elim k [ inl m ↦ inl m | inr m ↦ inr (inl m) ]
        | inr k ↦ inr (inr k)
      ])
      (λ q d h. elim h [
        | inl k ↦ inl (inl k)
        | inr k ↦ elim k [ inl m ↦ inl (inr m) | inr m ↦ inr m ]
      ])
      (route_from-IsBest Q wanted sender rest next
        (port-IsBest P wanted port infos route b (ltb 0 sender && port == sender)))

-- The search of Broker::relay finds the best route, whatever the broker's connections.
pub find_route-IsBest :
    (n : Node) (wanted sender : ℕ)
    → IsBest (Offers wanted sender (sources n 0)) (find_route n wanted sender)
unfolding find_route
find_route-IsBest n wanted sender =
    IsBest-iff (λ q d. ⊥ ⊎ Offers wanted sender (sources n 0) q d)
      (Offers wanted sender (sources n 0)) (route_from wanted sender (sources n 0) unknown)
      (λ q d h. elim h [ inl k ↦ absurd k | inr k ↦ k ]) (λ q d k. inr k)
      (route_from-IsBest (λ q d. ⊥) wanted sender (sources n 0) unknown (λ q d k. k))
