-- ===== src/Broker/Advertised.antt =====
-- What UpdateProvides (cashmere/src/hub.cpp) tells a neighbour.
use cashmere.Base.{
  or_else, or_else-none, or_else_assoc, ℕ, ltb, true, false, ◌≡◌, refl, sym, ◌∙◌, ap, subst, [],
  ◌∷◌, Option, none, some, arith,
}
use cashmere.OrderedMap.{lookup, emplace, Above, IsSorted, nat_order}
use cashmere.OrderedMap.Laws.{
  before, same, after, compare_keys, lookup-emplace_self, lookup-emplace_ne, lookup-lt_Above,
  Above-IsSorted,
}
use cashmere.Broker.{ConnectionInfo, IdConnectionInfoMap, SourcesMap}
use cashmere.Broker.Provides.{farther, merge_farther, update_provides_into, update_provides}

abbrev pub step : Option ConnectionInfo → Option ConnectionInfo
step none = none
step (some info) = some (farther info)

-- What a port offers for an id, one step farther.
abbrev pub offered : ℕ → IdConnectionInfoMap → Option ConnectionInfo
offered id infos = step (lookup id infos)

-- The offer of the first port, in the order of the ports, that has one.
abbrev pub first_offer : ℕ → SourcesMap → Option ConnectionInfo
first_offer id [] = none
first_offer id ((port, infos) ∷ rest) = or_else (offered id infos) (first_offer id rest)

abbrev pub InfosAreSorted : SourcesMap → Type 0
InfosAreSorted [] = Unit {0}
InfosAreSorted ((port, infos) ∷ rest) = IsSorted infos × InfosAreSorted rest

or_else_taken :
    (o b : Option ConnectionInfo) (x : ConnectionInfo)
    → or_else (elim o [ none ↦ some x | some w ↦ some w ]) b ≡ or_else o (some x)
or_else_taken none b x = refl
or_else_taken (some w) b x = refl

module _ (id j : ℕ) (info : ConnectionInfo) (rest : IdConnectionInfoMap) where
  lookup_before : ltb id j ≡ true → lookup id ((j, info) ∷ rest) ≡ none
  unfolding lookup
  lookup_before p = ground (arith, p)

  lookup_after : ltb id j ≡ false → ltb j id ≡ true → lookup id ((j, info) ∷ rest) ≡ lookup id rest
  unfolding lookup
  lookup_after p q = ground (arith, p, q)

  lookup_same : ltb id j ≡ false → ltb j id ≡ false → lookup id ((j, info) ∷ rest) ≡ some info
  unfolding lookup
  lookup_same p q = ground (arith, p, q)

  emplaced :
      (out : IdConnectionInfoMap)
      → Above j rest
      → or_else (lookup id (emplace j (farther info) out)) (offered id rest)
        ≡ or_else (lookup id out) (offered id ((j, info) ∷ rest))
  emplaced out a = elim (compare_keys id j) [
    | before p q ↦
        ap (λ o. or_else o (offered id rest))
          (lookup-emplace_ne id j (farther info) out (λ e. ground (arith, p)))
        ∙ ap (or_else (lookup id out))
            (ap step (lookup-lt_Above id j rest p a) ∙ sym (ap step (lookup_before p)))
    | same e p q ↦
        ap (λ o. or_else o (offered id rest))
          (subst
            (λ k.
              lookup id (emplace k (farther info) out)
              ≡ elim (lookup id out) [ none ↦ some (farther info) | some w ↦ some w ])
            e (lookup-emplace_self id (farther info) out))
        ∙ or_else_taken (lookup id out) (offered id rest) (farther info)
        ∙ ap (or_else (lookup id out)) (sym (ap step (lookup_same p q)))
    | after p q ↦
        ap (λ o. or_else o (offered id rest))
          (lookup-emplace_ne id j (farther info) out (λ e. ground (arith, p)))
        ∙ ap (or_else (lookup id out)) (sym (ap step (lookup_after q p)))
  ]

lookup-merge_farther :
    (id : ℕ) (infos out : IdConnectionInfoMap)
    → IsSorted infos
    → lookup id (merge_farther infos out) ≡ or_else (lookup id out) (offered id infos)
unfolding merge_farther lookup
lookup-merge_farther id [] out s = sym (or_else-none (lookup id out))
lookup-merge_farther id ((j, info) ∷ rest) out s =
    lookup-merge_farther id rest (emplace j (farther info) out) (Above-IsSorted j rest s)
    ∙ emplaced id j info rest out s

pub lookup-update_provides_into :
    (id : ℕ) (provides : SourcesMap) (out : IdConnectionInfoMap)
    → InfosAreSorted provides
    → lookup id (update_provides_into provides out)
      ≡ or_else (lookup id out) (first_offer id provides)
unfolding update_provides_into
lookup-update_provides_into id [] out s = sym (or_else-none (lookup id out))
lookup-update_provides_into id ((port, infos) ∷ rest) out s =
    lookup-update_provides_into id rest (merge_farther infos out) s.1
    ∙ ap (λ o. or_else o (first_offer id rest)) (lookup-merge_farther id infos out s.0)
    ∙ or_else_assoc (lookup id out) (offered id infos) (first_offer id rest)

-- UpdateProvides takes for each id the first offer, in the order of the ports.
pub lookup-update_provides :
    (id : ℕ) (provides : SourcesMap)
    → InfosAreSorted provides
    → lookup id (update_provides provides) ≡ first_offer id provides
unfolding update_provides lookup
lookup-update_provides id provides s = lookup-update_provides_into id provides [] s
