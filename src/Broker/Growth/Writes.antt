-- ===== src/Broker/Growth/Writes.antt =====
-- The rules of `Keeps` for the writes that move a clock or record an entry.
use cashmere.Base.{
  ℕ, zero, suc, ◌≡◌, refl, subst, ap, ◌∙◌, inl, inr, false, List, [], ◌∷◌, some, arith, get_elem?,
  set, Option-cases, Bool-cases,
}
use cashmere.OrderedMap.{OrderedMap, lookup, assign, contains, nat_order}
use cashmere.OrderedMap.Laws.{lookup-assign_ne}
use cashmere.Clock.Lexicographic.{clock_order}
use cashmere.Entry.{Data, Entry}
use cashmere.Clock.{Clock, merge}
use cashmere.Clock.Causality.{Precedes, Precedes-refl, Precedes-merge_any}
use cashmere.Broker.{
  Link, Node, World, ◌>>=◌, pure, at, node, put_node, link, put_link, modify, clock, set_clock,
}
use cashmere.Broker.Provides.{front_clock}
use cashmere.Broker.Insert.{advance, mark, save, set_info_clock}
use cashmere.Broker.Growth.{IsFront, GoodAt, Good, Grows, Grows-refl, Keeps}
use cashmere.Broker.Growth.Rules.{set-GoodAt, set-GrowsAt, set-IsFront, front_link}

-- A write to the connections of a node whose clock does not go back.
write_Safe :
    (w : World) (self : ℕ) (n : Node) (cs : List Link)
    → get_elem? w self ≡ some n
    → IsFront cs
    → Precedes (front_clock n.connections) (front_clock cs)
    → Good w
    → Good (set w self (record n { connections = cs }))
      × Grows w (set w self (record n { connections = cs }))
write_Safe w self n cs e f above g = (
  λ i. set-GoodAt w self (record n { connections = cs }) i f (g i),
  λ i.
      set-GrowsAt w self n (record n { connections = cs }) i e
        (record { same_kind = refl; same_id = refl; clocks = above; entries = λ time d h. h }),
)

advance_above :
    (cs : List Link) (c : Link) (time : Clock)
    → get_elem? cs 0 ≡ some c
    → Precedes
        (front_clock cs)
        (front_clock (set cs 0 (record c { version = merge c.version time })))
advance_above [] c time e = absurd (cc)
advance_above (x ∷ cs) c time e = let p : x ≡ c = cc in rw p (Precedes-merge_any c.version time)

pub Keeps-advance : (self : ℕ) (time : Clock) → Keeps (advance self time)
unfolding advance set_clock put_link modify clock link node put_node pure at ◌>>=◌
Keeps-advance self time w g = elim (Option-cases (get_elem? w self)) [
  | inl e ↦ rw e tt
  | inr (n, e) ↦
      let good : IsFront n.connections = subst GoodAt e (g self) in
      elim (Option-cases (get_elem? n.connections 0)) [
        | inl e' ↦ rw (e, e') tt
        | inr (c, e') ↦
            rw (e, e', e, e', e)
              (write_Safe w self n _ e
                (set-IsFront n.connections 0 _ (front_link n.connections 0 c good e') good)
                (advance_above n.connections c time e') g)
      ]
]

same_version :
    (cs : List Link) (i : ℕ) (c d : Link)
    → get_elem? cs i ≡ some c
    → d.version ≡ c.version
    → front_clock (set cs i d) ≡ front_clock cs
same_version [] i c d e v = refl
same_version (x ∷ cs) zero c d e v = let p : x ≡ c = cc in rw (p, v)
same_version (x ∷ cs) (suc i) c d e v = refl

pub Keeps-mark : (self i id : ℕ) → Keeps (mark self i id)
unfolding mark put_link modify clock link node put_node pure at ◌>>=◌
Keeps-mark self i id w g = elim (Option-cases (get_elem? w self)) [
  | inl e ↦ rw e tt
  | inr (n, e) ↦
      let good : IsFront n.connections = subst GoodAt e (g self) in
      elim (Option-cases (get_elem? n.connections i)) [
        | inl e' ↦ rw (e, e') tt
        | inr (c, e') ↦ elim (Option-cases (get_elem? n.connections 0)) [
          | inl e'' ↦ rw (e, e', e, e'') tt
          | inr (front, e'') ↦
              let marked : Link = record c {
                sources = set_info_clock id front.version c.sources;
              } in
              rw (e, e', e, e'', e)
                (write_Safe w self n (set n.connections i marked) e
                  (set-IsFront n.connections i marked (front_link n.connections i c good e') good)
                  (rw (same_version n.connections i c marked e' refl)
                    (Precedes-refl (front_clock n.connections)))
                  g)
        ]
      ]
]

save_entries :
    (time : Clock) (d : Data) (entries : OrderedMap Clock Data)
    → contains time entries ≡ false
    → (k : Clock) (old : Data) → lookup k entries ≡ some old
    → lookup k (assign time d entries) ≡ some old
save_entries time d entries fresh k old found =
    lookup-assign_ne k time d entries (λ p. absurd (ground (arith, ap (λ x. lookup x entries) p)))
    ∙ found

pub Keeps-save : (self : ℕ) (e : Entry) → Keeps (save self e)
unfolding save node put_node pure at ◌>>=◌
Keeps-save self e w g = elim (Option-cases (get_elem? w self)) [
  | inl p ↦ rw p tt
  | inr (n, p) ↦
      let good : IsFront n.connections = subst GoodAt p (g self) in
      elim (Bool-cases (contains e.clock n.entries)) [
        | inl old ↦ rw (p, old) (g, Grows-refl w)
        | inr new ↦
            let saved : Node = record n { entries = assign e.clock e.entry n.entries } in
            rw (p, new)
              (
                λ i. set-GoodAt w self saved i good (g i),
                λ i. set-GrowsAt w self n saved i p (record {
                  same_kind = refl;
                  same_id = refl;
                  clocks = Precedes-refl (front_clock n.connections);
                  entries = save_entries e.clock e.entry n.entries new;
                }),
              )
      ]
]
