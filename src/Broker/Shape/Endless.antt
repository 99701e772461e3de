-- ===== src/Broker/Shape/Endless.antt =====
-- `Broker::insert` (cashmere/src/hub.cpp) on a round of plain brokers, which do not remember the entries
-- that they passed on.
use cashmere.Base.{ℕ, zero, suc, ◌≡◌, ◌≢◌, refl, subst, some}
use cashmere.Clock.{Clock}
use cashmere.Entry.{Entry}
use cashmere.Broker.{World, done, timed_out}
use cashmere.Broker.Dispatch.{network}
use cashmere.Broker.Growth.{Good}
use cashmere.Broker.Growth.Membership.{network-Keeps}
use cashmere.Broker.Shape.{Shape, shape, port_of, Runs}
use cashmere.Broker.Shape.Insertion.{Runs-insert}
use cashmere.Broker.Shape.Passage.{Ends, Brings}
use cashmere.Broker.Shape.Hub.{IsHub, Always, Always-PartsStay, Brings-via, anything_IsThere}

-- Whatever the fuel, an insertion that returns leaves the shape as it is.
pub network-Runs :
    (t : Shape) (fuel b : ℕ) (e : Entry) (s : ℕ) → Runs Unit t ((network fuel).insert b e s)
unfolding network timed_out
network-Runs t zero b e s = λ w same. tt
network-Runs t (suc fuel) b e s =
    Runs-insert Unit t (network fuel) b e s (λ i b' s' _ _. network-Runs t fuel b' e s')
      (anything_IsThere t (port_of t b 0))

-- From each broker and port of `turn` a way leads, not through that port, to another of `turn`.
abbrev pub IsRound : Shape → (ℕ → ℕ → Type 0) → Type 0
IsRound t turn =
    (self source : ℕ)
    → turn self source
    → IsHub t self source
      × ((i : ℕ) × (b : ℕ) × (s : ℕ) × (i ≢ source)
          × (port_of t self i ≡ some (some b, s))
          × turn b s)

insert-Brings_round :
    (t : Shape) (turn : ℕ → ℕ → Type 0) (fuel self source : ℕ) (e : Entry)
    → IsRound t turn
    → turn self source
    → Brings t Always (λ w. ⊥) (λ w w' grows no. no) ((network fuel).insert self e source)
unfolding network timed_out
insert-Brings_round t turn zero self source e round h = λ w good s q. tt
insert-Brings_round t turn (suc fuel) self source e round h =
    let (is_hub, (i, b, s, apart, leads, next)) = round self source h in
    Brings-via t Always (λ w. ⊥) (λ w w' grows no. no) (network fuel) (network-Keeps fuel)
      (network-Runs t fuel) self source e i b s is_hub apart leads
      (Always-PartsStay t (λ w. ⊥) (λ w w' grows no. no) (network fuel) (network-Keeps fuel)
        (network-Runs t fuel) self source e)
      (insert-Brings_round t turn fuel b s e round next)

-- On a round of plain brokers, each of which has the port at which the entry comes in and leads on
-- to the next by another port, an insertion does not return a clock, however deep calls may be
-- nested. The first connection of each broker is its own.
pub insert_endless :
    (turn : ℕ → ℕ → Type 0) (fuel self source : ℕ) (e : Entry) (w w' : World) (c : Clock)
    → Good w
    → IsRound (shape w) turn
    → turn self source
    → (network fuel).insert self e source w ≢ done c w'
insert_endless turn fuel self source e w w' c good round h ran =
    subst (Ends (λ w. ⊥)) ran
      (insert-Brings_round (shape w) turn fuel self source e round h w good refl tt)
