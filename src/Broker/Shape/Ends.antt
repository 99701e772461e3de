-- ===== src/Broker/Shape/Ends.antt =====
-- The depth of the calls that `insert` of cashmere/src/hub.cpp and cashmere/src/journalbase.cpp makes from
-- broker to broker: an entry does not go back through the port at which it came in.
use cashmere.Base.{Bool, ℕ, zero, suc, ◌≤◌, ◌≡◌, ◌≢◌, refl, arith, some}
use cashmere.Clock.{Clock, valid}
use cashmere.Entry.{Data, Entry}
use cashmere.Broker.{World, Outcome, done, fault, timeout}
use cashmere.Broker.Dispatch.{network, append_data}
use cashmere.Broker.Shape.{
  Shape, shape, port_of, IsThere, Result, Runs, Runs-bind, Runs-pure, Runs-clock,
}
use cashmere.Broker.Shape.Insertion.{Runs-insert}

-- Each way from the broker `self`, but not through its port `source`, passes fewer than `n` other
-- brokers, and each of the brokers has its own connection.
unfoldable pub Within : Shape → ℕ → ℕ → ℕ → Type 0
Within t zero self source = ⊥
Within t (suc n) self source =
    IsThere ⊥ t (port_of t self 0)
    × ((i b s : ℕ) → i ≢ source → port_of t self i ≡ some (some b, s) → Within t n b s)

Within-≤ :
    (t : Shape) (n m self source : ℕ) → n ≤ m → Within t n self source → Within t m self source
unfolding Within
Within-≤ t zero m self source le h = absurd h
Within-≤ t (suc n) zero self source le h = absurd (omega arith)
Within-≤ t (suc n) (suc m) self source le h =
    (h.0, λ i b s apart leads. Within-≤ t n m b s (omega arith) (h.1 i b s apart leads))

insert-Runs :
    (t : Shape) (n self source : ℕ) (e : Entry)
    → Within t n self source
    → Runs ⊥ t ((network n).insert self e source)
unfolding Within network
insert-Runs t zero self source e h = absurd h
insert-Runs t (suc n) self source e h =
    Runs-insert ⊥ t (network n) self e source
      (λ i b s apart leads. insert-Runs t n b s e (h.1 i b s apart leads)) h.0

Within-own :
    (t : Shape) (n self source : ℕ) → Within t n self source → IsThere ⊥ t (port_of t self 0)
unfolding Within
Within-own t zero self source h = absurd h
Within-own t (suc n) self source h = h.0

ended :
    {A : Type 0} (t : Shape) (r : Outcome A)
    → Result ⊥ t r
    → (a : A) × (w' : World) × (r ≡ done a w') × (shape w' ≡ t)
ended t (done a w') h = (a, w', refl, h)
ended t fault h = absurd h
ended t timeout h = absurd h

-- An insertion into a network in which each way from the broker, but not through the port of the
-- sender, passes fewer than `n` other brokers, and in which each broker on these ways is there and
-- has its first connection, ends with a clock, if calls may be nested `n` deep or deeper, and no
-- broker has then changed its class or where its connections lead.
pub insert_ends :
    (n fuel self source : ℕ) (e : Entry) (w : World)
    → n ≤ fuel
    → Within (shape w) n self source
    → (c : Clock) × (w' : World) × ((network fuel).insert self e source w ≡ done c w')
      × (shape w' ≡ shape w)
insert_ends n fuel self source e w le h =
    ended (shape w) _
      (insert-Runs (shape w) fuel self source e (Within-≤ (shape w) n fuel self source le h) w refl)

-- Recording at a broker of such a network ends.
pub append_data_ends :
    (n fuel self : ℕ) (d : Data) (w : World)
    → n ≤ fuel
    → Within (shape w) n self 0
    → (ok : Bool) × (w' : World) × (append_data fuel self d w ≡ done ok w') × (shape w' ≡ shape w)
unfolding append_data
append_data_ends n fuel self d w le h = ended (shape w) _ (
    Runs-bind ⊥ (shape w) _ _ (Runs-clock ⊥ (shape w) self (Within-own (shape w) n self 0 h))
      (λ now.
        Runs-bind ⊥ (shape w) _ _
          (insert-Runs (shape w) fuel self 0 _ (Within-≤ (shape w) n fuel self 0 le h))
          (λ answer. Runs-pure ⊥ (shape w) (valid answer)))
      w refl)
