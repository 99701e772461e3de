-- ===== src/Broker/Growth/Runs.antt =====
-- Calls that the users of a network make of its brokers, one after the other.
use cashmere.Base.{ℕ, ◌≡◌, refl, subst, List, [], ◌∷◌, Option, none, some, get_elem?}
use cashmere.Entry.{Data, Entry}
use cashmere.Broker.{Link, link_to, Node, World, done, M, ◌>>◌, pure}
use cashmere.Broker.Topology.{disconnect}
use cashmere.Broker.Dispatch.{network, append_data}
use cashmere.Broker.Growth.{Good, NodeGrows, GrowsAt, After, Keeps, Keeps-bind}
use cashmere.Broker.Growth.Rules.{Keeps-pure, Keeps-clock}
use cashmere.Broker.Growth.Membership.{network-Keeps, disconnect-Keeps}

pub data Call : Type 0 where
  -- append(entry), by which `append(value)`, `replace` and `erase` record
  appends : ℕ → Data → Call
  -- insert(entry, sender)
  inserts : ℕ → Entry → ℕ → Call
  -- connect(Connection(other))
  connects : ℕ → ℕ → Call
  -- refresh(conn, sender)
  refreshes : ℕ → Link → ℕ → Call
  -- disconnect(source)
  disconnects : ℕ → ℕ → Call
  -- relay(entry, sender)
  relays : ℕ → Data → ℕ → Call

unfoldable pub perform : ℕ → Call → M (Unit {0})
perform fuel (appends self d) = do append_data fuel self d; pure tt
perform fuel (inserts self e sender) = do (network fuel).insert self e sender; pure tt
perform fuel (connects self other) = do (network fuel).connect self (link_to other); pure tt
perform fuel (refreshes self news sender) = do (network fuel).refresh self news sender; pure tt
perform fuel (disconnects self source) = do disconnect (network fuel) self source; pure tt
perform fuel (relays self d sender) = do (network fuel).relay self d sender; pure tt

unfoldable pub run : ℕ → List Call → M (Unit {0})
run fuel [] = pure tt
run fuel (call ∷ calls) = do perform fuel call; run fuel calls

perform-Keeps : (fuel : ℕ) (call : Call) → Keeps (perform fuel call)
unfolding perform append_data
perform-Keeps fuel (appends self d) =
    Keeps-bind _ _
      (Keeps-bind _ _ (Keeps-clock self)
        (λ now. Keeps-bind _ _ ((network-Keeps fuel).insert self _ 0) (λ answer. Keeps-pure _)))
      (λ _. Keeps-pure tt)
perform-Keeps fuel (inserts self e sender) =
    Keeps-bind _ _ ((network-Keeps fuel).insert self e sender) (λ _. Keeps-pure tt)
perform-Keeps fuel (connects self other) =
    Keeps-bind _ _ ((network-Keeps fuel).connect self (link_to other)) (λ _. Keeps-pure tt)
perform-Keeps fuel (refreshes self news sender) =
    Keeps-bind _ _ ((network-Keeps fuel).refresh self news sender) (λ _. Keeps-pure tt)
perform-Keeps fuel (disconnects self source) =
    Keeps-bind _ _ (disconnect-Keeps (network fuel) (network-Keeps fuel) self source)
      (λ _. Keeps-pure tt)
perform-Keeps fuel (relays self d sender) =
    Keeps-bind _ _ ((network-Keeps fuel).relay self d sender) (λ _. Keeps-pure tt)

run-Keeps : (fuel : ℕ) (calls : List Call) → Keeps (run fuel calls)
unfolding run
run-Keeps fuel [] = Keeps-pure tt
run-Keeps fuel (call ∷ calls) = Keeps-bind _ _ (perform-Keeps fuel call) (λ _. run-Keeps fuel calls)

pub run-Good :
    (fuel : ℕ) (calls : List Call) (w w' : World) → Good w → run fuel calls w ≡ done tt w' → Good w'
run-Good fuel calls w w' good ran =
    let safe : After {0} w (done tt w') = subst (After {0} w) ran (run-Keeps fuel calls w good) in
    safe.0

grown_node :
    (n : Node) (o : Option Node) → GrowsAt (some n) o → (n' : Node) × (o ≡ some n') × NodeGrows n n'
grown_node n none g = absurd g
grown_node n (some n') g = (n', refl, g)

-- From a world in which the first connection of each broker is its own, whatever calls are made and
-- however the brokers call one another in turn, every broker that was there is there afterwards, of
-- the same class and with the same id, its clock has not gone back on any id, and each entry that it
-- had recorded is recorded unchanged.
pub run_grows :
    (fuel : ℕ) (calls : List Call) (w w' : World) (i : ℕ) (n : Node)
    → Good w
    → run fuel calls w ≡ done tt w'
    → get_elem? w i ≡ some n
    → (n' : Node) × (get_elem? w' i ≡ some n') × NodeGrows n n'
run_grows fuel calls w w' i n good ran here =
    let safe : After {0} w (done tt w') = subst (After {0} w) ran (run-Keeps fuel calls w good) in
    grown_node n (get_elem? w' i) (subst (λ o. GrowsAt o (get_elem? w' i)) here (safe.1 i))
