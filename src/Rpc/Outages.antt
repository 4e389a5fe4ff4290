-- ===== src/Rpc/Outages.antt =====
-- How often the client helper of rpc/rpc.go reconnects at once, over all calls that ask it.
use anycable_go.Base.{
  ℕ, ◌+◌, ◌≡◌, refl, String, Bool, true, false, Option, none, some, List, [], ◌∷◌, arith,
}
use anycable_go.Rpc.{
  Connectivity, idle, connecting, ready, transient_failure, shutdown, ClientHelper, try_recover,
  reset, helper_ready, helper_ready_at,
}

-- The calls of `Ready`, each of which finds the connection in some state, and their answers.
unfoldable pub visits : ClientHelper → List Connectivity → ClientHelper × List (Option String)
visits h [] = (h, [])
visits h (s ∷ states) =
    let (h', answer) = helper_ready (record h { state = s }) in
    let (h'', answers) = visits h' states in (h'', answer ∷ answers)

-- The outages among the states: each starts at a failure and lasts until a state that is neither a
-- failure nor a shutdown.
abbrev pub outages : Bool → List Connectivity → ℕ
outages failing [] = 0
outages true (transient_failure ∷ states) = outages true states
outages false (transient_failure ∷ states) = 1 + outages true states
outages failing (shutdown ∷ states) = outages failing states
outages failing (_ ∷ states) = outages false states

-- What each call should be told.
abbrev pub told : Bool → List Connectivity → List (Option String)
told failing [] = []
told true (transient_failure ∷ states) = some "grpc connection is not ready" ∷ told true states
told false (transient_failure ∷ states) = none ∷ told true states
told failing (shutdown ∷ states) = some "grpc connection is closed" ∷ told failing states
told failing (_ ∷ states) = none ∷ told false states

visits_from :
    (failing : Bool) (h : ClientHelper) (states : List Connectivity)
    → h.recovering ≡ failing
    → ((visits h states).0.resets ≡ h.resets + outages failing states)
      × ((visits h states).1 ≡ told failing states)
unfolding visits helper_ready helper_ready_at try_recover reset
visits_from failing h [] e = (omega arith, refl)
visits_from true h (transient_failure ∷ states) e =
    ground (arith, visits_from true (record h { state = transient_failure }) states e)
visits_from false h (transient_failure ∷ states) e = ground (
  arith,
  visits_from true
      (record h { state = transient_failure; recovering = true; resets = h.resets + 1 }) states
      refl,
)
visits_from true h (shutdown ∷ states) e =
    ground (arith, visits_from true (record h { state = shutdown }) states e)
visits_from false h (shutdown ∷ states) e =
    ground (arith, visits_from false (record h { state = shutdown }) states e)
visits_from true h (idle ∷ states) e =
    ground (arith, visits_from false (record h { state = idle; recovering = false }) states refl)
visits_from false h (idle ∷ states) e =
    ground (arith, visits_from false (record h { state = idle }) states e)
visits_from true h (connecting ∷ states) e =
    ground
      (arith, visits_from false (record h { state = connecting; recovering = false }) states refl)
visits_from false h (connecting ∷ states) e =
    ground (arith, visits_from false (record h { state = connecting }) states e)
visits_from true h (ready ∷ states) e =
    ground (arith, visits_from false (record h { state = ready; recovering = false }) states refl)
visits_from false h (ready ∷ states) e =
    ground (arith, visits_from false (record h { state = ready }) states e)

-- Over all calls that ask for the connection, the helper reconnects at once exactly once for each
-- outage. The call that finds the outage first is let through, every other during it is told that
-- the connection is not ready, and after a shutdown that it is closed.
pub visits-outages :
    (h : ClientHelper) (states : List Connectivity)
    → ((visits h states).0.resets ≡ h.resets + outages h.recovering states)
      × ((visits h states).1 ≡ told h.recovering states)
visits-outages h states = visits_from h.recovering h states refl
