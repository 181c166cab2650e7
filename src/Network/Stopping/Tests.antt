-- ===== src/Network/Stopping/Tests.antt =====
-- A stop that overtakes `acceptClient` between `accept` and the store of its descriptor.
use log_bridge.Base.{◌≡◌, refl, sym, false, [], ◌∷◌, List}
use mathlib.Core.Path.{subst}
use log_bridge.Network.Stopping.{
  Turn, accepting, stopping, accepted, interrupted, accept_client, stop, run, finished, returned,
}
use log_bridge.Network.Stopping.Closed.{listening_on, IsOutside, IsShut, run-IsShut}

abbrev turns : List Turn
turns =
    accepting interrupted
    ∷ accepting interrupted
    ∷ accepting interrupted
    ∷ accepting interrupted
    ∷ accepting (accepted 7)
    ∷ stopping
    ∷ stopping
    ∷ stopping
    ∷ accepting interrupted
    ∷ stopping
    ∷ stopping
    ∷ accepting interrupted
    ∷ accepting interrupted
    ∷ accepting interrupted
    ∷ []

ends :
    let s = run turns (listening_on 3) in
    (s.stop_at ≡ finished) × (s.accept_at ≡ returned false) × (s.closed ≡ 7 ∷ 3 ∷ [])
unfolding run accept_client stop
ends = (refl, refl, refl)

IsOutside-now : IsOutside (run turns (listening_on 3)).accept_at
IsOutside-now = subst IsOutside (sym (ends.1)) tt

run-IsShut_example : IsShut (run turns (listening_on 3))
run-IsShut_example = run-IsShut turns 3 ends.0 IsOutside-now
