-- ===== src/Sessions/Tests.antt =====
-- Runs of the session state machine, and the theorems at concrete inputs.
use dota_cuck.Prelude.{◌+◌, ◌≡◌, ◌↔◌, refl, List, [], ◌∷◌, none}
use dota_cuck.Sessions.{
  Event, off, watching, stopping, start, stream_started, stop, fatal_error, worker_idle, next,
}
use dota_cuck.Sessions.Edges.{Edge, next-Edge_iff}
use dota_cuck.Sessions.Traces.{
  run, count_accepted, is_start, is_worker_idle, active, starts-eq-idles,
}

abbrev full_cycle : List Event
full_cycle = start ∷ stream_started ∷ stop ∷ worker_idle ∷ []

round_trip : run off full_cycle ≡ off
unfolding next
round_trip = refl

next-Edge_iff_example :
    (next watching fatal_error ≡ (stopping, none)) ↔ Edge watching fatal_error stopping
next-Edge_iff_example = next-Edge_iff watching stopping fatal_error

starts-eq-idles_example :
    count_accepted is_start off full_cycle
    ≡ active (run off full_cycle) + count_accepted is_worker_idle off full_cycle
starts-eq-idles_example = starts-eq-idles full_cycle

no_idle : count_accepted is_worker_idle stopping (stop ∷ start ∷ []) ≡ 0
unfolding next
no_idle = refl
