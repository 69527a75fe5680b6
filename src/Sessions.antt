-- ===== src/Sessions.antt =====
-- control-plane/internal/sessions/state.go: the lifecycle of a spectating session.
-- `State` and `Event` are string types in Go with these constants; the model is the constants.
pub mod Edges
pub mod Traces
mod Tests
use dota_cuck.Prelude.{Option, none, some}

pub data State : Type 0 where
  off starting watching stopping : State

pub data Event : Type 0 where
  start stream_started stop fatal_error worker_idle : Event

pub record InvalidTransitionError : Type 0 where
  pub from : State
  pub event : Event

-- `transitions[cur][ev]`: a missing entry is `none`.
pub transitions : State → Event → Option State
transitions off start = some starting
transitions starting stream_started = some watching
transitions starting stop = some stopping
transitions starting fatal_error = some stopping
transitions watching stop = some stopping
transitions watching fatal_error = some stopping
transitions stopping worker_idle = some off
transitions _ _ = none

-- The state and the error that `Next` returns side by side.
unfoldable pub next : State → Event → State × Option InvalidTransitionError
unfolding transitions
next cur ev = elim (transitions cur ev) [
  | some t ↦ (t, none)
  | none ↦ (cur, some (record { from = cur; event = ev }))
]
