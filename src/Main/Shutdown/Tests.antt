-- ===== src/Main/Shutdown/Tests.antt =====
-- Two listeners that fail at once, and a shutdown on a signal with a worker connected.
use dota_cuck.Prelude.{
  ◌<◌, ◌≡◌, ◌≢◌, refl, Bool, true, false, some, [], ◌∷◌, length, inr, arith, ap,
}
use dota_cuck.Main.Shutdown.{
  serving, sending, returned, Phase, selecting, shutting_http, stopping_grpc, stopped, Process,
  err_ch_size, initial, grpc_serves, grpc_ends, grpc_sends, http_serves, http_ends, signalled,
  http_shut, worker_connects, Run, here, steps, CalmRun,
}
use dota_cuck.Main.Shutdown.Completes.{send_has_room, shutdown_completes}

-- The gRPC address is taken, and so is the HTTP one; `main` has read neither error.
abbrev both_fail : Process
both_fail = record {
  grpc = returned;
  http = sending (some "http: address in use");
  err_ch = some "grpc: address in use" ∷ [];
  phase = selecting;
  streams = 0;
}

both_fail-Run : Run initial both_fail
both_fail-Run = steps (grpc_ends "grpc: address in use" refl refl) (
    steps (grpc_sends (some "grpc: address in use") refl (omega arith) refl)
      (steps (http_ends "http: address in use" refl refl) here))

send_has_room_example : length both_fail.err_ch < err_ch_size
send_has_room_example =
    send_has_room both_fail (some "http: address in use") both_fail-Run (inr refl)

abbrev leaving : Process
leaving = record { grpc = serving; http = serving; err_ch = []; phase = stopping_grpc; streams = 1 }

leaving-Run : Run initial leaving
leaving-Run = steps (grpc_serves refl refl) (
    steps (http_serves refl refl) (
      steps (worker_connects refl refl refl)
        (steps (signalled refl refl) (steps (http_shut refl refl) here))))

abbrev is_selecting : Phase → Bool
is_selecting selecting = true
is_selecting shutting_http = false
is_selecting stopping_grpc = false
is_selecting stopped = false

left : stopping_grpc ≢ selecting
left e = absurd (ground (arith, ap is_selecting e))

shutdown_completes_example :
    (q : Process) × CalmRun leaving q
    × (q.phase ≡ stopped)
    × (q.grpc ≡ returned)
    × (q.http ≡ returned)
shutdown_completes_example = shutdown_completes leaving leaving-Run left
