-- ===== src/Main/Shutdown/Completes.antt =====
-- The error channel has room for both goroutines, and a shutdown can complete.
use dota_cuck.Prelude.{
  ◌⊎◌, inl, inr, ℕ, zero, suc, ◌+◌, ◌<◌, ◌≤◌, ◌≡◌, ◌≢◌, refl, ap, String, true, false, Option, none,
  List, [], ◌∷◌, ◌++◌, length, arith,
}
use dota_cuck.Main.Shutdown.{
  Listener, starting, serving, sending, returned, Phase, selecting, shutting_http, stopping_grpc,
  stopped, Process, err_ch_size, initial, is_up, Step, grpc_serves, grpc_ends, grpc_closes,
  takes_streams, CalmRun, calm, goes, grpc_sends, http_serves, http_ends, http_closes, http_sends,
  signalled, failed, http_shut, grpc_stopped, worker_connects, worker_leaves, Run, here, steps,
}

-- How many errors a goroutine may still send.
abbrev owes : Listener → ℕ
owes starting = 1
owes serving = 1
owes (sending r) = 1
owes returned = 0

owes-is_up : (l : Listener) → is_up l ≡ true → owes l ≡ 1
owes-is_up starting h = refl
owes-is_up serving h = refl
owes-is_up (sending r) h = refl
owes-is_up returned h = absurd (ground arith)

abbrev HasRoom : Process → Type 0
HasRoom p = owes p.grpc + owes p.http + length p.err_ch ≤ err_ch_size

length-snoc :
    (r : Option String) (ch : List (Option String)) → length (ch ++ r ∷ []) ≡ suc (length ch)
length-snoc r [] = refl
length-snoc r (x ∷ ch) = ap suc (length-snoc r ch)

Step-HasRoom : (p q : Process) → Step p q → HasRoom p → HasRoom q
Step-HasRoom p q (grpc_serves up e) room = rw e (rw up at room)
Step-HasRoom p q (grpc_ends m up e) room = rw e (rw (owes-is_up p.grpc up) at room)
Step-HasRoom p q (grpc_closes r up down e) room = rw e (rw (owes-is_up p.grpc up) at room)
Step-HasRoom p q (grpc_sends r at_send lt e) room =
    rw (e, length-snoc r p.err_ch) (let held = (rw at_send at room) in omega arith)
Step-HasRoom p q (http_serves up e) room = rw e (rw up at room)
Step-HasRoom p q (http_ends r up e) room = rw e (rw (owes-is_up p.http up) at room)
Step-HasRoom p q (http_closes up gone e) room =
    rw e (let held = (rw (owes-is_up p.http up) at room) in omega arith)
Step-HasRoom p q (http_sends r at_send lt e) room =
    rw (e, length-snoc r p.err_ch) (let held = (rw at_send at room) in omega arith)
Step-HasRoom p q (signalled at_select e) room = rw e room
Step-HasRoom p q (failed r rest at_select front e) room =
    rw e (let held = (rw front at room) in omega arith)
Step-HasRoom p q (http_shut at_shut e) room = rw e room
Step-HasRoom p q (grpc_stopped at_stop drained e) room = rw e room
Step-HasRoom p q (worker_connects up takes e) room = rw e room
Step-HasRoom p q (worker_leaves n some_left e) room = rw e room

Run-HasRoom : {p q : Process} → Run p q → HasRoom p → HasRoom q
Run-HasRoom here room = room
Run-HasRoom {p = p} (steps {q = q} s run) room = Run-HasRoom run (Step-HasRoom p q s room)

-- A goroutine that sends its error finds room in the channel, whatever happened before, so neither
-- is left behind when `main` no longer reads it.
pub send_has_room :
    (p : Process) (r : Option String)
    → Run initial p
    → (p.grpc ≡ sending r) ⊎ (p.http ≡ sending r)
    → length p.err_ch < err_ch_size
send_has_room p r run (inl at_send) =
    let held = rw at_send at (Run-HasRoom run (omega arith)) in omega arith
send_has_room p r run (inr at_send) =
    let held = rw at_send at (Run-HasRoom run (omega arith)) in omega arith

abbrev process : Listener → Listener → List (Option String) → Phase → ℕ → Process
process g h ch phase n = record { grpc = g; http = h; err_ch = ch; phase = phase; streams = n }

and_then : {p q r : Process} → CalmRun p q → CalmRun q r → CalmRun p r
and_then calm later = later
and_then (goes st quiet run) later = goes st quiet (and_then run later)

CalmRun-HasRoom : {p q : Process} → CalmRun p q → HasRoom p → HasRoom q
CalmRun-HasRoom calm room = room
CalmRun-HasRoom {p = p} (goes {q = q} st quiet run) room =
    CalmRun-HasRoom run (Step-HasRoom p q st room)

http_returns :
    (g h : Listener) (ch : List (Option String)) (phase : Phase) (n : ℕ)
    → phase ≢ selecting
    → HasRoom (process g h ch phase n)
    → (ch' : List (Option String)) × CalmRun
        (process g h ch phase n)
        (process g returned ch' phase n)
http_returns g starting ch phase n down room = (ch, goes (http_closes refl down refl) tt calm)
http_returns g serving ch phase n down room = (ch, goes (http_closes refl down refl) tt calm)
http_returns g (sending r) ch phase n down room =
    (ch ++ r ∷ [], goes (http_sends r refl (omega arith) refl) tt calm)
http_returns g returned ch phase n down room = (ch, calm)

-- `main` goes on to `GracefulStop`.
stop_asked :
    (g h : Listener) (ch : List (Option String)) (phase : Phase) (n : ℕ)
    → phase ≢ selecting
    → (phase' : Phase) × (takes_streams phase' ≡ false)
      × CalmRun (process g h ch phase n) (process g h ch phase' n)
stop_asked g h ch selecting n down = absurd (down refl)
stop_asked g h ch shutting_http n down = (stopping_grpc, refl, goes (http_shut refl refl) tt calm)
stop_asked g h ch stopping_grpc n down = (stopping_grpc, refl, calm)
stop_asked g h ch stopped n down = (stopped, refl, calm)

grpc_returns :
    (g h : Listener) (ch : List (Option String)) (phase : Phase) (n : ℕ)
    → takes_streams phase ≡ false
    → HasRoom (process g h ch phase n)
    → (ch' : List (Option String)) × CalmRun
        (process g h ch phase n)
        (process returned h ch' phase n)
grpc_returns starting h ch phase n asked room = (
  ch ++ none ∷ [],
  goes (grpc_closes none refl asked refl) tt
      (goes (grpc_sends none refl (omega arith) refl) tt calm),
)
grpc_returns serving h ch phase n asked room = (
  ch ++ none ∷ [],
  goes (grpc_closes none refl asked refl) tt
      (goes (grpc_sends none refl (omega arith) refl) tt calm),
)
grpc_returns (sending r) h ch phase n asked room =
    (ch ++ r ∷ [], goes (grpc_sends r refl (omega arith) refl) tt calm)
grpc_returns returned h ch phase n asked room = (ch, calm)

workers_leave :
    (g h : Listener) (ch : List (Option String)) (phase : Phase) (n : ℕ)
    → CalmRun (process g h ch phase n) (process g h ch phase 0)
workers_leave g h ch phase zero = calm
workers_leave g h ch phase (suc n) =
    goes (worker_leaves n refl refl) tt (workers_leave g h ch phase n)

main_stops :
    (g h : Listener) (ch : List (Option String)) (phase : Phase)
    → takes_streams phase ≡ false
    → CalmRun (process g h ch phase 0) (process g h ch stopped 0)
main_stops g h ch selecting asked = absurd (ground arith)
main_stops g h ch shutting_http asked = absurd (ground arith)
main_stops g h ch stopping_grpc asked = goes (grpc_stopped refl refl refl) tt calm
main_stops g h ch stopped asked = calm

-- Once `main` has left the select, on a signal or an error, the shutdown can be completed from
-- wherever it stands, and neither listener has to fail for it: the two shutdown calls, the returns
-- they bring about and the workers' disconnections lead to the end of `main` with both goroutines
-- returned.
pub shutdown_completes :
    (p : Process)
    → Run initial p
    → p.phase ≢ selecting
    → (q : Process) × CalmRun p q × (q.phase ≡ stopped) × (q.grpc ≡ returned) × (q.http ≡ returned)
shutdown_completes p run down =
    let room = Run-HasRoom run (omega arith) in
    let (ch, http_run) = http_returns p.grpc p.http p.err_ch p.phase p.streams down room in
    let (phase, asked, ask_run) = stop_asked p.grpc returned ch p.phase p.streams down in
    let room' = CalmRun-HasRoom ask_run (CalmRun-HasRoom http_run room) in
    let (ch', grpc_run) = grpc_returns p.grpc returned ch phase p.streams asked room' in
    (
      process returned returned ch' stopped 0,
      and_then http_run (
          and_then ask_run (
            and_then grpc_run (
              and_then (workers_leave returned returned ch' phase p.streams)
                (main_stops returned returned ch' phase asked)))),
      refl,
      refl,
      refl,
    )
