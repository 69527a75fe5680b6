-- ===== src/Main/Shutdown.antt =====
-- control-plane/cmd/server/main.go from where the server listens: the two goroutines that listen,
-- the channel for their errors, and the shutdown. What grpc-go and net/http do is left open but for
-- this: `ListenAndServe` returns `ErrServerClosed` only once `Shutdown` was called, `Serve` returns
-- nil only once `GracefulStop` was called, and `GracefulStop` takes no new stream and returns only
-- when no worker's stream is left.
pub mod Completes
mod Tests
use dota_cuck.Prelude.{
  ℕ, zero, suc, ◌+◌, ◌<◌, ◌≡◌, ◌≢◌, String, Bool, true, false, Option, none, some, List, [], ◌∷◌,
  ◌++◌, length,
}

pub data Listener : Type 0 where
  starting serving : Listener
  sending : Option String → Listener  -- at `errCh <- err`; `none` is nil
  returned : Listener

pub data Phase : Type 0 where
  selecting shutting_http stopping_grpc stopped : Phase

pub record Process : Type 0 where
  pub grpc : Listener
  pub http : Listener
  pub err_ch : List (Option String)
  pub phase : Phase
  pub streams : ℕ  -- the workers' open streams

abbrev pub err_ch_size : ℕ
err_ch_size = 2

abbrev pub initial : Process
initial = record { grpc = starting; http = starting; err_ch = []; phase = selecting; streams = 0 }

abbrev pub is_up : Listener → Bool
is_up starting = true
is_up serving = true
is_up (sending r) = false
is_up returned = false

abbrev pub takes_streams : Phase → Bool
takes_streams selecting = true
takes_streams shutting_http = true
takes_streams stopping_grpc = false
takes_streams stopped = false

pub data Step (p q : Process) : Type 0 where
  grpc_serves : p.grpc ≡ starting → q ≡ record p { grpc = serving } → Step p q
  -- `net.Listen` fails, or `Serve` returns an error.
  grpc_ends :
      (e : String) → is_up p.grpc ≡ true → q ≡ record p { grpc = sending (some e) } → Step p q
  -- `Serve` returns since `GracefulStop` was called: nil, or `ErrServerStopped` where it was called
  -- only then.
  grpc_closes :
      (r : Option String)
      → is_up p.grpc ≡ true
      → takes_streams p.phase ≡ false
      → q ≡ record p { grpc = sending r }
      → Step p q
  grpc_sends :
      (r : Option String)
      → p.grpc ≡ sending r
      → length p.err_ch < err_ch_size
      → q ≡ record p { grpc = returned; err_ch = p.err_ch ++ r ∷ [] }
      → Step p q
  http_serves : p.http ≡ starting → q ≡ record p { http = serving } → Step p q
  -- `ListenAndServe` returns another error than `ErrServerClosed`.
  http_ends :
      (e : String) → is_up p.http ≡ true → q ≡ record p { http = sending (some e) } → Step p q
  -- It returns `ErrServerClosed`, which is not sent.
  http_closes :
      is_up p.http ≡ true → p.phase ≢ selecting → q ≡ record p { http = returned } → Step p q
  http_sends :
      (r : Option String)
      → p.http ≡ sending r
      → length p.err_ch < err_ch_size
      → q ≡ record p { http = returned; err_ch = p.err_ch ++ r ∷ [] }
      → Step p q
  -- The two cases of the select.
  signalled : p.phase ≡ selecting → q ≡ record p { phase = shutting_http } → Step p q
  failed :
      (r : Option String) (rest : List (Option String))
      → p.phase ≡ selecting
      → p.err_ch ≡ r ∷ rest
      → q ≡ record p { phase = shutting_http; err_ch = rest }
      → Step p q
  -- `Shutdown` returns, at the latest after its ten seconds.
  http_shut : p.phase ≡ shutting_http → q ≡ record p { phase = stopping_grpc } → Step p q
  grpc_stopped :
      p.phase ≡ stopping_grpc → p.streams ≡ 0 → q ≡ record p { phase = stopped } → Step p q
  worker_connects :
      p.grpc ≡ serving
      → takes_streams p.phase ≡ true
      → q ≡ record p { streams = suc p.streams }
      → Step p q
  worker_leaves : (n : ℕ) → p.streams ≡ suc n → q ≡ record p { streams = n } → Step p q

pub data Run : Process → Process → Type 0 where
  here : {p : Process} → Run p p
  steps : {p q r : Process} → Step p q → Run q r → Run p r

-- Neither listener fails on its own in this step.
abbrev pub IsCalm : {p q : Process} → Step p q → Type 0
IsCalm (grpc_ends e up same) = ⊥
IsCalm (http_ends e up same) = ⊥
IsCalm st = Unit

pub data CalmRun : Process → Process → Type 0 where
  calm : {p : Process} → CalmRun p p
  goes : {p q r : Process} (st : Step p q) → IsCalm st → CalmRun q r → CalmRun p r
