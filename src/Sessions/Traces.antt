-- ===== src/Sessions/Traces.antt =====
-- A session driven by a sequence of events: each goes through `Next`, and a refused one is skipped.
use dota_cuck.Prelude.{
  ℕ, ◌+◌, ◌≤◌, ◌≡◌, refl, Bool, true, false, List, [], ◌∷◌, none, some, arith, if◌then◌else◌,
}
use dota_cuck.Sessions.{
  State, Event, off, starting, watching, stopping, start, stream_started, stop, fatal_error,
  worker_idle, next,
}

abbrev pub run : State → List Event → State
run s [] = s
run s (e ∷ es) = run (next s e).0 es

abbrev is_accepted : State → Event → Bool
is_accepted s e = elim (next s e).1 [ none ↦ true | some _ ↦ false ]

-- How many of the events are accepted and pass the test.
abbrev pub count_accepted : (Event → Bool) → State → List Event → ℕ
count_accepted test s [] = 0
count_accepted test s (e ∷ es) =
    (if is_accepted s e then if test e then 1 else 0 else 0) + count_accepted test (next s e).0 es

abbrev pub is_start : Event → Bool
is_start start = true
is_start _ = false

abbrev pub is_stream_started : Event → Bool
is_stream_started stream_started = true
is_stream_started _ = false

abbrev pub is_worker_idle : Event → Bool
is_worker_idle worker_idle = true
is_worker_idle _ = false

-- 1 while a session is in progress.
abbrev pub active : State → ℕ
active off = 0
active _ = 1

abbrev pub watched : State → ℕ
watched watching = 1
watched _ = 0

abbrev pub pending : State → ℕ
pending starting = 1
pending _ = 0

count_step :
    (s : State) (e : Event) (starts idles s' : ℕ)
    → active (next s e).0 + starts ≡ s' + idles
    → active s + ((if is_accepted s e then if is_start e then 1 else 0 else 0) + starts)
      ≡ s' + ((if is_accepted s e then if is_worker_idle e then 1 else 0 else 0) + idles)
unfolding next
count_step s e starts idles s' h = ground arith

start-idle_balance :
    (s : State) (es : List Event)
    → active s + count_accepted is_start s es
      ≡ active (run s es) + count_accepted is_worker_idle s es
start-idle_balance s [] = refl
start-idle_balance s (e ∷ es) = count_step s e _ _ _ (start-idle_balance (next s e).0 es)

-- From OFF, whatever events come: the accepted STARTs are as many as the accepted WORKER_IDLEs, and
-- one more while the session is not OFF.
pub starts-eq-idles :
    (es : List Event)
    → count_accepted is_start off es ≡ active (run off es) + count_accepted is_worker_idle off es
starts-eq-idles es = omega (arith, start-idle_balance off es)

stream_step :
    (s : State) (e : Event) (starts streams last : ℕ)
    → (last ≤ watched (next s e).0 + streams) × (streams ≤ pending (next s e).0 + starts)
    → (last
        ≤ watched s
          + ((if is_accepted s e then if is_stream_started e then 1 else 0 else 0) + streams))
      × ((if is_accepted s e then if is_stream_started e then 1 else 0 else 0) + streams
          ≤ pending s + ((if is_accepted s e then if is_start e then 1 else 0 else 0) + starts))
unfolding next
stream_step s e starts streams last h = ground arith

stream_bounds :
    (s : State) (es : List Event)
    → (watched (run s es) ≤ watched s + count_accepted is_stream_started s es)
      × (count_accepted is_stream_started s es ≤ pending s + count_accepted is_start s es)
stream_bounds s [] = omega arith
stream_bounds s (e ∷ es) = stream_step s e _ _ _ (stream_bounds (next s e).0 es)

-- A session that began in OFF is WATCHING only after an accepted STREAM_STARTED, and each accepted
-- STREAM_STARTED has an accepted START of its own.
watching_after_stream :
    (es : List Event)
    → (watched (run off es) ≤ count_accepted is_stream_started off es)
      × (count_accepted is_stream_started off es ≤ count_accepted is_start off es)
watching_after_stream es = omega (arith, stream_bounds off es)

stays :
    (es : List Event) → count_accepted is_worker_idle stopping es ≡ 0 → run stopping es ≡ stopping
unfolding next
stays [] h = refl
stays (start ∷ es) h = stays es (omega arith)
stays (stream_started ∷ es) h = stays es (omega arith)
stays (stop ∷ es) h = stays es (omega arith)
stays (fatal_error ∷ es) h = stays es (omega arith)
stays (worker_idle ∷ es) h = absurd (omega arith)

stops : (s : State) → run s (stop ∷ worker_idle ∷ []) ≡ off
unfolding next
stops off = refl
stops starting = refl
stops watching = refl
stops stopping = refl

-- A session in STOPPING stays there through any events of which none is an accepted WORKER_IDLE;
-- and from every state STOP and then WORKER_IDLE bring the session to OFF.
stop_then_idle :
    (s : State) (es : List Event)
    → count_accepted is_worker_idle stopping es ≡ 0
    → (run stopping es ≡ stopping) × (run s (stop ∷ worker_idle ∷ []) ≡ off)
stop_then_idle s es h = (stays es h, stops s)
