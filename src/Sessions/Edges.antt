-- ===== src/Sessions/Edges.antt =====
-- The edge set that the comment above `transitions` in state.go draws, as a relation, and the
-- results of `Next` on and off it.
use dota_cuck.Prelude.{◌≡◌, refl, subst, ap, ◌↔◌, none, some, arith}
use dota_cuck.Sessions.{
  State, Event, off, starting, watching, stopping, start, stream_started, stop, fatal_error,
  worker_idle, next,
}

pub data Edge : State → Event → State → Type 0 where
  begins : Edge off start starting
  streams : Edge starting stream_started watching
  aborts : Edge starting stop stopping
  fails_early : Edge starting fatal_error stopping
  ends : Edge watching stop stopping
  fails : Edge watching fatal_error stopping
  idles : Edge stopping worker_idle off

next_of_Edge : {s t : State} {e : Event} → Edge s e t → next s e ≡ (t, none)
unfolding next
next_of_Edge begins = refl
next_of_Edge streams = refl
next_of_Edge aborts = refl
next_of_Edge fails_early = refl
next_of_Edge ends = refl
next_of_Edge fails = refl
next_of_Edge idles = refl

next-Edge : (s t : State) (e : Event) → next s e ≡ (t, none) → Edge s e t
unfolding next
next-Edge off t start h = subst (Edge off start) (ap (λ r. r.0) h) begins
next-Edge starting t stream_started h =
    subst (Edge starting stream_started) (ap (λ r. r.0) h) streams
next-Edge starting t stop h = subst (Edge starting stop) (ap (λ r. r.0) h) aborts
next-Edge starting t fatal_error h = subst (Edge starting fatal_error) (ap (λ r. r.0) h) fails_early
next-Edge watching t stop h = subst (Edge watching stop) (ap (λ r. r.0) h) ends
next-Edge watching t fatal_error h = subst (Edge watching fatal_error) (ap (λ r. r.0) h) fails
next-Edge stopping t worker_idle h = subst (Edge stopping worker_idle) (ap (λ r. r.0) h) idles
next-Edge _ t _ h = absurd (ground arith)

-- `Next` returns `t` and no error exactly when the edge set has an edge from `s` to `t` on `e`.
pub next-Edge_iff : (s t : State) (e : Event) → (next s e ≡ (t, none)) ↔ Edge s e t
next-Edge_iff s t e = (next-Edge s t e, next_of_Edge)

error_of_no_Edge :
    (s : State) (e : Event)
    → ((t : State) → ¬ Edge s e t)
    → next s e ≡ (s, some (record { from = s; event = e }))
unfolding next
error_of_no_Edge off start h = absurd (h starting begins)
error_of_no_Edge starting stream_started h = absurd (h watching streams)
error_of_no_Edge starting stop h = absurd (h stopping aborts)
error_of_no_Edge starting fatal_error h = absurd (h stopping fails_early)
error_of_no_Edge watching stop h = absurd (h stopping ends)
error_of_no_Edge watching fatal_error h = absurd (h stopping fails)
error_of_no_Edge stopping worker_idle h = absurd (h off idles)
error_of_no_Edge _ _ h = refl

-- `Next` returns the unchanged state with an error that names the state and the event exactly when
-- no edge leaves `s` on `e`.
pub next-error_iff :
    (s : State) (e : Event)
    → (next s e ≡ (s, some (record { from = s; event = e }))) ↔ ((t : State) → ¬ Edge s e t)
next-error_iff s e = (λ h t d. no_error (next_of_Edge d) h, error_of_no_Edge s e)
  where
    no_error :
        {t : State}
        → next s e ≡ (t, none)
        → next s e ≡ (s, some (record { from = s; event = e }))
        → ⊥
    no_error p q = cc (ap (λ r. r.1) p, ap (λ r. r.1) q)
