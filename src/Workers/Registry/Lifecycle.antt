-- ===== src/Workers/Registry/Lifecycle.antt =====
-- Sessions that come and go: each may register when its worker reports Ready and unregisters when
-- its stream ends.
use dota_cuck.Prelude.{
  ℕ, ◌≡◌, ◌≢◌, ◌↔◌, refl, some, List, [], ◌∷◌, arith, inl, inr, Option-cases, length, ◌++◌, ◌<◌,
}
use dota_cuck.Workers.Messages.{Command}
use dota_cuck.Workers.Registry.{
  Registry, register, unregister, Workers, sent, send, set_worker, send_capacity,
}

pub data Event : Type 0 where
  registers : ℕ → Event
  ends : ℕ → Event

abbrev pub step : Registry → Event → Registry
step r (registers w) = register r w
step r (ends w) = unregister r w

abbrev pub run : Registry → List Event → Registry
run r [] = r
run r (e ∷ es) = run (step r e) es

-- A stream that has ended registers no more.
abbrev pub StaysEnded : ℕ → List Event → Type 0
StaysEnded w [] = Unit
StaysEnded w (registers v ∷ es) = (v ≢ w) × StaysEnded w es
StaysEnded w (ends v ∷ es) = StaysEnded w es

abbrev pub NotEnded : ℕ → List Event → Type 0
NotEnded w [] = Unit
NotEnded w (registers v ∷ es) = NotEnded w es
NotEnded w (ends v ∷ es) = (v ≢ w) × NotEnded w es

-- Only ends of sessions.
abbrev pub NoneRegisters : List Event → Type 0
NoneRegisters [] = Unit
NoneRegisters (registers v ∷ es) = ⊥
NoneRegisters (ends v ∷ es) = NoneRegisters es

run-ne :
    (w : ℕ) (r : Registry) (es : List Event)
    → StaysEnded w es
    → r.current ≢ some w
    → (run r es).current ≢ some w
run-ne w r [] s h = h
run-ne w r (registers v ∷ es) (ne, s) h =
    run-ne w (register r v) es s (unfold register in ground arith)
run-ne w r (ends v ∷ es) s h = run-ne w (unregister r v) es s (unfold unregister in ground arith)

-- Once a worker's stream has ended it is never again the current worker, whatever the state was
-- and whatever other sessions do.
pub ended-ne-current :
    (r : Registry) (w : ℕ) (es : List Event)
    → StaysEnded w es
    → (run r (ends w ∷ es)).current ≢ some w
unfolding unregister
ended-ne-current r w es s = run-ne w (unregister r w) es s (ground arith)

run-current :
    (w : ℕ) (r : Registry) (es : List Event)
    → r.current ≡ some w
    → NotEnded w es
    → NoneRegisters es
    → (run r es).current ≡ some w
run-current w r [] h n a = h
run-current w r (registers v ∷ es) h n a = absurd a
run-current w r (ends v ∷ es) h (ne, n) a =
    run-current w (unregister r v) es (unfold unregister in ground arith) n a

-- The worker that registered last stays current until its own stream ends: the end of any other
-- session, a stale one included, does not evict it.
pub newest-current :
    (r : Registry) (w : ℕ) (es : List Event)
    → NotEnded w es
    → NoneRegisters es
    → (run r (registers w ∷ es)).current ≡ some w
unfolding register
newest-current r w es n a = run-current w (register r w) es refl n a

-- `Send` queues the command behind the current worker's others exactly when there is a current
-- worker with room in its channel; no queue grows beyond the capacity, and no other worker's queue
-- changes.
send_iff :
    (r : Registry) (ws ws' : Workers) (cmd : Command)
    → (send r ws cmd ≡ sent ws') ↔ (
        (w : ℕ) × (r.current ≡ some w)
        × (length (ws w).send < send_capacity)
        × (ws' ≡ set_worker ws w (record (ws w) { send = (ws w).send ++ cmd ∷ [] })))
send_iff r ws ws' cmd = elim (Option-cases r.current) [
  | inl idle ↦
      unfold send in ((λ h. absurd (ground arith)), (λ (w, e, room, same). absurd (ground arith)))
  | inr (v, busy) ↦
      unfold send in
      ((λ h. (v, busy, ground arith, ground arith)), (λ (w, e, room, same). ground arith))
]
