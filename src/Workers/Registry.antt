-- ===== src/Workers/Registry.antt =====
-- control-plane/internal/workers/registry.go. A `*Worker` is a number; the registry's mutex makes
-- each method one step.
pub mod Lifecycle
use dota_cuck.Prelude.{
  ℕ, ◌+◌, String, Bool, Option, none, some, List, [], ◌∷◌, ◌++◌, length, ltb, ◌==◌, if◌then◌else◌,
}
use dota_cuck.Workers.Messages.{Command}

pub record Worker : Type 0 where
  pub id : String
  pub send : List Command  -- a channel of capacity 8, the oldest command first

abbrev pub send_capacity : ℕ
send_capacity = 8

pub record Registry : Type 0 where
  pub current : Option ℕ

unfoldable pub new_registry : Registry
new_registry = record { current = none }

unfoldable pub register : Registry → ℕ → Registry
register r w = record r { current = some w }

unfoldable pub unregister : Registry → ℕ → Registry
unregister r w = elim r.current [
  | none ↦ r
  | some v ↦ if v == w then record r { current = none } else r
]

-- The workers behind the pointers.
abbrev pub Workers : Type 0
Workers = ℕ → Worker

abbrev pub set_worker : Workers → ℕ → Worker → Workers
set_worker ws w x v = if w == v then x else ws v

-- `Send`: the command is queued, or there is no worker, or the full channel blocks the caller until
-- the stream's pump takes a command.
pub data SendResult : Type 0 where
  sent : Workers → SendResult
  no_worker blocked : SendResult

unfoldable pub send : Registry → Workers → Command → SendResult
send r ws cmd = elim r.current [
  | none ↦ no_worker
  | some w ↦
      if ltb (length (ws w).send) send_capacity
      then sent (set_worker ws w (record (ws w) { send = (ws w).send ++ cmd ∷ [] }))
      else blocked
]

-- The pump of a session takes the oldest command.
abbrev take_oldest : List Command → Option (Command × List Command)
take_oldest [] = none
take_oldest (c ∷ cs) = some (c, cs)

unfoldable pub pump : Workers → ℕ → Option (Command × Workers)
pump ws w = elim (take_oldest (ws w).send) [
  | none ↦ none
  | some (c, rest) ↦ some (c, set_worker ws w (record (ws w) { send = rest }))
]
