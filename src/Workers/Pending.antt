-- ===== src/Workers/Pending.antt =====
-- The tables of control-plane/internal/workers/friends.go and link.go that match replies with
-- waiting calls by request id. A channel is a number; each has room for one reply.
pub mod Correlation
pub mod Delivery
use dota_cuck.Prelude.{
  ℕ, ◌+◌, String, Bool, Option, none, some, Dict, empty, put, remove, ◌==◌, if◌then◌else◌,
}

-- `pendingFriends`, and the `chans` of `pendingLinks`, with the contents of the channels made.
pub record Pending {ℓ} (R : Type ℓ) : Type ℓ where
  pub chans : Dict ℕ
  pub buffers : ℕ → Option R
  pub made : ℕ  -- the next channel

module _ {ℓ} {R : Type ℓ} where
  unfoldable pub new_pending : Pending R
  new_pending = record { chans = empty; buffers = λ c. none; made = 0 }

  abbrev pub set_buffer : (ℕ → Option R) → ℕ → Option R → ℕ → Option R
  set_buffer bs c b d = if c == d then b else bs d

  -- `make(chan, 1)`, then `add`
  unfoldable pub open_call : Pending R → String → Pending R × ℕ
  open_call p req_id = (
    record p {
      chans = put p.chans req_id p.made;
      buffers = set_buffer p.buffers p.made none;
      made = p.made + 1;
    },
    p.made,
  )

  -- `remove`
  unfoldable pub remove_call : Pending R → String → Pending R
  remove_call p req_id = record p { chans = remove p.chans req_id }

  -- `deliver` of a reply with this request id; `none` is a send that blocks on a full
  -- channel: the model stops there, so what a sender does that was blocked is not told.
  unfoldable pub deliver : Pending R → String → R → Option (Pending R)
  deliver p req_id res = elim (p.chans req_id) [
    | none ↦ some p
    | some c ↦ elim (p.buffers c) [
      | none ↦ some (record p { buffers = set_buffer p.buffers c (some res) })
      | some _ ↦ none
    ]
  ]

  -- `res := <-ch`; `none` is a receive that waits.
  unfoldable pub receive : Pending R → ℕ → Option (R × Pending R)
  receive p c = elim (p.buffers c) [
    | none ↦ none
    | some res ↦ some (res, record p { buffers = set_buffer p.buffers c none })
  ]
