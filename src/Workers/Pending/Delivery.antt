-- ===== src/Workers/Pending/Delivery.antt =====
-- A reply gets through, whatever the other calls do.
use dota_cuck.Prelude.{ℕ, ◌<◌, ◌≡◌, ◌≢◌, String, none, some, arith, eq_iff}
use text.Mathlib.TextPositions.{eq_refl}
use dota_cuck.Workers.Pending.{
  Pending, new_pending, open_call, remove_call, deliver, receive, set_buffer,
}
use dota_cuck.Workers.Pending.Correlation.{Reach, IsMade, Reach-IsMade, new-IsMade}

module _ {R : Type 0} (request_id : R → String) where
  -- A step that is not about the request `id`: another call begins or leaves, a reply to another
  -- request is delivered, or any call takes a reply.
  pub data Aside (id : String) (p : Pending R) (q : Pending R) : Type 0 where
    opens : (j : String) → j ≢ id → q ≡ (open_call p j).0 → Aside id p q
    removes : (j : String) → j ≢ id → q ≡ remove_call p j → Aside id p q
    delivers :
        (res : R) → request_id res ≢ id → deliver p (request_id res) res ≡ some q → Aside id p q
    receives : (c : ℕ) (res : R) → receive p c ≡ some (res, q) → Aside id p q

  pub data Asides (id : String) (p : Pending R) : Pending R → Type 0 where
    nothing : Asides id p p
    and_then : {q r : Pending R} → Asides id p q → Aside id q r → Asides id p r

  -- The call `id` waits on the channel `c`, which is its own and empty.
  record Waits (id : String) (c : ℕ) (p : Pending R) : Type 0 where
    waits : p.chans id ≡ some c
    room : p.buffers c ≡ none
    made : c < p.made
    own : (j : String) → p.chans j ≡ some c → j ≡ id

  Aside-Waits : {p q : Pending R} (id : String) (c : ℕ) → Aside id p q → Waits id c p → Waits id c q
  unfolding open_call remove_call deliver receive
  Aside-Waits {p} {q} id c (opens j ne e) w = record {
    waits = ground (arith, w.waits, eq_iff j id);
    room = ground (arith, w.room, w.made);
    made = ground (arith, w.made);
    own = λ k h. ground (arith, w.own k, w.made);
  }
  Aside-Waits {p} {q} id c (removes j ne e) w = record {
    waits = ground (arith, w.waits, eq_iff j id);
    room = ground (arith, w.room);
    made = ground (arith, w.made);
    own = λ k h. ground (arith, w.own k);
  }
  Aside-Waits {p} {q} id c (delivers res ne e) w = record {
    waits = ground (arith, w.waits);
    room = ground (arith, w.room, w.own (request_id res));
    made = ground (arith, w.made);
    own = λ k h. ground (arith, w.own k);
  }
  Aside-Waits {p} {q} id c (receives d res e) w = record {
    waits = ground (arith, w.waits);
    room = ground (arith, w.room);
    made = ground (arith, w.made);
    own = λ k h. ground (arith, w.own k);
  }

  Asides-Waits :
      (id : String) (c : ℕ) {p q : Pending R} → Asides id p q → Waits id c p → Waits id c q
  Asides-Waits id c nothing w = w
  Asides-Waits id c (and_then r st) w = Aside-Waits id c st (Asides-Waits id c r w)

  open_call-Waits :
      (p : Pending R) (id : String)
      → IsMade request_id p
      → Waits id (open_call p id).1 (open_call p id).0
  unfolding open_call
  open_call-Waits p id m = record {
    waits = ground (arith, eq_refl id);
    room = ground arith;
    made = omega arith;
    own = λ j h. ground (arith, m.chans_made j p.made, eq_iff id j);
  }

  -- Once a call has begun, and after any steps that are not about its request id, the delivery of a
  -- reply with its id does not block, and the call then takes this reply.
  pub reply_arrives :
      (p q : Pending R) (id : String) (res : R)
      → Reach request_id new_pending p
      → Asides id (open_call p id).0 q
      → request_id res ≡ id
      → (delivered : Pending R) × (taken : Pending R) × (deliver q (request_id res) res
          ≡ some delivered)
        × (receive delivered (open_call p id).1 ≡ some (res, taken))
  unfolding deliver receive
  reply_arrives p q id res before aside same =
      let c = (open_call p id).1 in
      let w =
        Asides-Waits id c aside
          (open_call-Waits p id (Reach-IsMade request_id before (new-IsMade request_id))) in
      let full = set_buffer q.buffers c (some res) in
      (
        record q { buffers = full },
        record q { buffers = set_buffer full c none },
        ground (arith, w.waits, w.room),
        ground arith,
      )
