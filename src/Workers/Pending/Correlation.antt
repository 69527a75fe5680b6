-- ===== src/Workers/Pending/Correlation.antt =====
-- Replies reach the call that they answer, in every interleaving of calls and replies.
use dota_cuck.Prelude.{
  ℕ, ◌<◌, ◌≡◌, ◌≢◌, ◌↔◌, String, none, some, arith, eq_iff, Option-cases, inl, inr,
}
use dota_cuck.Workers.Pending.{Pending, new_pending, open_call, remove_call, deliver, receive}

module _ {R : Type 0} (request_id : R → String) where
  -- One step of any goroutine: a call begins or leaves, the stream delivers a reply under its
  -- request id, or a waiting call takes one. A blocked send or receive makes no step.
  pub data Step (p : Pending R) (q : Pending R) : Type 0 where
    opens : (id : String) → q ≡ (open_call p id).0 → Step p q
    removes : (id : String) → q ≡ remove_call p id → Step p q
    delivers : (res : R) → deliver p (request_id res) res ≡ some q → Step p q
    receives : (c : ℕ) (res : R) → receive p c ≡ some (res, q) → Step p q

  pub data Reach (p : Pending R) : Pending R → Type 0 where
    here : Reach p p
    then_step : {q r : Pending R} → Reach p q → Step q r → Reach p r

  -- Channels in the table have been made.
  pub record IsMade (p : Pending R) : Type 0 where
    pub chans_made : (id : String) (c : ℕ) → p.chans id ≡ some c → c < p.made

  pub new-IsMade : IsMade new_pending
  unfolding new_pending
  new-IsMade = record { chans_made = λ id c h. absurd (ground arith) }

  Step-IsMade : {p q : Pending R} → Step p q → IsMade p → IsMade q
  unfolding open_call remove_call deliver receive
  Step-IsMade {p} {q} (opens id e) m = record {
    chans_made = λ j c h. ground (arith, m.chans_made j c);
  }
  Step-IsMade {p} {q} (removes id e) m = record {
    chans_made = λ j c h. ground (arith, m.chans_made j c);
  }
  Step-IsMade {p} {q} (delivers res e) m = record {
    chans_made = λ j c h. ground (arith, m.chans_made j c);
  }
  Step-IsMade {p} {q} (receives d res e) m = record {
    chans_made = λ j c h. ground (arith, m.chans_made j c);
  }

  -- The channel `c` was made for the call `id`.
  record IsOwned (id : String) (c : ℕ) (p : Pending R) : Type 0 where
    made : c < p.made
    only : (j : String) → p.chans j ≡ some c → j ≡ id
    holds : (res : R) → p.buffers c ≡ some res → request_id res ≡ id

  Step-IsOwned :
      {p q : Pending R} (id : String) (c : ℕ) → Step p q → IsOwned id c p → IsOwned id c q
  unfolding open_call remove_call deliver receive
  Step-IsOwned {p} {q} id c (opens j e) o = record {
    made = ground (arith, o.made);
    only = λ k h. ground (arith, o.made, o.only k);
    holds = λ res h. ground (arith, o.made, o.holds res);
  }
  Step-IsOwned {p} {q} id c (removes j e) o = record {
    made = ground (arith, o.made);
    only = λ k h. ground (arith, o.made, o.only k);
    holds = λ res h. ground (arith, o.made, o.holds res);
  }
  Step-IsOwned {p} {q} id c (delivers sent e) o = record {
    made = ground (arith, o.made);
    only = λ k h. ground (arith, o.made, o.only k);
    holds = λ res h. ground (arith, o.only (request_id sent), o.holds res);
  }
  Step-IsOwned {p} {q} id c (receives d taken e) o = record {
    made = ground (arith, o.made);
    only = λ k h. ground (arith, o.made, o.only k);
    holds = λ res h. ground (arith, o.holds res);
  }

  pub Reach-IsMade : {p q : Pending R} → Reach p q → IsMade p → IsMade q
  Reach-IsMade here m = m
  Reach-IsMade (then_step r s) m = Step-IsMade s (Reach-IsMade r m)

  Reach-IsOwned :
      {p q : Pending R} (id : String) (c : ℕ) → Reach p q → IsOwned id c p → IsOwned id c q
  Reach-IsOwned id c here o = o
  Reach-IsOwned id c (then_step r s) o = Step-IsOwned id c s (Reach-IsOwned id c r o)

  open_call-IsOwned :
      (p : Pending R) (id : String) → IsMade p → IsOwned id (open_call p id).1 (open_call p id).0
  unfolding open_call
  open_call-IsOwned p id m = record {
    made = omega arith;
    only = λ j h. ground (arith, m.chans_made j p.made, eq_iff id j);
    holds = λ res h. absurd (ground arith);
  }

  receive_inv :
      (p q : Pending R) (c : ℕ) (res : R) → receive p c ≡ some (res, q) → p.buffers c ≡ some res
  unfolding receive
  receive_inv p q c res h = ground arith

  -- Whatever steps led to the table `p`, and whatever steps follow the beginning of a call with
  -- this request id (other calls, replies to any id, the end of any call), a reply that the call
  -- takes from its channel carries its request id.
  pub receive-request_id :
      (p q q' : Pending R) (id : String) (res : R)
      → Reach new_pending p
      → Reach (open_call p id).0 q
      → receive q (open_call p id).1 ≡ some (res, q')
      → request_id res ≡ id
  receive-request_id p q q' id res before after h =
      (Reach-IsOwned id (open_call p id).1 after
          (open_call-IsOwned p id (Reach-IsMade before new-IsMade))).holds
        res (receive_inv q q' (open_call p id).1 res h)

  -- A delivery blocks the stream exactly when a call waits for the id and its channel is full.
  pub deliver_blocks_iff :
      (p : Pending R) (id : String) (res : R)
      → (deliver p id res ≡ none) ↔ ((c : ℕ) × (p.chans id ≡ some c) × (p.buffers c ≢ none))
  unfolding deliver
  deliver_blocks_iff p id res = elim (Option-cases (p.chans id)) [
    | inl nobody ↦ ((λ h. absurd (ground arith)), (λ (c, e, full). absurd (ground arith)))
    | inr (c, waits) ↦ (
      (λ h. (c, waits, λ e. ground arith)),
      (λ (d, e, full). elim (Option-cases (p.buffers c)) [
        | inl room ↦ absurd (ground arith)
        | inr (r, e') ↦ ground arith
      ]),
    )
  ]

  -- A second reply to a request whose call has not taken the first blocks the stream.
  second_reply_blocks :
      (p q : Pending R) (id : String) (c : ℕ) (first second : R)
      → p.chans id ≡ some c
      → deliver p id first ≡ some q
      → deliver q id second ≡ none
  unfolding deliver
  second_reply_blocks p q id c first second waits h = ground arith
