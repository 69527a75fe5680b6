-- ===== src/Workers/RequestIds.antt =====
-- `newRequestID` of control-plane/internal/workers/friends.go, and the `ListFriends` that draws one.
use dota_cuck.Prelude.{
  ℕ, ◌≡◌, ◌≢◌, refl, sym, ap, ◌∙◌, String, none, some, arith, Bytes, Option-cases, inl, inr,
}
use dota_cuck.Prelude.Result.{Result, ok, err}
use dota_cuck.Go.Hex.{encode_hex, encode_hex_inj}
use dota_cuck.Auth.Primitives.{Random, IsRandom}
use dota_cuck.Workers.Messages.{FriendsResult}
use dota_cuck.Workers.Pending.{Pending, new_pending, open_call, deliver, receive}
use dota_cuck.Workers.Pending.Correlation.{Reach}
use dota_cuck.Workers.Pending.Delivery.{opens, nothing, and_then, reply_arrives}
use dota_cuck.Workers.Server.{Server, Begun, begin_list_friends}

abbrev pub id_len : ℕ
id_len = 16

pub data IdError : Type 0 where
  read_id : IdError

unfoldable pub new_request_id : Random → Result IdError String
new_request_id random = elim (random id_len) [ none ↦ err read_id | some b ↦ ok (encode_hex b) ]

-- `ListFriends` up to its `select`.
unfoldable pub list_friends_call :
    {C : Type 0} → Server C → Random → Bytes → Server C × Result IdError (Begun C)
list_friends_call {C} s random refresh_token = elim (new_request_id random) [
  | err e ↦ (s, err e)
  | ok id ↦ let (t, begun) = begin_list_friends C s id refresh_token in (t, ok begun)
]

new_request_id_inv :
    (random : Random) (id : String)
    → new_request_id random ≡ ok id
    → (b : Bytes) × (random id_len ≡ some b) × (id ≡ encode_hex b)
unfolding new_request_id
new_request_id_inv random id h = elim (Option-cases (random id_len)) [
  | inl failed ↦ absurd (ground arith)
  | inr (b, read) ↦ (b, read, ground arith)
]

-- Two calls whose ids come from different random bytes do not disturb each other: the second may
-- begin while the first waits, and the first still takes the reply to its own request.
distinct_ids :
    (r r' : Random) (id id' : String) (p : Pending FriendsResult) (res : FriendsResult)
    → IsRandom r
    → IsRandom r'
    → new_request_id r ≡ ok id
    → new_request_id r' ≡ ok id'
    → r id_len ≢ r' id_len
    → Reach (λ (x : FriendsResult). x.request_id) new_pending p
    → res.request_id ≡ id
    → (id' ≢ id)
      × ((delivered : Pending FriendsResult) × (taken : Pending FriendsResult) × (deliver
              (open_call (open_call p id).0 id').0
              res.request_id
              res
            ≡ some delivered)
          × (receive delivered (open_call p id).1 ≡ some (res, taken)))
distinct_ids r r' id id' p res is is' got got' ne before same =
    let (b, read, e) = new_request_id_inv r id got in
    let (b', read', e') = new_request_id_inv r' id' got' in
    let other : id' ≢ id = λ clash. ne (
      read
      ∙ ap some (
          encode_hex_inj b b' (is id_len b read).1 (is' id_len b' read').1 (sym e ∙ sym clash ∙ e'))
      ∙ sym read') in
    (
      other,
      reply_arrives (λ (x : FriendsResult). x.request_id) p _ id res before
          (and_then nothing (opens id' other refl)) same,
    )
