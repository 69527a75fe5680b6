-- ===== src/Workers/Server/Calls.antt =====
-- A link from its command to its reply, and the calls that fail.
use dota_cuck.Prelude.{ℕ, ◌++◌, ◌≡◌, String, Option, none, some, [], ◌∷◌, arith, Bytes}
use text.Mathlib.TextPositions.{eq_refl}
use dota_cuck.Workers.Messages.{
  SteamGuardType, LinkResult, steam_guard, qr_challenge, link_result, friends_result, FriendsResult,
  link_account,
}
use dota_cuck.Workers.Pending.{set_buffer}
use dota_cuck.Workers.Server.{
  Server, on_guard, on_challenge, waiting, err_no_worker, dispatch, begin_list_friends, begin_link,
  leave_link, take_link,
}

module _ (C : Type 0) where
  pub begin_link_inv :
      (s waits : Server C) (id username : String) (password : Bytes) (guard challenge : Option C)
      (c : ℕ)
      → begin_link C s id username password guard challenge ≡ (waits, waiting c)
      → (waits.links.chans id ≡ some c) × (waits.links.buffers c ≡ none)
  unfolding begin_link
  begin_link_inv s waits id username password guard challenge c h =
      (ground (arith, eq_refl id), ground arith)

  -- What is left of `begin_link` when it waits: its prompts go to the callbacks, and the worker's
  -- queue ends with its command.
  pub begin_link_asks :
      (s waits : Server C) (id username : String) (password : Bytes) (on_prompt on_url : C)
      (c w : ℕ)
      → begin_link C s id username password (some on_prompt) (some on_url) ≡ (waits, waiting c)
      → s.reg.current ≡ some w
      → (waits.guards id ≡ some on_prompt)
        × (waits.reg.current ≡ some w)
        × ((waits.workers w).send ≡ (s.workers w).send ++ link_account id username password ∷ [])
  unfolding begin_link
  begin_link_asks s waits id username password on_prompt on_url c w h current =
      (ground (arith, eq_refl id), ground arith, ground arith)

  -- A reply to a link that waits does not block the delivery, the call takes it, and afterwards
  -- none of the three tables has an entry for the id.
  pub link_reply :
      (s : Server C) (id : String) (c w : ℕ) (worker_id : String) (res : LinkResult)
      → s.links.chans id ≡ some c
      → s.links.buffers c ≡ none
      → res.request_id ≡ id
      → (delivered done : Server C) × (dispatch C s w worker_id (link_result res)
          ≡ some (delivered, []))
        × (take_link C delivered id c ≡ some (res, done))
        × (done.links.chans id ≡ none)
        × (done.guards id ≡ none)
        × (done.challenges id ≡ none)
  unfolding dispatch take_link
  link_reply s id c w worker_id res there room same =
      let full = set_buffer s.links.buffers c (some res) in
      let delivered = record s { links = record s.links { buffers = full } } in
      let taken = record s { links = record s.links { buffers = set_buffer full c none } } in
      (
        delivered,
        leave_link C taken id,
        ground arith,
        ground arith,
        ground (arith, eq_refl id),
        ground (arith, eq_refl id),
        ground (arith, eq_refl id),
      )

  -- While the link waits, a guard prompt with its id runs its guard callback and a QR challenge with
  -- its id its challenge callback, once each, and neither changes the state.
  pub link_prompts :
      (s waits : Server C) (id username url : String) (password : Bytes) (on_prompt on_url : C)
      (c w : ℕ) (worker_id : String) (guard_type : SteamGuardType)
      → begin_link C s id username password (some on_prompt) (some on_url) ≡ (waits, waiting c)
      → (dispatch C waits w worker_id (steam_guard guard_type id)
          ≡ some (waits, on_guard on_prompt guard_type ∷ []))
        × (dispatch C waits w worker_id (qr_challenge id url)
            ≡ some (waits, on_challenge on_url url ∷ []))
  unfolding begin_link dispatch
  link_prompts s waits id username url password on_prompt on_url c w worker_id guard_type h =
      ground (arith, eq_refl id)

  -- With no worker connected, `Link` and `ListFriends` return `ErrNoWorker` and leave no entry for
  -- the request id.
  pub calls_without_worker :
      (s : Server C) (id username : String) (password token : Bytes) (guard challenge : Option C)
      → s.reg.current ≡ none
      → let (linked, r) = begin_link C s id username password guard challenge in
        let (listed, q) = begin_list_friends C s id token in
        (r ≡ err_no_worker)
        × (q ≡ err_no_worker)
        × (linked.links.chans id ≡ none)
        × (linked.guards id ≡ none)
        × (linked.challenges id ≡ none)
        × (listed.pending.chans id ≡ none)
  unfolding begin_link begin_list_friends
  calls_without_worker s id username password token guard challenge idle =
      ground (arith, eq_refl id)

  -- A reply whose id no call waits for is dropped: it neither blocks nor changes anything.
  pub stray_replies :
      (s : Server C) (w : ℕ) (worker_id : String) (link : LinkResult) (friends : FriendsResult)
      → s.links.chans link.request_id ≡ none
      → s.pending.chans friends.request_id ≡ none
      → (dispatch C s w worker_id (link_result link) ≡ some (s, []))
        × (dispatch C s w worker_id (friends_result friends) ≡ some (s, []))
  unfolding dispatch
  stray_replies s w worker_id link friends no_link no_friends = ground arith
