-- ===== src/Workers/Server.antt =====
-- control-plane/internal/workers/server.go, and the calls `ListFriends`, `Link` and
-- `SubmitGuardCode`. The callbacks of a link are values of a type `C`; logging is left out.
pub mod Calls
use dota_cuck.Prelude.{
  ℕ, ◌+◌, String, Bool, Option, none, some, List, [], ◌∷◌, Bytes, Dict, empty, put, remove,
}
use dota_cuck.Workers.Messages.{
  SteamGuardType, FriendsResult, LinkResult, Payload, ready, steam_guard, qr_challenge,
  friends_result, link_result, status_update, match_id_resolved, stream_started, error, unset,
  WorkerEvent, Command, list_friends, link_account, submit_guard_code,
}
use dota_cuck.Workers.Registry.{
  Worker, Workers, set_worker, Registry, new_registry, register, unregister, send, SendResult, sent,
  no_worker, blocked,
}
use dota_cuck.Workers.Pending.{Pending, new_pending, open_call, remove_call, deliver, receive}

module _ (C : Type 0) where
  -- `Server`, with `pendingLinks` spread over `links`, `guards` and `challenges`, and the workers
  -- that its pointers mean.
  pub record Server : Type 0 where
    pub reg : Registry
    pub workers : Workers
    pub made : ℕ  -- the next worker
    pub pending : Pending FriendsResult
    pub links : Pending LinkResult
    pub guards : Dict C
    pub challenges : Dict C

  -- A callback that the handler runs.
  pub data Callback : Type 0 where
    on_guard : C → SteamGuardType → Callback
    on_challenge : C → String → Callback

  abbrev no_call : Server → Option (Server × List Callback)
  no_call s = some (s, [])

  unfoldable pub new_server : Server
  new_server = record {
    reg = new_registry;
    workers = λ w. record { id = ""; send = [] };
    made = 0;
    pending = new_pending;
    links = new_pending;
    guards = empty;
    challenges = empty;
  }

  -- The start of `WorkerSession`: a worker with an empty channel.
  unfoldable pub begin_session : Server → Server × ℕ
  begin_session s = (
    record s {
      workers = set_worker s.workers s.made (record { id = ""; send = [] });
      made = s.made + 1;
    },
    s.made,
  )

  -- Its deferred end.
  unfoldable pub end_session : Server → ℕ → Server
  end_session s w = record s { reg = unregister s.reg w }

  abbrev run_callback : Server → Option C → (C → Callback) → Option (Server × List Callback)
  run_callback s none call = some (s, [])
  run_callback s (some cb) call = some (s, call cb ∷ [])

  -- `handle`, by the payload; `none` is a delivery that blocks the stream.
  unfoldable pub dispatch : Server → ℕ → String → Payload → Option (Server × List Callback)
  unfolding register deliver
  dispatch s w worker_id ready = no_call (record s {
    workers = set_worker s.workers w (record (s.workers w) { id = worker_id });
    reg = register s.reg w;
  })
  dispatch s w worker_id (steam_guard guard_type req_id) =
      run_callback s (s.guards req_id) (λ cb. on_guard cb guard_type)
  dispatch s w worker_id (qr_challenge req_id url) =
      run_callback s (s.challenges req_id) (λ cb. on_challenge cb url)
  dispatch s w worker_id (friends_result res) = elim (deliver s.pending res.request_id res) [
    | none ↦ none
    | some p ↦ no_call (record s { pending = p })
  ]
  dispatch s w worker_id (link_result res) = elim (deliver s.links res.request_id res) [
    | none ↦ none
    | some p ↦ no_call (record s { links = p })
  ]
  dispatch s w worker_id status_update = no_call s
  dispatch s w worker_id match_id_resolved = no_call s
  dispatch s w worker_id stream_started = no_call s
  dispatch s w worker_id error = no_call s
  dispatch s w worker_id unset = no_call s

  unfoldable pub handle : Server → ℕ → WorkerEvent → Option (Server × List Callback)
  unfolding dispatch
  handle s w ev = dispatch s w ev.worker_id ev.payload

  -- How a call that waits for a reply begins: it waits on a channel, it returns `ErrNoWorker`, or
  -- it blocks on the worker's full queue.
  pub data Begun : Type 0 where
    waiting : ℕ → Begun
    err_no_worker : Begun
    queue_full : Begun

  abbrev sent_or_removed : Server → ℕ → Server → SendResult → Server × Begun
  sent_or_removed s c removed (sent ws) = (record s { workers = ws }, waiting c)
  sent_or_removed s c removed no_worker = (removed, err_no_worker)
  sent_or_removed s c removed blocked = (s, queue_full)

  -- `defer s.pending.remove(reqID)`
  unfoldable pub leave_friends : Server → String → Server
  unfolding remove_call
  leave_friends s req_id = record s { pending = remove_call s.pending req_id }

  -- `ListFriends` up to its `select`; a failed send returns through the deferred `remove`.
  unfoldable pub begin_list_friends : Server → String → Bytes → Server × Begun
  unfolding open_call send leave_friends
  begin_list_friends s req_id refresh_token =
      let (pending, c) = open_call s.pending req_id in
      let waits = record s { pending = pending } in
      sent_or_removed waits c (leave_friends waits req_id)
        (send s.reg s.workers (list_friends req_id refresh_token))

  -- `links.remove`
  unfoldable pub leave_link : Server → String → Server
  unfolding remove_call
  leave_link s req_id = record s {
    links = remove_call s.links req_id;
    guards = remove s.guards req_id;
    challenges = remove s.challenges req_id;
  }

  abbrev put_callback : Dict C → String → Option C → Dict C
  put_callback m req_id none = m
  put_callback m req_id (some cb) = put m req_id cb

  -- `make(chan, 1)` and `links.add`
  unfoldable pub add_link : Server → String → Option C → Option C → Server × ℕ
  unfolding open_call
  add_link s req_id guard challenge =
      let (links, c) = open_call s.links req_id in
      (
        record s {
          links = links;
          guards = put_callback s.guards req_id guard;
          challenges = put_callback s.challenges req_id challenge;
        },
        c,
      )

  -- `Link` up to its `select`.
  unfoldable pub begin_link :
      Server → String → String → Bytes → Option C → Option C → Server × Begun
  unfolding add_link send leave_link
  begin_link s req_id username password guard challenge =
      let (waits, c) = add_link s req_id guard challenge in
      sent_or_removed waits c (leave_link waits req_id)
        (send s.reg s.workers (link_account req_id username password))

  -- The `select` of `Link` that takes the reply, with the deferred `remove`.
  unfoldable pub take_link : Server → String → ℕ → Option (LinkResult × Server)
  unfolding receive leave_link
  take_link s req_id c = elim (receive s.links c) [
    | none ↦ none
    | some (res, links) ↦ some (res, leave_link (record s { links = links }) req_id)
  ]

  -- The `select` of `ListFriends` that takes the reply.
  unfoldable pub take_friends : Server → String → ℕ → Option (FriendsResult × Server)
  unfolding receive leave_friends
  take_friends s req_id c = elim (receive s.pending c) [
    | none ↦ none
    | some (res, pending) ↦ some (res, leave_friends (record s { pending = pending }) req_id)
  ]

  unfoldable pub submit_code : Server → String → String → SendResult
  unfolding send
  submit_code s req_id code = send s.reg s.workers (submit_guard_code req_id code)
