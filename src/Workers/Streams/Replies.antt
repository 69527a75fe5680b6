-- ===== src/Workers/Streams/Replies.antt =====
-- The two tables of a running server behave as tables of calls and replies, so what holds of those
-- in every interleaving holds of the server.
use dota_cuck.Prelude.{
  ℕ, ◌≡◌, refl, sym, subst, String, Option, some, arith, Option-cases, inl, inr, List,
}
use dota_cuck.Workers.Messages.{
  FriendsResult, LinkResult, Payload, friends_result, link_result, ready, steam_guard,
}
use dota_cuck.Workers.Pending.{Pending, new_pending, open_call, remove_call, deliver, receive}
use dota_cuck.Workers.Pending.Correlation
use dota_cuck.Workers.Pending.Correlation.{opens, removes, delivers, receives, receive-request_id}
use dota_cuck.Workers.Server.{
  Server, Callback, new_server, begin_session, end_session, handle, dispatch, leave_friends,
  leave_link, take_friends, take_link, add_link,
}
use dota_cuck.Workers.Streams.{
  System, Step, connects, hears, disconnects, writes, fails, stops, sends, adds_friends,
  leaves_friends, takes_friends, adds_link, leaves_link, takes_link, Reach, here, then_step, start,
}

abbrev pub friends_id : FriendsResult → String
friends_id res = res.request_id

abbrev pub link_id : LinkResult → String
link_id res = res.request_id

module _ {R : Type 0} (request_id : R → String) where
  same-Reach : {p q : Pending R} → q ≡ p → Correlation.Reach request_id p q
  same-Reach {p} {q} e = subst (Correlation.Reach request_id p) (sym e) Correlation.here

  one-Reach : {p q : Pending R} → Correlation.Step request_id p q → Correlation.Reach request_id p q
  one-Reach st = Correlation.then_step Correlation.here st

  Reach-trans :
      {p q r : Pending R}
      → Correlation.Reach request_id p q
      → Correlation.Reach request_id q r
      → Correlation.Reach request_id p r
  Reach-trans pq Correlation.here = pq
  Reach-trans pq (Correlation.then_step qr st) = Correlation.then_step (Reach-trans pq qr) st

module _ (C : Type 0) where
  take_friends_steps :
      (s t : Server C) (id : String) (c : ℕ) (res : FriendsResult)
      → take_friends C s id c ≡ some (res, t)
      → (p : Pending FriendsResult) × (receive s.pending c ≡ some (res, p))
        × (t.pending ≡ remove_call p id)
        × (t.links ≡ s.links)
  unfolding take_friends leave_friends
  take_friends_steps s t id c res h = elim (Option-cases (receive s.pending c)) [
    | inl waits ↦ absurd (ground arith)
    | inr ((r, p), got) ↦ (p, ground arith, ground arith, ground arith)
  ]

  take_link_steps :
      (s t : Server C) (id : String) (c : ℕ) (res : LinkResult)
      → take_link C s id c ≡ some (res, t)
      → (p : Pending LinkResult) × (receive s.links c ≡ some (res, p))
        × (t.links ≡ remove_call p id)
        × (t.pending ≡ s.pending)
  unfolding take_link leave_link
  take_link_steps s t id c res h = elim (Option-cases (receive s.links c)) [
    | inl waits ↦ absurd (ground arith)
    | inr ((r, p), got) ↦ (p, ground arith, ground arith, ground arith)
  ]

  dispatch_steps :
      (s t : Server C) (w : ℕ) (worker_id : String) (p : Payload) (calls : List (Callback C))
      → dispatch C s w worker_id p ≡ some (t, calls)
      → Correlation.Reach friends_id s.pending t.pending × Correlation.Reach link_id s.links t.links
  unfolding dispatch
  dispatch_steps s t w worker_id (friends_result res) calls h =
      elim (Option-cases (deliver s.pending res.request_id res)) [
        | inl blocked ↦ absurd (ground arith)
        | inr (p, ok) ↦
            (one-Reach friends_id (delivers res (ground arith)), same-Reach link_id (ground arith))
      ]
  dispatch_steps s t w worker_id (link_result res) calls h =
      elim (Option-cases (deliver s.links res.request_id res)) [
        | inl blocked ↦ absurd (ground arith)
        | inr (p, ok) ↦
            (same-Reach friends_id (ground arith), one-Reach link_id (delivers res (ground arith)))
      ]
  dispatch_steps s t w worker_id ready calls h =
      (same-Reach friends_id (ground arith), same-Reach link_id (ground arith))
  dispatch_steps s t w worker_id (steam_guard g id) calls h =
      (same-Reach friends_id (ground arith), same-Reach link_id (ground arith))
  dispatch_steps s t w worker_id p calls h =
      (same-Reach friends_id (ground arith), same-Reach link_id (ground arith))

  -- What a step does to the two tables.
  abbrev Follow : System C → System C → Type 0
  Follow s t =
      Correlation.Reach friends_id s.server.pending t.server.pending
      × Correlation.Reach link_id s.server.links t.server.links

  same-Follow :
      (s t : System C)
      → t.server.pending ≡ s.server.pending
      → t.server.links ≡ s.server.links
      → Follow s t
  same-Follow s t e f = (same-Reach friends_id e, same-Reach link_id f)

  Step-Follow : {s t : System C} → Step C s t → Follow s t
  unfolding begin_session end_session leave_friends leave_link add_link handle
  Step-Follow {s} {t} (connects e) = same-Follow s t (ground arith) (ground arith)
  Step-Follow {s} {t} (hears w ev server calls live h e) =
      let (friends, links) = dispatch_steps s.server server w ev.worker_id ev.payload calls h in
      (
        Reach-trans friends_id friends (same-Reach friends_id (ground arith)),
        Reach-trans link_id links (same-Reach link_id (ground arith)),
      )
  Step-Follow {s} {t} (disconnects w live e) = same-Follow s t (ground arith) (ground arith)
  Step-Follow {s} {t} (writes w cmd ws live runs h e) =
      same-Follow s t (ground arith) (ground arith)
  Step-Follow {s} {t} (fails w cmd ws runs h e) = same-Follow s t (ground arith) (ground arith)
  Step-Follow {s} {t} (stops w e) = same-Follow s t (ground arith) (ground arith)
  Step-Follow {s} {t} (sends w cmd ws h e) = same-Follow s t (ground arith) (ground arith)
  Step-Follow {s} {t} (adds_friends id e) =
      (one-Reach friends_id (opens id (ground arith)), same-Reach link_id (ground arith))
  Step-Follow {s} {t} (leaves_friends id e) =
      (one-Reach friends_id (removes id (ground arith)), same-Reach link_id (ground arith))
  Step-Follow {s} {t} (takes_friends id c res server h e) =
      let (p, got, left, links) = take_friends_steps s.server server id c res h in
      (
        Correlation.then_step (one-Reach friends_id (receives c res got))
            (removes id (ground arith)),
        same-Reach link_id (ground arith),
      )
  Step-Follow {s} {t} (adds_link id g q e) =
      (same-Reach friends_id (ground arith), one-Reach link_id (opens id (ground arith)))
  Step-Follow {s} {t} (leaves_link id e) =
      (same-Reach friends_id (ground arith), one-Reach link_id (removes id (ground arith)))
  Step-Follow {s} {t} (takes_link id c res server h e) =
      let (p, got, left, pending) = take_link_steps s.server server id c res h in
      (
        same-Reach friends_id (ground arith),
        Correlation.then_step (one-Reach link_id (receives c res got)) (removes id (ground arith)),
      )

  -- Every run of the server is, for each of its two tables, a run of a table of calls and replies.
  pub Reach-Follow :
      {s t : System C}
      → Reach C s t
      → Correlation.Reach friends_id s.server.pending t.server.pending
        × Correlation.Reach link_id s.server.links t.server.links
  Reach-Follow here = (Correlation.here, Correlation.here)
  Reach-Follow (then_step r st) =
      let before = Reach-Follow r in
      let now = Step-Follow st in
      (Reach-trans friends_id before.0 now.0, Reach-trans link_id before.1 now.1)

  start_tables : ((start C).server.pending ≡ new_pending) × ((start C).server.links ≡ new_pending)
  unfolding start new_server
  start_tables = (refl, refl)

  -- In every interleaving of streams, pumps and callers, what `ListFriends` returns is a reply to
  -- its own request, and so is what `Link` returns.
  pub replies_match :
      (s t u u' : System C) (server server' : Server C) (id link : String)
      (guard challenge : Option C) (res : FriendsResult) (linked : LinkResult)
      → Reach C (start C) s
      → Reach C
          (record s { server = record (s.server) { pending = (open_call s.server.pending id).0 } })
          t
      → take_friends C t.server id (open_call s.server.pending id).1 ≡ some (res, server)
      → Reach C (start C) u
      → Reach C (record u { server = (add_link C u.server link guard challenge).0 }) u'
      → take_link C u'.server link (add_link C u.server link guard challenge).1
        ≡ some (linked, server')
      → (res.request_id ≡ id) × (linked.request_id ≡ link)
  unfolding add_link
  replies_match s t u u' server server' id link guard challenge res linked before after h ubefore
        uafter k =
      let (p, got, _, _) = take_friends_steps t.server server id _ res h in
      let (q, taken, _, _) = take_link_steps u'.server server' link _ linked k in
      (
        receive-request_id friends_id s.server.pending t.server.pending p id res
            (subst (λ x. Correlation.Reach friends_id x s.server.pending) start_tables.0
              (Reach-Follow before).0)
            (Reach-Follow after).0 got,
        receive-request_id link_id u.server.links u'.server.links q link linked
            (subst (λ x. Correlation.Reach link_id x u.server.links) start_tables.1
              (Reach-Follow ubefore).1)
            (Reach-Follow uafter).1 taken,
      )
