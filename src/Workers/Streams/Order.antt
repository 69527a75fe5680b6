-- ===== src/Workers/Streams/Order.antt =====
-- Which commands reach a worker, and in which order.
use dota_cuck.Prelude.{
  ℕ, ◌<◌, ◌≤◌, ◌≡◌, refl, subst, String, Bool, true, false, some, List, [], ◌∷◌, ◌++◌, arith,
  length, length-append, append_assoc, ◌==◌, Bool-cases, List-cases, inl, inr, ◌⊎◌,
}
use dota_cuck.Workers.Messages.{
  Command, FriendsResult, LinkResult, WorkerEvent, Payload, ready, steam_guard,
}
use dota_cuck.Workers.Registry.{Worker, Workers, set_worker, send_capacity, sent, send, pump}
use dota_cuck.Workers.Server.{
  Server, Callback, new_server, handle, dispatch, take_friends, take_link, begin_session,
  end_session, leave_friends, leave_link, add_link,
}
use dota_cuck.Workers.Streams.{
  Stream, set_stream, System, opened, Step, connects, hears, disconnects, writes, fails, stops,
  sends, adds_friends, leaves_friends, takes_friends, adds_link, leaves_link, takes_link, Reach,
  here, then_step, start,
}

-- A stream's books balance: what was queued is what was written, then what was lost, then what
-- still waits; the channel is within its capacity, and a pump that runs has lost nothing.
pub record IsOrdered (st : Stream) (waiting : List Command) : Type 0 where
  pub balance : st.queued ≡ st.wire ++ (st.lost ++ waiting)
  pub capacity : length waiting ≤ send_capacity
  pub lossless : st.pumping ≡ true → st.lost ≡ []

pub pump_inv :
    (ws ws' : Workers) (w : ℕ) (cmd : Command)
    → pump ws w ≡ some (cmd, ws')
    → (rest : List Command) × ((ws w).send ≡ cmd ∷ rest)
      × (ws' ≡ set_worker ws w (record (ws w) { send = rest }))
unfolding pump
pump_inv ws ws' w cmd h = elim (List-cases (ws w).send) [
  | inl idle ↦ absurd (ground arith)
  | inr (c, rest, e) ↦ (rest, ground arith, ground arith)
]

send_inv :
    (ws ws' : Workers) (w : ℕ) (cmd : Command)
    → send (record { current = some w }) ws cmd ≡ sent ws'
    → (length (ws w).send < send_capacity)
      × (ws' ≡ set_worker ws w (record (ws w) { send = (ws w).send ++ cmd ∷ [] }))
unfolding send
send_inv ws ws' w cmd h = (ground arith, ground arith)

write-IsOrdered :
    (st : Stream) (cmd : Command) (rest : List Command)
    → st.pumping ≡ true
    → IsOrdered st (cmd ∷ rest)
    → IsOrdered (record st { wire = st.wire ++ cmd ∷ [] }) rest
write-IsOrdered st cmd rest runs o = record {
  balance = ground (arith, append_assoc st.wire (cmd ∷ []) rest, o.balance, o.lossless);
  capacity = ground (arith, o.capacity);
  lossless = o.lossless;
}

fail-IsOrdered :
    (st : Stream) (cmd : Command) (rest : List Command)
    → st.pumping ≡ true
    → IsOrdered st (cmd ∷ rest)
    → IsOrdered (record st { pumping = false; lost = cmd ∷ [] }) rest
fail-IsOrdered st cmd rest runs o = record {
  balance = ground (arith, o.balance, o.lossless);
  capacity = ground (arith, o.capacity);
  lossless = λ h. cc;
}

send-IsOrdered :
    (st : Stream) (cmd : Command) (queue : List Command)
    → length queue < send_capacity
    → IsOrdered st queue
    → IsOrdered (record st { queued = st.queued ++ cmd ∷ [] }) (queue ++ cmd ∷ [])
send-IsOrdered st cmd queue room o = record {
  balance = ground (
    arith,
    o.balance,
    append_assoc st.wire (st.lost ++ queue) (cmd ∷ []),
    append_assoc st.lost queue (cmd ∷ []),
  );
  capacity = ground (arith, length-append queue (cmd ∷ []));
  lossless = o.lossless;
}

module _ (C : Type 0) where
  dispatch_inv :
      (s t : Server C) (w : ℕ) (worker_id : String) (p : Payload) (calls : List (Callback C))
      → dispatch C s w worker_id p ≡ some (t, calls)
      → ((v : ℕ) → (t.workers v).send ≡ (s.workers v).send)
        × (t.made ≡ s.made)
        × ((v : ℕ) → t.reg.current ≡ some v → (s.reg.current ≡ some v) ⊎ (v ≡ w))
  unfolding dispatch
  dispatch_inv s t w worker_id ready calls h =
      (λ v. ground arith, ground arith, λ v now. inr (ground arith))
  dispatch_inv s t w worker_id (steam_guard g id) calls h =
      (λ v. ground arith, ground arith, λ v now. inl (ground arith))
  dispatch_inv s t w worker_id p calls h =
      (λ v. ground arith, ground arith, λ v now. inl (ground arith))

  -- Handling an event queues nothing, and makes at most this worker the current one.
  pub handle_inv :
      (s t : Server C) (w : ℕ) (ev : WorkerEvent) (calls : List (Callback C))
      → handle C s w ev ≡ some (t, calls)
      → ((v : ℕ) → (t.workers v).send ≡ (s.workers v).send)
        × (t.made ≡ s.made)
        × ((v : ℕ) → t.reg.current ≡ some v → (s.reg.current ≡ some v) ⊎ (v ≡ w))
  unfolding handle
  handle_inv s t w ev calls h = dispatch_inv s t w ev.worker_id ev.payload calls h

  abbrev pub AreOrdered : System C → Type 0
  AreOrdered s = (w : ℕ) → IsOrdered (s.streams w) (s.server.workers w).send

  set-IsOrdered :
      (ss : ℕ → Stream) (ws : Workers) (w v : ℕ) (st : Stream) (x : Worker)
      → IsOrdered st x.send
      → IsOrdered (ss v) (ws v).send
      → IsOrdered (set_stream ss w st v) (set_worker ws w x v).send
  set-IsOrdered ss ws w v st x mine theirs = elim (Bool-cases (w == v)) [
    | inl same ↦ rw same mine
    | inr other ↦ rw other theirs
  ]

  set_stream-IsOrdered :
      (ss : ℕ → Stream) (w v : ℕ) (st : Stream) (waiting : ℕ → List Command)
      → IsOrdered st (waiting w)
      → IsOrdered (ss v) (waiting v)
      → IsOrdered (set_stream ss w st v) (waiting v)
  set_stream-IsOrdered ss w v st waiting mine theirs = elim (Bool-cases (w == v)) [
    | inl same ↦
        let e : w ≡ v = ground arith in rw same (subst (λ u. IsOrdered st (waiting u)) e mine)
    | inr other ↦ rw other theirs
  ]

  close-IsOrdered :
      (st : Stream) (waiting : List Command) (live pumping : Bool)
      → (pumping ≡ true → st.pumping ≡ true)
      → IsOrdered st waiting
      → IsOrdered (record st { live = live; pumping = pumping }) waiting
  close-IsOrdered st waiting live pumping weaker o = record {
    balance = o.balance;
    capacity = o.capacity;
    lossless = λ h. o.lossless (weaker h);
  }

  opened-IsOrdered : IsOrdered (opened C) []
  opened-IsOrdered = record { balance = refl; capacity = omega arith; lossless = λ h. refl }

  pumped-IsOrdered :
      (s : System C) (w v : ℕ) (cmd : Command) (ws : Workers) (st : Stream)
      → pump s.server.workers w ≡ some (cmd, ws)
      → ((rest : List Command) → IsOrdered (s.streams w) (cmd ∷ rest) → IsOrdered st rest)
      → AreOrdered s
      → IsOrdered (set_stream s.streams w st v) (ws v).send
  pumped-IsOrdered s w v cmd ws st h keep o =
      let (rest, front, is) = pump_inv s.server.workers ws w cmd h in
      rw is (
        set-IsOrdered s.streams s.server.workers w v st _
          (keep rest (subst (IsOrdered (s.streams w)) front (o w))) (o v))

  pub take_friends_inv :
      (s t : Server C) (id : String) (c : ℕ) (res : FriendsResult)
      → take_friends C s id c ≡ some (res, t)
      → (t.workers ≡ s.workers) × (t.reg ≡ s.reg) × (t.made ≡ s.made)
  unfolding take_friends
  take_friends_inv s t id c res h = ground arith

  pub take_link_inv :
      (s t : Server C) (id : String) (c : ℕ) (res : LinkResult)
      → take_link C s id c ≡ some (res, t)
      → (t.workers ≡ s.workers) × (t.reg ≡ s.reg) × (t.made ≡ s.made)
  unfolding take_link
  take_link_inv s t id c res h = ground arith

  Step-AreOrdered : {s t : System C} → Step C s t → AreOrdered s → AreOrdered t
  unfolding begin_session end_session leave_friends leave_link take_friends take_link add_link
  Step-AreOrdered {s} {t} (connects e) o v =
      rw e (set-IsOrdered s.streams s.server.workers s.server.made v _ _ opened-IsOrdered (o v))
  Step-AreOrdered {s} {t} (hears w ev server calls live h e) o v =
      rw e (rw ((handle_inv s.server server w ev calls h).0 v) (o v))
  Step-AreOrdered {s} {t} (disconnects w live e) o v = rw e (
      set_stream-IsOrdered s.streams w v _ (λ u. (s.server.workers u).send)
        (close-IsOrdered (s.streams w) _ false _ (λ h. h) (o w)) (o v))
  Step-AreOrdered {s} {t} (stops w e) o v = rw e (
      set_stream-IsOrdered s.streams w v _ (λ u. (s.server.workers u).send)
        (close-IsOrdered (s.streams w) _ _ false (λ h. absurd (ground arith)) (o w)) (o v))
  Step-AreOrdered {s} {t} (writes w cmd ws live runs h e) o v =
      rw e
        (pumped-IsOrdered s w v cmd ws _ h (λ rest. write-IsOrdered (s.streams w) cmd rest runs) o)
  Step-AreOrdered {s} {t} (fails w cmd ws runs h e) o v =
      rw e
        (pumped-IsOrdered s w v cmd ws _ h (λ rest. fail-IsOrdered (s.streams w) cmd rest runs) o)
  Step-AreOrdered {s} {t} (sends w cmd ws h e) o v =
      let (room, is) = send_inv s.server.workers ws w cmd h in
      rw e (
        rw is (
          set-IsOrdered s.streams s.server.workers w v _ _
            (send-IsOrdered (s.streams w) cmd _ room (o w)) (o v)))
  Step-AreOrdered {s} {t} (adds_friends id e) o v = rw e (o v)
  Step-AreOrdered {s} {t} (leaves_friends id e) o v = rw e (o v)
  Step-AreOrdered {s} {t} (takes_friends id c res server h e) o v =
      rw (e, (take_friends_inv s.server server id c res h).0) (o v)
  Step-AreOrdered {s} {t} (adds_link id g q e) o v = rw e (o v)
  Step-AreOrdered {s} {t} (leaves_link id e) o v = rw e (o v)
  Step-AreOrdered {s} {t} (takes_link id c res server h e) o v =
      rw (e, (take_link_inv s.server server id c res h).0) (o v)

  start-AreOrdered : AreOrdered (start C)
  unfolding start new_server
  start-AreOrdered w = record { balance = refl; capacity = omega arith; lossless = λ h. refl }

  Reach-AreOrdered : {s t : System C} → Reach C s t → AreOrdered s → AreOrdered t
  Reach-AreOrdered here o = o
  Reach-AreOrdered (then_step r st) o = Step-AreOrdered st (Reach-AreOrdered r o)

  -- In every interleaving of streams, pumps and callers, the commands that were put into a worker's
  -- channel are, in this order: those written to its stream, then the one that a failed write lost,
  -- if any, then those that wait, at most 8. While the pump runs, nothing is lost.
  pub commands_in_order :
      (s : System C) (w : ℕ)
      → Reach C (start C) s
      → let st = s.streams w in
        let waiting = (s.server.workers w).send in
        (st.queued ≡ st.wire ++ (st.lost ++ waiting))
        × (length waiting ≤ send_capacity)
        × (st.pumping ≡ true → st.lost ≡ [])
  commands_in_order s w r =
      let o = Reach-AreOrdered r start-AreOrdered w in (o.balance, o.capacity, o.lossless)
