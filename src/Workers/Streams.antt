-- ===== src/Workers/Streams.antt =====
-- control-plane/internal/workers/server.go, link.go and friends.go as goroutines that interleave:
-- the loop and the pump of each `WorkerSession`, and the callers of `ListFriends`, `Link` and
-- `SubmitGuardCode`. A step is what one goroutine does under a lock or with a channel, but for three
-- pairs that are one step each: the look-up and the send of `deliver`, the receive and the deferred
-- `remove` of a call, and the end of a session's loop and its `unregister`. A blocked send or
-- receive makes no step until it can; a delivery that blocks looks its id up again.
pub mod Order
pub mod Current
pub mod Replies
mod Tests
use dota_cuck.Prelude.{
  ℕ, ◌≡◌, String, Bool, true, false, Option, none, some, List, [], ◌∷◌, ◌++◌, ◌==◌, if◌then◌else◌,
}
use dota_cuck.Workers.Messages.{Command, FriendsResult, LinkResult, WorkerEvent}
use dota_cuck.Workers.Registry.{Registry, Workers, sent, send, pump}
use dota_cuck.Workers.Pending.{open_call, remove_call, receive}
use dota_cuck.Workers.Server.{
  Server, Callback, new_server, begin_session, end_session, handle, add_link, leave_link,
  leave_friends, take_link, take_friends,
}

-- What a stream has seen: whether its session has begun and not yet unregistered, whether its pump
-- runs, the commands that were put into its
-- channel, those that were written to the wire, and those taken for a write that failed.
pub record Stream : Type 0 where
  pub live : Bool
  pub pumping : Bool
  pub queued : List Command
  pub wire : List Command
  pub lost : List Command

abbrev pub set_stream : (ℕ → Stream) → ℕ → Stream → ℕ → Stream
set_stream ss w x v = if w == v then x else ss v

module _ (C : Type 0) where
  pub record System : Type 0 where
    pub server : Server C
    pub streams : ℕ → Stream

  abbrev pub opened : Stream
  opened = record { live = true; pumping = true; queued = []; wire = []; lost = [] }

  abbrev pub unopened : Stream
  unopened = record { live = false; pumping = false; queued = []; wire = []; lost = [] }

  unfoldable pub start : System
  start = record { server = new_server C; streams = λ w. unopened }

  pub data Step (s : System) (t : System) : Type 0 where
    -- `WorkerSession` begins.
    connects :
        t ≡ record {
          server = (begin_session C s.server).0;
          streams = set_stream s.streams s.server.made opened;
        }
        → Step s t
    -- Its loop handles an event.
    hears :
        (w : ℕ) (ev : WorkerEvent) (server : Server C) (calls : List (Callback C))
        → (s.streams w).live ≡ true
        → handle C s.server w ev ≡ some (server, calls)
        → t ≡ record s { server = server }
        → Step s t
    -- Its loop returns, and the session is unregistered.
    disconnects :
        (w : ℕ)
        → (s.streams w).live ≡ true
        → t ≡ record {
          server = end_session C s.server w;
          streams = set_stream s.streams w (record (s.streams w) { live = false });
        }
        → Step s t
    -- Its pump writes a command.
    writes :
        (w : ℕ) (cmd : Command) (ws : Workers)
        → (s.streams w).live ≡ true
        → (s.streams w).pumping ≡ true
        → pump s.server.workers w ≡ some (cmd, ws)
        → t ≡ record {
          server = record (s.server) { workers = ws };
          streams =
              set_stream s.streams w
                (record (s.streams w) { wire = (s.streams w).wire ++ cmd ∷ [] });
        }
        → Step s t
    -- Its pump takes a command, fails to write it, and returns.
    fails :
        (w : ℕ) (cmd : Command) (ws : Workers)
        → (s.streams w).pumping ≡ true
        → pump s.server.workers w ≡ some (cmd, ws)
        → t ≡ record {
          server = record (s.server) { workers = ws };
          streams =
              set_stream s.streams w (record (s.streams w) { pumping = false; lost = cmd ∷ [] });
        }
        → Step s t
    -- Its pump sees that the context of the stream is done, and returns: at any time, also before
    -- the loop's `Recv` fails.
    stops :
        (w : ℕ)
        → t
          ≡ record s { streams = set_stream s.streams w (record (s.streams w) { pumping = false }) }
        → Step s t
    -- A caller that found `w` to be the current worker, then or before, puts a command into its
    -- channel.
    sends :
        (w : ℕ) (cmd : Command) (ws : Workers)
        → send (record { current = some w }) s.server.workers cmd ≡ sent ws
        → t ≡ record {
          server = record (s.server) { workers = ws };
          streams =
              set_stream s.streams w
                (record (s.streams w) { queued = (s.streams w).queued ++ cmd ∷ [] });
        }
        → Step s t
    -- `pending.add`, the end of a `ListFriends` without a reply, and the end with one.
    adds_friends :
        (id : String)
        → t
          ≡ record s { server = record (s.server) { pending = (open_call s.server.pending id).0 } }
        → Step s t
    leaves_friends :
        (id : String) → t ≡ record s { server = leave_friends C s.server id } → Step s t
    takes_friends :
        (id : String) (c : ℕ) (res : FriendsResult) (server : Server C)
        → take_friends C s.server id c ≡ some (res, server)
        → t ≡ record s { server = server }
        → Step s t
    -- The same of `Link`.
    adds_link :
        (id : String) (guard challenge : Option C)
        → t ≡ record s { server = (add_link C s.server id guard challenge).0 }
        → Step s t
    leaves_link : (id : String) → t ≡ record s { server = leave_link C s.server id } → Step s t
    takes_link :
        (id : String) (c : ℕ) (res : LinkResult) (server : Server C)
        → take_link C s.server id c ≡ some (res, server)
        → t ≡ record s { server = server }
        → Step s t

  pub data Reach (s : System) : System → Type 0 where
    here : Reach s s
    then_step : {t u : System} → Reach s t → Step t u → Reach s u
