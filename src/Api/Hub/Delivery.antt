-- ===== src/Api/Hub/Delivery.antt =====
-- Whom a broadcast reaches.
use dota_cuck.Prelude.{
  ℕ, ◌+◌, ◌≡◌, refl, Bool, true, false, List, [], ◌∷◌, map, arith, ◌==◌, if◌then◌else◌,
}
use dota_cuck.Api.Events.{PushEvent}
use dota_cuck.Api.Hub.{Hub, new_hub, without, add_client, remove_client, broadcast_event}

-- A connection of a client, and its end.
pub data Connection : Type 0 where
  joins leaves : ℕ → Connection

abbrev step : Hub → Connection → Hub
step h (joins c) = add_client h c
step h (leaves c) = remove_client h c

abbrev run : Hub → List Connection → Hub
run h [] = h
run h (e ∷ es) = run (step h e) es

-- Whether the last of the connections that concern the client is one that joins.
abbrev pub is_connected : Bool → List Connection → ℕ → Bool
is_connected now [] c = now
is_connected now (joins d ∷ es) c = is_connected (if d == c then true else now) es c
is_connected now (leaves d ∷ es) c = is_connected (if d == c then false else now) es c

-- How often the event is written to the client.
abbrev pub writes_to : ℕ → List (ℕ × PushEvent) → ℕ
writes_to c [] = 0
writes_to c ((d, ev) ∷ ws) = (if d == c then 1 else 0) + writes_to c ws

abbrev pub writes : Bool → ℕ
writes b = if b then 1 else 0

writes-without :
    (c d : ℕ) (ev : PushEvent) (xs : List ℕ)
    → writes_to c (map (λ x. (x, ev)) (without d xs))
      ≡ (if d == c then 0 else writes_to c (map (λ x. (x, ev)) xs))
unfolding without
writes-without c d ev [] = ground arith
writes-without c d ev (x ∷ xs) = ground (arith, writes-without c d ev xs)

pub writes-run :
    (h : Hub) (es : List Connection) (c : ℕ) (ev : PushEvent) (now : Bool)
    → writes_to c (broadcast_event h ev) ≡ writes now
    → writes_to c (broadcast_event (run h es) ev) ≡ writes (is_connected now es c)
unfolding broadcast_event add_client remove_client
writes-run h [] c ev now e = e
writes-run h (joins d ∷ es) c ev now e =
    writes-run (add_client h d) es c ev (if d == c then true else now)
      (ground (arith, writes-without c d ev h.clients))
writes-run h (leaves d ∷ es) c ev now e =
    writes-run (remove_client h d) es c ev (if d == c then false else now)
      (ground (arith, writes-without c d ev h.clients))

-- After any connections and disconnections, a broadcast writes the event once to every client that
-- is connected, however often it was added, and to no other.
broadcast_reaches :
    (es : List Connection) (c : ℕ) (ev : PushEvent)
    → writes_to c (broadcast_event (run new_hub es) ev) ≡ (if is_connected false es c then 1 else 0)
unfolding new_hub broadcast_event
broadcast_reaches es c ev = writes-run new_hub es c ev false refl
