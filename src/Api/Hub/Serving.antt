-- ===== src/Api/Hub/Serving.antt =====
-- control-plane/internal/api/ws.go, `ServeHTTP`: the handlers of all connections over one hub, in any
-- order of their steps. The upgrade and the reads are the websocket library's.
pub mod Reached
mod Tests
use dota_cuck.Prelude.{
  ℕ, suc, ◌≡◌, Bool, true, false, List, [], ◌∷◌, Bytes, ◌==◌, ◌&&◌, if◌then◌else◌,
}
use dota_cuck.Api.Events.{PushEvent}
use dota_cuck.Api.Events.Wire.{marshal}
use dota_cuck.Api.Hub.{Hub, new_hub, add_client, remove_client, broadcast_event}

-- `running` tells the clients whose handlers have added them and not yet removed them, `made` how
-- many clients were made.
pub record Serving : Type 0 where
  pub hub : Hub
  pub running : ℕ → Bool
  pub made : ℕ

unfoldable pub no_connection : Serving
unfolding new_hub
no_connection = record { hub = new_hub; running = λ c. false; made = 0 }

abbrev pub set_running : (ℕ → Bool) → ℕ → Bool → ℕ → Bool
set_running running c now d = if c == d then now else running d

pub data ServeStep (s t : Serving) : Type 0 where
  -- `websocket.Accept` fails.
  refuses : t ≡ s → ServeStep s t
  -- It succeeds: the new client is added.
  accepts :
      t ≡ record {
        hub = add_client s.hub s.made;
        running = set_running s.running s.made true;
        made = suc s.made;
      }
      → ServeStep s t
  -- A message is read and dropped.
  reads : (c : ℕ) → s.running c ≡ true → t ≡ s → ServeStep s t
  -- A read fails: the client is removed, and the handler returns.
  ends :
      (c : ℕ)
      → s.running c ≡ true
      → t ≡ record s { hub = remove_client s.hub c; running = set_running s.running c false }
      → ServeStep s t

pub data Served : Serving → Serving → Type 0 where
  here : {s : Serving} → Served s s
  after : {s t u : Serving} → Served s t → ServeStep t u → Served s u

-- The texts that the writes bring to a client, where each write returns; `arrives` tells for which
-- clients `conn.Write` gives no error. A write with an error is logged, and the next one is tried.
unfoldable pub texts_to : (ℕ → Bool) → ℕ → List (ℕ × PushEvent) → List Bytes
texts_to arrives c [] = []
texts_to arrives c ((d, ev) ∷ ws) =
    let rest = texts_to arrives c ws in if d == c && arrives c then marshal ev ∷ rest else rest
