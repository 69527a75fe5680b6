-- ===== src/Api/Hub.antt =====
-- control-plane/internal/api/ws.go: the set of connected WebSocket clients, and what a broadcast
-- tries to write to them. A client is its pointer. The order of the writes is that of a Go map, which
-- is not specified.
pub mod Delivery
pub mod Serving
use dota_cuck.Prelude.{ℕ, List, [], ◌∷◌, map, ◌==◌, if◌then◌else◌}
use dota_cuck.Api.Events.{PushEvent}

pub record Hub : Type 0 where
  pub clients : List ℕ

-- `NewHub`
unfoldable pub new_hub : Hub
new_hub = record { clients = [] }

unfoldable pub without : ℕ → List ℕ → List ℕ
without c [] = []
without c (x ∷ xs) = let rest = without c xs in if c == x then rest else x ∷ rest

-- `remove`: `delete(h.clients, c)`
unfoldable pub remove_client : Hub → ℕ → Hub
remove_client h c = record { clients = without c h.clients }

-- `add`: `h.clients[c] = struct{}{}`
unfoldable pub add_client : Hub → ℕ → Hub
add_client h c = record { clients = c ∷ without c h.clients }

-- `Broadcast`: the writes that it tries, one for each client of the snapshot that it takes under the
-- lock.
unfoldable pub broadcast_event : Hub → PushEvent → List (ℕ × PushEvent)
broadcast_event h ev = map (λ c. (c, ev)) h.clients
