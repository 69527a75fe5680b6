-- ===== src/Api.antt =====
-- control-plane/internal/api: the HTTP handlers over the stores, the key cache and the tokens, the
-- WebSocket events, and the account links they start; with the adapters of cmd/server/main.go.
pub mod Models
pub mod Requests
pub mod Responses
pub mod Events
pub mod Bearer
pub mod SplitJwt
pub mod State
pub mod Accounts
pub mod Friends
pub mod Router
pub mod LinkProvider
pub mod Hub
mod Samples
mod Tests
