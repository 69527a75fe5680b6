-- ===== src/Store.antt =====
-- control-plane/internal/store over the schema of control-plane/db/migrations: two tables, and the
-- statements that the stores send. PostgreSQL runs a statement whole, so each is one step.
mod Table
mod Schema
pub mod Indexes
pub mod Users
pub mod SteamAccounts
pub mod Pool
pub mod WellFormed
pub mod Answers
mod Tests
unfoldable pub use Table.{UniqueBy, find, any_row, has_key}
pub use Schema.*
