-- ===== src/Workers.antt =====
-- control-plane/internal/workers: the registry of the connected worker, the tables that match a
-- worker's replies with the calls that wait for them, and the stream's event handler.
pub mod Messages
pub mod Registry
pub mod Pending
pub mod Server
pub mod Streams
pub mod RequestIds
mod Tests
