-- ===== src/Auth.antt =====
-- control-plane/internal/auth: password hashing, the encryption of Steam credentials, the cache of
-- their keys, and the bearer tokens.
pub mod Primitives
pub mod Phc
pub mod Hasher
pub mod Crypto
pub mod KeyCache
pub mod Jwt
pub mod StandIns
mod Tests
