-- ===== src/Auth/KeyCache.antt =====
-- control-plane/internal/auth/keycache.go. The clock is an argument of each call, in nanoseconds; a
-- method runs under the mutex from start to end, so calls are steps one after another.
pub mod History
use dota_cuck.Prelude.{
  ℕ, ◌+◌, String, Bool, Option, none, some, Bytes, Dict, empty, put, remove, ltb, if◌then◌else◌,
}

pub record CacheEntry : Type 0 where
  pub key : Bytes
  pub expires : ℕ

pub record KeyCache : Type 0 where
  pub ttl : ℕ
  pub entries : Dict CacheEntry

unfoldable pub new_key_cache : ℕ → KeyCache
new_key_cache ttl = record { ttl = ttl; entries = empty }

-- `Put`
unfoldable pub put_key : KeyCache → String → Bytes → ℕ → KeyCache
put_key c user_id key now = record c {
  entries = put c.entries user_id (record { key = key; expires = now + c.ttl });
}

-- `Delete`
unfoldable pub delete_key : KeyCache → String → KeyCache
delete_key c user_id = record c { entries = remove c.entries user_id }

-- `Get`: the cache comes back with the key, since an expired entry is evicted.
unfoldable pub get_key : KeyCache → String → ℕ → KeyCache × Option Bytes
unfolding delete_key
get_key c user_id now = elim (c.entries user_id) [
  | none ↦ (c, none)
  | some e ↦ if ltb now e.expires then (c, some e.key) else (delete_key c user_id, none)
]
