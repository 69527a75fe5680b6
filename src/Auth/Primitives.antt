-- ===== src/Auth/Primitives.antt =====
-- What internal/auth calls outside this repository or of Go's cryptography: Argon2id
-- (golang.org/x/crypto/argon2), AES-256-GCM and the random source.
use dota_cuck.Prelude.{ℕ, ◌≤◌, ◌≡◌, Option, none, some, Bytes, AreBytes, length}

-- `argon2.IDKey password salt time memory threads keyLen`; `none` is its panic on no rounds or no
-- threads. The output is as long as asked.
pub record Argon2 : Type 0 where
  pub id_key : Bytes → Bytes → ℕ → ℕ → ℕ → ℕ → Option Bytes
  pub no_rounds : (pw salt : Bytes) (m p n : ℕ) → id_key pw salt 0 m p n ≡ none
  pub no_threads : (pw salt : Bytes) (t m n : ℕ) → id_key pw salt t m 0 n ≡ none
  pub runs :
      (pw salt : Bytes) (t m p n : ℕ)
      → 1 ≤ t
      → 1 ≤ p
      → 1 ≤ n
      → (k : Bytes) × (id_key pw salt t m p n ≡ some k) × (length k ≡ n) × AreBytes k

-- GCM under a 32-byte key and a 12-byte nonce, with no additional data: what was sealed opens,
-- nothing else does, and a tag of 16 bytes is part of the ciphertext.
pub record Aead : Type 0 where
  pub seal : Bytes → Bytes → Bytes → Bytes
  pub unseal : Bytes → Bytes → Bytes → Option Bytes
  pub unseal-seal :
      (key nonce plain : Bytes)
      → length key ≡ 32
      → length nonce ≡ 12
      → unseal key nonce (seal key nonce plain) ≡ some plain
  pub seal_tagged :
      (key nonce plain : Bytes)
      → length key ≡ 32
      → length nonce ≡ 12
      → 16 ≤ length (seal key nonce plain)
  pub unseal_authentic :
      (key nonce cipher plain : Bytes)
      → unseal key nonce cipher ≡ some plain
      → cipher ≡ seal key nonce plain

-- `rand.Read` into a slice of the given length; `none` is its error.
abbrev pub Random : Type 0
Random = ℕ → Option Bytes

-- A read fills the slice.
abbrev pub IsRandom : Random → Type 0
IsRandom random = (n : ℕ) (bs : Bytes) → random n ≡ some bs → (length bs ≡ n) × AreBytes bs
