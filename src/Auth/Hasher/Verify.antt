-- ===== src/Auth/Hasher/Verify.antt =====
-- Which passwords a stored hash verifies.
use dota_cuck.Prelude.{
  ◌^◌, ◌≤◌, ◌<◌, ◌≡◌, ap, ◌∙◌, true, none, some, arith, Bytes, AreBytes, length, bytes_eq,
  bytes_eq_refl, ◌>>=◌,
}
use dota_cuck.Prelude.Result.{ok}
use dota_cuck.Auth.Primitives.{Argon2, Random, IsRandom}
use dota_cuck.Auth.Phc.{PasswordParams, encode_phc}
use dota_cuck.Auth.Phc.RoundTrip.{Fits, relengthened, decode_phc-encode_phc}
use dota_cuck.Auth.Hasher.{Hasher, peppered_key, derive, hash, verify}

-- Parameters that Argon2 takes and that the PHC string can hold.
pub record IsUsable (p : PasswordParams) : Type 0 where
  pub fits : Fits p
  pub some_rounds : 1 ≤ p.time
  pub some_threads : 1 ≤ p.threads
  pub some_output : 1 ≤ p.key_len
  pub key_len_fits : p.key_len < 2 ^ 32
  pub salt_len_fits : p.salt_len < 2 ^ 32

relengthened_self :
    (p : PasswordParams) (salt key : Bytes)
    → IsUsable p
    → length salt ≡ p.salt_len
    → length key ≡ p.key_len
    → relengthened p salt key ≡ p
relengthened_self p salt key u hs hk = ground arith

module _ (hmac : Bytes → Bytes → Bytes) (argon : Argon2) where
  verify-encode_phc :
      (g : Hasher) (password : Bytes) (p : PasswordParams) (salt key : Bytes)
      → Fits p
      → AreBytes salt
      → AreBytes key
      → verify hmac argon g password (encode_phc p salt key) ≡ (
          derive hmac argon g password salt (relengthened p salt key) >>= λ got.
          some (ok (bytes_eq got key)))
  unfolding verify
  verify-encode_phc g password p salt key fits hs hk =
      rw (decode_phc-encode_phc p salt key fits hs hk)

  derive_pepper :
      (g h : Hasher) (password salt : Bytes) (p : PasswordParams)
      → g.pepper ≡ h.pepper
      → derive hmac argon g password salt p ≡ derive hmac argon h password salt p
  unfolding derive peppered_key
  derive_pepper g h password salt p e = rw e

  derive_runs :
      (h : Hasher) (password salt : Bytes) (p : PasswordParams)
      → IsUsable p
      → (key : Bytes) × (derive hmac argon h password salt p ≡ some key)
        × (length key ≡ p.key_len)
        × AreBytes key
  unfolding derive
  derive_runs h password salt p u =
      argon.runs _ salt p.time p.memory p.threads p.key_len u.some_rounds u.some_threads
        u.some_output

  hash_lem :
      (random : Random) (h : Hasher) (password salt key : Bytes)
      → random h.params.salt_len ≡ some salt
      → derive hmac argon h password salt h.params ≡ some key
      → hash hmac argon random h password ≡ some (ok (encode_phc h.params salt key))
  unfolding hash
  hash_lem random h password salt key r d = rw (r, hash, d)

  verify_any :
      (h g : Hasher) (other salt key : Bytes)
      → IsUsable h.params
      → (length salt ≡ h.params.salt_len) × AreBytes salt
      → (length key ≡ h.params.key_len) × AreBytes key
      → verify hmac argon g other (encode_phc h.params salt key)
        ≡ (derive hmac argon g other salt h.params >>= λ got. some (ok (bytes_eq got key)))
  verify_any h g other salt key u (ls, bs) (lk, bk) =
      verify-encode_phc g other h.params salt key u.fits bs bk
      ∙ ap (λ p. derive hmac argon g other salt p >>= λ got. some (ok (bytes_eq got key)))
          (relengthened_self h.params salt key u ls lk)

  -- `Hash` with usable parameters and a working random source returns a string (it neither fails
  -- nor panics). On that string every hasher `g`, for every password, answers whether the key that
  -- it derives from that password, with the salt and the parameters the string was made with, is
  -- the key in the string.
  pub verify-hash :
      (random : Random) (h : Hasher) (password salt : Bytes)
      → IsRandom random
      → IsUsable h.params
      → random h.params.salt_len ≡ some salt
      → (e : Bytes) × (key : Bytes) × (hash hmac argon random h password ≡ some (ok e))
        × (derive hmac argon h password salt h.params ≡ some key)
        × ((g : Hasher) (other : Bytes)
            → verify hmac argon g other e
              ≡ (derive hmac argon g other salt h.params >>= λ got. some (ok (bytes_eq got key))))
  verify-hash random h password salt good u r =
      let hs = good h.params.salt_len salt r in
      let (key, d, lk, bk) = derive_runs h password salt h.params u in
      (
        encode_phc h.params salt key,
        key,
        hash_lem random h password salt key r d,
        d,
        λ g other. verify_any h g other salt key u hs (lk, bk),
      )

  -- The password that was hashed is accepted by every hasher with the same pepper, also one with
  -- other parameters.
  pub verify-hash_same :
      (random : Random) (h g : Hasher) (password salt : Bytes)
      → IsRandom random
      → IsUsable h.params
      → random h.params.salt_len ≡ some salt
      → g.pepper ≡ h.pepper
      → (e : Bytes) × (hash hmac argon random h password ≡ some (ok e))
        × (verify hmac argon g password e ≡ some (ok true))
  verify-hash_same random h g password salt good u r same =
      let (e, key, he, d, any) = verify-hash random h password salt good u r in
      (
        e,
        he,
        any g password ∙ rw (derive_pepper g h password salt h.params same, d, bytes_eq_refl key),
      )

  -- A well-formed stored hash with no rounds makes `Verify` panic instead of returning an error.
  verify_panics :
      (h : Hasher) (password : Bytes) (p : PasswordParams) (salt key : Bytes)
      → Fits p
      → AreBytes salt
      → AreBytes key
      → p.time ≡ 0
      → verify hmac argon h password (encode_phc p salt key) ≡ none
  unfolding derive
  verify_panics h password p salt key fits hs hk zero_time =
      verify-encode_phc h password p salt key fits hs hk
      ∙ rw (zero_time, argon.no_rounds _ salt p.memory p.threads _)
