-- ===== src/Auth/StandIns.antt =====
-- Concrete values of the parameters of internal/auth, for the tests: they show that the laws asked
-- of the primitives can hold together.
use dota_cuck.Prelude.{
  ℕ, zero, suc, ◌+◌, ◌*◌, ◌≤◌, ◌<◌, ◌≡◌, refl, ap, Bool, true, ◌&&◌, ◌||◌, Option, none, some, List,
  [], ◌∷◌, ◌++◌, arith, String, Bytes, codes, AreBytes, length, length-append, ◌%◌, bytes_eq,
  bytes_eq_refl, ltb, ◌==◌, if◌then◌else◌, str_eq, eq_iff,
}
use dota_cuck.Auth.Primitives.{Argon2, Aead, Random, IsRandom}
use dota_cuck.Auth.Jwt.{RegisteredClaims, JwtLibrary, second}

abbrev pub replicate : ℕ → ℕ → Bytes
replicate zero a = []
replicate (suc n) a = a ∷ replicate n a

pub length-replicate : (n a : ℕ) → length (replicate n a) ≡ n
length-replicate zero a = refl
length-replicate (suc n) a = ap suc (length-replicate n a)

pub replicate-AreBytes : (n a : ℕ) → a < 256 → AreBytes (replicate n a)
replicate-AreBytes zero a h = tt
replicate-AreBytes (suc n) a h = (h, replicate-AreBytes n a h)

abbrev pub sum : Bytes → ℕ
sum [] = 0
sum (c ∷ s) = c + sum s

-- Repeats a checksum of the password and the salt.
abbrev pub checksum : Bytes → Bytes → ℕ → ℕ → ℕ → ℕ → Option Bytes
checksum pw salt t m p n =
    if t == 0 || p == 0 then none else some (replicate n ((sum pw + sum salt) % 256))

pub checksum_no_rounds : (pw salt : Bytes) (m p n : ℕ) → checksum pw salt 0 m p n ≡ none
checksum_no_rounds pw salt m p n = ground arith

pub checksum_no_threads : (pw salt : Bytes) (t m n : ℕ) → checksum pw salt t m 0 n ≡ none
checksum_no_threads pw salt t m n = ground arith

pub checksum_runs :
    (pw salt : Bytes) (t m p n : ℕ)
    → 1 ≤ t
    → 1 ≤ p
    → 1 ≤ n
    → (k : Bytes) × (checksum pw salt t m p n ≡ some k) × (length k ≡ n) × AreBytes k
checksum_runs pw salt t m p n ht hp hn = (
  replicate n ((sum pw + sum salt) % 256),
  ground arith,
  length-replicate n _,
  replicate-AreBytes n _ (omega arith),
)

abbrev pub toy_argon : Argon2
toy_argon = record {
  id_key = checksum;
  no_rounds = checksum_no_rounds;
  no_threads = checksum_no_threads;
  runs = checksum_runs;
}

abbrev pub toy_hmac : Bytes → Bytes → Bytes
toy_hmac key message = key ++ message

abbrev pub strip : Bytes → Bytes → Option Bytes
strip [] s = some s
strip (c ∷ p) [] = none
strip (c ∷ p) (d ∷ s) = if c == d then strip p s else none

pub strip-append : (p s : Bytes) → strip p (p ++ s) ≡ some s
strip-append [] s = refl
strip-append (c ∷ p) s = ground (arith, strip-append p s)

pub strip_sound : (p c s : Bytes) → strip p c ≡ some s → c ≡ p ++ s
strip_sound [] c s h = ground arith
strip_sound (x ∷ p) [] s h = absurd (ground arith)
strip_sound (x ∷ p) (y ∷ c) s h = ground (arith, strip_sound p c s)

pub toy_seal_tagged :
    (key nonce plain : Bytes)
    → length key ≡ 32
    → length nonce ≡ 12
    → 16 ≤ length ((key ++ nonce) ++ plain)
toy_seal_tagged key nonce plain hk hn =
    omega (arith, length-append (key ++ nonce) plain, length-append key nonce)

-- Puts the key and the nonce in front.
abbrev pub toy_aead : Aead
toy_aead = record {
  seal = λ key nonce plain. (key ++ nonce) ++ plain;
  unseal = λ key nonce cipher. strip (key ++ nonce) cipher;
  unseal-seal = λ key nonce plain hk hn. strip-append (key ++ nonce) plain;
  seal_tagged = toy_seal_tagged;
  unseal_authentic = λ key nonce cipher plain h. strip_sound (key ++ nonce) cipher plain h;
}

abbrev pub toy_random : Random
toy_random n = some (replicate n 7)

pub toy_random-IsRandom : IsRandom toy_random
toy_random-IsRandom n bs h =
    ground (arith, length-replicate n 7, replicate-AreBytes n 7 (omega arith))

abbrev pub toy_secret : Bytes
toy_secret = codes "sec"

abbrev pub toy_token : Bytes
toy_token = codes "tok"

-- The claims that the stand-in signs: issued at 5 s for one minute.
abbrev pub toy_claims : RegisteredClaims
toy_claims = record { subject = "id-1"; issued_at = 5; expires_at = 65 }

abbrev pub are_toy_claims : RegisteredClaims → Bool
are_toy_claims c = str_eq c.subject "id-1" && (c.issued_at == 5 && c.expires_at == 65)

eq_of_are_toy_claims : (c : RegisteredClaims) → are_toy_claims c ≡ true → c ≡ toy_claims
eq_of_are_toy_claims c h = ground (arith, eq_iff c.subject "id-1")

abbrev pub toy_sign : String → Bytes → RegisteredClaims → Option Bytes
toy_sign alg secret c = if str_eq alg "HS256" && are_toy_claims c then some toy_token else none

abbrev pub toy_parse : List String → Bytes → ℕ → Bytes → Option (RegisteredClaims × Bool)
toy_parse algs secret now token =
    if bytes_eq token toy_token && ltb now (65 * second) then some (toy_claims, true) else none

pub toy_parse_valid :
    (alg : String) (secret : Bytes) (claims : RegisteredClaims) (now : ℕ) (token : Bytes)
    → toy_sign alg secret claims ≡ some token
    → now < claims.expires_at * second
    → toy_parse (alg ∷ []) secret now token ≡ some (claims, true)
toy_parse_valid alg secret claims now token h lt =
    ground (arith, eq_of_are_toy_claims claims, bytes_eq_refl toy_token)

pub toy_parse_expired :
    (alg : String) (secret : Bytes) (claims : RegisteredClaims) (now : ℕ) (token : Bytes)
    → toy_sign alg secret claims ≡ some token
    → claims.expires_at * second ≤ now
    → toy_parse (alg ∷ []) secret now token ≡ none
toy_parse_expired alg secret claims now token h le = ground (arith, eq_of_are_toy_claims claims)

abbrev pub toy_jwt : JwtLibrary
toy_jwt = record {
  signed_string = toy_sign;
  parse = toy_parse;
  parse-signed_string = toy_parse_valid;
  parse_expired = toy_parse_expired;
}
