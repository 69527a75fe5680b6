-- ===== src/Auth/Phc/Bounds.antt =====
-- The widths of what a stored hash brings into Argon2.
use dota_cuck.Prelude.{
  ℕ, ◌%◌, ◌^◌, ◌<◌, ◌≡◌, refl, Option, none, some, Bytes, arith, length, ◌>>=◌, is_empty, bytes_eq,
  codes, ◌&&◌, List, [], ◌∷◌,
}
use dota_cuck.Prelude.Result
use dota_cuck.Prelude.Result.{Result, ok, err, guard, or_fail}
use dota_cuck.Go.Decimal.{skip_space, scan_number, narrow, scan_uint, scan_char}
use dota_cuck.Go.Base64.{raw_std_encoding, decode_string}
use dota_cuck.Go.Split.{split}
use dota_cuck.Auth.Phc.{
  PasswordParams, PhcError, int_eq, version, decode_parts, decode_list, decode_phc,
}
use dota_cuck.Auth.Phc.Scan.{scan_version, scan_params}

bind_inv :
    {A B : Type 0} (m : Option A) (f : A → Option B) (b : B)
    → (m >>= f) ≡ some b
    → (a : A) × (m ≡ some a) × (f a ≡ some b)
bind_inv none f b h = absurd (ground arith)
bind_inv (some a) f b h = (a, refl, h)

narrow-lt :
    (bits : ℕ) (r : ℕ × Bytes) (n : ℕ) (rest : Bytes)
    → narrow bits r ≡ some (n, rest)
    → n < 2 ^ bits
narrow-lt bits (m, s) n rest h = ground arith

scan_uint-lt :
    (bits : ℕ) (s : Bytes) (n : ℕ) (rest : Bytes) → scan_uint bits s ≡ some (n, rest) → n < 2 ^ bits
unfolding scan_uint
scan_uint-lt bits s n rest h =
    let (t, _, h₁) = bind_inv (skip_space s) _ (n, rest) h in
    let (r, _, h₂) = bind_inv (scan_number t) _ (n, rest) h₁ in narrow-lt bits r n rest h₂

scan_params-lt :
    (s : Bytes) (m t p : ℕ)
    → scan_params s ≡ some (m, t, p)
    → (m < 2 ^ 32) × (t < 2 ^ 32) × (p < 2 ^ 8)
unfolding scan_params
scan_params-lt s m t p h =
    let (a, _, ha) = bind_inv (scan_char b'm' s) _ _ h in
    let (b, _, hb) = bind_inv (scan_char b'=' a) _ _ ha in
    let ((m', c), memory, hc) = bind_inv (scan_uint 32 b) _ _ hb in
    let (e, _, he) = bind_inv (scan_char b',' c) _ _ hc in
    let (f, _, hf) = bind_inv (scan_char b't' e) _ _ he in
    let (g, _, hg) = bind_inv (scan_char b'=' f) _ _ hf in
    let ((t', i), time, hi) = bind_inv (scan_uint 32 g) _ _ hg in
    let (j, _, hj) = bind_inv (scan_char b',' i) _ _ hi in
    let (k, _, hk) = bind_inv (scan_char b'p' j) _ _ hj in
    let (l, _, hl) = bind_inv (scan_char b'=' k) _ _ hk in
    let ((p', rest), threads, hn) = bind_inv (scan_uint 8 l) _ _ hl in
    ground (
      arith,
      scan_uint-lt 32 b m' c memory,
      scan_uint-lt 32 g t' i time,
      scan_uint-lt 8 l p' rest threads,
    )

ok_inv :
    {E A B : Type 0} (m : Result E A) (f : A → Result E B) (b : B)
    → Result.◌>>=◌ m f ≡ ok b
    → (a : A) × (m ≡ ok a) × (f a ≡ ok b)
ok_inv (ok a) f b h = (a, refl, h)
ok_inv (err e) f b h = absurd (ground arith)

or_fail_inv : {E A : Type 0} (o : Option A) (e : E) (a : A) → or_fail o e ≡ ok a → o ≡ some a
or_fail_inv none e a h = absurd (ground arith)
or_fail_inv (some b) e a h = ground arith

-- The parameters of a decoded hash are within the widths of Argon2's arguments.
record InRange (p : PasswordParams) (key : Bytes) : Type 0 where
  time : p.time < 2 ^ 32
  memory : p.memory < 2 ^ 32
  threads : p.threads < 2 ^ 8
  key_len : p.key_len ≡ length key % 2 ^ 32

decode_parts-InRange :
    (p₀ p₁ p₂ p₃ p₄ p₅ : Bytes) (p : PasswordParams) (salt key : Bytes)
    → decode_parts p₀ p₁ p₂ p₃ p₄ p₅ ≡ ok (p, salt, key)
    → InRange p key
unfolding decode_parts
decode_parts-InRange p₀ p₁ p₂ p₃ p₄ p₅ p salt key h =
    let (_, _, h₁) =
      ok_inv (guard (is_empty p₀ && bytes_eq p₁ (codes "argon2id")) PhcError.malformed_hash) _ _
        h in
    let (v, _, h₂) = ok_inv (or_fail (scan_version p₂) PhcError.parse_version) _ _ h₁ in
    let (_, _, h₃) = ok_inv (guard (int_eq v version) (PhcError.unsupported_version v)) _ _ h₂ in
    let ((m, t, n), scanned, h₄) = ok_inv (or_fail (scan_params p₃) PhcError.parse_params) _ _ h₃ in
    let (s, _, h₅) =
      ok_inv (or_fail (decode_string raw_std_encoding p₄) PhcError.decode_salt) _ _ h₄ in
    let (k, _, h₆) =
      ok_inv (or_fail (decode_string raw_std_encoding p₅) PhcError.decode_hash) _ _ h₅ in
    let small =
      scan_params-lt p₃ m t n
        (or_fail_inv (scan_params p₃) PhcError.parse_params (m, t, n) scanned) in
    record {
      time = ground arith;
      memory = ground arith;
      threads = ground arith;
      key_len = ground arith;
    }

decode_list-InRange :
    (parts : List Bytes) (p : PasswordParams) (salt key : Bytes)
    → decode_list parts ≡ ok (p, salt, key)
    → InRange p key
unfolding decode_list
decode_list-InRange (a ∷ b ∷ c ∷ e ∷ f ∷ g ∷ []) p salt key h =
    decode_parts-InRange a b c e f g p salt key h
decode_list-InRange _ p salt key h = absurd (ground arith)

-- Whatever text is decoded, the numbers that it brings into Argon2 fit their types: 32 bits for the
-- rounds and the memory, 8 for the threads, and the length of the key that comes out of it, wrapped
-- to 32 bits, for the length of the key to derive.
pub decode_phc_bounds :
    (s : Bytes) (p : PasswordParams) (salt key : Bytes)
    → decode_phc s ≡ ok (p, salt, key)
    → (p.time < 2 ^ 32)
      × (p.memory < 2 ^ 32)
      × (p.threads < 2 ^ 8)
      × (p.key_len ≡ length key % 2 ^ 32)
unfolding decode_phc
decode_phc_bounds s p salt key h =
    let r = decode_list-InRange (split b'$' s) p salt key h in
    (r.time, r.memory, r.threads, r.key_len)
