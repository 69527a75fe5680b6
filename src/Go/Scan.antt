-- ===== src/Go/Scan.antt =====
-- `fmt.Sscanf` into an `int`, which takes a sign.
use dota_cuck.Prelude.{
  ℕ, zero, suc, ◌^◌, ◌<◌, ◌≡◌, Bool, true, false, Option, none, some, [], ◌∷◌, ◌++◌, arith, Bytes,
  ltb, ◌==◌, if◌then◌else◌, ◌>>=◌,
}
use dota_cuck.Go.Decimal.{
  skip_space, scan_number, format_uint, StopsDigits, scan_number-format_uint,
  skip_space-format_uint, format_uint_head,
}

-- `negsuc n` is -(n + 1).
pub data ℤ : Type 0 where
  pos : ℕ → ℤ
  negsuc : ℕ → ℤ

-- A sign, true for `-`, and the text after it.
unfoldable pub accept_sign : Bytes → Bool × Bytes
accept_sign [] = (false, [])
accept_sign (c ∷ s) =
    if c == b'-' then (true, s) else if c == b'+' then (false, s) else (false, c ∷ s)

abbrev pub signed : Bool → ℕ → ℤ
signed false n = pos n
signed true zero = pos 0
signed true (suc n) = negsuc n

-- An `int` has 64 bits.
abbrev pub narrow_int : Bool → ℕ × Bytes → Option (ℤ × Bytes)
narrow_int neg (n, rest) =
    if ltb n (2 ^ 63)
    then some (signed neg n, rest)
    else if neg
    then if n == 2 ^ 63 then some (signed neg n, rest) else none
    else none

unfoldable pub scan_int : Bytes → Option (ℤ × Bytes)
unfolding skip_space accept_sign scan_number
scan_int s = do t ← skip_space s; let (neg, u) = accept_sign t; r ← scan_number u; narrow_int neg r

accept_sign-format_uint :
    (n : ℕ) (rest : Bytes) → accept_sign (format_uint n ++ rest) ≡ (false, format_uint n ++ rest)
unfolding accept_sign
accept_sign-format_uint n rest = let (c, s, e, d) = format_uint_head n rest in rw e (ground arith)

-- `%d` into an `int` reads back every number below 2^63 that `%d` prints, if no digit follows it.
pub scan_int-format_uint :
    (n : ℕ) (rest : Bytes)
    → n < 2 ^ 63
    → StopsDigits rest
    → scan_int (format_uint n ++ rest) ≡ some (pos n, rest)
unfolding scan_int
scan_int-format_uint n rest fits stops =
    rw
      (
        skip_space-format_uint n rest,
        accept_sign-format_uint n rest,
        scan_number-format_uint n rest stops,
      )
      (ground arith)
