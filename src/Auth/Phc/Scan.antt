-- ===== src/Auth/Phc/Scan.antt =====
-- The two calls of `fmt.Sscanf` in `decodePHC`. What follows the last number is not read.
use dota_cuck.Prelude.{ℕ, Option, some, Bytes, ◌>>=◌}
use dota_cuck.Go.Decimal.{scan_uint, scan_char}
use dota_cuck.Go.Scan.{ℤ, scan_int}

-- `fmt.Sscanf(s, "v=%d", &version)`
unfoldable pub scan_version : Bytes → Option ℤ
unfolding scan_char scan_int
scan_version s = do a ← scan_char b'v' s; b ← scan_char b'=' a; (v, rest) ← scan_int b; some v

-- `fmt.Sscanf(s, "m=%d,t=%d,p=%d", &p.Memory, &p.Time, &p.Threads)`
unfoldable pub scan_params : Bytes → Option (ℕ × ℕ × ℕ)
unfolding scan_char scan_uint
scan_params s = do
  a ← scan_char b'm' s
  b ← scan_char b'=' a
  (m, c) ← scan_uint 32 b
  d ← scan_char b',' c
  e ← scan_char b't' d
  f ← scan_char b'=' e
  (t, g) ← scan_uint 32 f
  h ← scan_char b',' g
  i ← scan_char b'p' h
  j ← scan_char b'=' i
  (p, rest) ← scan_uint 8 j
  some (m, t, p)
