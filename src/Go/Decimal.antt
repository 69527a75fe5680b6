-- ===== src/Go/Decimal.antt =====
-- `%d`: printing an unsigned number, and reading one by `fmt.Sscanf`. An input is read as ASCII:
-- the white space above U+007F that `Sscanf` would skip is an error here.
use dota_cuck.Prelude.{
  ℕ, zero, suc, ◌+◌, ◌-◌, ◌*◌, ◌/◌, ◌%◌, ◌^◌, ◌<◌, ◌≡◌, refl, Bool, true, false, ◌&&◌, ◌||◌, Option,
  none, some, [], ◌∷◌, ◌++◌, arith, Bytes, ltb, leb, ◌==◌, if◌then◌else◌, ◌>>=◌, All, Bool-cases,
  inl, inr,
}

-- One digit a round, the last digit first; the fuel runs out only below the number of digits.
digits : ℕ → ℕ → Bytes → Bytes
digits zero n out = out
digits (suc f) n out =
    let last = (b'0' + n % 10) ∷ out in
    let rest = digits f (n / 10) last in if ltb n 10 then last else rest

unfoldable pub format_uint : ℕ → Bytes
unfolding digits
format_uint n = digits (suc n) n []

abbrev pub is_digit : ℕ → Bool
is_digit c = leb b'0' c && leb c b'9'

-- The longest run of digits, added behind `n`, and the text after it.
unfoldable pub digit_run : ℕ → Bytes → ℕ × Bytes
digit_run n [] = (n, [])
digit_run n (c ∷ s) =
    let rest = digit_run (n * 10 + (c - b'0')) s in if is_digit c then rest else (n, c ∷ s)

abbrev is_space : ℕ → Bool
is_space c = c == b' ' || c == 9 || c == 11 || c == 12 || c == 13

-- `ss.SkipSpace`, where a new line is an error.
unfoldable pub skip_space : Bytes → Option Bytes
skip_space [] = some []
skip_space (c ∷ s) =
    let rest = skip_space s in if c == 10 then none else if is_space c then rest else some (c ∷ s)

-- The digits of a token; `none` where there is none.
unfoldable pub scan_number : Bytes → Option (ℕ × Bytes)
unfolding digit_run
scan_number [] = none
scan_number (c ∷ s) = if is_digit c then some (digit_run 0 (c ∷ s)) else none

-- A number of the given width, else an error.
abbrev pub narrow : ℕ → ℕ × Bytes → Option (ℕ × Bytes)
narrow bits (n, rest) = if ltb n (2 ^ bits) then some (n, rest) else none

-- `%d` into an unsigned variable.
unfoldable pub scan_uint : ℕ → Bytes → Option (ℕ × Bytes)
unfolding skip_space scan_number
scan_uint bits s = do t ← skip_space s; r ← scan_number t; narrow bits r

-- A literal character of the format.
unfoldable pub scan_char : ℕ → Bytes → Option Bytes
scan_char c [] = none
scan_char c (d ∷ s) = if c == d then some s else none

-- The text starts with no digit.
abbrev pub StopsDigits : Bytes → Type 0
StopsDigits [] = Unit
StopsDigits (c ∷ s) = is_digit c ≡ false

digit_run_stop : (n : ℕ) (s : Bytes) → StopsDigits s → digit_run n s ≡ (n, s)
unfolding digit_run
digit_run_stop n [] h = refl
digit_run_stop n (c ∷ s) h = rw h

-- Reading the digits that `digits` prints goes on behind them with their number.
digit_run-digits : (f n : ℕ) (out : Bytes) → n < f → digit_run 0 (digits f n out) ≡ digit_run n out
unfolding digits
digit_run-digits zero n out h = absurd (omega arith)
digit_run-digits (suc f) n out h = elim (Bool-cases (ltb n 10)) [
  | inl small ↦ rw small (unfold digit_run in ground arith)
  | inr big ↦
      rw (big, digit_run-digits f (n / 10) _ (ground arith)) (unfold digit_run in ground arith)
]

abbrev HeadIsDigit : Bytes → Type 0
HeadIsDigit [] = ⊥
HeadIsDigit (c ∷ s) = is_digit c ≡ true

digits-HeadIsDigit : (f n : ℕ) (out : Bytes) → HeadIsDigit out → HeadIsDigit (digits f n out)
unfolding digits
digits-HeadIsDigit zero n out h = h
digits-HeadIsDigit (suc f) n out h = elim (Bool-cases (ltb n 10)) [
  | inl small ↦ rw small (ground arith)
  | inr big ↦ rw big (digits-HeadIsDigit f (n / 10) _ (ground arith))
]

skip_space_digit : (s : Bytes) → HeadIsDigit s → skip_space s ≡ some s
unfolding skip_space
skip_space_digit [] h = elim h [ ]
skip_space_digit (c ∷ s) h = ground arith

scan_number_digit : (s : Bytes) → HeadIsDigit s → scan_number s ≡ some (digit_run 0 s)
unfolding scan_number
scan_number_digit [] h = elim h [ ]
scan_number_digit (c ∷ s) h = rw h

digits-append : (f n : ℕ) (out rest : Bytes) → digits f n out ++ rest ≡ digits f n (out ++ rest)
unfolding digits
digits-append zero n out rest = refl
digits-append (suc f) n out rest =
    ground (arith, digits-append f (n / 10) ((b'0' + n % 10) ∷ out) rest)

first_digit : (f n : ℕ) (out : Bytes) → HeadIsDigit (digits (suc f) n out)
unfolding digits
first_digit f n out = elim (Bool-cases (ltb n 10)) [
  | inl small ↦ rw small (ground arith)
  | inr big ↦ rw big (digits-HeadIsDigit f (n / 10) _ (ground arith))
]

pub skip_space-format_uint :
    (n : ℕ) (rest : Bytes) → skip_space (format_uint n ++ rest) ≡ some (format_uint n ++ rest)
unfolding format_uint
skip_space-format_uint n rest =
    rw (digits-append (suc n) n [] rest) (skip_space_digit _ (first_digit n n rest))

pub scan_number-format_uint :
    (n : ℕ) (rest : Bytes) → StopsDigits rest → scan_number (format_uint n ++ rest) ≡ some (n, rest)
unfolding format_uint
scan_number-format_uint n rest stops = rw (
  digits-append (suc n) n [] rest,
  scan_number_digit _ (first_digit n n rest),
  digit_run-digits (suc n) n rest (omega arith),
  digit_run_stop n rest stops,
)

-- `%d` reads back every number that `%d` prints, if it fits the variable and no digit follows it.
pub scan_uint-format_uint :
    (bits n : ℕ) (rest : Bytes)
    → n < 2 ^ bits
    → StopsDigits rest
    → scan_uint bits (format_uint n ++ rest) ≡ some (n, rest)
unfolding scan_uint
scan_uint-format_uint bits n rest fits stops =
    rw (skip_space-format_uint n rest, scan_number-format_uint n rest stops) (ground arith)

-- The printed text starts with a digit.
pub format_uint_head :
    (n : ℕ) (rest : Bytes)
    → (c : ℕ) × (s : Bytes) × (format_uint n ++ rest ≡ c ∷ s) × (is_digit c ≡ true)
unfolding format_uint
format_uint_head n rest = rw (digits-append (suc n) n [] rest) (split_head _ (first_digit n n rest))
  where
    split_head :
        (t : Bytes) → HeadIsDigit t → (c : ℕ) × (s : Bytes) × (t ≡ c ∷ s) × (is_digit c ≡ true)
    split_head [] h = elim h [ ]
    split_head (c ∷ s) h = (c, s, refl, h)

abbrev pub AreDigits : Bytes → Type 0
AreDigits = All (λ c. is_digit c ≡ true)

digits-AreDigits : (f n : ℕ) (out : Bytes) → AreDigits out → AreDigits (digits f n out)
unfolding digits
digits-AreDigits zero n out h = h
digits-AreDigits (suc f) n out h = elim (Bool-cases (ltb n 10)) [
  | inl small ↦ rw small (ground arith, h)
  | inr big ↦ rw big (digits-AreDigits f (n / 10) _ (ground arith, h))
]

pub format_uint-AreDigits : (n : ℕ) → AreDigits (format_uint n)
unfolding format_uint
format_uint-AreDigits n = digits-AreDigits (suc n) n [] tt
