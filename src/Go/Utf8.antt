-- ===== src/Go/Utf8.antt =====
-- Texts of code points: the `string` that they make, and its bytes in UTF-8.
pub mod Runes
use Prim.Native.Nat.{compare, Ordering}
use Prim.Native.Char.{Char, char, code, IsLt, IsScalar}
use Prim.Native.String.{String}
use text.Mathlib.TextEquality.{Char-path}
use dota_cuck.Prelude.{
  ℕ, ◌+◌, ◌/◌, ◌%◌, ◌<◌, [], ◌∷◌, ◌++◌, Option, none, some, Bytes, codes, ◌≡◌, refl, ap, ◌∙◌, ltb,
  if◌then◌else◌, ◌⊎◌, inl, inr, arith,
}

-- The three comparisons of a scalar value.
abbrev BothLt : Ordering → Ordering → Type 0
BothLt Ordering.lt o = IsLt o
BothLt Ordering.eq o = ⊥
BothLt Ordering.gt o = ⊥

abbrev AreScalar : Ordering → Ordering → Ordering → Type 0
AreScalar Ordering.lt o p = Unit
AreScalar Ordering.eq o p = BothLt o p
AreScalar Ordering.gt o p = BothLt o p

unfoldable both_lt : (o p : Ordering) → Option (BothLt o p)
both_lt Ordering.lt Ordering.lt = some tt
both_lt Ordering.lt Ordering.eq = none
both_lt Ordering.lt Ordering.gt = none
both_lt Ordering.eq p = none
both_lt Ordering.gt p = none

unfoldable are_scalar : (o p q : Ordering) → Option (AreScalar o p q)
are_scalar Ordering.lt p q = some tt
are_scalar Ordering.eq p q = both_lt p q
are_scalar Ordering.gt p q = both_lt p q

both_lt-some : (o p : Ordering) → BothLt o p → (h : BothLt o p) × (both_lt o p ≡ some h)
unfolding both_lt
both_lt-some Ordering.lt Ordering.lt h = (tt, refl)
both_lt-some Ordering.lt Ordering.eq h = absurd h
both_lt-some Ordering.lt Ordering.gt h = absurd h
both_lt-some Ordering.eq p h = absurd h
both_lt-some Ordering.gt p h = absurd h

are_scalar-some :
    (o p q : Ordering) → AreScalar o p q → (h : AreScalar o p q) × (are_scalar o p q ≡ some h)
unfolding are_scalar
are_scalar-some Ordering.lt p q h = (tt, refl)
are_scalar-some Ordering.eq p q h = both_lt-some p q h
are_scalar-some Ordering.gt p q h = both_lt-some p q h

abbrev scalar : (n : ℕ) → Option (IsScalar n)
scalar n = are_scalar (compare n 55296) (compare 57343 n) (compare n 1114112)

-- A number that is no character reads as U+FFFD.
abbrev or_replacement : (n : ℕ) → Option (IsScalar n) → Char
or_replacement n none = char 65533 tt
or_replacement n (some h) = char n h

unfoldable pub char_of : ℕ → Char
unfolding are_scalar both_lt
char_of n = or_replacement n (scalar n)

unfoldable pub text_of : Bytes → String
unfolding char_of
text_of [] = String.[]
text_of (c ∷ s) = String.◌∷◌ (char_of c) (text_of s)

char_of-code : (c : Char) → char_of (code c) ≡ c
unfolding char_of
char_of-code (char n h) =
    let (h', e) = are_scalar-some (compare n 55296) (compare 57343 n) (compare n 1114112) h in
    ap (or_replacement n) e ∙ Char-path (char n h') (char n h) refl

pub text_of-codes : (s : String) → text_of (codes s) ≡ s
unfolding text_of
text_of-codes String.[] = refl
text_of-codes (String.◌∷◌ c s) = λ i. String.◌∷◌ (char_of-code c i) (text_of-codes s i)

abbrev pub encode_rune : ℕ → Bytes
encode_rune c =
    if ltb c 0x80
    then c ∷ []
    else if ltb c 0x800
    then (192 + c / 64) ∷ (128 + c % 64) ∷ []
    else if ltb c 0x10000
    then (224 + c / 4096) ∷ (128 + c / 64 % 64) ∷ (128 + c % 64) ∷ []
    else (240 + c / 262144) ∷ (128 + c / 4096 % 64) ∷ (128 + c / 64 % 64) ∷ (128 + c % 64) ∷ []

-- `[]byte(s)`
unfoldable pub utf8 : Bytes → Bytes
utf8 [] = []
utf8 (c ∷ s) = encode_rune c ++ utf8 s

apart_of_scalar :
    (n : ℕ) (o p q : Ordering)
    → compare n 55296 ≡ o
    → compare 57343 n ≡ p
    → compare n 1114112 ≡ q
    → AreScalar o p q
    → (n < 55296) ⊎ (57343 < n) × (n < 1114112)
apart_of_scalar n Ordering.lt p q below above top h = inl (ground arith)
apart_of_scalar n Ordering.eq Ordering.lt Ordering.lt below above top h =
    inr (ground arith, ground arith)
apart_of_scalar n Ordering.eq Ordering.lt Ordering.eq below above top h = absurd h
apart_of_scalar n Ordering.eq Ordering.lt Ordering.gt below above top h = absurd h
apart_of_scalar n Ordering.eq Ordering.eq q below above top h = absurd h
apart_of_scalar n Ordering.eq Ordering.gt q below above top h = absurd h
apart_of_scalar n Ordering.gt Ordering.lt Ordering.lt below above top h =
    inr (ground arith, ground arith)
apart_of_scalar n Ordering.gt Ordering.lt Ordering.eq below above top h = absurd h
apart_of_scalar n Ordering.gt Ordering.lt Ordering.gt below above top h = absurd h
apart_of_scalar n Ordering.gt Ordering.eq q below above top h = absurd h
apart_of_scalar n Ordering.gt Ordering.gt q below above top h = absurd h

-- No character is a surrogate, and none is beyond U+10FFFF.
pub code_apart : (c : Char) → (code c < 55296) ⊎ (57343 < code c) × (code c < 1114112)
code_apart (char n h) = apart_of_scalar n _ _ _ refl refl refl h
