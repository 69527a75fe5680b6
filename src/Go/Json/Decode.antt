-- ===== src/Go/Json/Decode.antt =====
-- `json.NewDecoder` with `DisallowUnknownFields`, decoding into a struct of strings. Texts are code
-- points. A value that is neither a string nor null is an error, malformed or not, so it is not read
-- any further; what follows the first value is not looked at.
pub mod Fuel
pub mod Written
pub mod Known
pub mod Spelled
use dota_cuck.Prelude.{
  ℕ, zero, suc, ◌+◌, ◌-◌, ◌*◌, Bool, ◌||◌, ◌&&◌, Option, none, some, List, [], ◌∷◌, ◌++◌, Bytes,
  codes, ltb, leb, ◌==◌, if◌then◌else◌, ◌>>=◌, length, bytes_eq, map,
}
use dota_cuck.Go.Json.{plain, read_chars, expect, map_option}

abbrev pub is_space : ℕ → Bool
is_space c = c == 32 || c == 9 || c == 10 || c == 13

unfoldable pub skip_space : Bytes → Bytes
skip_space [] = []
skip_space (c ∷ s) = let rest = skip_space s in if is_space c then rest else c ∷ s

-- `\u` escapes give UTF-16 units: a high surrogate and a low one make one character, any other
-- surrogate reads as U+FFFD.
abbrev pub is_high : ℕ → Bool
is_high c = leb 0xD800 c && ltb c 0xDC00

abbrev pub is_low : ℕ → Bool
is_low c = leb 0xDC00 c && ltb c 0xE000

abbrev pub alone : ℕ → ℕ
alone c = if is_high c || is_low c then 0xFFFD else c

-- What a unit adds, and the high surrogate that waits after it.
abbrev pub unit : Option ℕ → ℕ → Bytes × Option ℕ
unit none c = if is_high c then ([], some c) else (alone c ∷ [], none)
unit (some h) c =
    if is_low c
    then ((0x10000 + (h - 0xD800) * 1024 + (c - 0xDC00)) ∷ [], none)
    else if is_high c
    then (0xFFFD ∷ [], some c)
    else (0xFFFD ∷ alone c ∷ [], none)

abbrev pub waiting : Option ℕ → Bytes
waiting none = []
waiting (some h) = 0xFFFD ∷ []

unfoldable pub join_units : Option ℕ → Bytes → Bytes
join_units h [] = waiting h
join_units h (c ∷ s) = let (out, h') = unit h c in out ++ join_units h' s

abbrev joined : Bytes × Bytes → Bytes × Bytes
joined (s, rest) = (join_units none s, rest)

unfoldable pub read_text : Bytes → Option (Bytes × Bytes)
read_text s = expect b'"' s >>= λ t. map_option joined (read_chars plain t)

unfoldable pub expect_all : Bytes → Bytes → Option Bytes
expect_all [] s = some s
expect_all (c ∷ cs) s = expect c s >>= expect_all cs

abbrev pub null : Bytes
null = codes "null"

-- `none` is the value null.
abbrev pub Value : Type 0
Value = Option Bytes

abbrev pub Pair : Type 0
Pair = Bytes × Value

abbrev text_value : Bytes × Bytes → Value × Bytes
text_value (s, rest) = (some s, rest)

abbrev null_value : Bytes → Value × Bytes
null_value rest = (none, rest)

unfoldable pub read_value : Bytes → Option (Value × Bytes)
read_value s = elim (expect b'"' s) [
  | some t ↦ map_option text_value (read_text s)
  | none ↦ map_option null_value (expect_all null s)
]

unfoldable pub read_pair : Bytes → Option (Pair × Bytes)
read_pair s = do
  (name, a) ← read_text (skip_space s)
  b ← expect b':' (skip_space a)
  (value, c) ← read_value (skip_space b)
  some ((name, value), skip_space c)

-- Behind the opening brace or a comma; at most `k` members.
unfoldable pub read_pairs : ℕ → Bytes → Option (List Pair)
read_pairs zero s = none
read_pairs (suc k) s = elim (read_pair s) [
  | none ↦ none
  | some (p, []) ↦ none
  | some (p, c ∷ rest) ↦
      if c == b'}'
      then some (p ∷ [])
      else if c == b','
      then map_option (λ ps. p ∷ ps) (read_pairs k rest)
      else none
]

abbrev after_brace : ℕ → Bytes → Option (List Pair)
after_brace k s = elim (expect b'}' (skip_space s)) [ some rest ↦ some [] | none ↦ read_pairs k s ]

-- The members of the first value; null has none.
unfoldable pub read_top : Bytes → Option (List Pair)
read_top text =
    let s = skip_space text in
    elim (expect b'{' s) [
      | some t ↦ after_brace (length t) t
      | none ↦ map_option (λ rest. []) (expect_all null s)
    ]

-- Names are compared folded: of the runes that are no ASCII letters, these two fold to one.
abbrev fold_rune : ℕ → ℕ
fold_rune c =
    if leb b'a' c && leb c b'z'
    then c - 32
    else if c == 0x17F
    then b'S'
    else if c == 0x212A
    then b'K'
    else c

abbrev pub same_name : Bytes → Bytes → Bool
same_name n m = bytes_eq (map fold_rune n) (map fold_rune m)

-- The fields of a struct, by the names of their tags; no two names are equal when folded.
abbrev pub Slots : Type 0
Slots = List (Bytes × Bytes)

-- The zero value.
unfoldable pub blank : List Bytes → Slots
blank names = map (λ n. (n, [])) names

abbrev pub or_kept : Bytes → Value → Bytes
or_kept old none = old
or_kept old (some s) = s

-- A member sets its field, and null leaves it as it is; `none` for an unknown name.
unfoldable pub assign : Slots → Bytes → Value → Option Slots
unfolding bytes_eq
assign [] name v = none
assign ((n, old) ∷ slots) name v =
    let rest = assign slots name v in
    if same_name n name
    then some ((n, or_kept old v) ∷ slots)
    else map_option (λ more. (n, old) ∷ more) rest

unfoldable pub assign_all : Slots → List Pair → Option Slots
assign_all slots [] = some slots
assign_all slots ((name, v) ∷ ps) = assign slots name v >>= λ slots'. assign_all slots' ps

-- `dec.Decode(dst)`
unfoldable pub decode_fields : List Bytes → Bytes → Option Slots
decode_fields names text = read_top text >>= assign_all (blank names)
