-- ===== src/Go/Json.antt =====
-- What `encoding/json` writes for a struct of strings, and a reader of such objects by RFC 8259.
-- Texts are lists of code points; the writer escapes as `json.Marshal` does, HTML characters included.
pub mod RoundTrip
pub mod Decode
pub mod Rows
use dota_cuck.Prelude.{
  ℕ, zero, suc, ◌+◌, ◌-◌, ◌*◌, ◌/◌, ◌%◌, Bool, ◌||◌, Option, none, some, List, [], ◌∷◌, ◌++◌, Bytes,
  ltb, leb, ◌==◌, if◌then◌else◌, ◌>>=◌, is_empty,
}

abbrev pub hex : ℕ → ℕ
hex n = if ltb n 10 then n + b'0' else n + 87

-- The letter behind the backslash, for the characters that have one.
unfoldable pub short_escape : ℕ → Option ℕ
short_escape c =
    if c == b'"' || c == 92
    then some c
    else if c == 8
    then some b'b'
    else if c == 9
    then some b't'
    else if c == 10
    then some b'n'
    else if c == 12
    then some b'f'
    else if c == 13
    then some b'r'
    else none

abbrev pub needs_code : ℕ → Bool
needs_code c = ltb c 32 || c == b'<' || c == b'>' || c == b'&' || c == 0x2028 || c == 0x2029

abbrev pub write_as : ℕ → Option ℕ → Bytes
write_as c (some e) = 92 ∷ e ∷ []
write_as c none =
    if needs_code c
    then 92
      ∷ b'u'
      ∷ hex (c / 4096 % 16)
      ∷ hex (c / 256 % 16)
      ∷ hex (c / 16 % 16)
      ∷ hex (c % 16)
      ∷ []
    else c ∷ []

unfoldable pub write_char : ℕ → Bytes
write_char c = write_as c (short_escape c)

unfoldable pub write_chars : Bytes → Bytes
write_chars [] = []
write_chars (c ∷ s) = write_char c ++ write_chars s

abbrev pub quoted : Bytes → Bytes → Bytes
quoted s rest = b'"' ∷ (write_chars s ++ b'"' ∷ rest)

abbrev pub Member : Type 0
Member = Bytes × Bytes

abbrev pub write_member : Member → Bytes → Bytes
write_member (name, value) rest = quoted name (b':' ∷ quoted value rest)

unfoldable pub write_members : List Member → Bytes
write_members [] = b'}' ∷ []
write_members (m ∷ []) = write_member m (b'}' ∷ [])
write_members (m ∷ n ∷ ms) = write_member m (b',' ∷ write_members (n ∷ ms))

unfoldable pub write_object : List Member → Bytes
write_object ms = b'{' ∷ write_members ms

-- Reading a string behind its opening quote.
pub data Mode : Type 0 where
  plain escaped : Mode
  code : ℕ → ℕ → Mode  -- digits still to come, and the value of those read

pub data Next : Type 0 where
  closes : Next
  emits : ℕ → Next
  goes : Mode → Next
  bad : Next

unfoldable pub hex_value : ℕ → Option ℕ
hex_value c =
    if leb b'0' c
    then (if leb c b'9'
        then some (c - b'0')
        else if leb b'a' c
        then (if leb c b'f' then some (c - 87) else none)
        else if leb b'A' c
        then (if leb c b'F' then some (c - 55) else none)
        else none)
    else none

unfoldable pub long_of : ℕ → Option ℕ
long_of e =
    if e == b'"' || e == 92 || e == b'/'
    then some e
    else if e == b'b'
    then some 8
    else if e == b't'
    then some 9
    else if e == b'n'
    then some 10
    else if e == b'f'
    then some 12
    else if e == b'r'
    then some 13
    else none

abbrev pub unescaped : Option ℕ → Next
unescaped none = bad
unescaped (some a) = emits a

abbrev pub with_digit : ℕ → ℕ → Option ℕ → Next
with_digit k v none = bad
with_digit zero v (some d) = emits (v * 16 + d)
with_digit (suc k) v (some d) = goes (code k (v * 16 + d))

unfoldable pub next : Mode → ℕ → Next
next plain c =
    if c == b'"'
    then closes
    else if c == 92
    then goes escaped
    else if ltb c 32
    then bad
    else emits c
next escaped c = if c == b'u' then goes (code 3 0) else unescaped (long_of c)
next (code k v) c = with_digit k v (hex_value c)

abbrev pub push : ℕ → Option (Bytes × Bytes) → Option (Bytes × Bytes)
push c none = none
push c (some (s, rest)) = some (c ∷ s, rest)

unfoldable pub read_chars : Mode → Bytes → Option (Bytes × Bytes)
read_chars m [] = none
read_chars m (c ∷ s) = elim (next m c) [
  | closes ↦ some ([], s)
  | emits a ↦ push a (read_chars plain s)
  | goes m' ↦ read_chars m' s
  | bad ↦ none
]

unfoldable pub expect : ℕ → Bytes → Option Bytes
expect c [] = none
expect c (d ∷ s) = if c == d then some s else none

unfoldable pub read_quoted : Bytes → Option (Bytes × Bytes)
read_quoted s = elim (expect b'"' s) [ none ↦ none | some t ↦ read_chars plain t ]

unfoldable pub read_member : Bytes → Option (Member × Bytes)
read_member s = do
  (name, a) ← read_quoted s
  b ← expect b':' a
  (value, c) ← read_quoted b
  some ((name, value), c)

abbrev pub map_option : {A B : Type 0} → (A → B) → Option A → Option B
map_option f none = none
map_option f (some a) = some (f a)

-- At most `k` more members.
unfoldable pub read_members : ℕ → Bytes → Option (List Member)
read_members zero s = none
read_members (suc k) s = elim (read_member s) [
  | none ↦ none
  | some (m, []) ↦ none
  | some (m, c ∷ rest) ↦
      if c == b'}'
      then (if is_empty rest then some (m ∷ []) else none)
      else if c == b','
      then map_option (λ ms. m ∷ ms) (read_members k rest)
      else none
]

-- An object with at least one member and at most `k`.
unfoldable pub read_object : ℕ → Bytes → Option (List Member)
read_object k s = elim (expect b'{' s) [ none ↦ none | some t ↦ read_members k t ]
