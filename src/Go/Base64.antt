-- ===== src/Go/Base64.antt =====
-- `base64.RawStdEncoding` and `base64.RawURLEncoding`: no padding, not strict, and `\r` and `\n` are
-- skipped on decoding. The two differ in the characters of 62 and 63.
use dota_cuck.Prelude.{
  ℕ, ◌+◌, ◌-◌, ◌*◌, ◌/◌, ◌%◌, ◌<◌, ◌≡◌, refl, false, ◌&&◌, ◌||◌, Option, none, some, [], ◌∷◌, arith,
  Bytes, AreBytes, ltb, leb, ◌==◌, if◌then◌else◌, ◌>>=◌, All, map, ◌⊎◌,
}

pub record Encoding : Type 0 where
  pub char62 : ℕ
  pub char63 : ℕ

abbrev pub raw_std_encoding : Encoding
raw_std_encoding = record { char62 = b'+'; char63 = b'/' }

abbrev pub raw_url_encoding : Encoding
raw_url_encoding = record { char62 = b'-'; char63 = b'_' }

unfoldable pub encode_char : Encoding → ℕ → ℕ
encode_char enc v =
    if ltb v 26
    then b'A' + v
    else if ltb v 52
    then b'a' + (v - 26)
    else if ltb v 62
    then b'0' + (v - 52)
    else if v == 62
    then enc.char62
    else enc.char63

unfoldable pub decode_char : Encoding → ℕ → Option ℕ
decode_char enc c =
    if leb b'A' c && leb c b'Z'
    then some (c - b'A')
    else if leb b'a' c && leb c b'z'
    then some (c - b'a' + 26)
    else if leb b'0' c && leb c b'9'
    then some (c - b'0' + 52)
    else if c == enc.char62
    then some 62
    else if c == enc.char63
    then some 63
    else none

-- Groups of six bits.
unfoldable pub pack : Bytes → Bytes
pack [] = []
pack (x ∷ []) = (x / 4) ∷ (x % 4 * 16) ∷ []
pack (x ∷ y ∷ []) = (x / 4) ∷ (x % 4 * 16 + y / 16) ∷ (y % 16 * 4) ∷ []
pack (x ∷ y ∷ z ∷ s) = (x / 4) ∷ (x % 4 * 16 + y / 16) ∷ (y % 16 * 4 + z / 64) ∷ (z % 64) ∷ pack s

unfoldable pub unpack : Bytes → Option Bytes
unpack [] = some []
unpack (a ∷ []) = none
unpack (a ∷ b ∷ []) = some ((a * 4 + b / 16) ∷ [])
unpack (a ∷ b ∷ c ∷ []) = some ((a * 4 + b / 16) ∷ (b % 16 * 16 + c / 4) ∷ [])
unpack (a ∷ b ∷ c ∷ d ∷ s) = do
  rest ← unpack s
  some ((a * 4 + b / 16) ∷ (b % 16 * 16 + c / 4) ∷ (c % 4 * 64 + d) ∷ rest)

unfoldable pub sextets : Encoding → Bytes → Option Bytes
unfolding decode_char
sextets enc [] = some []
sextets enc (c ∷ s) =
    let rest = sextets enc s in
    if c == 10 || c == 13 then rest else (do v ← decode_char enc c; vs ← rest; some (v ∷ vs))

unfoldable pub encode_to_string : Encoding → Bytes → Bytes
unfolding pack encode_char
encode_to_string enc s = map (encode_char enc) (pack s)

unfoldable pub decode_string : Encoding → Bytes → Option Bytes
unfolding unpack sextets
decode_string enc s = do vs ← sextets enc s; unpack vs

abbrev AreSextets : Bytes → Type 0
AreSextets = All (λ v. v < 64)

pack-AreSextets : (s : Bytes) → AreBytes s → AreSextets (pack s)
unfolding pack
pack-AreSextets [] h = tt
pack-AreSextets (x ∷ []) h = omega arith
pack-AreSextets (x ∷ y ∷ []) h = omega arith
pack-AreSextets (x ∷ y ∷ z ∷ s) (hx, (hy, (hz, hs))) =
    (omega arith, (omega arith, (omega arith, (omega arith, pack-AreSextets s hs))))

unpack-pack : (s : Bytes) → AreBytes s → unpack (pack s) ≡ some s
unfolding pack unpack
unpack-pack [] h = refl
unpack-pack (x ∷ []) h = ground arith
unpack-pack (x ∷ y ∷ []) h = ground arith
unpack-pack (x ∷ y ∷ z ∷ s) (hx, (hy, (hz, hs))) = rw (unpack-pack s hs) (ground arith)

-- 62 and 63 are written by two characters that are no letter, no digit and no line break.
abbrev pub IsEncoding : Encoding → Type 0
IsEncoding enc = (enc ≡ raw_std_encoding) ⊎ (enc ≡ raw_url_encoding)

decode_char-encode_char :
    (enc : Encoding) (v : ℕ)
    → IsEncoding enc
    → v < 64
    → decode_char enc (encode_char enc v) ≡ some v
unfolding decode_char encode_char
decode_char-encode_char enc v h lt = ground arith

-- The encoding's characters are neither line breaks nor `$`.
encode_char_plain :
    (enc : Encoding) (v : ℕ)
    → IsEncoding enc
    → ((encode_char enc v == 10 || encode_char enc v == 13) ≡ false)
      × ((encode_char enc v == b'$') ≡ false)
unfolding encode_char
encode_char_plain enc v h = ground arith

sextets-map :
    (enc : Encoding) (vs : Bytes)
    → IsEncoding enc
    → AreSextets vs
    → sextets enc (map (encode_char enc) vs) ≡ some vs
unfolding sextets
sextets-map enc [] e h = refl
sextets-map enc (v ∷ vs) e (hv, hvs) =
    rw ((encode_char_plain enc v e).0, decode_char-encode_char enc v e hv, sextets-map enc vs e hvs)

-- Decoding gives back every byte string from its encoding.
pub decode_string-encode_to_string :
    (enc : Encoding) (s : Bytes)
    → IsEncoding enc
    → AreBytes s
    → decode_string enc (encode_to_string enc s) ≡ some s
unfolding decode_string encode_to_string
decode_string-encode_to_string enc s e h =
    rw (sextets-map enc (pack s) e (pack-AreSextets s h)) (unpack-pack s h)

abbrev pub LacksDollar : Bytes → Type 0
LacksDollar = All (λ c. (c == b'$') ≡ false)

map-LacksDollar :
    (enc : Encoding) (vs : Bytes) → IsEncoding enc → LacksDollar (map (encode_char enc) vs)
map-LacksDollar enc [] e = tt
map-LacksDollar enc (v ∷ vs) e = ((encode_char_plain enc v e).1, map-LacksDollar enc vs e)

pub encode_to_string-LacksDollar :
    (enc : Encoding) (s : Bytes) → IsEncoding enc → LacksDollar (encode_to_string enc s)
unfolding encode_to_string
encode_to_string-LacksDollar enc s e = map-LacksDollar enc (pack s) e
