-- ===== src/Go/Hex.antt =====
-- `hex.EncodeToString`, and its inverse on its own output.
use Prim.Native.Char.{Char, code}
use Prim.Native.String.{String}
use dota_cuck.Prelude.{
  ℕ, zero, suc, ◌+◌, ◌-◌, ◌*◌, ◌/◌, ◌%◌, ◌<◌, ◌≡◌, refl, ap, sym, ◌∙◌, Bool, true, ◌&&◌, [], ◌∷◌,
  arith, Bytes, AreBytes, leb, ◌==◌, if◌then◌else◌,
}

-- `hextable[n]`
abbrev nth : String → ℕ → Char
nth String.[] n = "0"
nth (String.◌∷◌ c s) zero = c
nth (String.◌∷◌ c s) (suc n) = nth s n

pub hex_digit : ℕ → Char
hex_digit n = nth "0123456789abcdef" n

unfoldable pub encode_hex : Bytes → String
unfolding hex_digit
encode_hex [] = ""
encode_hex (b ∷ bs) =
    String.◌∷◌ (hex_digit (b / 16)) (String.◌∷◌ (hex_digit (b % 16)) (encode_hex bs))

abbrev digit_value : Char → ℕ
digit_value c = if leb b'a' (code c) then code c - 87 else code c - 48

decode_hex : String → Bytes
decode_hex String.[] = []
decode_hex (String.◌∷◌ c String.[]) = []
decode_hex (String.◌∷◌ c (String.◌∷◌ d s)) = (digit_value c * 16 + digit_value d) ∷ decode_hex s

-- Every digit is read back.
digits_read : ℕ → Bool
digits_read zero = true
digits_read (suc n) = (digit_value (hex_digit n) == n) && digits_read n

digits_read_sound : (n m : ℕ) → digits_read n ≡ true → m < n → digit_value (hex_digit m) ≡ m
unfolding digits_read
digits_read_sound zero m h lt = absurd (omega arith)
digits_read_sound (suc n) m h lt = ground (arith, digits_read_sound n m)

all_digits : digits_read 16 ≡ true
unfolding digits_read hex_digit
all_digits = refl

value-digit : (m : ℕ) → m < 16 → digit_value (hex_digit m) ≡ m
value-digit m lt = digits_read_sound 16 m all_digits lt

decode_hex-encode_hex : (bs : Bytes) → AreBytes bs → decode_hex (encode_hex bs) ≡ bs
unfolding decode_hex encode_hex
decode_hex-encode_hex [] h = refl
decode_hex-encode_hex (b ∷ bs) (byte, h) =
    rw
      (
        value-digit (b / 16) (omega arith),
        value-digit (b % 16) (omega arith),
        decode_hex-encode_hex bs h,
      )
      (ap (λ x. x ∷ bs) (omega arith))

pub encode_hex_inj : (a b : Bytes) → AreBytes a → AreBytes b → encode_hex a ≡ encode_hex b → a ≡ b
encode_hex_inj a b ha hb e =
    sym (decode_hex-encode_hex a ha) ∙ ap decode_hex e ∙ decode_hex-encode_hex b hb
