-- ===== src/Go/Tests.antt =====
-- The modelled parts of the standard library at concrete inputs.
use dota_cuck.Prelude.{◌≡◌, refl, none, some, [], ◌∷◌, codes}
use dota_cuck.Go.Decimal.{format_uint, scan_uint}
use dota_cuck.Go.Scan.{pos, scan_int}
use dota_cuck.Go.Split.{split}
use dota_cuck.Go.Base64.{raw_std_encoding, raw_url_encoding, encode_to_string, decode_string}

prints_zero : format_uint 0 ≡ codes "0"
unfolding format_uint
prints_zero = refl

prints_memory : format_uint 65536 ≡ codes "65536"
unfolding format_uint
prints_memory = refl

too_wide : scan_uint 8 (codes "256") ≡ none
unfolding scan_uint
too_wide = refl

leading_space : scan_uint 8 (codes " 4,") ≡ some (4, codes ",")
unfolding scan_uint
leading_space = refl

plus_sign : scan_int (codes "+19$") ≡ some (pos 19, codes "$")
unfolding scan_int
plus_sign = refl

splits : split b'$' (codes "$a$$b") ≡ [] ∷ codes "a" ∷ [] ∷ codes "b" ∷ []
unfolding split
splits = refl

encodes : encode_to_string raw_std_encoding (codes "salt") ≡ codes "c2FsdA"
unfolding encode_to_string
encodes = refl

decodes : decode_string raw_std_encoding (codes "aGFz\naA") ≡ some (codes "hash")
unfolding decode_string
decodes = refl

url_alphabet : decode_string raw_url_encoding (codes "-_-_") ≡ some (251 ∷ 255 ∷ 191 ∷ [])
unfolding decode_string
url_alphabet = refl

one_left_over : decode_string raw_std_encoding (codes "aGFza") ≡ none
unfolding decode_string
one_left_over = refl
