-- ===== src/Api/SplitJwt.antt =====
-- control-plane/internal/api/steam_accounts.go: `splitJWT` and `expiryFromJWT`.
use dota_cuck.Prelude.{
  ℕ, ◌≡◌, refl, true, false, List, [], ◌∷◌, ◌++◌, append_assoc, append-nil, ◌∙◌, Option, none, some,
  arith, Bytes, ◌==◌, if◌then◌else◌, ◌>>=◌,
}
use dota_cuck.Go.Scan.{ℤ, pos}
use dota_cuck.Go.Split.{split, push}
use dota_cuck.Go.Base64.{raw_url_encoding, decode_string}

-- The loop: the parts so far, and `token[start:i]`.
unfoldable pub split_from : List Bytes → Bytes → Bytes → List Bytes
split_from parts current [] = parts ++ current ∷ []
split_from parts current (c ∷ s) = elim (c == b'.') [
  | true ↦ split_from (parts ++ current ∷ []) [] s
  | false ↦ split_from parts (current ++ c ∷ []) s
]

unfoldable pub split_jwt : Bytes → List Bytes
unfolding split_from
split_jwt token = split_from [] [] token

-- Puts a text in front of the first part.
abbrev glue : Bytes → List Bytes → List Bytes
glue s [] = s ∷ []
glue s (p ∷ ps) = (s ++ p) ∷ ps

glue-push : (s : Bytes) (c : ℕ) (ps : List Bytes) → glue (s ++ c ∷ []) ps ≡ glue s (push c ps)
glue-push s c [] = refl
glue-push s c (p ∷ ps) = simp append_assoc

glue-split : (s : Bytes) → glue [] (split b'.' s) ≡ split b'.' s
unfolding split
glue-split [] = refl
glue-split (c ∷ s) = ground (arith, glue-nil-push c (split b'.' s))
  where
    glue-nil-push : (c : ℕ) (ps : List Bytes) → glue [] (push c ps) ≡ push c ps
    glue-nil-push c [] = refl
    glue-nil-push c (p ∷ ps) = refl

split_from-split :
    (parts : List Bytes) (current s : Bytes)
    → split_from parts current s ≡ parts ++ glue current (split b'.' s)
unfolding split_from split
split_from-split parts current [] = simp append-nil
split_from-split parts current (c ∷ s) = ground (
  arith,
  split_from-split (parts ++ current ∷ []) [] s,
  split_from-split parts (current ++ c ∷ []) s,
  glue-split s,
  glue-push current c (split b'.' s),
  append_assoc parts (current ∷ []) (split b'.' s),
  append-nil current,
)

-- `splitJWT` is `strings.Split` at the dots.
pub split_jwt-split : (token : Bytes) → split_jwt token ≡ split b'.' token
unfolding split_jwt
split_jwt-split token = split_from-split [] [] token ∙ glue-split token

-- `json.Unmarshal` into the `exp` claim, 0 where there is none; `none` is its error.
module _ (read_exp : Bytes → Option ℤ) where
  abbrev expiry_of : Option ℤ → Option ℤ
  expiry_of none = none
  expiry_of (some e) = elim e [ pos n ↦ if n == 0 then none else some (pos n) | other ↦ some other ]

  abbrev second_part : List Bytes → Option Bytes
  second_part [] = none
  second_part (a ∷ []) = none
  second_part (a ∷ b ∷ rest) = some b

  -- The expiry in Unix seconds.
  unfoldable pub expiry_from_jwt : Bytes → Option ℤ
  unfolding split_jwt decode_string
  expiry_from_jwt token = do
    part ← second_part (split_jwt token)
    payload ← decode_string raw_url_encoding part
    expiry_of (read_exp payload)
