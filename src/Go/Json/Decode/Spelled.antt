-- ===== src/Go/Json/Decode/Spelled.antt =====
-- Objects of strings as any writer of JSON may spell them: a character stands as it is, behind a
-- backslash, or as four hex digits, as RFC 8259 lets it.
use dota_cuck.Prelude.{
  ℕ, zero, suc, ◌/◌, ◌%◌, ◌<◌, ◌≡◌, refl, ap, ◌∙◌, Bool, true, false, not, ◌&&◌, ◌||◌, some, List,
  [], ◌∷◌, ◌++◌, Bytes, All, map, length, length-append, arith, ltb, ◌==◌,
}
use dota_cuck.Go.Json.{hex, short_escape, Member, plain, next, push, read_chars, expect}
use dota_cuck.Go.Json.RoundTrip.{long_of-short_escape, read_code, code_value}
use dota_cuck.Go.Json.Decode.{
  skip_space, is_space, read_text, read_value, read_pair, read_pairs, read_top,
}
use dota_cuck.Go.Json.Decode.Written.{AreRunes, join_units-AreRunes, as_pair, IsText}

-- Not a quote, a backslash or a control character.
abbrev pub is_plain : ℕ → Bool
is_plain c = not (c == b'"' || c == 92 || ltb c 32)

-- The text between the quotes, for what it means.
pub data Spelled : Bytes → Bytes → Type 0 where
  ends : Spelled [] []
  as_is : {v t : Bytes} (c : ℕ) → is_plain c ≡ true → Spelled v t → Spelled (c ∷ v) (c ∷ t)
  escaped :
      {v t : Bytes} (c e : ℕ) → short_escape c ≡ some e → Spelled v t → Spelled (c ∷ v) (92 ∷ e ∷ t)
  coded :
      {v t : Bytes} (c : ℕ)
      → c < 65536
      → Spelled v t
      → Spelled (c ∷ v) (
          92
          ∷ b'u'
          ∷ hex (c / 4096 % 16)
          ∷ hex (c / 256 % 16)
          ∷ hex (c / 16 % 16)
          ∷ hex (c % 16)
          ∷ t)

abbrev pub all_plain : Bytes → Bool
all_plain [] = true
all_plain (c ∷ s) = is_plain c && all_plain s

pub plain-Spelled : (s : Bytes) → all_plain s ≡ true → Spelled s s
plain-Spelled [] h = ends
plain-Spelled (c ∷ s) h = as_is c (ground arith) (plain-Spelled s (ground arith))

read-plain :
    (c : ℕ) (s : Bytes) → is_plain c ≡ true → read_chars plain (c ∷ s) ≡ push c (read_chars plain s)
unfolding read_chars next
read-plain c s h = ground arith

read-escaped :
    (c e : ℕ) (s : Bytes)
    → short_escape c ≡ some e
    → read_chars plain (92 ∷ e ∷ s) ≡ push c (read_chars plain s)
unfolding read_chars next
read-escaped c e s short = let (long, other) = long_of-short_escape c e short in ground arith

read-Spelled :
    {v t : Bytes} (rest : Bytes)
    → Spelled v t
    → read_chars plain (t ++ b'"' ∷ rest) ≡ some (v, rest)
unfolding read_chars next
read-Spelled rest ends = refl
read-Spelled rest (as_is {v = v} {t = t} c h sp) =
    read-plain c (t ++ b'"' ∷ rest) h ∙ ap (push c) (read-Spelled rest sp)
read-Spelled rest (escaped {v = v} {t = t} c e h sp) =
    read-escaped c e (t ++ b'"' ∷ rest) h ∙ ap (push c) (read-Spelled rest sp)
read-Spelled rest (coded {v = v} {t = t} c small sp) =
    read_code (c / 4096 % 16) (c / 256 % 16) (c / 16 % 16) (c % 16) (t ++ b'"' ∷ rest) (omega arith)
      (omega arith) (omega arith) (omega arith)
    ∙ ap (λ d. push d (read_chars plain (t ++ b'"' ∷ rest))) (code_value c small)
    ∙ ap (push c) (read-Spelled rest sp)

abbrev pub in_quotes : Bytes → Bytes → Bytes
in_quotes t rest = b'"' ∷ (t ++ b'"' ∷ rest)

abbrev pub spelled_member : Member → Bytes → Bytes
spelled_member (name, value) rest = in_quotes name (b':' ∷ in_quotes value rest)

unfoldable pub spelled_members : List Member → Bytes
spelled_members [] = b'}' ∷ []
spelled_members (m ∷ []) = spelled_member m (b'}' ∷ [])
spelled_members (m ∷ n ∷ ms) = spelled_member m (b',' ∷ spelled_members (n ∷ ms))

-- The texts spell the members, one by one.
abbrev pub AllSpelled : List Member → List Member → Type 0
AllSpelled [] [] = Unit
AllSpelled [] (t ∷ ts) = ⊥
AllSpelled (m ∷ ms) [] = ⊥
AllSpelled (m ∷ ms) (t ∷ ts) = (Spelled m.0 t.0 × Spelled m.1 t.1) × AllSpelled ms ts

read_text-Spelled :
    {v t : Bytes} (rest : Bytes)
    → AreRunes v
    → Spelled v t
    → read_text (in_quotes t rest) ≡ some (v, rest)
unfolding read_text expect
read_text-Spelled {v = v} rest runes sp = rw (read-Spelled rest sp, join_units-AreRunes v runes)

read_value-Spelled :
    {v t : Bytes} (rest : Bytes)
    → AreRunes v
    → Spelled v t
    → read_value (in_quotes t rest) ≡ some (some v, rest)
unfolding read_value expect
read_value-Spelled rest runes sp = rw (read_text-Spelled rest runes sp)

read_pair-Spelled :
    (m t : Member) (c : ℕ) (rest : Bytes)
    → IsText m
    → Spelled m.0 t.0
    → Spelled m.1 t.1
    → is_space c ≡ false
    → read_pair (spelled_member t (c ∷ rest)) ≡ some (as_pair m, c ∷ rest)
unfolding read_pair skip_space expect
read_pair-Spelled (name, value) (n, v) c rest (hn, hv) sn sv ink = rw (
  read_text-Spelled (b':' ∷ in_quotes v (c ∷ rest)) hn sn,
  read_value-Spelled (c ∷ rest) hv sv,
  ink,
)

read_pairs-Spelled :
    (k : ℕ) (m t : Member) (ms ts : List Member)
    → length ms < k
    → All IsText (m ∷ ms)
    → AllSpelled (m ∷ ms) (t ∷ ts)
    → read_pairs k (spelled_members (t ∷ ts)) ≡ some (map as_pair (m ∷ ms))
unfolding read_pairs spelled_members
read_pairs-Spelled zero m t ms ts h runes sp = absurd (omega arith)
read_pairs-Spelled (suc k) m t [] [] h (hm, runes) ((sn, sv), sp) =
    rw (read_pairs, spelled_members, read_pair-Spelled m t b'}' [] hm sn sv refl)
read_pairs-Spelled (suc k) m t [] (u ∷ ts) h runes ((sn, sv), sp) = absurd sp
read_pairs-Spelled (suc k) m t (n ∷ ms) [] h runes ((sn, sv), sp) = absurd sp
read_pairs-Spelled (suc k) m t (n ∷ ms) (u ∷ ts) h (hm, runes) ((sn, sv), sp) = rw (
  read_pairs,
  spelled_members,
  read_pair-Spelled m t b',' (spelled_members (u ∷ ts)) hm sn sv refl,
  read_pairs-Spelled k n u ms ts (omega arith) runes sp,
)

length-in_quotes : (t rest : Bytes) → length rest < length (in_quotes t rest)
length-in_quotes t rest = rw (length-append t (b'"' ∷ rest)) (omega arith)

length-spelled_member : (t : Member) (rest : Bytes) → length rest < length (spelled_member t rest)
length-spelled_member (name, value) rest =
    let inner = length-in_quotes value rest in
    let outer = length-in_quotes name (b':' ∷ in_quotes value rest) in omega arith

length-spelled_members :
    (m t : Member) (ms ts : List Member)
    → AllSpelled (m ∷ ms) (t ∷ ts)
    → length ms < length (spelled_members (t ∷ ts))
unfolding spelled_members
length-spelled_members m t [] [] sp =
    let longer = length-spelled_member t (b'}' ∷ []) in omega arith
length-spelled_members m t [] (u ∷ ts) (one, sp) = absurd sp
length-spelled_members m t (n ∷ ms) [] (one, sp) = absurd sp
length-spelled_members m t (n ∷ ms) (u ∷ ts) (one, sp) =
    let longer = length-spelled_member t (b',' ∷ spelled_members (u ∷ ts)) in
    let rest = length-spelled_members n u ms ts sp in omega arith

-- The decoder reads an object by what its texts mean, however they are spelled.
pub read_top-Spelled :
    (ms ts : List Member)
    → All IsText ms
    → AllSpelled ms ts
    → read_top (b'{' ∷ spelled_members ts) ≡ some (map as_pair ms)
unfolding read_top spelled_members skip_space expect
read_top-Spelled [] [] runes sp = refl
read_top-Spelled [] (t ∷ ts) runes sp = absurd sp
read_top-Spelled (m ∷ ms) [] runes sp = absurd sp
read_top-Spelled (m ∷ ms) (t ∷ []) runes sp =
    read_pairs-Spelled _ m t ms [] (length-spelled_members m t ms [] sp) runes sp
read_top-Spelled (m ∷ ms) (t ∷ u ∷ ts) runes sp =
    read_pairs-Spelled _ m t ms (u ∷ ts) (length-spelled_members m t ms (u ∷ ts) sp) runes sp
