-- ===== src/Go/Json/RoundTrip.antt =====
-- The reader gives back what the writer was given.
use dota_cuck.Prelude.{
  ℕ, zero, suc, ◌+◌, ◌*◌, ◌/◌, ◌%◌, ◌<◌, ◌≡◌, refl, ap, ◌∙◌, true, false, none, some, List, [], ◌∷◌,
  ◌++◌, append_assoc, Bytes, ltb, ◌==◌, Bool-cases, Option-cases, inl, inr, arith, length,
}
use dota_cuck.Go.Json.{
  hex, short_escape, needs_code, write_char, write_chars, quoted, Member, write_member,
  write_members, write_object, plain, code, hex_value, long_of, next, push, read_chars, expect,
  read_quoted, read_member, read_members, read_object,
}

hex_value-hex : (n : ℕ) → n < 16 → hex_value (hex n) ≡ some n
unfolding hex_value
hex_value-hex n lt = ground arith

pub long_of-short_escape :
    (c e : ℕ) → short_escape c ≡ some e → (long_of e ≡ some c) × ((e == b'u') ≡ false)
unfolding short_escape long_of
long_of-short_escape c e h = ground arith

raw :
    (c : ℕ)
    → short_escape c ≡ none
    → needs_code c ≡ false
    → ((c == b'"') ≡ false) × ((c == 92) ≡ false) × (ltb c 32 ≡ false)
unfolding short_escape
raw c h k = ground arith

small : (c : ℕ) → needs_code c ≡ true → c < 65536
small c h = ground arith

read_digit :
    (k v n : ℕ) (s : Bytes)
    → n < 16
    → read_chars (code (suc k) v) (hex n ∷ s) ≡ read_chars (code k (v * 16 + n)) s
unfolding read_chars next
read_digit k v n s lt = rw (read_chars, next, hex_value-hex n lt)

read_last_digit :
    (v n : ℕ) (s : Bytes)
    → n < 16
    → read_chars (code zero v) (hex n ∷ s) ≡ push (v * 16 + n) (read_chars plain s)
unfolding read_chars next
read_last_digit v n s lt = rw (read_chars, next, hex_value-hex n lt)

read_opening : (s : Bytes) → read_chars plain (92 ∷ b'u' ∷ s) ≡ read_chars (code 3 0) s
unfolding read_chars next
read_opening s = refl

pub read_code :
    (i j k l : ℕ) (s : Bytes)
    → i < 16
    → j < 16
    → k < 16
    → l < 16
    → read_chars plain (92 ∷ b'u' ∷ hex i ∷ hex j ∷ hex k ∷ hex l ∷ s)
      ≡ push ((((0 * 16 + i) * 16 + j) * 16 + k) * 16 + l) (read_chars plain s)
read_code i j k l s hi hj hk hl =
    read_opening (hex i ∷ hex j ∷ hex k ∷ hex l ∷ s)
    ∙ read_digit 2 0 i (hex j ∷ hex k ∷ hex l ∷ s) hi
    ∙ read_digit 1 (0 * 16 + i) j (hex k ∷ hex l ∷ s) hj
    ∙ read_digit 0 ((0 * 16 + i) * 16 + j) k (hex l ∷ s) hk
    ∙ read_last_digit (((0 * 16 + i) * 16 + j) * 16 + k) l s hl

pub code_value :
    (c : ℕ)
    → c < 65536
    → (((0 * 16 + c / 4096 % 16) * 16 + c / 256 % 16) * 16 + c / 16 % 16) * 16 + c % 16 ≡ c
code_value c small_c = omega arith

write_coded :
    (c : ℕ)
    → short_escape c ≡ none
    → needs_code c ≡ true
    → write_char c
      ≡ 92 ∷ b'u' ∷ hex (c / 4096 % 16) ∷ hex (c / 256 % 16) ∷ hex (c / 16 % 16) ∷ hex (c % 16) ∷ []
unfolding write_char
write_coded c none_short coded = rw (none_short, coded)

read-write_char :
    (c : ℕ) (s : Bytes) → read_chars plain (write_char c ++ s) ≡ push c (read_chars plain s)
unfolding read_chars write_char next
read-write_char c s = elim (Option-cases (short_escape c)) [
  | inr (e, short) ↦ let (long, other) = long_of-short_escape c e short in ground arith
  | inl none_short ↦ elim (Bool-cases (needs_code c)) [
    | inl coded ↦ rw (write_coded c none_short coded) (
        read_code (c / 4096 % 16) (c / 256 % 16) (c / 16 % 16) (c % 16) s (omega arith)
          (omega arith) (omega arith) (omega arith)
        ∙ ap (λ v. push v (read_chars plain s)) (code_value c (small c coded)))
    | inr as_is ↦ let (q, b, l) = raw c none_short as_is in ground arith
  ]
]

pub read-write_chars :
    (v rest : Bytes) → read_chars plain (write_chars v ++ b'"' ∷ rest) ≡ some (v, rest)
unfolding read_chars next write_chars
read-write_chars [] rest = refl
read-write_chars (c ∷ v) rest =
    ap (read_chars plain) (append_assoc (write_char c) (write_chars v) (b'"' ∷ rest))
    ∙ read-write_char c (write_chars v ++ b'"' ∷ rest)
    ∙ ap (push c) (read-write_chars v rest)

pub read_quoted-quoted : (v rest : Bytes) → read_quoted (quoted v rest) ≡ some (v, rest)
unfolding read_quoted expect
read_quoted-quoted v rest = read-write_chars v rest

read_member-write_member :
    (m : Member) (rest : Bytes) → read_member (write_member m rest) ≡ some (m, rest)
unfolding read_member expect
read_member-write_member (name, value) rest =
    rw (read_quoted-quoted name (b':' ∷ quoted value rest), read_quoted-quoted value rest)

-- Members are read back in the order they were written.
read_members-write_members :
    (k : ℕ) (m : Member) (ms : List Member)
    → length ms < k
    → read_members k (write_members (m ∷ ms)) ≡ some (m ∷ ms)
unfolding read_members write_members
read_members-write_members zero m ms h = absurd (omega arith)
read_members-write_members (suc k) m [] h =
    rw (read_members, write_members, read_member-write_member m (b'}' ∷ []))
read_members-write_members (suc k) m (n ∷ ms) h = rw (
  read_members,
  write_members,
  read_member-write_member m (b',' ∷ write_members (n ∷ ms)),
  read_members-write_members k n ms (omega arith),
)

pub read_object-write_object :
    (k : ℕ) (m : Member) (ms : List Member)
    → length ms < k
    → read_object k (write_object (m ∷ ms)) ≡ some (m ∷ ms)
unfolding read_object write_object expect
read_object-write_object k m ms h = read_members-write_members k m ms h
