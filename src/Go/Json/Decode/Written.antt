-- ===== src/Go/Json/Decode/Written.antt =====
-- The decoder reads back an object of strings as it was written.
use Prim.Native.Char.{Char, code}
use Prim.Native.String.{String}
use dota_cuck.Prelude.{
  ℕ, zero, suc, ◌<◌, ◌≡◌, refl, ap, false, none, some, List, [], ◌∷◌, Bytes, codes, All, map,
  length-append, inl, inr, length, arith,
}
use dota_cuck.Go.Utf8.{code_apart}
use dota_cuck.Go.Json.{
  Member, quoted, write_member, write_members, write_object, write_chars, expect,
}
use dota_cuck.Go.Json.RoundTrip.{read-write_chars}
use dota_cuck.Go.Json.Decode.{
  is_space, skip_space, is_high, is_low, join_units, read_text, read_value, read_pair, read_pairs,
  read_top, Pair,
}

abbrev IsRune : ℕ → Type 0
IsRune c = (is_high c ≡ false) × (is_low c ≡ false)

-- No entry is a surrogate.
abbrev pub AreRunes : Bytes → Type 0
AreRunes = All IsRune

code-IsRune : (c : Char) → IsRune (code c)
code-IsRune c = elim (code_apart c) [ inl below ↦ ground arith | inr (above, top) ↦ ground arith ]

pub codes-AreRunes : (s : String) → AreRunes (codes s)
codes-AreRunes String.[] = tt
codes-AreRunes (String.◌∷◌ c s) = (code-IsRune c, codes-AreRunes s)

pub join_units-AreRunes : (s : Bytes) → AreRunes s → join_units none s ≡ s
unfolding join_units
join_units-AreRunes [] h = refl
join_units-AreRunes (c ∷ s) ((high, low), h) =
    rw (high, low) (ap (λ t. c ∷ t) (join_units-AreRunes s h))

read_text-quoted : (s rest : Bytes) → AreRunes s → read_text (quoted s rest) ≡ some (s, rest)
unfolding read_text expect
read_text-quoted s rest h = rw (read-write_chars s rest, join_units-AreRunes s h)

read_value-quoted : (s rest : Bytes) → AreRunes s → read_value (quoted s rest) ≡ some (some s, rest)
unfolding read_value expect
read_value-quoted s rest h = rw (read_text-quoted s rest h)

read_pair-write_member :
    (name value : Bytes) (c : ℕ) (rest : Bytes)
    → AreRunes name
    → AreRunes value
    → is_space c ≡ false
    → read_pair (write_member (name, value) (c ∷ rest)) ≡ some ((name, some value), c ∷ rest)
unfolding read_pair skip_space expect
read_pair-write_member name value c rest hn hv ink = rw (
  read_text-quoted name (b':' ∷ quoted value (c ∷ rest)) hn,
  read_value-quoted value (c ∷ rest) hv,
  ink,
)

abbrev pub as_pair : Member → Pair
as_pair (name, value) = (name, some value)

abbrev pub IsText : Member → Type 0
IsText (name, value) = AreRunes name × AreRunes value

read_pairs-write_members :
    (k : ℕ) (m : Member) (ms : List Member)
    → length ms < k
    → All IsText (m ∷ ms)
    → read_pairs k (write_members (m ∷ ms)) ≡ some (map as_pair (m ∷ ms))
unfolding read_pairs write_members
read_pairs-write_members zero m ms h t = absurd (omega arith)
read_pairs-write_members (suc k) (name, value) [] h ((hn, hv), t) =
    rw (read_pairs, write_members, read_pair-write_member name value b'}' [] hn hv refl)
read_pairs-write_members (suc k) (name, value) (n ∷ ms) h ((hn, hv), t) = rw (
  read_pairs,
  write_members,
  read_pair-write_member name value b',' (write_members (n ∷ ms)) hn hv refl,
  read_pairs-write_members k n ms (omega arith) t,
)

pub length-quoted : (s rest : Bytes) → length rest < length (quoted s rest)
length-quoted s rest = rw (length-append (write_chars s) (b'"' ∷ rest)) (omega arith)

length-write_member : (m : Member) (rest : Bytes) → length rest < length (write_member m rest)
length-write_member (name, value) rest =
    let inner = length-quoted value rest in
    let outer = length-quoted name (b':' ∷ quoted value rest) in omega arith

length-write_members : (ms : List Member) (m : Member) → length ms < length (write_members (m ∷ ms))
unfolding write_members
length-write_members [] m = let longer = length-write_member m (b'}' ∷ []) in omega arith
length-write_members (n ∷ ms) m =
    let longer = length-write_member m (b',' ∷ write_members (n ∷ ms)) in
    let rest = length-write_members ms n in omega arith

pub read_top-write_object :
    (ms : List Member) → All IsText ms → read_top (write_object ms) ≡ some (map as_pair ms)
unfolding read_top write_object write_members skip_space expect
read_top-write_object [] t = refl
read_top-write_object (m ∷ []) t = read_pairs-write_members _ m [] (length-write_members [] m) t
read_top-write_object (m ∷ n ∷ ms) t =
    read_pairs-write_members _ m (n ∷ ms) (length-write_members (n ∷ ms) m) t
