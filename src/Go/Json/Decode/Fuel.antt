-- ===== src/Go/Json/Decode/Fuel.antt =====
-- A text of n characters has at most n members, so the decoder never runs out of rounds.
use dota_cuck.Prelude.{
  ℕ, zero, suc, ◌≤◌, ◌<◌, ◌≡◌, refl, sym, Option-cases, inl, inr, Option, none, some, [], ◌∷◌,
  Bytes, length, arith, ◌>>=◌,
}
use dota_cuck.Go.Json.{
  Mode, plain, Next, closes, emits, goes, bad, next, push, read_chars, expect, map_option,
}
use dota_cuck.Go.Json.Decode.{
  skip_space, read_text, expect_all, null, Value, read_value, Pair, read_pair, read_pairs,
}

module _ {A B : Type 0} where
  bind_some :
      (x : Option A) (f : A → Option B) (b : B)
      → (x >>= f) ≡ some b
      → (a : A) × (x ≡ some a) × (f a ≡ some b)
  bind_some none f b h = absurd (ground arith)
  bind_some (some a) f b h = (a, refl, h)

  map_some :
      (x : Option A) (f : A → B) (b : B)
      → map_option f x ≡ some b
      → (a : A) × (x ≡ some a) × (f a ≡ b)
  map_some none f b h = absurd (ground arith)
  map_some (some a) f b h = (a, refl, ground arith)

length-skip_space : (s : Bytes) → length (skip_space s) ≤ length s
unfolding skip_space
length-skip_space [] = omega arith
length-skip_space (c ∷ s) = ground (arith, length-skip_space s)

length-expect : (c : ℕ) (s t : Bytes) → expect c s ≡ some t → length t < length s
unfolding expect
length-expect c [] t h = absurd (ground arith)
length-expect c (d ∷ s) t h = ground arith

abbrev Shortens : Bytes → Type 0
Shortens s = (m : Mode) (v rest : Bytes) → read_chars m s ≡ some (v, rest) → length rest < length s

push-Shortens :
    (a : ℕ) (s v rest : Bytes)
    → Shortens s
    → push a (read_chars plain s) ≡ some (v, rest)
    → length rest < suc (length s)
push-Shortens a s v rest ih h = elim (Option-cases (read_chars plain s)) [
  | inl stops ↦ absurd (let h' = rw stops at h in ground arith)
  | inr ((v', rest'), e) ↦ let h' = rw e at h in let shorter = ih plain v' rest' e in ground arith
]

read_chars-Shortens :
    (n : Next) (m : Mode) (c : ℕ) (s v rest : Bytes)
    → next m c ≡ n
    → Shortens s
    → read_chars m (c ∷ s) ≡ some (v, rest)
    → length rest < suc (length s)
unfolding read_chars
read_chars-Shortens closes m c s v rest e ih h = let h' = rw (read_chars, e) at h in ground arith
read_chars-Shortens (emits a) m c s v rest e ih h =
    push-Shortens a s v rest ih (rw (read_chars, e) at h)
read_chars-Shortens (goes m') m c s v rest e ih h =
    let shorter = ih m' v rest (rw (read_chars, e) at h) in omega arith
read_chars-Shortens bad m c s v rest e ih h =
    absurd (let h' = rw (read_chars, e) at h in ground arith)

length-read_chars : (s : Bytes) → Shortens s
unfolding read_chars
length-read_chars [] m v rest h = absurd (ground arith)
length-read_chars (c ∷ s) m v rest h =
    read_chars-Shortens (next m c) m c s v rest refl (length-read_chars s) h

length-read_text : (s v rest : Bytes) → read_text s ≡ some (v, rest) → length rest < length s
unfolding read_text
length-read_text s v rest h =
    let (t, opened, h') = bind_some (expect b'"' s) _ (v, rest) h in
    let ((v', rest'), chars, e) = map_some (read_chars plain t) _ (v, rest) h' in
    let shorter = length-expect b'"' s t opened in
    let shorter' = length-read_chars t plain v' rest' chars in ground arith

length-expect_all : (w s rest : Bytes) → expect_all w s ≡ some rest → length rest ≤ length s
unfolding expect_all
length-expect_all [] s rest h = ground arith
length-expect_all (c ∷ w) s rest h =
    let (t, first, h') = bind_some (expect c s) (expect_all w) rest h in
    let shorter = length-expect c s t first in
    let shorter' = length-expect_all w t rest h' in omega arith

length-read_value :
    (s : Bytes) (v : Value) (rest : Bytes) → read_value s ≡ some (v, rest) → length rest ≤ length s
unfolding read_value
length-read_value s v rest h = elim (Option-cases (expect b'"' s)) [
  | inl other ↦
      let (t, word, e) = map_some (expect_all null s) _ (v, rest) (rw (read_value, other) at h) in
      let shorter = length-expect_all null s t word in ground arith
  | inr (t, opened) ↦
      let ((v', rest'), text, e) =
        map_some (read_text s) _ (v, rest) (rw (read_value, opened) at h) in
      let shorter = length-read_text s v' rest' text in ground arith
]

length-read_pair :
    (s : Bytes) (p : Pair) (rest : Bytes) → read_pair s ≡ some (p, rest) → length rest < length s
unfolding read_pair
length-read_pair s p rest h =
    let ((name, a), named, h₁) = bind_some (read_text (skip_space s)) _ (p, rest) h in
    let (b, colon, h₂) = bind_some (expect b':' (skip_space a)) _ (p, rest) h₁ in
    let ((value, c), valued, h₃) = bind_some (read_value (skip_space b)) _ (p, rest) h₂ in
    let l₀ = length-skip_space s in
    let l₁ = length-read_text (skip_space s) name a named in
    let l₂ = length-skip_space a in
    let l₃ = length-expect b':' (skip_space a) b colon in
    let l₄ = length-skip_space b in
    let l₅ = length-read_value (skip_space b) value c valued in
    let l₆ = length-skip_space c in ground arith

nothing_read : (k : ℕ) → read_pairs k [] ≡ none
unfolding read_pairs read_pair read_text skip_space expect
nothing_read zero = refl
nothing_read (suc k) = refl

-- However many rounds beyond the text's length, the members that are read are the same.
pub read_pairs_enough :
    (j k : ℕ) (s : Bytes) → length s ≤ j → length s ≤ k → read_pairs j s ≡ read_pairs k s
unfolding read_pairs
read_pairs_enough zero k [] hj hk = sym (nothing_read k)
read_pairs_enough zero k (c ∷ s) hj hk = absurd (omega arith)
read_pairs_enough (suc j) zero [] hj hk = nothing_read (suc j)
read_pairs_enough (suc j) zero (c ∷ s) hj hk = absurd (omega arith)
read_pairs_enough (suc j) (suc k) s hj hk = elim (Option-cases (read_pair s)) [
  | inl stops ↦ rw (read_pairs, stops)
  | inr ((p, []), e) ↦ rw (read_pairs, e)
  | inr ((p, c ∷ rest), e) ↦
      let shorter = length-read_pair s p (c ∷ rest) e in
      rw (read_pairs, e, read_pairs_enough j k rest (omega arith) (omega arith))
]
