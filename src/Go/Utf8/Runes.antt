-- ===== src/Go/Utf8/Runes.antt =====
-- The code points of a string's bytes: a byte that belongs to no character reads as U+FFFD, which
-- is what a reader of its JSON text gets for it.
use Prim.Native.Char.{code}
use Prim.Native.String.{String}
use dota_cuck.Prelude.{
  All, ℕ, zero, suc, ◌+◌, ◌-◌, ◌*◌, ◌/◌, ◌%◌, ◌<◌, ◌≤◌, ◌≡◌, refl, ap, ◌∙◌, ◌⊎◌, inl, inr,
  Bool-cases, ◌&&◌, [], ◌∷◌, ◌++◌, Bytes, codes, ltb, leb, ◌==◌, if◌then◌else◌, arith,
}
use dota_cuck.Go.Utf8.{encode_rune, utf8, code_apart}

-- Between characters, or within one: the continuation bytes to come after the next, the bounds of
-- the next, the value so far, and how many bytes were taken before the last.
pub data Place : Type 0 where
  between : Place
  within : ℕ → ℕ → ℕ → ℕ → ℕ → Place

abbrev bad : Bytes × Place
bad = (0xFFFD ∷ [], between)

unfoldable pub lead : ℕ → Bytes × Place
lead c =
    if ltb c 0x80
    then (c ∷ [], between)
    else if ltb c 0xC2
    then bad
    else if ltb c 0xE0
    then ([], within 0 0x80 0xBF (c - 0xC0) 0)
    else if ltb c 0xF0
    then (
      [],
      within 1 (if c == 0xE0 then 0xA0 else 0x80) (if c == 0xED then 0x9F else 0xBF) (c - 0xE0) 0,
    )
    else if ltb c 0xF5
    then (
      [],
      within 2 (if c == 0xF0 then 0x90 else 0x80) (if c == 0xF4 then 0x8F else 0xBF) (c - 0xF0) 0,
    )
    else bad

abbrev replaced : ℕ → Bytes
replaced zero = 0xFFFD ∷ []
replaced (suc n) = 0xFFFD ∷ replaced n

abbrev before : Bytes → Bytes × Place → Bytes × Place
before out (more, p) = (out ++ more, p)

unfoldable pub take_byte : Place → ℕ → Bytes × Place
unfolding lead
take_byte between c = lead c
take_byte (within zero lo hi v n) c =
    if leb lo c && leb c hi
    then ((v * 64 + (c - 0x80)) ∷ [], between)
    else before (replaced n) (lead c)
take_byte (within (suc k) lo hi v n) c =
    if leb lo c && leb c hi
    then ([], within k 0x80 0xBF (v * 64 + (c - 0x80)) (suc n))
    else before (replaced n) (lead c)

unfoldable pub runes_from : Place → Bytes → Bytes
runes_from between [] = []
runes_from (within k lo hi v n) [] = replaced n
runes_from p (c ∷ s) = let (out, p') = take_byte p c in out ++ runes_from p' s

abbrev pub runes : Bytes → Bytes
runes = runes_from between

abbrev IsCharacter : ℕ → Type 0
IsCharacter c = (c < 55296) ⊎ (57343 < c) × (c < 1114112)

two :
    (c : ℕ) (s : Bytes)
    → 0x80 ≤ c
    → c < 0x800
    → runes_from between ((192 + c / 64) ∷ (128 + c % 64) ∷ s) ≡ c ∷ runes_from between s
unfolding runes_from take_byte lead
two c s low high = ground arith

three :
    (c : ℕ) (s : Bytes)
    → IsCharacter c
    → 0x800 ≤ c
    → c < 0x10000
    → runes_from between ((224 + c / 4096) ∷ (128 + c / 64 % 64) ∷ (128 + c % 64) ∷ s)
      ≡ c ∷ runes_from between s
unfolding runes_from take_byte lead
three c s is low high = ground arith

continued :
    (k lo hi v n c : ℕ) (s : Bytes)
    → lo ≤ c
    → c ≤ hi
    → runes_from (within (suc k) lo hi v n) (c ∷ s)
      ≡ runes_from (within k 0x80 0xBF (v * 64 + (c - 0x80)) (suc n)) s
unfolding runes_from take_byte
continued k lo hi v n c s low high = ground arith

ended :
    (lo hi v n c : ℕ) (s : Bytes)
    → lo ≤ c
    → c ≤ hi
    → runes_from (within zero lo hi v n) (c ∷ s) ≡ (v * 64 + (c - 0x80)) ∷ runes_from between s
unfolding runes_from take_byte
ended lo hi v n c s low high = ground arith

abbrev lowest : ℕ → ℕ
lowest a = if a == 0xF0 then 0x90 else 0x80

abbrev highest : ℕ → ℕ
highest a = if a == 0xF4 then 0x8F else 0xBF

led_by_four :
    (a : ℕ) (s : Bytes)
    → 0xF0 ≤ a
    → a ≤ 0xF4
    → runes_from between (a ∷ s) ≡ runes_from (within 2 (lowest a) (highest a) (a - 0xF0) 0) s
unfolding runes_from take_byte lead
led_by_four a s low high = ground arith

second_fits :
    (c : ℕ)
    → 0x10000 ≤ c
    → c < 0x110000
    → (lowest (240 + c / 262144) ≤ 128 + c / 4096 % 64)
      × (128 + c / 4096 % 64 ≤ highest (240 + c / 262144))
second_fits c low high = (ground arith, ground arith)

four :
    (c : ℕ) (s : Bytes)
    → 0x10000 ≤ c
    → c < 0x110000
    → runes_from between
        ((240 + c / 262144) ∷ (128 + c / 4096 % 64) ∷ (128 + c / 64 % 64) ∷ (128 + c % 64) ∷ s)
      ≡ c ∷ runes_from between s
four c s low high =
    let (least, most) = second_fits c low high in
    led_by_four (240 + c / 262144) _ (omega arith) (omega arith)
    ∙ continued 1 _ _ _ 0 (128 + c / 4096 % 64) _ least most
    ∙ continued 0 0x80 0xBF _ 1 (128 + c / 64 % 64) _ (omega arith) (omega arith)
    ∙ ended 0x80 0xBF _ 2 (128 + c % 64) s (omega arith) (omega arith)
    ∙ ap (λ d. d ∷ runes_from between s) (omega arith)

one : (c : ℕ) (s : Bytes) → c < 0x80 → runes_from between (c ∷ s) ≡ c ∷ runes_from between s
unfolding runes_from take_byte lead
one c s high = ground arith

runes_from-encode_rune :
    (c : ℕ) (s : Bytes)
    → IsCharacter c
    → runes_from between (encode_rune c ++ s) ≡ c ∷ runes_from between s
runes_from-encode_rune c s is = elim (Bool-cases (ltb c 0x80)) [
  | inl ascii ↦ rw ascii (one c s (ground arith))
  | inr more ↦ rw more (elim (Bool-cases (ltb c 0x800)) [
    | inl short ↦ rw short (two c s (ground arith) (ground arith))
    | inr longer ↦ rw longer (elim (Bool-cases (ltb c 0x10000)) [
      | inl basic ↦ rw basic (three c s is (ground arith) (ground arith))
      | inr beyond ↦ rw beyond (
          four c s (ground arith)
            (elim is [ inl low ↦ ground arith | inr (low, top) ↦ ground arith ]))
    ])
  ])
]

pub runes-utf8 : (s : String) → runes (utf8 (codes s)) ≡ codes s
unfolding utf8 runes_from
runes-utf8 String.[] = refl
runes-utf8 (String.◌∷◌ c s) =
    runes_from-encode_rune (code c) (utf8 (codes s)) (code_apart c)
    ∙ ap (λ t. code c ∷ t) (runes-utf8 s)

pub runes-ascii : (s : Bytes) → All (λ c. c < 128) s → runes s ≡ s
unfolding runes_from
runes-ascii [] h = refl
runes-ascii (c ∷ s) (low, h) = one c s low ∙ ap (λ t. c ∷ t) (runes-ascii s h)
