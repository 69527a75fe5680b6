-- ===== src/Api/Bearer.antt =====
-- control-plane/internal/api/middleware.go: the token of an Authorization header.
use Prim.Native.Nat.{zero, suc}
use dota_cuck.Prelude.{
  ℕ, ◌+◌, ◌≤◌, ◌<◌, ◌≡◌, ◌≢◌, ◌↔◌, refl, ap, sym, ◌∙◌, subst, Bool, true, false, not, ◌||◌, ◌&&◌,
  List, [], ◌∷◌, ◌++◌, map, Option, none, some, arith, Bytes, codes, bytes_eq, length,
  length-append, leb, if◌then◌else◌,
}

module _ {ℓ} {A : Type ℓ} where
  abbrev take : ℕ → List A → List A
  take zero xs = []
  take (suc n) [] = []
  take (suc n) (x ∷ xs) = x ∷ take n xs

  abbrev drop : ℕ → List A → List A
  drop zero xs = xs
  drop (suc n) [] = []
  drop (suc n) (x ∷ xs) = drop n xs

  take-append-drop : (n : ℕ) (xs : List A) → take n xs ++ drop n xs ≡ xs
  take-append-drop zero xs = refl
  take-append-drop (suc n) [] = refl
  take-append-drop (suc n) (x ∷ xs) = ap (◌∷◌ x) (take-append-drop n xs)

  take-append : (p s : List A) → take (length p) (p ++ s) ≡ p
  take-append [] s = refl
  take-append (x ∷ p) s = ap (◌∷◌ x) (take-append p s)

  drop-append : (p s : List A) → drop (length p) (p ++ s) ≡ s
  drop-append [] s = refl
  drop-append (x ∷ p) s = drop-append p s

-- `strings.EqualFold` for a text whose letters fold within ASCII only, as those of the prefix do.
abbrev pub fold : ℕ → ℕ
fold c = if leb b'A' c && leb c b'Z' then c + 32 else c

abbrev pub equal_fold : Bytes → Bytes → Bool
equal_fold s t = bytes_eq (map fold s) (map fold t)

abbrev pub prefix : Bytes
prefix = codes "Bearer "

-- `bearerToken`, of the header's text, which is empty where there is no header.
unfoldable pub bearer_token : Bytes → Option Bytes
bearer_token h =
    if leb (length h) (length prefix) || not (equal_fold (take (length prefix) h) prefix)
    then none
    else some (drop (length prefix) h)

length-take : (n : ℕ) {A : Type 0} (xs : List A) → n ≤ length xs → length (take n xs) ≡ n
length-take zero xs h = refl
length-take (suc n) [] h = absurd (omega arith)
length-take (suc n) (x ∷ xs) h = ap suc (length-take n xs (omega arith))

bearer_token_sound :
    (h token : Bytes)
    → bearer_token h ≡ some token
    → (scheme : Bytes) × (h ≡ scheme ++ token)
      × (token ≢ [])
      × (length scheme ≡ 7)
      × (equal_fold scheme prefix ≡ true)
unfolding bearer_token
bearer_token_sound h token e =
    let same : drop 7 h ≡ token = ground arith in
    let whole : h ≡ take 7 h ++ token = sym (take-append-drop 7 h) ∙ ap (◌++◌ (take 7 h)) same in
    let seven : length (take 7 h) ≡ 7 = length-take 7 h (ground arith) in
    (
      take 7 h,
      whole,
      (λ empty. absurd (
          omega (
            arith,
            ap length whole,
            length-append (take 7 h) token,
            ap length empty,
            seven,
            longer,
          ))),
      seven,
      ground arith,
    )
  where
    longer : 7 < length h
    longer = ground arith

bearer_token_complete :
    (scheme token : Bytes)
    → token ≢ []
    → length scheme ≡ 7
    → equal_fold scheme prefix ≡ true
    → bearer_token (scheme ++ token) ≡ some token
unfolding bearer_token
bearer_token_complete scheme [] ne seven same = absurd (ne refl)
bearer_token_complete scheme (c ∷ token) ne seven same =
    let whole = scheme ++ c ∷ token in
    let taken : take 7 whole ≡ scheme =
      subst (λ n. take n whole ≡ scheme) seven (take-append scheme (c ∷ token)) in
    let dropped : drop 7 whole ≡ c ∷ token =
      subst (λ n. drop n whole ≡ c ∷ token) seven (drop-append scheme (c ∷ token)) in
    let long : leb (length whole) 7 ≡ false =
      ground (arith, length-append scheme (c ∷ token), seven) in
    rw (long, taken, same, dropped)

-- A header gives a token exactly when it is seven bytes that read `Bearer ` in any case, followed by
-- that token, which is not empty.
pub bearer_token_iff :
    (h token : Bytes)
    → (bearer_token h ≡ some token) ↔ (
        (scheme : Bytes) × (h ≡ scheme ++ token)
        × (token ≢ [])
        × (length scheme ≡ 7)
        × (equal_fold scheme prefix ≡ true))
bearer_token_iff h token = (
  bearer_token_sound h token,
  (λ (scheme, e, ne, seven, same). rw e (bearer_token_complete scheme token ne seven same)),
)
