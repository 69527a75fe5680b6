-- ===== src/Go/Split.antt =====
-- `strings.Split(s, sep)` for a separator of one byte.
use dota_cuck.Prelude.{ℕ, ◌≡◌, refl, true, false, List, [], ◌∷◌, ◌++◌, arith, Bytes, ◌==◌, All}

-- Puts a byte in front of the first part.
abbrev pub push : ℕ → List Bytes → List Bytes
push c [] = (c ∷ []) ∷ []
push c (p ∷ ps) = (c ∷ p) ∷ ps

unfoldable pub split : ℕ → Bytes → List Bytes
split sep [] = [] ∷ []
split sep (c ∷ s) =
    let rest = split sep s in elim (c == sep) [ true ↦ [] ∷ rest | false ↦ push c rest ]

abbrev pub Lacks : ℕ → Bytes → Type 0
Lacks sep = All (λ c. (c == sep) ≡ false)

-- `strings.Join` of a first part and more.
abbrev pub joined : ℕ → Bytes → List Bytes → Bytes
joined sep p [] = p
joined sep p (q ∷ qs) = p ++ sep ∷ joined sep q qs

split_part : (sep : ℕ) (p : Bytes) → Lacks sep p → split sep p ≡ p ∷ []
unfolding split
split_part sep [] h = refl
split_part sep (c ∷ p) (hc, hp) = ground (arith, split_part sep p hp)

split_cons : (sep : ℕ) (p s : Bytes) → Lacks sep p → split sep (p ++ sep ∷ s) ≡ p ∷ split sep s
unfolding split
split_cons sep [] s h = ground arith
split_cons sep (c ∷ p) s (hc, hp) = ground (arith, split_cons sep p s hp)

-- Splitting joined parts that lack the separator gives them back.
pub split-joined :
    (sep : ℕ) (p : Bytes) (ps : List Bytes)
    → Lacks sep p
    → All (Lacks sep) ps
    → split sep (joined sep p ps) ≡ p ∷ ps
split-joined sep p [] h hs = split_part sep p h
split-joined sep p (q ∷ qs) h (hq, hqs) =
    rw (split_cons sep p (joined sep q qs) h, split-joined sep q qs hq hqs)
