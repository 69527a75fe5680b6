-- ===== src/Prelude/Text.antt =====
-- Go's strings and maps. A text that the program walks byte by byte is `Bytes`; one that it only
-- compares or passes on is a native `String`. A map with string keys is a function.
use Prim.Native.Nat.{ℕ, ◌<◌}
use Prim.Native.Char.{code}
use Prim.Native.String.{String}
use mathlib.Core.Path.{◌≡◌, refl}
use mathlib.Core.Bool.{Bool, true, false, ◌&&◌}
use mathlib.Core.List.{List, [], ◌∷◌}
use mathlib.Core.Option.{Option, none, some}
use text.Mathlib.Text.{◌==◌ as str_eq}
use dota_cuck.Prelude.Lists.{All}
use native.Mathlib.Omega.{arith}
use dota_cuck.Prelude.Tests.{◌==◌, if◌then◌else◌}

abbrev pub Bytes : Type 0
Bytes = List ℕ

-- Every entry fits a byte.
abbrev pub AreBytes : Bytes → Type 0
AreBytes = All (λ c. c < 256)

-- The code points of a literal: its bytes, since the program's literals are ASCII.
abbrev pub codes : String → Bytes
codes String.[] = []
codes (String.◌∷◌ c s) = code c ∷ codes s

-- `a == b` on texts.
unfoldable pub bytes_eq : Bytes → Bytes → Bool
bytes_eq [] [] = true
bytes_eq (c ∷ s) (d ∷ t) = c == d && bytes_eq s t
bytes_eq _ _ = false

pub bytes_eq_refl : (s : Bytes) → bytes_eq s s ≡ true
unfolding bytes_eq
bytes_eq_refl [] = refl
bytes_eq_refl (c ∷ s) = ground (arith, bytes_eq_refl s)

pub eq_of_bytes_eq : (s t : Bytes) → bytes_eq s t ≡ true → s ≡ t
unfolding bytes_eq
eq_of_bytes_eq [] [] h = refl
eq_of_bytes_eq (c ∷ s) (d ∷ t) h = ground (arith, eq_of_bytes_eq s t)
eq_of_bytes_eq [] (d ∷ t) h = absurd (ground arith)
eq_of_bytes_eq (c ∷ s) [] h = absurd (ground arith)

-- `len(s) == 0`, `s == ""`
abbrev pub is_empty : Bytes → Bool
is_empty [] = true
is_empty (c ∷ s) = false

abbrev pub Dict {ℓ} : Type ℓ → Type ℓ
Dict V = String → Option V

module _ {ℓ} {V : Type ℓ} where
  -- `make(map[string]V)`
  abbrev pub empty : Dict V
  empty k = none

  -- `m[k] = v`
  abbrev pub put : Dict V → String → V → Dict V
  put m k v j = if str_eq k j then some v else m j

  -- `delete(m, k)`
  abbrev pub remove : Dict V → String → Dict V
  remove m k j = if str_eq k j then none else m j
