-- ===== src/Go/Json/Rows.antt =====
-- What `json.Encoder` writes for structs of strings and booleans and for slices of them, and a
-- reader of such texts by RFC 8259.
pub mod RoundTrip
use dota_cuck.Prelude.{
  ℕ, zero, suc, Bool, true, false, Option, none, some, List, [], ◌∷◌, ◌++◌, Bytes, codes, ◌==◌,
  if◌then◌else◌, ◌>>=◌, length,
}
use dota_cuck.Go.Json.{quoted, read_quoted, expect, map_option}
use dota_cuck.Go.Json.Decode.{expect_all}

pub data Scalar : Type 0 where
  text : Bytes → Scalar
  flag : Bool → Scalar

abbrev pub Cell : Type 0
Cell = Bytes × Scalar

-- A struct with at least one field.
abbrev pub Row : Type 0
Row = Cell × List Cell

abbrev pub word : Bool → Bytes
word true = codes "true"
word false = codes "false"

abbrev pub write_scalar : Scalar → Bytes → Bytes
write_scalar (text s) rest = quoted s rest
write_scalar (flag b) rest = word b ++ rest

abbrev pub write_cell : Cell → Bytes → Bytes
write_cell (name, v) rest = quoted name (b':' ∷ write_scalar v rest)

unfoldable pub write_cells : Cell → List Cell → Bytes → Bytes
write_cells c [] rest = write_cell c (b'}' ∷ rest)
write_cells c (d ∷ cs) rest = write_cell c (b',' ∷ write_cells d cs rest)

abbrev pub write_row : Row → Bytes → Bytes
write_row (c, cs) rest = b'{' ∷ write_cells c cs rest

unfoldable pub write_tail : List Row → Bytes → Bytes
write_tail [] rest = b']' ∷ rest
write_tail (r ∷ rs) rest = b',' ∷ write_row r (write_tail rs rest)

unfoldable pub write_rows : List Row → Bytes → Bytes
write_rows [] rest = b'[' ∷ b']' ∷ rest
write_rows (r ∷ rs) rest = b'[' ∷ write_row r (write_tail rs rest)

abbrev text_scalar : Bytes × Bytes → Scalar × Bytes
text_scalar (s, rest) = (text s, rest)

abbrev flag_scalar : Bool → Bytes → Scalar × Bytes
flag_scalar b rest = (flag b, rest)

abbrev read_flag : Bytes → Option (Scalar × Bytes)
read_flag s = elim (expect_all (word true) s) [
  | some rest ↦ some (flag true, rest)
  | none ↦ map_option (flag_scalar false) (expect_all (word false) s)
]

unfoldable pub read_scalar : Bytes → Option (Scalar × Bytes)
read_scalar s = elim (expect b'"' s) [
  | some t ↦ map_option text_scalar (read_quoted s)
  | none ↦ read_flag s
]

unfoldable pub read_cell : Bytes → Option (Cell × Bytes)
read_cell s = do
  (name, a) ← read_quoted s
  b ← expect b':' a
  (v, c) ← read_scalar b
  some ((name, v), c)

abbrev add_cell : Cell → Row × Bytes → Row × Bytes
add_cell c ((d, cs), rest) = ((c, d ∷ cs), rest)

-- At most `k` fields.
unfoldable pub read_cells : ℕ → Bytes → Option (Row × Bytes)
read_cells zero s = none
read_cells (suc k) s = elim (read_cell s) [
  | none ↦ none
  | some (c, []) ↦ none
  | some (c, x ∷ rest) ↦
      if x == b'}'
      then some ((c, []), rest)
      else if x == b','
      then map_option (add_cell c) (read_cells k rest)
      else none
]

unfoldable pub read_row : ℕ → Bytes → Option (Row × Bytes)
read_row k s = expect b'{' s >>= read_cells k

abbrev add_row : Row → List Row × Bytes → List Row × Bytes
add_row r (rs, rest) = (r ∷ rs, rest)

-- The structs behind the first, each with at most `k` fields, and at most `n` of them.
unfoldable pub read_tail : ℕ → ℕ → Bytes → Option (List Row × Bytes)
read_tail k n [] = none
read_tail k zero (x ∷ s) = if x == b']' then some ([], s) else none
read_tail k (suc n) (x ∷ s) =
    if x == b']'
    then some ([], s)
    else if x == b','
    then elim (read_row k s) [
      | none ↦ none
      | some (r, rest) ↦ map_option (add_row r) (read_tail k n rest)
    ]
    else none

abbrev pub after_row : ℕ → ℕ → Option (Row × Bytes) → Option (List Row × Bytes)
after_row k n none = none
after_row k n (some (r, rest)) = map_option (add_row r) (read_tail k n rest)

unfoldable pub first_row : ℕ → ℕ → Bytes → Option (List Row × Bytes)
first_row k n [] = none
first_row k n (x ∷ s) = if x == b']' then some ([], s) else after_row k n (read_row k (x ∷ s))

unfoldable pub read_rows : ℕ → ℕ → Bytes → Option (List Row × Bytes)
read_rows k n s = expect b'[' s >>= first_row k n
