-- ===== src/Go/Json/Rows/RoundTrip.antt =====
-- The reader gives back the structs that were written.
use dota_cuck.Prelude.{
  ℕ, zero, suc, ◌≤◌, ◌<◌, ◌≡◌, refl, true, false, some, List, [], ◌∷◌, Bytes, All, length, arith,
}
use dota_cuck.Go.Json.{expect}
use dota_cuck.Go.Json.RoundTrip.{read_quoted-quoted}
use dota_cuck.Go.Json.Decode.{expect_all}
use dota_cuck.Go.Json.Rows.{
  Scalar, text, flag, Cell, Row, write_scalar, write_cell, write_cells, write_row, write_tail,
  write_rows, first_row, read_scalar, read_cell, read_cells, read_row, read_tail, read_rows,
}

read_scalar-write_scalar :
    (v : Scalar) (rest : Bytes) → read_scalar (write_scalar v rest) ≡ some (v, rest)
unfolding read_scalar expect expect_all
read_scalar-write_scalar (text s) rest = rw (read_quoted-quoted s rest)
read_scalar-write_scalar (flag true) rest = refl
read_scalar-write_scalar (flag false) rest = refl

read_cell-write_cell : (c : Cell) (rest : Bytes) → read_cell (write_cell c rest) ≡ some (c, rest)
unfolding read_cell expect
read_cell-write_cell (name, v) rest =
    rw (read_quoted-quoted name (b':' ∷ write_scalar v rest), read_scalar-write_scalar v rest)

read_cells-write_cells :
    (k : ℕ) (c : Cell) (cs : List Cell) (rest : Bytes)
    → length cs < k
    → read_cells k (write_cells c cs rest) ≡ some ((c, cs), rest)
unfolding read_cells write_cells
read_cells-write_cells zero c cs rest h = absurd (omega arith)
read_cells-write_cells (suc k) c [] rest h =
    rw (read_cells, write_cells, read_cell-write_cell c (b'}' ∷ rest))
read_cells-write_cells (suc k) c (d ∷ cs) rest h = rw (
  read_cells,
  write_cells,
  read_cell-write_cell c (b',' ∷ write_cells d cs rest),
  read_cells-write_cells k d cs rest (omega arith),
)

pub read_row-write_row :
    (k : ℕ) (r : Row) (rest : Bytes)
    → length r.1 < k
    → read_row k (write_row r rest) ≡ some (r, rest)
unfolding read_row expect
read_row-write_row k (c, cs) rest h = read_cells-write_cells k c cs rest h

-- The structs have at most `k` fields.
abbrev pub AreShort : ℕ → List Row → Type 0
AreShort k = All (λ r. length r.1 < k)

read_tail-write_tail :
    (k n : ℕ) (rs : List Row) (rest : Bytes)
    → length rs ≤ n
    → AreShort k rs
    → read_tail k n (write_tail rs rest) ≡ some (rs, rest)
unfolding read_tail write_tail
read_tail-write_tail k zero [] rest h short = refl
read_tail-write_tail k (suc n) [] rest h short = refl
read_tail-write_tail k zero (r ∷ rs) rest h short = absurd (omega arith)
read_tail-write_tail k (suc n) (r ∷ rs) rest h (few, short) = rw (
  read_row-write_row k r (write_tail rs rest) few,
  read_tail-write_tail k n rs rest (omega arith) short,
)

pub read_rows-write_rows :
    (k n : ℕ) (rs : List Row) (rest : Bytes)
    → length rs ≤ n
    → AreShort k rs
    → read_rows k n (write_rows rs rest) ≡ some (rs, rest)
unfolding read_rows first_row write_rows expect
read_rows-write_rows k n [] rest h short = refl
read_rows-write_rows k n (r ∷ rs) rest h (few, short) = rw (
  read_row-write_row k r (write_tail rs rest) few,
  read_tail-write_tail k n rs rest (omega arith) short,
)
