-- ===== src/Api/Responses/RoundTrip.antt =====
-- A client reads from the text of a response what its body stands for.
use dota_cuck.Prelude.{
  ◌≤◌, ◌<◌, ◌≡◌, refl, some, List, [], ◌∷◌, Bytes, map, length, arith, bytes_eq, true, false,
}
use dota_cuck.Go.Json.Decode.Written.{length-quoted}
use dota_cuck.Go.Json.Rows.{
  Scalar, text, flag, Cell, Row, write_scalar, write_cell, write_cells, write_row, write_tail,
  write_rows,
}
use dota_cuck.Go.Json.Rows.RoundTrip.{read_row-write_row, read_rows-write_rows, AreShort}
use dota_cuck.Api.Models.{
  SteamAccountDto, Friend, Body, error_response, login_response, steam_account, steam_accounts,
  friends, no_content, recovered,
}
use dota_cuck.Api.Responses.{
  account_row, friend_row, newline, body_text, object, array, read_array, read_body, reading,
}

length-write_scalar : (v : Scalar) (rest : Bytes) → length rest ≤ length (write_scalar v rest)
length-write_scalar (text s) rest = let longer = length-quoted s rest in omega arith
length-write_scalar (flag true) rest = omega arith
length-write_scalar (flag false) rest = omega arith

length-write_cell : (c : Cell) (rest : Bytes) → length rest ≤ length (write_cell c rest)
length-write_cell (name, v) rest =
    let longer = length-quoted name (b':' ∷ write_scalar v rest) in
    let more = length-write_scalar v rest in omega arith

length-write_cells :
    (c : Cell) (cs : List Cell) (rest : Bytes) → length rest ≤ length (write_cells c cs rest)
unfolding write_cells
length-write_cells c [] rest = let longer = length-write_cell c (b'}' ∷ rest) in omega arith
length-write_cells c (d ∷ cs) rest =
    let longer = length-write_cell c (b',' ∷ write_cells d cs rest) in
    let more = length-write_cells d cs rest in omega arith

length-write_tail : (rs : List Row) (rest : Bytes) → length rs ≤ length (write_tail rs rest)
unfolding write_tail
length-write_tail [] rest = omega arith
length-write_tail ((c, cs) ∷ rs) rest =
    let longer = length-write_cells c cs (write_tail rs rest) in
    let more = length-write_tail rs rest in omega arith

read_body-object : (r : Row) → length r.1 < 4 → read_body (write_row r newline) ≡ some (object r)
unfolding read_body bytes_eq
read_body-object (c, cs) few = rw (read_row-write_row 4 (c, cs) newline few)

length-write_rows : (rs : List Row) (rest : Bytes) → length rs ≤ length (write_rows rs rest)
unfolding write_rows
length-write_rows [] rest = omega arith
length-write_rows ((c, cs) ∷ rs) rest =
    let longer = length-write_cells c cs (write_tail rs rest) in
    let more = length-write_tail rs rest in omega arith

read_array-write_rows :
    (rs : List Row) → AreShort 4 rs → read_array (write_rows rs newline) ≡ some (array rs)
unfolding read_array bytes_eq
read_array-write_rows rs short = rw (
    read_rows-write_rows 4 (length (write_rows rs newline)) rs newline
      (length-write_rows rs newline) short)

read_body-array :
    (rs : List Row) → AreShort 4 rs → read_body (write_rows rs newline) ≡ some (array rs)
unfolding read_body write_rows
read_body-array [] short = read_array-write_rows [] short
read_body-array (r ∷ rs) short = read_array-write_rows (r ∷ rs) short

accounts-AreShort : (accounts : List SteamAccountDto) → AreShort 4 (map account_row accounts)
accounts-AreShort [] = tt
accounts-AreShort (a ∷ accounts) = (omega arith, accounts-AreShort accounts)

friends-AreShort : (fs : List Friend) → AreShort 4 (map friend_row fs)
friends-AreShort [] = tt
friends-AreShort (f ∷ fs) = (omega arith, friends-AreShort fs)

-- Every body that a handler writes is read back by a client as the value it stands for: the error's
-- message, the token, the accounts and the friends in their order, with every character and flag.
pub read_body-body_text : (b : Body) → read_body (body_text b) ≡ some (reading b)
unfolding body_text read_body
read_body-body_text (error_response message) = read_body-object _ (omega arith)
read_body-body_text (login_response token) = read_body-object _ (omega arith)
read_body-body_text (steam_account a) = read_body-object _ (omega arith)
read_body-body_text (steam_accounts accounts) = read_body-array _ (accounts-AreShort accounts)
read_body-body_text (friends fs) = read_body-array _ (friends-AreShort fs)
read_body-body_text no_content = refl
read_body-body_text recovered = refl
