-- ===== src/Store/Users.antt =====
-- control-plane/internal/store/users.go.
use dota_cuck.Prelude.{String, ◌||◌, ◌∷◌, none, some, Bytes, if◌then◌else◌}
use dota_cuck.Prelude.Result.{Result, ok, err}
use dota_cuck.Store.Table.{find, any_row, has_key}
use dota_cuck.Store.Schema.{
  UserRow, Db, Postgres, StoreError, username_taken, user_not_found, failed,
}

-- The row as the caller gets it has the table's columns.
abbrev pub User : Type 0
User = UserRow

unfoldable pub new_row : Postgres → String → Bytes → Bytes → UserRow
new_row pg username password_hash kdf_salt = record {
  id = pg.fresh_id;
  username = username;
  password_hash = password_hash;
  kdf_salt = kdf_salt;
  created_at = pg.now;
}

-- A clash of the username or of the id is SQLSTATE 23505.
unfoldable pub create : Db → Postgres → String → Bytes → Bytes → Db × Result StoreError String
unfolding any_row new_row
create db pg username password_hash kdf_salt =
    if pg.fails
    then (db, err failed)
    else if any_row (has_key (λ u. u.username) username) db.users
        || any_row (has_key (λ u. u.id) pg.fresh_id) db.users
    then (db, err username_taken)
    else (
      record db { users = new_row pg username password_hash kdf_salt ∷ db.users },
      ok pg.fresh_id,
    )

unfoldable pub get_by_username : Db → Postgres → String → Result StoreError User
unfolding find
get_by_username db pg username =
    if pg.fails then err failed else elim (find (has_key (λ u. u.username) username) db.users) [
      | none ↦ err user_not_found
      | some u ↦ ok u
    ]
