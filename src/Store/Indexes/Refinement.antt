-- ===== src/Store/Indexes/Refinement.antt =====
-- The stores over lists of rows answer every call as the indexes do.
use dota_cuck.Prelude.{
  All, String, Bool, Bool-cases, Option-cases, inl, inr, ◌≡◌, refl, ap, sym, ◌∙◌, ◌||◌, true, false,
  List, [], ◌∷◌, Bytes, remove, str_eq, eq_iff, if◌then◌else◌, arith,
}
use dota_cuck.Prelude.Result.{ok, err}
use dota_cuck.Store.Schema.{
  SteamAccountRow, Db, Postgres, user_not_found, steam_account_exists, steam_account_not_found,
  failed,
}
use dota_cuck.Store.Table.{
  find, any_row, has_key, is_some, UniqueBy, update_rows, delete_rows, any_row-find,
  find-update_rows, find-delete_rows, find-delete_rows_self,
}
use dota_cuck.Store.WellFormed.{
  IsWellFormed, create_user, create_account, save_refresh_token, set_steam_id, delete_account,
  execute-IsWellFormed,
}
use dota_cuck.Store.Users
use dota_cuck.Store.SteamAccounts.{with_uuid, saved, with_steam_id, to_account, owned_by, affecting}
use dota_cuck.Store.SteamAccounts
use dota_cuck.Store.Indexes.{
  Call, writes, get_user, get_account, Answer, an_id, done, a_user, an_account, answered, call,
  answers, Indexes, indexes, add_account, revise_account, drop_account, has_id, if_there,
  or_missing, promised, promised_answers,
}

abbrev seen : Db × Answer → Indexes × Answer
seen (db, a) = (indexes db, a)

user_created :
    (db : Db) (pg : Postgres) (name : String) (hash salt : Bytes)
    → promised (indexes db) pg (writes (create_user name hash salt))
      ≡ seen (call db pg (writes (create_user name hash salt)))
unfolding Users.create find
user_created db pg name hash salt = elim (Bool-cases pg.fails) [
  | inl down ↦ rw down
  | inr up ↦
      rw
        (
          up,
          ← any_row-find (has_key (λ u. u.username) name) db.users,
          ← any_row-find (has_key (λ u. u.id) pg.fresh_id) db.users,
        )
        (elim (Bool-cases (
          any_row (has_key (λ u. u.username) name) db.users
          || any_row (has_key (λ u. u.id) pg.fresh_id) db.users)) [
            | inl taken ↦ rw taken
            | inr free ↦ rw free
          ])
]

-- A statement with a `uuid` parameter.
with_uuid-seen :
    (pg : Postgres) (text : String) {A : Type 0} (db : Db) (e : A) (answer : A → Answer)
    (run : String → Db × A) (promise : String → Indexes × Answer)
    → ((u : String) → promise u ≡ seen (answered answer (run u)))
    → with_uuid pg text (indexes db, answer e) promise
      ≡ seen (answered answer (with_uuid pg text (db, e) run))
with_uuid-seen pg text db e answer run promise same = elim (Bool-cases pg.fails) [
  | inl down ↦ rw down
  | inr up ↦ rw up (elim (Option-cases (pg.read_uuid text)) [
    | inl bad ↦ rw bad
    | inr (u, good) ↦ rw good (same u)
  ])
]

inserted :
    (db : Db) (pg : Postgres) (name u : String)
    → (if is_some (find (has_key (λ a. a.user_id) u) db.steam_accounts)
          || is_some (find (has_key (λ a. a.id) pg.fresh_id) db.steam_accounts)
        then (indexes db, an_id (err steam_account_exists))
        else if is_some (find (has_key (λ v. v.id) u) db.users)
        then (add_account (indexes db) (SteamAccounts.new_row pg u name), an_id (ok pg.fresh_id))
        else (indexes db, an_id (err failed)))
      ≡ seen (answered an_id (SteamAccounts.insert db pg name u))
unfolding SteamAccounts.insert find
inserted db pg name u =
    rw
      (
        ← any_row-find (has_key (λ a. a.user_id) u) db.steam_accounts,
        ← any_row-find (has_key (λ a. a.id) pg.fresh_id) db.steam_accounts,
        ← any_row-find (has_key (λ v. v.id) u) db.users,
      )
      (elim (Bool-cases (
        any_row (has_key (λ a. a.user_id) u) db.steam_accounts
        || any_row (has_key (λ a. a.id) pg.fresh_id) db.steam_accounts)) [
          | inl taken ↦ rw taken
          | inr free ↦ rw free (elim (Bool-cases (any_row (has_key (λ v. v.id) u) db.users)) [
            | inl known ↦ rw known
            | inr unknown ↦ rw unknown
          ])
        ])

-- An UPDATE or DELETE.
affecting-seen :
    (db : Db) (test : SteamAccountRow → Bool) (rows : List SteamAccountRow) (there : Bool)
    (x : Indexes)
    → any_row test db.steam_accounts ≡ there
    → (there ≡ true → x ≡ indexes (record db { steam_accounts = rows }))
    → if_there (indexes db) there x ≡ seen (answered done (affecting db test rows))
affecting-seen db test rows true x h same = rw (h, same refl)
affecting-seen db test rows false x h same = rw h

updated :
    (db : Db) (id : String) (change : SteamAccountRow → SteamAccountRow)
    → ((a : SteamAccountRow) → (change a).id ≡ a.id)
    → ((a : SteamAccountRow) → (change a).user_id ≡ a.user_id)
    → if_there
        (indexes db)
        (is_some (find (has_key (λ a. a.id) id) db.steam_accounts))
        (revise_account (indexes db) id change)
      ≡ seen (
          answered done (
            affecting db
              (has_key (λ a. a.id) id)
              (update_rows (has_key (λ a. a.id) id) change db.steam_accounts)))
updated db id change keeps_id keeps_user =
    affecting-seen db (has_key (λ a. a.id) id) _ _ _
      (any_row-find (has_key (λ a. a.id) id) db.steam_accounts)
      (λ _. λ i. record (indexes db) {
        accounts_by_id = λ k.
            sym
              (find-update_rows (λ a. a.id) k (has_key (λ a. a.id) id) change db.steam_accounts
                keeps_id)
              i;
        accounts_by_user = λ k.
            sym
              (find-update_rows (λ a. a.user_id) k (has_key (λ a. a.id) id) change db.steam_accounts
                keeps_user)
              i;
      })

none_owned :
    (id user_id : String) (xs : List SteamAccountRow)
    → All (λ a. str_eq user_id a.user_id ≡ false) xs
    → any_row (owned_by id user_id) xs ≡ false
unfolding any_row
none_owned id user_id [] h = refl
none_owned id user_id (a ∷ xs) (ha, h) =
    ground (arith, eq_iff a.user_id user_id, eq_iff user_id a.user_id, none_owned id user_id xs h)

-- A user has at most one account, so the account that a deletion names is theirs or not there.
any_row-owned_by :
    (id user_id : String) (xs : List SteamAccountRow)
    → UniqueBy (λ a. a.user_id) xs
    → any_row (owned_by id user_id) xs ≡ has_id id (find (has_key (λ a. a.user_id) user_id) xs)
unfolding any_row find
any_row-owned_by id user_id [] u = refl
any_row-owned_by id user_id (a ∷ xs) (others, u) = elim (Bool-cases (str_eq a.user_id user_id)) [
  | inl same ↦
      let none_left = none_owned id user_id xs (rw (← (eq_iff a.user_id user_id).0 same) others) in
      ground arith
  | inr other ↦ ground (arith, any_row-owned_by id user_id xs u)
]

left_by_user :
    (id user_id k : String) (xs : List SteamAccountRow)
    → UniqueBy (λ a. a.user_id) xs
    → any_row (owned_by id user_id) xs ≡ true
    → find (has_key (λ a. a.user_id) k) (delete_rows (owned_by id user_id) xs)
      ≡ remove (λ j. find (has_key (λ a. a.user_id) j) xs) user_id k
left_by_user id user_id k xs unique there = elim (Bool-cases (str_eq user_id k)) [
  | inl same ↦
      rw (same, ← (eq_iff user_id k).0 same)
        (find-delete_rows_self (λ a. a.user_id) user_id (owned_by id user_id) xs unique
          (λ a h. ground (arith, eq_iff a.user_id user_id)) there)
  | inr apart ↦ rw apart (
      find-delete_rows (has_key (λ a. a.user_id) k) (owned_by id user_id) xs
        (λ a h. ground (arith, eq_iff a.user_id user_id, eq_iff a.user_id k, eq_iff user_id k)))
]

left_by_id :
    (id user_id k : String) (xs : List SteamAccountRow)
    → UniqueBy (λ a. a.id) xs
    → any_row (owned_by id user_id) xs ≡ true
    → find (has_key (λ a. a.id) k) (delete_rows (owned_by id user_id) xs)
      ≡ remove (λ j. find (has_key (λ a. a.id) j) xs) id k
left_by_id id user_id k xs unique there = elim (Bool-cases (str_eq id k)) [
  | inl same ↦
      rw (same, ← (eq_iff id k).0 same)
        (find-delete_rows_self (λ a. a.id) id (owned_by id user_id) xs unique
          (λ a h. ground (arith, eq_iff a.id id)) there)
  | inr apart ↦ rw apart (
      find-delete_rows (has_key (λ a. a.id) k) (owned_by id user_id) xs
        (λ a h. ground (arith, eq_iff a.id id, eq_iff a.id k, eq_iff id k)))
]

deleted :
    (db : Db) (id user_id : String)
    → IsWellFormed db
    → if_there
        (indexes db)
        (has_id id (find (has_key (λ a. a.user_id) user_id) db.steam_accounts))
        (drop_account (indexes db) id user_id)
      ≡ seen (
          answered done (
            affecting db
              (owned_by id user_id)
              (delete_rows (owned_by id user_id) db.steam_accounts)))
deleted db id user_id w =
    let same = any_row-owned_by id user_id db.steam_accounts w.account_users in
    affecting-seen db (owned_by id user_id) _ _ _ same λ there. λ i. record (indexes db) {
      accounts_by_id =
          λ k. sym (left_by_id id user_id k db.steam_accounts w.account_ids (same ∙ there)) i;
      accounts_by_user =
          λ k. sym (left_by_user id user_id k db.steam_accounts w.account_users (same ∙ there)) i;
    }

user_found :
    (db : Db) (pg : Postgres) (name : String)
    → (if pg.fails
        then err failed
        else or_missing user_not_found (λ u. u) ((indexes db).users_by_name name))
      ≡ Users.get_by_username db pg name
unfolding Users.get_by_username
user_found db pg name = ground arith

account_found :
    (db : Db) (pg : Postgres) (user_id : String)
    → with_uuid pg user_id
        (err failed)
        (λ u. or_missing steam_account_not_found to_account ((indexes db).accounts_by_user u))
      ≡ SteamAccounts.get_by_user_id db pg user_id
unfolding SteamAccounts.get_by_user_id
account_found db pg user_id = ground arith

-- One call.
call-promised :
    (db : Db) (pg : Postgres) (c : Call)
    → IsWellFormed db
    → promised (indexes db) pg c ≡ seen (call db pg c)
unfolding SteamAccounts.create SteamAccounts.save_refresh_token SteamAccounts.set_steam_id
    SteamAccounts.delete saved with_steam_id
call-promised db pg (writes (create_user name hash salt)) w = user_created db pg name hash salt
call-promised db pg (writes (create_account user_id name)) w =
    with_uuid-seen pg user_id db (err failed) an_id _ _ (inserted db pg name)
call-promised db pg (writes (save_refresh_token id steam_id name token nonce expires)) w =
    with_uuid-seen pg id db (err failed) done _ _
      λ i. updated db i (saved steam_id name token nonce expires) (λ a. refl) (λ a. refl)
call-promised db pg (writes (set_steam_id id steam_id)) w =
    with_uuid-seen pg id db (err failed) done _ _
      λ i. updated db i (with_steam_id steam_id) (λ a. refl) (λ a. refl)
call-promised db pg (writes (delete_account user_id id)) w =
    with_uuid-seen pg id db (err failed) done _ _
      λ i. with_uuid-seen pg user_id db (err failed) done _ _ λ u. deleted db i u w
call-promised db pg (get_user name) w = ap (λ r. (indexes db, a_user r)) (user_found db pg name)
call-promised db pg (get_account user_id) w =
    ap (λ r. (indexes db, an_account r)) (account_found db pg user_id)

call-IsWellFormed :
    (db : Db) (pg : Postgres) (c : Call) → IsWellFormed db → IsWellFormed (call db pg c).0
call-IsWellFormed db pg (writes (create_user name hash salt)) w =
    execute-IsWellFormed db pg (create_user name hash salt) w
call-IsWellFormed db pg (writes (create_account user_id name)) w =
    execute-IsWellFormed db pg (create_account user_id name) w
call-IsWellFormed db pg (writes (save_refresh_token id steam_id name token nonce expires)) w =
    execute-IsWellFormed db pg (save_refresh_token id steam_id name token nonce expires) w
call-IsWellFormed db pg (writes (set_steam_id id steam_id)) w =
    execute-IsWellFormed db pg (set_steam_id id steam_id) w
call-IsWellFormed db pg (writes (delete_account user_id id)) w =
    execute-IsWellFormed db pg (delete_account user_id id) w
call-IsWellFormed db pg (get_user name) w = w
call-IsWellFormed db pg (get_account user_id) w = w

-- From well-formed tables, the two stores answer any calls, reads and writes in any order and the
-- failed and refused ones included, as the indexes of the tables do.
pub answers-promised :
    (db : Db) (cs : List (Postgres × Call))
    → IsWellFormed db
    → answers db cs ≡ promised_answers (indexes db) cs
answers-promised db [] w = refl
answers-promised db ((pg, c) ∷ cs) w = rw (call-promised db pg c w) (
    ap (λ rest. (call db pg c).1 ∷ rest)
      (answers-promised (call db pg c).0 cs (call-IsWellFormed db pg c w)))
