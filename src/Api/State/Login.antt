-- ===== src/Api/State/Login.antt =====
-- A registration and the logins after it.
use text.Mathlib.TextPositions.{eq_refl}
use dota_cuck.Prelude.{
  ap, subst, sym, ◌<◌, arith, ℕ, ◌≡◌, ◌∙◌, refl, String, true, false, ◌∷◌, some, Bytes, is_empty,
  str_eq,
}
use dota_cuck.Prelude.Result.{ok, err}
use dota_cuck.Auth.Primitives.{IsRandom}
use dota_cuck.Auth.Hasher
use dota_cuck.Auth.Hasher.Verify.{IsUsable, verify-hash_same}
use dota_cuck.Auth.Crypto.{kdf_salt_len, new_salt, derive_key}
use dota_cuck.Auth.Crypto.RoundTrip.{derive_key_total}
use dota_cuck.Auth.KeyCache.{KeyCache, put_key, get_key}
use dota_cuck.Auth.Jwt.{issue}
use dota_cuck.Store.{UserRow, Db, StoreError, any_row, has_key}
use dota_cuck.Store.Users
use dota_cuck.Store.Answers.{create_ok, get_created}
use dota_cuck.Api.Models.{RegisterRequest, write_error, write_json, login_response}
use dota_cuck.Api.State.{Deps, Server, Env, register, login, log_in, created, issue_token}

put_key-ttl :
    (c : KeyCache) (id : String) (key : Bytes) (now : ℕ)
    → 0 < c.ttl
    → 0 < (put_key c id key now).ttl
unfolding put_key
put_key-ttl c id key now h = h

get_key-put_key :
    (c : KeyCache) (id : String) (key : Bytes) (now : ℕ)
    → 0 < c.ttl
    → (get_key (put_key c id key now) id now).1 ≡ some key
unfolding get_key put_key
get_key-put_key c id key now lives = ground (arith, eq_refl id)

module _ (d : Deps) where
  open d use {hmac, argon, hasher}

  log_in_lem :
      (s : Server) (env : Env) (id : String) (password salt key : Bytes) (status : ℕ)
      → derive_key argon password salt ≡ some key
      → log_in d s env id password salt status
        ≡ (record s { keys = put_key s.keys id key env.now }, issue_token d env id status)
  unfolding log_in
  log_in_lem s env id password salt key status e = rw (e, log_in)

  register_lem :
      (s : Server) (env : Env) (req : RegisterRequest) (hash salt : Bytes) (db : Db) (id : String)
      → str_eq req.username "" ≡ false
      → is_empty req.password ≡ false
      → Hasher.hash hmac argon env.random hasher req.password ≡ some (ok hash)
      → env.salt_random kdf_salt_len ≡ some salt
      → Users.create s.db env.pg req.username hash salt ≡ (db, ok id)
      → register d s env (some req) ≡ log_in d (record s { db = db }) env id req.password salt 201
  unfolding register new_salt created
  register_lem s env req hash salt db id named secret hashed salted made =
      rw (named, secret, hashed, salted, made)

  login_lem :
      (s : Server) (env : Env) (req : RegisterRequest) (user : UserRow)
      → Users.get_by_username s.db env.pg req.username ≡ ok user
      → Hasher.verify hmac argon hasher req.password user.password_hash ≡ some (ok true)
      → login d s env (some req) ≡ log_in d s env user.id req.password user.kdf_salt 200
  unfolding login
  login_lem s env req user found good = rw (found, good)

  issued_answer :
      (env : Env) (id : String) (token : Bytes) (status : ℕ)
      → issue d.jwt d.tokens id env.issued_now ≡ some token
      → issue_token d env id status ≡ write_json status (login_response token)
  unfolding issue_token
  issued_answer env id token status signed = rw (issue_token, signed)

  -- A registration that stores a user under a new id caches a key for that id and answers as
  -- `issueToken` does with 201; a later login with the same name and password caches the same key
  -- again and answers as `issueToken` does with 200.
  pub login-register :
      (s : Server) (env later : Env) (req : RegisterRequest) (salt kdf_salt : Bytes)
      → IsRandom env.random
      → IsUsable hasher.params
      → env.random hasher.params.salt_len ≡ some salt
      → env.salt_random kdf_salt_len ≡ some kdf_salt
      → str_eq req.username "" ≡ false
      → is_empty req.password ≡ false
      → env.pg.fails ≡ false
      → any_row (has_key (λ u. u.username) req.username) s.db.users ≡ false
      → any_row (has_key (λ u. u.id) env.pg.fresh_id) s.db.users ≡ false
      → later.pg.fails ≡ false
      → (key : Bytes) × (s' : Server) × (register d s env (some req)
          ≡ (s', issue_token d env env.pg.fresh_id 201))
        × (s'.keys ≡ put_key s.keys env.pg.fresh_id key env.now)
        × (login d s' later (some req) ≡ (
          record s' { keys = put_key s'.keys env.pg.fresh_id key later.now },
          issue_token d later env.pg.fresh_id 200,
        ))
        × ((user : UserRow) × (Users.get_by_username s'.db later.pg req.username ≡ ok user)
            × (user.id ≡ env.pg.fresh_id))
  unfolding Users.new_row
  login-register s env later req salt kdf_salt good usable r₁ r₂ named secret up new_name new_id
        later_up =
      let (hash, hashed, verified) =
        verify-hash_same hmac argon env.random hasher hasher req.password salt good usable r₁
          refl in
      let (key, derived) = derive_key_total argon req.password kdf_salt in
      let user = Users.new_row env.pg req.username hash kdf_salt in
      let db = record s.db { users = user ∷ s.db.users } in
      let s' = record s { db = db; keys = put_key s.keys env.pg.fresh_id key env.now } in
      (
        key,
        s',
        register_lem s env req hash kdf_salt db env.pg.fresh_id named secret hashed r₂
              (create_ok s.db env.pg req.username hash kdf_salt up new_name new_id)
            ∙ log_in_lem (record s { db = db }) env env.pg.fresh_id req.password kdf_salt key 201
                derived,
        refl,
        login_lem s' later req user (get_created s.db later.pg user later_up) verified
            ∙ log_in_lem s' later env.pg.fresh_id req.password kdf_salt key 200 derived,
        (user, get_created s.db later.pg user later_up, refl),
      )

  -- A registration with a name and a password, a working random source and database, a token that is
  -- signed, and a name and an id that are new, is answered with that token (201), stores the user
  -- under the new id, and leaves the user's key in the cache. A login with the same name and
  -- password at any later time, while the database holds that state and its token is signed, is
  -- answered with that token (200), finds the same key again and leaves the database as it is. The
  -- lifetime of a cached key is not 0.
  pub registered_logs_in :
      (s : Server) (env later : Env) (req : RegisterRequest) (salt kdf_salt token token' : Bytes)
      → IsRandom env.random
      → IsUsable hasher.params
      → env.random hasher.params.salt_len ≡ some salt
      → env.salt_random kdf_salt_len ≡ some kdf_salt
      → str_eq req.username "" ≡ false
      → is_empty req.password ≡ false
      → env.pg.fails ≡ false
      → any_row (has_key (λ u. u.username) req.username) s.db.users ≡ false
      → any_row (has_key (λ u. u.id) env.pg.fresh_id) s.db.users ≡ false
      → later.pg.fails ≡ false
      → issue d.jwt d.tokens env.pg.fresh_id env.issued_now ≡ some token
      → issue d.jwt d.tokens env.pg.fresh_id later.issued_now ≡ some token'
      → 0 < s.keys.ttl
      → (key : Bytes) × (s' s'' : Server) × (register d s env (some req)
          ≡ (s', write_json 201 (login_response token)))
        × ((user : UserRow) × (Users.get_by_username s'.db later.pg req.username ≡ ok user)
            × (user.id ≡ env.pg.fresh_id))
        × ((get_key s'.keys env.pg.fresh_id env.now).1 ≡ some key)
        × (login d s' later (some req) ≡ (s'', write_json 200 (login_response token')))
        × ((get_key s''.keys env.pg.fresh_id later.now).1 ≡ some key)
        × (s''.db ≡ s'.db)
  registered_logs_in s env later req salt kdf_salt token token' good usable r₁ r₂ named secret up
        new_name new_id later_up signed signed' lives =
      let (key, s', made, cached, back, stored) =
        login-register s env later req salt kdf_salt good usable r₁ r₂ named secret up new_name
          new_id later_up in
      let id = env.pg.fresh_id in
      let keys = put_key s'.keys id key later.now in
      (
        key,
        s',
        record s' { keys = keys },
        made ∙ ap (λ r. (s', r)) (issued_answer env id token 201 signed),
        stored,
        ap (λ c. (get_key c id env.now).1) cached ∙ get_key-put_key s.keys id key env.now lives,
        back ∙ ap (λ r. (record s' { keys = keys }, r)) (issued_answer later id token' 200 signed'),
        get_key-put_key s'.keys id key later.now (
            subst (λ (c : KeyCache). 0 < c.ttl) (sym cached)
              (put_key-ttl s.keys id key env.now lives)),
        refl,
      )

  -- A login for a name that does not exist and one with a wrong password get the same response, and
  -- neither changes the state.
  pub login_uniform :
      (s : Server) (env env' : Env) (unknown wrong : RegisterRequest) (user : UserRow)
      → Users.get_by_username s.db env.pg unknown.username ≡ err StoreError.user_not_found
      → Users.get_by_username s.db env'.pg wrong.username ≡ ok user
      → Hasher.verify hmac argon hasher wrong.password user.password_hash ≡ some (ok false)
      → (login d s env (some unknown) ≡ (s, write_error 401 "invalid credentials"))
        × (login d s env' (some wrong) ≡ login d s env (some unknown))
  unfolding login
  login_uniform s env env' unknown wrong user missing found bad =
      (rw missing, rw (missing, found, bad))
