-- ===== src/Api/Router/Access.antt =====
-- Which requests get through, and what logging out takes away.
use dota_cuck.Prelude.{
  ◌⊎◌, ℕ, ◌+◌, ◌*◌, ◌/◌, ◌≡◌, ◌≢◌, refl, String, true, false, List, [], ◌++◌, Option, none, some,
  arith, Bytes, eq_iff, leb, length, inl, inr, ap, sym, subst, ◌∙◌, Option-cases, str_eq,
}
use dota_cuck.Prelude.Result.{ok, err, Result-cases}
use dota_cuck.Auth.Jwt.{second, issue, verify}
use dota_cuck.Auth.Jwt.Expiry.{verify-issue}
use dota_cuck.Auth.KeyCache.{KeyCache, get_key, delete_key}
use dota_cuck.Store.{Postgres}
use dota_cuck.Store.SteamAccounts
use dota_cuck.Api.Models.{Friend, Response, SteamAccountRequest, write_error}
use dota_cuck.Api.Bearer.{bearer_token, bearer_token_iff, equal_fold, prefix}
use dota_cuck.Api.State.{Deps, Server, require_auth, logout}
use dota_cuck.Api.Accounts.{add_steam_account}
use dota_cuck.Api.Friends.{FriendList, list_friends}
use dota_cuck.Api.Router.{Guarded, guarded, World, handle_guarded, serve}

get_key-delete_key :
    (c : KeyCache) (user_id : String) (now : ℕ)
    → (get_key (delete_key c user_id) user_id now).1 ≡ none
unfolding get_key delete_key
get_key-delete_key c user_id now = ground (arith, eq_iff user_id user_id)

module _ (d : Deps) where
  -- The header is `Bearer `, in any case, and a token behind it that verifies for the user.
  abbrev pub Authorizes : ℕ → Bytes → String → Type 0
  Authorizes now header user_id =
      (scheme token : Bytes) × (header ≡ scheme ++ token)
      × (token ≢ [])
      × (length scheme ≡ 7)
      × (equal_fold scheme prefix ≡ true)
      × (verify d.jwt d.tokens token now ≡ ok user_id)

  require_auth_ok :
      (now : ℕ) (header token : Bytes) (user_id : String)
      → bearer_token header ≡ some token
      → verify d.jwt d.tokens token now ≡ ok user_id
      → require_auth d now header ≡ ok user_id
  unfolding require_auth
  require_auth_ok now header token user_id found verified = ground arith

  require_auth_err :
      (now : ℕ) (header : Bytes) (r : Response)
      → require_auth d now header ≡ err r
      → (message : String) × (r ≡ write_error 401 message)
  unfolding require_auth
  require_auth_err now header r e = elim (Option-cases (bearer_token header)) [
    | inr (token, found) ↦ elim (Result-cases (verify d.jwt d.tokens token now)) [
      | inl (user_id, verified) ↦ absurd (ground arith)
      | inr (_, invalid) ↦ ("invalid token", ground arith)
    ]
    | inl missing ↦ ("missing bearer token", ground arith)
  ]

  list_friends_locked :
      (sort_friends : List Friend → List Friend) (fetch fetch' : Bytes → Option FriendList)
      (s : Server) (pg later : Postgres) (now : ℕ) (user_id : String)
      → (get_key s.keys user_id now).1 ≡ none
      → list_friends d sort_friends fetch s pg later now user_id
        ≡ list_friends d sort_friends fetch' s pg later now user_id
  unfolding list_friends
  list_friends_locked sort_friends fetch fetch' s pg later now user_id locked =
      elim (Result-cases (SteamAccounts.get_by_user_id s.db pg user_id)) [
        | inl (a, found) ↦ ground arith
        | inr (e, missing) ↦ ground arith
      ]

  add_steam_account_locked :
      (s : Server) (pg : Postgres) (now : ℕ) (req_id user_id : String)
      (body : Option SteamAccountRequest)
      → (get_key s.keys user_id now).1 ≡ none
      → ((add_steam_account d s pg now req_id user_id body).2 ≡ [])
        × ((add_steam_account d s pg now req_id user_id body).0.db ≡ s.db)
  unfolding add_steam_account
  add_steam_account_locked s pg now req_id user_id none locked = (refl, refl)
  add_steam_account_locked s pg now req_id user_id (some req) locked = (ground arith, ground arith)

  -- In the state that a user's logout leaves, the answer to a friends request of theirs does not
  -- depend on what the worker would answer to any token, and a request to add an account starts no
  -- link and stores nothing.
  pub logout_locks :
      (sort_friends : List Friend → List Friend) (fetch fetch' : Bytes → Option FriendList)
      (s s' : Server) (pg later : Postgres) (now : ℕ) (user_id req_id : String)
      (body : Option SteamAccountRequest)
      → (logout d s user_id).0 ≡ s'
      → (list_friends d sort_friends fetch s' pg later now user_id
          ≡ list_friends d sort_friends fetch' s' pg later now user_id)
        × ((add_steam_account d s' pg now req_id user_id body).2 ≡ [])
        × ((add_steam_account d s' pg now req_id user_id body).0.db ≡ s.db)
  unfolding logout
  logout_locks sort_friends fetch fetch' s s' pg later now user_id req_id body out =
      let locked : (get_key s'.keys user_id now).1 ≡ none =
        subst (λ (x : Server). (get_key x.keys user_id now).1 ≡ none) out
          (get_key-delete_key s.keys user_id now) in
      let added = add_steam_account_locked s' pg now req_id user_id body locked in
      (
        list_friends_locked sort_friends fetch fetch' s' pg later now user_id locked,
        added.0,
        added.1 ∙ ap (λ (x : Server). x.db) (sym out),
      )

module _ (d : Deps) (format_time : ℕ → String) (sort_friends : List Friend → List Friend) where
  authorized :
      (s : Server) (w : World) (header token : Bytes) (user_id : String) (g : Guarded)
      → bearer_token header ≡ some token
      → verify d.jwt d.tokens token w.auth_now ≡ ok user_id
      → serve d format_time sort_friends s w header (guarded g)
        ≡ handle_guarded d format_time sort_friends s w user_id g
  unfolding serve
  authorized s w header token user_id g found verified =
      rw (require_auth_ok d w.auth_now header token user_id found verified)

  refused :
      (s : Server) (w : World) (header : Bytes) (g : Guarded) (message : String)
      → require_auth d w.auth_now header ≡ err (write_error 401 message)
      → serve d format_time sort_friends s w header (guarded g) ≡ (s, write_error 401 message, [])
  unfolding serve
  refused s w header g message e = ground arith

  -- A request on a guarded route is handled for a user where its header is `Bearer `, in any case,
  -- and a token behind it that verifies for that user. With any other header it is answered with 401
  -- and one of the two messages of the middleware, changes nothing and starts nothing.
  pub serve-Authorizes :
      (s : Server) (w : World) (header : Bytes) (g : Guarded)
      → ((user_id : String) × Authorizes d w.auth_now header user_id
          × (serve d format_time sort_friends s w header (guarded g)
              ≡ handle_guarded d format_time sort_friends s w user_id g))
        ⊎ (¬ ((user_id : String) × Authorizes d w.auth_now header user_id)
            × ((serve d format_time sort_friends s w header (guarded g)
                  ≡ (s, write_error 401 "missing bearer token", []))
                ⊎ (serve d format_time sort_friends s w header (guarded g)
                    ≡ (s, write_error 401 "invalid token", []))))
  unfolding require_auth
  serve-Authorizes s w header g = elim (Option-cases (bearer_token header)) [
    | inr (token, found) ↦ elim (Result-cases (verify d.jwt d.tokens token w.auth_now)) [
      | inl (user_id, verified) ↦
          let (scheme, whole, some_token, seven, same) = (bearer_token_iff header token).0 found in
          inl (
            user_id,
            (scheme, token, whole, some_token, seven, same, verified),
            authorized s w header token user_id g found verified,
          )
      | inr (e, invalid) ↦ inr (
        λ (user_id, (scheme, other, whole, some_token, seven, same, verified)).
            let found' : bearer_token header ≡ some other =
              (bearer_token_iff header other).1 (scheme, whole, some_token, seven, same) in
            absurd (ground arith),
        inr (refused s w header g "invalid token" (ground arith)),
      )
    ]
    | inl missing ↦ inr (
      λ (user_id, (scheme, other, whole, some_token, seven, same, verified)).
          let found' : bearer_token header ≡ some other =
            (bearer_token_iff header other).1 (scheme, whole, some_token, seven, same) in
          absurd (ground arith),
      inl (refused s w header g "missing bearer token" (ground arith)),
    )
  ]

  -- A token that was issued for a user gets every guarded route handled for that user, with the
  -- scheme in any case, before the last whole second at or before the time of issue plus the TTL,
  -- if the token and the user's id are not empty.
  pub serve-issue :
      (s : Server) (w : World) (scheme token : Bytes) (user_id : String) (issued : ℕ) (g : Guarded)
      → issue d.jwt d.tokens user_id issued ≡ some token
      → token ≢ []
      → str_eq user_id "" ≡ false
      → length scheme ≡ 7
      → equal_fold scheme prefix ≡ true
      → leb ((issued + d.tokens.ttl) / second * second) w.auth_now ≡ false
      → serve d format_time sort_friends s w (scheme ++ token) (guarded g)
        ≡ handle_guarded d format_time sort_friends s w user_id g
  unfolding serve
  serve-issue s w scheme token user_id issued g signed some_token some_id seven same early =
      let found : bearer_token (scheme ++ token) ≡ some token =
        (bearer_token_iff (scheme ++ token) token).1 (scheme, refl, some_token, seven, same) in
      let verified : verify d.jwt d.tokens token w.auth_now ≡ ok user_id =
        ground (arith, verify-issue d.jwt d.tokens user_id issued w.auth_now token signed) in
      rw (require_auth_ok d w.auth_now (scheme ++ token) token user_id found verified)
