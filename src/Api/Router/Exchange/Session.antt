-- ===== src/Api/Router/Exchange/Session.antt =====
-- A user's way in, as a client sees it: registration, login, and the requests after it.
use dota_cuck.Prelude.{
  ℕ, ◌+◌, ◌*◌, ◌/◌, ◌<◌, ◌≡◌, ◌≢◌, refl, ap, ◌∙◌, String, true, false, List, [], ◌∷◌, ◌++◌, some,
  Bytes, bytes_eq, codes, is_empty, leb, str_eq, All,
}
use dota_cuck.Go.Utf8.{utf8}
use dota_cuck.Go.Utf8.Runes.{runes-ascii}
use dota_cuck.Auth.Primitives.{IsRandom}
use dota_cuck.Auth.Hasher.Verify.{IsUsable}
use dota_cuck.Auth.Crypto.{kdf_salt_len}
use dota_cuck.Auth.Jwt.{second, issue}
use dota_cuck.Store.{any_row, has_key}
use dota_cuck.Api.Models.{Friend, Response, RegisterRequest, login_response, write_json}
use dota_cuck.Auth.KeyCache.{put_key}
use dota_cuck.Api.Requests.{register_request, login_request}
use dota_cuck.Api.Requests.Written.{body, requests_arrive}
use dota_cuck.Api.Responses.{login_row, object, read_body, body_text}
use dota_cuck.Api.Responses.RoundTrip.{read_body-body_text}
use dota_cuck.Api.Bearer.{prefix, equal_fold}
use dota_cuck.Api.State.{Deps, Server, Env, issue_token, register, login}
use dota_cuck.Api.State.Login.{login-register}
use dota_cuck.Api.Router.{Guarded, guarded, World, handle_guarded, serve}
use dota_cuck.Api.Router.Access.{serve-issue}
use dota_cuck.Api.Router.Exchange.{register_text, login_text, exchange}

-- The bodies of the two requests.
abbrev pub registration : String → String → Bytes
registration username password = body (("username", username) ∷ ("password", password) ∷ [])

abbrev pub login_body : String → String → Bytes
login_body username password = body (("password", password) ∷ ("username", username) ∷ [])

same_scheme : equal_fold (codes "Bearer ") prefix ≡ true
unfolding bytes_eq
same_scheme = refl

module _ (d : Deps) (format_time : ℕ → String) (sort_friends : List Friend → List Friend) where
  issued_answer :
      (env : Env) (id : String) (token : Bytes)
      → issue d.jwt d.tokens id env.issued_now ≡ some token
      → issue_token d env id 200 ≡ write_json 200 (login_response token)
  unfolding issue_token
  issued_answer env id token signed = rw (issue_token, signed)

  exchange-register_text :
      (s s' : Server) (w : World) (text : Bytes) (req : RegisterRequest) (r : Response)
      → register_request text ≡ some req
      → register d s w.env (some req) ≡ (s', r)
      → exchange d format_time sort_friends s w [] (register_text text)
        ≡ (s', (r.status, body_text r.body), [])
  unfolding exchange serve
  exchange-register_text s s' w text req r arrives made = rw (arrives, made)

  exchange-login_text :
      (s s' : Server) (w : World) (text : Bytes) (req : RegisterRequest) (r : Response)
      → login_request text ≡ some req
      → login d s w.env (some req) ≡ (s', r)
      → exchange d format_time sort_friends s w [] (login_text text)
        ≡ (s', (r.status, body_text r.body), [])
  unfolding exchange serve
  exchange-login_text s s' w text req r arrives made = rw (arrives, made)

  -- A client that posts a name and a password to register and later to log in, where the name and
  -- the id are new, random source and database work, and the login's token is signed, gets from the
  -- second answer (200) a text in which it reads that token; sent as `Bearer` token, every guarded
  -- route is handled for the new user, before the last whole second at or before the time of issue
  -- plus the TTL. The name and the password may have any characters; the token is ASCII, and
  -- neither it nor the id is empty.
  pub session_over_http :
      (s : Server) (w w₂ w₃ : World) (username password : String) (salt kdf_salt token : Bytes)
      (g : Guarded)
      → IsRandom w.env.random
      → IsUsable d.hasher.params
      → w.env.random d.hasher.params.salt_len ≡ some salt
      → w.env.salt_random kdf_salt_len ≡ some kdf_salt
      → str_eq username "" ≡ false
      → is_empty (utf8 (codes password)) ≡ false
      → w.env.pg.fails ≡ false
      → any_row (has_key (λ u. u.username) username) s.db.users ≡ false
      → any_row (has_key (λ u. u.id) w.env.pg.fresh_id) s.db.users ≡ false
      → w₂.env.pg.fails ≡ false
      → str_eq w.env.pg.fresh_id "" ≡ false
      → issue d.jwt d.tokens w.env.pg.fresh_id w₂.env.issued_now ≡ some token
      → token ≢ []
      → All (λ c. c < 128) token
      → leb ((w₂.env.issued_now + d.tokens.ttl) / second * second) w₃.auth_now ≡ false
      → let s₁ =
          (exchange d format_time sort_friends s w []
            (register_text (registration username password))).0 in
        (s₂ : Server) × (text : Bytes) × (exchange d format_time sort_friends s₁ w₂ []
            (login_text (login_body username password))
          ≡ (s₂, (200, text), []))
        × (read_body text ≡ some (object (login_row token)))
        × (serve d format_time sort_friends s₂ w₃ (codes "Bearer " ++ token) (guarded g)
            ≡ handle_guarded d format_time sort_friends s₂ w₃ w.env.pg.fresh_id g)
  session_over_http s w w₂ w₃ username password salt kdf_salt token g good usable r₁ r₂ named secret
        up new_name new_id up₂ some_id signed some_token ascii early =
      let req : RegisterRequest = record {
        username = username;
        password = utf8 (codes password);
      } in
      let (key, s', registered, keys, logged, stored) =
        login-register d s w.env w₂.env req salt kdf_salt good usable r₁ r₂ named secret up new_name
          new_id up₂ in
      let (first, second_body, account, qr, code) = requests_arrive username password in
      let e₁ =
        ap (λ p. p.0)
          (exchange-register_text s s' w (registration username password) req _ first registered) in
      let s₂ = record s' { keys = put_key s'.keys w.env.pg.fresh_id key w₂.env.now } in
      (
        s₂,
        body_text (login_response token),
        ap
              (λ x.
                exchange d format_time sort_friends x w₂ []
                  (login_text (login_body username password)))
              e₁
            ∙ exchange-login_text s' s₂ w₂ (login_body username password) req
                (write_json 200 (login_response token)) second_body
                (logged ∙ ap (λ r. (s₂, r)) (issued_answer w₂.env w.env.pg.fresh_id token signed)),
        read_body-body_text (login_response token)
            ∙ ap (λ t. some (object (login_row t))) (runes-ascii token ascii),
        serve-issue d format_time sort_friends s₂ w₃ (codes "Bearer ") token w.env.pg.fresh_id
            w₂.env.issued_now g signed some_token some_id refl same_scheme early,
      )
