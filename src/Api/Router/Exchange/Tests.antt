-- ===== src/Api/Router/Exchange/Tests.antt =====
-- Alice registers, logs in, and asks for her friends.
use dota_cuck.Prelude.{
  ◌≡◌, ◌≢◌, ◌<◌, refl, false, [], ◌++◌, some, arith, Bytes, All, codes, str_eq, is_empty,
}
use dota_cuck.Go.Utf8.{utf8}
use dota_cuck.Auth.Phc.{default_password_params}
use dota_cuck.Auth.Hasher.Verify.{IsUsable}
use dota_cuck.Auth.Jwt.{issue}
use dota_cuck.Auth.StandIns.{replicate, toy_random-IsRandom, toy_token, toy_jwt}
use dota_cuck.Store.{any_row}
use dota_cuck.Api.Responses.{login_row, object, read_body}
use dota_cuck.Api.State.{Server}
use dota_cuck.Api.Router.{guarded, get_friends, serve, handle_guarded}
use dota_cuck.Api.Router.Exchange.{register_text, login_text, exchange}
use dota_cuck.Api.Router.Exchange.Session.{registration, login_body, session_over_http}
use dota_cuck.Api.Samples.{fresh, no_time, world, token_deps}

nobody : any_row (λ u. str_eq u.username "alice") fresh.db.users ≡ false
unfolding any_row
nobody = refl

no_id : any_row (λ u. str_eq u.id "id-1") fresh.db.users ≡ false
unfolding any_row
no_id = refl

usable : IsUsable default_password_params
usable = omega arith

token_some : toy_token ≢ []
token_some empty = absurd (ground arith)

token_ascii : All (λ c. c < 128) toy_token
token_ascii = omega arith

token_issued : issue toy_jwt token_deps.tokens "id-1" world.env.issued_now ≡ some toy_token
unfolding issue
token_issued = refl

secret : is_empty (utf8 (codes "hünter2")) ≡ false
unfolding utf8
secret = refl

session_over_http_example :
    (s₂ : Server) × (text : Bytes) × (exchange token_deps no_time
        (λ fs. fs)
        (exchange token_deps no_time
          (λ fs. fs)
          fresh
          world
          []
          (register_text (registration "alice" "hünter2"))).0
        world
        []
        (login_text (login_body "alice" "hünter2"))
      ≡ (s₂, (200, text), []))
    × (read_body text ≡ some (object (login_row toy_token)))
    × (serve token_deps no_time
          (λ fs. fs)
          s₂
          world
          (codes "Bearer " ++ toy_token)
          (guarded get_friends)
        ≡ handle_guarded token_deps no_time (λ fs. fs) s₂ world "id-1" get_friends)
session_over_http_example =
    session_over_http token_deps no_time (λ fs. fs) fresh world world world "alice" "hünter2"
      (replicate 16 7) (replicate 16 7) toy_token get_friends toy_random-IsRandom usable refl refl
      refl secret refl nobody no_id refl refl token_issued token_some token_ascii refl
