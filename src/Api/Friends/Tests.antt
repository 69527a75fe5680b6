-- ===== src/Api/Friends/Tests.antt =====
-- Two friends in the worker's order and in that of the answer.
use mathlib.Core.List.{Perm}
use dota_cuck.Prelude.{
  ◌≡◌, refl, true, false, List, [], ◌∷◌, map, Option, none, some, Bytes, codes, empty,
}
use dota_cuck.Go.Order.{IsSorted}
use dota_cuck.Go.Order.Insertion.{insertion, insertion_sort}
use dota_cuck.Auth.Phc.{default_password_params}
use dota_cuck.Auth.KeyCache.{new_key_cache}
use dota_cuck.Auth.StandIns.{toy_argon, toy_hmac, toy_aead, toy_jwt, toy_secret}
use dota_cuck.Store.{Postgres}
use dota_cuck.Store.SteamAccounts
use dota_cuck.Workers.Messages.{FriendMessage, FriendsResult, ErrorEvent}
use dota_cuck.Api.Models.{Friend, write_json, write_error, friends}
use dota_cuck.Api.State.{Deps, Server}
use dota_cuck.Api.Friends.{FriendList, provide_friends, persona_less, sort_by_name, fetched}
use dota_cuck.Api.Friends.Order.{friend_of, by_name, friends_answer}

abbrev deps : Deps
deps = record {
  hmac = toy_hmac;
  argon = toy_argon;
  aead = toy_aead;
  jwt = toy_jwt;
  hasher = record { pepper = codes "pep"; params = default_password_params };
  tokens = record { secret = toy_secret; ttl = 60 };
  has_links = true;
}

abbrev server : Server
server = record {
  db = record { users = []; steam_accounts = [] };
  keys = new_key_cache 60;
  link_reqs = empty;
}

abbrev pg : Postgres
pg = record { fails = false; fresh_id = "x"; now = 100; read_uuid = λ s. some s }

abbrev account : SteamAccounts.SteamAccount
account = record {
  id = "a1";
  user_id = "id-1";
  steam_id = "";
  steam_username = "";
  enc_refresh_token = codes "c";
  enc_refresh_nonce = codes "n";
  refresh_token_expires = none;
  created_at = 100;
}

abbrev zoe : FriendMessage
zoe = record { steam_id = "2"; persona_name = codes "zoe"; online = true; in_match = false }

abbrev bob : FriendMessage
bob = record { steam_id = "1"; persona_name = codes "Bob"; online = true; in_match = true }

abbrev reply : FriendsResult
reply = record { request_id = "r"; friends = zoe ∷ bob ∷ []; owner_steam_id = "765"; error = none }

abbrev crash : ErrorEvent
crash = record { code = "DOTA_CRASH"; message = "boom" }

abbrev bad : FriendsResult
bad = record reply { error = some crash }

sorted : sort_by_name insertion (map friend_of reply.friends) ≡ friend_of bob ∷ friend_of zoe ∷ []
unfolding sort_by_name persona_less insertion_sort
sorted = refl

abbrev nothing : Bytes → Option FriendList
nothing t = none

friends_answer_example :
    ((out : List Friend) × ((fetched deps
          (sort_by_name insertion)
          nothing
          server
          pg
          account
          (provide_friends (some reply))).1
        ≡ write_json 200 (friends out))
      × Perm out (map friend_of reply.friends)
      × IsSorted by_name out)
    × (fetched deps (sort_by_name insertion) nothing server pg account (provide_friends (some bad))
        ≡ (server, write_error 502 "could not fetch friends"))
    × (fetched deps (sort_by_name insertion) nothing server pg account (provide_friends none)
        ≡ (server, write_error 502 "could not fetch friends"))
friends_answer_example =
    friends_answer deps insertion nothing server pg account reply bad crash refl refl
