-- ===== src/Api/Samples.antt =====
-- Small states, requests and answers on which the theorems about internal/api are tried.
use dota_cuck.Prelude.{
  ℕ, ◌*◌, String, true, false, List, [], ◌∷◌, ◌++◌, Option, none, some, Bytes, codes, empty, put,
  str_eq, if◌then◌else◌,
}
use dota_cuck.Go.Scan.{ℤ, pos}
use dota_cuck.Auth.Phc.{default_password_params, encode_phc}
use dota_cuck.Auth.Hasher.{Hasher}
use dota_cuck.Auth.KeyCache.{new_key_cache}
use dota_cuck.Auth.Jwt.{second}
use dota_cuck.Auth.StandIns.{
  replicate, toy_argon, toy_hmac, toy_aead, toy_random, toy_secret, toy_jwt,
}
use dota_cuck.Store.{UserRow, SteamAccountRow, Postgres}
use dota_cuck.Store.SteamAccounts
use dota_cuck.Api.Models.{RegisterRequest, SteamAccountRequest, SteamGuardRequest, Friend}
use dota_cuck.Api.State.{Deps, Server, Env}
use dota_cuck.Api.Accounts.{on_linked}
use dota_cuck.Api.Friends.{FriendList}
use dota_cuck.Api.Router.{World}

abbrev pub hasher : Hasher
hasher = record { pepper = codes "pep"; params = default_password_params }

abbrev pub deps : Deps
deps = record {
  hmac = toy_hmac;
  argon = toy_argon;
  aead = toy_aead;
  jwt = toy_jwt;
  hasher = hasher;
  tokens = record { secret = toy_secret; ttl = 60 * second };
  has_links = true;
}

abbrev pub read : String → Option String
read s = if str_eq s "junk" then none else some s

abbrev pub answering : String → Postgres
answering id = record { fails = false; fresh_id = id; now = 100; read_uuid = read }

abbrev pub fresh : Server
fresh = record {
  db = record { users = []; steam_accounts = [] };
  keys = new_key_cache (60 * second);
  link_reqs = empty;
}

abbrev pub at_five : Env
at_five = record {
  pg = answering "id-1";
  random = toy_random;
  salt_random = toy_random;
  now = 5 * second;
  issued_now = 5 * second;
}

abbrev pub alice : RegisterRequest
alice = record { username = "alice"; password = codes "hunter2" }

abbrev pub stored_hash : Bytes
stored_hash = encode_phc default_password_params (codes "salt") (codes "hash")

abbrev pub alice_row : UserRow
alice_row = record {
  id = "id-1";
  username = "alice";
  password_hash = stored_hash;
  kdf_salt = codes "s";
  created_at = 100;
}

abbrev pub account_row : SteamAccountRow
account_row = record {
  id = "a1";
  user_id = "id-1";
  steam_id = none;
  steam_username = none;
  enc_refresh_token = none;
  enc_refresh_nonce = none;
  refresh_token_expires = none;
  created_at = 100;
}

abbrev pub aes_key : Bytes
aes_key = replicate 32 1

-- Alice is logged in; nothing is linked yet.
abbrev pub logged_in : Server
logged_in = record {
  db = record { users = alice_row ∷ []; steam_accounts = [] };
  keys = record {
    ttl = 60 * second;
    entries = put empty "id-1" (record { key = aes_key; expires = 65 * second });
  };
  link_reqs = empty;
}

abbrev pub linking : Server
linking = record logged_in {
  db = record { users = alice_row ∷ []; steam_accounts = account_row ∷ [] };
  link_reqs = put empty "a1" "r";
}

abbrev pub no_clock : Env
no_clock = record at_five { pg = answering "x" }

abbrev pub request : SteamAccountRequest
request = record { steam_username = "alice_dota"; steam_password = codes "s3cr3t" }

abbrev pub code : SteamGuardRequest
code = record { code = "K4J9X" }

-- Every payload has `exp` 9.
abbrev pub nine : Bytes → Option ℤ
nine payload = some (pos 9)

abbrev pub refresh_token : Bytes
refresh_token = codes "hdr.e30.sig"

abbrev pub nonce : Bytes
nonce = replicate 12 7

abbrev pub linked : Server
linked = record linking {
  db = record linking.db {
    steam_accounts =
        record account_row {
          steam_id = some "765";
          enc_refresh_token = some ((aes_key ++ nonce) ++ refresh_token);
          enc_refresh_nonce = some nonce;
          refresh_token_expires = some (pos 9);
        }
        ∷ [];
  };
  link_reqs =
      (on_linked deps nine linking (answering "x") toy_random "a1" aes_key "765"
        refresh_token).0.link_reqs;
}

abbrev pub account : SteamAccounts.SteamAccount
account = record {
  id = "a1";
  user_id = "id-1";
  steam_id = "";
  steam_username = "";
  enc_refresh_token = [];
  enc_refresh_nonce = [];
  refresh_token_expires = none;
  created_at = 100;
}

abbrev pub same_order : List Friend → List Friend
same_order l = l

abbrev pub no_friends : Bytes → Option FriendList
no_friends token = some (record { owner_steam_id = "765"; friends = [] })

abbrev pub no_time : ℕ → String
no_time t = ""

abbrev pub world : World
world = record {
  env = at_five;
  later = answering "x";
  auth_now = 6 * second;
  id_random = toy_random;
  relayed = true;
  fetch = λ token. none;
}

abbrev pub token_deps : Deps
token_deps = record deps { tokens = record { secret = toy_secret; ttl = 60 * second } }
