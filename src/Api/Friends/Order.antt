-- ===== src/Api/Friends/Order.antt =====
-- What a friends request answers with.
use mathlib.Core.List.{Perm}
use dota_cuck.Prelude.{Bool, ◌≡◌, refl, List, map, Option, none, some, arith, Bytes}
use dota_cuck.Go.Order.{SliceSort, IsStrictWeak, IsSorted, bytes_lt, bytes_lt-IsStrictWeak}
use dota_cuck.Store.{Postgres}
use dota_cuck.Store.SteamAccounts
use dota_cuck.Workers.Messages.{FriendMessage, FriendsResult, ErrorEvent}
use dota_cuck.Api.Models.{Friend, write_json, write_error, friends}
use dota_cuck.Api.State.{Deps, Server}
use dota_cuck.Api.Friends.{
  FriendList, to_status, to_friend, provide_friends, persona_less, sort_by_name, fetched,
}

-- The friend that a message of the worker tells of, and the order of the answer.
abbrev pub friend_of : FriendMessage → Friend
friend_of m = record {
  steam_id = m.steam_id;
  persona_name = m.persona_name;
  online = m.online;
  in_match = m.in_match;
}

abbrev pub by_name : Friend → Friend → Bool
by_name a b = bytes_lt a.persona_name b.persona_name

map-map : (ms : List FriendMessage) → map to_friend (map to_status ms) ≡ map friend_of ms
map-map List.[] = refl
map-map (List.◌∷◌ m ms) = ground (arith, map-map ms)

persona_less-IsStrictWeak : IsStrictWeak persona_less
unfolding persona_less
persona_less-IsStrictWeak = bytes_lt-IsStrictWeak (λ (f : Friend). f.persona_name)

module _ (d : Deps) (slice : SliceSort Friend) where
  -- With a `sort.Slice` that keeps its contract for every strict weak order, a reply of the worker
  -- without an error is answered with 200 and the worker's friends, each once, with its id, name and
  -- flags as the worker sent them, in the byte order of the names. A reply with an error, and a call that fails, are answered with 502 and change
  -- nothing.
  pub friends_answer :
      (fetch : Bytes → Option FriendList) (s : Server) (later : Postgres)
      (account : SteamAccounts.SteamAccount) (res bad : FriendsResult) (e : ErrorEvent)
      → res.error ≡ none
      → bad.error ≡ some e
      → ((out : List Friend) × ((fetched d
              (sort_by_name slice)
              fetch
              s
              later
              account
              (provide_friends (some res))).1
            ≡ write_json 200 (friends out))
          × Perm out (map friend_of res.friends)
          × IsSorted by_name out)
        × (fetched d (sort_by_name slice) fetch s later account (provide_friends (some bad))
            ≡ (s, write_error 502 "could not fetch friends"))
        × (fetched d (sort_by_name slice) fetch s later account (provide_friends none)
            ≡ (s, write_error 502 "could not fetch friends"))
  unfolding fetched provide_friends sort_by_name persona_less
  friends_answer fetch s later account res bad e fine wrong =
      let all = map friend_of res.friends in
      (
        (
          slice.sort persona_less all,
          ground (arith, map-map res.friends),
          slice.sort-perm persona_less all persona_less-IsStrictWeak,
          slice.sort-IsSorted persona_less all persona_less-IsStrictWeak,
        ),
        ground arith,
        refl,
      )
