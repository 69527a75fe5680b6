-- ===== src/Workers/Messages.antt =====
-- The messages of proto/spectator/v1/worker.proto that the control plane reads and sends, with the
-- fields it uses. An unset text field is empty, an unset message is `none`.
use dota_cuck.Prelude.{String, Bool, Option, List, Bytes}

pub data SteamGuardType : Type 0 where
  unknown_guard email mobile : SteamGuardType

pub record ErrorEvent : Type 0 where
  pub code : String
  pub message : String

pub record FriendMessage : Type 0 where
  pub steam_id : String
  pub persona_name : Bytes
  pub online : Bool
  pub in_match : Bool

pub record FriendsResult : Type 0 where
  pub request_id : String
  pub friends : List FriendMessage
  pub owner_steam_id : String
  pub error : Option ErrorEvent

pub record LinkResult : Type 0 where
  pub request_id : String
  pub owner_steam_id : String
  pub error : Option ErrorEvent
  pub refresh_token : Bytes

pub data Payload : Type 0 where
  ready : Payload
  steam_guard : SteamGuardType → String → Payload
  qr_challenge : String → String → Payload
  friends_result : FriendsResult → Payload
  link_result : LinkResult → Payload
  -- StatusUpdate, MatchIdResolved, StreamStarted and Error are logged, as is an unset payload.
  status_update match_id_resolved stream_started error unset : Payload

pub record WorkerEvent : Type 0 where
  pub worker_id : String
  pub payload : Payload

pub data Command : Type 0 where
  list_friends : String → Bytes → Command
  link_account : String → String → Bytes → Command
  submit_guard_code : String → String → Command
