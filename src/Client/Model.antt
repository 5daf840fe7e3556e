-- ===== src/Client/Model.antt =====
-- client/nod-client-core/src/models.rs, with the device types of nod-proto/src/preferences.rs,
-- attestation.rs and notification.rs.
use nod.Base.{ℕ, String, Bool, not, ◌&&◌, leb, any, ◌==◌, Option, none, some, List}
use nod.Proto.Request.{Request}

pub data DevicePlatform : Type 0 where
  ios macos watchos windows linux unknown : DevicePlatform

pub record Channel : Type 0 where
  pub id : String
  pub name : String
  pub emoji : String
  pub subscribed : Bool
  pub created_at : ℕ

pub record ServerProfile : Type 0 where
  pub id : String
  pub credential_id : Option String
  pub name : String
  pub base_url_string : String
  pub device_name : String
  pub device_id : Option String
  pub user_id : Option String
  pub user_name : Option String

pub record User : Type 0 where
  pub id : String
  pub name : String
  pub created_at : ℕ
  pub updated_at : ℕ

pub record DeviceNotificationPreferences : Type 0 where
  pub hide_content : Bool
  pub muted_channels : List String
  pub snoozed_until : Option ℕ

abbrev snooze_over : ℕ → Option ℕ → Bool
snooze_over now none = Bool.true
snooze_over now (some t) = leb t now

unfoldable pub allows_alert : DeviceNotificationPreferences → String → ℕ → Bool
allows_alert p channel_id now =
    not (any (λ c. c == channel_id) p.muted_channels) && snooze_over now p.snoozed_until

pub data DeviceAttestationStatus : Type 0 where
  verified failed : DeviceAttestationStatus

pub record DeviceAttestationSummary : Type 0 where
  pub provider : String
  pub status : DeviceAttestationStatus
  pub key_id : Option String
  pub team_id : Option String
  pub bundle_id : Option String
  pub environment : Option String
  pub verified_at : Option ℕ
  pub failure_reason : Option String

pub record UserDevice : Type 0 where
  pub id : String
  pub user_id : String
  pub name : String
  pub platform : DevicePlatform
  pub native_app_id : Option String
  pub push_provider : Option String
  pub has_push_token : Bool
  pub has_signing_key : Bool
  pub attestation : Option DeviceAttestationSummary
  pub notification_sound : String
  pub notification_preferences : DeviceNotificationPreferences
  pub last_seen_at : ℕ
  pub created_at : ℕ
  pub is_current : Bool

pub data NotificationDeliveryMode : Type 0 where
  push websocket : NotificationDeliveryMode

pub record SyncPayload : Type 0 where
  pub request : Option Request
  pub channel : Option Channel
  pub notification_delivery : Option NotificationDeliveryMode

pub record SyncEnvelope : Type 0 where
  pub kind : String
  pub at : ℕ
  pub notification_delivery : Option NotificationDeliveryMode
  pub payload : SyncPayload

pub data SyncPhase : Type 0 where
  offline connecting reconciling current revoked : SyncPhase

pub record ClientState : Type 0 where
  pub servers : List ServerProfile
  pub selected_server_id : Option String
  pub current_user : Option User
  pub devices : List UserDevice
  pub channels : List Channel
  pub pending_counts_by_channel : List (String × ℕ)
  pub requests : List Request
  pub selected_channel_id : Option String
  pub selected_request_id : Option String
  pub notification_sound : String
  pub notification_delivery_mode : NotificationDeliveryMode
  pub is_registered : Bool
  pub is_sync_connected : Bool
  pub sync_phase : SyncPhase
  pub last_synced_at : Option String
  pub last_error : Option String
