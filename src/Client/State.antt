-- ===== src/Client/State.antt =====
-- client/nod-client-core/src/state.rs: the reducer of the clients' state. A method that changes `self`
-- gives the new reducer; the time of a synchronisation is an argument.
use nod.Base.{
  ℕ, String, Bool, true, false, not, ◌&&◌, Option, none, some, List, [], ◌∷◌, ◌==◌, any, is_empty,
  if◌then◌else◌, values,
}
use nod.Proto.Request.{Request}
use nod.Client.Model.{
  Channel, ServerProfile, NotificationDeliveryMode, websocket, SyncPhase, offline, current, revoked,
  ClientState,
}
use nod.Client.Visible.{visible_requests_for_selected_channel}

pub record StateReducer : Type 0 where
  pub state : ClientState
  pub known_pending_request_channels : List (String × String)
  pub has_loaded_pending_snapshot : Bool
  pub requests_by_id : List (String × Request)
  pub revision : ℕ
  pub request_revisions : List (String × ℕ)

unfoldable pub new_reducer : List ServerProfile → Option String → String → StateReducer
new_reducer servers selected_server_id notification_sound = record {
  state = record {
    servers = servers;
    selected_server_id = selected_server_id;
    current_user = none;
    devices = [];
    channels = [];
    pending_counts_by_channel = [];
    requests = [];
    selected_channel_id = none;
    selected_request_id = none;
    notification_sound = notification_sound;
    notification_delivery_mode = websocket;
    is_registered = not (is_empty servers);
    is_sync_connected = false;
    sync_phase = offline;
    last_synced_at = none;
    last_error = none;
  };
  known_pending_request_channels = [];
  has_loaded_pending_snapshot = false;
  requests_by_id = [];
  revision = 0;
  request_revisions = [];
}

abbrev first_id : List Request → Option String
first_id [] = none
first_id (r ∷ rs) = some r.id

abbrev pub still_selected : List Request → Option String → Bool
still_selected requests none = false
still_selected requests (some id) = any (λ r. r.id == id) requests

unfoldable pub ensure_selected_request : ClientState → ClientState
ensure_selected_request s =
    if still_selected s.requests s.selected_request_id
    then s
    else record s { selected_request_id = first_id s.requests }

unfoldable pub update_visible_requests : StateReducer → StateReducer
update_visible_requests r = record r {
  state = ensure_selected_request (record r.state {
    requests =
        visible_requests_for_selected_channel r.state.selected_channel_id (values r.requests_by_id);
  });
}

abbrev channel_is_visible : List Channel → Option String → Bool
channel_is_visible channels none = true
channel_is_visible channels (some id) = any (λ c. c.subscribed && (c.id == id)) channels

unfoldable pub ensure_selected_channel : ClientState → ClientState
ensure_selected_channel s =
    if channel_is_visible s.channels s.selected_channel_id
    then s
    else record s { selected_channel_id = none }

unfoldable pub clear_loaded_data : StateReducer → StateReducer
clear_loaded_data r = record r {
  state = record r.state {
    current_user = none;
    devices = [];
    channels = [];
    pending_counts_by_channel = [];
    requests = [];
    selected_channel_id = none;
    selected_request_id = none;
    last_synced_at = none;
  };
  known_pending_request_channels = [];
  has_loaded_pending_snapshot = false;
  requests_by_id = [];
  request_revisions = [];
}

unfoldable pub select_channel : Option String → StateReducer → StateReducer
select_channel channel_id r =
    update_visible_requests
      (record r { state = record r.state { selected_channel_id = channel_id } })

abbrev phase_lost : Bool → SyncPhase → SyncPhase
phase_lost true phase = phase
phase_lost false revoked = revoked
phase_lost false _ = offline

unfoldable pub mark_sync_connected : Bool → StateReducer → StateReducer
mark_sync_connected connected r = record r {
  state = record r.state {
    is_sync_connected = connected;
    sync_phase = phase_lost connected r.state.sync_phase;
  };
}

abbrev is_current_phase : SyncPhase → Bool
is_current_phase current = true
is_current_phase _ = false

unfoldable pub set_sync_phase : SyncPhase → StateReducer → StateReducer
set_sync_phase phase r = record r {
  state = record r.state { is_sync_connected = is_current_phase phase; sync_phase = phase };
}

unfoldable pub set_notification_delivery_mode :
    NotificationDeliveryMode → StateReducer → StateReducer
set_notification_delivery_mode mode r = record r {
  state = record r.state { notification_delivery_mode = mode };
}

unfoldable pub set_error : String → StateReducer → StateReducer
set_error error r = record r { state = record r.state { last_error = some error } }
