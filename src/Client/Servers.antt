-- ===== src/Client/Servers.antt =====
-- client/nod-client-core/src/state.rs: the list of servers and the selected one.
use nod.Base.{
  String, Bool, false, not, Option, none, some, List, [], ◌∷◌, ◌==◌, select, is_empty,
  if◌then◌else◌,
}
use nod.Client.Model.{ServerProfile}
use nod.Client.State.{StateReducer, clear_loaded_data}

abbrev with_servers : StateReducer → List ServerProfile → StateReducer
with_servers r servers = record r {
  state = record r.state { servers = servers; is_registered = not (is_empty servers) };
}

-- The first profile with the id is replaced.
abbrev put_server : ServerProfile → List ServerProfile → List ServerProfile
put_server server [] = server ∷ []
put_server server (s ∷ ss) = if s.id == server.id then server ∷ ss else s ∷ put_server server ss

unfoldable pub upsert_server : ServerProfile → StateReducer → StateReducer
upsert_server server r = with_servers r (put_server server r.state.servers)

abbrev pub first_server : List ServerProfile → Option String
first_server [] = none
first_server (s ∷ ss) = some s.id

abbrev pub is_text : Option String → String → Bool
is_text none t = false
is_text (some s) t = s == t

unfoldable pub remove_server : String → StateReducer → StateReducer
remove_server server_id r =
    let left = select (λ s. not (s.id == server_id)) r.state.servers in
    let kept = record r { state = record r.state { servers = left } } in
    with_servers
      (if is_text r.state.selected_server_id server_id
        then clear_loaded_data
            (record kept { state = record kept.state { selected_server_id = first_server left } })
        else kept)
      left

unfoldable pub set_selected_server : String → StateReducer → StateReducer
set_selected_server server_id r =
    clear_loaded_data (record r { state = record r.state { selected_server_id = some server_id } })
