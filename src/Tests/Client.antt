-- ===== src/Tests/Client.antt =====
-- Runs of the client's reducer.
use nod.Base.{
  ℕ, ◌≡◌, refl, String, false, not, ◌&&◌, none, some, List, [], ◌∷◌, ◌++◌, All, arith,
  if◌then◌else◌, put, remove, lookup, values, count_values, select, take, sort_by,
}
use nod.Proto.Request.{Request, RequestStatus, pending, resolved, shared, is_pending}
use nod.Client.Visible.{visible_requests, visible_requests_for_selected_channel, shown_before}
use nod.Client.Pending.{request_is_stale, increment_pending_count, decrement_pending_count}
use nod.Client.Visible.Split.{every_pending_request_is_shown}
use nod.Client.Model.{SyncEnvelope}
use nod.Client.State.{new_reducer, select_channel, update_visible_requests, ensure_selected_request}
use nod.Client.Snapshot.{apply_snapshot, by_id, is_older}
use nod.Client.Updates.{
  apply_request_update, apply_sync_envelope, is_stale_update, update_pending_tracking,
  previous_pending_channel, mark_pending, clear_pending, update_pending_channel,
}
use nod.Client.Counting.{count_at, waits_in, pending_channel}
use nod.Client.Tracking.Calls.{
  ClientCall, refreshed, announced, updated, channel_selected, run_calls, started_with,
  becomes_pending, news_of, counts_follow_requests, news_are_new,
}
use nod.Client.Tracking.Race.{update_outlives_snapshot}

abbrev card : String → String → RequestStatus → ℕ → Request
card id channel_id status time = record {
  answer_field = none;
  id = id;
  request_id = id;
  channel_id = channel_id;
  recipients = "ann" ∷ [];
  decision_resolution = shared;
  title = "Deploy?";
  summary = "";
  body_markdown = "";
  fields = [];
  links = [];
  image_url = none;
  notification = record { redact = false; title = none; body = none };
  dedupe_key = none;
  expires_at = none;
  status = status;
  created_at = 1;
  updated_at = time;
  resolved_at = none;
  decision = none;
  decisions = [];
  callback_url = none;
  options = [];
  request_digest = none;
  signing = none;
}

abbrev show_now : ℕ → String
show_now t = "now"

-- Two requests arrive, one of them moves to another channel, and one is answered.
abbrev two_arrive : List ClientCall
two_arrive =
    updated (card "r1" "ops" pending 1)
    ∷ updated (card "r2" "ops" pending 1)
    ∷ updated (card "r2" "dev" pending 2)
    ∷ channel_selected (some "ops")
    ∷ updated (card "r1" "ops" resolved 3)
    ∷ []

pending_counts_by_channel_test :
    (started_with [] none "chime" two_arrive).state.pending_counts_by_channel ≡ ("dev", 1) ∷ []
unfolding new_reducer apply_request_update update_pending_tracking is_stale_update request_is_stale
    previous_pending_channel mark_pending clear_pending update_pending_channel
    increment_pending_count decrement_pending_count update_visible_requests
    visible_requests_for_selected_channel visible_requests ensure_selected_request select_channel
    put remove
pending_counts_by_channel_test = refl

counts_follow_requests_example :
    ((c : String)
      → count_at c (started_with [] none "chime" two_arrive).state.pending_counts_by_channel
        ≡ count_values (waits_in c) (started_with [] none "chime" two_arrive).requests_by_id)
    × ((id : String)
        → lookup id (started_with [] none "chime" two_arrive).known_pending_request_channels
          ≡ pending_channel (lookup id (started_with [] none "chime" two_arrive).requests_by_id))
    × All
        (λ q. lookup q.id (started_with [] none "chime" two_arrive).requests_by_id ≡ some q)
        (started_with [] none "chime" two_arrive).state.requests
counts_follow_requests_example = counts_follow_requests [] none "chime" two_arrive

abbrev after_refresh : List ClientCall
after_refresh = refreshed none [] [] [] 0 1 show_now ∷ two_arrive

abbrev created : SyncEnvelope
created = record {
  kind = "created";
  at = 5;
  notification_delivery = none;
  payload = record {
    request = some (card "r4" "ops" pending 4);
    channel = none;
    notification_delivery = none;
  };
}

news_are_new_example :
    ((apply_sync_envelope created (started_with [] none "chime" after_refresh)).0
      ≡ news_of created (started_with [] none "chime" after_refresh))
    × ((apply_request_update
          (card "r3" "ops" pending 4)
          (started_with [] none "chime" after_refresh)).0
        ≡ (not (
              is_stale_update
                (card "r3" "ops" pending 4)
                (started_with [] none "chime" after_refresh))
            && becomes_pending
                (card "r3" "ops" pending 4)
                (started_with [] none "chime" after_refresh)))
    × ((apply_snapshot none [] []
          (card "r3" "ops" pending 4 ∷ [])
          2
          9
          show_now
          (started_with [] none "chime" after_refresh)).0
        ≡ (if (started_with [] none "chime" after_refresh).has_loaded_pending_snapshot
            then select
                (λ q. becomes_pending q (started_with [] none "chime" after_refresh))
                (values
                  (apply_snapshot none [] []
                    (card "r3" "ops" pending 4 ∷ [])
                    2
                    9
                    show_now
                    (started_with [] none "chime" after_refresh)).1.requests_by_id)
            else []))
news_are_new_example =
    news_are_new [] none "chime" after_refresh created (card "r3" "ops" pending 4) none [] []
      (card "r3" "ops" pending 4 ∷ []) 2 9 show_now

is_stale_update_test :
    is_stale_update (card "r1" "ops" pending 2) (started_with [] none "chime" []) ≡ false
unfolding new_reducer is_stale_update
is_stale_update_test = refl

abbrev meanwhile : List ClientCall
meanwhile = updated (card "r2" "dev" pending 3) ∷ announced created ∷ channel_selected none ∷ []

update_outlives_snapshot_example :
    lookup "r1"
      (apply_snapshot none [] [] (card "r1" "ops" pending 1 ∷ []) 0 9 show_now (
        run_calls meanwhile
          (apply_request_update
            (card "r1" "ops" pending 2)
            (started_with [] none "chime" [])).1)).1.requests_by_id
    ≡ (if is_older
          (card "r1" "ops" pending 2)
          (lookup "r1" (by_id [] (card "r1" "ops" pending 1 ∷ [])))
        then lookup "r1" (by_id [] (card "r1" "ops" pending 1 ∷ []))
        else some (card "r1" "ops" pending 2))
update_outlives_snapshot_example =
    update_outlives_snapshot [] none "chime" [] (card "r1" "ops" pending 2) meanwhile none [] []
      (card "r1" "ops" pending 1 ∷ []) 0 9 show_now is_stale_update_test (omega arith) refl

abbrev three : List Request
three = card "r1" "ops" resolved 3 ∷ card "r2" "dev" pending 2 ∷ card "r3" "ops" pending 4 ∷ []

every_pending_request_is_shown_example :
    visible_requests three
    ≡ sort_by shown_before (select (λ r. is_pending r.status) three)
      ++ take 500 (sort_by shown_before (select (λ r. not (is_pending r.status)) three))
every_pending_request_is_shown_example = every_pending_request_is_shown three
