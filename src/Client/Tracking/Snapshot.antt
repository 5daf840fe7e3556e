-- ===== src/Client/Tracking/Snapshot.antt =====
-- A snapshot in client/nod-client-core/src/state.rs makes the reducer's maps anew, and consistent.
use nod.Base.{
  ℕ, ◌≡◌, refl, ◌∙◌, String, Bool, true, false, Option, List, [], ◌∷◌, if◌then◌else◌, arith,
  put-UniqueKeys, put, values, All-put, All,
}
use nod.Proto.Request.{Request}
use nod.Client.Model.{Channel, User, UserDevice}
use nod.Client.Pending.{count_pending_by_channel, pending_request_channels, pending_requests}
use nod.Client.State.{StateReducer, update_visible_requests}
use nod.Client.Snapshot.{survives, keep_later, by_id, with_snapshot, apply_snapshot}
use nod.Client.Counting.{
  count_at-count_from, count_from-UniqueKeys, lookup-channels_from, or_else-none, ById,
}
use nod.Client.Tracking.{
  Consistent, Tracked, update_visible_requests-Tracked, ensure_selected_request-Tracked,
}

pub by_id-ById :
    (held : List (String × Request)) (rs : List Request) → ById held → ById (by_id held rs)
by_id-ById held [] h = h
by_id-ById held (q ∷ rs) h =
    by_id-ById (put q.id q held) rs
      (put-UniqueKeys q.id q held h.0, All-put (λ e. e.1.id ≡ e.0) q.id q held refl h.1)

pub keep_later-ById :
    (started : ℕ) (revisions : List (String × ℕ)) (held snapshot : List (String × Request))
    → All (λ e. e.1.id ≡ e.0) held
    → ById snapshot
    → ById (keep_later started revisions held snapshot)
unfolding keep_later
keep_later-ById started revisions [] snapshot k h = h
keep_later-ById started revisions ((id, q) ∷ rest) snapshot k h =
    keep_later-ById started revisions rest _ k.1 (kept (survives started revisions snapshot id q))
  where
    kept : (b : Bool) → ById (if b then put id q snapshot else snapshot)
    kept true =
        (put-UniqueKeys id q snapshot h.0, All-put (λ e. e.1.id ≡ e.0) id q snapshot k.0 h.1)
    kept false = h

pub counted_anew :
    (held : List (String × Request))
    → ById held
    → Consistent
        (count_pending_by_channel (pending_requests (values held)))
        (pending_request_channels (pending_requests (values held)))
        held
        []
unfolding count_pending_by_channel pending_request_channels
counted_anew held h = record {
  unique = count_from-UniqueKeys [] (pending_requests (values held)) tt;
  counted = λ c. count_at-count_from c [] held ∙ omega arith;
  known_channel = λ i. lookup-channels_from i [] held h ∙ or_else-none _;
  keyed = h;
  shown_is_held = tt;
}

pub apply_snapshot-Tracked :
    (user : Option User) (devices : List UserDevice) (channels : List Channel) (rs : List Request)
    (started synced_at : ℕ) (show_time : ℕ → String) (r : StateReducer)
    → Tracked r
    → Tracked (apply_snapshot user devices channels rs started synced_at show_time r).1
unfolding apply_snapshot
apply_snapshot-Tracked user devices channels rs started synced_at show_time r h =
    let held = keep_later started r.request_revisions r.requests_by_id (by_id [] rs) in
    ensure_selected_request-Tracked
      (update_visible_requests (with_snapshot user devices channels held r))
      (update_visible_requests-Tracked (with_snapshot user devices channels held r) [] (
        counted_anew held (
          keep_later-ById started r.request_revisions r.requests_by_id (by_id [] rs) h.keyed.1
            (by_id-ById [] rs (tt, tt)))))
