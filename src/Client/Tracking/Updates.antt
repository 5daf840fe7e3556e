-- ===== src/Client/Tracking/Updates.antt =====
-- The updates of client/nod-client-core/src/state.rs keep the reducer's maps consistent.
use nod.Base.{
  ℕ, ◌+◌, ◌≤◌, ◌≡◌, refl, sym, ap, ◌∙◌, inl, inr, String, true, ◌&&◌, Option, none, some, List, [],
  ◌==◌, find, if◌then◌else◌, Bool-cases, Option-cases, arith, eq_iff, UniqueKeys, put-UniqueKeys,
  lookup, put, remove, count_values, counts_for, one_if, lookup-put, lookup-remove,
  count_values-put, All-put, counts_for-lookup-le, All-find, find_sound,
}
use nod.Proto.Request.{Request, is_pending}
use nod.Client.Model.{Channel, SyncEnvelope}
use nod.Client.Pending.{increment_pending_count, decrement_pending_count}
use nod.Client.State.{StateReducer}
use nod.Client.Updates.{
  previous_pending_channel, channel_of, or_first, mark_pending, clear_pending,
  update_pending_channel, tracked, update_pending_tracking, is_stale_update, apply_request_update,
  upsert_channel, channel_synced, apply_sync_envelope,
}
use nod.Client.Counting.{
  count_at, waits_in, pending_channel, ById, count_at-increment, count_at-decrement,
  increment_pending_count-UniqueKeys, decrement_pending_count-UniqueKeys,
}
use nod.Client.Tracking.{Consistent, Tracked, update_visible_requests-Tracked}

pending_channel-lookup :
    (e : Request) (id : String) (held : List (String × Request))
    → lookup e.id held ≡ some e
    → ((e.id == id) && is_pending e.status) ≡ true
    → pending_channel (lookup id held) ≡ some e.channel_id
pending_channel-lookup e id held found t = elim (Bool-cases (e.id == id)) [
  | inl m ↦
      ap (λ i. pending_channel (lookup i held)) (sym ((eq_iff e.id id).0 m))
      ∙ ap pending_channel found
      ∙ rw (rw m at t) refl
  | inr m ↦ absurd (cc (t, rw m at t))
]

-- The list that is shown adds nothing to the known channels.
pub previous_pending_channel_lem :
    (r : StateReducer) (q : Request)
    → Tracked r
    → pending_channel (lookup q.id r.requests_by_id) ≡ previous_pending_channel r q
unfolding previous_pending_channel
previous_pending_channel_lem r q h =
    go (lookup q.id r.known_pending_request_channels)
      (find (λ e. (e.id == q.id) && is_pending e.status) r.state.requests)
      (sym (h.known_channel q.id)) refl
  where
    go :
        (known : Option String) (found : Option Request)
        → pending_channel (lookup q.id r.requests_by_id) ≡ known
        → find (λ e. (e.id == q.id) && is_pending e.status) r.state.requests ≡ found
        → pending_channel (lookup q.id r.requests_by_id) ≡ or_first known (channel_of found)
    go (some c) found k f = k
    go none none k f = k
    go none (some e) k f = absurd (
        cc (
          k,
          pending_channel-lookup e q.id r.requests_by_id
              (All-find (λ x. lookup x.id r.requests_by_id ≡ some x)
                (λ x. (x.id == q.id) && is_pending x.status) r.state.requests h.shown_is_held f)
              (find_sound (λ x. (x.id == q.id) && is_pending x.status) r.state.requests f),
        ))

-- What a request in a channel counts for.
abbrev channel_counts : String → Option String → ℕ
channel_counts c none = 0
channel_counts c (some d) = one_if (d == c)

counts_for-waits_in :
    (c : String) (o : Option Request)
    → counts_for (waits_in c) o ≡ channel_counts c (pending_channel o)
counts_for-waits_in c none = refl
counts_for-waits_in c (some q) = ground arith

-- The new value's count, in terms of the channel it waited in and the one it waits in.
counted_put :
    (c : String) (q : Request) (held : List (String × Request)) (previous : Option String)
    → pending_channel (lookup q.id held) ≡ previous
    → (count_values (waits_in c) (put q.id q held) + channel_counts c previous
        ≡ count_values (waits_in c) held + channel_counts c (pending_channel (some q)))
      × (channel_counts c previous ≤ count_values (waits_in c) held)
counted_put c q held previous e = (
  rw (sym e, sym (counts_for-waits_in c (lookup q.id held)), sym (counts_for-waits_in c (some q)))
      (count_values-put (waits_in c) q.id q held),
  rw (sym e, sym (counts_for-waits_in c (lookup q.id held)))
      (counts_for-lookup-le (waits_in c) q.id held),
)

put-ById : (q : Request) (held : List (String × Request)) → ById held → ById (put q.id q held)
put-ById q held h =
    (put-UniqueKeys q.id q held h.0, All-put (λ e. e.1.id ≡ e.0) q.id q held refl h.1)

-- The counts of `tracked`.
abbrev counts_after : Request → Option String → List (String × ℕ) → List (String × ℕ)
counts_after q none counts =
    if is_pending q.status then increment_pending_count counts q.channel_id else counts
counts_after q (some d) counts =
    if is_pending q.status
    then if d == q.channel_id
      then counts
      else increment_pending_count (decrement_pending_count counts d) q.channel_id
    else decrement_pending_count counts d

-- The counts after a request came to wait in its channel, or left the one it waited in.
counted_after :
    (c : String) (q : Request) (held : List (String × Request)) (counts : List (String × ℕ))
    (previous : Option String)
    → UniqueKeys counts
    → count_at c counts ≡ count_values (waits_in c) held
    → pending_channel (lookup q.id held) ≡ previous
    → count_at c (counts_after q previous counts) ≡ count_values (waits_in c) (put q.id q held)
counted_after c q held counts none u n p = elim (Bool-cases (is_pending q.status)) [
  | inl e ↦ rw e (
      omega (
        arith,
        n,
        count_at-increment c q.channel_id counts,
        (rw e at (counted_put c q held none p)).0,
      ))
  | inr e ↦ rw e (omega (arith, n, (rw e at (counted_put c q held none p)).0))
]
counted_after c q held counts (some d) u n p = elim (Bool-cases (is_pending q.status)) [
  | inl e ↦ elim (Bool-cases (d == q.channel_id)) [
    | inl m ↦
        rw (e, m)
          (n
            ∙ omega (
              arith,
              (rw (e, (eq_iff d q.channel_id).0 m) at (counted_put c q held (some d) p)).0,
            ))
    | inr m ↦
        rw (e, m)
          (omega (
            arith,
            n,
            count_at-increment c q.channel_id (decrement_pending_count counts d),
            count_at-decrement c d counts u,
            (rw e at (counted_put c q held (some d) p)).0,
            (counted_put c q held (some d) p).1,
          ))
  ]
  | inr e ↦ rw e (
      omega (
        arith,
        n,
        count_at-decrement c d counts u,
        (rw e at (counted_put c q held (some d) p)).0,
        (counted_put c q held (some d) p).1,
      ))
]

counts_after-UniqueKeys :
    (q : Request) (counts : List (String × ℕ)) (previous : Option String)
    → UniqueKeys counts
    → UniqueKeys (counts_after q previous counts)
counts_after-UniqueKeys q counts none u = elim (Bool-cases (is_pending q.status)) [
  | inl e ↦ rw e (increment_pending_count-UniqueKeys q.channel_id counts u)
  | inr e ↦ rw e u
]
counts_after-UniqueKeys q counts (some d) u = elim (Bool-cases (is_pending q.status)) [
  | inl e ↦ elim (Bool-cases (d == q.channel_id)) [
    | inl m ↦ rw (e, m) u
    | inr m ↦
        rw (e, m)
          (increment_pending_count-UniqueKeys q.channel_id (decrement_pending_count counts d)
            (decrement_pending_count-UniqueKeys d counts u))
  ]
  | inr e ↦ rw e (decrement_pending_count-UniqueKeys d counts u)
]

-- The known channels of `tracked`.
abbrev known_after : Request → Option String → List (String × String) → List (String × String)
known_after q none known = if is_pending q.status then put q.id q.channel_id known else known
known_after q (some d) known =
    if is_pending q.status then put q.id q.channel_id known else remove q.id known

lookup-known_after :
    (i : String) (q : Request) (held : List (String × Request)) (known : List (String × String))
    (previous : Option String)
    → lookup i known ≡ pending_channel (lookup i held)
    → pending_channel (lookup q.id held) ≡ previous
    → lookup i (known_after q previous known) ≡ pending_channel (lookup i (put q.id q held))
lookup-known_after i q held known none k p = elim (Bool-cases (is_pending q.status)) [
  | inl e ↦
      rw (e, lookup-put i q.id q.channel_id known, lookup-put i q.id q held, k)
        (elim (Bool-cases (q.id == i)) [ inl m ↦ rw (m, e) refl | inr m ↦ rw m refl ])
  | inr e ↦
      rw (e, lookup-put i q.id q held, k)
        (elim (Bool-cases (q.id == i)) [
          | inl m ↦ rw (m, e, sym ((eq_iff q.id i).0 m)) p
          | inr m ↦ rw m refl
        ])
]
lookup-known_after i q held known (some d) k p = elim (Bool-cases (is_pending q.status)) [
  | inl e ↦
      rw (e, lookup-put i q.id q.channel_id known, lookup-put i q.id q held, k)
        (elim (Bool-cases (q.id == i)) [ inl m ↦ rw (m, e) refl | inr m ↦ rw m refl ])
  | inr e ↦
      rw (e, lookup-remove i q.id known, lookup-put i q.id q held, k)
        (elim (Bool-cases (q.id == i)) [ inl m ↦ rw (m, e) refl | inr m ↦ rw m refl ])
]

-- What `tracked` does, without its branches.
pub tracked_lem :
    (q : Request) (previous : Option String) (r : StateReducer)
    → (tracked q previous r).1 ≡ record r {
      state = record r.state {
        pending_counts_by_channel = counts_after q previous r.state.pending_counts_by_channel;
      };
      known_pending_request_channels = known_after q previous r.known_pending_request_channels;
    }
unfolding mark_pending clear_pending update_pending_channel
tracked_lem q none r = elim (Bool-cases (is_pending q.status)) [
  | inl e ↦ rw e refl
  | inr e ↦ rw e refl
]
tracked_lem q (some d) r = elim (Bool-cases (is_pending q.status)) [
  | inl e ↦ elim (Bool-cases (d == q.channel_id)) [
    | inl m ↦ rw (e, m) refl
    | inr m ↦ rw (e, m) refl
  ]
  | inr e ↦ rw e refl
]

tracked-Consistent :
    (q : Request) (previous : Option String) (r : StateReducer)
    → Tracked r
    → pending_channel (lookup q.id r.requests_by_id) ≡ previous
    → Consistent
        (tracked q previous r).1.state.pending_counts_by_channel
        (tracked q previous r).1.known_pending_request_channels
        (put q.id q (tracked q previous r).1.requests_by_id)
        []
tracked-Consistent q previous r h p = rw (tracked_lem q previous r) (record {
  unique = counts_after-UniqueKeys q r.state.pending_counts_by_channel previous h.unique;
  counted = λ c.
      counted_after c q r.requests_by_id r.state.pending_counts_by_channel previous h.unique
        (h.counted c) p;
  known_channel = λ i.
      lookup-known_after i q r.requests_by_id r.known_pending_request_channels previous
        (h.known_channel i) p;
  keyed = put-ById q r.requests_by_id h.keyed;
  shown_is_held = tt;
})

pub apply_request_update-Tracked :
    (q : Request) (r : StateReducer) → Tracked r → Tracked (apply_request_update q r).1
unfolding apply_request_update update_pending_tracking
apply_request_update-Tracked q r h = elim (Bool-cases (is_stale_update q r)) [
  | inl e ↦ rw e h
  | inr e ↦ rw e (
      update_visible_requests-Tracked _ [] (
        tracked-Consistent q (previous_pending_channel r q) r h
          (previous_pending_channel_lem r q h)))
]

pub channel_synced-Tracked :
    (c : Option Channel) (r : StateReducer)
    → Tracked r
    → Tracked (channel_synced c (record r { state = record r.state { is_sync_connected = true } }))
unfolding upsert_channel
channel_synced-Tracked none r h = h
channel_synced-Tracked (some c) r h = h

pub apply_sync_envelope-Tracked :
    (e : SyncEnvelope) (r : StateReducer) → Tracked r → Tracked (apply_sync_envelope e r).1
unfolding apply_sync_envelope
apply_sync_envelope-Tracked e r h = elim (Option-cases e.payload.request) [
  | inl n ↦ rw n (channel_synced-Tracked e.payload.channel r h)
  | inr (q, s) ↦
      rw s (apply_request_update-Tracked q _ (channel_synced-Tracked e.payload.channel r h))
]
