-- ===== src/Tests/Delivery.antt =====
-- Runs of the three queues.
use nod.Base.{
  any, ◌&&◌, ◌==◌, true, ok, ℕ, ◌+◌, ◌≤◌, ◌≡◌, refl, inl, inr, String, false, none, some, List, [],
  ◌∷◌, Evolves, err, internal, arith, map,
}
use nod.Proto.Request.{resolved, shared}
use nod.Store.{PushRow, CallbackRow, CallbackPayload, queued, EventRow}
use nod.Delivery.Push.{
  PushJob, claim_pushes, begin_attempt, update_push, clear_invalid_push_token, recover_pushes,
  due_pushes,
}
use nod.Delivery.Push.Attempts
use nod.Delivery.Push.Fence.{reclaimed_push_is_fenced}
use nod.Delivery.Callback
use nod.Delivery.Callback.Order
use nod.Delivery.Callback.Completion.{claimed_callback_completes}
use nod.Delivery.Publish
use nod.Delivery.Publish.Once
use nod.Delivery.Backoff.{retry_delays_are_bounded}

abbrev push : PushRow
push = record {
  request_id = "r1";
  device_id = "phone";
  status = "queued";
  attempts = 0;
  lease_until = none;
  claim_generation = 0;
  updated_at = 0;
  error = none;
}

abbrev job : ℕ → ℕ → PushJob
job attempts generation = record {
  request_id = "r1";
  device_id = "phone";
  attempts = attempts;
  claim_generation = generation;
}

abbrev worker : List Attempts.PushCall
worker =
    Attempts.claims 1000 5
    ∷ Attempts.begins 2000 (job 0 1)
    ∷ Attempts.reports 3000 (job 1 1) "queued" none
    ∷ Attempts.claims 4000 5
    ∷ Attempts.begins 5000 (job 1 2)
    ∷ []

-- Two of the calls send.
sends_test : Attempts.sends "r1" "phone" worker (push ∷ []) ≡ 2
unfolding Attempts.sends Attempts.call Attempts.sends_of begin_attempt update_push claim_pushes
    due_pushes recover_pushes
sends_test = refl

sends_are_counted_example :
    Attempts.attempts_of "r1" "phone" (Attempts.run worker (push ∷ []))
    ≡ Attempts.sends "r1" "phone" worker (push ∷ []) + Attempts.attempts_of "r1" "phone" (push ∷ [])
sends_are_counted_example = Attempts.sends_are_counted "r1" "phone" worker (push ∷ [])

sends_at_most_three_example : Attempts.sends "r1" "phone" worker (push ∷ []) ≤ 3
sends_at_most_three_example =
    Attempts.sends_at_most_three "r1" "phone" worker (push ∷ []) (omega arith, tt) (omega arith)

abbrev lapsed_push : PushRow
lapsed_push = record push { claim_generation = 1; attempts = 1 }

reclaimed_push_is_fenced_example :
    let rows = Attempts.run worker (claim_pushes 200000 5 (lapsed_push ∷ [])).1 in
    (begin_attempt 201000 (job 1 1) rows ≡ err (internal "database error"))
    × (update_push 201000 (job 1 1) "sent" none rows ≡ err (internal "database error"))
    × (clear_invalid_push_token 201000 (job 1 1) (some "token") rows [] ≡ (false, []))
unfolding due_pushes
reclaimed_push_is_fenced_example =
    reclaimed_push_is_fenced (job 1 1) 200000 5 (lapsed_push ∷ []) (inr (omega arith), tt) refl
      worker 201000 "sent" none (some "token") []

abbrev payload : CallbackPayload
payload = record {
  request_id = "r1";
  channel_id = "ops";
  status = resolved;
  decision = none;
  decisions = [];
  decision_resolution = shared;
}

abbrev callback : String → ℕ → CallbackRow
callback id revision = record {
  delivery_id = id;
  event_id = id;
  request_id = "r1";
  request_revision = revision;
  url = "https://issuer.example";
  payload = payload;
  state = queued;
  attempts = 0;
  next_attempt_at = 0;
  lease_token = none;
  lease_until = none;
  delivered_at = none;
  last_status = none;
  last_error = none;
  updated_at = 0;
}

abbrev deliveries : List Order.CallbackCall
deliveries = Order.claims 1000 "t1" ∷ Order.adds (callback "c3" 3) ∷ Order.claims 2000 "t2" ∷ []

-- While the older callback is out, no younger one of its request is claimed.
younger_waits : map (λ r. r.attempts) (Order.run deliveries (callback "c2" 2 ∷ [])) ≡ 1 ∷ 0 ∷ []
unfolding Order.run Order.call Callback.claim_due Callback.next_due
younger_waits = refl

older_callbacks_come_first_example : Order.InOrder (Order.run deliveries (callback "c2" 2 ∷ []))
unfolding Order.call Callback.claim_due Callback.next_due
older_callbacks_come_first_example =
    Order.older_callbacks_come_first deliveries (callback "c2" 2 ∷ [])
      (tt, ((refl, refl, refl), (tt, tt))) ((refl, tt), (inl refl, tt))

abbrev other_claim : Callback.CallbackClaim
other_claim = Callback.claim_of "t3" (callback "c3" 3)

-- Another worker claims, and reports a claim of its own; a younger callback is added.
abbrev meanwhile : List Order.CallbackCall
meanwhile =
    Order.claims 2000 "t2"
    ∷ Order.adds (callback "c3" 3)
    ∷ Order.claims 30000 "t3"
    ∷ Order.retries 30500 other_claim none false
    ∷ []

claimed_callback_completes_example :
    (claim : Callback.CallbackClaim) × (rows' : List CallbackRow) × ((Callback.claim_due 1000 "t1"
        (callback "c2" 2 ∷ [])).0
      ≡ some claim)
    × (claim.delivery_id ≡ "c2")
    × (Callback.complete 30999 claim 204
          (Order.run meanwhile (Callback.claim_due 1000 "t1" (callback "c2" 2 ∷ [])).1)
        ≡ ok (true, rows'))
    × (any (λ r. (r.delivery_id == "c2") && Callback.is_delivered r.state) rows' ≡ true)
unfolding Callback.next_due Callback.claim_due Order.call
claimed_callback_completes_example =
    claimed_callback_completes 1000 30999 204 "t1" (callback "c2" 2 ∷ []) (callback "c2" 2)
      meanwhile (refl, tt) refl (omega arith) (omega arith) (omega arith)
      ((omega arith, refl), ((refl, refl, refl), ((omega arith, refl), (refl, tt))))

abbrev entry : EventRow
entry = record {
  seq = 1;
  event_id = "e1";
  request_id = "r1";
  channel_id = "ops";
  revision = 1;
  kind = "nod.request.created";
  occurred_at = 0;
  aggregate_status = resolved;
  creator = none;
  origin = none;
  decision = none;
  published_at = none;
  stream_seq = none;
  attempts = 0;
  next_attempt_at = 0;
  lease_token = none;
  lease_until = none;
  last_error = none;
}

abbrev publisher : List Once.PublishCall
publisher =
    Once.claims 1000 "t1"
    ∷ Once.publishes 2000
        (record { event_id = "e1"; kind = "nod.request.created"; lease_token = "t1"; attempts = 1 })
        7
    ∷ []

entry_is_published : map (λ e. e.stream_seq) (Once.run publisher (entry ∷ [])) ≡ some 7 ∷ []
unfolding Once.run Once.call Publish.claim_due Publish.published
entry_is_published = refl

published_entries_are_final_example :
    Evolves Once.Persists (entry ∷ []) (Once.run publisher (entry ∷ []))
published_entries_are_final_example = Once.published_entries_are_final publisher (entry ∷ [])

retry_delays_are_bounded_example :
    (1 ≤ Callback.retry_delay false 2)
    × (Callback.retry_delay false 2 ≤ Callback.retry_delay false 20)
    × (Callback.retry_delay false 20 ≤ 3600)
    × (1 ≤ Publish.retry_delay 2)
    × (Publish.retry_delay 2 ≤ Publish.retry_delay 20)
    × (Publish.retry_delay 20 ≤ 300)
retry_delays_are_bounded_example = retry_delays_are_bounded false 2 20 (omega arith)
