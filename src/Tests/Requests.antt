-- ===== src/Tests/Requests.antt =====
-- Runs of the request handlers.
use nod.Base.{
  ◌↔◌, any, All, Distinct, Evolves, is_blank, conflict, arith, ◌≡◌, refl, String, true, false, ◌==◌,
  none, some, List, [], ◌∷◌, map, Result, ok, err, trim, is_control, is_ascii_alphanumeric,
}
use nod.Store.{Db}
use nod.Model.{DecisionRequest, CreatedDecisionRequest, to_wire, wire_of}
use nod.Validation.{
  validate_request, validate_options, validate_id, validate_notification_text, validate_http_url,
  validate_image_url, reject_control_characters, is_slug, normalize_options,
  implicit_dismiss_option,
}
use nod.Lifecycle.{append_lifecycle_on, owed_callback, origin_on, validate_origin, payload_of}
use nod.Requests.Read.{
  get_request_on, row_to_request, request_from_rows, unsigned_request, digest_of, recipients_of,
  decisions_of, options_of, project_request_for_user,
}
use nod.Requests.Content.{summary_of, normalized_notification, normalized_optional_text}
use nod.Requests.Insert.{
  insert_request, new_row, insert_request_recipients, insert_options, push_rows,
}
use nod.Requests.Create.{
  create_request, request_fingerprint, replay, create_or_join, resolve_request_recipients,
  subscribers, find_pending_request_by_dedupe_key, insert_new, bind_idempotency, join_pending,
}
use nod.Requests.Signature.{
  verified_decision_signature, verify_value_decision_signature, digest_candidates, signing_payload,
  insert_decision_nonce,
}
use nod.Requests.Decide.{
  record_decision, admit, check_payload, check_device, check_recipient, find_option, decision_of,
  write_decision, record_shared_decision, record_user_decision, settle,
}
use nod.Requests.Maintain.{cancel_request, expire_due_requests, announce}
use nod.Proto.Answer.{date_bytes}
use nod.Proto.Answer.Calendar.{date_text, IsDate, dates_follow_the_calendar}
use nod.Proto.Request.{
  approve, pending, resolved, shared, per_user, RequestOption, UserDecision, CreateDecisionRequest,
  kind_str, kind_of_str, status_str, status_of_str, resolution_str, resolution_of_str,
}
use nod.Proto.Request.Words.{stored_words_read_back}
use nod.Validation.Options.{same_option, option_ids_differ}
use nod.Requests.Read.Privacy.{view_hides_other_users}
use nod.Requests.Create.Idempotence.{retried_creation_is_idempotent}
use nod.Requests.Decide.Payload.{IsChoice}
use nod.Requests.Decide.Safety.{IsAdmissible, IsAuthentic, recorded_decision_is_lawful}
use nod.Requests.Decide.Nonces.{nonce_is_used_once}
use nod.Requests.Maintain.{must_expire}
use nod.Requests.Maintain.Expiry.{Announced, Expires, expiry_is_exact}
use nod.Requests.History.{Keeps, journal_of}
use nod.Requests.History.Laws.{IsUnique}
use nod.Requests.History.Numbering.{IsNumbered}
use nod.Requests.History.Calls.{
  RequestCall, creates, cancels, run, settled_requests_are_final, one_pending_request_per_key,
  journal_has_no_gaps,
}
use nod.Tests.Data.{
  env, empty, deploy, by_token, fresh1, fresh2, says_yes, signature1, phone, yes_option, state,
  answer,
}

unfoldable pub handlers : Unit {0}
unfolding create_request request_fingerprint replay create_or_join resolve_request_recipients
    subscribers find_pending_request_by_dedupe_key insert_new insert_request new_row
    insert_request_recipients insert_options push_rows bind_idempotency join_pending
    validate_request validate_options validate_id validate_notification_text validate_http_url
    validate_image_url reject_control_characters is_slug normalize_options implicit_dismiss_option
    append_lifecycle_on owed_callback origin_on validate_origin payload_of get_request_on
    row_to_request request_from_rows unsigned_request digest_of recipients_of decisions_of
    options_of summary_of normalized_notification normalized_optional_text
    verified_decision_signature verify_value_decision_signature digest_candidates signing_payload
    insert_decision_nonce record_decision admit check_payload check_device check_recipient
    find_option decision_of write_decision record_shared_decision record_user_decision settle
    cancel_request expire_due_requests announce trim is_control is_ascii_alphanumeric to_wire
    wire_of
handlers = tt

abbrev pub card : DecisionRequest
card = record {
  answer_field = none;
  id = "r1";
  channel_id = "ops";
  recipients = "ann" ∷ "bob" ∷ [];
  decision_resolution = per_user;
  title = "Deploy?";
  summary = "v2";
  body_markdown = "";
  fields = [];
  links = [];
  image_url = none;
  notification = record { redact = false; title = none; body = none };
  dedupe_key = none;
  expires_at = none;
  status = pending;
  created_at = 0;
  updated_at = 0;
  resolved_at = none;
  decision = none;
  user_decisions = [];
  callback_url = none;
  options = yes_option ∷ [];
  private_recipients = false;
  signing = none;
}

abbrev pub no_creation : CreatedDecisionRequest
no_creation = record { request_id = ""; deduped = false; request = card }

abbrev pub created : Result (CreatedDecisionRequest × Db)
created = create_request env empty 1000 fresh1 deploy by_token

abbrev db1 : Db
db1 = state empty created

-- A creation fills the tables: a request to both subscribers, one push to the phone, one entry.
created_rows :
    (map (λ r. r.id) db1.requests ≡ "r1" ∷ [])
    × (map (λ r. r.user_id) db1.recipients ≡ "ann" ∷ "bob" ∷ [])
    × (map (λ r. r.device_id) db1.pushes ≡ "phone" ∷ [])
    × (map (λ e. e.kind) db1.events ≡ "nod.request.created" ∷ [])
unfolding handlers
created_rows = (refl, refl, refl, refl)

abbrev decided : Result (DecisionRequest × Db)
decided = record_decision env db1 2000 3000 "e2" says_yes

abbrev db2 : Db
db2 = state db1 decided

-- A decision resolves the request; a second one, a cancellation and a late one are refused.
decided_rows :
    (map (λ r. r.status) db2.requests ≡ resolved ∷ [])
    × (map (λ e. e.kind) db2.events ≡ "nod.request.created" ∷ "nod.answer.recorded" ∷ [])
    × (record_decision env db2 2000 3000 "e3" says_yes
        ≡ err (conflict "request is no longer pending"))
    × (cancel_request env db2 4000 "e4" "r1" ≡ err (conflict "request is no longer pending"))
    × (record_decision env db1 60000 60001 "e3" says_yes ≡ err (conflict "request has expired"))
unfolding handlers
decided_rows = (refl, refl, refl, refl, refl)

recorded_decision_is_lawful_example :
    (request : DecisionRequest) × (option : RequestOption) × (get_request_on env db1 "r1"
      ≡ ok request)
    × (find_option request "yes" ≡ some option)
    × IsAdmissible db1 2000 says_yes request
    × IsAuthentic env db1 request option says_yes
    × IsChoice request "yes" option
unfolding handlers
recorded_decision_is_lawful_example =
    recorded_decision_is_lawful env db1 2000 3000 "e2" says_yes {after = answer card decided}
      {last = db2} refl

abbrev second : CreateDecisionRequest
second = record deploy { dedupe_key = none }

abbrev more_calls : List RequestCall
more_calls =
    creates 4000 fresh2 second (record by_token { idempotency_key = none })
    ∷ cancels 5000 "e5" "r1"
    ∷ []

nonce_is_used_once_example : ¬ (
    record_decision env
      (run env more_calls db2)
      6000
      7000
      "e6"
      (record says_yes { request_id = "r2" })
    ≡ ok (card, db2))
unfolding handlers
nonce_is_used_once_example =
    nonce_is_used_once env db1 says_yes (record says_yes { request_id = "r2" }) phone phone
      signature1 signature1 2000 3000 "e2" {after = answer card decided} {last = db2} refl refl refl
      refl refl refl refl refl more_calls 6000 7000 "e6" (card, db2)

settled_requests_are_final_example : Evolves Keeps db2.requests (run env more_calls db2).requests
settled_requests_are_final_example = settled_requests_are_final env more_calls db2

retried_creation_is_idempotent_example :
    (request : DecisionRequest) × (create_request env db1 9000 fresh2 deploy by_token
      ≡ ok (record { request_id = "r1"; deduped = true; request = request }, db1))
unfolding handlers
retried_creation_is_idempotent_example =
    retried_creation_is_idempotent env empty 1000 9000 fresh1 fresh2 deploy by_token "once"
      {p = (answer no_creation created, db1)} refl refl

journal_has_no_gaps_example : IsNumbered (journal_of (run env more_calls db1))
unfolding handlers
journal_has_no_gaps_example = journal_has_no_gaps env more_calls db1 ((refl, tt), (refl, tt))

one_pending_request_per_key_example : IsUnique (journal_of (run env more_calls db1))
unfolding handlers
one_pending_request_per_key_example =
    one_pending_request_per_key env more_calls db1 ((refl, tt), (refl, tt))

abbrev lapsed : Result (List DecisionRequest × Db)
lapsed = expire_due_requests env db1 70000 (λ n. "e7")

abbrev db3 : Db
db3 = state db1 lapsed

expiry_is_exact_example :
    (map (λ q. q.id) (answer [] lapsed) ≡ "r1" ∷ [])
    × Announced ("r1" ∷ []) db1.events db3.events
    × Evolves (Expires 70000) db1.requests db3.requests
    × (any (must_expire 70000) db3.requests ≡ false)
unfolding handlers
expiry_is_exact_example =
    expiry_is_exact env db1 70000 (λ n. "e7") {p = (answer [] lapsed, db3)} refl

abbrev says : String → UserDecision
says u = record {
  user_id = u;
  decision = record {
    answer_value = none;
    request_id = "r1";
    option_id = "yes";
    option_kind = approve;
    option_label = "Yes";
    text = none;
    actor_user_id = some u;
    actor_device_id = none;
    signature = none;
    resolved_at = 10;
  };
}

abbrev open_card : DecisionRequest
open_card = record card {
  status = pending;
  resolved_at = none;
  decision = none;
  user_decisions = [];
}

abbrev closed_card : DecisionRequest
closed_card = record card {
  status = resolved;
  resolved_at = some 10;
  decision = some (says "bob").decision;
  user_decisions = says "bob" ∷ [];
}

view_hides_other_users_example :
    All (λ v. (v == "ann") ≡ true) (project_request_for_user card "ann").recipients
    × All (λ d. (d.user_id == "ann") ≡ true) (project_request_for_user card "ann").user_decisions
    × (project_request_for_user open_card "ann" ≡ project_request_for_user closed_card "ann")
    × ((project_request_for_user closed_card "ann").decision ≡ none)
view_hides_other_users_example =
    view_hides_other_users card "ann" (some 10) (some (says "bob").decision) [] (says "bob" ∷ [])
      refl refl

abbrev two_options : List RequestOption
two_options = yes_option ∷ record yes_option { id = "no" } ∷ []

option_ids_differ_example :
    Distinct same_option two_options
    × All (λ o. validate_id o.id "option id" ≡ ok tt) two_options
    × All (λ o. is_blank (trim o.label) ≡ false) two_options
unfolding handlers
option_ids_differ_example = option_ids_differ two_options refl

dates_follow_the_calendar_example : (date_bytes (date_text 2024 2 29) ≡ true) ↔ IsDate 2024 2 29
dates_follow_the_calendar_example =
    dates_follow_the_calendar 2024 2 29 (omega arith) (omega arith) (omega arith)

stored_words_read_back_example :
    (kind_of_str (kind_str approve) ≡ approve)
    × (status_of_str (status_str resolved) ≡ resolved)
    × (resolution_of_str (resolution_str shared) ≡ shared)
stored_words_read_back_example = stored_words_read_back approve resolved shared
