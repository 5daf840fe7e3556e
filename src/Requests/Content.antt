-- ===== src/Requests/Content.antt =====
-- The contents of a request in server/nod-server/crates/nod-server/src/db/requests/create.rs: how they
-- are normalised, and when a retried request has the contents of the pending one.
use nod.Base.{
  ℕ, String, Bool, ◌&&◌, Option, none, some, List, ◌==◌, is_blank, if◌then◌else◌, holds, trim,
  take_chars, first_line, String-discrete, ℕ_discrete,
}
use nod.Proto.Answer.{AnswerField, AnswerField-discrete}
use nod.Proto.Request.{
  CardField, CardField-discrete, CardLink, CardLink-discrete, RequestNotification,
  RequestNotification-discrete, RequestOption, RequestOption-discrete, DecisionResolution-discrete,
  shared, CreateDecisionRequest,
}
use nod.Env.{Origin}
use nod.Store.{Db}
use nod.Model.{DecisionRequest}
use nod.Validation.{normalize_options}
use nod.Lifecycle.{origin_on}

pub record CreateRequestMetadata : Type 0 where
  pub origin : Option Origin
  pub created_by_issuer_token_id : Option String
  pub idempotency_key : Option String

abbrev pub or_else {ℓ} : {A : Type ℓ} → Option A → A → A
or_else none d = d
or_else (some a) d = a

abbrev trimmed : String → Option String
trimmed s = if is_blank (trim s) then none else some (trim s)

unfoldable pub normalized_optional_text : Option String → Option String
unfolding trim
normalized_optional_text none = none
normalized_optional_text (some s) = trimmed s

unfoldable pub normalized_notification : RequestNotification → RequestNotification
unfolding normalized_optional_text
normalized_notification n = record n {
  title = normalized_optional_text n.title;
  body = normalized_optional_text n.body;
}

-- The summary, or else the beginning of the body's first line.
unfoldable pub summary_of : CreateDecisionRequest → String
unfolding trim take_chars first_line
summary_of req =
    if is_blank (trim req.summary)
    then take_chars 160 (first_line req.body_markdown)
    else req.summary

maybe_field_discrete : Discrete (Option AnswerField)
maybe_field_discrete = hlevel AnswerField-discrete

maybe_text_discrete : Discrete (Option String)
maybe_text_discrete = hlevel String-discrete

maybe_time_discrete : Discrete (Option ℕ)
maybe_time_discrete = hlevel ℕ_discrete

maybe_origin_discrete : Discrete (Option Origin)
maybe_origin_discrete = hlevel String-discrete

fields_discrete : Discrete (List CardField)
fields_discrete = hlevel CardField-discrete

links_discrete : Discrete (List CardLink)
links_discrete = hlevel CardLink-discrete

options_discrete : Discrete (List RequestOption)
options_discrete = hlevel RequestOption-discrete

texts_discrete : Discrete (List String)
texts_discrete = hlevel String-discrete

unfoldable pub same_origin : Option Origin → Option Origin → Bool
unfolding maybe_origin_discrete
same_origin a b = holds (maybe_origin_discrete a b)

-- The long condition of the dedupe branch, the other way round.
unfoldable pub same_content :
    Db → CreateDecisionRequest → CreateRequestMetadata → List String → DecisionRequest → Bool
unfolding normalized_notification summary_of trim normalize_options same_origin origin_on
    maybe_field_discrete fields_discrete links_discrete maybe_text_discrete maybe_time_discrete
    options_discrete texts_discrete
same_content db req meta recipients request =
    holds (maybe_field_discrete req.answer_field request.answer_field)
    && (trim req.title == request.title)
    && (trim (summary_of req) == request.summary)
    && (trim req.body_markdown == request.body_markdown)
    && holds (fields_discrete req.fields request.fields)
    && holds (links_discrete req.links request.links)
    && holds (maybe_text_discrete req.image_url request.image_url)
    && holds (
        RequestNotification-discrete (normalized_notification req.notification)
          request.notification)
    && holds (maybe_time_discrete req.expires_at request.expires_at)
    && holds (maybe_text_discrete req.callback_url request.callback_url)
    && holds (options_discrete (normalize_options req.options) request.options)
    && holds (texts_discrete recipients request.recipients)
    && holds (
        DecisionResolution-discrete (or_else req.decision_resolution shared)
          request.decision_resolution)
    && same_origin (origin_on db request.id) meta.origin
