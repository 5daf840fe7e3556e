-- ===== src/Validation.antt =====
-- server/nod-server/crates/nod-server/src/db/validation.rs, and `validate_options` of
-- db/requests/create.rs.
pub mod Options
use nod.Base.{
  ℕ, String, Bool, true, false, not, ◌&&◌, ◌||◌, Option, none, some, List, [], ◌∷◌, map, ◌==◌, eqb,
  ltb, any, is_some, is_empty, is_blank, if◌then◌else◌, trim, char_count, byte_len, every_char,
  some_char, is_control, is_ascii_alphanumeric, Result, ok, err, bad_request, refuse_if, ◌>>◌,
}
use Prim.Native.String.{◌++◌}
use nod.Proto.Answer.{AnswerField, Check, valid, invalid, validate}
use nod.Proto.Request.{RequestOption, dismiss, CreateDecisionRequest, is_open, takes_text}
use nod.Env.{Env, Url}
use nod.Model.{DecisionRequest}

abbrev pub check_answer : Check → Result (Unit {0})
check_answer valid = ok tt
check_answer (invalid e) = err (bad_request e)

unfoldable pub is_slug : ℕ → Bool
unfolding is_ascii_alphanumeric
is_slug c = is_ascii_alphanumeric c || eqb c b'-' || eqb c b'_' || eqb c b'.'

unfoldable pub validate_id : String → String → Result (Unit {0})
unfolding is_slug
validate_id text label =
    refuse_if (is_blank text || ltb 80 (byte_len text) || not (every_char is_slug text))
      (bad_request (label ++ " must be 1-80 ASCII slug characters"))

unfoldable pub reject_control_characters : String → String → Result (Unit {0})
unfolding is_control
reject_control_characters text label =
    refuse_if (some_char is_control text)
      (bad_request (label ++ " must not contain control characters"))

abbrev is_web : Url → Bool
is_web url = (url.scheme == "http" || url.scheme == "https") && is_some url.host

web_url : Option Url → String → Result (Unit {0})
web_url none label = err (bad_request (label ++ " must be an absolute URL"))
web_url (some url) label =
    refuse_if (not (is_web url)) (bad_request (label ++ " must use http or https"))

unfoldable pub validate_http_url : Env → String → String → Result (Unit {0})
unfolding web_url
validate_http_url env text label = web_url (env.parse_url text) label

unfoldable pub validate_notification_text : Option String → String → ℕ → Result (Unit {0})
unfolding trim
validate_notification_text none label most = ok tt
validate_notification_text (some text) label most =
    refuse_if (ltb most (char_count (trim text))) (bad_request (label ++ " is too long"))

-- `if let Some(value) = … { check(value)?; }`.
abbrev pub when_some {ℓ} : {A : Type ℓ} → Option A → (A → Result (Unit {0})) → Result (Unit {0})
when_some none check = ok tt
when_some (some a) check = check a

-- `for item in items { check(item)?; }`.
abbrev pub for_each {ℓ} : {A : Type ℓ} → List A → (A → Result (Unit {0})) → Result (Unit {0})
for_each [] check = ok tt
for_each (a ∷ as') check = let rest = for_each as' check in do check a; rest

-- An outcome that one tap chooses.
abbrev pub is_ordinary : RequestOption → Bool
is_ordinary o =
    not o.destructive && not o.requires_text && not (takes_text o.kind || is_open o.kind)

unfoldable pub validate_answer_field : Env → List RequestOption → AnswerField → Result (Unit {0})
unfolding validate
validate_answer_field env options field = do
  check_answer (validate env.json_len field)
  refuse_if
      (any (λ o. (o.id == "__nod_value_open") || is_open o.kind) options
        || not (any is_ordinary options))
      (bad_request "value requests require an ordinary one-tap outcome and no Open outcome")

unfoldable pub validate_image_url : Env → String → Result (Unit {0})
unfolding reject_control_characters validate_http_url
validate_image_url env text = do
  reject_control_characters text "image_url"
  validate_http_url env text "image_url"

unfoldable pub validate_request : Env → CreateDecisionRequest → Result (Unit {0})
unfolding validate_answer_field validate_notification_text validate_http_url validate_image_url
    reject_control_characters validate_id trim
validate_request env req = do
  when_some req.answer_field (validate_answer_field env req.options)
  refuse_if (is_blank (trim req.title)) (bad_request "request title is required")
  refuse_if (ltb 200 (char_count req.title)) (bad_request "request title is too long")
  validate_notification_text req.notification.title "notification title" 200
  validate_notification_text req.notification.body "notification body" 500
  when_some req.callback_url (λ url. validate_http_url env url "callback_url")
  when_some req.image_url (validate_image_url env)
  when_some req.dedupe_key (λ key. reject_control_characters key "dedupe_key")
  for_each req.links (λ link. validate_http_url env link.url "links[].url")
  validate_id req.channel_id "channel id"

-- `seen` is the set of the ids so far.
validate_options_from : List String → List RequestOption → Result (Unit {0})
unfolding validate_id trim
validate_options_from seen [] = ok tt
validate_options_from seen (option ∷ options) =
    let rest = validate_options_from (option.id ∷ seen) options in
    do
      validate_id option.id "option id"
      refuse_if (is_blank (trim option.label)) (bad_request "option label is required")
      refuse_if (any (λ id. id == option.id) seen) (bad_request "option IDs must be unique")
      rest

unfoldable pub validate_options : List RequestOption → Result (Unit {0})
unfolding validate_options_from
validate_options options = validate_options_from [] options

abbrev normalize_option : RequestOption → RequestOption
normalize_option o = if takes_text o.kind then record o { requires_text = true } else o

unfoldable pub normalize_options : List RequestOption → List RequestOption
normalize_options options = map normalize_option options

abbrev pub dismiss_option : RequestOption
dismiss_option = record {
  id = "dismiss";
  label = "Dismiss";
  kind = dismiss;
  style = "default";
  requires_text = false;
  text_placeholder = none;
  destructive = false;
  foreground = false;
}

unfoldable pub implicit_dismiss_option : DecisionRequest → String → Option RequestOption
implicit_dismiss_option request option_id =
    if is_some request.answer_field
      || not (option_id == "dismiss")
      || not (is_empty request.options)
    then none
    else some dismiss_option
