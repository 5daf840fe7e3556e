-- ===== src/Proto/Preview.antt =====
-- nod-proto/src/preview.rs: what a notification shows of a request; and the card that a client without
-- answer fields gets, in nod-proto/src/request.rs.
pub mod Hiding
use nod.Base.{
  ℕ, String, Bool, true, false, not, Option, none, some, List, [], ◌∷◌, is_none, is_blank, trim,
  take_chars, if◌then◌else◌,
}
use nod.Proto.Request.{Request, RequestNotification, custom}

abbrev pub preview_title_limit : ℕ
preview_title_limit = 200

abbrev pub preview_body_limit : ℕ
preview_body_limit = 500

pub record NotificationPreview : Type 0 where
  pub title : String
  pub body : String
  pub allow_image : Bool

-- `as_deref().filter(|value| !value.trim().is_empty())`, and `unwrap_or`.
unfoldable pub filled_or : Option String → String → String
unfolding trim
filled_or none other = other
filled_or (some value) other = if is_blank (trim value) then other else value

unfoldable pub body_without_hint : Request → String
unfolding trim
body_without_hint request =
    if request.notification.redact
    then "Open Nod to review this request."
    else if not (is_blank (trim request.summary))
    then request.summary
    else if not (is_blank (trim request.body_markdown))
    then request.body_markdown
    else "Open Nod to review this request."

unfoldable pub notification_preview : Request → NotificationPreview
unfolding filled_or body_without_hint take_chars trim
notification_preview request =
    let hints = request.notification in
    record {
      title =
          take_chars preview_title_limit
            (trim (filled_or hints.title (if hints.redact then "Nod" else request.title)));
      body =
          take_chars preview_body_limit (trim (filled_or hints.body (body_without_hint request)));
      allow_image = not hints.redact;
    }

unfoldable pub legacy_value_projection : Request → Request
legacy_value_projection request = if is_none request.answer_field then request else record request {
  answer_field = none;
  summary = "Open in an updated Nod app to answer this request.";
  body_markdown = "Open in an updated Nod app to answer this request.";
  fields = [];
  links = [];
  image_url = none;
  notification = record { redact = false; title = none; body = none };
  decision = none;
  decisions = [];
  callback_url = none;
  request_digest = none;
  options =
      record {
        id = "__nod_value_open";
        label = "Open in app";
        kind = custom;
        style = "default";
        requires_text = false;
        text_placeholder = none;
        destructive = false;
        foreground = true;
      }
      ∷ [];
}
