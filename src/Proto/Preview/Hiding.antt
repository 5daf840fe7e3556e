-- ===== src/Proto/Preview/Hiding.antt =====
-- What a notification may show.
use Prim.Native.String.{String}
use nod.Base.{ℕ, zero, suc, ◌≤◌, ◌≡◌, refl, true, not, Option, List, take_chars, char_count, arith}
use nod.Proto.Request.{Request, CardField, CardLink, RequestOption}
use nod.Proto.Preview.{notification_preview, body_without_hint}

char_count-take_chars-le : (n : ℕ) (s : String) → char_count (take_chars n s) ≤ n
unfolding take_chars
char_count-take_chars-le zero s = omega arith
char_count-take_chars-le (suc n) String.[] = omega arith
char_count-take_chars-le (suc n) (String.◌∷◌ c s) = omega (arith, char_count-take_chars-le n s)

-- A notification shows at most 200 characters of title and 500 of body. If the issuer asked for
-- redaction, it shows no image, and it is the same whatever the title, the summary, the text, the
-- fields, the links, the image and the options of the request are: only the hints count.
pub redaction_hides_content :
    (r : Request) (title summary body_markdown : String) (fields : List CardField)
    (links : List CardLink) (image_url : Option String) (options : List RequestOption)
    → (char_count (notification_preview r).title ≤ 200)
      × (char_count (notification_preview r).body ≤ 500)
      × ((notification_preview r).allow_image ≡ not r.notification.redact)
      × (notification_preview (record r { notification = record r.notification { redact = true } })
          ≡ notification_preview (record r {
            title = title;
            summary = summary;
            body_markdown = body_markdown;
            fields = fields;
            links = links;
            image_url = image_url;
            options = options;
            notification = record r.notification { redact = true };
          }))
unfolding notification_preview body_without_hint
redaction_hides_content r title summary body_markdown fields links image_url options =
    (char_count-take_chars-le 200 _, char_count-take_chars-le 500 _, refl, refl)
