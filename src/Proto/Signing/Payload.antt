-- ===== src/Proto/Signing/Payload.antt =====
-- What the signed text of nod-proto/src/signing.rs binds.
use Prim.Native.String.{◌++◌}
use text.Mathlib.TextLemmas.{append_cancel_left}
use nod.Base.{
  ℕ, ◌≡◌, refl, ap, sym, ◌∙◌, String, List, OneLine, OneLine-append, join_inj, last_lines_inj,
}
use nod.Proto.Request.{
  OptionKind, approve, approve_with_text, reject, reject_with_text, dismiss, open_link, custom,
  DecisionSigningInput, kind_str, kind_of_str,
}
use nod.Proto.Request.Words.{kind_of_str-kind_str}
use nod.Proto.Signing.{Codec, sha256_hex, decision_signing_payload, or_empty}

-- The parts that have a line of their own in the text hold no line feed. The nonce may.
pub record HasLines (input : DecisionSigningInput) : Type 0 where
  pub request_id : OneLine input.request_id
  pub request_digest : OneLine input.request_digest
  pub option_id : OneLine input.option_id
  pub user_id : OneLine input.user_id
  pub device_id : OneLine input.device_id
  pub key_id : OneLine input.key_id
  pub signed_at : OneLine input.signed_at

kind_str-OneLine : (k : OptionKind) → OneLine (kind_str k)
unfolding kind_str
kind_str-OneLine approve = refl
kind_str-OneLine approve_with_text = refl
kind_str-OneLine reject = refl
kind_str-OneLine reject_with_text = refl
kind_str-OneLine dismiss = refl
kind_str-OneLine open_link = refl
kind_str-OneLine custom = refl

-- A labelled line gives back what it is labelled with.
labelled_inj :
    (label s t x y : String)
    → OneLine label
    → OneLine s
    → OneLine t
    → Path String ((label ++ s) ++ ("\n" ++ x)) ((label ++ t) ++ ("\n" ++ y))
    → (Path String s t) × (Path String x y)
labelled_inj label s t x y l p q e =
    let r =
      join_inj (label ++ s) (label ++ t) x y (OneLine-append label s l p)
        (OneLine-append label t l q) e in
    (append_cancel_left label s t r.0, r.1)

-- One text to sign stands for one decision: if the parts but the nonce hold no line feed, two decisions
-- with the same text agree in request, digest, option, kind, user, device, key, nonce and time, and
-- the hashes of their notes are equal. (Hashes are written without line feeds, as hex digits.)
pub payload_binds_decision :
    (codec : Codec) (a b : DecisionSigningInput)
    → ((bs : List ℕ) → OneLine (codec.hex bs))
    → HasLines a
    → HasLines b
    → decision_signing_payload codec a ≡ decision_signing_payload codec b
    → (a.request_id ≡ b.request_id)
      × (a.request_digest ≡ b.request_digest)
      × (a.option_id ≡ b.option_id)
      × (a.option_kind ≡ b.option_kind)
      × (a.user_id ≡ b.user_id)
      × (a.device_id ≡ b.device_id)
      × (a.key_id ≡ b.key_id)
      × (a.nonce ≡ b.nonce)
      × (a.signed_at ≡ b.signed_at)
      × (sha256_hex codec (or_empty a.text) ≡ sha256_hex codec (or_empty b.text))
unfolding decision_signing_payload sha256_hex
payload_binds_decision codec a b hex p q e =
    let l0 = join_inj "nod-decision-v1" "nod-decision-v1" _ _ refl refl e in
    let l1 =
      labelled_inj "request_id:" a.request_id b.request_id _ _ refl p.request_id q.request_id
        l0.1 in
    let l2 =
      labelled_inj "request_digest:" a.request_digest b.request_digest _ _ refl p.request_digest
        q.request_digest l1.1 in
    let l3 =
      labelled_inj "option_id:" a.option_id b.option_id _ _ refl p.option_id q.option_id l2.1 in
    let l4 =
      labelled_inj "option_kind:" (kind_str a.option_kind) (kind_str b.option_kind) _ _ refl
        (kind_str-OneLine a.option_kind) (kind_str-OneLine b.option_kind) l3.1 in
    let l5 = labelled_inj "user_id:" a.user_id b.user_id _ _ refl p.user_id q.user_id l4.1 in
    let l6 =
      labelled_inj "device_id:" a.device_id b.device_id _ _ refl p.device_id q.device_id l5.1 in
    let l7 = labelled_inj "key_id:" a.key_id b.key_id _ _ refl p.key_id q.key_id l6.1 in
    let rest =
      last_lines_inj ("nonce:" ++ a.nonce) ("nonce:" ++ b.nonce) ("signed_at:" ++ a.signed_at)
        ("signed_at:" ++ b.signed_at) _ _ (OneLine-append "signed_at:" a.signed_at refl p.signed_at)
        (OneLine-append "signed_at:" b.signed_at refl q.signed_at)
        (OneLine-append "text_sha256:" (sha256_hex codec (or_empty a.text)) refl (hex _))
        (OneLine-append "text_sha256:" (sha256_hex codec (or_empty b.text)) refl (hex _)) l7.1 in
    (
      l1.0,
      l2.0,
      l3.0,
      sym (kind_of_str-kind_str a.option_kind)
          ∙ ap kind_of_str l4.0
          ∙ kind_of_str-kind_str b.option_kind,
      l5.0,
      l6.0,
      l7.0,
      append_cancel_left "nonce:" a.nonce b.nonce rest.0,
      append_cancel_left "signed_at:" a.signed_at b.signed_at rest.1,
      append_cancel_left "text_sha256:" _ _ rest.2,
    )
