-- ===== src/Requests/Receipt/Stamped.antt =====
-- What the offline check reads of a request that the server read: its digests and its options.
use nod.Base.{
  ◌≡◌, refl, subst, map, ap, sym, ◌∙◌, inl, inr, String, Bool, true, false, not, ◌&&◌, ◌||◌, List,
  [], ◌∷◌, Option, none, some, find, any, find_sound, Bool-cases, Option-cases, arith, eq_iff, ◌==◌,
  is_none, is_some, is_empty, if◌then◌else◌, Result, ok, err, map_err, internal, not_found, bind_ok,
  ok_or,
}
use nod.Base.Tried.{done, done_or, done_then}
use nod.Proto.Request.{Request, RequestOption, RequestSigningContext}
use nod.Proto.Signing.{Codec}
use nod.Proto.Receipt.{
  DigestEncoder, match_request_digest, resolve_option, known_context, is_known_version,
  request_digest_mismatch, receipt_candidates,
}
use nod.Proto.Receipt.Complete.{find_digest}
use nod.Env.{Env}
use nod.Store.{Db, RequestRow}
use nod.Model.{DecisionRequest, wire_of, to_wire}
use nod.Validation.{implicit_dismiss_option, dismiss_option}
use nod.Requests.Read.{
  get_request_on, row_to_request, request_from_rows, unsigned_request, digest_of, recipients_of,
  decisions_of, options_of,
}
use nod.Requests.Decide.{find_option}

-- What a request that was read carries to be signed.
pub record IsStamped (request : DecisionRequest) : Type 0 where
  pub full : request.private_recipients ≡ false
  pub context : RequestSigningContext
  pub signing : request.signing ≡ some context
  pub known : is_known_version context.version ≡ true

digest_of-known :
    (env : Env) (request : DecisionRequest) (commitment : String)
    → is_known_version (digest_of env request commitment).0 ≡ true
unfolding digest_of
digest_of-known env request commitment = elim (Option-cases request.answer_field) [
  | inl n ↦ rw n refl
  | inr (f, s) ↦ rw s refl
]

abbrev IsStampedIn : Result DecisionRequest → Type 0
IsStampedIn (ok request) = IsStamped request
IsStampedIn (err e) = Unit

row_to_request-IsStamped :
    (env : Env) (db : Db) (row : RequestRow) {request : DecisionRequest}
    → row_to_request env db row ≡ ok request
    → IsStamped request
unfolding row_to_request request_from_rows unsigned_request
row_to_request-IsStamped env db row h =
    bind_ok
      (map_err internal (env.recipients_commitment (recipients_of db row.id) row.recipient_salt)) _
      h
      λ commitment c h1.
        let unsigned =
          unsigned_request row (recipients_of db row.id) (decisions_of db row.id)
            (options_of db row.id) in
        bind_ok (map_err internal (digest_of env unsigned commitment).1) _ h1 λ digest d h2.
          subst IsStampedIn h2 (record {
            full = refl;
            context = record {
              version = (digest_of env unsigned commitment).0;
              recipients_commitment = commitment;
              request_digest = digest;
            };
            signing = refl;
            known = digest_of-known env unsigned commitment;
          })

pub get_request_on-IsStamped :
    (env : Env) (db : Db) (id : String) {request : DecisionRequest}
    → get_request_on env db id ≡ ok request
    → IsStamped request
unfolding get_request_on
get_request_on-IsStamped env db id h =
    bind_ok (ok_or (find (λ r. r.id == id) db.requests) not_found) _ h
      λ row found h1. row_to_request-IsStamped env db row h1

pub to_wire-signing : (env : Env) (r : DecisionRequest) → (to_wire env r).signing ≡ r.signing
unfolding to_wire
to_wire-signing env r = elim (Bool-cases (not r.private_recipients && is_none r.answer_field)) [
  | inl e ↦ rw e refl
  | inr e ↦ rw e refl
]

pub to_wire-options :
    (env : Env) (r : DecisionRequest)
    → ((to_wire env r).options ≡ r.options)
      × ((to_wire env r).answer_field ≡ r.answer_field)
      × ((to_wire env r).id ≡ r.id)
      × ((to_wire env r).request_id ≡ r.id)
unfolding to_wire wire_of
to_wire-options env r = elim (Bool-cases (not r.private_recipients && is_none r.answer_field)) [
  | inl e ↦ rw e (refl, refl, refl, refl)
  | inr e ↦ rw e (refl, refl, refl, refl)
]

pub match_request_digest_lem :
    (codec : Codec) (wire : Request) (context : RequestSigningContext) (d : String)
    (rs : List (String × DigestEncoder))
    → wire.signing ≡ some context
    → is_known_version context.version ≡ true
    → receipt_candidates codec wire ≡ done rs
    → any (λ c. c.0 == d) rs ≡ true
    → (e : DigestEncoder) × (match_request_digest codec wire d ≡ done (d, e))
unfolding match_request_digest
match_request_digest_lem codec wire context d rs s known listed m =
    let hit = find_digest d rs m in
    (
      hit.0,
      done_then (known_context wire.signing) _ (rw (s, known) refl) (
          done_then (receipt_candidates codec wire) _ listed
            (ap (λ o. done_or o (request_digest_mismatch (map (λ c. c.0) rs) d)) hit.1)),
    )

resolve_found :
    (wire : Request) (id : String) (o : RequestOption)
    → find (λ x. x.id == id) wire.options ≡ some o
    → resolve_option wire id ≡ done o
unfolding resolve_option
resolve_found wire id o f = rw (resolve_option, f) refl

find_empty :
    (id : String) (os : List RequestOption) → is_empty os ≡ true → find (λ x. x.id == id) os ≡ none
find_empty id [] e = refl
find_empty id (o ∷ os) e = absurd (cc e)

resolve_implied :
    (wire : Request)
    → is_empty wire.options ≡ true
    → is_some wire.answer_field ≡ false
    → resolve_option wire "dismiss" ≡ done dismiss_option
unfolding resolve_option
resolve_implied wire e a = rw (resolve_option, find_empty "dismiss" wire.options e, e, a) refl

-- The checker resolves the option that the server chose.
pub resolve_option_lem :
    (env : Env) (request : DecisionRequest) (option_id : String) {option : RequestOption}
    → find_option request option_id ≡ some option
    → resolve_option (to_wire env request) option.id ≡ done option
unfolding find_option resolve_option implicit_dismiss_option
resolve_option_lem env request option_id {option} h =
    elim (Option-cases (find (λ o. o.id == option_id) request.options)) [
      | inl n ↦
          implied
            (is_some request.answer_field
              || not (option_id == "dismiss")
              || not (is_empty request.options))
            refl (rw n at h)
      | inr (o, f) ↦
          let same : o ≡ option = cc (rw f at h) in
          let id : option.id ≡ option_id =
            ap (λ x. x.id) (sym same)
            ∙ (eq_iff o.id option_id).0 (find_sound (λ x. x.id == option_id) request.options f) in
          resolve_found (to_wire env request) option.id option (
            subst (λ os. find (λ x. x.id == option.id) os ≡ some option)
              (sym (to_wire-options env request).0)
              (subst (λ i. find (λ x. x.id == i) request.options ≡ some option) (sym id)
                (f ∙ ap some same)))
    ]
  where
    implied :
        (b : Bool)
        → (is_some request.answer_field
            || not (option_id == "dismiss")
            || not (is_empty request.options))
          ≡ b
        → ◌≡◌ {A = Option RequestOption} (if b then none else some dismiss_option) (some option)
        → resolve_option (to_wire env request) option.id ≡ done option
    implied true t i = absurd (cc i)
    implied false t i =
        let same : dismiss_option ≡ option = cc i in
        subst (λ (o : RequestOption). resolve_option (to_wire env request) o.id ≡ done o) same
          (resolve_implied (to_wire env request)
            (rw ((to_wire-options env request).0) (ground (arith, t)))
            (rw ((to_wire-options env request).1) (ground (arith, t))))
