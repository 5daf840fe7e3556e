-- ===== src/Requests/Decide/Nonces.antt =====
-- The nonces of signed decisions, over whole histories.
use nod.Base.{
  ℕ, ◌≡◌, sym, ap, ◌∙◌, String, true, false, false≢true, some, List, any, ok, arith, eq_refl,
  any-append,
}
use nod.Proto.Request.{DecisionSignature}
use nod.Env.{Env}
use nod.Store.{Db}
use nod.Model.{DecisionRequest, Device}
use nod.Requests.Signature.Inversion.{is_nonce, Signs, verified-Signs}
use nod.Requests.Decide.{DecisionSubmission, record_decision, trimmed_text}
use nod.Requests.Decide.Inversion.{stages_of}
use nod.Requests.History.Steps.{Effect-trans, write-Effect, append-Effect}
use nod.Requests.History.Calls.{RequestCall, run, run-Effect}

module _ (env : Env) (s : DecisionSubmission) (d : Device) (signature : DecisionSignature)
    (by_device : s.actor_device ≡ some d) (signed : s.decision.signature ≡ some signature) where
  submission-Signs :
      (db : Db) (now resolved_at : ℕ) (event_id : String) {after : DecisionRequest} {last : Db}
      → (h : record_decision env db now resolved_at event_id s ≡ ok (after, last))
      → let t = stages_of env db now resolved_at event_id s h in
        Signs env db resolved_at t.request t.option d
          (trimmed_text s.decision.text)
          (some signature)
          s.decision.answer_value
          t.signature
          t.noted
  submission-Signs db now resolved_at event_id h =
      let t = stages_of env db now resolved_at event_id s h in
      verified-Signs env db resolved_at t.request t.option d (trimmed_text s.decision.text)
        (some signature) s.decision.answer_value {p = (t.signature, t.noted)}
        (rw (← by_device, ← signed) t.verified)

  nonce_was_new :
      (db : Db) (now resolved_at : ℕ) (event_id : String) {after : DecisionRequest} {last : Db}
      → record_decision env db now resolved_at event_id s ≡ ok (after, last)
      → any (is_nonce d.id signature.key_id signature.nonce) db.nonces ≡ false
  nonce_was_new db now resolved_at event_id h =
      let v = submission-Signs db now resolved_at event_id h in
      let same : signature ≡ v.signature = cc v.given in rw same v.is_new

  nonce_is_kept :
      (db : Db) (now resolved_at : ℕ) (event_id : String) {after : DecisionRequest} {last : Db}
      → record_decision env db now resolved_at event_id s ≡ ok (after, last)
      → any (is_nonce d.id signature.key_id signature.nonce) last.nonces ≡ true
  nonce_is_kept db now resolved_at event_id {after} h =
      let t = stages_of env db now resolved_at event_id s h in
      let v = submission-Signs db now resolved_at event_id h in
      let same : signature ≡ v.signature = cc v.given in
      let e =
        Effect-trans (write-Effect t.noted s t.request _ t.wrote)
          (append-Effect t.written resolved_at event_id after _ _ t.logged) in
      e.nonces (is_nonce d.id signature.key_id signature.nonce) (
        rw (v.shape, any-append (is_nonce d.id signature.key_id signature.nonce) db.nonces)
          (ground (
            arith,
            ap (λ x. x.nonce) same,
            ap (λ x. x.key_id) same,
            eq_refl d.id,
            eq_refl signature.key_id,
            eq_refl signature.nonce,
          )))

-- A signed decision cannot be replayed: once a device's decision is recorded, no later submission of
-- that device under the same key and nonce is, on any request and after any further calls.
pub nonce_is_used_once :
    (env : Env) (db : Db) (s s' : DecisionSubmission) (d d' : Device)
    (signature signature' : DecisionSignature) (now resolved_at : ℕ) (event_id : String)
    {after : DecisionRequest} {last : Db}
    → s.actor_device ≡ some d
    → s.decision.signature ≡ some signature
    → s'.actor_device ≡ some d'
    → s'.decision.signature ≡ some signature'
    → d'.id ≡ d.id
    → signature'.key_id ≡ signature.key_id
    → signature'.nonce ≡ signature.nonce
    → record_decision env db now resolved_at event_id s ≡ ok (after, last)
    → (cs : List RequestCall) (now' resolved_at' : ℕ) (event_id' : String)
      (p : DecisionRequest × Db)
    → ¬ (record_decision env (run env cs last) now' resolved_at' event_id' s' ≡ ok p)
nonce_is_used_once env db s s' d d' signature signature' now resolved_at event_id {after} {last}
      by_device signed by_device' signed' same_device same_key same_nonce h cs now' resolved_at'
      event_id' p h' =
    let kept =
      (run-Effect env cs last).nonces (is_nonce d.id signature.key_id signature.nonce)
        (nonce_is_kept env s d signature by_device signed db now resolved_at event_id h) in
    let new =
      nonce_was_new env s' d' signature' by_device' signed' (run env cs last) now' resolved_at'
        event_id' h' in
    false≢true (sym new ∙ rw (same_device, same_key, same_nonce) kept)
