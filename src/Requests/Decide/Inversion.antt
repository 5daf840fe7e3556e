-- ===== src/Requests/Decide/Inversion.antt =====
-- What a recorded decision went through.
use nod.Base.{ℕ, ◌≡◌, String, Option, ok, bind_ok}
use nod.Proto.Request.{RequestOption, DecisionSignatureRecord}
use nod.Env.{Env}
use nod.Store.{Db}
use nod.Model.{DecisionRequest}
use nod.Lifecycle.{append_lifecycle_on}
use nod.Requests.Read.{get_request_on}
use nod.Requests.Signature.{verified_decision_signature}
use nod.Requests.Decide.{
  DecisionSubmission, admit, write_decision, decision_of, trimmed_text, record_decision,
}

module _ (env : Env) (db : Db) (now resolved_at : ℕ) (event_id : String)
    (s : DecisionSubmission) where
  -- The stages of a decision that succeeds.
  pub record Stages (after : DecisionRequest) (done : Db) : Type 0 where
    pub request : DecisionRequest
    pub option : RequestOption
    pub signature : Option DecisionSignatureRecord
    pub noted : Db
    pub written : Db
    pub found : get_request_on env db s.request_id ≡ ok request
    pub admitted : admit env db now s request ≡ ok option
    pub verified :
        verified_decision_signature env db resolved_at request option s.actor_device
          (trimmed_text s.decision.text)
          s.decision.signature
          s.decision.answer_value
        ≡ ok (signature, noted)
    pub wrote :
        write_decision noted s request (decision_of s option signature resolved_at) ≡ ok written
    pub reread : get_request_on env written s.request_id ≡ ok after
    pub logged :
        append_lifecycle_on written resolved_at event_id after "nod.answer.recorded"
          (Option.some (decision_of s option signature resolved_at))
        ≡ ok done

  pub stages_of :
      {after : DecisionRequest} {done : Db}
      → record_decision env db now resolved_at event_id s ≡ ok (after, done)
      → Stages after done
  unfolding record_decision
  stages_of {after} {done} h = bind_ok (get_request_on env db s.request_id) _ h λ request found h1.
      bind_ok (admit env db now s request) _ h1 λ option admitted h2.
        bind_ok _ _ h2 λ noted verified h3. bind_ok _ _ h3 λ written wrote h4.
          bind_ok (get_request_on env written s.request_id) _ h4 λ read reread h5.
            bind_ok _ _ h5 λ last logged h6.
              let same : (read ≡ after) × (last ≡ done) = (cc, cc) in
              record {
                request = request;
                option = option;
                signature = noted.0;
                noted = noted.1;
                written = written;
                found = found;
                admitted = admitted;
                verified = verified;
                wrote = wrote;
                reread = rw (← same.0) reread;
                logged = rw (← same.0, ← same.1) logged;
              }
