-- ===== src/Requests/Receipt.antt =====
-- The server of server/nod-server/crates/nod-server/src/db/requests and the offline check of
-- nod-proto/src/receipt.rs on one decision.
pub mod Digest
pub mod Stamped
pub mod Rebuilt
pub mod Agreement
use nod.Base.{
  ℕ, ◌≡◌, refl, ap, sym, ◌∙◌, inl, inr, String, Bool, true, false, not, ◌&&◌, ◌||◌, List, [], ◌∷◌,
  ◌++◌, Option, none, some, find, any, Bool-cases, Option-cases, arith, eq_iff, eq_refl, ◌==◌,
  is_none, is_some, if◌then◌else◌, ok, err, map_err, bad_request, bind_ok, guard_ok, ok_or-eq-ok,
  ok_or,
}
use nod.Base.Tried.{Tried, done, failed, ◌>>=◌, map_failed, done_or, done_then}
use nod.Proto.Request.{CreateDecisionRequest}
use nod.Proto.Signing.{Codec, P256, SigningError}
use nod.Proto.ValueSigning.{signing_of, shown}
use nod.Env.{Env, Url, Origin}
use nod.Model.{DecisionRequest, wire_of, to_wire}

-- The server's surroundings, with the signing functions of nod-proto.
abbrev pub env_of :
    Codec
    → P256
    → (String → Option Url)
    → (CreateDecisionRequest → String)
    → (String → Origin → String)
    → Env
env_of codec p256 parse_url fingerprint origin_fingerprint = record {
  parse_url = parse_url;
  parse_time = codec.parse_time;
  show_time = codec.show_time;
  json_len = codec.json_len;
  fingerprint = fingerprint;
  origin_fingerprint = origin_fingerprint;
  signing = signing_of codec p256;
}
