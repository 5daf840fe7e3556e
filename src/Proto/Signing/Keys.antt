-- ===== src/Proto/Signing/Keys.antt =====
-- Keys and signatures of nod-proto/src/signing.rs: what was signed verifies.
use nod.Base.{ℕ, ◌≡◌, refl, String, true, List, some, bytes}
use nod.Base.Tried.{done}
use nod.Proto.Signing.{
  Codec, P256, decode_signing_key, public_key_for, sign_payload, verify_payload, encode_public_key,
  is_uncompressed,
}

-- What base64 and p256 document: what is encoded decodes, an uncompressed key is read back and has
-- its mark and length, and a signature verifies under the key that made it.
pub record IsLawful (codec : Codec) (p256 : P256) : Type 0 where
  pub base64 : (bs : List ℕ) → codec.decode_base64 (codec.encode_base64 bs) ≡ some bs
  pub key_shape : (k : p256.VerifyingKey) → is_uncompressed (p256.uncompressed k) ≡ true
  pub key_read : (k : p256.VerifyingKey) → p256.from_sec1_bytes (p256.uncompressed k) ≡ some k
  pub signature_read : (s : p256.Signature) → p256.from_der (p256.to_der s) ≡ some s
  pub verifies :
      (k : p256.SigningKey) (message : List ℕ)
      → p256.verify (p256.verifying_key k) message (p256.sign k message) ≡ true

-- A private key that can be read signs every text, has a public key, and its signature of the text
-- verifies under that public key. (base64 and p256 do what they document.)
pub signed_payload_verifies :
    (codec : Codec) (p256 : P256) (private_key payload : String) (key : p256.SigningKey)
    → IsLawful codec p256
    → decode_signing_key codec p256 private_key ≡ done key
    → (public_key : String) × (signature : String) × (public_key_for codec p256 private_key
        ≡ done public_key)
      × (sign_payload codec p256 private_key payload ≡ done signature)
      × (verify_payload codec p256 public_key payload signature ≡ done tt)
unfolding public_key_for sign_payload verify_payload
signed_payload_verifies codec p256 private_key payload key law read = (
  encode_public_key codec p256 key,
  codec.encode_base64 (p256.to_der (p256.sign key (bytes payload))),
  rw read refl,
  rw read refl,
  rw
      (
        law.base64 (p256.uncompressed (p256.verifying_key key)),
        law.key_shape (p256.verifying_key key),
        law.key_read (p256.verifying_key key),
        law.base64 (p256.to_der (p256.sign key (bytes payload))),
        law.signature_read (p256.sign key (bytes payload)),
        law.verifies key (bytes payload),
      )
      refl,
)
