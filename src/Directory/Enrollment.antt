-- ===== src/Directory/Enrollment.antt =====
-- server/nod-server/crates/nod-server/src/db/enrollment.rs: codes by which devices enroll. Codes, tokens and
-- ids that are drawn at random are arguments, and so is the clock.
pub mod Once
use nod.Base.{
  ℕ, ◌+◌, String, Bool, true, false, not, ◌&&◌, ◌||◌, Option, none, some, List, [], ◌∷◌, ◌++◌, ◌==◌,
  ltb, leb, min, max, any, find, update, is_some, is_none, is_blank, some_char, is_whitespace, trim,
  byte_len, ◌*◌, if◌then◌else◌, Result, ok, err, bad_request, conflict, not_found, refuse_if, ok_or,
  ◌>>=◌, ◌>>◌,
}
use nod.Base.Tried.{Tried, done, failed}
use nod.Proto.Signing.{Codec, P256, SigningError, sha256_hex, validate_public_key}
use nod.Store.{Db, DeviceRow, UserRow, insert_row}
use nod.Validation.{validate_id}

pub data DevicePlatform : Type 0 where
  ios macos watchos windows linux unknown : DevicePlatform

unfoldable pub platform_str : DevicePlatform → String
platform_str ios = "ios"
platform_str macos = "macos"
platform_str watchos = "watchos"
platform_str windows = "windows"
platform_str linux = "linux"
platform_str unknown = "unknown"

pub record DeviceSigningKeyRequest : Type 0 where
  pub key_id : String
  pub algorithm : String
  pub public_key : String

-- Its `attestation` is not read at the enrollment.
pub record EnrollDeviceRequest : Type 0 where
  pub code : String
  pub device_name : String
  pub platform : DevicePlatform
  pub native_app_id : Option String
  pub push_provider : Option String
  pub push_token : Option String
  pub signing_key : Option DeviceSigningKeyRequest

-- A row of user_enrollment_codes.
pub record EnrollmentCodeRow : Type 0 where
  pub code_hash : String
  pub user_id : String
  pub expires_at : ℕ
  pub consumed_at : Option ℕ
  pub created_at : ℕ

-- The tables that an enrollment reads and writes.
pub record Directory : Type 0 where
  pub codes : List EnrollmentCodeRow
  pub users : List UserRow
  pub devices : List DeviceRow

pub record EnrollmentCodeResponse : Type 0 where
  pub code : String
  pub expires_at : ℕ

-- Without the lists of channels and devices, which are read after the commit.
pub record EnrollDeviceResponse : Type 0 where
  pub device_id : String
  pub user_id : String
  pub user_name : String
  pub token : String

pub record PushRegistration : Type 0 where
  pub native_app_id : Option String
  pub provider : Option String
  pub token : Option String

abbrev pub find_user : String → List UserRow → Option UserRow
find_user user_id users = find (λ u. (u.id == user_id) && is_none u.deleted_at) users

-- `expires_in_seconds.unwrap_or(600).clamp(30, 3600)`; a number below zero is clamped like zero.
abbrev pub lifetime_seconds : Option ℕ → ℕ
lifetime_seconds none = 600
lifetime_seconds (some s) = max 30 (min s 3600)

-- `as_deref().map(str::trim).filter(|value| !value.is_empty())`.
unfoldable pub trimmed_value : Option String → Option String
unfolding trim
trimmed_value none = none
trimmed_value (some value) = if is_blank (trim value) then none else some (trim value)

abbrev check_native_app_id : Option String → Result (Option String)
check_native_app_id none = ok none
check_native_app_id (some value) = do
  refuse_if (ltb 255 (byte_len value)) (bad_request "native app id is too long")
  refuse_if (some_char is_whitespace value)
      (bad_request "native app id must not contain whitespace")
  ok (some value)

unfoldable pub normalized_native_app_id : Option String → Result (Option String)
unfolding trimmed_value
normalized_native_app_id value = check_native_app_id (trimmed_value value)

abbrev registration : Option String → Option String → Option String → Result PushRegistration
registration none (some provider) (some token) =
    err (bad_request "native app id is required for push registration")
registration (some app) (some provider) (some token) =
    ok (record { native_app_id = some app; provider = some provider; token = some token })
registration app none none = ok (record { native_app_id = app; provider = none; token = none })
registration app (some provider) none = err (bad_request "push token is required")
registration app none (some token) = err (bad_request "push provider is required")

unfoldable pub normalized_push_registration : EnrollDeviceRequest → Result PushRegistration
unfolding normalized_native_app_id trimmed_value
normalized_push_registration req = do
  native_app_id ← normalized_native_app_id req.native_app_id
  registration native_app_id (trimmed_value req.push_provider) (trimmed_value req.push_token)

abbrev valid_public_key : Tried SigningError (Unit {0}) → Result (Unit {0})
valid_public_key (done t) = ok t
valid_public_key (failed e) = err (bad_request "registered signing public key is invalid")

unfoldable pub normalized_signing_key :
    Codec → P256 → Option DeviceSigningKeyRequest → Result DeviceSigningKeyRequest
unfolding validate_id trim
normalized_signing_key codec p256 signing_key = do
  key ← ok_or signing_key (bad_request "signing_key is required to enroll a device")
  validate_id (trim key.key_id) "signing key id"
  refuse_if (not (key.algorithm == "p256_ecdsa_sha256"))
      (bad_request "unsupported signing key algorithm")
  refuse_if (is_blank (trim key.public_key)) (bad_request "signing public key is required")
  valid_public_key (validate_public_key codec p256 (trim key.public_key))
  ok (record {
    key_id = trim key.key_id;
    algorithm = key.algorithm;
    public_key = trim key.public_key;
  })

abbrev pub code_row : Codec → (now : ℕ) → (code user_id : String) → Option ℕ → EnrollmentCodeRow
code_row codec now code user_id expires_in_seconds = record {
  code_hash = sha256_hex codec code;
  user_id = user_id;
  expires_at = now + 1000 * lifetime_seconds expires_in_seconds;
  consumed_at = none;
  created_at = now;
}

unfoldable pub create_enrollment_code :
    Codec
    → Directory
    → (now : ℕ) → (code user_id : String) → Option ℕ
    → Result (EnrollmentCodeResponse × Directory)
unfolding validate_id
create_enrollment_code codec directory now code user_id expires_in_seconds = do
  validate_id user_id "user id"
  user ← ok_or (find_user user_id directory.users) not_found
  let row = code_row codec now code user_id expires_in_seconds
  codes ← insert_row (λ (r : EnrollmentCodeRow). r.code_hash == row.code_hash) row directory.codes
  ok (record { code = code; expires_at = row.expires_at }, record directory { codes = codes })

-- `WHERE code_hash = ? AND consumed_at IS NULL`.
abbrev pub is_unused : String → EnrollmentCodeRow → Bool
is_unused code_hash r = (r.code_hash == code_hash) && is_none r.consumed_at

abbrev pub consume : ℕ → EnrollmentCodeRow → EnrollmentCodeRow
consume now r = record r { consumed_at = some now }

abbrev pub device_row :
    Codec
    → EnrollDeviceRequest
    → PushRegistration
    → DeviceSigningKeyRequest
    → ℕ
    → (device_id user_id token : String) → DeviceRow
device_row codec req push key now device_id user_id token = record {
  id = device_id;
  user_id = user_id;
  name = trim req.device_name;
  platform = platform_str req.platform;
  native_app_id = push.native_app_id;
  token_hash = sha256_hex codec token;
  push_provider = push.provider;
  push_token = push.token;
  signing_key_id = some key.key_id;
  signing_key_algorithm = some key.algorithm;
  signing_public_key = some key.public_key;
  revoked_at = none;
  last_seen_at = now;
  created_at = now;
}

unfoldable pub enroll_device :
    Codec
    → P256
    → Directory
    → (now : ℕ) → (device_id token : String) → EnrollDeviceRequest
    → Result (EnrollDeviceResponse × Directory)
unfolding normalized_push_registration normalized_signing_key trim
enroll_device codec p256 directory now device_id token req = do
  refuse_if (is_blank (trim req.device_name)) (bad_request "device name is required")
  let code_hash = sha256_hex codec (trim req.code)
  push ← normalized_push_registration req
  key ← normalized_signing_key codec p256 req.signing_key
  row ← ok_or (find (λ r. r.code_hash == code_hash) directory.codes) not_found
  refuse_if (is_some row.consumed_at || leb row.expires_at now)
      (conflict "enrollment code is expired or already used")
  user ← ok_or (find_user row.user_id directory.users) not_found
  refuse_if (not (any (is_unused code_hash) directory.codes))
      (conflict "enrollment code is expired or already used")
  devices ←
      insert_row (λ d. (d.id == device_id) || (d.token_hash == sha256_hex codec token))
        (device_row codec req push key now device_id row.user_id token) directory.devices
  ok (
    record { device_id = device_id; user_id = row.user_id; user_name = user.name; token = token },
    record directory {
      codes = update (is_unused code_hash) (consume now) directory.codes;
      devices = devices;
    },
  )
