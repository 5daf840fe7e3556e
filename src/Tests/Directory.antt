-- ===== src/Tests/Directory.antt =====
-- Runs of the enrollment of devices and of their deletion.
use nod.Base.{update, ◌≡◌, refl, none, some, [], ◌∷◌, trim, ok, err, ApiError}
use nod.Proto.Signing.{sha256_hex, decode_public_key, validate_public_key}
use nod.Validation.{validate_id, is_slug}
use nod.Directory.Enrollment.{
  EnrollmentCodeRow, Directory, EnrollDeviceRequest, linux, platform_str, enroll_device,
  normalized_push_registration, normalized_native_app_id, trimmed_value, normalized_signing_key,
}
use nod.Directory.Enrollment.Once.{enrolls, creates, run_calls, code_enrolls_one_device}
use nod.Store.{Db}
use nod.Requests.Decide.{record_decision}
use nod.Directory.Devices.{is_active, revoked, delete_device}
use nod.Directory.Devices.Revocation.{renames, revokes, deleted_device_cannot_decide}
use nod.Directory.Devices.Revocation
use nod.Tests.Data.{env, empty, state, says_yes, phone}
use nod.Tests.Requests.{created, handlers}
use nod.Tests.Proto.{codec, scheme, hash, zeros, put_numbers}

abbrev code : EnrollmentCodeRow
code = record {
  code_hash = hash;
  user_id = "ann";
  expires_at = 9000;
  consumed_at = none;
  created_at = 1000;
}

abbrev before : Directory
before = record {
  codes = code ∷ [];
  users =
      record { id = "ann"; name = "Ann"; created_at = 0; updated_at = 0; deleted_at = none } ∷ [];
  devices = [];
}

abbrev request : EnrollDeviceRequest
request = record {
  code = " NOD-1 ";
  device_name = "Laptop ";
  platform = linux;
  native_app_id = none;
  push_provider = none;
  push_token = none;
  signing_key = some (record {
    key_id = "key1";
    algorithm = "p256_ecdsa_sha256";
    public_key = put_numbers (4 ∷ zeros 64);
  });
}

abbrev after : Directory
after = record before {
  codes = record code { consumed_at = some 5000 } ∷ [];
  devices =
      record {
        id = "device1";
        user_id = "ann";
        name = "Laptop";
        platform = "linux";
        native_app_id = none;
        token_hash = hash;
        push_provider = none;
        push_token = none;
        signing_key_id = some "key1";
        signing_key_algorithm = some "p256_ecdsa_sha256";
        signing_public_key = some (put_numbers (4 ∷ zeros 64));
        revoked_at = none;
        last_seen_at = 5000;
        created_at = 5000;
      }
      ∷ [];
}

-- The request enrolls a device of ann.
enroll_device_run :
    enroll_device codec scheme before 5000 "device1" "token1" request
    ≡ ok (
      record { device_id = "device1"; user_id = "ann"; user_name = "Ann"; token = "token1" },
      after,
    )
unfolding enroll_device normalized_push_registration normalized_native_app_id trimmed_value
    normalized_signing_key validate_id is_slug trim sha256_hex decode_public_key validate_public_key
    platform_str
enroll_device_run = refl

code_enrolls_one_device_example :
    (e : ApiError) × (enroll_device codec scheme
        (run_calls codec scheme
          (creates 5500 "NOD-2" "ann" none ∷ enrolls 5600 "device2" "token2" request ∷ [])
          after)
        6000
        "device3"
        "token3"
        request
      ≡ err e)
code_enrolls_one_device_example =
    code_enrolls_one_device codec scheme before 5000 "device1" "token1" request
      (creates 5500 "NOD-2" "ann" none ∷ enrolls 5600 "device2" "token2" request ∷ []) 6000
      "device3" "token3" request enroll_device_run refl

abbrev asked : Db
asked = state empty created

abbrev without_phone : Db
without_phone = record asked { devices = update (is_active "phone") (revoked 1500) asked.devices }

delete_device_run : delete_device asked 1500 "phone" ≡ ok without_phone
unfolding delete_device handlers
delete_device_run = refl

deleted_device_cannot_decide_example :
    (e : ApiError) × (record_decision env
        (Revocation.run_calls
          (renames 1600 "ann" "phone" "Back" ∷ revokes 1700 "ann" "phone" ∷ [])
          without_phone)
        2000
        3000
        "e2"
        says_yes
      ≡ err e)
deleted_device_cannot_decide_example =
    deleted_device_cannot_decide env asked 1500 "phone"
      (renames 1600 "ann" "phone" "Back" ∷ revokes 1700 "ann" "phone" ∷ []) 2000 3000 "e2" says_yes
      phone delete_device_run refl refl
