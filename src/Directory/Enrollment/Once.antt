-- ===== src/Directory/Enrollment/Once.antt =====
-- A code enrolls one device, over histories of db/enrollment.rs.
use nod.Base.{
  Result-cases, ℕ, ◌≡◌, refl, sym, subst, ap, inl, inr, String, Bool, true, false, not, ◌||◌,
  Option, none, some, List, [], ◌∷◌, ◌++◌, ◌==◌, leb, any, find, find_sound, update, is_some,
  is_none, is_blank, trim, Bool-cases, if◌then◌else◌, arith, ApiError, Result, ok, err, bad_request,
  conflict, not_found, ok_or, ok_or-eq-ok, bind_ok, then_ok, guard_ok,
}
use nod.Proto.Signing.{Codec, P256, sha256_hex}
use nod.Store.{DeviceRow, insert_row}
use nod.Validation.{validate_id}
use nod.Directory.Enrollment.{
  EnrollDeviceRequest, EnrollmentCodeRow, Directory, EnrollmentCodeResponse, EnrollDeviceResponse,
  find_user, normalized_push_registration, normalized_signing_key, device_row, code_row,
  create_enrollment_code, is_unused, consume, enroll_device,
}

-- The first row of the hash, which an enrollment reads, is used up.
pub record IsSpent (code_hash : String) (codes : List EnrollmentCodeRow) : Type 0 where
  pub row : EnrollmentCodeRow
  pub found : find (λ r. r.code_hash == code_hash) codes ≡ some row
  pub spent : is_some row.consumed_at ≡ true

find-append {ℓ} :
    {A : Type ℓ} (p : A → Bool) (xs ys : List A) {x : A}
    → find p xs ≡ some x
    → find p (xs ++ ys) ≡ some x
find-append p [] ys h = absurd (cc h)
find-append p (x ∷ xs) ys h = elim (Bool-cases (p x)) [
  | inl e ↦ rw e (rw e at h)
  | inr e ↦ rw e (find-append p xs ys (rw e at h))
]

find-update {ℓ} :
    {A : Type ℓ} (q p : A → Bool) (f : A → A) (xs : List A) {x : A}
    → ((y : A) → q (f y) ≡ q y)
    → find q xs ≡ some x
    → find q (update p f xs) ≡ some (if p x then f x else x)
find-update q p f [] k h = absurd (cc h)
find-update q p f (y ∷ ys) {x} k h = elim (Bool-cases (q y)) [
  | inl e ↦
      let same : y ≡ x = cc (rw e at h) in
      rw (← same) (elim (Bool-cases (p y)) [ inl t ↦ rw (t, k y, e) refl | inr t ↦ rw (t, e) refl ])
  | inr e ↦ elim (Bool-cases (p y)) [
    | inl t ↦ rw (t, k y, e) (find-update q p f ys k (rw e at h))
    | inr t ↦ rw (t, e) (find-update q p f ys k (rw e at h))
  ]
]

now_spent :
    (h : String) (now : ℕ) (row : EnrollmentCodeRow)
    → (row.code_hash == h) ≡ true
    → is_some row.consumed_at ≡ false
    → is_some (if is_unused h row then consume now row else row).consumed_at ≡ true
now_spent h now row named fresh = elim (Bool-cases (is_none row.consumed_at)) [
  | inl n ↦ rw (named, n) refl
  | inr n ↦ absurd (contradiction row.consumed_at fresh n)
]
  where
    contradiction : (o : Option ℕ) → is_some o ≡ false → is_none o ≡ false → ⊥
    contradiction none f n = cc n
    contradiction (some t) f n = cc f

still_spent :
    (h : String) (now : ℕ) (row : EnrollmentCodeRow)
    → is_some row.consumed_at ≡ true
    → is_some (if is_unused h row then consume now row else row).consumed_at ≡ true
still_spent h now row spent = elim (Bool-cases (is_unused h row)) [
  | inl u ↦ rw u refl
  | inr u ↦ rw u spent
]

spent_or_fresh :
    (h : String) (codes : List EnrollmentCodeRow) (row : EnrollmentCodeRow)
    → IsSpent h codes
    → find (λ r. r.code_hash == h) codes ≡ some row
    → is_some row.consumed_at ≡ false
    → ⊥
spent_or_fresh h codes row s found fresh =
    let same : s.row ≡ row = cc (s.found, found) in
    cc (s.spent, fresh, ap (λ (r : EnrollmentCodeRow). is_some r.consumed_at) same)

append-IsSpent :
    (h : String) (clash : EnrollmentCodeRow → Bool) (row : EnrollmentCodeRow)
    (codes added : List EnrollmentCodeRow)
    → insert_row clash row codes ≡ ok added
    → IsSpent h codes
    → IsSpent h added
append-IsSpent h clash row codes added e s = elim (Bool-cases (any clash codes)) [
  | inl t ↦ absurd (cc (rw t at e))
  | inr t ↦
      let same : codes ++ row ∷ [] ≡ added = cc (rw t at e) in
      rw (← same) (record {
        row = s.row;
        found = find-append (λ r. r.code_hash == h) codes (row ∷ []) s.found;
        spent = s.spent;
      })
]

abbrev SpentIn : String → Result (EnrollmentCodeResponse × Directory) → Type 0
SpentIn h (ok p) = IsSpent h p.1.codes
SpentIn h (err e) = Unit

abbrev codes_in : Result (EnrollDeviceResponse × Directory) → List EnrollmentCodeRow
codes_in (ok p) = p.1.codes
codes_in (err e) = []

-- What an enrollment that succeeds found and changed.
record Enrolled (codec : Codec) (before after : Directory) (now : ℕ) (req : EnrollDeviceRequest)
    : Type 0 where
  row : EnrollmentCodeRow
  found : find (λ r. r.code_hash == sha256_hex codec (trim req.code)) before.codes ≡ some row
  fresh : is_some row.consumed_at ≡ false
  consumed :
      after.codes ≡ update (is_unused (sha256_hex codec (trim req.code))) (consume now) before.codes

module _ (codec : Codec) (p256 : P256) where
  enroll_device-Enrolled :
      (directory : Directory) (now : ℕ) (device_id token : String) (req : EnrollDeviceRequest)
      {response : EnrollDeviceResponse} {after : Directory}
      → enroll_device codec p256 directory now device_id token req ≡ ok (response, after)
      → Enrolled codec directory after now req
  unfolding enroll_device
  enroll_device-Enrolled directory now device_id token req h =
      guard_ok (is_blank (trim req.device_name)) (bad_request "device name is required") _ h
        λ named h1. bind_ok (normalized_push_registration req) _ h1 λ push pushed h2.
          bind_ok (normalized_signing_key codec p256 req.signing_key) _ h2 λ key keyed h3.
            bind_ok
              (ok_or (find (λ r. r.code_hash == sha256_hex codec (trim req.code)) directory.codes)
                not_found)
              _ h3
              λ row found h4.
                guard_ok (is_some row.consumed_at || leb row.expires_at now)
                  (conflict "enrollment code is expired or already used") _ h4
                  λ live h5.
                    bind_ok (ok_or (find_user row.user_id directory.users) not_found) _ h5
                      λ user known h6.
                        guard_ok
                          (not (any (is_unused (sha256_hex codec (trim req.code))) directory.codes))
                          (conflict "enrollment code is expired or already used") _ h6
                          λ unused h7.
                            bind_ok
                              (insert_row
                                (λ (d : DeviceRow).
                                  (d.id == device_id) || (d.token_hash == sha256_hex codec token))
                                (device_row codec req push key now device_id row.user_id token)
                                directory.devices)
                              _ h7
                              λ devices inserted h8. record {
                                row = row;
                                found =
                                    ok_or-eq-ok
                                      (find (λ r. r.code_hash == sha256_hex codec (trim req.code))
                                        directory.codes)
                                      not_found found;
                                fresh = ground (arith, live);
                                consumed = ap codes_in (sym h8);
                              }

  -- The code of an enrollment is spent by it.
  enroll_device-IsSpent :
      (directory : Directory) (now : ℕ) (device_id token : String) (req : EnrollDeviceRequest)
      {response : EnrollDeviceResponse} {after : Directory}
      → enroll_device codec p256 directory now device_id token req ≡ ok (response, after)
      → IsSpent (sha256_hex codec (trim req.code)) after.codes
  enroll_device-IsSpent directory now device_id token req h =
      let e = enroll_device-Enrolled directory now device_id token req h in
      let h = sha256_hex codec (trim req.code) in
      rw e.consumed (record {
        row = if is_unused h e.row then consume now e.row else e.row;
        found =
            find-update (λ r. r.code_hash == h) (is_unused h) (consume now) directory.codes
              (λ y. refl) e.found;
        spent =
            now_spent h now e.row (find_sound (λ r. r.code_hash == h) directory.codes e.found)
              e.fresh;
      })

  consume-IsSpent :
      (now : ℕ) (h code_hash : String) (codes : List EnrollmentCodeRow)
      → IsSpent code_hash codes
      → IsSpent code_hash (update (is_unused h) (consume now) codes)
  consume-IsSpent now h code_hash codes s = record {
    row = if is_unused h s.row then consume now s.row else s.row;
    found =
        find-update (λ r. r.code_hash == code_hash) (is_unused h) (consume now) codes (λ y. refl)
          s.found;
    spent = still_spent h now s.row s.spent;
  }

  -- The calls that change the codes. One that is refused changes nothing.
  pub data EnrollmentCall : Type 0 where
    creates : (now : ℕ) (code user_id : String) → Option ℕ → EnrollmentCall
    enrolls : (now : ℕ) (device_id token : String) → EnrollDeviceRequest → EnrollmentCall

  abbrev kept {ℓ} : {A : Type ℓ} → Directory → Result (A × Directory) → Directory
  kept directory (ok p) = p.1
  kept directory (err e) = directory

  abbrev pub run_call : EnrollmentCall → Directory → Directory
  run_call (creates now code user_id seconds) directory =
      kept directory (create_enrollment_code codec directory now code user_id seconds)
  run_call (enrolls now device_id token req) directory =
      kept directory (enroll_device codec p256 directory now device_id token req)

  abbrev pub run_calls : List EnrollmentCall → Directory → Directory
  run_calls [] directory = directory
  run_calls (c ∷ cs) directory = run_calls cs (run_call c directory)

  -- What the calls do to the codes.
  create-IsSpent :
      (h : String) (directory : Directory) (now : ℕ) (code user_id : String) (seconds : Option ℕ)
      {p : EnrollmentCodeResponse × Directory}
      → create_enrollment_code codec directory now code user_id seconds ≡ ok p
      → IsSpent h directory.codes
      → IsSpent h p.1.codes
  unfolding create_enrollment_code
  create-IsSpent h directory now code user_id seconds {p} e s =
      then_ok (validate_id user_id "user id") _ e λ valid h1.
        bind_ok (ok_or (find_user user_id directory.users) not_found) _ h1 λ user known h2.
          let row = code_row codec now code user_id seconds in
          let clash = λ (r : EnrollmentCodeRow). r.code_hash == row.code_hash in
          bind_ok (insert_row clash row directory.codes) _ h2 λ codes inserted h3.
            subst (SpentIn h) h3 (append-IsSpent h clash row directory.codes codes inserted s)

  run_call-IsSpent :
      (h : String) (c : EnrollmentCall) (directory : Directory)
      → IsSpent h directory.codes
      → IsSpent h (run_call c directory).codes
  run_call-IsSpent h (creates now code user_id seconds) directory s =
      elim (Result-cases (create_enrollment_code codec directory now code user_id seconds)) [
        | inl (p, e) ↦ rw e (create-IsSpent h directory now code user_id seconds e s)
        | inr (x, e) ↦ rw e s
      ]
  run_call-IsSpent h (enrolls now device_id token req) directory s =
      elim (Result-cases (enroll_device codec p256 directory now device_id token req)) [
        | inl (p, e) ↦
            rw (e, (enroll_device-Enrolled directory now device_id token req e).consumed)
              (consume-IsSpent now (sha256_hex codec (trim req.code)) h directory.codes s)
        | inr (x, e) ↦ rw e s
      ]

  run_calls-IsSpent :
      (h : String) (cs : List EnrollmentCall) (directory : Directory)
      → IsSpent h directory.codes
      → IsSpent h (run_calls cs directory).codes
  run_calls-IsSpent h [] directory s = s
  run_calls-IsSpent h (c ∷ cs) directory s =
      run_calls-IsSpent h cs (run_call c directory) (run_call-IsSpent h c directory s)

  -- A code enrolls one device: once an enrollment with a code has succeeded, then after any further
  -- calls that create codes or enroll devices, at any time, an enrollment with a code of the same
  -- hash is refused with an error.
  pub code_enrolls_one_device :
      (directory : Directory) (now : ℕ) (device_id token : String) (req : EnrollDeviceRequest)
      {response : EnrollDeviceResponse} {after : Directory} (cs : List EnrollmentCall) (later : ℕ)
      (other_id other_token : String) (again : EnrollDeviceRequest)
      → enroll_device codec p256 directory now device_id token req ≡ ok (response, after)
      → sha256_hex codec (trim again.code) ≡ sha256_hex codec (trim req.code)
      → (e : ApiError) × (enroll_device codec p256
            (run_calls cs after)
            later
            other_id
            other_token
            again
          ≡ err e)
  code_enrolls_one_device directory now device_id token req {after = after} cs later other_id
        other_token again h same =
      elim (Result-cases
        (enroll_device codec p256 (run_calls cs after) later other_id other_token again)) [
          | inl (p, e) ↦
              let s =
                run_calls-IsSpent (sha256_hex codec (trim req.code)) cs after
                  (enroll_device-IsSpent directory now device_id token req h) in
              let w =
                enroll_device-Enrolled (run_calls cs after) later other_id other_token again e in
              absurd (
                spent_or_fresh (sha256_hex codec (trim req.code)) (run_calls cs after).codes w.row s
                  (subst (λ k. find (λ r. r.code_hash == k) (run_calls cs after).codes ≡ some w.row)
                    same w.found)
                  w.fresh)
          | inr x ↦ x
        ]
