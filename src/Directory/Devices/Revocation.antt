-- ===== src/Directory/Devices/Revocation.antt =====
-- A device that was deleted decides nothing: db/devices.rs before db/requests/decisions.rs.
use nod.Base.{
  Result-cases, ℕ, ◌≡◌, refl, ap, subst, ◌⊎◌, inl, inr, String, Bool, true, false, not, ◌&&◌,
  Option, none, some, List, [], ◌∷◌, ◌==◌, any, find, update, any-update-false, is_none, is_blank,
  trim, arith, ApiError, Result, ok, err, bad_request, not_found, ok_or, bind_ok, guard_ok,
}
use nod.Env.{Env}
use nod.Store.{Db, DeviceRow}
use nod.Model.{Device}
use nod.Requests.Decide.{DecisionSubmission, record_decision}
use nod.Requests.Decide.Safety.{recorded_decision_is_lawful}
use nod.Directory.Devices.{
  is_active, is_owned, revoked, renamed, update_devices, delete_device, revoke_user_device,
  rename_user_device,
}

-- No row of the device is active.
abbrev IsGone : String → Db → Type 0
IsGone device_id db = any (is_active device_id) db.devices ≡ false

abbrev devices_in : Result Db → List DeviceRow
devices_in (ok db) = db.devices
devices_in (err e) = []

any-update_self {ℓ} :
    {A : Type ℓ} (p : A → Bool) (f : A → A) (xs : List A)
    → ((x : A) → p (f x) ≡ false)
    → any p (update p f xs) ≡ false
any-update_self p f [] k = refl
any-update_self p f (x ∷ xs) k = ground (arith, k x, any-update_self p f xs k)

update_devices_lem :
    (p : DeviceRow → Bool) (f : DeviceRow → DeviceRow) (db : Db) {after : Db}
    → update_devices p f db ≡ ok after
    → update p f db.devices ≡ after.devices
update_devices_lem p f db h =
    guard_ok (not (any p db.devices)) not_found _ h λ found h1. ap devices_in h1

delete_device-IsGone :
    (db : Db) (now : ℕ) (device_id : String) {after : Db}
    → delete_device db now device_id ≡ ok after
    → IsGone device_id after
unfolding delete_device
delete_device-IsGone db now device_id h =
    subst (λ ds. any (is_active device_id) ds ≡ false)
      (update_devices_lem (is_active device_id) (revoked now) db h)
      (any-update_self (is_active device_id) (revoked now) db.devices λ x. ground arith)

update-IsGone :
    (device_id : String) (p : DeviceRow → Bool) (f : DeviceRow → DeviceRow) (db : Db) {after : Db}
    → ((r : DeviceRow) → is_active device_id r ≡ false → is_active device_id (f r) ≡ false)
    → update_devices p f db ≡ ok after
    → IsGone device_id db
    → IsGone device_id after
update-IsGone device_id p f db k h gone =
    subst (λ ds. any (is_active device_id) ds ≡ false) (update_devices_lem p f db h)
      (any-update-false (is_active device_id) p f db.devices (λ x m t. k x) gone)

-- The calls that change a device. One that is refused changes nothing.
pub data DeviceCall : Type 0 where
  deletes : (now : ℕ) (device_id : String) → DeviceCall
  revokes : (now : ℕ) (user_id device_id : String) → DeviceCall
  renames : (now : ℕ) (user_id device_id name : String) → DeviceCall

abbrev database : Result (DeviceRow × Db) → Result Db
database (ok p) = ok p.1
database (err e) = err e

abbrev kept : Db → Result Db → Db
kept db (ok after) = after
kept db (err e) = db

abbrev outcome : DeviceCall → Db → Result Db
outcome (deletes now device_id) db = delete_device db now device_id
outcome (revokes now user_id device_id) db = revoke_user_device db now user_id device_id
outcome (renames now user_id device_id name) db =
    database (rename_user_device db now user_id device_id name)

abbrev pub run_calls : List DeviceCall → Db → Db
run_calls [] db = db
run_calls (c ∷ cs) db = run_calls cs (kept db (outcome c db))

abbrev renamed_devices : Result (DeviceRow × Db) → List DeviceRow
renamed_devices (ok p) = p.1.devices
renamed_devices (err e) = []

rename-IsGone :
    (gone_id : String) (db : Db) (now : ℕ) (user_id device_id name : String) {p : DeviceRow × Db}
    → rename_user_device db now user_id device_id name ≡ ok p
    → IsGone gone_id db
    → IsGone gone_id p.1
unfolding rename_user_device
rename-IsGone gone_id db now user_id device_id name {p} h gone =
    guard_ok (is_blank (trim name)) (bad_request "device name is required") _ h λ named h1.
      bind_ok (update_devices (is_owned user_id device_id) (renamed now (trim name)) db) _ h1
        λ after updated h2.
          bind_ok (ok_or (find (is_owned user_id device_id) after.devices) not_found) _ h2
            λ row found h3.
              subst (λ ds. any (is_active gone_id) ds ≡ false) (ap renamed_devices h3)
                (update-IsGone gone_id (is_owned user_id device_id) (renamed now (trim name)) db
                  (λ r e. ground arith) updated gone)

outcome-IsGone :
    (gone_id : String) (c : DeviceCall) (db : Db) {after : Db}
    → outcome c db ≡ ok after
    → IsGone gone_id db
    → IsGone gone_id after
unfolding delete_device revoke_user_device
outcome-IsGone gone_id (deletes now device_id) db h gone =
    update-IsGone gone_id (is_active device_id) (revoked now) db (λ r e. ground arith) h gone
outcome-IsGone gone_id (revokes now user_id device_id) db h gone =
    update-IsGone gone_id (is_owned user_id device_id) (revoked now) db (λ r e. ground arith) h gone
outcome-IsGone gone_id (renames now user_id device_id name) db h gone =
    elim (Result-cases (rename_user_device db now user_id device_id name)) [
      | inl (p, e) ↦
          subst (λ ds. any (is_active gone_id) ds ≡ false) (ap devices_in (rw e at h))
            (rename-IsGone gone_id db now user_id device_id name e gone)
      | inr (x, e) ↦ absurd (cc (rw e at h))
    ]

kept-IsGone :
    (gone_id : String) (c : DeviceCall) (db : Db)
    → IsGone gone_id db
    → IsGone gone_id (kept db (outcome c db))
kept-IsGone gone_id c db gone = elim (Result-cases (outcome c db)) [
  | inl (after, e) ↦ rw e (outcome-IsGone gone_id c db e gone)
  | inr (x, e) ↦ rw e gone
]

run_calls-IsGone :
    (gone_id : String) (cs : List DeviceCall) (db : Db)
    → IsGone gone_id db
    → IsGone gone_id (run_calls cs db)
run_calls-IsGone gone_id [] db gone = gone
run_calls-IsGone gone_id (c ∷ cs) db gone =
    run_calls-IsGone gone_id cs (kept db (outcome c db)) (kept-IsGone gone_id c db gone)

-- A device that is deleted decides nothing: once the deletion has succeeded, then after any further
-- calls that delete, revoke or rename devices, a decision that the device submits is refused with an
-- error, whatever the request, the option and the signature.
pub deleted_device_cannot_decide :
    (env : Env) (db : Db) (now : ℕ) (device_id : String) {after : Db} (cs : List DeviceCall)
    (later resolved_at : ℕ) (event_id : String) (s : DecisionSubmission) (device : Device)
    → delete_device db now device_id ≡ ok after
    → s.actor_device ≡ some device
    → device.id ≡ device_id
    → (e : ApiError) × (record_decision env (run_calls cs after) later resolved_at event_id s
        ≡ err e)
deleted_device_cannot_decide env db now device_id {after} cs later resolved_at event_id s device h
      acts same =
    elim (Result-cases (record_decision env (run_calls cs after) later resolved_at event_id s)) [
      | inl (p, e) ↦
          let lawful =
            recorded_decision_is_lawful env (run_calls cs after) later resolved_at event_id s e in
          let gone =
            run_calls-IsGone device_id cs after (delete_device-IsGone db now device_id h) in
          absurd (
            not_active (run_calls cs after) (rw (← same) at gone) s.actor_device acts
              lawful.4.from_active)
      | inr x ↦ x
    ]
  where
    not_active :
        (last : Db)
        → IsGone device.id last
        → (actor : Option Device) → actor ≡ some device
        → (actor ≡ none)
          ⊎ ((d : Device) × (actor ≡ some d)
              × (any (λ r. (r.id == d.id) && is_none r.revoked_at) last.devices ≡ true))
        → ⊥
    not_active last gone actor acts (inl e) = cc (acts, e)
    not_active last gone actor acts (inr (d, e, t)) =
        let known : d ≡ device = cc (acts, e) in
        cc (
          gone,
          subst
              (λ (x : Device).
                any (λ r. (r.id == x.id) && is_none r.revoked_at) last.devices ≡ true)
              known t,
        )
