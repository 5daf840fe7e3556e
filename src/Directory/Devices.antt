-- ===== src/Directory/Devices.antt =====
-- server/nod-server/crates/nod-server/src/db/devices.rs: the calls that change a device, each one statement
-- on the table. A device without a user belongs to the default one, and its row says so here.
pub mod Revocation
use nod.Base.{
  ℕ, String, Bool, true, false, not, ◌&&◌, Option, none, some, List, [], ◌∷◌, ◌==◌, any, find,
  update, is_none, is_blank, trim, if◌then◌else◌, Result, ok, err, bad_request, not_found,
  refuse_if, ok_or, ◌>>=◌, ◌>>◌,
}
use nod.Store.{Db, DeviceRow}

-- `WHERE id = ? AND revoked_at IS NULL`.
abbrev pub is_active : String → DeviceRow → Bool
is_active device_id r = (r.id == device_id) && is_none r.revoked_at

-- `AND COALESCE(user_id, ?) = ?`.
abbrev pub is_owned : String → String → DeviceRow → Bool
is_owned user_id device_id r = is_active device_id r && (r.user_id == user_id)

abbrev pub revoked : ℕ → DeviceRow → DeviceRow
revoked now r = record r { revoked_at = some now; push_token = none }

abbrev pub renamed : ℕ → String → DeviceRow → DeviceRow
renamed now name r = record r { name = name; last_seen_at = now }

-- An `UPDATE` whose `rows_affected()` must not be 0.
abbrev pub update_devices : (DeviceRow → Bool) → (DeviceRow → DeviceRow) → Db → Result Db
update_devices p f db = do
  refuse_if (not (any p db.devices)) not_found
  ok (record db { devices = update p f db.devices })

unfoldable pub delete_device : Db → ℕ → (device_id : String) → Result Db
delete_device db now device_id = update_devices (is_active device_id) (revoked now) db

unfoldable pub revoke_user_device : Db → ℕ → (user_id device_id : String) → Result Db
revoke_user_device db now user_id device_id =
    update_devices (is_owned user_id device_id) (revoked now) db

-- The row that the response is made of.
unfoldable pub rename_user_device :
    Db → ℕ → (user_id device_id name : String) → Result (DeviceRow × Db)
unfolding trim
rename_user_device db now user_id device_id name = do
  refuse_if (is_blank (trim name)) (bad_request "device name is required")
  after ← update_devices (is_owned user_id device_id) (renamed now (trim name)) db
  row ← ok_or (find (is_owned user_id device_id) after.devices) not_found
  ok (row, after)
