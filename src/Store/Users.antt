-- ===== src/Store/Users.antt =====
-- internal/store/users.go: the accounts.
use text.Mathlib.Text.{is_le}
use Prim.Native.String.{compare}
use aegis_hosting_control_pa.Base.{
  ℕ, suc, ◌/◌, String, Bool, true, false, Option, none, some, List, [], ◌∷◌, ◌++◌, ◌&&◌, not, ltb,
  ◌==◌, same, if◌then◌else◌, keep, first, any, update_rows, count_rows,
}
use aegis_hosting_control_pa.Env.{Env, Op}
use aegis_hosting_control_pa.Store.Schema.{User, Db, status_suspended, role_admin}
use aegis_hosting_control_pa.Store.Result.{
  Result, ok, err, not_found, conflict, database, M, exec, query, query_row,
}

-- `now()`: the seconds of the clock.
abbrev pub seconds : ℕ → ℕ
seconds t = t / 1_000_000_000

-- `sql.ErrNoRows` is `ErrNotFound`.
abbrev pub row_or_not_found : {A : Type 0} → Option A → Result A
row_or_not_found none = err not_found
row_or_not_found (some a) = ok a

abbrev pub has_id : ℕ → User → Bool
has_id id u = u.id == id

abbrev pub has_username : String → User → Bool
has_username name u = same u.username name

unfoldable pub get_user_by_id : Env → ℕ → M User
get_user_by_id e id =
    query_row e Op.get_user_by_id (λ db. row_or_not_found (first (has_id id) db.users))

unfoldable pub get_user_by_username : Env → String → M User
get_user_by_username e name =
    query_row e Op.get_user_by_username
      (λ db. row_or_not_found (first (has_username name) db.users))

-- ORDER BY username
insert_user : User → List User → List User
insert_user u [] = u ∷ []
insert_user u (v ∷ vs) =
    if is_le (compare u.username v.username) then u ∷ v ∷ vs else v ∷ insert_user u vs

unfoldable pub order_by_username : List User → List User
unfolding insert_user
order_by_username [] = []
order_by_username (u ∷ us) = insert_user u (order_by_username us)

unfoldable pub list_users : Env → ℕ → M (List User)
list_users e owner_id = query e Op.list_users λ db.
    order_by_username
      (if ltb 0 owner_id then keep (λ u. u.owner_id == owner_id) db.users else db.users)

-- The username is UNIQUE. The returned row is the struct with its new id and times.
unfoldable pub create_user : Env → User → M User
create_user e u db =
    let id = suc db.last_user_id in
    let row = record u {
      id = id;
      created_at = seconds e.now;
      updated_at = seconds e.now;
      totp_secret = "";
      totp_enabled = false;
      totp_backup_codes = none;
      suspended_by_quota = false;
    } in
    if e.fault Op.create_user
    then (err database, db)
    else if any (has_username u.username) db.users
    then (err conflict, db)
    else (ok row, record db { users = db.users ++ row ∷ []; last_user_id = id })

-- `UPDATE users SET … WHERE id=?`
abbrev pub update_user_row : Env → Op → ℕ → (User → User) → M (Unit {0})
update_user_row e op id f =
    exec e op (λ db. record db { users = update_rows (has_id id) f db.users })

unfoldable pub update_user : Env → User → M (Unit {0})
update_user e u = update_user_row e Op.update_user u.id λ row. record row {
  email = u.email;
  role = u.role;
  package_id = u.package_id;
  status = u.status;
  home_dir = u.home_dir;
  quota_disk_bytes = u.quota_disk_bytes;
  quota_bandwidth_bytes = u.quota_bandwidth_bytes;
  updated_at = seconds e.now;
}

unfoldable pub set_user_password : Env → ℕ → String → M (Unit {0})
set_user_password e id hash =
    update_user_row e Op.set_user_password id
      (λ row. record row { password_hash = hash; updated_at = seconds e.now })

unfoldable pub set_user_status : Env → ℕ → String → M (Unit {0})
set_user_status e id status =
    update_user_row e Op.set_user_status id
      (λ row. record row { status = status; updated_at = seconds e.now })

unfoldable pub set_totp_secret : Env → ℕ → String → M (Unit {0})
set_totp_secret e id secret =
    update_user_row e Op.set_totp_secret id
      (λ row. record row { totp_secret = secret; updated_at = seconds e.now })

unfoldable pub enable_totp : Env → ℕ → List String → M (Unit {0})
enable_totp e id hashes = update_user_row e Op.enable_totp id λ row. record row {
  totp_enabled = true;
  totp_backup_codes = some hashes;
  updated_at = seconds e.now;
}

unfoldable pub set_totp_backup_codes : Env → ℕ → List String → M (Unit {0})
set_totp_backup_codes e id hashes =
    update_user_row e Op.set_totp_backup_codes id
      (λ row. record row { totp_backup_codes = some hashes; updated_at = seconds e.now })

unfoldable pub disable_totp : Env → ℕ → M (Unit {0})
disable_totp e id = update_user_row e Op.disable_totp id λ row. record row {
  totp_enabled = false;
  totp_secret = "";
  totp_backup_codes = some [];
  updated_at = seconds e.now;
}

unfoldable pub set_suspended_by_quota : Env → ℕ → Bool → M (Unit {0})
set_suspended_by_quota e id v =
    update_user_row e Op.set_suspended_by_quota id (λ row. record row { suspended_by_quota = v })

unfoldable pub is_suspended_by_quota : Env → ℕ → M Bool
is_suspended_by_quota e id = query_row e Op.is_suspended_by_quota λ db.
    elim (first (has_id id) db.users) [ none ↦ err not_found | some u ↦ ok u.suspended_by_quota ]

-- internal/store/suspension.go
unfoldable pub is_manually_suspended : Env → ℕ → M Bool
is_manually_suspended e id = query_row e Op.is_manually_suspended λ db.
    elim (first (has_id id) db.users) [
      | none ↦ err not_found
      | some u ↦ ok (same u.status status_suspended && not u.suspended_by_quota)
    ]

unfoldable pub count_admins : Db → ℕ
count_admins db = count_rows (λ u. same u.role role_admin) db.users
