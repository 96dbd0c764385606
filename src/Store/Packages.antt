-- ===== src/Store/Packages.antt =====
-- The hosting packages of internal/store/users.go.
pub mod Defaults
use text.Mathlib.Text.{is_le}
use Prim.Native.String.{compare}
use aegis_hosting_control_pa.Base.{
  ℕ, suc, String, Bool, true, false, Option, none, some, List, [], ◌∷◌, ◌++◌, ◌&&◌, not, ltb, ◌==◌,
  same, if◌then◌else◌, first, any, update_rows, drop_rows, count_rows,
}
use aegis_hosting_control_pa.Env.{Env, Op}
use aegis_hosting_control_pa.Store.Schema.{User, Package, Db}
use aegis_hosting_control_pa.Store.Result.{
  Result, ok, err, conflict, database, package_in_use, M, ◌>>=◌, pure, fail, ignore, exec, query,
  query_row,
}
use aegis_hosting_control_pa.Store.Users.{seconds, row_or_not_found}

abbrev pub has_package_id : ℕ → Package → Bool
has_package_id id p = p.id == id

abbrev pub set_default : Bool → Package → Package
set_default b p = record p { is_default = b }

-- `UPDATE packages SET is_default = 0 WHERE id != ?`
unfoldable pub clear_defaults : ℕ → List Package → List Package
clear_defaults id ps = update_rows (λ p. not (has_package_id id p)) (set_default false) ps

-- What `CreatePackage` and `UpdatePackage` do last; an error of the statement is dropped.
unfoldable pub keep_one_default : Env → Package → Db → Db
keep_one_default e p db =
    if p.is_default && not (e.fault Op.clear_default_packages)
    then record db { packages = clear_defaults p.id db.packages }
    else db

-- The name is UNIQUE. The returned row is the struct with its new id and time.
unfoldable pub create_package : Env → Package → M Package
unfolding keep_one_default
create_package e p db =
    let row = record p { id = suc db.last_package_id; created_at = seconds e.now } in
    if e.fault Op.create_package
    then (err database, db)
    else if any (λ q. same q.name p.name) db.packages
    then (err conflict, db)
    else (
      ok row,
      keep_one_default e row
          (record db { packages = db.packages ++ row ∷ []; last_package_id = row.id }),
    )

unfoldable pub get_package : Env → ℕ → M Package
get_package e id =
    query_row e Op.get_package (λ db. row_or_not_found (first (has_package_id id) db.packages))

-- `… WHERE is_default = 1 ORDER BY id LIMIT 1`: the rows stand in the order of their ids.
unfoldable pub get_default_package : Env → M Package
get_default_package e =
    query_row e Op.get_default_package
      (λ db. row_or_not_found (first (λ p. p.is_default) db.packages))

insert_package : Package → List Package → List Package
insert_package p [] = p ∷ []
insert_package p (q ∷ qs) =
    if is_le (compare p.name q.name) then p ∷ q ∷ qs else q ∷ insert_package p qs

unfoldable pub order_by_name : List Package → List Package
unfolding insert_package
order_by_name [] = []
order_by_name (p ∷ ps) = insert_package p (order_by_name ps)

unfoldable pub list_packages : Env → M (List Package)
list_packages e = query e Op.list_packages (λ db. order_by_name db.packages)

-- Every column but the id and the time of creation is written.
abbrev pub write_package : Package → Package → Package
write_package p row = record p { id = row.id; created_at = row.created_at }

unfoldable pub update_package : Env → Package → M (Unit {0})
unfolding keep_one_default
update_package e p db =
    if e.fault Op.update_package
    then (err database, db)
    else if any (has_package_id p.id) db.packages
        && any (λ q. same q.name p.name && not (has_package_id p.id q)) db.packages
    then (err conflict, db)
    else (
      ok tt,
      keep_one_default e p (record db {
        packages = update_rows (has_package_id p.id) (write_package p) db.packages;
      }),
    )

-- A package that an account uses is kept.
unfoldable pub delete_package : Env → ℕ → M (Unit {0})
delete_package e id = do
  n ← query e Op.count_package_users (λ db. count_rows (λ u. u.package_id == id) db.users)
  if ltb 0 n
      then fail package_in_use
      else exec e Op.delete_package
          (λ db. record db { packages = drop_rows (has_package_id id) db.packages })
