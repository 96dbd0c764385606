-- ===== src/Api/Features.antt =====
-- The panel areas that a hosting package grants, of internal/api/handlers_features.go.
pub mod Gate
use aegis_hosting_control_pa.Base.{
  ℕ, String, Bool, true, false, Option, none, some, List, [], ◌∷◌, ◌||◌, ltb, same, map,
  if◌then◌else◌,
}
use aegis_hosting_control_pa.Env.{Env}
use aegis_hosting_control_pa.Store.Schema.{User, Package, Db, role_admin, role_reseller}
use aegis_hosting_control_pa.Store.Result.{Result, ok, err}
use aegis_hosting_control_pa.Store.Packages.{get_package, get_default_package}

abbrev pub found_package : Result Package → Option Package
found_package (err _) = none
found_package (ok k) = some k

abbrev pub or_else : Option Package → Option Package → Option Package
or_else (some k) other = some k
or_else none other = other

-- `packageFor`
unfoldable pub package_for : Env → User → Db → Option Package
package_for e u db =
    let default_package = found_package (get_default_package e db).0 in
    if ltb 0 u.package_id
    then or_else (found_package (get_package e u.package_id db).0) default_package
    else default_package

-- Those who manage the server, not a plan.
abbrev pub is_manager : User → Bool
is_manager u = same u.role role_admin || same u.role role_reseller

-- The flag decides only for a package that exists.
abbrev pub flag_of : Option Package → Bool → Bool
flag_of none flag = true
flag_of (some k) flag = flag

-- `packageAllows`
unfoldable pub package_allows : Env → User → Bool → Db → Bool
package_allows e u flag db = if is_manager u then true else flag_of (package_for e u db) flag

-- A `map[string]bool`, in the order of the writes; a name that is missing is false.
abbrev pub Features : Type 0
Features = List (String × Bool)

unfoldable pub has_feature : String → Features → Bool
has_feature name [] = false
has_feature name ((n, b) ∷ fs) = if same n name then b else has_feature name fs

-- The list that `featuresFor` writes for those who manage the server.
abbrev pub manager_names : List String
manager_names =
    "ssl" ∷ "dns" ∷ "terminal" ∷ "backups" ∷ "mail" ∷ "webmail" ∷ "databases" ∷ "files" ∷ "ftp"
    ∷ "cron" ∷ "docker" ∷ []

-- The list that it writes for those without a package.
abbrev pub planless_names : List String
planless_names =
    "ssl" ∷ "dns" ∷ "terminal" ∷ "backups" ∷ "mail" ∷ "webmail" ∷ "databases" ∷ "files" ∷ "ftp"
    ∷ "cron" ∷ "docker" ∷ []

abbrev pub all_of : List String → Features
all_of names = map (λ name. (name, true)) names

abbrev pub features_of : Option Package → Features
features_of none = all_of planless_names
features_of (some k) =
    ("ssl", k.allow_ssl)
    ∷ ("dns", k.allow_dns)
    ∷ ("terminal", k.allow_terminal)
    ∷ ("backups", k.allow_backups)
    ∷ ("mail", k.allow_mail)
    ∷ ("webmail", k.allow_webmail)
    ∷ ("databases", k.allow_databases)
    ∷ ("files", k.allow_files)
    ∷ ("ftp", k.allow_ftp)
    ∷ ("cron", k.allow_cron)
    ∷ ("docker", k.allow_docker)
    ∷ []

-- `featuresFor`
unfoldable pub features_for : Env → User → Db → Features
features_for e u db =
    if is_manager u then all_of manager_names else features_of (package_for e u db)

-- `withFeature`, after `withAuth`: whether the request reaches the handler, which is 403 otherwise.
-- The package is looked up twice, and the driver may answer differently: e is what it does at the
-- first lookup, e' at the second.
unfoldable pub with_feature : Env → Env → User → String → Db → Bool
with_feature e e' u feature db = package_allows e' u (has_feature feature (features_for e u db)) db
