-- ===== src/Api/Features/Gate.antt =====
-- The gate of a route against the flags of the package.
use aegis_hosting_control_pa.Base.{
  String, Bool, true, false, Option, none, some, ◌≡◌, refl, Bool-cases, inl, inr,
}
use aegis_hosting_control_pa.Env.{Env}
use aegis_hosting_control_pa.Store.Schema.{User, Package, Db}
use aegis_hosting_control_pa.Api.Features.{
  all_of, manager_names, planless_names, has_feature, features_of, features_for, package_for,
  package_allows, flag_of, with_feature, is_manager,
}

-- The panel areas.
pub data Area : Type 0 where
  ssl dns terminal backups mail webmail databases files ftp cron docker : Area

abbrev pub name_of : Area → String
name_of ssl = "ssl"
name_of dns = "dns"
name_of terminal = "terminal"
name_of backups = "backups"
name_of mail = "mail"
name_of webmail = "webmail"
name_of databases = "databases"
name_of files = "files"
name_of ftp = "ftp"
name_of cron = "cron"
name_of docker = "docker"

-- The field of the package that grants an area.
abbrev pub granted : Area → Package → Bool
granted ssl k = k.allow_ssl
granted dns k = k.allow_dns
granted terminal k = k.allow_terminal
granted backups k = k.allow_backups
granted mail k = k.allow_mail
granted webmail k = k.allow_webmail
granted databases k = k.allow_databases
granted files k = k.allow_files
granted ftp k = k.allow_ftp
granted cron k = k.allow_cron
granted docker k = k.allow_docker

-- Who passes: managers, accounts for which either lookup finds no package, and those whose package
-- grants the area.
abbrev pub passes : Area → Bool → Option Package → Option Package → Bool
passes a true first second = true
passes a false none second = true
passes a false (some k) none = true
passes a false (some k) (some k') = granted a k

of_managers : (a : Area) → has_feature (name_of a) (all_of manager_names) ≡ true
unfolding has_feature
of_managers ssl = refl
of_managers dns = refl
of_managers terminal = refl
of_managers backups = refl
of_managers mail = refl
of_managers webmail = refl
of_managers databases = refl
of_managers files = refl
of_managers ftp = refl
of_managers cron = refl
of_managers docker = refl

without_package : (a : Area) → has_feature (name_of a) (all_of planless_names) ≡ true
unfolding has_feature
without_package ssl = refl
without_package dns = refl
without_package terminal = refl
without_package backups = refl
without_package mail = refl
without_package webmail = refl
without_package databases = refl
without_package files = refl
without_package ftp = refl
without_package cron = refl
without_package docker = refl

of_package : (a : Area) (k : Package) → has_feature (name_of a) (features_of (some k)) ≡ granted a k
unfolding has_feature
of_package ssl k = refl
of_package dns k = refl
of_package terminal k = refl
of_package backups k = refl
of_package mail k = refl
of_package webmail k = refl
of_package databases k = refl
of_package files k = refl
of_package ftp k = refl
of_package cron k = refl
of_package docker k = refl

plan-passes :
    (a : Area) (first second : Option Package)
    → flag_of second (has_feature (name_of a) (features_of first)) ≡ passes a false first second
plan-passes a none none = refl
plan-passes a none (some k) = without_package a
plan-passes a (some k) none = refl
plan-passes a (some k) (some k') = of_package a k

plan-told :
    (a : Area) (o : Option Package) → has_feature (name_of a) (features_of o) ≡ passes a false o o
plan-told a none = without_package a
plan-told a (some k) = of_package a k

with_feature-passes :
    (e e' : Env) (u : User) (a : Area) (db : Db)
    → with_feature e e' u (name_of a) db
      ≡ passes a (is_manager u) (package_for e u db) (package_for e' u db)
unfolding with_feature package_allows features_for
with_feature-passes e e' u a db = elim (Bool-cases (is_manager u)) [
  | inl manages ↦ rw manages
  | inr plan ↦ rw plan (plan-passes a (package_for e u db) (package_for e' u db))
]

-- The gate of each panel area lets administrators and resellers through, and every account for which
-- one of its two lookups finds no package, also because the query failed; every other account just
-- if the package of the first lookup grants the area by the flag of that area. The features that an
-- account is told of name the area by the same rule, with their one lookup.
pub gate-features :
    (e e' : Env) (u : User) (a : Area) (db : Db)
    → (with_feature e e' u (name_of a) db
        ≡ passes a (is_manager u) (package_for e u db) (package_for e' u db))
      × (has_feature (name_of a) (features_for e u db)
          ≡ passes a (is_manager u) (package_for e u db) (package_for e u db))
unfolding features_for
gate-features e e' u a db = (
  with_feature-passes e e' u a db,
  elim (Bool-cases (is_manager u)) [
    | inl manages ↦ rw manages (of_managers a)
    | inr plan ↦ rw plan (plan-told a (package_for e u db))
  ],
)
