-- ===== src/Store/Result.antt =====
-- Go's (value, error) pairs, and calls that read and write the database. What was written before an
-- error stays written, so the database comes back beside the error too.
use aegis_hosting_control_pa.Base.{if◌then◌else◌}
use aegis_hosting_control_pa.Env.{Env, Op}
use aegis_hosting_control_pa.Store.Schema.{Db}

-- The sentinel errors of internal/store and internal/auth, those of
-- internal/svc/cron.go, and one constructor for each kind of
-- error that a library returns.
pub data Error : Type 0 where
  not_found conflict database : Error
  invalid_credentials invalid_token suspended forbidden locked_out : Error
  totp_not_enrolled totp_already_enabled totp_invalid_code : Error
  entropy hashing signing bad_secret not_impersonated not_api_token package_in_use : Error
  bad_schedule no_command bad_path command_failed : Error

pub data Result {ℓ} (A : Type ℓ) : Type ℓ where
  ok : A → Result A
  err : Error → Result A

abbrev pub M : Type 0 → Type 0
M A = Db → Result A × Db

abbrev pub resume : {A B : Type 0} → Result A → (A → M B) → M B
resume (ok a) f db = f a db
resume (err e) f db = (err e, db)

infixl 5 ◌>>=◌ ◌>>◌
abbrev pub ◌>>=◌ : {A B : Type 0} → M A → (A → M B) → M B
◌>>=◌ m f db = let (r, db') = m db in resume r f db'

abbrev pub ◌>>◌ : {A B : Type 0} → M A → M B → M B
m >> n = m >>= λ _. n

abbrev pub pure : {A : Type 0} → A → M A
pure a db = (ok a, db)

abbrev pub fail : {A : Type 0} → Error → M A
fail e db = (err e, db)

abbrev pub of_result : {A : Type 0} → Result A → M A
of_result r db = (r, db)

-- `_ = call()`: the error is dropped.
abbrev pub ignore : {A : Type 0} → M A → M (Unit {0})
ignore m db = (ok tt, (m db).1)

-- What a caller does on each of the two outcomes.
abbrev pub handle : {A B : Type 0} → Result A → (A → M B) → (Error → M B) → M B
handle (ok a) f g = f a
handle (err e) f g = g e

-- `if err := call(); err != nil { … }` with a branch of its own for the error.
abbrev pub attempt : {A B : Type 0} → M A → (A → M B) → (Error → M B) → M B
attempt m f g db = let (r, db') = m db in handle r f g db'

-- db.ExecContext
abbrev pub exec : Env → Op → (Db → Db) → M (Unit {0})
exec e op f db = if e.fault op then (err database, db) else (ok tt, f db)

-- db.QueryContext: a query writes nothing.
abbrev pub query : {A : Type 0} → Env → Op → (Db → A) → M A
query e op f db = if e.fault op then (err database, db) else (ok (f db), db)

-- db.QueryRowContext with a Scan that may find no row.
abbrev pub query_row : {A : Type 0} → Env → Op → (Db → Result A) → M A
query_row e op f db = if e.fault op then (err database, db) else (f db, db)
