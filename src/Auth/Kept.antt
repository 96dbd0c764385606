-- ===== src/Auth/Kept.antt =====
-- Calls of internal/auth that change nothing of an account but its second factor: how the steps
-- compose.
pub mod Calls
use aegis_hosting_control_pa.Base.{
  ℕ, String, Bool, true, false, none, List, [], ◌∷◌, map, update_rows, if◌then◌else◌, of_if, ◌≡◌,
  ◌∙◌, refl, ap, arith, Bool-cases, inl, inr,
}
use aegis_hosting_control_pa.Env.{Env, Op}
use aegis_hosting_control_pa.Store.Schema.{User, Db}
use aegis_hosting_control_pa.Store.Result.{
  of_result, fail, pure, exec, Error, Result, ok, err, M, resume, handle, ◌>>=◌, attempt, ignore,
  query, query_row,
}
use aegis_hosting_control_pa.Store.Users.{has_id, update_user_row}

-- An account without its second factor and the time of the last change.
abbrev pub without_factor : User → User
without_factor u = record u {
  totp_secret = "";
  totp_enabled = false;
  totp_backup_codes = none;
  updated_at = 0;
}

abbrev pub identities : Db → List User
identities db = map without_factor db.users

pub record Kept {A : Type 0} (m : M A) : Type 0 where
  pub holds : (db : Db) → identities (m db).1 ≡ identities db

module _ {A B : Type 0} where
  resume-Kept :
      (r : Result A) (f : A → M B) → ((a : A) → Kept {A = B} (f a)) → Kept {A = B} (resume r f)
  resume-Kept (ok a) f h = h a
  resume-Kept (err e) f h = record { holds = λ db. refl }

  handle-Kept :
      (r : Result A) (f : A → M B) (g : Error → M B)
      → ((a : A) → Kept {A = B} (f a))
      → ((e : Error) → Kept {A = B} (g e))
      → Kept {A = B} (handle r f g)
  handle-Kept (ok a) f g h k = h a
  handle-Kept (err e) f g h k = k e

  pub bind-Kept :
      (m : M A) (f : A → M B)
      → Kept {A = A} m
      → ((a : A) → Kept {A = B} (f a))
      → Kept {A = B} (m >>= f)
  bind-Kept m f h k = record {
    holds = λ db. (resume-Kept (m db).0 f k).holds (m db).1 ∙ h.holds db;
  }

  pub attempt-Kept :
      (m : M A) (f : A → M B) (g : Error → M B)
      → Kept {A = A} m
      → ((a : A) → Kept {A = B} (f a))
      → ((e : Error) → Kept {A = B} (g e))
      → Kept {A = B} (attempt m f g)
  attempt-Kept m f g h k l = record {
    holds = λ db. (handle-Kept (m db).0 f g k l).holds (m db).1 ∙ h.holds db;
  }

pub if-Kept :
    {A : Type 0} (b : Bool) (m n : M A)
    → Kept {A = A} m
    → Kept {A = A} n
    → Kept {A = A} (if b then m else n)
if-Kept {A} b m n h k = of_if {A = M A} (λ r. Kept {A = A} r) b m n h k

pub query-Kept : {A : Type 0} (e : Env) (op : Op) (f : Db → A) → Kept {A = A} (query e op f)
query-Kept {A} e op f = record {
  holds = λ db.
      of_if {A = Result A × Db} (λ r. identities r.1 ≡ identities db) (e.fault op) _ _ refl refl;
}

pub query_row-Kept :
    {A : Type 0} (e : Env) (op : Op) (f : Db → Result A) → Kept {A = A} (query_row e op f)
query_row-Kept {A} e op f = record {
  holds = λ db.
      of_if {A = Result A × Db} (λ r. identities r.1 ≡ identities db) (e.fault op) _ _ refl refl;
}

update-identities :
    (p : User → Bool) (f : User → User) (us : List User)
    → ((u : User) → without_factor (f u) ≡ without_factor u)
    → map without_factor (update_rows p f us) ≡ map without_factor us
unfolding update_rows
update-identities p f [] h = refl
update-identities p f (u ∷ us) h = elim (Bool-cases (p u)) [
  | inl chosen ↦ rw (chosen, h u, update-identities p f us h)
  | inr other ↦ rw (other, update-identities p f us h)
]

pub update-Kept :
    (e : Env) (op : Op) (id : ℕ) (f : User → User)
    → ((u : User) → without_factor (f u) ≡ without_factor u)
    → Kept {A = Unit {0}} (update_user_row e op id f)
update-Kept e op id f h = record {
  holds = λ db.
      of_if {A = Result (Unit {0}) × Db} (λ r. identities r.1 ≡ identities db) (e.fault op) _ _ refl
        (update-identities (has_id id) f db.users h);
}

-- A statement on another table.
pub exec-Kept :
    (e : Env) (op : Op) (f : Db → Db)
    → ((db : Db) → (f db).users ≡ db.users)
    → Kept {A = Unit {0}} (exec e op f)
exec-Kept e op f h = record {
  holds = λ db.
      of_if {A = Result (Unit {0}) × Db} (λ r. identities r.1 ≡ identities db) (e.fault op) _ _ refl
        (ap (map without_factor) (h db));
}

-- A call that writes nothing.
pub reads-Kept : {A : Type 0} (m : M A) → ((db : Db) → (m db).1 ≡ db) → Kept {A = A} m
reads-Kept m h = record { holds = λ db. ap identities (h db) }

pub pure-Kept : {A : Type 0} (a : A) → Kept {A = A} (pure a)
pure-Kept a = record { holds = λ db. refl }

pub fail-Kept : {A : Type 0} (error : Error) → Kept {A = A} (fail {A = A} error)
fail-Kept error = record { holds = λ db. refl }

pub of_result-Kept : {A : Type 0} (r : Result A) → Kept {A = A} (of_result r)
of_result-Kept r = record { holds = λ db. refl }

pub ignore-Kept : {A : Type 0} (m : M A) → Kept {A = A} m → Kept {A = Unit {0}} (ignore m)
ignore-Kept m h = record { holds = h.holds }
