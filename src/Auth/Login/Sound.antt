-- ===== src/Auth/Login/Sound.antt =====
-- What a login has checked when it returns a session or a challenge.
use aegis_hosting_control_pa.Base.{
  String, true, false, ◌≡◌, same, arith, some, first, Bool-cases, Option-cases, inl, inr,
}
use aegis_hosting_control_pa.Env.{Op}
use aegis_hosting_control_pa.Store.Schema.{User, Db, status_suspended}
use aegis_hosting_control_pa.Store.Result.{ok, err, locked_out}
use aegis_hosting_control_pa.Store.Users.{get_user_by_username, has_username}
use aegis_hosting_control_pa.Auth.Lockout.Limits.{is_locked_out, locked_out?-limits}
use aegis_hosting_control_pa.Auth.Manager.{Manager, LoginReply, check_password}
use aegis_hosting_control_pa.Auth.Login.{login, login_user, login_as}

-- The checks of `Login`, in one place.
pub record IsAdmitted (m : Manager) (username password ip : String) (db : Db) (u : User)
    : Type 0 where
  pub allowed : is_locked_out m.env username ip db ≡ false
  pub known : first (has_username username) db.users ≡ some u
  pub correct : check_password m u.password_hash password ≡ true
  pub active : same u.status status_suspended ≡ false

module _ (m : Manager) (username password ip : String) (db : Db) where
  -- The lockout comes first, also for the right password, and nothing is written.
  pub login_of_locked_out :
      is_locked_out m.env username ip db ≡ true
      → login m username password ip db ≡ (err locked_out, db)
  unfolding login
  login_of_locked_out h = rw (locked_out?-limits, h)

  pub login_of_open :
      is_locked_out m.env username ip db ≡ false
      → login m username password ip db ≡ login_user m username password ip db
  unfolding login
  login_of_open h = rw (locked_out?-limits, h)

  login_as-checks :
      (u : User) {reply : LoginReply} {db' : Db}
      → login_as m u username password ip db ≡ (ok reply, db')
      → (check_password m u.password_hash password ≡ true)
        × (same u.status status_suspended ≡ false)
  unfolding login_as
  login_as-checks u h = ground arith

  login_user-checks :
      {reply : LoginReply} {db' : Db}
      → login_user m username password ip db ≡ (ok reply, db')
      → (u : User) × (first (has_username username) db.users ≡ some u)
        × (login_as m u username password ip db ≡ (ok reply, db'))
  unfolding login_user get_user_by_username
  login_user-checks h = elim (Bool-cases (m.env.fault Op.get_user_by_username)) [
    | inl failed ↦ cc (rw failed at h)
    | inr works ↦ elim (Option-cases (first (has_username username) db.users)) [
      | inl missing ↦ cc (rw (works, missing) at h)
      | inr (u, found) ↦ (u, found, rw (works, found) at h)
    ]
  ]

  -- A login that returns a session or a challenge was not locked out, and named an account of the
  -- database by its password, which is not suspended.
  pub login-IsAdmitted :
      {reply : LoginReply} {db' : Db}
      → login m username password ip db ≡ (ok reply, db')
      → (u : User) × IsAdmitted m username password ip db u
  login-IsAdmitted h = elim (Bool-cases (is_locked_out m.env username ip db)) [
    | inl locked ↦ cc (login_of_locked_out locked)
    | inr allowed ↦
        let (u, found, run) = login_user-checks (rw (login_of_open allowed) at h) in
        let (right, active) = login_as-checks u run in
        (u, record { allowed = allowed; known = found; correct = right; active = active })
  ]
