-- ===== src/Auth/Login/Guessing.antt =====
-- Wrong guesses of a password at different times: what `Login` answers, and where they end.
use mathlib.Core.Path.{subst}
use aegis_hosting_control_pa.Base.{
  sym, ◌∙◌, ◌⊎◌, ◌<◌, le→leb, eq_refl, ℕ, ◌+◌, ◌-◌, ◌*◌, ◌≤◌, String, Bool, true, false, ◌&&◌, not,
  leb, same, ◌≡◌, some, first, List, [], ◌∷◌, arith, All, Bool-cases, inl, inr, count_rows,
}
use aegis_hosting_control_pa.Base.Rows.{count_rows_mono, count_rows-append}
use aegis_hosting_control_pa.Env.{Op}
use aegis_hosting_control_pa.Store.Schema.{User, Db, LoginAttempt}
use aegis_hosting_control_pa.Store.Result.{Result, err, locked_out, invalid_credentials}
use aegis_hosting_control_pa.Store.Users.{get_user_by_username, has_username, seconds}
use aegis_hosting_control_pa.Store.Sessions.{record_login_attempt, is_failure}
use aegis_hosting_control_pa.Auth.Lockout.{lockout_window, lockout_threshold}
use aegis_hosting_control_pa.Auth.Lockout.Limits.{is_locked_out, is_locked_out_of_failures}
use aegis_hosting_control_pa.Auth.Manager.{Manager, LoginReply, check_password}
use aegis_hosting_control_pa.Auth.Login.{login, login_user, login_as}
use aegis_hosting_control_pa.Auth.Login.Sound.{login_of_locked_out, login_of_open}

-- A guess: the password, and the manager with its clock at that moment.
pub record Guess : Type 0 where
  pub manager : Manager
  pub password : String

-- Whether a reply tells the caller that the password is wrong.
abbrev pub tells : Result LoginReply → ℕ
tells (err invalid_credentials) = 1
tells _ = 0

-- The database that a row of guesses leaves, and how many of the replies told that the password is
-- wrong.
pub guess_all : String → String → List Guess → Db → Db
guess_all username ip [] db = db
guess_all username ip (g ∷ guesses) db =
    guess_all username ip guesses (login g.manager username g.password ip db).1

pub told : String → String → List Guess → Db → ℕ
told username ip [] db = 0
told username ip (g ∷ guesses) db =
    let r = login g.manager username g.password ip db in tells r.0 + told username ip guesses r.1

-- An attempt of the window that begins at a second: a failure from then on.
abbrev is_late : String → String → ℕ → LoginAttempt → Bool
is_late username ip start a =
    same a.username username && same a.ip ip && not a.success && leb start a.created_at

-- The clock is in the fifteen minutes that begin at a second of 1970 or later.
pub record IsWithin (start : ℕ) (m : Manager) : Type 0 where
  pub from_start : start ≤ seconds m.env.now
  pub before_end : m.env.now < (start + 15 * 60) * 1_000_000_000

reaches_back :
    (start now : ℕ)
    → 1 ≤ start
    → now < (start + 15 * 60) * 1_000_000_000
    → seconds (now - lockout_window) < start
reaches_back start now h k = omega arith

module _ (username ip : String) (u : User) (start : ℕ) (positive : 1 ≤ start) where
  abbrev late : Db → ℕ
  late db = count_rows (is_late username ip start) db.login_attempts

  -- The driver answers the statements of a refusal, the password is wrong, and the time is within
  -- the window.
  pub record IsGuess (g : Guess) : Type 0 where
    pub wrong : check_password g.manager u.password_hash g.password ≡ false
    pub finds : g.manager.env.fault Op.get_user_by_username ≡ false
    pub records : g.manager.env.fault Op.record_login_attempt ≡ false
    pub counts : g.manager.env.fault Op.count_recent_failures ≡ false
    pub within : IsWithin start g.manager

  is_late-failure :
      (since : ℕ) (a : LoginAttempt)
      → seconds since < start
      → is_late username ip start a ≡ true
      → is_failure username ip since a ≡ true
  is_late-failure since a h k = ground arith

  count-late :
      (since : ℕ) (rows : List LoginAttempt)
      → seconds since < start
      → count_rows (is_late username ip start) rows ≤ count_rows (is_failure username ip since) rows
  count-late since rows h =
      count_rows_mono (is_late username ip start) (is_failure username ip since) rows
        (λ a late'. is_late-failure since a h late')

  wrong_guess :
      (g : Guess) (db : Db)
      → IsGuess g
      → first (has_username username) db.users ≡ some u
      → login_user g.manager username g.password ip db
        ≡ (err invalid_credentials, (record_login_attempt g.manager.env username ip false db).1)
  unfolding login_user get_user_by_username login_as
  wrong_guess g db i known = rw (i.finds, known, i.wrong)

  late-record :
      (g : Guess) (db : Db)
      → IsGuess g
      → late (record_login_attempt g.manager.env username ip false db).1 ≡ late db + 1
  unfolding record_login_attempt
  late-record g db i = rw (
    i.records,
    count_rows-append,
    eq_refl username,
    eq_refl ip,
    le→leb start (seconds g.manager.env.now) i.within.from_start,
  )

  record-known :
      (g : Guess) (db : Db)
      → IsGuess g
      → first (has_username username) db.users ≡ some u
      → first
          (has_username username)
          (record_login_attempt g.manager.env username ip false db).1.users
        ≡ some u
  unfolding record_login_attempt
  record-known g db i known = rw i.records known

  locked_of_late :
      (m : Manager) (db : Db)
      → m.env.fault Op.count_recent_failures ≡ false
      → IsWithin start m
      → lockout_threshold ≤ late db
      → is_locked_out m.env username ip db ≡ true
  locked_of_late m db counts within h = is_locked_out_of_failures m.env username ip db counts (
      omega (
        arith,
        count-late (m.env.now - lockout_window) db.login_attempts
            (reaches_back start m.env.now positive within.before_end),
      ))

  -- What a reply r, and the guesses behind it, add to the record and to the answers.
  abbrev Counts : List Guess → Db → Result LoginReply × Db → Type 0
  Counts guesses db r =
      (late (guess_all username ip guesses r.1)
        ≡ late db + (tells r.0 + told username ip guesses r.1))
      × (tells r.0 + told username ip guesses r.1 ≤ lockout_threshold - late db)

  locked-Counts :
      (guesses : List Guess) (db : Db)
      → (late (guess_all username ip guesses db) ≡ late db + told username ip guesses db)
        × (told username ip guesses db ≤ lockout_threshold - late db)
      → Counts guesses db (err locked_out, db)
  locked-Counts guesses db (grows, few) = (omega (arith, grows), omega (arith, few))

  wrong-Counts :
      (guesses : List Guess) (db db' : Db)
      → late db' ≡ late db + 1
      → late db < lockout_threshold
      → (late (guess_all username ip guesses db') ≡ late db' + told username ip guesses db')
        × (told username ip guesses db' ≤ lockout_threshold - late db')
      → Counts guesses db (err invalid_credentials, db')
  wrong-Counts guesses db db' more below (grows, few) =
      (omega (arith, grows, more), omega (arith, few, more))

  few_late :
      (m : Manager) (db : Db)
      → m.env.fault Op.count_recent_failures ≡ false
      → IsWithin start m
      → is_locked_out m.env username ip db ≡ false
      → late db < lockout_threshold
  few_late m db counts within allowed = elim (Bool-cases (leb lockout_threshold (late db))) [
    | inl many ↦ cc (locked_of_late m db counts within (ground (arith, many)), allowed)
    | inr few ↦ ground (arith, few)
  ]

  -- Each answer stands in the record, and none comes after the fifth failure.
  guesses-late :
      (guesses : List Guess) (db : Db)
      → first (has_username username) db.users ≡ some u
      → All IsGuess guesses
      → (late (guess_all username ip guesses db) ≡ late db + told username ip guesses db)
        × (told username ip guesses db ≤ lockout_threshold - late db)
  unfolding guess_all told
  guesses-late [] db known i = (omega arith, omega arith)
  guesses-late (g ∷ guesses) db known (i, is) =
      elim (Bool-cases (is_locked_out g.manager.env username ip db)) [
        | inl locked ↦
            subst (Counts guesses db)
              (sym (login_of_locked_out g.manager username g.password ip db locked))
              (locked-Counts guesses db (guesses-late guesses db known is))
        | inr allowed ↦
            let db' = (record_login_attempt g.manager.env username ip false db).1 in
            subst (Counts guesses db)
              (sym (
                login_of_open g.manager username g.password ip db allowed
                ∙ wrong_guess g db i known))
              (wrong-Counts guesses db db' (late-record g db i)
                (few_late g.manager db i.counts i.within allowed)
                (guesses-late guesses db' (record-known g db i known) is))
      ]

  -- Wrong guesses of an account's password from one address, at any times within fifteen minutes, are
  -- told fewer than five times that the password is wrong; or they are told so just five times, and
  -- then the next login from that address within the same fifteen minutes is refused, also with the
  -- right password, and leaves the database as it is. Whatever attempts the database held before;
  -- the account is one that the database knows, the fifteen minutes begin after the first second of
  -- 1970, and the driver finds accounts, records attempts and counts failures.
  pub guessing_ends :
      (guesses : List Guess) (m : Manager) (password : String) (db : Db)
      → first (has_username username) db.users ≡ some u
      → All IsGuess guesses
      → m.env.fault Op.count_recent_failures ≡ false
      → IsWithin start m
      → (told username ip guesses db < 5)
        ⊎ ((told username ip guesses db ≡ 5)
            × (login m username password ip (guess_all username ip guesses db)
                ≡ (err locked_out, guess_all username ip guesses db)))
  guessing_ends guesses m password db known i counts within =
      let (grows, few) = guesses-late guesses db known i in
      let most : told username ip guesses db ≤ 5 = omega (arith, few) in
      elim (Bool-cases (leb 5 (told username ip guesses db))) [
        | inr fewer ↦ inl (ground (arith, fewer))
        | inl five ↦
            let exact : told username ip guesses db ≡ 5 = ground (arith, most, five) in
            inr (
              exact,
              login_of_locked_out m username password ip (guess_all username ip guesses db) (
                  locked_of_late m (guess_all username ip guesses db) counts within
                    (omega (arith, grows, exact))),
            )
      ]
