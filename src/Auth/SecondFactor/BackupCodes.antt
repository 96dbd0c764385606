-- ===== src/Auth/SecondFactor/BackupCodes.antt =====
-- A backup code is spent once.
use aegis_hosting_control_pa.Base.{
  ℕ, ◌+◌, String, true, false, ◌≡◌, refl, some, none, first, List, [], ◌∷◌, ◌++◌, arith, Bool-cases,
  Option-cases, inl, inr, trim_space, count_rows, ap,
}
use aegis_hosting_control_pa.Base.Rows.{first-update_rows}
use aegis_hosting_control_pa.Env.{Env, Op}
use aegis_hosting_control_pa.Store.Schema.{User, Db}
use aegis_hosting_control_pa.Store.Result.{ok}
use aegis_hosting_control_pa.Store.Users.{has_id, set_totp_backup_codes, seconds}
use aegis_hosting_control_pa.Auth.Manager.{Manager, check_password}
use aegis_hosting_control_pa.Auth.SecondFactor.{consume_backup_code, spend_code}

module _ (m : Manager) (code : String) where
  -- How many of the stored hashes the code matches.
  abbrev pub uses : List String → ℕ
  uses hashes = count_rows (λ h. check_password m h code) hashes

  -- The list loses exactly one hash, the first that the code matches, and keeps the order of the rest.
  pub record IsSpent (hashes rest : List String) : Type 0 where
    pub before : List String
    pub spent : String
    pub after : List String
    pub whole : hashes ≡ before ++ spent ∷ after
    pub left : rest ≡ before ++ after
    pub matched : check_password m spent code ≡ true
    pub first_match : uses before ≡ 0

  pub spend_code-IsSpent :
      (hashes : List String) {rest : List String}
      → spend_code m code hashes ≡ some rest
      → IsSpent hashes rest
  unfolding spend_code count_rows
  spend_code-IsSpent [] h = cc
  spend_code-IsSpent (h ∷ hashes) {rest} e = elim (Bool-cases (check_password m h code)) [
    | inl yes' ↦ record {
      before = [];
      spent = h;
      after = hashes;
      whole = refl;
      left = ground arith;
      matched = yes';
      first_match = refl;
    }
    | inr no' ↦ elim (Option-cases (spend_code m code hashes)) [
      | inl missing ↦ ground arith
      | inr (tail, found) ↦
          let i = spend_code-IsSpent hashes found in
          record {
            before = h ∷ i.before;
            spent = i.spent;
            after = i.after;
            whole = ap (λ l. h ∷ l) i.whole;
            left = ground (arith, i.left);
            matched = i.matched;
            first_match = ground (arith, i.first_match);
          }
    ]
  ]

  -- Each success uses up one of the hashes that the code matches.
  pub uses-spend_code :
      (hashes : List String) {rest : List String}
      → spend_code m code hashes ≡ some rest
      → uses hashes ≡ uses rest + 1
  unfolding spend_code count_rows
  uses-spend_code [] h = cc
  uses-spend_code (h ∷ hashes) {rest} e = elim (Option-cases (spend_code m code hashes)) [
    | inl missing ↦ ground arith
    | inr (tail, found) ↦ ground (arith, uses-spend_code hashes found)
  ]

  pub spend_code_of_no_uses :
      (hashes : List String) → uses hashes ≡ 0 → spend_code m code hashes ≡ none
  unfolding spend_code count_rows
  spend_code_of_no_uses [] h = refl
  spend_code_of_no_uses (x ∷ hashes) h = ground (arith, spend_code_of_no_uses hashes)

-- What a spent code leaves in the account's row.
pub record IsUsedUp (m : Manager) (u : User) (code : String) (db' : Db) : Type 0 where
  pub hashes : List String
  pub rest : List String
  pub row : User
  pub held : u.totp_backup_codes ≡ some hashes
  pub spent : IsSpent m code hashes rest
  pub stored : first (has_id u.id) db'.users ≡ some row
  pub left : row.totp_backup_codes ≡ some rest
  pub again :
      uses m code hashes ≡ 1
      → (raw : String) (db : Db) → trim_space raw ≡ code
      → consume_backup_code m row raw db ≡ (ok false, db)

consume_backup_code-stores :
    (m : Manager) (u : User) (raw : String) (db : Db) (hashes : List String) {db' : Db}
    → u.totp_backup_codes ≡ some hashes
    → consume_backup_code m u raw db ≡ (ok true, db')
    → (rest : List String) × (spend_code m (trim_space raw) hashes ≡ some rest)
      × (db' ≡ (set_totp_backup_codes m.env u.id rest db).1)
unfolding consume_backup_code
consume_backup_code-stores m u raw db hashes held h =
    elim (Option-cases (spend_code m (trim_space raw) hashes)) [
      | inl missing ↦ ground arith
      | inr (rest, found) ↦ (rest, found, ground arith)
    ]

consume_backup_code_again :
    (m : Manager) (row : User) (raw : String) (db : Db) (rest : List String)
    → row.totp_backup_codes ≡ some rest
    → uses m (trim_space raw) rest ≡ 0
    → consume_backup_code m row raw db ≡ (ok false, db)
unfolding consume_backup_code
consume_backup_code_again m row raw db rest held none_left =
    ground (arith, spend_code_of_no_uses m (trim_space raw) rest)

consume_backup_code-held :
    (m : Manager) (u : User) (raw : String) (db : Db) {db' : Db}
    → consume_backup_code m u raw db ≡ (ok true, db')
    → (hashes : List String) × (u.totp_backup_codes ≡ some hashes)
unfolding consume_backup_code
consume_backup_code-held m u raw db h = ground arith

stored_codes :
    (e : Env) (u : User) (rest : List String) (db : Db)
    → e.fault Op.set_totp_backup_codes ≡ false
    → first (has_id u.id) db.users ≡ some u
    → first (has_id u.id) (set_totp_backup_codes e u.id rest db).1.users
      ≡ some (record u { totp_backup_codes = some rest; updated_at = seconds e.now })
unfolding set_totp_backup_codes
stored_codes e u rest db works known = rw works (
    first-update_rows (has_id u.id)
      (λ row. record row { totp_backup_codes = some rest; updated_at = seconds e.now }) db.users u
      (λ y. refl) known)

-- A backup code that is accepted, where the write of the codes works and the account's row was as
-- the login read it, is gone from the stored row, which keeps the other hashes in their order;
-- and a code that matched only one hash is refused on that row from then on.
pub consume_backup_code-IsUsedUp :
    (m : Manager) (u : User) (raw : String) (db : Db) {db' : Db}
    → consume_backup_code m u raw db ≡ (ok true, db')
    → m.env.fault Op.set_totp_backup_codes ≡ false
    → first (has_id u.id) db.users ≡ some u
    → IsUsedUp m u (trim_space raw) db'
consume_backup_code-IsUsedUp m u raw db {db'} h works known =
    let (hashes, held) = consume_backup_code-held m u raw db h in
    let (rest, found, same_db) = consume_backup_code-stores m u raw db hashes held h in
    record {
      hashes = hashes;
      rest = rest;
      row = record u { totp_backup_codes = some rest; updated_at = seconds m.env.now };
      held = held;
      spent = spend_code-IsSpent m (trim_space raw) hashes found;
      stored = rw same_db (stored_codes m.env u rest db works known);
      left = refl;
      again = λ once raw' db2 same_code.
          consume_backup_code_again m
            (record u { totp_backup_codes = some rest; updated_at = seconds m.env.now }) raw' db2
            rest refl
            (rw same_code (omega (arith, uses-spend_code m (trim_space raw) hashes found)));
    }
