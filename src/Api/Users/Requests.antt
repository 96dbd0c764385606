-- ===== src/Api/Users/Requests.antt =====
-- The account handlers of internal/api/handlers_users.go together: no request of a caller reaches
-- further than the accounts that it manages.
use mathlib.Core.Path.{subst}
use aegis_hosting_control_pa.Base.{
  ℕ, String, Bool, false, Option, none, some, List, ◌&&◌, not, same, ltb, of_if, of_test, any, ◌≡◌,
  ◌∙◌, refl, sym, ap, arith,
}
use aegis_hosting_control_pa.Env.{Op}
use aegis_hosting_control_pa.Store.Schema.{User, Package, Db, role_admin, role_reseller, role_user}
use aegis_hosting_control_pa.Store.Result.{Result, ok, err}
use aegis_hosting_control_pa.Store.Users.{has_username, get_user_by_username, create_user}
use aegis_hosting_control_pa.Store.Sessions.{}
use aegis_hosting_control_pa.Suspension.Suspender.{State}
use aegis_hosting_control_pa.Api.Users.{
  Caller, Panel, env, Reply, CreateRequest, handle_users_list, handle_users_get,
  handle_users_create, with_hash, after_create, new_account, requested_role, is_ok, with_quotas,
}
use aegis_hosting_control_pa.Api.Users.Names.{valid_username, reserved_account_name, byte_length}
use aegis_hosting_control_pa.Api.Users.Edit.{
  UpdateRequest, ResetRequest, handle_users_update, handle_users_reset_password,
  handle_users_suspend,
}
use aegis_hosting_control_pa.Api.Users.Scope.{IsWithin, IsWithin-refl, append-IsWithin}
use aegis_hosting_control_pa.Api.Users.Steps.{}
use aegis_hosting_control_pa.Api.Users.Effects.{
  audit-users, Ends, managed-Ends, suspend_managed-Ends, reset_managed-Ends,
}
use aegis_hosting_control_pa.Api.Users.Edits.{update_managed-Ends}

pub data Request : Type 0 where
  list : Request
  get : Option ℕ → Request
  create : Option CreateRequest → Request
  update : Option ℕ → Option UpdateRequest → Request
  reset_password : Option ℕ → Option ResetRequest → Request
  suspension : Option ℕ → Bool → Request

abbrev pub serve : Panel → Caller → Request → State → Reply × State
serve p c list = handle_users_list p c
serve p c (get id) = handle_users_get p c id
serve p c (create body) = handle_users_create p c body
serve p c (update id body) = handle_users_update p c id body
serve p c (reset_password id body) = handle_users_reset_password p c id body
serve p c (suspension id lifts) = handle_users_suspend p c id lifts

module _ (p : Panel) (c : Caller)
    (ftp_keeps : (u : User) (db : Db) → (p.create_ftp u db).users ≡ db.users) where
  quotas-role : (r : Result Package) (u : User) → (with_quotas r u).role ≡ u.role
  quotas-role (ok k) u = refl
  quotas-role (err _) u = refl

  new_account-role :
      (q : CreateRequest) (role hash : String) (db : Db)
      → (new_account p c q role hash db).role ≡ role
  new_account-role q role hash db =
      of_if {A = User} (λ u. u.role ≡ role) (ltb 0 _) _ _ (quotas-role _ _) refl

  after_create-Ends :
      {us : List User} (r : Result User) (db : Db) (s : State)
      → IsWithin c.actor us db.users
      → Ends p c us (after_create p c (r, db) s)
  after_create-Ends {us} (err _) db s within = within
  after_create-Ends {us} (ok u) db s within =
      subst (IsWithin c.actor us)
        (sym (
          audit-users p c "user.create" u.username (record s { db = p.create_ftp u db })
          ∙ ftp_keeps u db))
        within

  -- The row that is written has the role that was asked for.
  create_user-IsWithin :
      (u : User) (db : Db)
      → (same c.actor.role role_admin ≡ false → same u.role role_admin ≡ false)
      → IsWithin c.actor db.users (create_user (env p) u db).1.users
  unfolding create_user
  create_user-IsWithin u db role =
      let P : Result User × Db → Type 0 = λ r. IsWithin c.actor db.users r.1.users in
      of_if P ((env p).fault Op.create_user) _ _ (IsWithin-refl c.actor db.users) (
        of_if P (any (has_username u.username) db.users) _ _ (IsWithin-refl c.actor db.users)
          (append-IsWithin c.actor db.users _ role))

  with_hash-Ends :
      (q : CreateRequest) (role : String) (hash : Option String) (s : State)
      → (same c.actor.role role_admin ≡ false → same role role_admin ≡ false)
      → Ends p c s.db.users (with_hash p c q role hash s)
  with_hash-Ends q role none s h = IsWithin-refl c.actor s.db.users
  with_hash-Ends q role (some hash) s h =
      let u = new_account p c q role hash s.db in
      of_if {A = Reply × State} (Ends p c s.db.users) (p.provision u.username q.password) _ _
        (after_create-Ends _ _ s (
          create_user-IsWithin u s.db
            (λ n. ap (λ x. same x role_admin) (new_account-role q role hash s.db) ∙ h n)))
        (IsWithin-refl c.actor s.db.users)

  create-Ends :
      (body : Option CreateRequest) (s : State)
      → Ends p c s.db.users (handle_users_create p c body s)
  unfolding handle_users_create
  create-Ends none s = IsWithin-refl c.actor s.db.users
  create-Ends (some q) s =
      let P : Reply × State → Type 0 = Ends p c s.db.users in
      let stay = IsWithin-refl c.actor s.db.users in
      let role = requested_role q in
      of_if P (not (valid_username q.username)) _ _ stay (
        of_if P (reserved_account_name q.username) _ _ stay (
          of_if P (ltb (byte_length q.password) 8) _ _ stay (
            of_if P
              (not (same role role_user)
                && not (same role role_reseller)
                && not (same role role_admin))
              _ _ stay
              (of_if P (same c.actor.role role_reseller && not (same role role_user)) _ _ stay (
                of_test P (not (same c.actor.role role_admin) && same role role_admin) _ _
                  (λ _. stay)
                  (λ admin.
                    of_if P (is_ok (get_user_by_username (env p) q.username s.db).0) _ _ stay (
                      with_hash-Ends q role ((env p).bcrypt_hash q.password) s
                        (λ n. ground arith))))))))

  -- Whatever a caller asks of the account handlers, the rows of accounts that it may not manage stay
  -- as they were, and if it is no administrator, every administrator after the request was one before;
  -- on every branch, errors included, if creating an FTP account does not write the accounts.
  pub serve-IsWithin :
      (r : Request) (s : State) → IsWithin c.actor s.db.users (serve p c r s).1.db.users
  unfolding handle_users_list handle_users_get handle_users_update handle_users_reset_password
      handle_users_suspend
  serve-IsWithin list s = IsWithin-refl c.actor s.db.users
  serve-IsWithin (get id) s = managed-Ends p c id _ s (λ u reaches same_row. reaches.within)
  serve-IsWithin (create body) s = create-Ends body s
  serve-IsWithin (update id body) s =
      managed-Ends p c id _ s
        (λ u reaches same_row. update_managed-Ends p c body u s reaches same_row)
  serve-IsWithin (reset_password id body) s =
      managed-Ends p c id _ s (λ u reaches same_row. reset_managed-Ends p c body u s reaches)
  serve-IsWithin (suspension id lifts) s =
      managed-Ends p c id _ s
        (λ u reaches same_row. suspend_managed-Ends p c lifts p.suspender u s reaches)
