-- ===== src/Suspension/Frames.antt =====
-- What `enforce` and `lift` of internal/svc/suspend.go leave of the database: the accounts, the
-- sessions, and the records of what suspending other accounts changed.
use aegis_hosting_control_pa.Base.{
  of_if, String, ℕ, Bool, true, false, List, [], ◌∷◌, ◌++◌, ◌==◌, ◌≡◌, refl, ◌∙◌, arith, Option,
  none, some, any,
}
use aegis_hosting_control_pa.Base.Rows.{any-drop_rows, any-keep, any-append}
use aegis_hosting_control_pa.Env.{Env, Op}
use aegis_hosting_control_pa.Store.Schema.{
  User, Db, Session, SuspensionAction, SuspendKind, Domain, Container, Mailbox, mailbox, container,
}
use aegis_hosting_control_pa.Store.Result.{Result, ok, err}
use aegis_hosting_control_pa.Store.Sessions.{delete_user_sessions}
use aegis_hosting_control_pa.Store.Suspension.{
  record_suspension_action, set_mailbox_enabled, clear_suspension_actions, get_mail_domain,
  is_action,
}
use aegis_hosting_control_pa.Suspension.Host.{Host, Out, Call, run, reply}
use aegis_hosting_control_pa.Suspension.Enforce.{
  is_running, enforce, stop_containers, stop_container, stop_known, disable_mailbox,
  disable_mailboxes, visit_domains, boxes_of, disable_recorded,
}
use aegis_hosting_control_pa.Suspension.Lift.{lift, enable_mailboxes}

abbrev pub has_sessions : ℕ → Db → Bool
has_sessions k db = any (λ (s : Session). s.user_id == k) db.sessions

abbrev pub has_actions : ℕ → Db → Bool
has_actions k db = any (λ (a : SuspensionAction). a.user_id == k) db.suspension_actions

-- A step for the account id changes no account, opens no session, and records nothing for another
-- account.
pub record Frame (id : ℕ) (before after : Db) : Type 0 where
  pub same_users : after.users ≡ before.users
  pub no_session : (k : ℕ) → has_sessions k before ≡ false → has_sessions k after ≡ false
  pub no_action :
      (k : ℕ) → (k == id) ≡ false → has_actions k before ≡ false → has_actions k after ≡ false

pub Frame-refl : (id : ℕ) (db : Db) → Frame id db db
Frame-refl id db = record { same_users = refl; no_session = λ k h. h; no_action = λ k other h. h }

pub Frame-trans : {id : ℕ} {a b c : Db} → Frame id a b → Frame id b c → Frame id a c
Frame-trans f g = record {
  same_users = g.same_users ∙ f.same_users;
  no_session = λ k h. g.no_session k (f.no_session k h);
  no_action = λ k other h. g.no_action k other (f.no_action k other h);
}

other_action :
    (id k : ℕ) (kind : SuspendKind) (ref : ℕ) (rows : List SuspensionAction)
    → (k == id) ≡ false
    → any (λ (a : SuspensionAction). a.user_id == k) rows ≡ false
    → any
        (λ (a : SuspensionAction). a.user_id == k)
        (rows ++ record { user_id = id; kind = kind; ref = ref } ∷ [])
      ≡ false
other_action id k kind ref rows other h =
    any-append (λ (a : SuspensionAction). a.user_id == k) rows
      (record { user_id = id; kind = kind; ref = ref }) h (ground (arith, other))

record-Frame :
    (e : Env) (id : ℕ) (kind : SuspendKind) (ref : ℕ) (db : Db)
    → Frame id db (record_suspension_action e id kind ref db).1
unfolding record_suspension_action
record-Frame e id kind ref db =
    of_if {A = Result (Unit {0}) × Db} (λ r. Frame id db r.1)
      (e.fault (Op.record_suspension_action ref)) _ _ (Frame-refl id db)
      (of_if {A = Db} (Frame id db) (any (is_action id kind ref) db.suspension_actions) _ _
        (Frame-refl id db)
        (record {
          same_users = refl;
          no_session = λ k h. h;
          no_action = λ k other h. other_action id k kind ref db.suspension_actions other h;
        }))

switch-Frame :
    (e : Env) (uid id : ℕ) (b : Bool) (db : Db) → Frame uid db (set_mailbox_enabled e id b db).1
unfolding set_mailbox_enabled
switch-Frame e uid id b db =
    of_if {A = Result (Unit {0}) × Db} (λ r. Frame uid db r.1) (e.fault (Op.set_mailbox_enabled id))
      _ _ (Frame-refl uid db)
      (record { same_users = refl; no_session = λ k h. h; no_action = λ k other h. h })

pub sessions-Frame : (e : Env) (id : ℕ) (db : Db) → Frame id db (delete_user_sessions e id db).1
unfolding delete_user_sessions
sessions-Frame e id db =
    of_if {A = Result (Unit {0}) × Db} (λ r. Frame id db r.1) (e.fault Op.delete_user_sessions) _ _
      (Frame-refl id db)
      (record {
        same_users = refl;
        no_session = λ k h. any-keep _ _ db.sessions h;
        no_action = λ k other h. h;
      })

clear-Frame : (e : Env) (id : ℕ) (db : Db) → Frame id db (clear_suspension_actions e id db).1
unfolding clear_suspension_actions
clear-Frame e id db =
    of_if {A = Result (Unit {0}) × Db} (λ r. Frame id db r.1) (e.fault Op.clear_suspension_actions)
      _ _ (Frame-refl id db)
      (record {
        same_users = refl;
        no_session = λ k h. h;
        no_action = λ k other h. any-keep _ _ db.suspension_actions h;
      })

module _ (e : Env) (u : User) where
  known-Frame :
      (h : Host) (c : Container) (running : Bool) (s : Db × Out)
      → Frame u.id s.0 (stop_known h e u c running s).0
  known-Frame h c true (db, out) = record-Frame e u.id container c.id db
  known-Frame h c false (db, out) = Frame-refl u.id db

  container-Frame :
      (h : Host) (c : Container) (o : Option String) (s : Db × Out)
      → Frame u.id s.0 (stop_container h e u c o s).0
  container-Frame h c none s = Frame-refl u.id s.0
  container-Frame h c (some text) s = known-Frame h c (is_running (some text)) s

  containers-Frame :
      (h : Host) (cs : List Container) (s : Db × Out)
      → Frame u.id s.0 (stop_containers h e u cs s).0
  unfolding stop_containers
  containers-Frame h [] s = Frame-refl u.id s.0
  containers-Frame h (c ∷ cs) (db, out) =
      Frame-trans
        (container-Frame h c (reply h (Call.inspect c.id) out) (db, run h (Call.inspect c.id) out))
        (containers-Frame h cs _)

  recorded-Frame :
      (b : Mailbox) (r : Result (Unit {0})) (s : Db × Out)
      → Frame u.id s.0 (disable_recorded e b r s).0
  recorded-Frame b (err _) (db, out) = Frame-refl u.id db
  recorded-Frame b (ok _) (db, out) = switch-Frame e u.id b.id false db

  mailbox-Frame : (b : Mailbox) (s : Db × Out) → Frame u.id s.0 (disable_mailbox e u b s).0
  unfolding disable_mailbox
  mailbox-Frame b (db, out) =
      of_if (λ (s : Db × Out). Frame u.id db s.0) b.enabled _ (db, out)
        (Frame-trans (record-Frame e u.id mailbox b.id db)
          (recorded-Frame b (record_suspension_action e u.id mailbox b.id db).0 _))
        (Frame-refl u.id db)

  mailboxes-Frame :
      (bs : List Mailbox) (s : Db × Out) → Frame u.id s.0 (disable_mailboxes e u bs s).0
  unfolding disable_mailboxes
  mailboxes-Frame [] s = Frame-refl u.id s.0
  mailboxes-Frame (b ∷ bs) s =
      Frame-trans (mailbox-Frame b s) (mailboxes-Frame bs (disable_mailbox e u b s))

  visit-Frame : (doms : List Domain) (s : Db × Out) → Frame u.id s.0 (visit_domains e u doms s).0
  unfolding visit_domains
  visit-Frame [] s = Frame-refl u.id s.0
  visit-Frame (d ∷ doms) s =
      Frame-trans (mailboxes-Frame (boxes_of e (get_mail_domain e d.id s.0).0 s.0) s)
        (visit-Frame doms _)

  -- Everything behind the deletion of the sessions.
  rest-Frame :
      (h : Host) (s : Db × Out) → Frame u.id (delete_user_sessions e u.id s.0).1 (enforce h e u s).0
  unfolding enforce
  rest-Frame h (db, out) = Frame-trans (containers-Frame h _ _) (visit-Frame _ _)

  pub enforce-Frame : (h : Host) (s : Db × Out) → Frame u.id s.0 (enforce h e u s).0
  enforce-Frame h s = Frame-trans (sessions-Frame e u.id s.0) (rest-Frame h s)

  deleted :
      (db : Db)
      → e.fault Op.delete_user_sessions ≡ false
      → has_sessions u.id (delete_user_sessions e u.id db).1 ≡ false
  unfolding delete_user_sessions
  deleted db works = rw works (any-drop_rows _ db.sessions)

  -- An enforced account has no session left.
  pub enforce-cuts :
      (h : Host) (s : Db × Out)
      → e.fault Op.delete_user_sessions ≡ false
      → has_sessions u.id (enforce h e u s).0 ≡ false
  enforce-cuts h s works = (rest-Frame h s).no_session u.id (deleted s.0 works)

  enable-Frame : (ids : List ℕ) (s : Db × Out) → Frame u.id s.0 (enable_mailboxes e ids s).0
  unfolding enable_mailboxes
  enable-Frame [] s = Frame-refl u.id s.0
  enable-Frame (id ∷ ids) (db, out) =
      Frame-trans (switch-Frame e u.id id true db) (enable-Frame ids _)

  pub lift-Frame : (h : Host) (s : Db × Out) → Frame u.id s.0 (lift h e u s).0
  unfolding lift
  lift-Frame h (db, out) = Frame-trans (enable-Frame _ _) (clear-Frame e u.id _)

  -- Nothing stays recorded of an account that is lifted.
  pub lift-frees :
      (h : Host) (s : Db × Out)
      → e.fault Op.clear_suspension_actions ≡ false
      → has_actions u.id (lift h e u s).0 ≡ false
  unfolding lift clear_suspension_actions
  lift-frees h (db, out) works = rw works (any-drop_rows _ _)

  pub enforce-users : (h : Host) (s : Db × Out) → (enforce h e u s).0.users ≡ s.0.users
  enforce-users h s = (enforce-Frame h s).same_users

  pub lift-users : (h : Host) (s : Db × Out) → (lift h e u s).0.users ≡ s.0.users
  lift-users h s = (lift-Frame h s).same_users

pub sessions-users :
    (e : Env) (id : ℕ) (db : Db) → (delete_user_sessions e id db).1.users ≡ db.users
sessions-users e id db = (sessions-Frame e id db).same_users
