-- ===== src/Suspension/Restore.antt =====
-- Lifting a suspension gives back the mailboxes as they were.
use aegis_hosting_control_pa.Base.{
  String, trim_space, same, ==_refl, ℕ, true, false, ◌≡◌, refl, List, [], ◌∷◌, ◌==◌, ◌||◌, any,
  update_rows, All, arith, Bool-cases, inl, inr, Option, none, some,
}
use aegis_hosting_control_pa.Env.{Env, Op}
use aegis_hosting_control_pa.Store.Schema.{
  User, Db, Mailbox, Domain, DomainChild, Container, mailbox, container,
}
use aegis_hosting_control_pa.Store.Result.{Result, ok, err}
use aegis_hosting_control_pa.Store.Sessions.{delete_user_sessions}
use aegis_hosting_control_pa.Store.Suspension.{
  is_action, record_suspension_action, set_mailbox_enabled, list_mailboxes, get_mail_domain,
}
use aegis_hosting_control_pa.Suspension.Host.{Host, Out, reply, run, Call}
use aegis_hosting_control_pa.Suspension.Masks.{
  backed_by_both, IsMasked-change, is_recorded-again, is_recorded, IsMasked, HaveUniqueIds,
  WasEnabled, update-masked, WasEnabled-keep, any-append,
}
use aegis_hosting_control_pa.Suspension.Enforce.{
  enforce, stop_containers, stop_container, disable_mailbox, disable_mailboxes, visit_domains,
  boxes_of,
}

-- The driver answers the statements that switch mailboxes.
pub record Works (e : Env) : Type 0 where
  pub records : (id : ℕ) → e.fault (Op.record_suspension_action id) ≡ false
  pub switches : (id : ℕ) → e.fault (Op.set_mailbox_enabled id) ≡ false

module _ (u : User) (orig : List Mailbox) where
  abbrev pub IsSuspended : Db → Type 0
  IsSuspended db = IsMasked orig (is_recorded u.id db.suspension_actions) db.mailboxes

  -- Recording a container or deleting a session changes neither side.
  record-container :
      (e : Env) (id : ℕ) (db : Db)
      → IsSuspended db
      → IsSuspended (record_suspension_action e u.id container id db).1
  unfolding record_suspension_action
  record-container e id db k = elim (Bool-cases (e.fault (Op.record_suspension_action id))) [
    | inl failed ↦ rw failed k
    | inr works ↦ elim (Bool-cases (any (is_action u.id container id) db.suspension_actions)) [
      | inl old ↦ rw (works, old) k
      | inr new ↦
          rw (works, new)
            (IsMasked-change orig (is_recorded u.id db.suspension_actions) _ db.mailboxes
              (λ i. ground (
                arith,
                any-append (is_action u.id mailbox i) db.suspension_actions
                    (record { user_id = u.id; kind = container; ref = id }),
              ))
              k)
    ]
  ]

  stop_container-IsSuspended :
      (h : Host) (e : Env) (c : Container) (answer : Option String) (db : Db) (out : Out)
      → IsSuspended db
      → IsSuspended (stop_container h e u c answer (db, out)).0
  stop_container-IsSuspended h e c none db out k = k
  stop_container-IsSuspended h e c (some text) db out k =
      elim (Bool-cases (same (trim_space text) "true")) [
        | inl running ↦ rw running (record-container e c.id db k)
        | inr stopped ↦ rw stopped k
      ]

  stop_containers-IsSuspended :
      (h : Host) (e : Env) (cs : List Container) (s : Db × Out)
      → IsSuspended s.0
      → IsSuspended (stop_containers h e u cs s).0
  unfolding stop_containers
  stop_containers-IsSuspended h e [] s k = k
  stop_containers-IsSuspended h e (c ∷ cs) (db, out) k = stop_containers-IsSuspended h e cs _ (
      stop_container-IsSuspended h e c (reply h (Call.inspect c.id) out) db
        (run h (Call.inspect c.id) out) k)

  record-mailbox :
      (e : Env) (id : ℕ) (db : Db)
      → Works e
      → (k : ℕ)
      → is_recorded u.id (record_suspension_action e u.id mailbox id db).1.suspension_actions k
        ≡ (is_recorded u.id db.suspension_actions k || id == k)
  unfolding record_suspension_action
  record-mailbox e id db w k = elim (Bool-cases (is_recorded u.id db.suspension_actions id)) [
    | inl old ↦ rw (w.records id, old) (is_recorded-again u.id id k db.suspension_actions old)
    | inr new ↦ rw (w.records id, new, any-append) (ground (arith, ==_refl u.id))
  ]

  record-ok :
      (e : Env) (id : ℕ) (db : Db)
      → Works e
      → ((record_suspension_action e u.id mailbox id db).0 ≡ ok tt)
        × ((record_suspension_action e u.id mailbox id db).1.mailboxes ≡ db.mailboxes)
  unfolding record_suspension_action
  record-ok e id db w = rw (w.records id) (refl, ground arith)

  switch_off :
      (id : ℕ) (db db' : Db)
      → db'.mailboxes ≡ db.mailboxes
      → ((k : ℕ)
          → is_recorded u.id db'.suspension_actions k
            ≡ (is_recorded u.id db.suspension_actions k || id == k))
      → All (λ (c : Mailbox). (c.id == id) ≡ true → c.enabled ≡ true) orig
      → IsSuspended db
      → IsMasked orig
          (is_recorded u.id db'.suspension_actions)
          (update_rows (λ b. b.id == id) (λ b. record b { enabled = false }) db'.mailboxes)
  switch_off id db db' same_boxes recorded enabled k =
      IsMasked-change orig (λ i. is_recorded u.id db.suspension_actions i || id == i) _ _ recorded
        (record {
          shown =
              rw (same_boxes, k.shown)
                (update-masked (is_recorded u.id db.suspension_actions) id orig);
          backed = backed_by_both (is_recorded u.id db.suspension_actions) id orig k.backed enabled;
        })

  disable_mailbox-IsSuspended :
      (e : Env) (b : Mailbox) (s : Db × Out)
      → Works e
      → WasEnabled orig b
      → IsSuspended s.0
      → IsSuspended (disable_mailbox e u b s).0
  unfolding disable_mailbox set_mailbox_enabled
  disable_mailbox-IsSuspended e b (db, out) w was k = elim (Bool-cases b.enabled) [
    | inl on ↦
        let (recorded, kept) = record-ok e b.id db w in
        rw (on, recorded, w.switches b.id)
          (switch_off b.id db (record_suspension_action e u.id mailbox b.id db).1 kept
            (record-mailbox e b.id db w) (was on) k)
    | inr off ↦ rw off k
  ]

  disable_mailboxes-IsSuspended :
      (e : Env) (boxes : List Mailbox) (s : Db × Out)
      → Works e
      → All (WasEnabled orig) boxes
      → IsSuspended s.0
      → IsSuspended (disable_mailboxes e u boxes s).0
  unfolding disable_mailboxes
  disable_mailboxes-IsSuspended e [] s w was k = k
  disable_mailboxes-IsSuspended e (b ∷ boxes) s w (was, rest) k =
      disable_mailboxes-IsSuspended e boxes (disable_mailbox e u b s) w rest
        (disable_mailbox-IsSuspended e b s w was k)

  boxes_of-WasEnabled :
      (e : Env) (md : Result DomainChild) (db : Db)
      → HaveUniqueIds orig
      → IsSuspended db
      → All (WasEnabled orig) (boxes_of e md db)
  unfolding list_mailboxes
  boxes_of-WasEnabled e (err _) db unique k = tt
  boxes_of-WasEnabled e (ok md) db unique k = elim (Bool-cases (e.fault Op.list_mailboxes)) [
    | inl failed ↦ rw failed tt
    | inr works ↦
        rw (works, k.shown)
          (WasEnabled-keep (is_recorded u.id db.suspension_actions) (λ b. b.mail_domain_id == md.id)
            orig orig unique)
  ]

  visit_domains-IsSuspended :
      (e : Env) (doms : List Domain) (s : Db × Out)
      → Works e
      → HaveUniqueIds orig
      → IsSuspended s.0
      → IsSuspended (visit_domains e u doms s).0
  unfolding visit_domains
  visit_domains-IsSuspended e [] s w unique k = k
  visit_domains-IsSuspended e (d ∷ doms) s w unique k =
      let boxes = boxes_of e (get_mail_domain e d.id s.0).0 s.0 in
      visit_domains-IsSuspended e doms (disable_mailboxes e u boxes s) w unique (
        disable_mailboxes-IsSuspended e boxes s w
          (boxes_of-WasEnabled e (get_mail_domain e d.id s.0).0 s.0 unique k) k)

  delete_sessions-IsSuspended :
      (e : Env) (db : Db) → IsSuspended db → IsSuspended (delete_user_sessions e u.id db).1
  unfolding delete_user_sessions
  delete_sessions-IsSuspended e db k = elim (Bool-cases (e.fault Op.delete_user_sessions)) [
    | inl failed ↦ rw failed k
    | inr works ↦ rw works k
  ]

  -- Enforcing a suspension, for the first time or again, keeps what is known of the mailboxes before.
  pub enforce-IsSuspended :
      (h : Host) (e : Env) (db : Db) (out : Out)
      → Works e
      → HaveUniqueIds orig
      → IsSuspended db
      → IsSuspended (enforce h e u (db, out)).0
  unfolding enforce
  enforce-IsSuspended h e db out w unique k =
      visit_domains-IsSuspended e _ _ w unique
        (stop_containers-IsSuspended h e _ _ (delete_sessions-IsSuspended e db k))
