-- ===== src/Suspension/Roundtrip.antt =====
-- Suspending and unsuspending an account, and its mailboxes.
use aegis_hosting_control_pa.Base.{
  ℕ, Bool, true, false, ◌≡◌, sym, ◌∙◌, ap, List, [], ◌∷◌, ◌==◌, ◌&&◌, not, update_rows, map, All,
  arith,
}
use aegis_hosting_control_pa.Env.{Env, Op}
use aegis_hosting_control_pa.Store.Schema.{User, Db, Mailbox, mailbox}
use aegis_hosting_control_pa.Store.Suspension.{
  set_mailbox_enabled, list_suspension_actions, clear_suspension_actions,
}
use aegis_hosting_control_pa.Suspension.Host.{rows_or_none, Host, Out}
use aegis_hosting_control_pa.Suspension.Masks.{
  masked, is_recorded, HaveUniqueIds, All-map, update-unmasked, map-masked, map-unmasked,
  is_listed-order, is_listed-refs,
}
use aegis_hosting_control_pa.Suspension.Restore.{Works, IsSuspended, enforce-IsSuspended}
use aegis_hosting_control_pa.Suspension.Enforce.{enforce}
use aegis_hosting_control_pa.Suspension.Lift.{lift, enable_mailboxes, is_listed}

switched_on :
    (e : Env) (id : ℕ) (db : Db)
    → Works e
    → (set_mailbox_enabled e id true db).1.mailboxes
      ≡ update_rows (λ b. b.id == id) (λ b. record b { enabled = true }) db.mailboxes
unfolding set_mailbox_enabled
switched_on e id db w = rw (w.switches id)

drop_first :
    (off : ℕ → Bool) (id : ℕ) (ids : List ℕ) (k : ℕ)
    → (off k && not (id == k) && not (is_listed k ids)) ≡ (off k && not (is_listed k (id ∷ ids)))
drop_first off id ids k = ground arith

module _ (orig : List Mailbox) where
  abbrev AreBacked : List ℕ → Type 0
  AreBacked ids = All (λ (b : Mailbox). is_listed b.id ids ≡ true → b.enabled ≡ true) orig

  head_backed :
      (id : ℕ) (ids : List ℕ)
      → AreBacked (id ∷ ids)
      → All (λ (b : Mailbox). (b.id == id) ≡ true → b.enabled ≡ true) orig
  head_backed id ids h = All-map _ _ orig (λ b f same_id. f (ground arith)) h

  tail_backed : (id : ℕ) (ids : List ℕ) → AreBacked (id ∷ ids) → AreBacked ids
  tail_backed id ids h = All-map _ _ orig (λ b f listed. f (ground arith)) h

  enable_mailboxes-unmasked :
      (e : Env) (ids : List ℕ) (off : ℕ → Bool) (s : Db × Out)
      → Works e
      → AreBacked ids
      → s.0.mailboxes ≡ map (masked off) orig
      → (enable_mailboxes e ids s).0.mailboxes
        ≡ map (masked (λ k. off k && not (is_listed k ids))) orig
  unfolding enable_mailboxes
  enable_mailboxes-unmasked e [] off s w backed h =
      h ∙ map-masked off (λ k. off k && not (is_listed k [])) orig (λ k. ground arith)
  enable_mailboxes-unmasked e (id ∷ ids) off (db, out) w backed h =
      enable_mailboxes-unmasked e ids (λ k. off k && not (id == k)) _ w (tail_backed id ids backed)
        (switched_on e id db w
          ∙ ap (update_rows (λ b. b.id == id) (λ b. record b { enabled = true })) h
          ∙ update-unmasked off id orig (head_backed id ids backed))
      ∙ map-masked (λ k. off k && not (id == k) && not (is_listed k ids))
          (λ k. off k && not (is_listed k (id ∷ ids))) orig (drop_first off id ids)

module _ (u : User) where
  -- Any number of enforcements in a row: at the suspension, and by `Reconcile` after restarts.
  pub enforce_each : List (Host × Env) → Db × Out → Db × Out
  enforce_each [] s = s
  enforce_each ((h, e) ∷ rounds) s = enforce_each rounds (enforce h e u s)

  enforce_each-IsSuspended :
      (orig : List Mailbox) (rounds : List (Host × Env)) (s : Db × Out)
      → All (λ r. Works r.1) rounds
      → HaveUniqueIds orig
      → IsSuspended u orig s.0
      → IsSuspended u orig (enforce_each rounds s).0
  unfolding enforce_each
  enforce_each-IsSuspended orig [] s w unique k = k
  enforce_each-IsSuspended orig ((h, e) ∷ rounds) s (w, ws) unique k =
      enforce_each-IsSuspended orig rounds (enforce h e u s) ws unique
        (enforce-IsSuspended u orig h e s.0 s.1 w unique k)

  listed_rows :
      (e : Env) (db : Db) (k : ℕ)
      → e.fault Op.list_suspension_actions ≡ false
      → is_listed k (rows_or_none (list_suspension_actions e u.id mailbox db).0)
        ≡ is_recorded u.id db.suspension_actions k
  unfolding list_suspension_actions
  listed_rows e db k works =
      rw works (is_listed-order k _ ∙ is_listed-refs u.id k db.suspension_actions)

  none_left : (b c : Bool) → c ≡ b → (b && not c) ≡ false
  none_left b c e = ground arith

  mailboxes-clear :
      (e : Env) (db : Db) → (clear_suspension_actions e u.id db).1.mailboxes ≡ db.mailboxes
  unfolding clear_suspension_actions
  mailboxes-clear e db = ground arith

  lift-mailboxes :
      (h : Host) (e : Env) (orig : List Mailbox) (s : Db × Out)
      → Works e
      → e.fault Op.list_suspension_actions ≡ false
      → IsSuspended u orig s.0
      → (lift h e u s).0.mailboxes ≡ orig
  unfolding lift
  lift-mailboxes h e orig (db, out) w works k =
      let ids = rows_or_none (list_suspension_actions e u.id mailbox db).0 in
      let off = is_recorded u.id db.suspension_actions in
      mailboxes-clear e _
      ∙ enable_mailboxes-unmasked orig e ids off _ w
          (All-map _ _ orig (λ b f listed. f (sym (listed_rows e db b.id works) ∙ listed)) k.backed)
          k.shown
      ∙ map-unmasked (λ i. off i && not (is_listed i ids)) orig
          (λ i. none_left (off i) (is_listed i ids) (listed_rows e db i works))

  none_recorded :
      (off : ℕ → Bool)
      → ((id : ℕ) → off id ≡ false)
      → (bs : List Mailbox) → All (λ b. off b.id ≡ true → b.enabled ≡ true) bs
  none_recorded off fresh [] = tt
  none_recorded off fresh (b ∷ bs) = ((λ h. let f = fresh b.id in cc), none_recorded off fresh bs)

  -- However often a suspension is enforced, lifting it puts every mailbox of the server back as it was:
  -- the mailboxes it disabled are enabled again, and one that was disabled before stays disabled. This
  -- holds for whatever the host and the other services answer, if no mailbox of the account was recorded
  -- when the suspension began, ids are unique, and the database carries out the writes of the mailboxes
  -- and the last read of the records.
  pub lift-enforce-mailboxes :
      (rounds : List (Host × Env)) (h : Host) (e : Env) (db : Db) (out : Out)
      → All (λ r. Works r.1) rounds
      → Works e
      → e.fault Op.list_suspension_actions ≡ false
      → HaveUniqueIds db.mailboxes
      → ((id : ℕ) → is_recorded u.id db.suspension_actions id ≡ false)
      → (lift h e u (enforce_each rounds (db, out))).0.mailboxes ≡ db.mailboxes
  lift-enforce-mailboxes rounds h e db out ws w works unique fresh =
      lift-mailboxes h e db.mailboxes (enforce_each rounds (db, out)) w works (
        enforce_each-IsSuspended db.mailboxes rounds (db, out) ws unique
          (record {
            shown = sym (map-unmasked (is_recorded u.id db.suspension_actions) db.mailboxes fresh);
            backed = none_recorded (is_recorded u.id db.suspension_actions) fresh db.mailboxes;
          }))
