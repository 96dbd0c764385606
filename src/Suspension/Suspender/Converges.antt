-- ===== src/Suspension/Suspender/Converges.antt =====
-- One account's turn of reconciling, in internal/svc/suspend.go.
use aegis_hosting_control_pa.Base.{
  same, Option-cases, of_if, ==_iff, ℕ, Bool, true, false, ◌&&◌, not, ◌==◌, if◌then◌else◌, ◌≡◌, ◌∙◌,
  Bool-cases, inl, inr, ap, sym, first, Option, none, some,
}
use aegis_hosting_control_pa.Env.{Env, Op}
use aegis_hosting_control_pa.Store.Schema.{status_suspended, User, Db}
use aegis_hosting_control_pa.Store.Users.{has_id, is_manually_suspended}
use aegis_hosting_control_pa.Suspension.Host.{Host}
use aegis_hosting_control_pa.Suspension.Suspender.{State, start, or_false, reconcile_user}
use aegis_hosting_control_pa.Suspension.Frames.{
  Frame, Frame-refl, has_sessions, has_actions, enforce-Frame, enforce-cuts, lift-Frame, lift-frees,
}

-- The account is suspended by hand, as far as the program can read it.
abbrev pub is_manual : Env → Db → ℕ → Bool
is_manual e db id = or_false (is_manually_suspended e id db).0

status_of : Option User → Bool
status_of none = false
status_of (some u) = same u.status status_suspended && not u.suspended_by_quota

is_manual-reads :
    (e : Env) (db : Db) (id : ℕ)
    → is_manual e db id
      ≡ (if e.fault Op.is_manually_suspended then false else status_of (first (has_id id) db.users))
unfolding is_manually_suspended status_of
is_manual-reads e db id = elim (Bool-cases (e.fault Op.is_manually_suspended)) [
  | inl failed ↦ rw failed
  | inr works ↦ elim (Option-cases (first (has_id id) db.users)) [
    | inl missing ↦ rw (works, missing)
    | inr (u, found) ↦ rw (works, found)
  ]
]

is_manual-users :
    (e : Env) (id : ℕ) (db db' : Db) → db'.users ≡ db.users → is_manual e db' id ≡ is_manual e db id
is_manual-users e id db db' same_users =
    is_manual-reads e db' id
    ∙ ap
        (λ users.
          if e.fault Op.is_manually_suspended then false else status_of (first (has_id id) users))
        same_users
    ∙ sym (is_manual-reads e db id)

-- This process has applied what the database says of the account.
abbrev pub IsApplied : Env → State → ℕ → Type 0
IsApplied e s id = s.applied id ≡ is_manual e s.db id

module _ (h : Host) (e : Env) (u : User) (s : State) where
  pub reconcile_user-Frame : Frame u.id s.db (reconcile_user h e u s).db
  unfolding reconcile_user
  reconcile_user-Frame =
      of_if (λ (s' : State). Frame u.id s.db s'.db) (is_manual e s.db u.id && not (s.applied u.id))
        _ _ (enforce-Frame e u h (start s.db s.calls))
        (of_if (λ (s' : State). Frame u.id s.db s'.db)
          (not (is_manual e s.db u.id) && s.applied u.id) _ s
          (lift-Frame e u h (start s.db s.calls)) (Frame-refl u.id s.db))

  -- A turn does not change what the database says of any account.
  pub reconcile_user-manual :
      (k : ℕ) → is_manual e (reconcile_user h e u s).db k ≡ is_manual e s.db k
  reconcile_user-manual k = is_manual-users e k s.db _ reconcile_user-Frame.same_users

  stays :
      (k : ℕ) (b : Bool) → s.applied u.id ≡ b → s.applied k ≡ (if k == u.id then b else s.applied k)
  stays k b h = elim (Bool-cases (k == u.id)) [
    | inl same_id ↦ rw same_id (ap s.applied ((==_iff k u.id).0 same_id) ∙ h)
    | inr other ↦ rw other
  ]

  pub reconcile_user-applied :
      (k : ℕ)
      → (reconcile_user h e u s).applied k
        ≡ (if k == u.id then is_manual e s.db u.id else s.applied k)
  unfolding reconcile_user
  reconcile_user-applied k = elim (Bool-cases (is_manual e s.db u.id)) [
    | inl manual ↦ elim (Bool-cases (s.applied u.id)) [
      | inl applied ↦ rw (manual, applied) (stays k true applied)
      | inr not_yet ↦ rw (manual, not_yet)
    ]
    | inr free ↦ elim (Bool-cases (s.applied u.id)) [
      | inl applied ↦ rw (free, applied)
      | inr not_yet ↦ rw (free, not_yet) (stays k false not_yet)
    ]
  ]

  -- The turn of an account that is suspended by hand and not enforced yet, and of one that is enforced
  -- and not suspended by hand.
  pub turn-cuts :
      e.fault Op.delete_user_sessions ≡ false
      → is_manual e s.db u.id ≡ true
      → s.applied u.id ≡ false
      → has_sessions u.id (reconcile_user h e u s).db ≡ false
  unfolding reconcile_user
  turn-cuts works manual fresh = rw (manual, fresh) (enforce-cuts e u h (start s.db s.calls) works)

  pub turn-frees :
      e.fault Op.clear_suspension_actions ≡ false
      → is_manual e s.db u.id ≡ false
      → s.applied u.id ≡ true
      → has_actions u.id (reconcile_user h e u s).db ≡ false
  unfolding reconcile_user
  turn-frees works free applied = rw (free, applied) (lift-frees e u h (start s.db s.calls) works)

  pub turn-rests : s.applied u.id ≡ is_manual e s.db u.id → reconcile_user h e u s ≡ s
  unfolding reconcile_user
  turn-rests settled = elim (Bool-cases (is_manual e s.db u.id)) [
    | inl manual ↦ rw (manual, settled ∙ manual)
    | inr free ↦ rw (free, settled ∙ free)
  ]
