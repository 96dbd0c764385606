-- ===== src/Suspension/Suspender/Rounds.antt =====
-- A round of reconciling, in internal/svc/suspend.go: what this process has applied becomes what the
-- database says.
use aegis_hosting_control_pa.Base.{
  ℕ, Bool, true, false, List, [], ◌∷◌, ◌==◌, ◌≡◌, refl, ◌∙◌, sym, All, Bool-cases, inl, inr, ◌⊎◌,
  ==_iff, ==_refl,
}
use mathlib.Core.Path.{subst}
use aegis_hosting_control_pa.Env.{Env, Op}
use aegis_hosting_control_pa.Store.Schema.{User, Db}
use aegis_hosting_control_pa.Suspension.Host.{Host}
use aegis_hosting_control_pa.Suspension.Suspender.{State, reconcile_user, reconcile_all}
use aegis_hosting_control_pa.Suspension.Suspender.Converges.{
  is_manual, IsApplied, reconcile_user-Frame, reconcile_user-manual, reconcile_user-applied,
  turn-cuts, turn-frees, turn-rests,
}
use aegis_hosting_control_pa.Suspension.Frames.{Frame, has_sessions, has_actions}

-- What a round has done for an account that the database does (first flag) or does not say is
-- suspended by hand, and that this process had (second flag) or had not enforced.
abbrev pub Effect : ℕ → Bool → Bool → Db → Type 0
Effect k true false db = has_sessions k db ≡ false
Effect k false true db = has_actions k db ≡ false
Effect k true true db = Unit
Effect k false false db = Unit

Effect-Frame :
    {id : ℕ} {db db' : Db} (k : ℕ) (m a : Bool)
    → Frame id db db'
    → (k == id) ≡ false
    → Effect k m a db
    → Effect k m a db'
Effect-Frame k true false f other h = f.no_session k h
Effect-Frame k false true f other h = f.no_action k other h
Effect-Frame k true true f other h = tt
Effect-Frame k false false f other h = tt

-- The account of that id is applied in the state s, and the effect is there since the state s0.
abbrev pub IsSettled : Env → State → State → ℕ → Type 0
IsSettled e s0 s k = IsApplied e s k × Effect k (is_manual e s0.db k) (s0.applied k) s.db

module _ (h : Host) (e : Env) (cuts : e.fault Op.delete_user_sessions ≡ false)
    (clears : e.fault Op.clear_suspension_actions ≡ false) (s0 : State) where
  -- The database says the same of every account as before the round.
  abbrev SaysSame : State → Type 0
  SaysSame s = (k : ℕ) → is_manual e s.db k ≡ is_manual e s0.db k

  -- The account has not had its turn, or is settled.
  abbrev Pending : State → ℕ → Type 0
  Pending s k = (s.applied k ≡ s0.applied k) ⊎ IsSettled e s0 s k

  module _ (u : User) (s : State) where
    turn-Effect :
        (m a : Bool)
        → is_manual e s.db u.id ≡ m
        → s.applied u.id ≡ a
        → Effect u.id m a (reconcile_user h e u s).db
    turn-Effect true false manual fresh = turn-cuts h e u s cuts manual fresh
    turn-Effect false true free applied = turn-frees h e u s clears free applied
    turn-Effect true true manual applied = tt
    turn-Effect false false free fresh = tt

    turn-settles :
        SaysSame s → s.applied u.id ≡ s0.applied u.id → IsSettled e s0 (reconcile_user h e u s) u.id
    turn-settles same_word untouched = (
      reconcile_user-applied h e u s u.id
          ∙ rw (==_refl u.id) (sym (reconcile_user-manual h e u s u.id)),
      turn-Effect (is_manual e s0.db u.id) (s0.applied u.id) (same_word u.id) untouched,
    )

    turn-keeps : (k : ℕ) → IsSettled e s0 s k → IsSettled e s0 (reconcile_user h e u s) k
    turn-keeps k (applied, effect) = elim (Bool-cases (k == u.id)) [
      | inl same_id ↦
          let own : s.applied u.id ≡ is_manual e s.db u.id =
            subst (λ i. IsApplied e s i) ((==_iff k u.id).0 same_id) applied in
          subst (λ s'. IsSettled e s0 s' k) (sym (turn-rests h e u s own)) (applied, effect)
      | inr other ↦ (
        reconcile_user-applied h e u s k
            ∙ rw other (applied ∙ sym (reconcile_user-manual h e u s k)),
        Effect-Frame k (is_manual e s0.db k) (s0.applied k) (reconcile_user-Frame h e u s) other
            effect,
      )
    ]

    turn-own : SaysSame s → Pending s u.id → IsSettled e s0 (reconcile_user h e u s) u.id
    turn-own same_word (inl untouched) = turn-settles same_word untouched
    turn-own same_word (inr settled) = turn-keeps u.id settled

    turn-Pending : SaysSame s → (k : ℕ) → Pending s k → Pending (reconcile_user h e u s) k
    turn-Pending same_word k (inr settled) = inr (turn-keeps k settled)
    turn-Pending same_word k (inl untouched) = elim (Bool-cases (k == u.id)) [
      | inl same_id ↦
          let own = (==_iff k u.id).0 same_id in
          inr (
            subst (λ i. IsSettled e s0 (reconcile_user h e u s) i) (sym own)
              (turn-settles same_word (subst (λ i. s.applied i ≡ s0.applied i) own untouched)))
      | inr other ↦ inl (reconcile_user-applied h e u s k ∙ rw other untouched)
    ]

    turn-SaysSame : SaysSame s → SaysSame (reconcile_user h e u s)
    turn-SaysSame same_word k = reconcile_user-manual h e u s k ∙ same_word k

  round-keeps :
      (users : List User) (s : State) (k : ℕ)
      → IsSettled e s0 s k
      → IsSettled e s0 (reconcile_all h e users s) k
  unfolding reconcile_all
  round-keeps [] s k settled = settled
  round-keeps (u ∷ users) s k settled =
      round-keeps users (reconcile_user h e u s) k (turn-keeps u s k settled)

  round-settles :
      (users : List User) (s : State)
      → SaysSame s
      → ((k : ℕ) → Pending s k)
      → All (λ u. IsSettled e s0 (reconcile_all h e users s) u.id) users
  unfolding reconcile_all
  round-settles [] s same_word pending = tt
  round-settles (u ∷ users) s same_word pending =
      let s' = reconcile_user h e u s in
      (
        round-keeps users s' u.id (turn-own u s same_word (pending u.id)),
        round-settles users s' (turn-SaysSame u s same_word)
            (λ k. turn-Pending u s same_word k (pending k)),
      )

  -- After a round of reconciling, whatever the host answers, each account of the round is marked as
  -- enforced just if the database says, as far as it can be read, that it is suspended by hand. An
  -- account that is suspended by hand and was not enforced by this process before has no session left,
  -- and of one that is not and was enforced before no record is left of what suspending it changed.
  -- The statements that delete sessions and clear those records work.
  pub reconcile_all-IsSettled :
      (users : List User) → All (λ u. IsSettled e s0 (reconcile_all h e users s0) u.id) users
  reconcile_all-IsSettled users = round-settles users s0 (λ k. refl) (λ k. inl refl)
