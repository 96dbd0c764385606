-- ===== src/Api/Jobs/Rows.antt =====
-- What a write of one account's job leaves of the jobs of the others.
use aegis_hosting_control_pa.Base.{
  ℕ, Bool, true, some, not, ◌==◌, ◌≤◌, ◌≡◌, refl, arith, List, [], ◌∷◌, ◌++◌, keep, first,
  update_rows, drop_rows, count_rows, Bool-cases, inl, inr,
}
use aegis_hosting_control_pa.Store.Schema.{CronJob}
use aegis_hosting_control_pa.Store.Cron.{write_job}

-- The jobs of the other accounts.
abbrev pub foreign : ℕ → List CronJob → List CronJob
foreign id = keep (λ j. not (j.user_id == id))

module _ (p : CronJob → Bool) where
  update-none :
      (f : CronJob → CronJob) (js : List CronJob) → count_rows p js ≡ 0 → update_rows p f js ≡ js
  unfolding update_rows count_rows
  update-none f [] h = refl
  update-none f (j ∷ js) h = ground (arith, update-none f js)

  drop-none : (js : List CronJob) → count_rows p js ≡ 0 → drop_rows p js ≡ js
  unfolding keep count_rows
  drop-none [] h = refl
  drop-none (j ∷ js) h = ground (arith, drop-none js)

  first_is-own :
      (id : ℕ) (i j : CronJob) (js : List CronJob)
      → p i ≡ true
      → first p (i ∷ js) ≡ some j
      → (j.user_id == id) ≡ true
      → (i.user_id == id) ≡ true
  unfolding first
  first_is-own id i j js here found own = ground arith

  pub foreign-update :
      (id : ℕ) (w j : CronJob) (js : List CronJob)
      → count_rows p js ≤ 1
      → first p js ≡ some j
      → (j.user_id == id) ≡ true
      → foreign id (update_rows p (write_job w) js) ≡ foreign id js
  unfolding keep update_rows count_rows first
  foreign-update id w j [] one found own = refl
  foreign-update id w j (i ∷ js) one found own = elim (Bool-cases (p i)) [
    | inl here ↦
        let mine : (i.user_id == id) ≡ true = first_is-own id i j js here found own in
        rw (here, mine, update-none (write_job w) js (ground (arith, one, here)))
    | inr there ↦ rw (
      there,
      foreign-update id w j js (ground (arith, one, there)) (ground (arith, found, there)) own,
    )
  ]

  pub foreign-drop :
      (id : ℕ) (j : CronJob) (js : List CronJob)
      → count_rows p js ≤ 1
      → first p js ≡ some j
      → (j.user_id == id) ≡ true
      → foreign id (drop_rows p js) ≡ foreign id js
  unfolding keep count_rows first
  foreign-drop id j [] one found own = refl
  foreign-drop id j (i ∷ js) one found own = elim (Bool-cases (p i)) [
    | inl here ↦
        let mine : (i.user_id == id) ≡ true = first_is-own id i j js here found own in
        rw (here, mine, drop-none js (ground (arith, one, here)))
    | inr there ↦ rw (
      there,
      foreign-drop id j js (ground (arith, one, there)) (ground (arith, found, there)) own,
    )
  ]

pub foreign-append :
    (id : ℕ) (j : CronJob) (js : List CronJob)
    → (j.user_id == id) ≡ true
    → foreign id (js ++ j ∷ []) ≡ foreign id js
unfolding keep
foreign-append id j [] own = rw own
foreign-append id j (i ∷ js) own = rw (foreign-append id j js own)
