-- ===== src/Htaccess/Engine/Runs.antt =====
-- The loops of htEngine over the rules: what each rule keeps, all passes keep.
use aegis_hosting_control_pa.Base.{
  ℕ, zero, suc, Bool, true, false, List, [], ◌∷◌, ◌||◌, not, All, ◌⊎◌, inl, inr, Bool-cases,
}
use aegis_hosting_control_pa.Htaccess.Config.{Regexps, Rule, Config}
use aegis_hosting_control_pa.Htaccess.Expand.{Request, Ctx}
use aegis_hosting_control_pa.Htaccess.Rules.{Outcome, apply_rule}
use aegis_hosting_control_pa.Htaccess.Engine.{
  Pass, answered, passed, run_rules, run_passes, is_final,
}

-- `Q` of the state the rules leave, or `R` of their answer.
abbrev pub Ends : (Ctx → Type 0) → (Outcome → Type 0) → Outcome ⊎ Ctx → Type 0
Ends Q R (inl o) = R o
Ends Q R (inr ctx) = Q ctx

abbrev pub PassEnds : (Ctx → Type 0) → (Outcome → Type 0) → Pass → Type 0
PassEnds Q R (answered o) = R o
PassEnds Q R (passed _ _ ctx) = Q ctx

module _ (x : Regexps) (r : Request) (cfg : Config) (Q : Ctx → Type 0) (R : Outcome → Type 0)
    (F : Rule → Type 0)
    (keeps : (rule : Rule) (ctx : Ctx)
      → F rule
      → Q ctx
      → Q (apply_rule x r cfg rule ctx).ctx × R (apply_rule x r cfg rule ctx).res) where
  run_rules-PassEnds :
      (rules : List Rule) (changed : Bool) (ctx : Ctx)
      → All F rules
      → Q ctx
      → PassEnds Q R (run_rules x r cfg rules changed ctx)
  unfolding run_rules
  run_rules-PassEnds [] changed ctx h q = q
  run_rules-PassEnds (rule ∷ rules) changed ctx (h, hs) q =
      let a = apply_rule x r cfg rule ctx in
      let (q', answer) = keeps rule ctx h q in
      elim (Bool-cases (is_final a.res)) [
        | inl f ↦ rw (f, PassEnds) answer
        | inr f ↦ elim (Bool-cases a.done) [
          | inl d ↦ rw (f, d, PassEnds) q'
          | inr d ↦
              rw (f, d, PassEnds) (run_rules-PassEnds rules (changed || a.matched) a.ctx hs q')
        ]
      ]

  after_pass :
      (n : ℕ) (p : Pass)
      → PassEnds Q R p
      → ((ctx : Ctx) → Q ctx → Ends Q R (run_passes x r cfg n ctx))
      → Ends Q R (elim p as (λ _. Outcome ⊎ Ctx) [
        | answered o ↦ inl o
        | passed stop changed ctx' ↦ elim (stop || not changed) as (λ _. Outcome ⊎ Ctx) [
          | true ↦ inr ctx'
          | false ↦ run_passes x r cfg n ctx'
        ]
      ])
  after_pass n (answered o) h k = h
  after_pass n (passed true changed ctx) h k = h
  after_pass n (passed false true ctx) h k = k ctx h
  after_pass n (passed false false ctx) h k = h

  pub run_passes-Ends :
      All F cfg.rules → (n : ℕ) (ctx : Ctx) → Q ctx → Ends Q R (run_passes x r cfg n ctx)
  unfolding run_passes
  run_passes-Ends fs zero ctx q = q
  run_passes-Ends fs (suc n) ctx q =
      after_pass n (run_rules x r cfg cfg.rules false ctx)
        (run_rules-PassEnds cfg.rules false ctx fs q) (λ ctx' q'. run_passes-Ends fs n ctx' q')
