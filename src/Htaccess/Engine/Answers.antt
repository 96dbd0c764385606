-- ===== src/Htaccess/Engine/Answers.antt =====
-- The statuses of the engine's answers.
use aegis_hosting_control_pa.Base.{
  of_if, ℕ, String, Bool, true, Option, none, some, List, [], ◌∷◌, ◌&&◌, ◌||◌, not, if◌then◌else◌,
  ◌==◌, ◌≡◌, refl, arith, All, same, ◌⊎◌, inl, inr, Option-cases, any,
}
use aegis_hosting_control_pa.Htaccess.Config.{Regexps, RuleFlags, Rule, Redirect, Config}
use aegis_hosting_control_pa.Htaccess.Directives.{is_redirect_status}
use aegis_hosting_control_pa.Htaccess.Parse.{parse_dir}
use aegis_hosting_control_pa.Htaccess.Directives.Statuses.{
  is_flag_status, is_alias_status, AllSome, IsAlias,
}
use aegis_hosting_control_pa.Htaccess.Parse.Statuses.{IsFlagged, HasStatuses, parse_dir-HasStatuses}
use aegis_hosting_control_pa.Htaccess.Expand.{Request, Ctx, expand_sub}
use aegis_hosting_control_pa.Htaccess.Conds.{find_groups, check_conds}
use aegis_hosting_control_pa.Htaccess.Rules.{
  Outcome, Applied, substitute, fire, on_match, apply_rule, is_absolute_url, per_dir_subject,
}
use aegis_hosting_control_pa.Htaccess.Engine.Runs.{Ends, run_passes-Ends}
use aegis_hosting_control_pa.Htaccess.Engine.{
  answer_or, max_passes, redirect_hits, redirect_answer, first_redirect, rewritten, start_ctx,
  rewrite_request, engine, file_deny_matches,
}

-- No answer, 403, 410, or a redirect's 3xx.
abbrev pub is_answer : ℕ → Bool
is_answer n = n == 0 || n == 403 || n == 410 || is_redirect_status n

abbrev IsAnswer : Outcome → Type 0
IsAnswer o = is_answer o.status ≡ true

abbrev GivesAnswer : Applied → Type 0
GivesAnswer a = IsAnswer a.res

redirect_status : (n : ℕ) → is_flag_status n ≡ true → is_answer (if n == 0 then 302 else n) ≡ true
redirect_status n h = ground arith

substitute-GivesAnswer :
    (cfg : Config) (f : RuleFlags) (sub : String) (ctx : Ctx)
    → is_flag_status f.redirect ≡ true
    → GivesAnswer (substitute cfg f sub ctx)
unfolding substitute
substitute-GivesAnswer cfg f sub ctx h =
    of_if GivesAnswer (not (f.redirect == 0) || is_absolute_url sub) _ _
      (redirect_status f.redirect h) (of_if GivesAnswer (same sub "-") _ _ refl refl)

alias_status : (n : ℕ) → is_alias_status n ≡ true → is_answer n ≡ true
alias_status n h = ground arith

module _ (x : Regexps) (r : Request) (cfg : Config) where
  fire-GivesAnswer : (rule : Rule) (ctx : Ctx) → IsFlagged rule → GivesAnswer (fire r cfg rule ctx)
  unfolding fire
  fire-GivesAnswer rule ctx h = of_if GivesAnswer rule.flags.forbidden _ _ refl (
      of_if GivesAnswer rule.flags.gone _ _ refl
        (substitute-GivesAnswer cfg rule.flags (expand_sub r ctx rule.sub) ctx h))

  on_match-GivesAnswer :
      (rule : Rule) (ctx : Ctx) (groups : Option (List String))
      → IsFlagged rule
      → GivesAnswer (on_match r cfg rule ctx groups)
  on_match-GivesAnswer rule ctx none h = refl
  on_match-GivesAnswer rule ctx (some groups) h =
      fire-GivesAnswer rule (record ctx { rule_refs = groups }) h

  apply_rule-GivesAnswer :
      (rule : Rule) (ctx : Ctx) → IsFlagged rule → GivesAnswer (apply_rule x r cfg rule ctx)
  unfolding apply_rule
  apply_rule-GivesAnswer rule ctx h =
      let (pass, ctx') = check_conds x r rule.conds ctx in
      of_if GivesAnswer pass _ _
        (on_match-GivesAnswer rule ctx'
          (find_groups x rule.pattern rule.flags.no_case (per_dir_subject cfg ctx'.path)) h)
        refl

  redirect_answer-IsAnswer :
      (url_path : String) (rd : Redirect) (ctx : Ctx)
      → IsAlias rd
      → IsAnswer (redirect_answer r url_path rd ctx)
  redirect_answer-IsAnswer url_path rd ctx h =
      of_if IsAnswer (rd.status == 410) _ _ refl (alias_status rd.status h)

  first_redirect-IsAnswer :
      (url_path : String) (redirects : List Redirect) (ctx : Ctx)
      → All IsAlias redirects
      → AllSome IsAnswer (first_redirect x r url_path redirects ctx)
  unfolding first_redirect
  first_redirect-IsAnswer url_path [] ctx h = tt
  first_redirect-IsAnswer url_path (rd ∷ redirects) ctx (h, hs) =
      elim (Option-cases (redirect_hits x url_path rd ctx)) [
        | inl miss ↦ rw (miss, AllSome) (first_redirect-IsAnswer url_path redirects ctx hs)
        | inr (ctx', hit) ↦ rw (hit, AllSome) (redirect_answer-IsAnswer url_path rd ctx' h)
      ]

  rewritten-IsAnswer :
      (url_path query : String) (o : Outcome ⊎ Ctx)
      → Ends (λ _. Unit {0}) IsAnswer o
      → IsAnswer (rewritten url_path query o)
  rewritten-IsAnswer url_path query (inl o) h = h
  rewritten-IsAnswer url_path query (inr ctx) h =
      of_if IsAnswer (same ctx.path url_path && same ctx.query query) _ _ refl refl

  answer_or-IsAnswer :
      (o : Option Outcome) (o' : Outcome)
      → AllSome IsAnswer o
      → IsAnswer o'
      → IsAnswer (answer_or o o')
  answer_or-IsAnswer none o' h k = k
  answer_or-IsAnswer (some o) o' h k = h

  rewrite_request-IsAnswer :
      (url_path query : String)
      → HasStatuses cfg
      → IsAnswer (rewrite_request x r cfg url_path query)
  unfolding rewrite_request
  rewrite_request-IsAnswer url_path query (flagged, alias) =
      let ctx = start_ctx url_path query in
      let ends =
        run_passes-Ends x r cfg (λ _. Unit {0}) IsAnswer IsFlagged
          (λ rule c f q. (tt, apply_rule-GivesAnswer rule c f)) flagged max_passes ctx tt in
      answer_or-IsAnswer (first_redirect x r url_path cfg.redirects ctx) _
        (first_redirect-IsAnswer url_path cfg.redirects ctx alias)
        (of_if IsAnswer cfg.rewrite_engine _ _ (rewritten-IsAnswer url_path query _ ends) refl)

-- Whatever stands in the .htaccess files and whatever is asked for, the engine answers with no status
-- (the request goes on), 403, 410, or a status of a redirect, 300 to 399.
pub engine-statuses :
    (x : Regexps) (r : Request) (dir_url : String) (files : List (List String))
    (url_path query : String)
    → is_answer (engine x r (parse_dir x dir_url files) url_path query).status ≡ true
unfolding engine
engine-statuses x r dir_url files url_path query =
    let cfg = parse_dir x dir_url files in
    of_if IsAnswer cfg.deny_all _ _ refl (
      of_if IsAnswer (any (file_deny_matches x url_path) cfg.file_denies) _ _ refl
        (rewrite_request-IsAnswer x r cfg url_path query (parse_dir-HasStatuses x dir_url files)))
