-- ===== src/Htaccess/Engine.antt =====
-- `htEngine` of htaccess.go. Its first test is left out: without rules, redirects and denials every
-- other branch leaves the request as it is.
pub mod Denied
pub mod Runs
pub mod Rooted
pub mod Answers
use text.Mathlib.Text.{is_lt}
use Prim.Native.String.{compare, len}
use aegis_hosting_control_pa.Base.{
  inl, inr, ◌⊎◌, ℕ, zero, suc, ◌+◌, String, Bool, true, false, Option, none, some, List, [], ◌∷◌,
  ◌&&◌, ◌||◌, not, ltb, ◌==◌, same, if◌then◌else◌, has_prefix, append, any,
}
use aegis_hosting_control_pa.Htaccess.Text.{
  to_lower, equal_fold, trim_prefix, trim_suffix, cut, contains_byte, path_base, clean_rooted,
}
use aegis_hosting_control_pa.Htaccess.Config.{
  Regexps, FileDeny, RuleFlags, Lex, FileOp, Cond, Rule, Redirect, Config, is_file, is_dir, exists,
  has_size, is_executable, regex, less, greater, equal,
}
use aegis_hosting_control_pa.Htaccess.Expand.{FileInfo, Request, Ctx, expand, expand_sub}
use aegis_hosting_control_pa.Htaccess.Conds.{find_groups, is_found}
use aegis_hosting_control_pa.Htaccess.Rules.{Outcome, unchanged, refused, Applied, apply_rule}

-- `htFileDenyMatches`
unfoldable pub file_deny_matches : Regexps → String → FileDeny → Bool
file_deny_matches x url_path fd =
    let base = path_base url_path in
    if fd.regex then is_found (find_groups x fd.pattern true base) else x.path_match fd.pattern base

-- How one pass over the rules ends: with an answer, or with the state and whether to stop and
-- whether a rule matched.
pub data Pass : Type 0 where
  answered : Outcome → Pass
  passed : Bool → Bool → Ctx → Pass

abbrev pub is_final : Outcome → Bool
is_final o = o.status == 403 || o.status == 410 || not (same o.redirect "")

unfoldable pub run_rules : Regexps → Request → Config → List Rule → Bool → Ctx → Pass
run_rules x r cfg [] changed ctx = passed false changed ctx
run_rules x r cfg (rule ∷ rules) changed ctx =
    let a = apply_rule x r cfg rule ctx in
    elim (is_final a.res) [
      | true ↦ answered a.res
      | false ↦ elim a.done [
        | true ↦ passed true (changed || a.matched) a.ctx
        | false ↦ run_rules x r cfg rules (changed || a.matched) a.ctx
      ]
    ]

-- The passes: the program allows ten. An answer, or the last state.
unfoldable pub run_passes : Regexps → Request → Config → ℕ → Ctx → Outcome ⊎ Ctx
run_passes x r cfg zero ctx = inr ctx
run_passes x r cfg (suc n) ctx =
    elim (run_rules x r cfg cfg.rules false ctx) as (λ _. Outcome ⊎ Ctx) [
      | answered o ↦ inl o
      | passed stop changed ctx' ↦ elim (stop || not changed) as (λ _. Outcome ⊎ Ctx) [
        | true ↦ inr ctx'
        | false ↦ run_passes x r cfg n ctx'
      ]
    ]

abbrev pub max_passes : ℕ
max_passes = 10

-- A Redirect or RedirectMatch that applies to the path, and its groups.
pub redirect_hits : Regexps → String → Redirect → Ctx → Option Ctx
redirect_hits x url_path rd ctx =
    if rd.is_match
    then elim (find_groups x rd.from false url_path) [
      | none ↦ none
      | some groups ↦ some (record ctx { rule_refs = groups })
    ]
    else if same rd.from "/" || same url_path rd.from || has_prefix url_path (append rd.from "/")
    then some ctx
    else none

abbrev pub redirect_answer : Request → String → Redirect → Ctx → Outcome
redirect_answer r url_path rd ctx =
    let target = expand_sub r ctx rd.target in
    let rest =
      if not rd.is_match && not (same rd.from "/") && ltb (len rd.from) (len url_path)
      then trim_prefix url_path rd.from
      else "" in
    if rd.status == 410
    then refused 410
    else record unchanged { redirect = append target rest; status = rd.status }

unfoldable pub first_redirect : Regexps → Request → String → List Redirect → Ctx → Option Outcome
unfolding redirect_hits
first_redirect x r url_path [] ctx = none
first_redirect x r url_path (rd ∷ redirects) ctx = elim (redirect_hits x url_path rd ctx) [
  | some ctx' ↦ some (redirect_answer r url_path rd ctx')
  | none ↦ first_redirect x r url_path redirects ctx
]

abbrev pub start_ctx : String → String → Ctx
start_ctx url_path query = record { path = url_path; query = query; rule_refs = []; sub_refs = [] }

-- The end of `htEngine`.
abbrev pub rewritten : String → String → Outcome ⊎ Ctx → Outcome
rewritten url_path query (inl o) = o
rewritten url_path query (inr ctx) =
    if same ctx.path url_path && same ctx.query query
    then unchanged
    else record unchanged { path = ctx.path; query = ctx.query }

abbrev pub answer_or : Option Outcome → Outcome → Outcome
answer_or none o = o
answer_or (some answer) o = answer

-- The part of `htEngine` after the denials.
unfoldable pub rewrite_request : Regexps → Request → Config → String → String → Outcome
rewrite_request x r cfg url_path query =
    let ctx = start_ctx url_path query in
    answer_or (first_redirect x r url_path cfg.redirects ctx) (
      if cfg.rewrite_engine
      then rewritten url_path query (run_passes x r cfg max_passes ctx)
      else unchanged)

-- `htEngine`
unfoldable pub engine : Regexps → Request → Config → String → String → Outcome
engine x r cfg url_path query =
    if cfg.deny_all
    then refused 403
    else if any (file_deny_matches x url_path) cfg.file_denies
    then refused 403
    else rewrite_request x r cfg url_path query
