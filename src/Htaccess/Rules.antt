-- ===== src/Htaccess/Rules.antt =====
-- One rule: htApplyRule and what it calls.

use aegis_hosting_control_pa.Base.{
  ℕ, String, Bool, true, false, Option, none, some, List, ◌&&◌, ◌||◌, not, ◌==◌, same,
  if◌then◌else◌, has_prefix, append,
}
use aegis_hosting_control_pa.Htaccess.Text.{
  trim_prefix, trim_suffix, cut, contains_byte, clean_rooted,
}
use aegis_hosting_control_pa.Htaccess.Config.{Regexps, RuleFlags, Rule, Config}
use aegis_hosting_control_pa.Htaccess.Expand.{Request, Ctx, expand_sub}
use aegis_hosting_control_pa.Htaccess.Conds.{find_groups, check_conds}

-- `htOutcome`: an empty text is "unchanged", status 0 none.
pub record Outcome : Type 0 where
  pub path : String
  pub query : String
  pub redirect : String
  pub status : ℕ

abbrev pub unchanged : Outcome
unchanged = record { path = ""; query = ""; redirect = ""; status = 0 }

abbrev pub refused : ℕ → Outcome
refused status = record unchanged { status = status }

-- `htPerDirSubject`
unfoldable pub per_dir_subject : Config → String → String
per_dir_subject cfg p =
    let in_dir =
      not (same cfg.dir_url "")
      && not (same cfg.dir_url "/")
      && has_prefix p (append cfg.dir_url "/") in
    trim_prefix (if in_dir then trim_prefix p cfg.dir_url else p) "/"

-- `htIsAbsoluteURL`
abbrev pub is_absolute_url : String → Bool
is_absolute_url s = has_prefix s "http://" || has_prefix s "https://" || has_prefix s "//"

-- The substitution's path, and its query string if it has one.
abbrev path_and_query : Option (String × String) → String → String → String × String
path_and_query none sub query = (sub, query)
path_and_query (some (path, q)) sub query = (path, q)

abbrev new_query : RuleFlags → String → String → String
new_query f own query =
    let joined =
      if f.qsa && not (same query "") && not (same own query)
      then (if same own "" then query else append own (append "&" query))
      else own in
    if f.qsd then "" else joined

abbrev base_of : Config → String
base_of cfg =
    if not (same cfg.rewrite_base "")
    then cfg.rewrite_base
    else if not (same cfg.dir_url "")
    then cfg.dir_url
    else "/"

abbrev with_base : Config → String → String
with_base cfg p =
    if not (has_prefix p "/") && not (is_absolute_url p)
    then append (trim_suffix (base_of cfg) "/") (append "/" (trim_prefix p "/"))
    else p

-- An internal rewrite.
unfoldable pub rewrite : Config → RuleFlags → String → Ctx → Ctx
rewrite cfg f sub ctx =
    let (p, own) = path_and_query (cut b'?' sub) sub ctx.query in
    record ctx {
      path = clean_rooted (append "/" (trim_prefix (with_base cfg p) "/"));
      query = new_query f own ctx.query;
    }

abbrev redirect_target : RuleFlags → String → String → String
redirect_target f sub query =
    if f.qsa && not (same query "") && not (contains_byte b'?' sub)
    then append sub (append "?" query)
    else sub

-- The results of `htApplyRule`, and the state it leaves.
pub record Applied : Type 0 where
  pub res : Outcome
  pub done : Bool
  pub matched : Bool
  pub ctx : Ctx

abbrev pub not_matched : Ctx → Applied
not_matched ctx = record { res = unchanged; done = false; matched = false; ctx = ctx }

-- A rule whose pattern matched, with the substitution expanded.
unfoldable pub substitute : Config → RuleFlags → String → Ctx → Applied
substitute cfg f sub ctx =
    if not (f.redirect == 0) || is_absolute_url sub
    then record {
      res = record unchanged {
        redirect = redirect_target f sub ctx.query;
        status = if f.redirect == 0 then 302 else f.redirect;
      };
      done = true;
      matched = true;
      ctx = ctx;
    }
    else if same sub "-"
    then record { res = unchanged; done = f.last; matched = true; ctx = ctx }
    else record {
      res = unchanged;
      done = f.last || f.end';
      matched = true;
      ctx = rewrite cfg f sub ctx;
    }

unfoldable pub fire : Request → Config → Rule → Ctx → Applied
fire r cfg rule ctx =
    if rule.flags.forbidden
    then record { res = refused 403; done = true; matched = true; ctx = ctx }
    else if rule.flags.gone
    then record { res = refused 410; done = true; matched = true; ctx = ctx }
    else substitute cfg rule.flags (expand_sub r ctx rule.sub) ctx

abbrev pub on_match : Request → Config → Rule → Ctx → Option (List String) → Applied
on_match r cfg rule ctx none = not_matched ctx
on_match r cfg rule ctx (some groups) = fire r cfg rule (record ctx { rule_refs = groups })

-- `htApplyRule`
unfoldable pub apply_rule : Regexps → Request → Config → Rule → Ctx → Applied
apply_rule x r cfg rule ctx =
    let (pass, ctx') = check_conds x r rule.conds ctx in
    if pass
    then on_match r cfg rule ctx'
        (find_groups x rule.pattern rule.flags.no_case (per_dir_subject cfg ctx'.path))
    else not_matched ctx'
