-- ===== src/Htaccess/Conds.antt =====
-- The conditions of a rule: htCompile, htEvalCond, htCondGroups, and the loop of htApplyRule over them.
pub mod Pairs
use text.Mathlib.Text.{is_lt}
use Prim.Native.String.{compare, len}
use aegis_hosting_control_pa.Base.{
  inl, inr, ◌⊎◌, ℕ, zero, suc, ◌+◌, String, Bool, true, false, Option, none, some, List, [], ◌∷◌,
  ◌&&◌, ◌||◌, not, ltb, ◌==◌, same, if◌then◌else◌, has_prefix, append, any,
}
use aegis_hosting_control_pa.Htaccess.Text.{
  to_lower, equal_fold, trim_prefix, trim_suffix, cut, contains_byte, path_base, clean_rooted,
}
use aegis_hosting_control_pa.Htaccess.Config.{
  Regexps, FileDeny, RuleFlags, Lex, FileOp, Cond, Rule, Redirect, Config, is_file, is_dir, exists,
  has_size, is_executable, regex, less, greater, equal,
}
use aegis_hosting_control_pa.Htaccess.Expand.{FileInfo, Request, Ctx, expand, expand_sub}

abbrev regexp_key : String → Bool → String
regexp_key pattern no_case = if no_case then append "(?i)" pattern else pattern

-- `htCompile` and `FindStringSubmatch`: none also where the pattern does not compile.
unfoldable pub find_groups : Regexps → String → Bool → String → Option (List String)
find_groups x pattern no_case subject =
    let key = regexp_key pattern no_case in
    if x.compiles key then x.find_submatch key subject else none

abbrev pub is_found : {A : Type 0} → Option A → Bool
is_found none = false
is_found (some _) = true

abbrev has_kind : FileOp → FileInfo → Bool
has_kind is_file st = st.is_regular
has_kind is_dir st = st.is_directory
has_kind has_size st = ltb 0 st.size
has_kind is_executable st = st.executable
has_kind exists st = true

abbrev file_passes : FileOp → Option FileInfo → Bool
file_passes op none = false
file_passes op (some st) = has_kind op st

abbrev negated : Bool → Bool → Bool
negated neg b = if neg then not b else b

abbrev folded : Bool → String → String
folded no_case s = if no_case then to_lower s else s

abbrev comes_before : String → String → Bool
comes_before s t = is_lt (compare s t)

-- A condition that is no file test.
pub lex_passes : Regexps → Request → Ctx → Cond → Lex → String → Bool
lex_passes x r ctx c less test =
    negated c.lex_neg
      (comes_before (folded c.no_case test) (folded c.no_case (expand r ctx c.pattern)))
lex_passes x r ctx c greater test =
    negated c.lex_neg
      (comes_before (folded c.no_case (expand r ctx c.pattern)) (folded c.no_case test))
lex_passes x r ctx c equal test =
    let other = expand r ctx c.pattern in
    negated c.lex_neg (if c.no_case then equal_fold test other else same test other)
lex_passes x r ctx c regex test =
    if same c.pattern "" then same test "" else is_found (find_groups x c.pattern c.no_case test)

abbrev pub cond_passes : Regexps → Request → Ctx → Cond → String → Option (Bool × FileOp) → Bool
cond_passes x r ctx c test none = lex_passes x r ctx c c.lex test
cond_passes x r ctx c test (some (neg, op)) = negated neg (file_passes op (r.stat test))

-- `htEvalCond`
unfoldable pub eval_cond : Regexps → Request → Ctx → Cond → Bool
unfolding lex_passes
eval_cond x r ctx c = cond_passes x r ctx c (expand r ctx c.test) c.file_test

abbrev is_pattern : Cond → Bool
is_pattern c =
    (elim c.file_test [ none ↦ true | some _ ↦ false ])
    && (elim c.lex [ regex ↦ true | _ ↦ false ])
    && not (same c.pattern "")

-- `htCondGroups`
abbrev pub cond_groups : Regexps → Request → Ctx → Cond → Option (List String)
cond_groups x r ctx c =
    if is_pattern c then find_groups x c.pattern c.no_case (expand r ctx c.test) else none

abbrev pub with_groups : Option (List String) → Ctx → Ctx
with_groups none ctx = ctx
with_groups (some groups) ctx = record ctx { sub_refs = groups }

-- A condition that passes leaves its groups.
abbrev pub note_groups : Regexps → Request → Cond → Bool → Ctx → Ctx
note_groups x r c pass ctx = if pass then with_groups (cond_groups x r ctx c) ctx else ctx

-- The loop over the conditions: a condition with [OR] takes the next one along.
unfoldable pub check_conds : Regexps → Request → List Cond → Ctx → Bool × Ctx
check_conds x r [] ctx = (true, ctx)
check_conds x r (c ∷ []) ctx = let pass = eval_cond x r ctx c in (pass, note_groups x r c pass ctx)
check_conds x r (c ∷ next ∷ conds) ctx =
    let pass = eval_cond x r ctx c in
    let ctx1 = note_groups x r c pass ctx in
    let rescued = not pass && eval_cond x r ctx1 next in
    let ctx2 = note_groups x r next rescued ctx1 in
    elim c.or_next [
      | true ↦ elim (pass || rescued) [ true ↦ check_conds x r conds ctx2 | false ↦ (false, ctx2) ]
      | false ↦ elim pass [ true ↦ check_conds x r (next ∷ conds) ctx1 | false ↦ (false, ctx1) ]
    ]
