-- ===== src/Htaccess/Engine/Rooted.antt =====
-- Where an internal rewrite can lead.
use aegis_hosting_control_pa.Base.{
  ◌∙◌, String, Bool, true, false, Option, none, some, List, [], ◌∷◌, ◌&&◌, ◌||◌, not, same, ◌==◌,
  ◌≡◌, refl, arith, All, of_if, ◌⊎◌, inl, inr, any, Option-cases, Bool-cases, eq_iff,
}
use Prim.Native.Char.{Char, code}
use aegis_hosting_control_pa.Htaccess.Text.{
  is_some, push_first, push_before, cut, contains_byte, split_on, parent, walk, resolve, rooted,
  clean_rooted, split_on,
}
use aegis_hosting_control_pa.Htaccess.Directives.Statuses.{AllSome}
use aegis_hosting_control_pa.Htaccess.Config.{Cond, Regexps, RuleFlags, Rule, Redirect, Config}
use aegis_hosting_control_pa.Htaccess.Expand.{Request, Ctx, expand_sub}
use aegis_hosting_control_pa.Htaccess.Conds.{
  find_groups, check_conds, note_groups, with_groups, cond_groups, eval_cond,
}
use aegis_hosting_control_pa.Htaccess.Rules.{
  Outcome, Applied, rewrite, substitute, fire, on_match, apply_rule, is_absolute_url,
  per_dir_subject,
}
use aegis_hosting_control_pa.Htaccess.Engine.{
  answer_or, max_passes, redirect_answer, first_redirect, rewritten, start_ctx, rewrite_request,
  engine, file_deny_matches, redirect_hits,
}
use aegis_hosting_control_pa.Htaccess.Engine.Runs.{Ends, run_passes-Ends}

-- A segment that a path walks down.
abbrev pub is_down : String → Bool
is_down s = not (same s "" || same s "." || same s "..") && not (contains_byte b'/' s)

-- A slash, and such segments with slashes between them: the path stays below the root.
pub record IsRooted (path : String) : Type 0 where
  pub segments : List String
  pub shown : path ≡ rooted segments
  pub down : All (λ s. is_down s ≡ true) segments

abbrev AreDown : List String → Type 0
AreDown segments = All (λ s. is_down s ≡ true) segments

parent-AreDown : (kept : List String) → AreDown kept → AreDown (parent kept)
parent-AreDown [] h = tt
parent-AreDown (s ∷ up) (h, hs) = hs

abbrev IsWhole : String → Type 0
IsWhole s = contains_byte b'/' s ≡ false

walk-AreDown : (s : String) (kept : List String) → IsWhole s → AreDown kept → AreDown (walk s kept)
walk-AreDown s kept whole h = elim (Bool-cases (same s "" || same s ".")) [
  | inl stays ↦ rw (stays, walk) h
  | inr moves ↦ elim (Bool-cases (same s "..")) [
    | inl up ↦ rw (moves, up, walk) (parent-AreDown kept h)
    | inr down ↦ rw (moves, down, walk) (ground (arith, moves, down, whole), h)
  ]
]

resolve-AreDown :
    (segments kept : List String)
    → All IsWhole segments
    → AreDown kept
    → AreDown (resolve segments kept)
unfolding resolve
resolve-AreDown [] kept w h = h
resolve-AreDown (s ∷ segments) kept (whole, w) h =
    resolve-AreDown segments (walk s kept) w (walk-AreDown s kept whole h)

pushed : (c : Char) (o : Option (String × String)) → is_some (push_before c o) ≡ is_some o
pushed c none = refl
pushed c (some _) = refl

IsWhole-cons :
    (c : Char) (w : String) → (code c == b'/') ≡ false → IsWhole w → IsWhole (String.◌∷◌ c w)
unfolding cut
IsWhole-cons c w other whole = rw (other, is_some) (pushed c (cut b'/' w) ∙ whole)

push_first-IsWhole :
    (c : Char) (words : List String)
    → (code c == b'/') ≡ false
    → All IsWhole words
    → All IsWhole (push_first c words)
unfolding cut
push_first-IsWhole c [] other h = (IsWhole-cons c "" other refl, tt)
push_first-IsWhole c (w ∷ words) other (whole, h) = (IsWhole-cons c w other whole, h)

split_on-IsWhole : (s : String) → All IsWhole (split_on b'/' s)
unfolding split_on cut
split_on-IsWhole String.[] = (refl, tt)
split_on-IsWhole (String.◌∷◌ c s) = elim (Bool-cases (code c == b'/')) [
  | inl slash ↦ rw slash (refl, split_on-IsWhole s)
  | inr other ↦ rw other (push_first-IsWhole c (split_on b'/' s) other (split_on-IsWhole s))
]

pub clean_rooted-IsRooted : (s : String) → IsRooted (clean_rooted s)
unfolding clean_rooted
clean_rooted-IsRooted s = record {
  segments = resolve (split_on b'/' s) [];
  shown = refl;
  down = resolve-AreDown (split_on b'/' s) [] (split_on-IsWhole s) tt;
}

rules_free : (rules : List Rule) → All (λ _. Unit {0}) rules
rules_free [] = tt
rules_free (_ ∷ rules) = (tt, rules_free rules)

module _ (x : Regexps) (r : Request) (cfg : Config) (url_path query : String) where
  -- No rule has rewritten the request yet, or its path is rooted.
  abbrev IsSafe : Ctx → Type 0
  IsSafe ctx = ((ctx.path ≡ url_path) × (ctx.query ≡ query)) ⊎ IsRooted ctx.path

  -- Groups change neither the path nor the query.
  with_groups-IsSafe :
      (groups : Option (List String)) (ctx : Ctx) → IsSafe ctx → IsSafe (with_groups groups ctx)
  with_groups-IsSafe none ctx h = h
  with_groups-IsSafe (some g) ctx h = h

  note_groups-IsSafe :
      (c : Cond) (pass : Bool) (ctx : Ctx) → IsSafe ctx → IsSafe (note_groups x r c pass ctx)
  note_groups-IsSafe c pass ctx h =
      of_if IsSafe pass _ _ (with_groups-IsSafe (cond_groups x r ctx c) ctx h) h

  branches :
      (or_next pass rescued : Bool) (ctx1 ctx2 : Ctx) (paired alone : Bool × Ctx)
      → IsSafe ctx1
      → IsSafe ctx2
      → IsSafe paired.1
      → IsSafe alone.1
      → IsSafe
          (elim or_next as (λ _. Bool × Ctx) [
            | true ↦ elim (pass || rescued) as (λ _. Bool × Ctx) [
              | true ↦ paired
              | false ↦ (false, ctx2)
            ]
            | false ↦ elim pass as (λ _. Bool × Ctx) [ true ↦ alone | false ↦ (false, ctx1) ]
          ]).1
  branches true true rescued ctx1 ctx2 p a h1 h2 hp ha = hp
  branches true false true ctx1 ctx2 p a h1 h2 hp ha = hp
  branches true false false ctx1 ctx2 p a h1 h2 hp ha = h2
  branches false true rescued ctx1 ctx2 p a h1 h2 hp ha = ha
  branches false false rescued ctx1 ctx2 p a h1 h2 hp ha = h1

  check_conds-IsSafe :
      (conds : List Cond) (ctx : Ctx) → IsSafe ctx → IsSafe (check_conds x r conds ctx).1
  unfolding check_conds
  check_conds-IsSafe [] ctx h = h
  check_conds-IsSafe (c ∷ []) ctx h = note_groups-IsSafe c (eval_cond x r ctx c) ctx h
  check_conds-IsSafe (c ∷ next ∷ conds) ctx h =
      let pass = eval_cond x r ctx c in
      let ctx1 = note_groups x r c pass ctx in
      let rescued = not pass && eval_cond x r ctx1 next in
      let ctx2 = note_groups x r next rescued ctx1 in
      let h1 = note_groups-IsSafe c pass ctx h in
      let h2 = note_groups-IsSafe next rescued ctx1 h1 in
      branches c.or_next pass rescued ctx1 ctx2 (check_conds x r conds ctx2)
        (check_conds x r (next ∷ conds) ctx1) h1 h2 (check_conds-IsSafe conds ctx2 h2)
        (check_conds-IsSafe (next ∷ conds) ctx1 h1)

  rewrite-IsSafe : (f : RuleFlags) (sub : String) (ctx : Ctx) → IsSafe (rewrite cfg f sub ctx)
  unfolding rewrite
  rewrite-IsSafe f sub ctx = inr (clean_rooted-IsRooted _)

  abbrev IsSafeResult : Outcome → Type 0
  IsSafeResult o = (o.path ≡ "") ⊎ IsRooted o.path

  abbrev KeepsSafe : Applied → Type 0
  KeepsSafe a = IsSafe a.ctx × IsSafeResult a.res

  substitute-KeepsSafe :
      (f : RuleFlags) (sub : String) (ctx : Ctx) → IsSafe ctx → KeepsSafe (substitute cfg f sub ctx)
  unfolding substitute
  substitute-KeepsSafe f sub ctx h =
      of_if KeepsSafe (not (f.redirect == 0) || is_absolute_url sub) _ _ (h, inl refl)
        (of_if KeepsSafe (same sub "-") _ _ (h, inl refl) (rewrite-IsSafe f sub ctx, inl refl))

  fire-KeepsSafe : (rule : Rule) (ctx : Ctx) → IsSafe ctx → KeepsSafe (fire r cfg rule ctx)
  unfolding fire
  fire-KeepsSafe rule ctx h =
      of_if KeepsSafe rule.flags.forbidden _ _ (h, inl refl)
        (of_if KeepsSafe rule.flags.gone _ _ (h, inl refl)
          (substitute-KeepsSafe rule.flags (expand_sub r ctx rule.sub) ctx h))

  on_match-KeepsSafe :
      (rule : Rule) (ctx : Ctx) (groups : Option (List String))
      → IsSafe ctx
      → KeepsSafe (on_match r cfg rule ctx groups)
  on_match-KeepsSafe rule ctx none h = (h, inl refl)
  on_match-KeepsSafe rule ctx (some groups) h =
      fire-KeepsSafe rule (record ctx { rule_refs = groups }) h

  apply_rule-KeepsSafe :
      (rule : Rule) (ctx : Ctx) → IsSafe ctx → KeepsSafe (apply_rule x r cfg rule ctx)
  unfolding apply_rule
  apply_rule-KeepsSafe rule ctx h =
      let (pass, ctx') = check_conds x r rule.conds ctx in
      let h' = check_conds-IsSafe rule.conds ctx h in
      of_if KeepsSafe pass _ _
        (on_match-KeepsSafe rule ctx'
          (find_groups x rule.pattern rule.flags.no_case (per_dir_subject cfg ctx'.path)) h')
        (h', inl refl)

  rewritten-IsSafeResult :
      (o : Outcome ⊎ Ctx) → Ends IsSafe IsSafeResult o → IsSafeResult (rewritten url_path query o)
  rewritten-IsSafeResult (inl o) h = h
  rewritten-IsSafeResult (inr ctx) (inl (p, q)) =
      rw ((eq_iff ctx.path url_path).1 p, (eq_iff ctx.query query).1 q) (inl refl)
  rewritten-IsSafeResult (inr ctx) (inr safe) =
      of_if IsSafeResult (same ctx.path url_path && same ctx.query query) _ _ (inl refl) (inr safe)

  redirect_answer-IsSafeResult :
      (rd : Redirect) (ctx : Ctx) → IsSafeResult (redirect_answer r url_path rd ctx)
  redirect_answer-IsSafeResult rd ctx =
      of_if IsSafeResult (rd.status == 410) _ _ (inl refl) (inl refl)

  first_redirect-IsSafeResult :
      (redirects : List Redirect) (ctx : Ctx)
      → AllSome IsSafeResult (first_redirect x r url_path redirects ctx)
  unfolding first_redirect
  first_redirect-IsSafeResult [] ctx = tt
  first_redirect-IsSafeResult (rd ∷ redirects) ctx =
      elim (Option-cases (redirect_hits x url_path rd ctx)) [
        | inl miss ↦ rw (miss, AllSome) (first_redirect-IsSafeResult redirects ctx)
        | inr (ctx', hit) ↦ rw (hit, AllSome) (redirect_answer-IsSafeResult rd ctx')
      ]

  answer_or-IsSafeResult :
      (o : Option Outcome) (o' : Outcome)
      → AllSome IsSafeResult o
      → IsSafeResult o'
      → IsSafeResult (answer_or o o')
  answer_or-IsSafeResult none o' h k = k
  answer_or-IsSafeResult (some o) o' h k = h

  rewrite_request-IsSafeResult : IsSafeResult (rewrite_request x r cfg url_path query)
  unfolding rewrite_request
  rewrite_request-IsSafeResult =
      let ctx = start_ctx url_path query in
      let ends =
        run_passes-Ends x r cfg IsSafe IsSafeResult (λ _. Unit {0})
          (λ rule c _ safe. apply_rule-KeepsSafe rule c safe) (rules_free cfg.rules) max_passes ctx
          (inl (refl, refl)) in
      answer_or-IsSafeResult (first_redirect x r url_path cfg.redirects ctx) _
        (first_redirect-IsSafeResult cfg.redirects ctx)
        (of_if IsSafeResult cfg.rewrite_engine _ _ (rewritten-IsSafeResult _ ends) (inl refl))

  -- Whatever the rules substitute, an internal rewrite cannot leave the document root: the engine keeps
  -- the path of the request, or its answer is a slash and segments without a slash, neither empty nor
  -- "." nor "..", with slashes between them.
  pub engine-IsRooted :
      ((engine x r cfg url_path query).path ≡ "") ⊎ IsRooted (engine x r cfg url_path query).path
  unfolding engine
  engine-IsRooted = of_if IsSafeResult cfg.deny_all _ _ (inl refl) (
      of_if IsSafeResult (any (file_deny_matches x url_path) cfg.file_denies) _ _ (inl refl)
        rewrite_request-IsSafeResult)
