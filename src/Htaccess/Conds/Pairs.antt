-- ===== src/Htaccess/Conds/Pairs.antt =====
-- How [OR] groups the conditions of a rule.
use aegis_hosting_control_pa.Base.{
  ℕ, zero, suc, String, Bool, true, false, Option, none, some, List, [], ◌∷◌, ◌&&◌, ◌||◌, not,
  if◌then◌else◌, ◌≡◌, refl, ◌∙◌, arith,
}
use Prim.Native.Char.{code}
use aegis_hosting_control_pa.Htaccess.Config.{less, greater, equal, Regexps, Cond, Lex, regex}
use aegis_hosting_control_pa.Htaccess.Expand.{server_var, expand_from, token, Request, Ctx, expand}
use aegis_hosting_control_pa.Htaccess.Conds.{
  cond_passes, FileOp, lex_passes, eval_cond, check_conds, note_groups, with_groups, cond_groups,
}

-- The branches of the loop body, with what the rest of the loop answers in each.
choose :
    {A : Type 0} (paired alone : Bool × A) (left left' : A) {a b n n' : Bool} (or_next pass : Bool)
    → n ≡ n'
    → paired.0 ≡ a
    → alone.0 ≡ b
    → (elim or_next as (λ _. Bool × A) [
      | true ↦ elim (pass || not pass && n) as (λ _. Bool × A) [
        | true ↦ paired
        | false ↦ (false, left)
      ]
      | false ↦ elim pass as (λ _. Bool × A) [ true ↦ alone | false ↦ (false, left') ]
    ]).0
      ≡ (if or_next then (pass || n') && a else pass && b)
choose p q l l' true true same_n h k = h
choose p q l l' {n = true} true false same_n h k = rw (← same_n) h
choose p q l l' {n = false} true false same_n h k = rw (← same_n)
choose p q l l' false true same_n h k = k
choose p q l l' false false same_n h k = refl

module _ (x : Regexps) (r : Request) where
  -- What a list of conditions says, if a condition with [OR] waits for the next one: `waiting` is what
  -- the one before has left.
  pub pairs_pass : Ctx → Option Bool → List Cond → Bool
  pairs_pass ctx none [] = true
  pairs_pass ctx (some b) [] = b
  pairs_pass ctx none (c ∷ conds) =
      let alone = pairs_pass ctx none conds in
      let paired = pairs_pass ctx (some (eval_cond x r ctx c)) conds in
      if c.or_next then paired else eval_cond x r ctx c && alone
  pairs_pass ctx (some b) (c ∷ conds) =
      let rest = pairs_pass ctx none conds in (b || eval_cond x r ctx c) && rest

  token-groups :
      (ctx : Ctx) (groups : Option (List String)) (c : String) (k : ℕ) (s : String)
      → token r (with_groups groups ctx) false c k s ≡ token r ctx false c k s
  unfolding token server_var
  token-groups ctx none c k s = refl
  token-groups ctx (some g) c k s = refl

  expand-groups :
      (ctx : Ctx) (groups : Option (List String)) (n : ℕ) (s : String)
      → expand_from r (with_groups groups ctx) false n s ≡ expand_from r ctx false n s
  unfolding expand_from
  expand-groups ctx groups n String.[] = refl
  expand-groups ctx groups (suc n) (String.◌∷◌ c s) = expand-groups ctx groups n s
  expand-groups ctx groups zero (String.◌∷◌ c s) =
      rw (token-groups ctx groups (String.◌∷◌ c "") (code c) s, expand-groups ctx groups _ s)

  expand-with_groups :
      (ctx : Ctx) (groups : Option (List String)) (s : String)
      → expand r (with_groups groups ctx) s ≡ expand r ctx s
  unfolding expand
  expand-with_groups ctx groups s = expand-groups ctx groups 0 s

  lex_passes-groups :
      (ctx : Ctx) (groups : Option (List String)) (c : Cond) (l : Lex) (test : String)
      → lex_passes x r (with_groups groups ctx) c l test ≡ lex_passes x r ctx c l test
  unfolding lex_passes
  lex_passes-groups ctx groups c less test = rw (expand-with_groups ctx groups c.pattern)
  lex_passes-groups ctx groups c greater test = rw (expand-with_groups ctx groups c.pattern)
  lex_passes-groups ctx groups c equal test = rw (expand-with_groups ctx groups c.pattern)
  lex_passes-groups ctx groups c regex test = refl

  cond_passes-groups :
      (ctx : Ctx) (groups : Option (List String)) (c : Cond) (test : String)
      (f : Option (Bool × FileOp))
      → cond_passes x r (with_groups groups ctx) c test f ≡ cond_passes x r ctx c test f
  cond_passes-groups ctx groups c test none = lex_passes-groups ctx groups c c.lex test
  cond_passes-groups ctx groups c test (some (neg, op)) = refl

  -- The groups of a condition are no part of what a condition tests.
  eval_cond-groups :
      (ctx : Ctx) (groups : Option (List String)) (c : Cond)
      → eval_cond x r (with_groups groups ctx) c ≡ eval_cond x r ctx c
  unfolding eval_cond
  eval_cond-groups ctx groups c =
      rw (expand-with_groups ctx groups c.test)
        (cond_passes-groups ctx groups c (expand r ctx c.test) c.file_test)

  noted :
      (ctx : Ctx) (c d : Cond) (pass : Bool)
      → eval_cond x r (note_groups x r d pass ctx) c ≡ eval_cond x r ctx c
  noted ctx c d true = eval_cond-groups ctx (cond_groups x r ctx d) c
  noted ctx c d false = refl

  noted-pairs :
      (ctx : Ctx) (d : Cond) (pass : Bool) (waiting : Option Bool) (conds : List Cond)
      → pairs_pass (note_groups x r d pass ctx) waiting conds ≡ pairs_pass ctx waiting conds
  unfolding pairs_pass
  noted-pairs ctx d pass none [] = refl
  noted-pairs ctx d pass (some b) [] = refl
  noted-pairs ctx d pass none (c ∷ conds) = rw (
    noted ctx c d pass,
    noted-pairs ctx d pass none conds,
    noted-pairs ctx d pass (some (eval_cond x r ctx c)) conds,
  )
  noted-pairs ctx d pass (some b) (c ∷ conds) =
      rw (noted ctx c d pass, noted-pairs ctx d pass none conds)

  -- The conditions of a rule are joined by "and", but for one with [OR], which is joined with the one
  -- after it alone: of three conditions joined by [OR] the third has to pass in any case.
  pub check_conds-pairs :
      (conds : List Cond) (ctx : Ctx) → (check_conds x r conds ctx).0 ≡ pairs_pass ctx none conds
  unfolding check_conds pairs_pass
  check_conds-pairs [] ctx = refl
  check_conds-pairs (c ∷ []) ctx = ground arith
  check_conds-pairs (c ∷ next ∷ conds) ctx =
      let pass = eval_cond x r ctx c in
      let ctx1 = note_groups x r c pass ctx in
      let rescued = not pass && eval_cond x r ctx1 next in
      let ctx2 = note_groups x r next rescued ctx1 in
      choose (check_conds x r conds ctx2) (check_conds x r (next ∷ conds) ctx1) ctx2 ctx1 c.or_next
        pass (noted ctx next c pass)
        (check_conds-pairs conds ctx2
          ∙ noted-pairs ctx1 next rescued none conds
          ∙ noted-pairs ctx c pass none conds)
        (check_conds-pairs (next ∷ conds) ctx1 ∙ noted-pairs ctx c pass none (next ∷ conds))
