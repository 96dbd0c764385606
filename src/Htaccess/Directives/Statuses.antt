-- ===== src/Htaccess/Directives/Statuses.antt =====
-- The statuses that RewriteRule flags and Redirect directives can ask for.
use aegis_hosting_control_pa.Base.{
  of_if, same, ℕ, String, Bool, true, Option, none, some, List, [], ◌∷◌, ◌&&◌, ◌||◌, not,
  if◌then◌else◌, ◌==◌, ◌≡◌, refl, arith, has_prefix, trim_space, same,
}
use aegis_hosting_control_pa.Htaccess.Text.{to_upper, cut, to_lower, atoi}
use aegis_hosting_control_pa.Htaccess.Config.{Regexps, RuleFlags, Redirect, no_flags}
use aegis_hosting_control_pa.Htaccess.Directives.{
  status_of, is_redirect_status, status_word, redirect_flag, rule_flag, rule_flags_from,
  parse_rule_flags, redirect_to, named_redirect, redirect_args, status_argument, parse_redirect,
  numbered_status,
}

-- 0, an internal rewrite, or 3xx.
abbrev pub is_flag_status : ℕ → Bool
is_flag_status n = n == 0 || is_redirect_status n

-- 410 or 3xx.
abbrev pub is_alias_status : ℕ → Bool
is_alias_status n = n == 410 || is_redirect_status n

numbered_status-range : (n : Option (Bool × ℕ)) → is_redirect_status (numbered_status n) ≡ true
numbered_status-range none = refl
numbered_status-range (some (neg, n)) = ground arith

status_word-range : (w : String) → is_redirect_status (status_word w) ≡ true
unfolding status_word
status_word-range w = ground (arith, numbered_status-range (atoi w))

redirect_flag-range : (o : Option (String × String)) → is_redirect_status (redirect_flag o) ≡ true
redirect_flag-range none = refl
redirect_flag-range (some (_, w)) = status_word-range w

flag_status : (n : ℕ) → is_redirect_status n ≡ true → is_flag_status n ≡ true
flag_status n h = ground arith

abbrev HasFlag : RuleFlags → Type 0
HasFlag f = is_flag_status f.redirect ≡ true

rule_flag-HasFlag : (raw : String) (f : RuleFlags) → HasFlag f → HasFlag (rule_flag raw f)
unfolding rule_flag
rule_flag-HasFlag raw f h =
    let fl = trim_space raw in
    let up = to_upper fl in
    of_if HasFlag (same up "NC" || same up "NOCASE") _ _ h (
      of_if HasFlag (same up "L" || same up "LAST") _ _ h (
        of_if HasFlag (same up "END") _ _ h (
          of_if HasFlag (same up "F" || same up "FORBIDDEN") _ _ h (
            of_if HasFlag (same up "G" || same up "GONE") _ _ h (
              of_if HasFlag (same up "QSA") _ _ h (
                of_if HasFlag (same up "QSD") _ _ h (
                  of_if HasFlag (same up "P" || same up "PROXY") _ _ h (
                    of_if HasFlag (has_prefix up "R") _ _
                      (flag_status (redirect_flag (cut b'=' fl))
                        (redirect_flag-range (cut b'=' fl)))
                      h))))))))

rule_flags_from-HasFlag :
    (flags : List String) (f : RuleFlags) → HasFlag f → HasFlag (rule_flags_from flags f)
unfolding rule_flags_from
rule_flags_from-HasFlag [] f h = h
rule_flags_from-HasFlag (fl ∷ flags) f h =
    rule_flags_from-HasFlag flags (rule_flag fl f) (rule_flag-HasFlag fl f h)

pub parse_rule_flags-range :
    (args : List String) → is_flag_status (parse_rule_flags args).redirect ≡ true
unfolding parse_rule_flags
parse_rule_flags-range [] = refl
parse_rule_flags-range (flags ∷ _) = rule_flags_from-HasFlag _ no_flags refl

-- What an optional status is, if it is one.
abbrev pub AllSome : {A : Type 0} → (A → Type 0) → Option A → Type 0
AllSome P none = Unit
AllSome P (some a) = P a

abbrev pub IsAlias : Redirect → Type 0
IsAlias rd = is_alias_status rd.status ≡ true

redirect_to-IsAlias :
    (x : Regexps) (is_match : Bool) (status : ℕ) (args : List String)
    → is_alias_status status ≡ true
    → AllSome IsAlias (redirect_to x is_match status args)
unfolding redirect_to
redirect_to-IsAlias x m status [] h = tt
redirect_to-IsAlias x m status (from ∷ []) h = of_if (AllSome IsAlias) (status == 410) _ _ h tt
redirect_to-IsAlias x m status (from ∷ target ∷ _) h =
    of_if (AllSome IsAlias) (m && not (x.compiles from)) _ _ tt h

status_of-range :
    (status : ℕ) (word : String) (n : Option (Bool × ℕ))
    → is_alias_status status ≡ true
    → AllSome (λ s. is_alias_status s ≡ true) (status_of status word n)
unfolding named_redirect
status_of-range status word none h =
    let P = AllSome (λ s. is_alias_status s ≡ true) in
    of_if P (same word "permanent") _ _ refl (
      of_if P (same word "temp") _ _ h
        (of_if P (same word "seeother") _ _ refl (of_if P (same word "gone") _ _ refl tt)))
status_of-range status word (some (neg, n)) h = ground arith

redirect_args-IsAlias :
    (x : Regexps) (m : Bool) (status : ℕ) (arg : String) (rest : List String) (o : Option ℕ)
    → is_alias_status status ≡ true
    → AllSome (λ s. is_alias_status s ≡ true) o
    → AllSome IsAlias (redirect_args x m status arg rest o)
redirect_args-IsAlias x m status arg rest none h k = redirect_to-IsAlias x m status (arg ∷ rest) h
redirect_args-IsAlias x m status arg rest (some s) h k = redirect_to-IsAlias x m s rest k

pub parse_redirect-IsAlias :
    (x : Regexps) (dir : String) (args : List String) → AllSome IsAlias (parse_redirect x dir args)
unfolding parse_redirect
parse_redirect-IsAlias x dir [] = tt
parse_redirect-IsAlias x dir (_ ∷ []) = tt
parse_redirect-IsAlias x dir (arg ∷ next ∷ more) =
    let status = if same dir "redirectperm" then 301 else 302 in
    let h : is_alias_status status ≡ true = ground arith in
    redirect_args-IsAlias x (same dir "redirectmatch") status arg (next ∷ more)
      (status_argument status arg) h (status_of-range status (to_lower arg) (atoi arg) h)
