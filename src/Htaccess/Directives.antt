-- ===== src/Htaccess/Directives.antt =====
-- The directives of a .htaccess file: htParseCond, htParseRuleFlags, htParseRedirect,
-- htParseHeaderOp.
pub mod Statuses
use aegis_hosting_control_pa.Base.{
  ℕ, String, Bool, true, false, Option, none, some, List, [], ◌∷◌, ◌&&◌, ◌||◌, not, leb, ltb, ◌==◌,
  same, if◌then◌else◌, has_prefix, trim_space,
}
use aegis_hosting_control_pa.Htaccess.Text.{
  Signed, to_lower, to_upper, equal_fold, trim_prefix, trim_of, is_bracket, cut, split_on, join,
  atoi, drop_bytes,
}
use aegis_hosting_control_pa.Htaccess.Config.{
  Regexps, HeaderOp, RuleFlags, no_flags, Lex, FileOp, Cond, Redirect, is_file, is_dir, exists,
  has_size, is_executable, regex, less, greater, equal,
}

-- The flags of a condition.
unfoldable pub cond_flags : List String → Cond → Cond
cond_flags [] c = c
cond_flags (fl ∷ flags) c =
    let up = to_upper (trim_of is_bracket fl) in
    cond_flags flags (
      if same up "NC" || same up "NOCASE"
      then record c { no_case = true }
      else if same up "OR" || same up "ORNEXT"
      then record c { or_next = true }
      else c)

abbrev pub file_op : String → Option FileOp
file_op p =
    if same p "-f"
    then some is_file
    else if same p "-d"
    then some is_dir
    else if same p "-e"
    then some exists
    else if same p "-s"
    then some has_size
    else if same p "-x"
    then some is_executable
    else none

abbrev pub lex_op : String → Lex
lex_op p =
    if has_prefix p "<"
    then less
    else if has_prefix p ">"
    then greater
    else if has_prefix p "="
    then equal
    else regex

-- A comparison drops its sign from the pattern.
abbrev pub with_lex : Lex → Bool → String → Cond → Cond
with_lex regex neg p c = c
with_lex l neg p c = record c { lex = l; lex_neg = neg; pattern = drop_bytes 1 p }

abbrev pub with_file_test : Option FileOp → Bool → String → Cond → Cond
with_file_test (some op) neg p c = record c { file_test = some (neg, op); pattern = "" }
with_file_test none neg p c = with_lex (lex_op p) neg p c

-- What the pattern of a condition says, without its "!".
unfoldable pub cond_pattern : Bool → String → Cond → Cond
cond_pattern neg p c = with_file_test (file_op p) neg p c

-- `htParseCond`
unfoldable pub parse_cond : List String → Option Cond
parse_cond [] = none
parse_cond (_ ∷ []) = none
parse_cond (test ∷ pattern ∷ flags) =
    let c = cond_flags flags (record {
      test = test;
      pattern = pattern;
      no_case = false;
      or_next = false;
      lex = regex;
      lex_neg = false;
      file_test = none;
    }) in
    some (cond_pattern (has_prefix pattern "!") (trim_prefix pattern "!") c)

abbrev pub is_redirect_status : ℕ → Bool
is_redirect_status n = leb 300 n && ltb n 400

-- The code after "R="; a number out of range leaves 302.
abbrev pub numbered_status : Option Signed → ℕ
numbered_status none = 302
numbered_status (some (negative, n)) = if not negative && is_redirect_status n then n else 302

unfoldable pub status_word : String → ℕ
status_word word =
    let up = to_upper (trim_space word) in
    if same up "PERMANENT"
    then 301
    else if same up "TEMP"
    then 302
    else if same up "SEEOTHER"
    then 303
    else numbered_status (atoi word)

abbrev pub redirect_flag : Option (String × String) → ℕ
redirect_flag none = 302
redirect_flag (some (_, word)) = status_word word

unfoldable pub rule_flag : String → RuleFlags → RuleFlags
rule_flag raw f =
    let fl = trim_space raw in
    let up = to_upper fl in
    if same up "NC" || same up "NOCASE"
    then record f { no_case = true }
    else if same up "L" || same up "LAST"
    then record f { last = true }
    else if same up "END"
    then record f { end' = true; last = true }
    else if same up "F" || same up "FORBIDDEN"
    then record f { forbidden = true }
    else if same up "G" || same up "GONE"
    then record f { gone = true }
    else if same up "QSA"
    then record f { qsa = true }
    else if same up "QSD"
    then record f { qsd = true }
    else if same up "P" || same up "PROXY"
    then record f { proxy = true }
    else if has_prefix up "R"
    then record f { redirect = redirect_flag (cut b'=' fl) }
    else f

unfoldable pub rule_flags_from : List String → RuleFlags → RuleFlags
rule_flags_from [] f = f
rule_flags_from (fl ∷ flags) f = rule_flags_from flags (rule_flag fl f)

-- `htParseRuleFlags`
unfoldable pub parse_rule_flags : List String → RuleFlags
parse_rule_flags [] = no_flags
parse_rule_flags (flags ∷ _) = rule_flags_from (split_on b',' (trim_of is_bracket flags)) no_flags

-- The status that a number or a word stands for, and whether the argument is one.
abbrev pub numbered_redirect : ℕ → Signed → ℕ
numbered_redirect status (negative, n) =
    if negative
    then status
    else if n == 410
    then 410
    else if is_redirect_status n
    then n
    else status

unfoldable pub named_redirect : ℕ → String → Option ℕ
named_redirect status word =
    if same word "permanent"
    then some 301
    else if same word "temp"
    then some status
    else if same word "seeother"
    then some 303
    else if same word "gone"
    then some 410
    else none

abbrev pub status_of : ℕ → String → Option Signed → Option ℕ
status_of status word (some n) = some (numbered_redirect status n)
status_of status word none = named_redirect status word

abbrev pub status_argument : ℕ → String → Option ℕ
status_argument status arg = status_of status (to_lower arg) (atoi arg)

-- The arguments after the status; only "gone" needs no target.
unfoldable pub redirect_to : Regexps → Bool → ℕ → List String → Option Redirect
redirect_to x is_match status [] = none
redirect_to x is_match status (from ∷ []) =
    if status == 410
    then some (record { is_match = false; status = status; from = from; target = "" })
    else none
redirect_to x is_match status (from ∷ target ∷ _) =
    if is_match && not (x.compiles from)
    then none
    else some (record { is_match = is_match; status = status; from = from; target = target })

abbrev pub redirect_args : Regexps → Bool → ℕ → String → List String → Option ℕ → Option Redirect
redirect_args x is_match status arg rest none = redirect_to x is_match status (arg ∷ rest)
redirect_args x is_match status arg rest (some s) = redirect_to x is_match s rest

-- `htParseRedirect`
unfoldable pub parse_redirect : Regexps → String → List String → Option Redirect
parse_redirect x dir [] = none
parse_redirect x dir (_ ∷ []) = none
parse_redirect x dir (arg ∷ next ∷ more) =
    let status = if same dir "redirectperm" then 301 else 302 in
    redirect_args x (same dir "redirectmatch") status arg (next ∷ more) (status_argument status arg)

abbrev header_args : List String → List String
header_args [] = []
header_args (a ∷ args) =
    if equal_fold a "always" || equal_fold a "onsuccess" then args else a ∷ args

header_edit : String → String → List String → Option HeaderOp
header_edit kind name [] = none
header_edit kind name (_ ∷ []) = none
header_edit kind name (pattern ∷ value ∷ _) =
    some (record { kind = kind; name = name; value = value; pattern = pattern })

header_op : List String → Option HeaderOp
unfolding header_edit
header_op [] = none
header_op (_ ∷ []) = none
header_op (word ∷ name ∷ rest) =
    let kind = to_lower word in
    if same kind "unset"
    then some (record { kind = kind; name = name; value = ""; pattern = "" })
    else if same kind "edit" || same kind "edit*"
    then header_edit kind name rest
    else some (record { kind = kind; name = name; value = join " " rest; pattern = "" })

-- `htParseHeaderOp`
unfoldable pub parse_header_op : List String → Option HeaderOp
unfolding header_op
parse_header_op args = header_op (header_args args)
