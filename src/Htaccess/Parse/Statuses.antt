-- ===== src/Htaccess/Parse/Statuses.antt =====
-- The statuses that the files of a directory chain can ask for.
use aegis_hosting_control_pa.Base.{
  of_if, same, String, true, Option, none, some, List, [], ◌∷◌, ◌++◌, ◌&&◌, ◌||◌, ◌≡◌, All, same,
  Bool-cases, inl, inr,
}
use aegis_hosting_control_pa.Htaccess.Text.{Signed, to_lower, atoi, contains, equal_fold}
use aegis_hosting_control_pa.Htaccess.Fields.{quote_fields}
use aegis_hosting_control_pa.Htaccess.Config.{Regexps, Rule, Redirect, Config, FileDeny, no_config}
use aegis_hosting_control_pa.Htaccess.Directives.{}
use aegis_hosting_control_pa.Htaccess.Parse.{
  to_lower, add_redirect, atoi, Parser, new_parser, join_lines, first_arg, two_args, error_document,
  add_type, deny_from_all, add_redirect, on_cond, on_rule, on_config, on_directive, parse_lines,
  parse_file, merge, merge_files, parse_dir,
}
use aegis_hosting_control_pa.Htaccess.Directives.Statuses.{
  AllSome, IsAlias, is_flag_status, parse_rule_flags-range, parse_redirect-IsAlias,
}

abbrev pub IsFlagged : Rule → Type 0
IsFlagged r = is_flag_status r.flags.redirect ≡ true

-- Every status of a configuration is one that the program knows.
abbrev pub HasStatuses : Config → Type 0
HasStatuses cfg = All IsFlagged cfg.rules × All IsAlias cfg.redirects

All-append : {A : Type 0} (P : A → Type 0) (xs ys : List A) → All P xs → All P ys → All P (xs ++ ys)
All-append P [] ys h k = k
All-append P (x ∷ xs) ys (h, hs) k = (h, All-append P xs ys hs k)

on_rule-HasStatuses :
    (args : List String) (p : Parser) → HasStatuses p.cfg → HasStatuses (on_rule args p).cfg
unfolding on_rule
on_rule-HasStatuses [] p h = h
on_rule-HasStatuses (_ ∷ []) p h = h
on_rule-HasStatuses (pattern ∷ sub ∷ flags) p (h, k) =
    (All-append IsFlagged p.cfg.rules _ h (parse_rule_flags-range flags, tt), k)

on_cond-HasStatuses :
    (args : List String) (p : Parser) → HasStatuses p.cfg → HasStatuses (on_cond args p).cfg
unfolding on_cond
on_cond-HasStatuses args p h = h

add_redirect-HasStatuses :
    (o : Option Redirect) (cfg : Config)
    → AllSome IsAlias o
    → HasStatuses cfg
    → HasStatuses (add_redirect o cfg)
add_redirect-HasStatuses none cfg a h = h
add_redirect-HasStatuses (some rd) cfg a (h, k) = (h, All-append IsAlias cfg.redirects _ k (a, tt))

of_first_arg :
    (args : List String) (f : String → Config) (cfg : Config)
    → ((a : String) → HasStatuses (f a))
    → HasStatuses cfg
    → HasStatuses (first_arg args f cfg)
of_first_arg [] f cfg h k = k
of_first_arg (a ∷ _) f cfg h k = h a

of_two_args :
    (args : List String) (f : String → String → Config) (cfg : Config)
    → ((a b : String) → HasStatuses (f a b))
    → HasStatuses cfg
    → HasStatuses (two_args args f cfg)
of_two_args [] f cfg h k = k
of_two_args (_ ∷ []) f cfg h k = k
of_two_args (a ∷ b ∷ _) f cfg h k = h a b

error_document-HasStatuses :
    (code : Option Signed) (target : String) (cfg : Config)
    → HasStatuses cfg
    → HasStatuses (error_document code target cfg)
error_document-HasStatuses none target cfg h = h
error_document-HasStatuses (some code) target cfg h = h

deny_from_all-HasStatuses :
    (stack : List FileDeny) (cfg : Config) → HasStatuses cfg → HasStatuses (deny_from_all stack cfg)
unfolding deny_from_all
deny_from_all-HasStatuses [] cfg h = h
deny_from_all-HasStatuses (_ ∷ _) cfg h = h

add_type-HasStatuses :
    (args : List String) (cfg : Config) → HasStatuses cfg → HasStatuses (add_type args cfg)
unfolding add_type
add_type-HasStatuses [] cfg h = h
add_type-HasStatuses (_ ∷ []) cfg h = h
add_type-HasStatuses (kind ∷ exts) cfg h =
    of_if HasStatuses (contains (to_lower kind) "php") _ _ h h

on_config-HasStatuses :
    (x : Regexps) (stack : List FileDeny) (name dir : String) (args : List String) (cfg : Config)
    → HasStatuses cfg
    → HasStatuses (on_config x stack name dir args cfg)
unfolding on_config
on_config-HasStatuses x stack name dir args cfg h =
    let or_else = of_if HasStatuses in
    let denied = deny_from_all-HasStatuses stack cfg h in
    or_else (same dir "rewriteengine") _ _ (of_first_arg args _ cfg (λ a. h) h) (
      or_else (same dir "rewritebase") _ _ (of_first_arg args _ cfg (λ a. h) h) (
        or_else _ _ _ (add_redirect-HasStatuses _ cfg (parse_redirect-IsAlias x dir args) h) (
          or_else (same dir "directoryindex") _ _ h (
            or_else (same dir "errordocument") _ _
              (of_two_args args _ cfg (λ a b. error_document-HasStatuses (atoi a) b cfg h) h)
              (or_else (same dir "require") _ _
                (of_two_args args _ cfg
                  (λ a b. or_else (equal_fold a "all" && equal_fold b "denied") _ _ denied h) h)
                (or_else (same dir "deny") _ _
                  (of_two_args args _ cfg
                    (λ a b. or_else (equal_fold a "from" && equal_fold b "all") _ _ denied h) h)
                  (or_else (same dir "options") _ _ h (
                    or_else (same dir "directoryslash") _ _ (of_first_arg args _ cfg (λ a. h) h) (
                      or_else (same dir "header") _ _ h (
                        or_else (same dir "requestheader") _ _ h (
                          or_else (same dir "addtype") _ _ (add_type-HasStatuses args cfg h)
                            h)))))))))))

on_directive-HasStatuses :
    (x : Regexps) (fields : List String) (p : Parser)
    → HasStatuses p.cfg
    → HasStatuses (on_directive x fields p).cfg
unfolding on_directive
on_directive-HasStatuses x [] p h = h
on_directive-HasStatuses x (name ∷ args) p h =
    let dir = to_lower name in
    elim (Bool-cases (same dir "rewritecond")) [
      | inl e ↦ rw e (on_cond-HasStatuses args p h)
      | inr e ↦ elim (Bool-cases (same dir "rewriterule")) [
        | inl e' ↦ rw (e, e') (on_rule-HasStatuses args p h)
        | inr e' ↦ elim (Bool-cases (same dir "<files" || same dir "<filesmatch")) [
          | inl e'' ↦ rw (e, e', e'') h
          | inr e'' ↦ elim (Bool-cases (same dir "</files>" || same dir "</filesmatch>")) [
            | inl e3 ↦ rw (e, e', e'', e3) h
            | inr e3 ↦
                rw (e, e', e'', e3) (on_config-HasStatuses x p.files_stack name dir args p.cfg h)
          ]
        ]
      ]
    ]

parse_lines-HasStatuses :
    (x : Regexps) (lines : List String) (p : Parser)
    → HasStatuses p.cfg
    → HasStatuses (parse_lines x lines p).cfg
unfolding parse_lines
parse_lines-HasStatuses x [] p h = h
parse_lines-HasStatuses x (line ∷ lines) p h =
    parse_lines-HasStatuses x lines (on_directive x (quote_fields line) p)
      (on_directive-HasStatuses x (quote_fields line) p h)

parse_file-HasStatuses : (x : Regexps) (lines : List String) → HasStatuses (parse_file x lines)
unfolding parse_file
parse_file-HasStatuses x lines =
    parse_lines-HasStatuses x (join_lines none lines) new_parser (tt, tt)

merge_files-HasStatuses :
    (x : Regexps) (cfg : Config) (files : List (List String))
    → HasStatuses cfg
    → HasStatuses (merge_files x cfg files)
unfolding merge_files merge
merge_files-HasStatuses x cfg [] h = h
merge_files-HasStatuses x cfg (lines ∷ files) (h, k) =
    let (h', k') = parse_file-HasStatuses x lines in
    merge_files-HasStatuses x (merge cfg (parse_file x lines)) files
      (All-append IsFlagged cfg.rules _ h h', All-append IsAlias cfg.redirects _ k k')

pub parse_dir-HasStatuses :
    (x : Regexps) (dir_url : String) (files : List (List String))
    → HasStatuses (parse_dir x dir_url files)
unfolding parse_dir
parse_dir-HasStatuses x dir_url files =
    merge_files-HasStatuses x (record no_config { dir_url = dir_url }) files (tt, tt)
