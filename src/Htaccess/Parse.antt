-- ===== src/Htaccess/Parse.antt =====
-- `htParseFile` and `htParseDir` of htaccess.go. A file is its lines, and a directory chain the files
-- that could be read, deepest first: what is on disk is not modelled.
pub mod Statuses
use aegis_hosting_control_pa.Base.{
  ℕ, String, Bool, true, false, Option, none, some, List, [], ◌∷◌, ◌++◌, ◌&&◌, ◌||◌, not, ◌==◌,
  same, if◌then◌else◌, has_prefix, append, trim_space, map,
}
use aegis_hosting_control_pa.Htaccess.Text.{
  Signed, to_lower, equal_fold, trim_prefix, trim_suffix, has_suffix, contains, atoi, path_base,
}
use aegis_hosting_control_pa.Htaccess.Config.{
  Regexps, FileDeny, Rule, no_rule, Cond, Redirect, HeaderOp, Config, no_config,
}
use aegis_hosting_control_pa.Htaccess.Fields.{quote_fields, trim_slashes}
use aegis_hosting_control_pa.Htaccess.Directives.{
  parse_cond, parse_rule_flags, parse_redirect, parse_header_op,
}

abbrev pub continues : String → Bool
continues line = has_suffix line "\\" && not (has_suffix line "\\\\")

-- A line that ends in one backslash goes on in the next; `begun` is what a line before has begun.
unfoldable pub join_lines : Option String → List String → List String
join_lines none [] = []
join_lines (some begun) [] = begun ∷ []
join_lines none (raw ∷ lines) =
    let line = trim_space raw in
    if same line "" || has_prefix line "#" then join_lines none lines else elim (continues line) [
      | true ↦ join_lines (some (trim_suffix line "\\")) lines
      | false ↦ line ∷ join_lines none lines
    ]
join_lines (some begun) (raw ∷ lines) =
    let line = append begun (append " " (trim_space raw)) in
    elim (continues line) [
      | true ↦ join_lines (some (trim_suffix line "\\")) lines
      | false ↦ line ∷ join_lines none lines
    ]

-- The variables of `htParseFile`: `files_stack` has the innermost open block first.
pub record Parser : Type 0 where
  pub cfg : Config
  pub pending : Option Rule
  pub files_stack : List FileDeny

-- `htDenyAll`
unfoldable pub deny_from_all : List FileDeny → Config → Config
deny_from_all [] cfg = record cfg { deny_all = true }
deny_from_all (block ∷ _) cfg = record cfg { file_denies = cfg.file_denies ++ block ∷ [] }

abbrev pending_rule : Option Rule → Rule
pending_rule none = no_rule
pending_rule (some r) = r

abbrev add_cond : Option Cond → Rule → Rule
add_cond none r = r
add_cond (some c) r = record r { conds = r.conds ++ c ∷ [] }

unfoldable pub on_cond : List String → Parser → Parser
on_cond args p = record p { pending = some (add_cond (parse_cond args) (pending_rule p.pending)) }

unfoldable pub on_rule : List String → Parser → Parser
on_rule [] p = record p { pending = none }
on_rule (_ ∷ []) p = record p { pending = none }
on_rule (pattern ∷ sub ∷ flags) p =
    let r = record (pending_rule p.pending) {
      pattern = pattern;
      sub = sub;
      flags = parse_rule_flags flags;
    } in
    record p { pending = none; cfg = record p.cfg { rules = p.cfg.rules ++ r ∷ [] } }

abbrev pub add_redirect : Option Redirect → Config → Config
add_redirect none cfg = cfg
add_redirect (some r) cfg = record cfg { redirects = cfg.redirects ++ r ∷ [] }

abbrev add_header : Option HeaderOp → List HeaderOp → List HeaderOp
add_header none ops = ops
add_header (some op) ops = ops ++ op ∷ []

-- A directive that looks at its first argument only, or at its first two.
abbrev pub first_arg : List String → (String → Config) → Config → Config
first_arg [] f cfg = cfg
first_arg (a ∷ _) f cfg = f a

abbrev pub two_args : List String → (String → String → Config) → Config → Config
two_args [] f cfg = cfg
two_args (_ ∷ []) f cfg = cfg
two_args (a ∷ b ∷ _) f cfg = f a b

abbrev pub error_document : Option Signed → String → Config → Config
error_document none target cfg = cfg
error_document (some code) target cfg = record cfg {
  error_documents = (code, target) ∷ cfg.error_documents;
}

pub add_type : List String → Config → Config
add_type [] cfg = cfg
add_type (_ ∷ []) cfg = cfg
add_type (kind ∷ exts) cfg =
    if contains (to_lower kind) "php"
    then record cfg {
      php_extensions = cfg.php_extensions ++ map (λ x. to_lower (trim_prefix x ".")) exts;
    }
    else cfg

-- A directive that changes the configuration alone; `name` is the word as it was written.
unfoldable pub on_config : Regexps → List FileDeny → String → String → List String → Config → Config
unfolding add_type
on_config x stack name dir args cfg =
    if same dir "rewriteengine"
    then first_arg args (λ a. record cfg { rewrite_engine = equal_fold a "on" }) cfg
    else if same dir "rewritebase"
    then first_arg args (λ a. record cfg { rewrite_base = trim_slashes a }) cfg
    else if same dir "redirect"
        || same dir "redirectmatch"
        || same dir "redirectperm"
        || same dir "redirecttemp"
    then add_redirect (parse_redirect x dir args) cfg
    else if same dir "directoryindex"
    then record cfg { directory_index = cfg.directory_index ++ map path_base args }
    else if same dir "errordocument"
    then two_args args (λ code target. error_document (atoi code) target cfg) cfg
    else if same dir "require"
    then two_args args
        (λ a b.
          if equal_fold a "all" && equal_fold b "denied" then deny_from_all stack cfg else cfg)
        cfg
    else if same dir "deny"
    then two_args args
        (λ a b. if equal_fold a "from" && equal_fold b "all" then deny_from_all stack cfg else cfg)
        cfg
    else if same dir "options"
    then cfg
    else if same dir "directoryslash"
    then first_arg args (λ a. record cfg { directory_slash_off = equal_fold a "off" }) cfg
    else if same dir "header"
    then record cfg { headers = add_header (parse_header_op args) cfg.headers }
    else if same dir "requestheader"
    then record cfg { request_headers = add_header (parse_header_op args) cfg.request_headers }
    else if same dir "addtype"
    then add_type args cfg
    else record cfg { skipped = cfg.skipped ++ name ∷ [] }

abbrev block_pattern : List String → String
block_pattern [] = ""
block_pattern (a ∷ _) = trim_suffix a ">"

abbrev close_block : List FileDeny → List FileDeny
close_block [] = []
close_block (_ ∷ stack) = stack

-- One line of `htParseFile`.
unfoldable pub on_directive : Regexps → List String → Parser → Parser
on_directive x [] p = p
on_directive x (name ∷ args) p =
    let dir = to_lower name in
    if same dir "rewritecond"
    then on_cond args p
    else if same dir "rewriterule"
    then on_rule args p
    else if same dir "<files" || same dir "<filesmatch"
    then record p {
      files_stack =
          record { pattern = block_pattern args; regex = same dir "<filesmatch" } ∷ p.files_stack;
    }
    else if same dir "</files>" || same dir "</filesmatch>"
    then record p { files_stack = close_block p.files_stack }
    else record p { cfg = on_config x p.files_stack name dir args p.cfg }

unfoldable pub parse_lines : Regexps → List String → Parser → Parser
parse_lines x [] p = p
parse_lines x (line ∷ lines) p = parse_lines x lines (on_directive x (quote_fields line) p)

abbrev pub new_parser : Parser
new_parser = record { cfg = no_config; pending = none; files_stack = [] }

-- `htParseFile`: the directory chain gives each file an empty configuration.
unfoldable pub parse_file : Regexps → List String → Config
parse_file x lines = (parse_lines x (join_lines none lines) new_parser).cfg

abbrev or_text : String → String → String
or_text s t = if same s "" then t else s

abbrev or_list : {A : Type 0} → List A → List A → List A
or_list [] ys = ys
or_list (x ∷ xs) ys = x ∷ xs

-- The loop body of `htParseDir`. The entries of the deeper files stand first, so they are found first.
unfoldable pub merge : Config → Config → Config
merge cfg sub = record {
  dir_url = cfg.dir_url;
  rewrite_engine = cfg.rewrite_engine || sub.rewrite_engine;
  rewrite_base = or_text cfg.rewrite_base sub.rewrite_base;
  rules = cfg.rules ++ sub.rules;
  redirects = cfg.redirects ++ sub.redirects;
  directory_index = or_list cfg.directory_index sub.directory_index;
  error_documents = cfg.error_documents ++ sub.error_documents;
  deny_all = cfg.deny_all || sub.deny_all;
  file_denies = cfg.file_denies ++ sub.file_denies;
  php_extensions = cfg.php_extensions ++ sub.php_extensions;
  directory_slash_off = cfg.directory_slash_off || sub.directory_slash_off;
  headers = cfg.headers ++ sub.headers;
  request_headers = cfg.request_headers ++ sub.request_headers;
  skipped = cfg.skipped ++ sub.skipped;
}

unfoldable pub merge_files : Regexps → Config → List (List String) → Config
merge_files x cfg [] = cfg
merge_files x cfg (lines ∷ files) = merge_files x (merge cfg (parse_file x lines)) files

-- `htParseDir`, of a chain whose deepest file governs `dir_url`.
unfoldable pub parse_dir : Regexps → String → List (List String) → Config
parse_dir x dir_url files = merge_files x (record no_config { dir_url = dir_url }) files
