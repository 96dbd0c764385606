-- ===== src/Examples/Rewrites.antt =====
-- A .htaccess chain and a request, with a regexp that matches just its own text.
use aegis_hosting_control_pa.Base.{
  String, true, false, none, some, List, [], ◌∷◌, ◌≡◌, ◌⊎◌, same, if◌then◌else◌, any,
}
use aegis_hosting_control_pa.Htaccess.Config.{Lex, Regexps, Cond}
use aegis_hosting_control_pa.Htaccess.Parse.{parse_file, parse_dir}
use aegis_hosting_control_pa.Htaccess.Expand.{Request, Ctx}
use aegis_hosting_control_pa.Htaccess.Conds.{check_conds}
use aegis_hosting_control_pa.Htaccess.Conds.Pairs.{pairs_pass, check_conds-pairs}
use aegis_hosting_control_pa.Htaccess.Rules.{refused}
use aegis_hosting_control_pa.Htaccess.Engine.{engine, rewrite_request}
use aegis_hosting_control_pa.Htaccess.Engine.Denied.{denies, engine-parse_dir}
use aegis_hosting_control_pa.Htaccess.Engine.Answers.{is_answer, engine-statuses}
use aegis_hosting_control_pa.Htaccess.Engine.Rooted.{IsRooted, engine-IsRooted}

abbrev texts : Regexps
texts = record {
  compiles = λ _. true;
  find_submatch = λ p t. if same p t then some (t ∷ []) else none;
  replace_all = λ p t by. if same p t then by else t;
  path_match = same;
}

abbrev visit : Request
visit = record {
  method = "GET";
  host = "example.org:8080";
  host_port = some "8080";
  tls = false;
  remote_addr = "10.0.0.1";
  header = λ _. "";
  request_uri = "/blog";
  proto = "HTTP/1.1";
  root = "/home/ada/public_html";
  getenv = λ _. "";
  stat = λ _. none;
}

abbrev chain : List (List String)
chain =
    ("RewriteEngine On" ∷ "RewriteRule blog ../../index.php?page=$0 [L]" ∷ [])
    ∷ ("<Files secret.db>" ∷ "Require all denied" ∷ "</Files>" ∷ [])
    ∷ []

engine-parse_dir_example : engine texts visit (parse_dir texts "/" chain) "/secret.db" "" ≡ (
    if any (λ lines. denies texts "/secret.db" (parse_file texts lines)) chain
    then refused 403
    else rewrite_request texts visit (parse_dir texts "/" chain) "/secret.db" "")
engine-parse_dir_example = engine-parse_dir texts "/secret.db" visit "/" "" chain

engine-statuses_example :
    is_answer (engine texts visit (parse_dir texts "/" chain) "/blog" "").status ≡ true
engine-statuses_example = engine-statuses texts visit "/" chain "/blog" ""

engine-IsRooted_example :
    ((engine texts visit (parse_dir texts "/" chain) "/blog" "").path ≡ "")
    ⊎ IsRooted (engine texts visit (parse_dir texts "/" chain) "/blog" "").path
engine-IsRooted_example = engine-IsRooted texts visit (parse_dir texts "/" chain) "/blog" ""

abbrev plain_ctx : Ctx
plain_ctx = record { path = "/blog"; query = ""; rule_refs = []; sub_refs = [] }

abbrev either : String → Cond
either pattern = record {
  test = "%{REQUEST_METHOD}";
  pattern = pattern;
  no_case = false;
  or_next = true;
  lex = Lex.regex;
  lex_neg = false;
  file_test = none;
}

-- GET or POST, and HEAD: Apache would take any of the three.
abbrev three : List Cond
three = either "GET" ∷ either "POST" ∷ either "HEAD" ∷ []

check_conds-pairs_example :
    (check_conds texts visit three plain_ctx).0 ≡ pairs_pass texts visit plain_ctx none three
check_conds-pairs_example = check_conds-pairs texts visit three plain_ctx
