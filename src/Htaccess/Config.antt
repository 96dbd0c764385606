-- ===== src/Htaccess/Config.antt =====
-- The types of htaccess.go. A regexp is the pattern that it was compiled from.
use aegis_hosting_control_pa.Base.{ℕ, String, Bool, false, Option, List, []}
use aegis_hosting_control_pa.Htaccess.Text.{Signed}

-- Package regexp (RE2), and path.Match on well-formed patterns.
pub record Regexps : Type 0 where
  -- regexp.Compile succeeds
  pub compiles : String → Bool
  -- FindStringSubmatch of a compiled pattern: the groups of the first match
  pub find_submatch : String → String → Option (List String)
  -- ReplaceAllString: pattern, text, replacement
  pub replace_all : String → String → String → String
  -- path.Match, false where it returns an error
  pub path_match : String → String → Bool

pub record HeaderOp : Type 0 where
  pub kind : String
  pub name : String
  pub value : String
  pub pattern : String

pub record FileDeny : Type 0 where
  pub pattern : String
  pub regex : Bool

pub record RuleFlags : Type 0 where
  pub no_case : Bool
  pub last : Bool
  pub end' : Bool
  -- 0 is an internal rewrite
  pub redirect : ℕ
  pub forbidden : Bool
  pub gone : Bool
  pub qsa : Bool
  pub qsd : Bool
  pub proxy : Bool

abbrev pub no_flags : RuleFlags
no_flags = record {
  no_case = false;
  last = false;
  end' = false;
  redirect = 0;
  forbidden = false;
  gone = false;
  qsa = false;
  qsd = false;
  proxy = false;
}

-- `Lex` of a condition: 0 is a regex.
pub data Lex : Type 0 where
  regex less greater equal : Lex

-- `FileTest` without its "!".
pub data FileOp : Type 0 where
  is_file is_dir exists has_size is_executable : FileOp

pub record Cond : Type 0 where
  pub test : String
  pub pattern : String
  pub no_case : Bool
  pub or_next : Bool
  pub lex : Lex
  pub lex_neg : Bool
  -- the operator of a file test, and whether "!" stands before it
  pub file_test : Option (Bool × FileOp)

pub record Rule : Type 0 where
  pub pattern : String
  pub sub : String
  pub flags : RuleFlags
  pub conds : List Cond

abbrev pub no_rule : Rule
no_rule = record { pattern = ""; sub = ""; flags = no_flags; conds = [] }

pub record Redirect : Type 0 where
  -- RedirectMatch: `from` is a regex that compiles
  pub is_match : Bool
  pub status : ℕ
  pub from : String
  pub target : String

-- `HtConfig`, without the paths on disk.
pub record Config : Type 0 where
  pub dir_url : String
  pub rewrite_engine : Bool
  pub rewrite_base : String
  pub rules : List Rule
  pub redirects : List Redirect
  pub directory_index : List String
  -- a map: the newest entry of a code stands first
  pub error_documents : List (Signed × String)
  pub deny_all : Bool
  pub file_denies : List FileDeny
  pub php_extensions : List String
  pub directory_slash_off : Bool
  pub headers : List HeaderOp
  pub request_headers : List HeaderOp
  pub skipped : List String

abbrev pub no_config : Config
no_config = record {
  dir_url = "";
  rewrite_engine = false;
  rewrite_base = "";
  rules = [];
  redirects = [];
  directory_index = [];
  error_documents = [];
  deny_all = false;
  file_denies = [];
  php_extensions = [];
  directory_slash_off = false;
  headers = [];
  request_headers = [];
  skipped = [];
}
