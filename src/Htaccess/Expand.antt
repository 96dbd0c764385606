-- ===== src/Htaccess/Expand.antt =====
-- The variables and back references of htaccess.go: htExpandSub, htExpand, htServerVar.
use Prim.Native.Char.{code}
use aegis_hosting_control_pa.Base.{
  ℕ, zero, suc, ◌+◌, ◌-◌, String, Bool, true, false, Option, none, some, List, [], ◌∷◌, ◌&&◌, ◌||◌,
  leb, ◌==◌, same, if◌then◌else◌, has_prefix, append,
}
use aegis_hosting_control_pa.Htaccess.Text.{
  to_upper, trim_prefix, cut, split_on, dashed, clean_rooted,
}

-- What `os.Stat` reports of a file.
pub record FileInfo : Type 0 where
  pub is_regular : Bool
  pub is_directory : Bool
  pub size : ℕ
  pub executable : Bool

-- The request, and what stands outside the engine: the environment and the files. `root` is an
-- absolute path.
pub record Request : Type 0 where
  pub method : String
  pub host : String
  -- the port of net.SplitHostPort, if there is one
  pub host_port : Option String
  pub tls : Bool
  pub remote_addr : String
  pub header : String → String
  pub request_uri : String
  pub proto : String
  pub root : String
  pub getenv : String → String
  pub stat : String → Option FileInfo

-- `htCtx`: what changes while the rules run. No groups yet is `nil`.
pub record Ctx : Type 0 where
  pub path : String
  pub query : String
  pub rule_refs : List String
  pub sub_refs : List String

abbrev pub port_or : Option String → Bool → String
port_or (some p) tls = p
port_or none tls = if tls then "443" else "80"

abbrev first_part : List String → String
first_part [] = ""
first_part (s ∷ _) = s

abbrev pub request_filename : Request → String → String
request_filename r path = clean_rooted (append r.root (append "/" (trim_prefix path "/")))

-- The variables that are a prefix and a name.
prefixed_var : Request → String → String
prefixed_var r upper =
    if has_prefix upper "HTTP:"
    then r.header (dashed (trim_prefix upper "HTTP:"))
    else if has_prefix upper "HTTP_"
    then r.header (dashed (trim_prefix upper "HTTP_"))
    else if has_prefix upper "ENV:"
    then r.getenv (trim_prefix upper "ENV:")
    else ""

-- The variables of the request alone.
request_var : Request → String → String
unfolding prefixed_var
request_var r upper =
    if same upper "DOCUMENT_ROOT"
    then r.root
    else if same upper "REQUEST_METHOD"
    then r.method
    else if same upper "HTTP_HOST" || same upper "SERVER_NAME"
    then first_part (split_on b':' r.host)
    else if same upper "SERVER_PORT"
    then port_or r.host_port r.tls
    else if same upper "HTTPS"
    then (if r.tls then "on" else "off")
    else if same upper "REMOTE_ADDR"
    then r.remote_addr
    else if same upper "HTTP_REFERER"
    then r.header "Referer"
    else if same upper "HTTP_USER_AGENT"
    then r.header "User-Agent"
    else if same upper "HTTP_COOKIE"
    then r.header "Cookie"
    else if same upper "THE_REQUEST"
    then append r.method (append " " (append r.request_uri (append " " r.proto)))
    else if same upper "SERVER_PROTOCOL"
    then r.proto
    else if same upper "REQUEST_SCHEME"
    then (if r.tls then "https" else "http")
    else prefixed_var r upper

-- `htServerVar`
unfoldable pub server_var : Request → Ctx → String → String
unfolding request_var
server_var r ctx name =
    let upper = to_upper name in
    if same upper "REQUEST_URI"
    then (if same ctx.query "" then ctx.path else append ctx.path (append "?" ctx.query))
    else if same upper "REQUEST_FILENAME" || same upper "SCRIPT_FILENAME"
    then request_filename r ctx.path
    else if same upper "QUERY_STRING"
    then ctx.query
    else request_var r upper

-- The n-th group, or nothing.
unfoldable pub group : ℕ → List String → String
group n [] = ""
group zero (g ∷ groups) = g
group (suc n) (g ∷ groups) = group n groups

char_count : String → ℕ
char_count String.[] = 0
char_count (String.◌∷◌ _ s) = suc (char_count s)

-- The digit that a text begins with.
abbrev digit : String → Option ℕ
digit String.[] = none
digit (String.◌∷◌ c s) =
    let k = code c in if leb b'0' k && leb k b'9' then some (k - b'0') else none

-- The name of a variable after "%", as "{name}".
abbrev braced : Option (String × String) → Option String
braced none = none
braced (some (name, _)) = some name

abbrev var_name : String → Option String
var_name s = if has_prefix s "{" then braced (cut b'}' (trim_prefix s "{")) else none

-- What stands for the character at the head, and how many of the ones after it are read with it.
-- `conds` allows the groups of a condition, %1 to %9.
unfoldable pub token : Request → Ctx → Bool → String → ℕ → String → String × ℕ
unfolding char_count
token r ctx conds c k s =
    let variable : String × ℕ = elim (var_name s) [
      | some name ↦ (server_var r ctx name, char_count name + 2)
      | none ↦ (c, 0)
    ] in
    if k == b'$'
    then elim (digit s) [ some n ↦ (group n ctx.rule_refs, 1) | none ↦ (c, 0) ]
    else if k == b'%'
    then (if conds
        then elim (digit s) [ some n ↦ (group n ctx.sub_refs, 1) | none ↦ variable ]
        else variable)
    else (c, 0)

-- The loop over the text; the count is that of the characters still to pass over.
unfoldable pub expand_from : Request → Ctx → Bool → ℕ → String → String
expand_from r ctx conds n String.[] = ""
expand_from r ctx conds (suc n) (String.◌∷◌ c s) = expand_from r ctx conds n s
expand_from r ctx conds zero (String.◌∷◌ c s) =
    let (text, skip) = token r ctx conds (String.◌∷◌ c "") (code c) s in
    append text (expand_from r ctx conds skip s)

-- `htExpandSub`
unfoldable pub expand_sub : Request → Ctx → String → String
expand_sub r ctx s = expand_from r ctx true 0 s

-- `htExpand`
unfoldable pub expand : Request → Ctx → String → String
expand r ctx s = expand_from r ctx false 0 s
