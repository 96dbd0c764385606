-- ===== src/Api/Users/Names.antt =====
-- The names that internal/svc lets an account have: `ValidUsername` of svc.go and
-- `ReservedAccountName` of accounts_guard.go.
use Prim.Native.Char.{code}
use aegis_hosting_control_pa.Base.{
  ℕ, zero, suc, ◌+◌, String, Bool, false, List, [], ◌∷◌, ◌&&◌, ◌||◌, ltb, leb, ◌==◌, same, any,
  if◌then◌else◌, trim_space,
}
use aegis_hosting_control_pa.Htaccess.Text.{to_lower}

abbrev pub is_lower : ℕ → Bool
is_lower c = leb b'a' c && leb c b'z'

abbrev pub is_name_char : ℕ → Bool
is_name_char c = is_lower c || (leb b'0' c && leb c b'9') || c == b'_'

-- Between `least` and `most` characters of a name.
abbrev pub name_tail : ℕ → ℕ → String → Bool
name_tail least most String.[] = least == 0
name_tail least zero (String.◌∷◌ c s) = false
name_tail zero (suc most) (String.◌∷◌ c s) = is_name_char (code c) && name_tail 0 most s
name_tail (suc least) (suc most) (String.◌∷◌ c s) = is_name_char (code c) && name_tail least most s

-- `ValidUsername`: `^[a-z][a-z0-9_]{2,29}$`
unfoldable pub valid_username : String → Bool
valid_username String.[] = false
valid_username (String.◌∷◌ c s) = is_lower (code c) && name_tail 2 29 s

abbrev reserved_names : List String
reserved_names =
    "root" ∷ "daemon" ∷ "bin" ∷ "sys" ∷ "sync" ∷ "games" ∷ "man" ∷ "lp" ∷ "mail" ∷ "news" ∷ "uucp"
    ∷ "proxy" ∷ "backup" ∷ "list" ∷ "irc" ∷ "gnats" ∷ "nobody" ∷ "mysql" ∷ "mariadb" ∷ "postgres"
    ∷ "postgresql" ∷ "www" ∷ "wwwrun" ∷ "ftp" ∷ "ssh" ∷ "sshd" ∷ "vsftpd" ∷ "dovecot" ∷ "dovenull"
    ∷ "postfix" ∷ "vmail" ∷ "opendkim" ∷ "opendmarc" ∷ "spamd" ∷ "clamav" ∷ "fail2ban" ∷ "chrony"
    ∷ "ntp" ∷ "messagebus" ∷ "syslog" ∷ "tss" ∷ "uuidd" ∷ "tcpdump" ∷ "polkitd" ∷ "landscape"
    ∷ "ubuntu" ∷ "debian" ∷ "caddy" ∷ "nginx" ∷ "apache" ∷ "httpd" ∷ "redis" ∷ "memcache" ∷ "git"
    ∷ "docker" ∷ "containerd" ∷ "aegis" ∷ "tmp" ∷ []

-- `ReservedAccountName`
unfoldable pub reserved_account_name : String → Bool
reserved_account_name name = let n = to_lower (trim_space name) in any (same n) reserved_names

-- `len` of a text: the bytes of its UTF-8 encoding.
abbrev pub byte_length : String → ℕ
byte_length String.[] = 0
byte_length (String.◌∷◌ c s) =
    (if ltb (code c) 0x80
      then 1
      else if ltb (code c) 0x800
      then 2
      else if ltb (code c) 0x10000
      then 3
      else 4)
    + byte_length s
