-- ===== src/Base/Text.antt =====
-- What the program uses of Go's packages strings and encoding/hex, over native texts.
use Prim.Native.Nat.{ℕ, zero, suc, ◌/◌, ◌%◌}
use Prim.Native.Char.{code}
use Prim.Native.String.{String}
use mathlib.Core.Bool.{Bool, ◌&&◌, ◌||◌}
use mathlib.Core.List.{List, [], ◌∷◌}
use text.Mathlib.Text.{starts_with}
use aegis_hosting_control_pa.Base.Tests.{leb, ◌==◌, same, if◌then◌else◌}

-- unicode.IsSpace
abbrev pub is_space : ℕ → Bool
is_space c =
    c == 0x20
    || (leb 0x09 c && leb c 0x0d)
    || c == 0x85
    || c == 0xa0
    || c == 0x1680
    || (leb 0x2000 c && leb c 0x200a)
    || c == 0x2028
    || c == 0x2029
    || c == 0x202f
    || c == 0x205f
    || c == 0x3000

trim_left : String → String
trim_left String.[] = ""
trim_left (String.◌∷◌ c s) =
    let rest = trim_left s in if is_space (code c) then rest else String.◌∷◌ c s

trim_right : String → String
trim_right String.[] = ""
trim_right (String.◌∷◌ c s) =
    let rest = trim_right s in if is_space (code c) && same rest "" then "" else String.◌∷◌ c rest

-- strings.TrimSpace
unfoldable pub trim_space : String → String
unfolding trim_left trim_right
trim_space s = trim_right (trim_left s)

-- strings.HasPrefix(s, prefix)
abbrev pub has_prefix : String → String → Bool
has_prefix s prefix = starts_with s prefix

abbrev pub append : String → String → String
append s t = Prim.Native.String.◌++◌ s t

-- The text of one byte of an ASCII text, s[i].
abbrev pub char_of : String → ℕ → String
char_of String.[] i = ""
char_of (String.◌∷◌ c s) zero = String.◌∷◌ c ""
char_of (String.◌∷◌ c s) (suc i) = char_of s i

abbrev hex_digit : ℕ → String
hex_digit = char_of "0123456789abcdef"

-- hex.EncodeToString
unfoldable pub hex_encode : List ℕ → String
hex_encode [] = ""
hex_encode (b ∷ bs) = append (hex_digit (b / 16)) (append (hex_digit (b % 16)) (hex_encode bs))
