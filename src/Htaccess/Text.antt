-- ===== src/Htaccess/Text.antt =====
-- What htaccess.go uses of Go's packages strings, strconv and path. Letters change case as ASCII
-- letters do: the words of a directive are ASCII.
use Prim.Native.Char.{Char, code}
use Prim.Native.String.{len, slice}
use aegis_hosting_control_pa.Base.{
  ◌^◌, ℕ, ◌+◌, ◌-◌, ◌*◌, String, Bool, true, false, Option, none, some, List, [], ◌∷◌, ◌&&◌, ◌||◌,
  leb, ltb, ◌==◌, same, if◌then◌else◌, has_prefix, append, char_of,
}

lower_of : Char → String
lower_of c =
    let k = code c in
    if leb b'A' k && leb k b'Z'
    then char_of "abcdefghijklmnopqrstuvwxyz" (k - b'A')
    else String.◌∷◌ c ""

-- strings.ToLower
unfoldable pub to_lower : String → String
unfolding lower_of
to_lower String.[] = ""
to_lower (String.◌∷◌ c s) = append (lower_of c) (to_lower s)

upper_of : Char → String
upper_of c =
    let k = code c in
    if leb b'a' k && leb k b'z'
    then char_of "ABCDEFGHIJKLMNOPQRSTUVWXYZ" (k - b'a')
    else String.◌∷◌ c ""

-- strings.ToUpper
unfoldable pub to_upper : String → String
unfolding upper_of
to_upper String.[] = ""
to_upper (String.◌∷◌ c s) = append (upper_of c) (to_upper s)

-- strings.EqualFold
abbrev pub equal_fold : String → String → Bool
equal_fold s t = same (to_lower s) (to_lower t)

-- s[n:]
abbrev pub drop_bytes : ℕ → String → String
drop_bytes n s = slice s n (len s)

-- strings.TrimPrefix
unfoldable pub trim_prefix : String → String → String
trim_prefix s prefix = if has_prefix s prefix then drop_bytes (len prefix) s else s

-- strings.HasSuffix
abbrev pub has_suffix : String → String → Bool
has_suffix s suffix = leb (len suffix) (len s) && same (drop_bytes (len s - len suffix) s) suffix

-- strings.TrimSuffix
unfoldable pub trim_suffix : String → String → String
trim_suffix s suffix = if has_suffix s suffix then slice s 0 (len s - len suffix) else s

-- strings.Trim(s, "…"), for the characters that pass a test
trim_left_of : (ℕ → Bool) → String → String
trim_left_of p String.[] = ""
trim_left_of p (String.◌∷◌ c s) =
    let rest = trim_left_of p s in if p (code c) then rest else String.◌∷◌ c s

trim_right_of : (ℕ → Bool) → String → String
trim_right_of p String.[] = ""
trim_right_of p (String.◌∷◌ c s) =
    let rest = trim_right_of p s in if p (code c) && same rest "" then "" else String.◌∷◌ c rest

unfoldable pub trim_of : (ℕ → Bool) → String → String
unfolding trim_left_of trim_right_of
trim_of p s = trim_right_of p (trim_left_of p s)

abbrev pub is_bracket : ℕ → Bool
is_bracket c = c == b'[' || c == b']'

-- The text before and after the first occurrence of a character: strings.IndexByte and two slices.
abbrev pub push_before : Char → Option (String × String) → Option (String × String)
push_before c none = none
push_before c (some (before, after)) = some (String.◌∷◌ c before, after)

unfoldable pub cut : ℕ → String → Option (String × String)
cut k String.[] = none
cut k (String.◌∷◌ c s) =
    let rest = cut k s in if code c == k then some ("", s) else push_before c rest

abbrev pub is_some : Option (String × String) → Bool
is_some none = false
is_some (some _) = true

-- strings.IndexByte(s, k) >= 0
abbrev pub contains_byte : ℕ → String → Bool
contains_byte k s = is_some (cut k s)

-- strings.Contains
unfoldable pub contains : String → String → Bool
contains String.[] t = same t ""
contains (String.◌∷◌ c s) t = let rest = contains s t in has_prefix (String.◌∷◌ c s) t || rest

abbrev pub push_first : Char → List String → List String
push_first c [] = String.◌∷◌ c "" ∷ []
push_first c (word ∷ words) = String.◌∷◌ c word ∷ words

-- strings.Split at one character
unfoldable pub split_on : ℕ → String → List String
split_on k String.[] = "" ∷ []
split_on k (String.◌∷◌ c s) =
    let rest = split_on k s in if code c == k then "" ∷ rest else push_first c rest

-- strings.Join
unfoldable pub join : String → List String → String
join sep [] = ""
join sep (w ∷ []) = w
join sep (w ∷ v ∷ words) = append w (append sep (join sep (v ∷ words)))

-- strings.ReplaceAll(s, "_", "-")
abbrev pub dashed : String → String
dashed s = join "-" (split_on b'_' s)

-- An int of Go: whether it is below 0, and its size.
abbrev pub Signed : Type 0
Signed = Bool × ℕ

digits_value : ℕ → String → Option ℕ
digits_value acc String.[] = some acc
digits_value acc (String.◌∷◌ c s) =
    let k = code c in
    let rest = digits_value (acc * 10 + (k - b'0')) s in
    if leb b'0' k && leb k b'9' then rest else none

abbrev in_range : Bool → Option ℕ → Option Signed
in_range negative none = none
in_range negative (some n) =
    if leb n (if negative then 2 ^ 63 else 2 ^ 63 - 1) then some (negative && ltb 0 n, n) else none

-- The digits after the sign; there is at least one.
abbrev number_of : Bool → String → Option Signed
number_of negative s = if same s "" then none else in_range negative (digits_value 0 s)

-- strconv.Atoi
unfoldable pub atoi : String → Option Signed
unfolding digits_value
atoi s =
    if has_prefix s "-"
    then number_of true (drop_bytes 1 s)
    else number_of false (trim_prefix s "+")

-- The last element of path.Base, of the segments of a path from the right.
last_segment : String → List String → String
last_segment found [] = found
last_segment found (s ∷ segments) = last_segment (if same s "" then found else s) segments

-- path.Base
unfoldable pub path_base : String → String
unfolding last_segment
path_base s =
    if same s ""
    then "."
    else let last = last_segment "" (split_on b'/' s) in if same last "" then "/" else last

-- path.Clean("/" + …): "" and "." are dropped, ".." takes the segment before it, and the root has
-- none. The segments kept so far stand last first.
abbrev pub parent : List String → List String
parent [] = []
parent (_ ∷ up) = up

abbrev pub walk : String → List String → List String
walk s kept =
    if same s "" || same s "." then kept else if same s ".." then parent kept else s ∷ kept

unfoldable pub resolve : List String → List String → List String
resolve [] kept = kept
resolve (s ∷ segments) kept = resolve segments (walk s kept)

pub in_order : List String → List String → List String
in_order done [] = done
in_order done (s ∷ kept) = in_order (s ∷ done) kept

-- A rooted path of such segments.
unfoldable pub rooted : List String → String
unfolding in_order
rooted kept = append "/" (join "/" (in_order [] kept))

-- path.Clean of a path that begins with a slash
unfoldable pub clean_rooted : String → String
clean_rooted s = rooted (resolve (split_on b'/' s) [])
