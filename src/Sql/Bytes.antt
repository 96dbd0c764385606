-- ===== src/Sql/Bytes.antt =====
-- What the database editor uses of Go's packages bytes, strings and unicode/utf8, over bytes.
use Prim.Native.Char.{code}
use aegis_hosting_control_pa.Base.{
  ℕ, zero, suc, String, Bool, true, false, List, [], ◌∷◌, ◌&&◌, ◌||◌, leb, ◌==◌, if◌then◌else◌, ◌≡◌,
  refl,
}

abbrev pub Bytes : Type 0
Bytes = List ℕ

-- The bytes of an ASCII text.
abbrev pub bytes : String → Bytes
bytes String.[] = []
bytes (String.◌∷◌ c s) = code c ∷ bytes s

-- `==` of two texts.
abbrev pub eq_bytes : Bytes → Bytes → Bool
eq_bytes [] [] = true
eq_bytes [] (b ∷ bs) = false
eq_bytes (x ∷ xs) [] = false
eq_bytes (x ∷ xs) (y ∷ ys) = x == y && eq_bytes xs ys

-- The first n bytes, as many as there are: `bufio.Reader.Peek(n)`.
abbrev pub take : ℕ → Bytes → Bytes
take zero bs = []
take (suc n) [] = []
take (suc n) (b ∷ bs) = b ∷ take n bs

-- All but the first n bytes: `bufio.Reader.Discard(n)`.
abbrev pub drop : ℕ → Bytes → Bytes
drop zero bs = bs
drop (suc n) [] = []
drop (suc n) (b ∷ bs) = drop n bs

abbrev pub reverse_onto : Bytes → Bytes → Bytes
reverse_onto acc [] = acc
reverse_onto acc (b ∷ bs) = reverse_onto (b ∷ acc) bs

-- The ASCII bytes of unicode.IsSpace.
abbrev pub is_space_byte : ℕ → Bool
is_space_byte b = (leb 0x09 b && leb b 0x0d) || b == 0x20

-- The UTF-8 encodings of unicode.IsSpace beyond ASCII, of two and of three bytes.
abbrev pub is_wide_space2 : ℕ → ℕ → Bool
is_wide_space2 a b = a == 0xc2 && (b == 0x85 || b == 0xa0)

abbrev pub is_wide_space3 : ℕ → ℕ → ℕ → Bool
is_wide_space3 a b c =
    (a == 0xe1 && b == 0x9a && c == 0x80)
    || (a == 0xe2
        && b == 0x80
        && ((leb 0x80 c && leb c 0x8a) || c == 0xa8 || c == 0xa9 || c == 0xaf))
    || (a == 0xe2 && b == 0x81 && c == 0x9f)
    || (a == 0xe3 && b == 0x80 && c == 0x80)

-- The spaces at the front, and those at the front of a text that is read from its end.
trim_front : Bytes → Bytes
trim_front [] = []
trim_front (a ∷ []) = if is_space_byte a then [] else a ∷ []
trim_front (a ∷ b ∷ []) = elim (is_space_byte a) [
  | true ↦ trim_front (b ∷ [])
  | false ↦ if is_wide_space2 a b then [] else a ∷ b ∷ []
]
trim_front (a ∷ b ∷ c ∷ bs) = elim (is_space_byte a) [
  | true ↦ trim_front (b ∷ c ∷ bs)
  | false ↦ elim (is_wide_space2 a b) [
    | true ↦ trim_front (c ∷ bs)
    | false ↦ elim (is_wide_space3 a b c) [ true ↦ trim_front bs | false ↦ a ∷ b ∷ c ∷ bs ]
  ]
]

trim_back : Bytes → Bytes
trim_back [] = []
trim_back (a ∷ []) = if is_space_byte a then [] else a ∷ []
trim_back (a ∷ b ∷ []) = elim (is_space_byte a) [
  | true ↦ trim_back (b ∷ [])
  | false ↦ if is_wide_space2 b a then [] else a ∷ b ∷ []
]
trim_back (a ∷ b ∷ c ∷ bs) = elim (is_space_byte a) [
  | true ↦ trim_back (b ∷ c ∷ bs)
  | false ↦ elim (is_wide_space2 b a) [
    | true ↦ trim_back (c ∷ bs)
    | false ↦ elim (is_wide_space3 c b a) [ true ↦ trim_back bs | false ↦ a ∷ b ∷ c ∷ bs ]
  ]
]

-- strings.TrimSpace
unfoldable pub trim_bytes : Bytes → Bytes
unfolding trim_front trim_back
trim_bytes s = reverse_onto [] (trim_back (reverse_onto [] (trim_front s)))

-- No spaces are left of an empty text.
pub trim_bytes-empty : trim_bytes [] ≡ []
unfolding trim_bytes
trim_bytes-empty = refl

trim_front-newline : (s : Bytes) → trim_front (0x0a ∷ s) ≡ trim_front s
unfolding trim_front
trim_front-newline [] = refl
trim_front-newline (a ∷ []) = refl
trim_front-newline (a ∷ b ∷ s) = refl

pub trim_bytes-newline : (s : Bytes) → trim_bytes (0x0a ∷ s) ≡ trim_bytes s
unfolding trim_bytes
trim_bytes-newline s = rw (trim_front-newline s)
