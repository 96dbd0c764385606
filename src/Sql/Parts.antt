-- ===== src/Sql/Parts.antt =====
-- The state of `stmtScanner` of internal/svc/dbeditor_io.go, and the loops inside its `Next`. A stream
-- is the bytes that are left and whether it then fails with an error that comes again at every later
-- read, as one of compress/gzip or of an HTTP body does. The error of `strictLimit`, which comes
-- once, is not modelled: the streams are those below the import limit.
pub mod Lengths
use aegis_hosting_control_pa.Base.{
  ◌≡◌, ℕ, zero, suc, ◌+◌, ◌-◌, Bool, true, false, Option, none, some, List, [], ◌∷◌, ◌++◌, ◌&&◌,
  ◌||◌, not, leb, ltb, ◌==◌, if◌then◌else◌, length,
}
use aegis_hosting_control_pa.Sql.Bytes.{
  Bytes, bytes, eq_bytes, take, drop, is_space_byte, trim_bytes,
}

pub record Scanner : Type 0 where
  -- what `r` still holds, and whether it ends in an error
  pub input : Bytes
  pub broken : Bool
  pub mysql : Bool
  pub delim : Bytes
  pub last : ℕ
  pub max : ℕ
  pub content : Bool
  -- `rerr != nil`
  pub rerr : Bool

-- `newStmtScanner`
abbrev pub new_scanner : Bytes → Bool → Bool → ℕ → Scanner
new_scanner input broken mysql max = record {
  input = input;
  broken = broken;
  mysql = mysql;
  delim = bytes ";";
  last = 0;
  max = max;
  content = false;
  rerr = false;
}

abbrev pub is_ident_byte : ℕ → Bool
is_ident_byte b =
    b == b'_'
    || (leb b'a' b && leb b b'z')
    || (leb b'A' b && leb b b'Z')
    || (leb b'0' b && leb b b'9')

-- A byte that `put` counts as content.
abbrev pub is_content : ℕ → Bool
is_content b = not (b == 0x20 || b == 0x09 || b == 0x0a || b == 0x0d)

-- What a part of a statement leaves: the buffer, the stream, the last byte read, and whether a read
-- found the end of the stream.
pub record Copied : Type 0 where
  pub buf : Bytes
  pub rest : Bytes
  pub last : ℕ
  pub ended : Bool

-- The loop of `quoted`, behind the opening quote.
unfoldable pub quoted : ℕ → Bool → ℕ → Bytes → ℕ → Bytes → Copied
quoted q backslash max buf last [] = record { buf = buf; rest = []; last = last; ended = true }
quoted q backslash max buf last (c ∷ []) =
    if ltb max (length buf)
    then record { buf = buf; rest = []; last = c; ended = false }
    else record {
      buf = buf ++ c ∷ [];
      rest = [];
      last = c;
      ended = (backslash && c == b'\\') || not (c == q);
    }
quoted q backslash max buf last (c ∷ n ∷ rest) = elim (ltb max (length buf)) [
  | true ↦ record { buf = buf; rest = n ∷ rest; last = c; ended = false }
  | false ↦ elim (backslash && c == b'\\') [
    | true ↦ quoted q backslash max (buf ++ c ∷ n ∷ []) n rest
    | false ↦ elim (c == q) [
      | true ↦ elim (n == q) [
        | true ↦ quoted q backslash max (buf ++ c ∷ n ∷ []) n rest
        | false ↦ record { buf = buf ++ c ∷ []; rest = n ∷ rest; last = c; ended = false }
      ]
      | false ↦ quoted q backslash max (buf ++ c ∷ []) c (n ∷ rest)
    ]
  ]
]

-- A line comment is dropped up to its newline.
unfoldable pub skip_line : ℕ → Bytes → Bytes × ℕ
skip_line last [] = ([], last)
skip_line last (c ∷ rest) = elim (c == 0x0a) [ true ↦ (c ∷ rest, last) | false ↦ skip_line c rest ]

-- A block comment, behind its opening, kept or dropped.
unfoldable pub block : Bool → ℕ → Bytes → ℕ → Bytes → Copied
block keep prev buf last [] = record { buf = buf; rest = []; last = last; ended = true }
block keep prev buf last (b ∷ rest) = elim (prev == b'*' && b == b'/') [
  | true ↦ record {
    buf = if keep then buf ++ b ∷ [] else buf;
    rest = rest;
    last = b;
    ended = false;
  }
  | false ↦ block keep b (if keep then buf ++ b ∷ [] else buf) b rest
]

-- `k` of `dollarTag`: the length of the identifier in front.
unfoldable pub ident_length : Bytes → ℕ
ident_length [] = 0
ident_length (b ∷ bs) = if is_ident_byte b then suc (ident_length bs) else 0

-- The byte at a position, 0 beyond the end.
abbrev pub byte_at : Bytes → ℕ → ℕ
byte_at [] k = 0
byte_at (b ∷ bs) zero = b
byte_at (b ∷ bs) (suc k) = byte_at bs k

-- Whether `dollarTag` reads an opening tag, and its length without the dollars.
unfoldable pub dollar_tag : Bytes → Option ℕ
unfolding ident_length
dollar_tag input =
    let pk = take 66 input in
    let k = ident_length pk in
    if leb (length pk) k
    then none
    else if not (byte_at pk k == b'$')
    then none
    else if ltb 0 k && leb b'0' (byte_at pk 0) && leb (byte_at pk 0) b'9'
    then none
    else some k

-- The loop of `dollarTag`: the body up to the closing tag.
unfoldable pub dollar_body : Bytes → ℕ → ℕ → Bytes → ℕ → Bytes → Copied
dollar_body tag start max buf last [] = record { buf = buf; rest = []; last = last; ended = true }
dollar_body tag start max buf last (b ∷ rest) =
    let buf' = buf ++ b ∷ [] in
    elim ((b == b'$'
        && leb (length tag) (length buf' - start)
        && eq_bytes (drop (length buf' - length tag) buf') tag)
      || ltb max (length buf')) [
        | true ↦ record { buf = buf'; rest = rest; last = b; ended = false }
        | false ↦ dollar_body tag start max buf' b rest
      ]

-- `dashComment`
abbrev pub dash_comment : Bool → Bytes → Bool
dash_comment mysql [] = false
dash_comment mysql (d ∷ []) = d == b'-'
dash_comment mysql (d ∷ n ∷ rest) =
    d == b'-' && (not mysql || n == 0x20 || n == 0x09 || n == 0x0a || n == 0x0d)

abbrev pub lower_byte : ℕ → ℕ
lower_byte b = if leb b'A' b && leb b b'Z' then b + 32 else b

abbrev pub equal_fold_bytes : Bytes → Bytes → Bool
equal_fold_bytes [] [] = true
equal_fold_bytes [] (b ∷ bs) = false
equal_fold_bytes (x ∷ xs) [] = false
equal_fold_bytes (x ∷ xs) (y ∷ ys) = lower_byte x == lower_byte y && equal_fold_bytes xs ys

-- `ReadString('\n')` without the newline, and what is left from the newline on.
unfoldable pub line_of : Bytes → Bytes × Bytes
line_of [] = ([], [])
line_of (c ∷ rest) =
    let (line, left) = line_of rest in if c == 0x0a then ([], c ∷ rest) else (c ∷ line, left)
