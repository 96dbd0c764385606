-- ===== src/Sql/Scanner.antt =====
-- `stmtScanner` of internal/svc/dbeditor_io.go: `Next`, and `splitStatements`.
pub mod Cases
pub mod Runs
pub mod Progress
pub mod Steps
pub mod Statements
pub mod Scripts
pub mod Broken
use aegis_hosting_control_pa.Base.{
  ℕ, zero, suc, ◌+◌, ◌-◌, Bool, true, false, Option, none, some, List, [], ◌∷◌, ◌++◌, ◌&&◌, ◌||◌,
  not, leb, ltb, ◌==◌, if◌then◌else◌, length, ◌≡◌, refl,
}
use aegis_hosting_control_pa.Sql.Bytes.{Bytes, bytes, eq_bytes, take, drop, trim_bytes}
use aegis_hosting_control_pa.Sql.Parts.{
  Scanner, Copied, new_scanner, is_content, quoted, skip_line, block, byte_at, dollar_tag,
  dollar_body, dash_comment, equal_fold_bytes, line_of,
}

-- What `Next` returns.
pub data Next : Type 0 where
  statement : Bytes → Next
  eof too_long read_error exhausted : Next

-- One round of the loop of `Next` returns, or goes on with the buffer.
pub data Round : Type 0 where
  done : Next → Scanner → Round
  more : Scanner → Bytes → Round

-- `emit` at a delimiter: the statement, or an empty buffer.
pub emit : Scanner → Bytes → Round
emit s buf = elim (trim_bytes buf) [
  | [] ↦ more (record s { content = false }) []
  | b ∷ bs ↦ done (statement (b ∷ bs)) s
]

-- The end of the input: whatever is left is the last statement.
pub finish : Scanner → Bytes → Round
finish s buf =
    if s.broken then done read_error (record s { rerr = true }) else elim (trim_bytes buf) [
      | [] ↦ done eof (record s { content = false })
      | b ∷ bs ↦ done (statement (b ∷ bs)) s
    ]

-- Go on behind a part that was copied with `put`.
abbrev pub resume_copied : Scanner → Bool → Copied → Round
resume_copied s content r =
    more
      (record s {
        input = r.rest;
        last = r.last;
        content = content;
        rerr = s.rerr || (r.ended && s.broken);
      })
      r.buf

-- The case of a quote: `quoted`.
pub open_quote : Scanner → ℕ → Bool → Bytes → Bytes → Round
open_quote s c backslash buf rest =
    resume_copied s true (quoted c backslash s.max (buf ++ c ∷ []) c rest)

-- The case of a `DELIMITER` line, whose `D` has been read.
pub set_delimiter : Scanner → Bytes → Bytes → Round
set_delimiter s buf rest =
    let (line, left) = line_of rest in
    let d = trim_bytes (drop 9 line) in
    more
      (record s {
        input = left;
        last = elim left [ [] ↦ s.last | b ∷ bs ↦ 0 ];
        delim = if eq_bytes d [] then s.delim else d;
      })
      buf

-- The case of a line comment.
pub line_comment : Scanner → Bytes → Bytes → Round
line_comment s buf rest =
    let (left, last) = skip_line s.last rest in more (record s { input = left; last = last }) buf

-- The case of a block comment, whose `/` has been read; `/*!` is executed by MySQL and kept.
pub block_comment : Scanner → Bytes → Bytes → Round
block_comment s buf rest =
    let body = drop 1 rest in
    let keep = s.mysql && byte_at body 0 == b'!' in
    let r = block keep 0 (if keep then buf ++ b'/' ∷ b'*' ∷ [] else buf) b'*' body in
    resume_copied s (s.content || keep) (if keep then r else record r { buf = r.buf ++ 0x20 ∷ [] })

-- The case of a dollar quote with a tag of k bytes.
pub dollar_quote : Scanner → ℕ → Bytes → Bytes → Round
dollar_quote s k buf rest =
    let tag = b'$' ∷ take k rest ++ b'$' ∷ [] in
    resume_copied s true
      (dollar_body tag (length (buf ++ tag)) s.max (buf ++ tag) s.last (drop (k + 1) rest))

-- The last two cases: a delimiter ends the statement, any other byte belongs to it.
pub plain : Scanner → ℕ → Bytes → Bytes → Round
plain s c buf rest =
    if eq_bytes (c ∷ take (length s.delim - 1) rest) s.delim
    then emit (record s { input = drop (length s.delim - 1) rest }) buf
    else more (record s { content = s.content || is_content c }) (buf ++ c ∷ [])

-- The switch of `Next` on the byte c, which has been read; `rest` is the input behind it.
pub dispatch : Scanner → Bool → ℕ → Bytes → Bytes → Round
dispatch s line_start c buf rest =
    if s.mysql
      && line_start
      && not s.content
      && length (take 9 rest) == 9
      && equal_fold_bytes (c ∷ take 9 rest) (bytes "DELIMITER ")
    then set_delimiter s buf rest
    else if c == b'\''
    then open_quote s c s.mysql buf rest
    else if c == b'"'
    then open_quote s c s.mysql buf rest
    else if c == b'`' && s.mysql
    then open_quote s c false buf rest
    else if (c == b'-' && dash_comment s.mysql (take 2 rest)) || (c == b'#' && s.mysql)
    then line_comment s buf rest
    else if c == b'/' && byte_at rest 0 == b'*'
    then block_comment s buf rest
    else if c == b'$' && not s.mysql
    then elim (dollar_tag rest) [ none ↦ plain s c buf rest | some k ↦ dollar_quote s k buf rest ]
    else plain s c buf rest

-- Reading the next byte.
pub read_byte : Scanner → Bytes → Bytes → Round
read_byte s buf [] = finish s buf
read_byte s buf (c ∷ rest) =
    dispatch (record s { input = rest; last = c }) (s.last == 0 || s.last == 0x0a) c buf rest

-- One round of the loop of `Next`.
pub round : Scanner → Bytes → Round
unfolding read_byte dispatch plain
round s buf =
    if s.rerr
    then done read_error s
    else if ltb s.max (length buf)
    then done too_long s
    else read_byte s buf s.input

-- The loop of `Next`, for a number of rounds.
pub rounds : ℕ → Scanner → Bytes → Next × Scanner
rounds zero s buf = (exhausted, s)
rounds (suc n) s buf = elim (round s buf) [ done r s' ↦ (r, s') | more s' buf' ↦ rounds n s' buf' ]

-- `Next`: each round but the last reads a byte.
pub next : Scanner → Next × Scanner
unfolding rounds
next s = rounds (suc (length s.input)) (record s { content = false }) []

-- The loop of `splitStatements`; `none` if the number of statements does not suffice.
pub split_loop : ℕ → Scanner → List Bytes → Option (List Bytes)
split_loop zero s out = none
split_loop (suc n) s out =
    let (r, s') = next s in
    elim r [
      | statement t ↦ split_loop n s' (out ++ t ∷ [])
      | eof ↦ some out
      | too_long ↦ some out
      | read_error ↦ some out
      | exhausted ↦ none
    ]

-- `splitStatements`
pub split_statements : Bytes → Bool → Option (List Bytes)
unfolding split_loop
split_statements src mysql =
    split_loop (suc (length src)) (new_scanner src false mysql (length src + 1)) []
