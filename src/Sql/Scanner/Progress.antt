-- ===== src/Sql/Scanner/Progress.antt =====
-- The loops of `stmtScanner` end: each round of `Next` but its last reads a byte, and so does each
-- statement that `splitStatements` takes.
use aegis_hosting_control_pa.Base.{
  ℕ, zero, suc, ◌+◌, ◌-◌, ◌≤◌, ◌<◌, Bool, false, none, some, List, [], ◌∷◌, ◌++◌, ◌≢◌, ◌&&◌, ◌||◌,
  ◌==◌, if◌then◌else◌, length, ◌≡◌, refl, arith,
}
use aegis_hosting_control_pa.Sql.Bytes.{Bytes, take, drop, trim_bytes-empty}
use aegis_hosting_control_pa.Sql.Parts.{new_scanner, Scanner, byte_at}
use aegis_hosting_control_pa.Sql.Parts.Lengths.{
  quoted-le, skip_line-le, block-le, dollar_body-le, line_of-le, drop-le,
}
use aegis_hosting_control_pa.Sql.Scanner.Cases.{of_dispatch, of_round}
use aegis_hosting_control_pa.Sql.Scanner.{
  Next, statement, eof, too_long, read_error, exhausted, Round, done, more, emit, finish,
  open_quote, set_delimiter, line_comment, block_comment, dollar_quote, plain, dispatch, read_byte,
  round, rounds, next, split_loop, split_statements,
}

-- A result of the loop: a statement leaves fewer than n bytes, and the rounds were enough.
abbrev pub Ended : ℕ → Next × Scanner → Type 0
Ended n (statement t, s) = length s.input < n
Ended n (exhausted, s) = ⊥
Ended n (_, s) = Unit

pub Ended-weaken : (n m : ℕ) (r : Next × Scanner) → n ≤ m → Ended n r → Ended m r
Ended-weaken n m (statement t, s) h e = omega arith
Ended-weaken n m (eof, s) h e = tt
Ended-weaken n m (too_long, s) h e = tt
Ended-weaken n m (read_error, s) h e = tt
Ended-weaken n m (exhausted, s) h e = e

-- What a round leaves of n bytes.
abbrev Advances : ℕ → Round → Type 0
Advances n (done r s) = Ended (suc n) (r, s)
Advances n (more s buf) = length s.input ≤ n

open_quote-Advances :
    (s : Scanner) (c : ℕ) (esc : Bool) (buf rest : Bytes)
    → Advances (length rest) (open_quote s c esc buf rest)
unfolding open_quote
open_quote-Advances s c esc buf rest = quoted-le c esc s.max (buf ++ c ∷ []) c rest

set_delimiter-Advances :
    (s : Scanner) (buf rest : Bytes) → Advances (length rest) (set_delimiter s buf rest)
unfolding set_delimiter
set_delimiter-Advances s buf rest = line_of-le rest

line_comment-Advances :
    (s : Scanner) (buf rest : Bytes) → Advances (length rest) (line_comment s buf rest)
unfolding line_comment
line_comment-Advances s buf rest = skip_line-le s.last rest

block_comment-Advances :
    (s : Scanner) (buf rest : Bytes) → Advances (length rest) (block_comment s buf rest)
unfolding block_comment
block_comment-Advances s buf rest =
    let kept = s.mysql && byte_at (drop 1 rest) 0 == b'!' in
    ground (
      arith,
      drop-le 1 rest,
      block-le kept 0 (if kept then buf ++ b'/' ∷ b'*' ∷ [] else buf) b'*' (drop 1 rest),
    )

dollar_quote-Advances :
    (s : Scanner) (k : ℕ) (buf rest : Bytes) → Advances (length rest) (dollar_quote s k buf rest)
unfolding dollar_quote
dollar_quote-Advances s k buf rest =
    let tag = b'$' ∷ take k rest ++ b'$' ∷ [] in
    omega (
      arith,
      drop-le (k + 1) rest,
      dollar_body-le tag (length (buf ++ tag)) s.max (buf ++ tag) s.last (drop (k + 1) rest),
    )

emit-Advances : (s : Scanner) (buf : Bytes) → Advances (length s.input) (emit s buf)
unfolding emit
emit-Advances s buf = ground arith

plain-Advances :
    (s : Scanner) (c : ℕ) (buf rest : Bytes)
    → length s.input ≤ length rest
    → Advances (length rest) (plain s c buf rest)
unfolding plain emit
plain-Advances s c buf rest h = ground (arith, drop-le (length s.delim - 1) rest)

dispatch-Advances :
    (s : Scanner) (b : Bool) (c : ℕ) (buf rest : Bytes)
    → length s.input ≤ length rest
    → Advances (length rest) (dispatch s b c buf rest)
dispatch-Advances s b c buf rest h =
    of_dispatch (Advances (length rest)) s c buf rest b (set_delimiter-Advances s buf rest)
      (λ esc. open_quote-Advances s c esc buf rest) (line_comment-Advances s buf rest)
      (block_comment-Advances s buf rest) (λ k. dollar_quote-Advances s k buf rest)
      (plain-Advances s c buf rest h)

-- A round of n bytes ends the loop within k, or reads a byte.
abbrev Reads : ℕ → ℕ → Round → Type 0
Reads k n (done r s) = Ended k (r, s)
Reads k n (more s buf) = length s.input < n

Reads-Advances : (k n : ℕ) (r : Round) → suc n ≤ k → Advances n r → Reads k (suc n) r
Reads-Advances k n (done r s) h a = Ended-weaken (suc n) k (r, s) h a
Reads-Advances k n (more s buf) h a = omega arith

finish-Reads : (s : Scanner) (buf : Bytes) → s.input ≡ [] → Reads 1 0 (finish s buf)
unfolding finish
finish-Reads s buf h = ground arith

-- At the end of the input only what is in the buffer is a statement.
finish_empty-Reads : (s : Scanner) → Reads 0 0 (finish s [])
unfolding finish
finish_empty-Reads s = rw trim_bytes-empty (ground arith)

read_byte-Reads :
    (s : Scanner) (buf input : Bytes)
    → s.input ≡ input
    → Reads (suc (length input)) (length input) (read_byte s buf input)
      × Reads (length input) (length input) (read_byte s [] input)
unfolding read_byte
read_byte-Reads s buf [] h = (finish-Reads s buf h, finish_empty-Reads s)
read_byte-Reads s buf (c ∷ rest) h =
    let s' = record s { input = rest; last = c } in
    let start = s.last == 0 || s.last == 0x0a in
    (
      Reads-Advances _ _ _ (omega arith) (dispatch-Advances s' start c buf rest (omega arith)),
      Reads-Advances _ _ _ (omega arith) (dispatch-Advances s' start c [] rest (omega arith)),
    )

round-Reads :
    (s : Scanner) (buf : Bytes)
    → Reads (suc (length s.input)) (length s.input) (round s buf)
      × Reads (length s.input) (length s.input) (round s [])
round-Reads s buf =
    let (r, r') = read_byte-Reads s buf s.input refl in
    (
      of_round (Reads (suc (length s.input)) (length s.input)) s buf tt tt r,
      of_round (Reads (length s.input) (length s.input)) s [] tt tt r',
    )

-- The loop behind a first round.
rounds_behind :
    (n k m : ℕ) (r : Round)
    → m ≤ k
    → Reads k m r
    → ((s : Scanner) (buf : Bytes)
        → length s.input < m
        → Ended (suc (length s.input)) (rounds n s buf))
    → Ended k (elim r [ done x s' ↦ (x, s') | more s' buf' ↦ rounds n s' buf' ])
rounds_behind n k m (done x s) h reads others = reads
rounds_behind n k m (more s buf) h reads others =
    Ended-weaken (suc (length s.input)) k (rounds n s buf) (omega arith) (others s buf reads)

rounds-Ended :
    (n : ℕ) (s : Scanner) (buf : Bytes)
    → length s.input < n
    → Ended (suc (length s.input)) (rounds n s buf)
unfolding rounds
rounds-Ended zero s buf h = absurd (omega arith)
rounds-Ended (suc n) s buf h =
    rounds_behind n _ (length s.input) (round s buf) (omega arith) (round-Reads s buf).0
      (λ s' buf' less. rounds-Ended n s' buf' (omega arith))

-- `Next` ends, and a statement leaves less of the stream than there was.
pub next-Ended : (s : Scanner) → Ended (length s.input) (next s)
unfolding next rounds
next-Ended s =
    rounds_behind (length s.input) _ (length s.input) (round (record s { content = false }) [])
      (omega arith) (round-Reads (record s { content = false }) []).1
      (λ s' buf' less. rounds-Ended (length s.input) s' buf' less)

split_behind :
    (n : ℕ) (r : Next) (s : Scanner) (out : List Bytes)
    → Ended n (r, s)
    → ((s' : Scanner) (out' : List Bytes) → length s'.input < n → split_loop n s' out' ≢ none)
    → (elim r [
      | statement t ↦ split_loop n s (out ++ t ∷ [])
      | eof ↦ some out
      | too_long ↦ some out
      | read_error ↦ some out
      | exhausted ↦ none
    ])
      ≢ none
split_behind n (statement t) s out e others = others s (out ++ t ∷ []) e
split_behind n exhausted s out e others = absurd e
split_behind n eof s out e others = ground arith
split_behind n too_long s out e others = ground arith
split_behind n read_error s out e others = ground arith

split_loop-ne-none :
    (n : ℕ) (s : Scanner) (out : List Bytes) → length s.input < n → split_loop n s out ≢ none
unfolding split_loop
split_loop-ne-none zero s out h = absurd (omega arith)
split_loop-ne-none (suc n) s out h =
    split_behind n (next s).0 (next s).1 out
      (Ended-weaken (length s.input) n (next s) (omega arith) (next-Ended s))
      (λ s' out' less. split_loop-ne-none n s' out' less)

-- `splitStatements` ends on every script: as many statements as the script has bytes, and for each as
-- many rounds of `Next` as bytes are left, are enough, with one more for the end of the input.
pub split_statements-ne-none : (src : Bytes) (mysql : Bool) → split_statements src mysql ≢ none
unfolding split_statements
split_statements-ne-none src mysql =
    split_loop-ne-none (suc (length src)) (new_scanner src false mysql (length src + 1)) []
      (omega arith)
