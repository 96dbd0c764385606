-- ===== src/Sql/Scanner/Broken.antt =====
-- A stream that fails never looks finished to `Next` of internal/svc/dbeditor_io.go.
use aegis_hosting_control_pa.Base.{ℕ, zero, suc, Bool, true, false, [], ◌∷◌, ◌≡◌, arith, length}
use aegis_hosting_control_pa.Sql.Bytes.{Bytes}
use aegis_hosting_control_pa.Sql.Parts.{Scanner}
use aegis_hosting_control_pa.Sql.Scanner.{
  Next, eof, Round, done, more, emit, finish, open_quote, set_delimiter, line_comment,
  block_comment, dollar_quote, plain, dispatch, read_byte, round, rounds, next,
}
use aegis_hosting_control_pa.Sql.Scanner.Cases.{of_dispatch, of_round}

-- The stream stays broken, and its end is not io.EOF.
abbrev pub IsOpen : Next × Scanner → Type 0
IsOpen (eof, s) = ⊥
IsOpen (_, s) = s.broken ≡ true

abbrev IsOpenRound : Round → Type 0
IsOpenRound (done r s) = IsOpen (r, s)
IsOpenRound (more s buf) = s.broken ≡ true

dispatch-IsOpen :
    (s : Scanner) (start : Bool) (c : ℕ) (buf rest : Bytes)
    → s.broken ≡ true
    → IsOpenRound (dispatch s start c buf rest)
unfolding set_delimiter open_quote line_comment block_comment dollar_quote plain emit
dispatch-IsOpen s start c buf rest h =
    of_dispatch IsOpenRound s c buf rest start h (λ esc. h) h h (λ k. h) (ground arith)

read_byte-IsOpen :
    (s : Scanner) (buf input : Bytes) → s.broken ≡ true → IsOpenRound (read_byte s buf input)
unfolding read_byte finish
read_byte-IsOpen s buf [] h = rw h (ground arith)
read_byte-IsOpen s buf (c ∷ rest) h = dispatch-IsOpen _ _ c buf rest h

rounds_behind :
    (n : ℕ) (r : Round)
    → IsOpenRound r
    → ((s : Scanner) (buf : Bytes) → s.broken ≡ true → IsOpen (rounds n s buf))
    → IsOpen (elim r [ done x s' ↦ (x, s') | more s' buf' ↦ rounds n s' buf' ])
rounds_behind n (done x s) held others = held
rounds_behind n (more s buf) held others = others s buf held

rounds-IsOpen : (n : ℕ) (s : Scanner) (buf : Bytes) → s.broken ≡ true → IsOpen (rounds n s buf)
unfolding rounds
rounds-IsOpen zero s buf h = h
rounds-IsOpen (suc n) s buf h =
    rounds_behind n (round s buf)
      (of_round IsOpenRound s buf h h (read_byte-IsOpen s buf s.input h)) (rounds-IsOpen n)

pub next-IsOpen : (s : Scanner) → s.broken ≡ true → IsOpen (next s)
unfolding next
next-IsOpen s h = rounds-IsOpen (suc (length s.input)) (record s { content = false }) [] h
