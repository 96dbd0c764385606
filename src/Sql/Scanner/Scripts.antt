-- ===== src/Sql/Scanner/Scripts.antt =====
-- `splitStatements` of internal/svc/dbeditor_io.go on a script that is written the way an export is:
-- each statement on lines of its own, ended by a semicolon.
use aegis_hosting_control_pa.Base.{
  ℕ, zero, suc, ◌+◌, ◌≤◌, ◌<◌, Bool, true, false, some, List, [], ◌∷◌, ◌++◌, map, All, length,
  length-append, ◌≡◌, ◌∙◌, sym, ap, arith, append_assoc, append-nil,
}
use aegis_hosting_control_pa.Sql.Bytes.{Bytes, trim_bytes}
use aegis_hosting_control_pa.Sql.Parts.{Scanner}
use aegis_hosting_control_pa.Sql.Literals.{Piece, render}
use aegis_hosting_control_pa.Sql.Scanner.{
  statement, eof, next, finish, read_byte, dispatch, plain, round, rounds, split_loop,
  split_statements,
}
use aegis_hosting_control_pa.Sql.Scanner.Steps.{scanner_at}
use aegis_hosting_control_pa.Sql.Scanner.Statements.{IsStatement, next-statement, next-newline}

-- A statement by its first byte and the pieces behind it.
abbrev pub Statement : Type 0
Statement = ℕ × List Piece

abbrev pub text : Bool → Statement → Bytes
text mysql (c, ps) = c ∷ render mysql ps

-- The script, a newline behind each semicolon.
abbrev pub script : Bool → List Statement → Bytes
script mysql [] = []
script mysql (st ∷ sts) = text mysql st ++ b';' ∷ 0x0a ∷ script mysql sts

-- The end of a script: nothing, or a newline.
next-end :
    (mysql : Bool) (max last : ℕ) (content : Bool)
    → next (scanner_at mysql false max last content [])
      ≡ (eof, scanner_at mysql false max last false [])
unfolding next rounds round read_byte finish trim_bytes
next-end mysql max last content = ground arith

next-end_newline :
    (mysql : Bool) (max last : ℕ) (content : Bool)
    → 0 < max
    → (s : Scanner) × (next (scanner_at mysql false max last content (0x0a ∷ [])) ≡ (eof, s))
unfolding next rounds round read_byte dispatch plain finish trim_bytes
next-end_newline mysql max last content h = (scanner_at mysql false max 0x0a false [], ground arith)

split-statement :
    (n : ℕ) (s : Scanner) (out : List Bytes) (t : Bytes) (s' : Scanner)
    → next s ≡ (statement t, s')
    → split_loop (suc n) s out ≡ split_loop n s' (out ++ t ∷ [])
unfolding split_loop
split-statement n s out t s' h = rw (h, ap (λ p. p.1) h, split_loop)

split-eof :
    (n : ℕ) (s : Scanner) (out : List Bytes) (s' : Scanner)
    → next s ≡ (eof, s')
    → split_loop (suc n) s out ≡ some out
unfolding split_loop
split-eof n s out s' h = rw (h, split_loop)

module _ (mysql : Bool) (max : ℕ) where
  split-lines :
      (n last : ℕ) (content : Bool) (sts : List Statement) (out : List Bytes)
      → All (λ st. IsStatement mysql st.0 st.1) sts
      → length sts < n
      → length (script mysql sts) + 1 ≤ max
      → split_loop n (scanner_at mysql false max last content (0x0a ∷ script mysql sts)) out
        ≡ some (out ++ map (text mysql) sts)
  split-lines zero last content sts out written fuel room = absurd (omega arith)
  split-lines (suc n) last content [] out written fuel room =
      let (s', ends) = next-end_newline mysql max last content (omega arith) in
      split-eof n _ out s' ends ∙ ap some (sym (append-nil out))
  split-lines (suc n) last content ((c, ps) ∷ sts) out (st, written) fuel room =
      let t = c ∷ render mysql ps in
      let rest = 0x0a ∷ script mysql sts in
      split-statement n _ out t _ (
        next-newline mysql false max last content c ps rest st
          (omega (arith, length-append (render mysql ps) (b';' ∷ rest))))
      ∙ split-lines n b';' true sts (out ++ t ∷ []) written (omega arith)
          (omega (arith, length-append (render mysql ps) (b';' ∷ rest)))
      ∙ ap some (append_assoc out (t ∷ []) (map (text mysql) sts))

length-script : (mysql : Bool) (sts : List Statement) → length sts ≤ length (script mysql sts)
length-script mysql [] = omega arith
length-script mysql ((c, ps) ∷ sts) = omega (
  arith,
  length-script mysql sts,
  length-append (render mysql ps) (b';' ∷ 0x0a ∷ script mysql sts),
)

-- Splitting a script gives back the statements that it was written from, in their order, whatever
-- their literals hold: for statements that begin with a visible byte and are no DELIMITER command,
-- whose bytes between the literals open no quote or comment and end no statement, whose literals do
-- not touch, and which are trimmed.
pub split_statements-script :
    (mysql : Bool) (sts : List Statement)
    → All (λ st. IsStatement mysql st.0 st.1) sts
    → split_statements (script mysql sts) mysql ≡ some (map (text mysql) sts)
unfolding split_statements
split_statements-script mysql [] written = split-eof 0 _ [] _ (next-end mysql 1 0 false)
split_statements-script mysql ((c, ps) ∷ sts) (st, written) =
    let src = script mysql ((c, ps) ∷ sts) in
    let rest = 0x0a ∷ script mysql sts in
    let fits = length-append (render mysql ps) (b';' ∷ rest) in
    split-statement (length src) _ [] (c ∷ render mysql ps) _
      (next-statement mysql false (length src + 1) 0 false c ps rest st (omega (arith, fits)))
    ∙ split-lines mysql (length src + 1) (length src) b';' true sts (text mysql (c, ps) ∷ [])
        written (omega (arith, fits, length-script mysql sts)) (omega (arith, fits))
