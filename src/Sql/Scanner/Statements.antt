-- ===== src/Sql/Scanner/Statements.antt =====
-- `Next` of internal/svc/dbeditor_io.go on statements that are written with `quoteSQLString`.
use aegis_hosting_control_pa.Base.{
  ℕ, zero, suc, ◌+◌, ◌≤◌, ◌<◌, Bool, true, false, List, [], ◌∷◌, ◌++◌, ◌||◌, ◌==◌, length,
  length-append, ◌≡◌, ◌∙◌, refl, arith, append_assoc, append-nil,
}
use aegis_hosting_control_pa.Sql.Bytes.{Bytes, bytes, take, trim_bytes, trim_bytes-newline}
use aegis_hosting_control_pa.Sql.Parts.{Scanner, is_content, equal_fold_bytes}
use aegis_hosting_control_pa.Sql.Literals.{
  Piece, byte, literal, render, quote_sql_string, is_inert, is_literal, IsWritten,
}
use aegis_hosting_control_pa.Sql.Scanner.{Next, statement, done, more, round, rounds, next}
use aegis_hosting_control_pa.Sql.Scanner.Steps.{
  scanner_at, round-inert, round-literal, round-semicolon,
}

-- What follows a literal is not a quote.
behind_literal :
    (mysql : Bool) (ps : List Piece) (rest : Bytes)
    → is_literal ps ≡ false
    → IsWritten ps
    → (n : ℕ) × (r : Bytes) × (render mysql ps ++ b';' ∷ rest ≡ n ∷ r) × ((n == b'\'') ≡ false)
unfolding render
behind_literal mysql [] rest h w = (b';', rest, refl, refl)
behind_literal mysql (byte c ∷ ps) rest h w =
    (c, render mysql ps ++ b';' ∷ rest, refl, ground arith)
behind_literal mysql (literal s ∷ ps) rest h w = absurd (ground arith)

rounds-more :
    (n : ℕ) (s : Scanner) (buf : Bytes) (s' : Scanner) (buf' : Bytes)
    → round s buf ≡ more s' buf'
    → rounds (suc n) s buf ≡ rounds n s' buf'
unfolding rounds
rounds-more n s buf s' buf' h = rw (h, rounds)

rounds-done :
    (n : ℕ) (s : Scanner) (buf : Bytes) (r : Next) (s' : Scanner)
    → round s buf ≡ done r s'
    → rounds (suc n) s buf ≡ (r, s')
unfolding rounds
rounds-done n s buf r s' h = rw (h, rounds)

length-quote : (mysql : Bool) (s : Bytes) → 0 < length (quote_sql_string mysql s)
unfolding quote_sql_string
length-quote mysql s = omega arith

-- A statement begins with a byte that is no space, and not with the DELIMITER command.
abbrev pub IsStatement : Bool → ℕ → List Piece → Type 0
IsStatement mysql c ps =
    (is_inert c ≡ true)
    × (is_content c ≡ true)
    × ((rest : Bytes)
        → equal_fold_bytes (c ∷ take 9 (render mysql ps ++ b';' ∷ rest)) (bytes "DELIMITER ")
          ≡ false)
    × IsWritten ps
    × (trim_bytes (c ∷ render mysql ps) ≡ c ∷ render mysql ps)

module _ (mysql broken : Bool) (max : ℕ) where
  abbrev at : ℕ → Bool → Bytes → Scanner
  at = scanner_at mysql broken max

  round-literal_behind :
      (last : ℕ) (buf : Bytes) (s : Bytes) (ps : List Piece) (rest : Bytes)
      → length buf + length (quote_sql_string mysql s) ≤ max
      → is_literal ps ≡ false
      → IsWritten ps
      → round (at last true (quote_sql_string mysql s ++ (render mysql ps ++ b';' ∷ rest))) buf
        ≡ more (at b'\'' true (render mysql ps ++ b';' ∷ rest)) (buf ++ quote_sql_string mysql s)
  round-literal_behind last buf s ps rest room h w =
      let (n, r, e, other) = behind_literal mysql ps rest h w in
      rw e (round-literal mysql broken max last true buf (omega arith) s n r room other)

  -- The rounds behind the first byte of a statement read the rest of it.
  rounds-render :
      (n : ℕ) (ps : List Piece) (last : ℕ) (buf rest : Bytes) (b : ℕ) (bs : Bytes)
      → IsWritten ps
      → length (render mysql ps) < n
      → length buf + length (render mysql ps) ≤ max
      → trim_bytes (buf ++ render mysql ps) ≡ b ∷ bs
      → rounds n (at last true (render mysql ps ++ b';' ∷ rest)) buf
        ≡ (statement (b ∷ bs), at b';' true rest)
  unfolding rounds render
  rounds-render zero ps last buf rest b bs w fuel room h = absurd (omega arith)
  rounds-render (suc n) [] last buf rest b bs w fuel room h = rounds-done n _ buf _ _ (
      round-semicolon mysql broken max last true buf (omega arith) rest b bs
        (rw (append-nil buf) at h))
  rounds-render (suc n) (byte c ∷ ps) last buf rest b bs (inert, w) fuel room h =
      rounds-more n _ buf _ _ (
        round-inert mysql broken max last true buf (omega arith) c (render mysql ps ++ b';' ∷ rest)
          inert refl)
      ∙ rounds-render n ps c (buf ++ c ∷ []) rest b bs w (omega arith)
          (omega (arith, length-append buf (c ∷ [])))
          (rw (append_assoc buf (c ∷ []) (render mysql ps)) h)
  rounds-render (suc n) (literal s ∷ ps) last buf rest b bs (apart, w) fuel room h =
      let q = quote_sql_string mysql s in
      let r = render mysql ps in
      rw (append_assoc q r (b';' ∷ rest)) (
        rounds-more n _ buf _ _
          (round-literal_behind last buf s ps rest (omega (arith, length-append q r)) apart w)
        ∙ rounds-render n ps b'\'' (buf ++ q) rest b bs w
            (omega (arith, length-append q r, length-quote mysql s))
            (omega (arith, length-append q r, length-append buf q)) (rw (append_assoc buf q r) h))

  -- The rounds from the first byte of a statement, behind a newline or not.
  rounds-statement :
      (n : ℕ) (last : ℕ) (content : Bool) (buf : Bytes) (c : ℕ) (ps : List Piece) (rest : Bytes)
      → IsStatement mysql c ps
      → trim_bytes (buf ++ c ∷ render mysql ps) ≡ c ∷ render mysql ps
      → length (render mysql ps) + 1 < n
      → length buf + length (c ∷ render mysql ps) ≤ max
      → rounds n (at last content (c ∷ render mysql ps ++ b';' ∷ rest)) buf
        ≡ (statement (c ∷ render mysql ps), at b';' true rest)
  rounds-statement zero last content buf c ps rest st trimmed fuel room = absurd (omega arith)
  rounds-statement (suc n) last content buf c ps rest (inert, visible, lead, written, _) trimmed
        fuel room =
      let r = render mysql ps in
      let seen : (content || is_content c) ≡ true = ground arith in
      rounds-more n _ buf _ _ (
        round-inert mysql broken max last content buf (omega arith) c (r ++ b';' ∷ rest) inert
          (ground (arith, lead rest)))
      ∙ rw seen (
          rounds-render n ps c (buf ++ c ∷ []) rest c r written (omega arith)
            (omega (arith, length-append buf (c ∷ []))) (rw (append_assoc buf (c ∷ []) r) trimmed))

  -- `Next` returns a statement whole, semicolons and quotes in its literals included, and leaves
  -- what stands behind its semicolon: each statement that begins with a visible byte and is not a
  -- DELIMITER command, whose bytes between the literals open no quote or comment and end no
  -- statement, whose literals do not touch, which is trimmed, and which fits the limit.
  pub next-statement :
      (last : ℕ) (content : Bool) (c : ℕ) (ps : List Piece) (rest : Bytes)
      → IsStatement mysql c ps
      → length (c ∷ render mysql ps) ≤ max
      → next (at last content (c ∷ render mysql ps ++ b';' ∷ rest))
        ≡ (statement (c ∷ render mysql ps), at b';' true rest)
  unfolding next
  next-statement last content c ps rest st room =
      rounds-statement (suc (length (c ∷ render mysql ps ++ b';' ∷ rest))) last false [] c ps rest
        st st.4 (omega (arith, length-append (render mysql ps) (b';' ∷ rest))) (omega arith)

  -- A newline in front of it is dropped.
  pub next-newline :
      (last : ℕ) (content : Bool) (c : ℕ) (ps : List Piece) (rest : Bytes)
      → IsStatement mysql c ps
      → length (c ∷ render mysql ps) + 1 ≤ max
      → next (at last content (0x0a ∷ c ∷ render mysql ps ++ b';' ∷ rest))
        ≡ (statement (c ∷ render mysql ps), at b';' true rest)
  unfolding next
  next-newline last content c ps rest st room =
      let text = c ∷ render mysql ps ++ b';' ∷ rest in
      rounds-more (suc (length text)) _ [] _ _
        (round-inert mysql broken max last false [] (omega arith) 0x0a text refl refl)
      ∙ rounds-statement (suc (length text)) 0x0a false (0x0a ∷ []) c ps rest st
          (trim_bytes-newline (c ∷ render mysql ps) ∙ st.4)
          (omega (arith, length-append (render mysql ps) (b';' ∷ rest))) (omega arith)
