-- ===== src/Sql/Scanner/Steps.antt =====
-- The rounds of `Next` of internal/svc/dbeditor_io.go on a statement that is written from bytes and
-- literals, while the delimiter is the semicolon.
use aegis_hosting_control_pa.Base.{
  ℕ, ◌+◌, ◌≤◌, Bool, true, false, [], ◌∷◌, ◌++◌, ◌||◌, not, ◌==◌, length, length-append, ◌≡◌, arith,
  append_assoc,
}
use aegis_hosting_control_pa.Sql.Bytes.{Bytes, bytes, take, trim_bytes}
use aegis_hosting_control_pa.Sql.Parts.{Scanner, is_content, equal_fold_bytes}
use aegis_hosting_control_pa.Sql.Literals.{escape, quote_sql_string, is_inert}
use aegis_hosting_control_pa.Sql.Literals.Quoted.{quoted-escape}
use aegis_hosting_control_pa.Sql.Scanner.{
  statement, done, more, emit, open_quote, plain, dispatch, read_byte, round,
}

module _ (mysql broken : Bool) (max : ℕ) where
  -- A scanner whose delimiter is the semicolon.
  abbrev pub scanner_at : ℕ → Bool → Bytes → Scanner
  scanner_at last content input = record {
    input = input;
    broken = broken;
    mysql = mysql;
    delim = bytes ";";
    last = last;
    max = max;
    content = content;
    rerr = false;
  }

  module _ (last : ℕ) (content : Bool) (buf : Bytes) (fits : length buf ≤ max) where
    pub round-inert :
        (c : ℕ) (rest : Bytes)
        → is_inert c ≡ true
        → content || not (equal_fold_bytes (c ∷ take 9 rest) (bytes "DELIMITER ")) ≡ true
        → round (scanner_at last content (c ∷ rest)) buf
          ≡ more (scanner_at c (content || is_content c) rest) (buf ++ c ∷ [])
    unfolding round read_byte dispatch plain
    round-inert c rest h k = ground arith

    pub round-literal :
        (s : Bytes) (n : ℕ) (rest : Bytes)
        → length buf + length (quote_sql_string mysql s) ≤ max
        → (n == b'\'') ≡ false
        → round (scanner_at last content (quote_sql_string mysql s ++ n ∷ rest)) buf
          ≡ more (scanner_at b'\'' true (n ∷ rest)) (buf ++ quote_sql_string mysql s)
    unfolding round read_byte dispatch open_quote quote_sql_string
    round-literal s n rest room h =
        let tail = escape mysql s ++ b'\'' ∷ [] in
        rw (append_assoc (escape mysql s) (b'\'' ∷ []) (n ∷ rest)) (
          ground (
            arith,
            quoted-escape mysql max (buf ++ b'\'' ∷ []) b'\'' s n rest
                (omega (
                  arith,
                  length-append buf (b'\'' ∷ []),
                  length-append (escape mysql s) (b'\'' ∷ []),
                ))
                h,
            append_assoc buf (b'\'' ∷ []) tail,
          ))

    pub round-semicolon :
        (rest : Bytes) (b : ℕ) (bs : Bytes)
        → trim_bytes buf ≡ b ∷ bs
        → round (scanner_at last content (b';' ∷ rest)) buf
          ≡ done (statement (b ∷ bs)) (scanner_at b';' content rest)
    unfolding round read_byte dispatch plain emit
    round-semicolon rest b bs h = ground arith
