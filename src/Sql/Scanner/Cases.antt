-- ===== src/Sql/Scanner/Cases.antt =====
-- What holds of every case of the switch in `Next` of internal/svc/dbeditor_io.go holds of a round.
use aegis_hosting_control_pa.Base.{
  ℕ, Bool, false, Option, none, some, ◌∷◌, ◌&&◌, ◌||◌, not, ◌==◌, ltb, of_if, length,
}
use aegis_hosting_control_pa.Sql.Bytes.{Bytes, bytes, take}
use aegis_hosting_control_pa.Sql.Parts.{
  Scanner, byte_at, dollar_tag, dash_comment, equal_fold_bytes,
}
use aegis_hosting_control_pa.Sql.Scanner.{
  Round, done, open_quote, set_delimiter, line_comment, block_comment, dollar_quote, plain,
  dispatch, read_byte, round, read_error, too_long,
}

module _ {κ} (P : Round → Type κ) (s : Scanner) (c : ℕ) (buf rest : Bytes) where
  -- The dollar case, by what `dollarTag` says.
  of_tag :
      (tag : Option ℕ)
      → P (plain s c buf rest)
      → ((k : ℕ) → P (dollar_quote s k buf rest))
      → P (elim tag [ none ↦ plain s c buf rest | some k ↦ dollar_quote s k buf rest ])
  of_tag none p d = p
  of_tag (some k) p d = d k

  pub of_dispatch :
      (start : Bool)
      → P (set_delimiter s buf rest)
      → ((esc : Bool) → P (open_quote s c esc buf rest))
      → P (line_comment s buf rest)
      → P (block_comment s buf rest)
      → ((k : ℕ) → P (dollar_quote s k buf rest))
      → P (plain s c buf rest)
      → P (dispatch s start c buf rest)
  unfolding dispatch
  of_dispatch start delimiter quote line block dollar other =
      of_if P
        (s.mysql
          && start
          && not s.content
          && length (take 9 rest) == 9
          && equal_fold_bytes (c ∷ take 9 rest) (bytes "DELIMITER "))
        _ _ delimiter
        (of_if P (c == b'\'') _ _ (quote s.mysql) (
          of_if P (c == b'"') _ _ (quote s.mysql) (
            of_if P (c == b'`' && s.mysql) _ _ (quote false) (
              of_if P ((c == b'-' && dash_comment s.mysql (take 2 rest)) || (c == b'#' && s.mysql))
                _ _ line
                (of_if P (c == b'/' && byte_at rest 0 == b'*') _ _ block (
                  of_if P (c == b'$' && not s.mysql) _ _ (of_tag (dollar_tag rest) other dollar)
                    other))))))

module _ {κ} (P : Round → Type κ) (s : Scanner) (buf : Bytes) where
  pub of_round :
      P (done read_error s) → P (done too_long s) → P (read_byte s buf s.input) → P (round s buf)
  unfolding round
  of_round failed long read =
      of_if P s.rerr _ _ failed (of_if P (ltb s.max (length buf)) _ _ long read)
