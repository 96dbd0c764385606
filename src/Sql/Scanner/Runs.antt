-- ===== src/Sql/Scanner/Runs.antt =====
-- A run of splitStatements.
use aegis_hosting_control_pa.Base.{true, some, [], ◌∷◌, ◌≡◌, refl}
use aegis_hosting_control_pa.Sql.Bytes.{bytes, trim_bytes}
use aegis_hosting_control_pa.Sql.Parts.{quoted, skip_line, block}
use aegis_hosting_control_pa.Sql.Scanner.{
  split_statements, next, round, open_quote, line_comment, block_comment, emit, finish,
}

split_statements_run :
    split_statements (bytes "a; b 'x;y' -- c;\n /* ; */ ;;$1 ") true
    ≡ some (bytes "a" ∷ bytes "b 'x;y'" ∷ bytes "$1" ∷ [])
unfolding split_statements next round open_quote line_comment block_comment emit finish trim_bytes
    quoted skip_line block
split_statements_run = refl
