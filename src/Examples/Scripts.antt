-- ===== src/Examples/Scripts.antt =====
-- Runs of the script splitter, the import and the filters of the database editor.
use aegis_hosting_control_pa.Base.{
  Bool, ℕ, true, false, none, some, List, [], ◌∷◌, ◌++◌, ◌≡◌, ◌≢◌, refl,
}
use aegis_hosting_control_pa.Sql.Bytes.{Bytes, bytes, trim_bytes}
use aegis_hosting_control_pa.Sql.Literals.{byte, literal, render, quote_sql_string}
use aegis_hosting_control_pa.Sql.Filters.{
  upper_bytes, Filter, bound, filter_part, build_where, mysql_dialect, pg_dialect,
}
use aegis_hosting_control_pa.Sql.Filters.Values.{shape, build_where-shape}
use aegis_hosting_control_pa.Sql.Filters.Like.{like, contains, filter_part-contains}
use aegis_hosting_control_pa.Sql.Scanner.{split_statements}
use aegis_hosting_control_pa.Sql.Scanner.Progress.{split_statements-ne-none}
use aegis_hosting_control_pa.Sql.Scanner.Scripts.{Statement, text, script, split_statements-script}
use aegis_hosting_control_pa.Sql.Import.{Target, Imported, import_sql}
use aegis_hosting_control_pa.Sql.Import.Errors.{IsRolledBack, import_sql-broken}

-- A value that would end the statement if it were not quoted.
abbrev hostile : Statement
hostile = (b'v', byte 0x20 ∷ literal (bytes "a'; drop \\") ∷ byte b')' ∷ [])

abbrev plain_insert : Statement
plain_insert = (b'x', literal (bytes "--") ∷ [])

split_statements-script_example :
    split_statements (script true (hostile ∷ plain_insert ∷ [])) true
    ≡ some (text true hostile ∷ text true plain_insert ∷ [])
unfolding render quote_sql_string trim_bytes
split_statements-script_example = split_statements-script true (hostile ∷ plain_insert ∷ []) (
  (refl, refl, λ rest. refl, (refl, (refl, (refl, tt))), refl),
  ((refl, refl, λ rest. refl, (refl, tt), refl), tt),
)

split_statements-ne-none_example : split_statements (bytes "a 'b;' -- c\n; d") true ≢ none
split_statements-ne-none_example = split_statements-ne-none (bytes "a 'b;' -- c\n; d") true

-- A server that keeps the statements it ran, and those that were there when the transaction began.
abbrev log_server : Target (List Bytes × List Bytes)
log_server = record {
  exec = λ q d. (some 1, (d.0, d.1 ++ q ∷ []));
  begin = λ d. some (d.1, d.1);
  commit = λ d. (true, (d.1, d.1));
  rollback = λ d. (d.0, d.0);
  is_utf8 = λ q. true;
  cancelled = λ n. false;
}

import_sql-broken_example :
    (i : Imported (List Bytes × List Bytes)) × (import_sql log_server false
        (bytes "drop a; drop b; dro")
        true
        ([], [])
      ≡ some i)
    × IsRolledBack log_server ([], []) i
import_sql-broken_example = import_sql-broken log_server (bytes "drop a; drop b; dro") ([], [])

abbrev by_name : Bytes → List Filter
by_name v = record { column = bytes "name"; op = bytes " contains"; value = v } ∷ []

build_where-shape_example :
    shape (build_where pg_dialect (λ _. true) (by_name (bytes "a")))
    ≡ shape (build_where pg_dialect (λ _. true) (by_name (bytes "' OR 1=1 --")))
build_where-shape_example =
    build_where-shape pg_dialect (λ _. true) (by_name (bytes "a")) (by_name (bytes "' OR 1=1 --"))
      (refl, refl, tt)

abbrev percent : Filter
percent = record { column = bytes "name"; op = bytes " contains"; value = bytes "50%_" }

filter_part-contains_example :
    (expr pattern : Bytes) × (filter_part mysql_dialect percent ≡ bound expr (bytes "LIKE") pattern)
    × ((eq : ℕ → ℕ → Bool) (t : Bytes) → like eq pattern t ≡ contains eq (bytes "50%_") t)
unfolding trim_bytes upper_bytes
filter_part-contains_example = filter_part-contains mysql_dialect percent refl
