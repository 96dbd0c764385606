-- ===== src/Sql/Filters/Runs.antt =====
-- A run of buildWhere.
use aegis_hosting_control_pa.Base.{List, true, [], ◌∷◌, ◌≡◌, refl, any}
use aegis_hosting_control_pa.Sql.Bytes.{bytes, trim_bytes}
use aegis_hosting_control_pa.Sql.Filters.{
  Filter, build_where, upper_bytes, pg_dialect, join_bytes, replace_byte, itoa, clause, filter_part,
  escape_like,
}

abbrev sample_filters : List Filter
sample_filters =
    record { column = bytes "a\"b"; op = bytes "contains"; value = bytes "5%" }
    ∷ record { column = bytes "c"; op = bytes "is null"; value = [] }
    ∷ record { column = bytes "c"; op = bytes " >= "; value = bytes "7" }
    ∷ []

build_where_run :
    build_where pg_dialect (λ _. true) sample_filters
    ≡ clause
        (bytes " WHERE CAST(\"a\"\"b\" AS TEXT) LIKE $1 AND \"c\" IS NULL AND \"c\" >= $2")
        (bytes "%5\\%%" ∷ bytes "7" ∷ [])
unfolding build_where upper_bytes filter_part any trim_bytes escape_like join_bytes replace_byte
    itoa
build_where_run = refl
