-- ===== src/Sql/Filters.antt =====
-- The filters of the database editor: dialects, `escapeLike` and `buildWhere` of
-- internal/svc/dbeditor.go. The columns of a table are a test on names.
pub mod Values
pub mod Runs
pub mod Like
use aegis_hosting_control_pa.Base.{
  ℕ, zero, suc, ◌+◌, ◌-◌, ◌/◌, ◌%◌, Bool, true, false, Option, none, some, List, [], ◌∷◌, ◌++◌,
  ◌&&◌, ◌||◌, not, leb, ltb, ◌==◌, if◌then◌else◌, length, ◌≡◌, refl, any,
}
use aegis_hosting_control_pa.Sql.Bytes.{Bytes, bytes, eq_bytes, trim_bytes}

-- strings.ReplaceAll of one byte by a text
unfoldable pub replace_byte : ℕ → Bytes → Bytes → Bytes
replace_byte c to [] = []
replace_byte c to (b ∷ bs) = (if b == c then to else b ∷ []) ++ replace_byte c to bs

-- strconv.Itoa
digits : ℕ → ℕ → Bytes → Bytes
digits zero n acc = acc
digits (suc f) n acc =
    let acc' = (b'0' + n % 10) ∷ acc in
    let rest = digits f (n / 10) acc' in if ltb n 10 then acc' else rest

unfoldable pub itoa : ℕ → Bytes
unfolding digits
itoa n = digits (suc n) n []

pub record Dialect : Type 0 where
  -- kind == "postgres"
  pub postgres : Bool
  pub quote : Bytes → Bytes
  -- the n-th bound parameter, from 1
  pub placeholder : ℕ → Bytes

abbrev pub mysql_dialect : Dialect
mysql_dialect = record {
  postgres = false;
  quote = λ s. bytes "`" ++ replace_byte b'`' (bytes "``") s ++ bytes "`";
  placeholder = λ n. bytes "?";
}

abbrev pub pg_dialect : Dialect
pg_dialect = record {
  postgres = true;
  quote = λ s. b'"' ∷ replace_byte b'"' (b'"' ∷ b'"' ∷ []) s ++ b'"' ∷ [];
  placeholder = λ n. b'$' ∷ itoa n;
}

-- `EditorFilter`
pub record Filter : Type 0 where
  pub column : Bytes
  pub op : Bytes
  pub value : Bytes

-- `escapeLike`
unfoldable pub escape_like : Bytes → Bytes
escape_like [] = []
escape_like (b ∷ bs) =
    (if b == b'\\' || b == b'%' || b == b'_' then b'\\' ∷ b ∷ [] else b ∷ []) ++ escape_like bs

abbrev upper_byte : ℕ → ℕ
upper_byte b = if leb b'a' b && leb b b'z' then b - 32 else b

-- strings.ToUpper, as far as an operator can tell: besides the ASCII letters, U+017F becomes S and
-- U+0131 I. No other character becomes ASCII, and no operator of the program holds another one.
unfoldable pub upper_bytes : Bytes → Bytes
upper_bytes [] = []
upper_bytes (b ∷ []) = upper_byte b ∷ []
upper_bytes (b ∷ c ∷ bs) = elim (b == 0xc5 && c == 0xbf) [
  | true ↦ b'S' ∷ upper_bytes bs
  | false ↦ elim (b == 0xc4 && c == 0xb1) [
    | true ↦ b'I' ∷ upper_bytes bs
    | false ↦ upper_byte b ∷ upper_bytes (c ∷ bs)
  ]
]

-- strings.Join
unfoldable pub join_bytes : Bytes → List Bytes → Bytes
join_bytes sep [] = []
join_bytes sep (x ∷ []) = x
join_bytes sep (x ∷ y ∷ ys) = x ++ sep ++ join_bytes sep (y ∷ ys)

-- What the errors of `buildWhere` say.
pub data FilterError : Type 0 where
  too_many unknown_column unsupported_operator : FilterError

pub data Where : Type 0 where
  bad : FilterError → Where
  clause : Bytes → List Bytes → Where

abbrev pub is_one_of : Bytes → List Bytes → Bool
is_one_of op ops = any (eq_bytes op) ops

-- A part of the clause, and the value that is bound to it.
pub data Part : Type 0 where
  bare : Bytes → Part
  bound : Bytes → Bytes → Bytes → Part
  refused : Part

-- The switch on the operator.
pub filter_part : Dialect → Filter → Part
filter_part d f =
    let q = d.quote f.column in
    let text = if d.postgres then bytes "CAST(" ++ q ++ bytes " AS TEXT)" else q in
    let op = upper_bytes (trim_bytes f.op) in
    if is_one_of op (bytes "IS NULL" ∷ bytes "IS NOT NULL" ∷ [])
    then bare (q ++ bytes " " ++ op)
    else if is_one_of op
        (bytes "=" ∷ bytes "!=" ∷ bytes "<" ∷ bytes ">" ∷ bytes "<=" ∷ bytes ">=" ∷ [])
    then bound q op f.value
    else if is_one_of op (bytes "LIKE" ∷ bytes "NOT LIKE" ∷ [])
    then bound text op f.value
    else if eq_bytes op (bytes "CONTAINS")
    then bound text (bytes "LIKE") (bytes "%" ++ escape_like f.value ++ bytes "%")
    else refused

-- `editorMaxFilters`
abbrev pub max_filters : ℕ
max_filters = 10

-- The end of `buildWhere`.
abbrev pub finish_where : List Bytes → List Bytes → Where
finish_where [] args = clause [] []
finish_where (x ∷ xs) args = clause (bytes " WHERE " ++ join_bytes (bytes " AND ") (x ∷ xs)) args

-- The loop of `buildWhere`.
pub where_loop : Dialect → (Bytes → Bool) → List Filter → List Bytes → List Bytes → Where
where_loop d cols [] parts args = finish_where parts args
where_loop d cols (f ∷ fs) parts args = elim (cols f.column) [
  | false ↦ bad unknown_column
  | true ↦ elim (filter_part d f) [
    | refused ↦ bad unsupported_operator
    | bare text ↦ where_loop d cols fs (parts ++ text ∷ []) args
    | bound expr op value ↦
        where_loop d cols fs
          (parts ++ (expr ++ bytes " " ++ op ++ bytes " " ++ d.placeholder (length args + 1)) ∷ [])
          (args ++ value ∷ [])
  ]
]

-- `buildWhere`
pub build_where : Dialect → (Bytes → Bool) → List Filter → Where
unfolding where_loop
build_where d cols filters =
    if ltb max_filters (length filters) then bad too_many else where_loop d cols filters [] []
