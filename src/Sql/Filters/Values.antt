-- ===== src/Sql/Filters/Values.antt =====
-- `buildWhere` of internal/svc/dbeditor.go pastes no value into SQL.
use aegis_hosting_control_pa.Base.{
  ℕ, suc, ◌+◌, Bool, true, false, List, [], ◌∷◌, ◌++◌, ltb, length, length-append, ◌≡◌, refl, ap,
  arith, Bool-cases, inl, inr,
}
use aegis_hosting_control_pa.Sql.Bytes.{Bytes, bytes}
use aegis_hosting_control_pa.Sql.Filters.{
  unsupported_operator, unknown_column, Dialect, Filter, Where, bad, clause, Part, bare, bound,
  refused, FilterError, filter_part, where_loop, finish_where, build_where, max_filters, join_bytes,
}

-- A filter with another value.
abbrev pub with_value : Bytes → Filter → Filter
with_value v f = record f { value = v }

-- What the server parses, and how many values are bound to it.
pub data Shape : Type 0 where
  failed : FilterError → Shape
  sent : Bytes → ℕ → Shape

abbrev pub shape : Where → Shape
shape (bad e) = failed e
shape (clause text args) = sent text (length args)

abbrev part_shape : Part → Part
part_shape (bare text) = bare text
part_shape (bound expr op v) = bound expr op []
part_shape refused = refused

-- The same filters with other values.
abbrev pub SameBut : List Filter → List Filter → Type 0
SameBut [] [] = Unit
SameBut [] (g ∷ gs) = ⊥
SameBut (f ∷ fs) [] = ⊥
SameBut (f ∷ fs) (g ∷ gs) = (f.column ≡ g.column) × (f.op ≡ g.op) × SameBut fs gs

filter_part-shape :
    (d : Dialect) (f g : Filter)
    → f.column ≡ g.column
    → f.op ≡ g.op
    → part_shape (filter_part d f) ≡ part_shape (filter_part d g)
unfolding filter_part
filter_part-shape d f g c o = rw (c, o) (ground arith)

finish-shape :
    (parts args args' : List Bytes)
    → length args ≡ length args'
    → shape (finish_where parts args) ≡ shape (finish_where parts args')
finish-shape [] args args' h = refl
finish-shape (x ∷ xs) args args' h =
    ap (sent (bytes " WHERE " ++ join_bytes (bytes " AND ") (x ∷ xs))) h

-- The rest of the loop behind two parts that differ in the value alone.
part-shape :
    (d : Dialect) (cols : Bytes → Bool) (fs gs : List Filter) (parts args args' : List Bytes)
    (p q : Part)
    → length args ≡ length args'
    → part_shape p ≡ part_shape q
    → ((parts' as' bs' : List Bytes)
        → length as' ≡ length bs'
        → shape (where_loop d cols fs parts' as') ≡ shape (where_loop d cols gs parts' bs'))
    → shape (elim p [
      | refused ↦ bad unsupported_operator
      | bare text ↦ where_loop d cols fs (parts ++ text ∷ []) args
      | bound expr op value ↦
          where_loop d cols fs
            (parts
              ++ (expr ++ bytes " " ++ op ++ bytes " " ++ d.placeholder (length args + 1)) ∷ [])
            (args ++ value ∷ [])
    ])
      ≡ shape (elim q [
        | refused ↦ bad unsupported_operator
        | bare text ↦ where_loop d cols gs (parts ++ text ∷ []) args'
        | bound expr op value ↦
            where_loop d cols gs
              (parts
                ++ (expr ++ bytes " " ++ op ++ bytes " " ++ d.placeholder (length args' + 1)) ∷ [])
              (args' ++ value ∷ [])
      ])
part-shape d cols fs gs parts args args' refused refused h e rest = refl
part-shape d cols fs gs parts args args' (bare t) (bare u) h e rest =
    let same_text : t ≡ u = ground arith in rw same_text (rest _ args args' h)
part-shape d cols fs gs parts args args' (bound x o v) (bound y o' w) h e rest =
    let same_expr : x ≡ y = ground arith in
    let same_op : o ≡ o' = ground arith in
    rw (same_expr, same_op, h)
      (rest _ (args ++ v ∷ []) (args' ++ w ∷ [])
        (omega (arith, length-append args (v ∷ []), length-append args' (w ∷ []))))
part-shape d cols fs gs parts args args' refused (bare u) h e rest = absurd (ground arith)
part-shape d cols fs gs parts args args' refused (bound y o' w) h e rest = absurd (ground arith)
part-shape d cols fs gs parts args args' (bare t) refused h e rest = absurd (ground arith)
part-shape d cols fs gs parts args args' (bare t) (bound y o' w) h e rest = absurd (ground arith)
part-shape d cols fs gs parts args args' (bound x o v) refused h e rest = absurd (ground arith)
part-shape d cols fs gs parts args args' (bound x o v) (bare u) h e rest = absurd (ground arith)

-- The test of a column.
known-shape :
    (known known' : Bool) (w w' : Where)
    → known ≡ known'
    → shape w ≡ shape w'
    → shape (elim known [ false ↦ bad unknown_column | true ↦ w ])
      ≡ shape (elim known' [ false ↦ bad unknown_column | true ↦ w' ])
known-shape false false w w' e h = refl
known-shape true true w w' e h = h
known-shape false true w w' e h = absurd (ground arith)
known-shape true false w w' e h = absurd (ground arith)

where_loop-shape :
    (d : Dialect) (cols : Bytes → Bool) (fs gs : List Filter) (parts args args' : List Bytes)
    → SameBut fs gs
    → length args ≡ length args'
    → shape (where_loop d cols fs parts args) ≡ shape (where_loop d cols gs parts args')
unfolding where_loop
where_loop-shape d cols [] [] parts args args' s h = finish-shape parts args args' h
where_loop-shape d cols [] (g ∷ gs) parts args args' s h = absurd s
where_loop-shape d cols (f ∷ fs) [] parts args args' s h = absurd s
where_loop-shape d cols (f ∷ fs) (g ∷ gs) parts args args' (c, o, s) h =
    known-shape (cols f.column) (cols g.column) _ _ (ap cols c) (
      part-shape d cols fs gs parts args args' _ _ h (filter_part-shape d f g c o)
        (λ parts' as' bs' h'. where_loop-shape d cols fs gs parts' as' bs' s h'))

SameBut-length : (fs gs : List Filter) → SameBut fs gs → length fs ≡ length gs
SameBut-length [] [] s = refl
SameBut-length [] (g ∷ gs) s = absurd s
SameBut-length (f ∷ fs) [] s = absurd s
SameBut-length (f ∷ fs) (g ∷ gs) (c, o, s) = ap suc (SameBut-length fs gs s)

-- The SQL text of a WHERE clause, the number of its parameters and its errors depend on the columns
-- and the operators of the filters alone: two lists of filters that differ in their values give the
-- same text, in each dialect and for each set of columns.
pub build_where-shape :
    (d : Dialect) (cols : Bytes → Bool) (fs gs : List Filter)
    → SameBut fs gs
    → shape (build_where d cols fs) ≡ shape (build_where d cols gs)
unfolding build_where
build_where-shape d cols fs gs s = elim (Bool-cases (ltb max_filters (length gs))) [
  | inl many ↦ rw (SameBut-length fs gs s, many) refl
  | inr few ↦ rw (SameBut-length fs gs s, few) (where_loop-shape d cols fs gs [] [] [] s refl)
]
