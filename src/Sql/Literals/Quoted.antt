-- ===== src/Sql/Literals/Quoted.antt =====
-- The loop `quoted` of internal/svc/dbeditor_io.go on a text that `quoteSQLString` wrote.
use aegis_hosting_control_pa.Base.{
  ℕ, ◌+◌, ◌≤◌, Bool, true, false, [], ◌∷◌, ◌++◌, ◌&&◌, ◌||◌, ◌==◌, Bool-cases, length,
  length-append, ◌≡◌, ◌∙◌, refl, arith, inl, inr, append_assoc,
}
use aegis_hosting_control_pa.Sql.Bytes.{Bytes}
use aegis_hosting_control_pa.Sql.Parts.{quoted}
use aegis_hosting_control_pa.Sql.Literals.{escape_byte, escape}

module _ (esc : Bool) (max : ℕ) (buf : Bytes) (last : ℕ) (fits : length buf ≤ max) where
  quoted-plain :
      (c : ℕ) (rest : Bytes)
      → (c == b'\'') ≡ false
      → (esc && c == b'\\') ≡ false
      → quoted b'\'' esc max buf last (c ∷ rest) ≡ quoted b'\'' esc max (buf ++ c ∷ []) c rest
  unfolding quoted
  quoted-plain c [] h k = ground arith
  quoted-plain c (n ∷ rest) h k = ground arith

  quoted-pair :
      (c n : ℕ) (rest : Bytes)
      → ((c == b'\'') && (n == b'\'')) || (esc && c == b'\\') ≡ true
      → quoted b'\'' esc max buf last (c ∷ n ∷ rest)
        ≡ quoted b'\'' esc max (buf ++ c ∷ n ∷ []) n rest
  unfolding quoted
  quoted-pair c n rest h = ground arith

  quoted-close :
      (n : ℕ) (rest : Bytes)
      → (n == b'\'') ≡ false
      → quoted b'\'' esc max buf last (b'\'' ∷ n ∷ rest)
        ≡ record { buf = buf ++ b'\'' ∷ []; rest = n ∷ rest; last = b'\''; ended = false }
  unfolding quoted
  quoted-close n rest h = ground arith

-- A byte is copied as it is written, as one byte or two.
quoted-escape_byte :
    (mysql : Bool) (max : ℕ) (buf : Bytes) (last b : ℕ) (rest : Bytes)
    → length buf ≤ max
    → (l : ℕ) × (quoted b'\'' mysql max buf last (escape_byte mysql b ++ rest)
        ≡ quoted b'\'' mysql max (buf ++ escape_byte mysql b) l rest)
unfolding escape_byte
quoted-escape_byte mysql max buf last b rest fits = elim (Bool-cases (b == b'\'')) [
  | inl quote ↦ (b, rw quote (quoted-pair mysql max buf last fits b b rest (ground arith)))
  | inr other ↦ elim (Bool-cases mysql) [
    | inr pg ↦ (b, rw (other, pg) (quoted-plain false max buf last fits b rest other refl))
    | inl my ↦ elim (Bool-cases (b == b'\\')) [
      | inl slash ↦
          (b, rw (other, my, slash) (quoted-pair true max buf last fits b b rest (ground arith)))
      | inr plain ↦ elim (Bool-cases (b == 0)) [
        | inl null ↦ (
          b'0',
          rw (other, my, plain, null) (quoted-pair true max buf last fits b'\\' b'0' rest refl),
        )
        | inr set ↦ elim (Bool-cases (b == 0x1a)) [
          | inl sub ↦ (
            b'Z',
            rw (other, my, plain, set, sub)
                (quoted-pair true max buf last fits b'\\' b'Z' rest refl),
          )
          | inr same ↦ (
            b,
            rw (other, my, plain, set, same)
                (quoted-plain true max buf last fits b rest other plain),
          )
        ]
      ]
    ]
  ]
]

-- The whole text is copied, up to its closing quote.
pub quoted-escape :
    (mysql : Bool) (max : ℕ) (buf : Bytes) (last : ℕ) (s : Bytes) (n : ℕ) (rest : Bytes)
    → length buf + length (escape mysql s) ≤ max
    → (n == b'\'') ≡ false
    → quoted b'\'' mysql max buf last (escape mysql s ++ b'\'' ∷ n ∷ rest) ≡ record {
      buf = buf ++ (escape mysql s ++ b'\'' ∷ []);
      rest = n ∷ rest;
      last = b'\'';
      ended = false;
    }
unfolding escape
quoted-escape mysql max buf last [] n rest fits h =
    quoted-close mysql max buf last (omega arith) n rest h
quoted-escape mysql max buf last (b ∷ bs) n rest fits h =
    let e = escape_byte mysql b in
    let (l, step) =
      quoted-escape_byte mysql max buf last b (escape mysql bs ++ b'\'' ∷ n ∷ rest) (omega arith) in
    rw (append_assoc e (escape mysql bs) (b'\'' ∷ n ∷ rest)) (
      step
      ∙ quoted-escape mysql max (buf ++ e) l bs n rest
          (omega (arith, length-append buf e, length-append e (escape mysql bs))) h
      ∙ rw (
        append_assoc buf e (escape mysql bs ++ b'\'' ∷ []),
        append_assoc e (escape mysql bs) (b'\'' ∷ []),
      ))
