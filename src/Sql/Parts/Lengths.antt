-- ===== src/Sql/Parts/Lengths.antt =====
-- The loops inside `Next` of internal/svc/dbeditor_io.go leave an end of the stream that they got.
use aegis_hosting_control_pa.Base.{
  ℕ, zero, suc, ◌≤◌, Bool, [], ◌∷◌, ◌++◌, if◌then◌else◌, length, arith,
}
use aegis_hosting_control_pa.Sql.Bytes.{Bytes, drop}
use aegis_hosting_control_pa.Sql.Parts.{quoted, skip_line, block, dollar_body, line_of}

pub quoted-le :
    (q : ℕ) (esc : Bool) (max : ℕ) (buf : Bytes) (last : ℕ) (input : Bytes)
    → length (quoted q esc max buf last input).rest ≤ length input
unfolding quoted
quoted-le q esc max buf last [] = omega arith
quoted-le q esc max buf last (c ∷ []) = ground arith
quoted-le q esc max buf last (c ∷ n ∷ rest) = ground (
  arith,
  quoted-le q esc max (buf ++ c ∷ n ∷ []) n rest,
  quoted-le q esc max (buf ++ c ∷ []) c (n ∷ rest),
)

pub skip_line-le : (last : ℕ) (input : Bytes) → length (skip_line last input).0 ≤ length input
unfolding skip_line
skip_line-le last [] = omega arith
skip_line-le last (c ∷ rest) = ground (arith, skip_line-le c rest)

pub block-le :
    (keep : Bool) (prev : ℕ) (buf : Bytes) (last : ℕ) (input : Bytes)
    → length (block keep prev buf last input).rest ≤ length input
unfolding block
block-le keep prev buf last [] = omega arith
block-le keep prev buf last (b ∷ rest) =
    ground (arith, block-le keep b (if keep then buf ++ b ∷ [] else buf) b rest)

pub dollar_body-le :
    (tag : Bytes) (start max : ℕ) (buf : Bytes) (last : ℕ) (input : Bytes)
    → length (dollar_body tag start max buf last input).rest ≤ length input
unfolding dollar_body
dollar_body-le tag start max buf last [] = omega arith
dollar_body-le tag start max buf last (b ∷ rest) =
    ground (arith, dollar_body-le tag start max (buf ++ b ∷ []) b rest)

pub line_of-le : (input : Bytes) → length (line_of input).1 ≤ length input
unfolding line_of
line_of-le [] = omega arith
line_of-le (c ∷ rest) = ground (arith, line_of-le rest)

pub drop-le : (n : ℕ) (bs : Bytes) → length (drop n bs) ≤ length bs
drop-le zero bs = omega arith
drop-le (suc n) [] = omega arith
drop-le (suc n) (b ∷ bs) = ground (arith, drop-le n bs)
