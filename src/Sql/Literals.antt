-- ===== src/Sql/Literals.antt =====
-- `quoteSQLString` of internal/svc/dbeditor_io.go, and statements that are written with it.
pub mod Quoted
use aegis_hosting_control_pa.Base.{
  ℕ, Bool, true, false, List, [], ◌∷◌, ◌++◌, ◌&&◌, ◌||◌, not, ◌==◌, if◌then◌else◌, ◌≡◌, refl,
}
use aegis_hosting_control_pa.Sql.Bytes.{Bytes, bytes}

-- What the replacers make of a byte.
unfoldable pub escape_byte : Bool → ℕ → Bytes
escape_byte mysql b =
    if b == b'\''
    then b ∷ b ∷ []
    else if not mysql
    then b ∷ []
    else if b == b'\\'
    then b ∷ b ∷ []
    else if b == 0
    then bytes "\\0"
    else if b == 0x1a
    then bytes "\\Z"
    else b ∷ []

unfoldable pub escape : Bool → Bytes → Bytes
escape mysql [] = []
escape mysql (b ∷ bs) = escape_byte mysql b ++ escape mysql bs

-- `quoteSQLString`; mysql is `d.kind != "postgres"`
unfoldable pub quote_sql_string : Bool → Bytes → Bytes
unfolding escape escape_byte
quote_sql_string mysql s = b'\'' ∷ escape mysql s ++ b'\'' ∷ []

-- A statement is written from bytes and literals.
pub data Piece : Type 0 where
  byte : ℕ → Piece
  literal : Bytes → Piece

unfoldable pub render : Bool → List Piece → Bytes
render mysql [] = []
render mysql (byte c ∷ ps) = c ∷ render mysql ps
render mysql (literal s ∷ ps) = quote_sql_string mysql s ++ render mysql ps

-- A byte that opens nothing and ends nothing in a script.
abbrev pub is_inert : ℕ → Bool
is_inert c = not (
    c == b'\''
    || c == b'"'
    || c == b'`'
    || c == b'-'
    || c == b'#'
    || c == b'/'
    || c == b'$'
    || c == b';')

abbrev pub is_literal : List Piece → Bool
is_literal (literal s ∷ ps) = true
is_literal _ = false

-- The bytes between the literals are inert, and two literals do not touch.
abbrev pub IsWritten : List Piece → Type 0
IsWritten [] = Unit
IsWritten (byte c ∷ ps) = (is_inert c ≡ true) × IsWritten ps
IsWritten (literal s ∷ ps) = (is_literal ps ≡ false) × IsWritten ps
