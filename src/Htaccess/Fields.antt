-- ===== src/Htaccess/Fields.antt =====
-- The words of a directive line: htQuoteFields and htTrimSlashes of htaccess.go.
use Prim.Native.Char.{code}
use aegis_hosting_control_pa.Base.{
  ℕ, String, Bool, true, false, List, [], ◌∷◌, ◌++◌, ◌&&◌, ◌||◌, not, ◌==◌, same, if◌then◌else◌,
  append, trim_space,
}
use aegis_hosting_control_pa.Htaccess.Text.{trim_prefix, trim_suffix, trim_of}

-- The state of the loop of `htQuoteFields`: `cur` is the word so far.
pub record Scan : Type 0 where
  pub in_q : Bool
  pub esc : Bool
  pub cur : String

abbrev ends_word : ℕ → Scan → Bool
ends_word k st = not st.esc && (k == b' ' || k == b'\t') && not st.in_q

-- One character: between quotes a backslash makes the next character plain.
scan_char : String → ℕ → Scan → Scan
scan_char c k st =
    if st.esc
    then record { in_q = st.in_q; esc = false; cur = append st.cur c }
    else if k == b'\\'
    then (if st.in_q then record st { esc = true } else record st { cur = append st.cur c })
    else if k == b'"'
    then record st { in_q = not st.in_q }
    else if ends_word k st
    then record st { cur = "" }
    else record st { cur = append st.cur c }

-- A word that is not empty is a field.
abbrev field : String → List String
field cur = if same cur "" then [] else cur ∷ []

abbrev finished : ℕ → Scan → List String
finished k st = if ends_word k st then field st.cur else []

fields_from : Scan → String → List String
unfolding scan_char
fields_from st String.[] = field st.cur
fields_from st (String.◌∷◌ c s) =
    finished (code c) st ++ fields_from (scan_char (String.◌∷◌ c "") (code c) st) s

-- `htQuoteFields`
unfoldable pub quote_fields : String → List String
unfolding fields_from
quote_fields line = fields_from (record { in_q = false; esc = false; cur = "" }) line

-- `htTrimSlashes`
unfoldable pub trim_slashes : String → String
trim_slashes s =
    let t = trim_of (λ c. c == b'/') (trim_suffix (trim_prefix (trim_space s) "\"") "\"") in
    if same t "" then "" else append "/" t
