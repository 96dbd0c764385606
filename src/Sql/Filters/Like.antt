-- ===== src/Sql/Filters/Like.antt =====
-- `escapeLike` of internal/svc/dbeditor.go against SQL's LIKE, which PostgreSQL and MySQL document
-- alike: % stands for any text, _ for any character, and a backslash takes the next one as it is.
-- How two characters compare is the collation's choice.
use aegis_hosting_control_pa.Base.{
  ℕ, Bool, true, false, [], ◌∷◌, ◌++◌, ◌&&◌, ◌||◌, ◌==◌, if◌then◌else◌, ◌≡◌, ◌∙◌, refl, arith,
  Bool-cases, inl, inr, any,
}
use aegis_hosting_control_pa.Sql.Bytes.{Bytes, bytes, trim_bytes}
use aegis_hosting_control_pa.Sql.Filters.{
  Dialect, Filter, bound, filter_part, escape_like, upper_bytes,
}

-- A text whose first character passes a test, and whose rest matches.
abbrev pub head_then : (ℕ → Bool) → (Bytes → Bool) → Bytes → Bool
head_then test rest [] = false
head_then test rest (x ∷ t) = test x && rest t

-- Some end of the text matches.
abbrev pub any_suffix : (Bytes → Bool) → Bytes → Bool
any_suffix f [] = f []
any_suffix f (x ∷ t) = f (x ∷ t) || any_suffix f t

module _ (eq : ℕ → ℕ → Bool) where
  -- `text LIKE pattern`
  pub like : Bytes → Bytes → Bool
  like [] [] = true
  like [] (x ∷ t) = false
  like (p ∷ []) t = elim (p == b'%') [
    | true ↦ any_suffix (like []) t
    | false ↦ elim (p == b'_') [
      | true ↦ head_then (λ _. true) (like []) t
      | false ↦ head_then (eq p) (like []) t
    ]
  ]
  like (p ∷ c ∷ ps) t = elim (p == b'%') [
    | true ↦ any_suffix (like (c ∷ ps)) t
    | false ↦ elim (p == b'\\') [
      | true ↦ head_then (eq c) (like ps) t
      | false ↦ elim (p == b'_') [
        | true ↦ head_then (λ _. true) (like (c ∷ ps)) t
        | false ↦ head_then (eq p) (like (c ∷ ps)) t
      ]
    ]
  ]

  -- The text begins with s, and contains s.
  abbrev pub begins : Bytes → Bytes → Bool
  begins [] t = true
  begins (c ∷ s) t = head_then (eq c) (begins s) t

  abbrev pub contains : Bytes → Bytes → Bool
  contains s t = any_suffix (begins s) t

  any_suffix-same :
      (f g : Bytes → Bool) (t : Bytes)
      → ((t' : Bytes) → f t' ≡ g t')
      → any_suffix f t ≡ any_suffix g t
  any_suffix-same f g [] h = h []
  any_suffix-same f g (x ∷ t) h = rw (h (x ∷ t), any_suffix-same f g t h) refl

  head_then-same :
      (test : ℕ → Bool) (f g : Bytes → Bool) (t : Bytes)
      → ((t' : Bytes) → f t' ≡ g t')
      → head_then test f t ≡ head_then test g t
  head_then-same test f g [] h = refl
  head_then-same test f g (x ∷ t) h = rw (h t) refl

  -- A last % takes what is left.
  like-rest : (t : Bytes) → like (b'%' ∷ []) t ≡ true
  unfolding like
  like-rest [] = refl
  like-rest (x ∷ t) = like-rest t

  like-plain :
      (b : ℕ) (ps t : Bytes)
      → (b == b'\\' || b == b'%' || b == b'_') ≡ false
      → like (b ∷ ps) t ≡ head_then (eq b) (like ps) t
  unfolding like
  like-plain b [] t h = ground arith
  like-plain b (c ∷ ps) t h = ground arith

  like-escaped : (b : ℕ) (ps t : Bytes) → like (b'\\' ∷ b ∷ ps) t ≡ head_then (eq b) (like ps) t
  unfolding like
  like-escaped b ps t = refl

  -- An escaped text matches itself alone.
  like-escape : (s t : Bytes) → like (escape_like s ++ b'%' ∷ []) t ≡ begins s t
  unfolding escape_like
  like-escape [] t = like-rest t
  like-escape (b ∷ s) t = elim (Bool-cases (b == b'\\' || b == b'%' || b == b'_')) [
    | inl special ↦ rw special (
        like-escaped b (escape_like s ++ b'%' ∷ []) t ∙ head_then-same (eq b) _ _ t (like-escape s))
    | inr usual ↦ rw usual (
        like-plain b (escape_like s ++ b'%' ∷ []) t usual
        ∙ head_then-same (eq b) _ _ t (like-escape s))
  ]

  like-any : (ps t : Bytes) → like (b'%' ∷ ps) t ≡ any_suffix (like ps) t
  unfolding like
  like-any [] t = refl
  like-any (c ∷ ps) t = refl

-- A filter with the operator CONTAINS is a LIKE whose pattern matches just the texts that contain the
-- value, whatever wildcards the value holds and however the collation compares characters.
pub filter_part-contains :
    (d : Dialect) (f : Filter)
    → upper_bytes (trim_bytes f.op) ≡ bytes "CONTAINS"
    → (expr pattern : Bytes) × (filter_part d f ≡ bound expr (bytes "LIKE") pattern)
      × ((eq : ℕ → ℕ → Bool) (t : Bytes) → like eq pattern t ≡ contains eq f.value t)
unfolding filter_part any
filter_part-contains d f h = (
  if d.postgres then bytes "CAST(" ++ d.quote f.column ++ bytes " AS TEXT)" else d.quote f.column,
  bytes "%" ++ escape_like f.value ++ bytes "%",
  rw h refl,
  λ eq t.
      like-any eq (escape_like f.value ++ bytes "%") t
      ∙ any_suffix-same eq _ _ t (like-escape eq f.value),
)
