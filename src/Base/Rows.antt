-- ===== src/Base/Rows.antt =====
-- The laws of the row operations that stand for SQL statements.
use Prim.Native.Nat.{◌≤◌, ◌+◌}
use mathlib.Core.Path.{◌≡◌, refl}
use mathlib.Core.Logic.{inl, inr}
use mathlib.Core.Bool.{Bool, true, false}
use mathlib.Core.Option.{none, some}
use mathlib.Core.List.{List, [], ◌∷◌, ◌++◌}
use native.Mathlib.Omega.{arith}
use aegis_hosting_control_pa.Base.Tests.{if◌then◌else◌, Bool-cases}
use aegis_hosting_control_pa.Base.Lists.{keep, drop_rows, update_rows, first, any, count_rows, All}

module _ {ℓ} {A : Type ℓ} (p : A → Bool) where
  -- An inserted row is found if no other passes the test.
  pub first-append :
      (xs : List A) (x : A) → any p xs ≡ false → p x ≡ true → first p (xs ++ x ∷ []) ≡ some x
  unfolding first any
  first-append [] x h k = ground arith
  first-append (y ∷ xs) x h k = ground (arith, first-append xs x)

  pub first-drop_rows : (xs : List A) → first p (drop_rows p xs) ≡ none
  unfolding first keep
  first-drop_rows [] = refl
  first-drop_rows (x ∷ xs) = ground (arith, first-drop_rows xs)

  pub any-drop_rows : (xs : List A) → any p (drop_rows p xs) ≡ false
  unfolding any keep
  any-drop_rows [] = refl
  any-drop_rows (x ∷ xs) = ground (arith, any-drop_rows xs)

  -- A found row passes the test.
  pub first-passes : (xs : List A) (x : A) → first p xs ≡ some x → p x ≡ true
  unfolding first
  first-passes [] x h = ground arith
  first-passes (y ∷ xs) x h = ground (arith, first-passes xs x)

  pub count_rows-append :
      (xs : List A) (x : A) → count_rows p (xs ++ x ∷ []) ≡ count_rows p xs + (if p x then 1 else 0)
  unfolding count_rows
  count_rows-append [] x = ground arith
  count_rows-append (y ∷ xs) x = ground (arith, count_rows-append xs x)

  pub any-keep : (q : A → Bool) (xs : List A) → any p xs ≡ false → any p (keep q xs) ≡ false
  unfolding any keep
  any-keep q [] h = h
  any-keep q (x ∷ xs) h = ground (arith, any-keep q xs)

  pub any-append :
      (xs : List A) (x : A) → any p xs ≡ false → p x ≡ false → any p (xs ++ x ∷ []) ≡ false
  unfolding any
  any-append [] x h k = ground arith
  any-append (y ∷ xs) x h k = ground (arith, any-append xs x)

  -- A test that passes more rows counts more.
  pub count_rows_mono :
      (q : A → Bool) (xs : List A)
      → ((x : A) → p x ≡ true → q x ≡ true)
      → count_rows p xs ≤ count_rows q xs
  unfolding count_rows
  count_rows_mono q [] h = omega arith
  count_rows_mono q (x ∷ xs) h = elim (Bool-cases (p x)) [
    | inl yes' ↦ rw (yes', h x yes') (omega (arith, count_rows_mono q xs h))
    | inr no' ↦ rw no' (ground (arith, count_rows_mono q xs h))
  ]

  -- A row with the key stays if it is not among those that are dropped.
  pub any-partition :
      (q : A → Bool) (xs : List A)
      → any p xs ≡ true
      → any p (keep q xs) ≡ false
      → any p (drop_rows q xs) ≡ true
  unfolding any keep
  any-partition q [] h k = h
  any-partition q (x ∷ xs) h k = ground (arith, any-partition q xs)

  -- An update that keeps what the test reads is found under the same key.
  pub first-update_rows :
      (f : A → A) (xs : List A) (x : A)
      → ((y : A) → p (f y) ≡ p y)
      → first p xs ≡ some x
      → first p (update_rows p f xs) ≡ some (f x)
  unfolding first update_rows
  first-update_rows f [] x same h = ground arith
  first-update_rows f (y ∷ xs) x same h = ground (arith, first-update_rows f xs x same, same y)

  -- A lookup by another key does not see the update.
  pub first-update_other :
      (q : A → Bool) (f : A → A) (xs : List A)
      → ((y : A) → q (f y) ≡ q y)
      → ((y : A) → q y ≡ true → p y ≡ false)
      → first q (update_rows p f xs) ≡ first q xs
  unfolding first update_rows
  first-update_other q f [] keeps apart = refl
  first-update_other q f (y ∷ xs) keeps apart =
      ground (arith, first-update_other q f xs keeps apart, keeps y, apart y)

module _ {ℓ κ λ'} {A : Type ℓ} (P : A → Type κ) (Q : A → Type λ') (r : A → Bool) where
  -- What holds of the rows, and of each that is kept.
  pub All-keep : (xs : List A) → ((x : A) → P x → r x ≡ true → Q x) → All P xs → All Q (keep r xs)
  unfolding keep
  All-keep [] f h = tt
  All-keep (x ∷ xs) f (px, h) = elim (Bool-cases (r x)) [
    | inl kept ↦ rw kept (f x px kept, All-keep xs f h)
    | inr dropped ↦ rw dropped (All-keep xs f h)
  ]
