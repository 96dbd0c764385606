-- ===== src/Api/Users/Scope.antt =====
-- What a caller of the account handlers of internal/api/handlers_users.go can reach: the rows of the
-- accounts that it manages, and no role of an administrator unless it is one.
use aegis_hosting_control_pa.Base.{
  ℕ, Bool, true, false, Option, none, some, List, [], ◌∷◌, ◌++◌, ◌==◌, same, Bool-cases, inl, inr,
  first, update_rows, ◌≡◌, ◌∙◌, sym, arith, ==_iff,
}
use aegis_hosting_control_pa.Base.Rows.{first-update_rows, first-update_other}
use aegis_hosting_control_pa.Store.Schema.{User, role_admin}
use aegis_hosting_control_pa.Store.Users.{has_id}
use aegis_hosting_control_pa.Api.Access.{can_manage_user}

abbrev pub has_admin_role : Option User → Bool
has_admin_role none = false
has_admin_role (some u) = same u.role role_admin

-- The row of an account that the caller may not manage is as it was, and an administrator was one
-- before if the caller is none.
pub record IsWithin (actor : User) (us us' : List User) : Type 0 where
  pub outside :
      (k : ℕ) (v : User)
      → first (has_id k) us ≡ some v
      → can_manage_user actor v ≡ false
      → first (has_id k) us' ≡ some v
  pub admins :
      same actor.role role_admin ≡ false
      → (k : ℕ) → has_admin_role (first (has_id k) us') ≡ true
      → has_admin_role (first (has_id k) us) ≡ true

pub IsWithin-refl : (actor : User) (us : List User) → IsWithin actor us us
IsWithin-refl actor us = record { outside = λ k v h m. h; admins = λ n k h. h }

pub IsWithin-trans :
    (actor : User) (us us' us'' : List User)
    → IsWithin actor us us'
    → IsWithin actor us' us''
    → IsWithin actor us us''
IsWithin-trans actor us us' us'' a b = record {
  outside = λ k v h m. b.outside k v (a.outside k v h m) m;
  admins = λ n k h. a.admins n k (b.admins n k h);
}

module _ (actor : User) (us : List User) (v : User) (f : User → User)
    (found : first (has_id v.id) us ≡ some v) (may : can_manage_user actor v ≡ true)
    (keeps : (y : User) → (f y).id ≡ y.id)
    (role : same actor.role role_admin ≡ false
      → same (f v).role role_admin ≡ true
      → same v.role role_admin ≡ true) where
  abbrev changed : List User
  changed = update_rows (has_id v.id) f us

  unmanaged : (w : User) → first (has_id v.id) us ≡ some w → can_manage_user actor w ≡ false → ⊥
  unmanaged w h un = cc (sym found ∙ h, may, un)

  unchanged : (k : ℕ) → (v.id == k) ≡ false → first (has_id k) changed ≡ first (has_id k) us
  unchanged k e =
      first-update_other (has_id v.id) (has_id k) f us (λ y. ground (arith, keeps y))
        (λ y. ground arith)

  changed_row : first (has_id v.id) changed ≡ some (f v)
  changed_row = first-update_rows (has_id v.id) f us v (λ y. ground (arith, keeps y)) found

  outside_row :
      (k : ℕ) (w : User)
      → first (has_id k) us ≡ some w
      → can_manage_user actor w ≡ false
      → first (has_id k) changed ≡ some w
  outside_row k w h un = elim (Bool-cases (v.id == k)) [
    | inl e ↦ absurd (unmanaged w (rw (← ((==_iff v.id k).0 e)) at h) un)
    | inr e ↦ unchanged k e ∙ h
  ]

  admin_row :
      same actor.role role_admin ≡ false
      → (k : ℕ) → has_admin_role (first (has_id k) changed) ≡ true
      → has_admin_role (first (has_id k) us) ≡ true
  admin_row n k h = elim (Bool-cases (v.id == k)) [
    | inl e ↦
        rw (← ((==_iff v.id k).0 e), found)
          (role n (rw (← ((==_iff v.id k).0 e), changed_row) at h))
    | inr e ↦ rw (unchanged k e) at h
  ]

  -- A change of one row that the caller manages.
  pub update-IsWithin : IsWithin actor us changed
  update-IsWithin = record { outside = outside_row; admins = admin_row }

first-append_found {ℓ} :
    {A : Type ℓ} (p : A → Bool) (xs ys : List A) (x : A)
    → first p xs ≡ some x
    → first p (xs ++ ys) ≡ some x
unfolding first
first-append_found p [] ys x h = absurd (ground arith)
first-append_found p (y ∷ xs) ys x h = ground (arith, first-append_found p xs ys x)

append-admin :
    (k : ℕ) (us : List User) (r : User)
    → same r.role role_admin ≡ false
    → has_admin_role (first (has_id k) (us ++ r ∷ [])) ≡ true
    → has_admin_role (first (has_id k) us) ≡ true
unfolding first
append-admin k [] r n h = absurd (ground arith)
append-admin k (u ∷ us) r n h = ground (arith, append-admin k us r n)

-- A new row.
pub append-IsWithin :
    (actor : User) (us : List User) (r : User)
    → (same actor.role role_admin ≡ false → same r.role role_admin ≡ false)
    → IsWithin actor us (us ++ r ∷ [])
append-IsWithin actor us r role = record {
  outside = λ k v h un. first-append_found (has_id k) us (r ∷ []) v h;
  admins = λ n k h. append-admin k us r (role n) h;
}
