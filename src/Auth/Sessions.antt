-- ===== src/Auth/Sessions.antt =====
-- Tokens in use: `Verify`, `Logout`, roles, and impersonation of internal/auth/auth.go.
pub mod Tokens
pub mod Impersonation
use aegis_hosting_control_pa.Base.{
  ℕ, String, Bool, true, false, List, [], ◌∷◌, not, ltb, ◌==◌, same, if◌then◌else◌,
}
use aegis_hosting_control_pa.Env.{Claims}
use aegis_hosting_control_pa.Store.Schema.{User, status_suspended, role_admin}
use aegis_hosting_control_pa.Store.Result.{
  invalid_token, suspended, forbidden, not_impersonated, M, handle, ◌>>=◌, ◌>>◌, pure, fail,
  of_result, ignore, attempt,
}
use aegis_hosting_control_pa.Store.Users.{get_user_by_id}
use aegis_hosting_control_pa.Store.Sessions.{get_session_user, delete_session}
use aegis_hosting_control_pa.Auth.Manager.{Manager, open_session, parse}

unfoldable pub impersonate : Manager → ℕ → ℕ → M String
impersonate m admin_id target_id = do
  admin ← get_user_by_id m.env admin_id
  if not (same admin.role role_admin) then fail forbidden else do
    target ← get_user_by_id m.env target_id
    if same target.status status_suspended then fail suspended else open_session m target admin_id

unfoldable pub unimpersonate : Manager → String → M String
unimpersonate m token = do
  claims ← of_result (parse m token)
  ignore (delete_session m.env claims.session_id)
  if claims.impersonator == 0
      then fail not_impersonated
      else do admin ← get_user_by_id m.env claims.impersonator; open_session m admin 0

-- Every error below the signature check but a suspension is ErrInvalidToken.
unfoldable pub verify : Manager → String → M (Claims × User)
verify m token = do
  claims ← of_result (parse m token)
  attempt (get_session_user m.env claims.session_id)
      (λ uid.
        attempt (get_user_by_id m.env uid)
          (λ u. if same u.status status_suspended then fail suspended else pure (claims, u))
          (λ _. fail invalid_token))
      (λ _. fail invalid_token)

-- A token that no longer parses leaves nothing to revoke.
unfoldable pub logout : Manager → String → M (Unit {0})
logout m token =
    handle (parse m token) (λ claims. delete_session m.env claims.session_id) (λ _. pure tt)

unfoldable pub has_role : Claims → List String → Bool
has_role claims [] = false
has_role claims (r ∷ roles) = if same claims.role r then true else has_role claims roles

abbrev pub is_impersonating : Claims → Bool
is_impersonating claims = ltb 0 claims.impersonator
