-- ===== src/Auth/Lockout.antt =====
-- `lockedOut` of internal/auth/auth.go.
pub mod Limits
use aegis_hosting_control_pa.Base.{ℕ, ◌-◌, ◌*◌, String, Bool, true, false, not, leb, if◌then◌else◌}
use aegis_hosting_control_pa.Env.{Env}
use aegis_hosting_control_pa.Store.Result.{M, pure, attempt}
use aegis_hosting_control_pa.Store.Sessions.{
  count_recent_failures, count_recent_failures_from_ip, count_recent_failures_for_user,
  has_recent_success,
}

abbrev pub lockout_threshold : ℕ
lockout_threshold = 5

abbrev pub user_lockout_threshold : ℕ
user_lockout_threshold = 15

abbrev pub ip_lockout_threshold : ℕ
ip_lockout_threshold = 30

abbrev pub known_address_window : ℕ
known_address_window = 30 * 24 * 3600 * 1_000_000_000

abbrev pub lockout_window : ℕ
lockout_window = 15 * 60 * 1_000_000_000

-- `if n, err := call; err == nil && n >= limit { return … }`: a query that fails does not lock out.
abbrev if_reached : M ℕ → ℕ → M Bool → M Bool → M Bool
if_reached call limit then' else' =
    attempt call (λ n. if leb limit n then then' else else') (λ _. else')

-- The third limit does not apply to an address that the account's owner is known to use.
unless_known : Env → String → String → M Bool
unless_known e username ip =
    attempt (has_recent_success e username ip (e.now - known_address_window))
      (λ known. pure (not known)) (λ _. pure true)

unfoldable pub locked_out? : Env → String → String → M Bool
unfolding unless_known
locked_out? e username ip =
    let since = e.now - lockout_window in
    if_reached (count_recent_failures e username ip since) lockout_threshold (pure true) (
      if_reached (count_recent_failures_from_ip e ip since) ip_lockout_threshold (pure true) (
        if_reached (count_recent_failures_for_user e username since) user_lockout_threshold
          (unless_known e username ip) (pure false)))
