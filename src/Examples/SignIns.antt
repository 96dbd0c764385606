-- ===== src/Examples/SignIns.antt =====
-- Runs of the sign-in handlers and of the gate on panel areas.
use aegis_hosting_control_pa.Base.{some, refl, ◌≡◌, if◌then◌else◌}
use aegis_hosting_control_pa.Auth.Lockout.Limits.{is_locked_out}
use aegis_hosting_control_pa.Auth.Kept.{identities}
use aegis_hosting_control_pa.Api.Access.{api_claims}
use aegis_hosting_control_pa.Api.Users.{Caller}
use aegis_hosting_control_pa.Api.Features.{
  is_manager, package_for, has_feature, features_for, with_feature,
}
use aegis_hosting_control_pa.Api.Features.Gate.{docker, passes, gate-features}
use aegis_hosting_control_pa.Api.SignIn.{denied, handle_totp_disable}
use aegis_hosting_control_pa.Api.SignIn.Confirmed.{refused_attempt, handle_totp_disable-wrong}
use aegis_hosting_control_pa.Api.SignIn.Requests.{
  disable_totp, serve_sign_in, serve_sign_in-identities,
}
use aegis_hosting_control_pa.Examples.{ada, server, sample_env, later, sample_manager}
use aegis_hosting_control_pa.Examples.Panels.{shop}

abbrev ada_asks : Caller
ada_asks = record { actor = ada; claims = api_claims ada; ip = "192.0.2.7" }

gate-features_example :
    (with_feature sample_env later ada "docker" shop
      ≡ passes docker
          (is_manager ada)
          (package_for sample_env ada shop)
          (package_for later ada shop))
    × (has_feature "docker" (features_for sample_env ada shop)
        ≡ passes docker
            (is_manager ada)
            (package_for sample_env ada shop)
            (package_for sample_env ada shop))
gate-features_example = gate-features sample_env later ada docker shop

handle_totp_disable-wrong_example :
    handle_totp_disable (sample_manager sample_env) ada_asks (some "guess") server ≡ (
      if is_locked_out sample_env "ada" "192.0.2.7" server
      then (denied 429, server)
      else (denied 401, refused_attempt (sample_manager sample_env) ada_asks "guess" server refl))
handle_totp_disable-wrong_example =
    handle_totp_disable-wrong (sample_manager sample_env) ada_asks "guess" server refl

serve_sign_in-identities_example :
    identities
      (serve_sign_in (sample_manager sample_env) ada_asks (disable_totp (some "right")) server).1
    ≡ identities server
serve_sign_in-identities_example =
    serve_sign_in-identities (sample_manager sample_env) ada_asks (disable_totp (some "right"))
      server
