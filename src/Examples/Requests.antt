-- ===== src/Examples/Requests.antt =====
-- Runs of the middleware on the sample server.
use aegis_hosting_control_pa.Base.{
  ◌+◌, ◌≤◌, true, some, [], ◌∷◌, ◌≡◌, refl, length, keep, first, arith,
}
use aegis_hosting_control_pa.Store.Result.{ok}
use aegis_hosting_control_pa.Api.Tokens.{issue, verify_api_token, random_string}
use aegis_hosting_control_pa.Api.Tokens.Roundtrip.{raw, issued_row, issued_db, verify-issue}
use aegis_hosting_control_pa.Api.Limiter.{Limiter, new_limiter, fail_once, blocked, max_keys}
use aegis_hosting_control_pa.Api.Limiter.Window.{fail_all, length-fail_once, blocked-fail_all}
use aegis_hosting_control_pa.Api.Access.{Incoming, Server, with_auth}
use aegis_hosting_control_pa.Api.Access.Granted.{IsActive, OfGranted, with_auth-IsActive}
use aegis_hosting_control_pa.Examples.{ada, server, sample_env, later, sample_manager}

verify-issue_example :
    (issue sample_env ada "cron" 0 server ≡ (
      ok (
        issued_row sample_env ada "cron" 0 server "bc" "$aegis_bc",
        raw sample_env ada "cron" 0 server "bc" "$aegis_bc",
      ),
      issued_db sample_env ada "cron" 0 server "bc" "$aegis_bc",
    ))
    × ((verify_api_token later
          (raw sample_env ada "cron" 0 server "bc" "$aegis_bc")
          (issued_db sample_env ada "cron" 0 server "bc" "$aegis_bc")).0
        ≡ ok ada)
unfolding random_string keep first
verify-issue_example =
    verify-issue sample_env ada "cron" 0 server "bc" "$aegis_bc" later refl refl refl tt refl refl
      refl refl refl

abbrev limiter : Limiter
limiter = new_limiter 600 2

length-fail_once_example : length (fail_once "10.0.0.1" 1000 limiter).hits ≤ max_keys + 1
length-fail_once_example = length-fail_once "10.0.0.1" 1000 limiter

blocked-fail_all_example :
    (blocked "10.0.0.1" 1200 (fail_all "10.0.0.1" (1000 ∷ 1100 ∷ []) limiter)).0 ≡ true
blocked-fail_all_example =
    blocked-fail_all "10.0.0.1" 1200 (1000 ∷ 1100 ∷ []) limiter (omega arith)
      ((omega arith, omega arith), ((omega arith, omega arith), tt)) (omega arith)

abbrev script_call : Incoming
script_call = record { authorization = "Bearer aegis_bc"; query_token = ""; ip = "10.0.0.1" }

abbrev script_server : Server
script_server = record {
  db = issued_db sample_env ada "cron" 0 server "bc" "$aegis_bc";
  token_fails = some limiter;
}

with_auth-IsActive_example :
    OfGranted
      (IsActive script_server.db)
      (with_auth (sample_manager later) script_call script_server).0
with_auth-IsActive_example = with_auth-IsActive (sample_manager later) script_call script_server
