-- ===== src/Lib.antt =====
-- Aegis, a hosting control panel written in Go: the accounts of a server, who may act as whom, and
-- what a suspension does to an account's services.
--
-- The program keeps its state in one SQLite database (internal/store). A request passes the middleware
-- of internal/api, which finds the account of its token through internal/auth; the handlers then call
-- the services of internal/svc, which write the database and run commands on the host. Two loops work
-- on their own: Suspender.ReconcileLoop applies suspensions again after a restart, and
-- Quota.EnforceLoop suspends accounts over their disk quota. The Go web server answers for the sites
-- of the accounts, and reads their .htaccess files.
--
-- The files:
--
--   Base, Base/*        tests, lists, texts and the laws of table rows
--   Env                 the clock, the entropy, the cryptography, and the faults of the driver
--   Store/*             internal/store. Schema has the tables (models.go, the schema of store.go), Result
--                       the (value, error) pairs, Users users.go, Sessions store.go and
--                       loginattempts.go, Packages the packages of users.go, Tokens apitokens.go, Suspension
--                       suspension.go, Delete DeleteUser of users.go
--   Auth/*              internal/auth. Totp is totp.go; the rest is auth.go: Lockout (lockedOut), Manager
--                       (mint, newSessionID, completeLogin, Parse), Login (Login, ConfirmPassword),
--                       SecondFactor (VerifyTOTPLogin, enrollment, backup codes), Sessions (Verify,
--                       Logout, HasRole, Impersonate, Unimpersonate)
--   Suspension/*        internal/svc/suspend.go (Host: the commands; Enforce, Lift; Suspender: Suspend,
--                       Unsuspend, Reconcile) and internal/svc/quota.go (Quota)
--   Cron/*              internal/svc/cron.go; its table, internal/store/cron.go, is Store/Cron
--   Htaccess/*          internal/svc/htaccess.go. Text has what it uses of strings, strconv and path;
--                       Config the types; Fields, Directives and Parse the parser (htQuoteFields,
--                       htParseCond, htParseRuleFlags, htParseRedirect, htParseFile, htParseDir);
--                       Expand htExpand, htExpandSub, htServerVar; Conds, Rules and Engine htEvalCond,
--                       htApplyRule and htEngine
--   Api/*               internal/svc/apitokens.go (Tokens), internal/api/ratelimit.go (Limiter) and the
--                       middleware of internal/api/server.go (Access); Users is handlers_users.go (Edit has
--                       its handlers that change an account, Names ValidUsername and
--                       ReservedAccountName); SignIn handlers_auth.go, Features handlers_features.go,
--                       Jobs handlers_cron.go
--   Sql/*               internal/svc/dbeditor_io.go and dbeditor.go. Bytes has what it uses of bytes and strings; Parts and
--                       Scanner stmtScanner, Next and splitStatements; Literals quoteSQLString; Import
--                       ImportSQL; Filters the dialects, escapeLike and buildWhere
--   Examples/*          runs at concrete inputs
--
-- A table is the list of its rows, and a statement a function on the database, or the error of the
-- driver where Env.fault says so. A method is an action: a function from the database to a result and
-- the database, in which what was written before an error stays written.
--
-- What stands outside is a parameter: bcrypt, golang-jwt, HMAC-SHA1 and base32, crypto/rand, regexp
-- and path.Match, the files that a rewrite condition asks about, the commands of the host and their
-- answers, and the other services. A theorem that needs more of them than a function says so in a
-- hypothesis.
--
-- Bounds: the passes of htEngine are limited to ten by the program itself. The loops of Next,
-- splitStatements and ImportSQL take a number of rounds, one more than the bytes that are left, which
-- is enough since each round but the last reads a byte. The streams of imports stay below the import
-- limit, and their errors come again at each read: strictLimit's error, which comes once, is left out.
-- Row ids, quotas and times are natural numbers: the database numbers rows from 1, and a quota below 0
-- does what 0 does. Times are nanoseconds; a column holds seconds.
--
-- Not modelled: the log lines, the text of the warnings, the order of rows where no ORDER BY matters
-- to the program, the parent relation of users.owner_id, SQL itself, HTTP, and the services that write files and run commands of the host.
pub mod Base
pub mod Env
pub mod Store
pub mod Auth
pub mod Suspension
pub mod Examples
pub mod Htaccess
pub mod Sql
pub mod Api
pub mod Cron
