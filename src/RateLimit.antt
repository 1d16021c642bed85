-- ===== src/RateLimit.antt =====
-- sftp/ratelimit.go and the login of sftp/server.go: how many failed logins of an address the server
-- remembers, and for how long. Times are in nanoseconds; one call reads the clock once.
pub mod Streaks
pub mod Logins
mod Tests
use game_janitor.Base.{
  ℕ, zero, suc, ◌+◌, ◌-◌, String, Bool, Option, none, some, List, [], ◌∷◌, if◌then◌else◌, ltb, leb,
  str_eq,
}

-- authRateLimiter: its settings, which never change, and its map of attempts.
pub record Limits : Type 0 where
  pub max_failures : ℕ
  pub window : ℕ

pub record AttemptRecord : Type 0 where
  pub failures : ℕ
  pub last_fail : ℕ

abbrev pub Attempts : Type 0
Attempts = String → Option AttemptRecord

-- newAuthRateLimiter
unfoldable pub no_attempts : Attempts
no_attempts ip = none

-- attempts[ip] = r, and delete where there is none
unfoldable pub with_attempt : String → Option AttemptRecord → Attempts → Attempts
with_attempt ip r m asked = if str_eq ip asked then r else m asked

-- time.Since(r.lastFail) > window
abbrev pub has_elapsed : Limits → ℕ → AttemptRecord → Bool
has_elapsed l now r = ltb l.window (now - r.last_fail)

-- check: the time that remains is the error's.
unfoldable pub check : Limits → ℕ → String → Attempts → Option ℕ × Attempts
check l now ip m = elim (m ip) [
  | none ↦ (none, m)
  | some r ↦
      if has_elapsed l now r
      then (none, with_attempt ip none m)
      else if leb l.max_failures r.failures
      then (some (l.window - (now - r.last_fail)), m)
      else (none, m)
]

-- recordFailure
unfoldable pub record_failure : Limits → ℕ → String → Attempts → Attempts
record_failure l now ip m = elim (m ip) [
  | none ↦ with_attempt ip (some (record { failures = 1; last_fail = now })) m
  | some r ↦
      if has_elapsed l now r
      then with_attempt ip (some (record { failures = 1; last_fail = now })) m
      else with_attempt ip (some (record { failures = r.failures + 1; last_fail = now })) m
]

-- recordSuccess
unfoldable pub record_success : String → Attempts → Attempts
record_success ip m = with_attempt ip none m

-- cleanup
unfoldable pub clean_up : Limits → ℕ → Attempts → Attempts
clean_up l now m ip = elim (m ip) [
  | none ↦ none
  | some r ↦ if ltb (r.last_fail + l.window) now then none else some r
]

-- What passwordCallback answers.
pub data Login : Type 0 where
  blocked : Login
  refused : Login
  admitted : String × String → Login

-- passwordCallback, with what ValidateLogin answers for a user and a password: the gameserver and its
-- volume, or none for its error.
unfoldable pub password_callback :
    Limits
    → (String → String → Option (String × String))
    → ℕ
    → String
    → String
    → String
    → Attempts
    → Login × Attempts
password_callback l validate now ip user password m =
    let checked = check l now ip m in
    elim checked.0 [
      | some remaining ↦ (blocked, checked.1)
      | none ↦ elim (validate user password) [
        | none ↦ (refused, record_failure l now ip checked.1)
        | some who ↦ (admitted who, record_success ip checked.1)
      ]
    ]

-- What happens to the limiter, each at its time.
pub data Event : Type 0 where
  checks : ℕ → String → Event
  fails : ℕ → String → Event
  succeeds : ℕ → String → Event
  cleans : ℕ → Event

unfoldable pub perform : Limits → Event → Attempts → Attempts
perform l (checks now ip) m = (check l now ip m).1
perform l (fails now ip) m = record_failure l now ip m
perform l (succeeds now ip) m = record_success ip m
perform l (cleans now) m = clean_up l now m

-- A history, newest first.
unfoldable pub after : Limits → List Event → Attempts
after l [] = no_attempts
after l (e ∷ es) = perform l e (after l es)

-- What reaches the server: a login with its time, address, user and password, or a tick of
-- cleanupLoop.
pub data Request : Type 0 where
  logs_in : ℕ → String → String → String → Request
  ticks : ℕ → Request

unfoldable pub serve :
    Limits → (String → String → Option (String × String)) → Request → Attempts → Attempts
serve l validate (logs_in now ip user password) m =
    (password_callback l validate now ip user password m).1
serve l validate (ticks now) m = clean_up l now m

-- The server after its requests, newest first.
unfoldable pub serve_all :
    Limits → (String → String → Option (String × String)) → List Request → Attempts
serve_all l validate [] = no_attempts
serve_all l validate (r ∷ rs) = serve l validate r (serve_all l validate rs)
