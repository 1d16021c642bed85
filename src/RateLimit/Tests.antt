-- ===== src/RateLimit/Tests.antt =====
-- Failed logins against a limit of two (sftp/ratelimit.go, sftp/server.go).
use game_janitor.Base.{String, Option, ◌≡◌, some, none, List, [], ◌∷◌, arith, if◌then◌else◌, str_eq}
use game_janitor.RateLimit.{Limits, Request, blocked, serve_all, password_callback}
use game_janitor.RateLimit.Streaks.{streak}
use game_janitor.RateLimit.Logins.{
  IsOrdered, no_request, request, refusals, password_callback-serve_all,
}

abbrev limits : Limits
limits = record { max_failures = 2; window = 10 }

abbrev passwords : String → String → Option (String × String)
passwords user password = if str_eq password "secret" then some ("a", "gamejanitor-a") else none

-- Two wrong passwords of one address, between a login of another one and a cleanup.
abbrev history : List Request
history =
    Request.ticks 17
    ∷ Request.logs_in 16 "10.0.0.1" "a" "guess"
    ∷ Request.logs_in 12 "10.0.0.2" "a" "secret"
    ∷ Request.logs_in 9 "10.0.0.1" "a" "wrong"
    ∷ []

history-IsOrdered : IsOrdered 19 history
history-IsOrdered = request 19 _ _ (omega arith) (
    request 17 _ _ (omega arith)
      (request 16 _ _ (omega arith) (request 12 _ _ (omega arith) (no_request 9))))

password_callback-serve_all_example :
    (password_callback limits passwords 19 "10.0.0.1" "a" "secret"
      (serve_all limits passwords history)).0
    ≡ blocked
unfolding streak refusals
password_callback-serve_all_example =
    password_callback-serve_all limits passwords (omega arith) 19 "10.0.0.1" "a" "secret" history
      history-IsOrdered
