-- ===== src/RateLimit/Logins.antt =====
-- What the SFTP server answers to a login, in terms of the logins before it (passwordCallback of
-- sftp/server.go over sftp/ratelimit.go).
use game_janitor.Base.{
  ℕ, ◌≤◌, ◌<◌, String, ◌≡◌, sym, ap, ◌∙◌, refl, Option, none, some, List, [], ◌∷◌, if◌then◌else◌,
  leb, str_eq, is_some, arith, Bool, Bool-cases, Option-cases, inl, inr, eq_iff,
}
use game_janitor.RateLimit.{
  Limits, blocked, check, password_callback, Event, checks, fails, succeeds, cleans, perform, after,
  Request, logs_in, ticks, serve, serve_all,
}
use game_janitor.RateLimit.Streaks.{
  InOrder, nothing, next, failure_times, streak, verdict, check-after, password_callback-answer,
}

abbrev pub asked_at : Request → ℕ
asked_at (logs_in now ip user password) = now
asked_at (ticks now) = now

-- The requests of a history come in the order of their times, the last at `now` or before.
pub data IsOrdered : ℕ → List Request → Type 0 where
  no_request : (now : ℕ) → IsOrdered now []
  request :
      (now : ℕ) (r : Request) (rs : List Request)
      → asked_at r ≤ now
      → IsOrdered (asked_at r) rs
      → IsOrdered now (r ∷ rs)

module _ (l : Limits) (validate : String → String → Option (String × String)) where
  -- The times at which a login from an address was refused, since one was admitted, newest first. A
  -- login that meets as many refusals as the limit says, with no long gap, is blocked and leaves them.
  unfoldable pub refusals : String → List Request → List ℕ
  refusals ip [] = []
  refusals ip (ticks now ∷ rs) = refusals ip rs
  refusals ip (logs_in now own user password ∷ rs) =
      let older = refusals ip rs in
      if str_eq own ip
      then if leb l.max_failures (streak l now older)
        then older
        else elim (validate user password) [ none ↦ now ∷ older | some who ↦ [] ]
      else older

  -- The calls of the limiter that a history makes.
  answered : ℕ → String → Option (String × String) → List Event → List Event
  answered now ip none es = fails now ip ∷ checks now ip ∷ es
  answered now ip (some who) es = succeeds now ip ∷ checks now ip ∷ es

  calls : List Request → List Event
  unfolding answered
  calls [] = []
  calls (ticks now ∷ rs) = cleans now ∷ calls rs
  calls (logs_in now ip user password ∷ rs) =
      let es = calls rs in
      if is_some (check l now ip (after l es)).0
      then checks now ip ∷ es
      else answered now ip (validate user password) es

  serve_all-calls : (rs : List Request) → serve_all l validate rs ≡ after l (calls rs)
  unfolding serve_all serve calls after perform password_callback answered
  serve_all-calls [] = refl
  serve_all-calls (ticks now ∷ rs) = rw (serve_all-calls rs) refl
  serve_all-calls (logs_in now ip user password ∷ rs) =
      rw (serve_all-calls rs) (elim (Option-cases (check l now ip (after l (calls rs))).0) [
        | inr (remaining, e) ↦ rw (e, serve, password_callback) refl
        | inl e ↦ elim (Option-cases (validate user password)) [
          | inl f ↦ rw (e, f, serve, password_callback) refl
          | inr (who, f) ↦ rw (e, f, serve, password_callback) refl
        ]
      ])

  calls-InOrder : (now : ℕ) (rs : List Request) → IsOrdered now rs → InOrder now (calls rs)
  unfolding calls answered
  calls-InOrder now [] h = nothing now
  calls-InOrder now (ticks t ∷ rs) (request _ _ _ le h) =
      next now (cleans t) (calls rs) le (calls-InOrder t rs h)
  calls-InOrder now (logs_in t ip user password ∷ rs) (request _ _ _ le h) =
      let before = calls-InOrder t rs h in
      elim (Option-cases (check l t ip (after l (calls rs))).0) [
        | inr (remaining, e) ↦ rw e (next now (checks t ip) (calls rs) le before)
        | inl e ↦ elim (Option-cases (validate user password)) [
          | inl f ↦ rw (e, f) (next now _ _ le (next t _ _ (omega arith) before))
          | inr (who, f) ↦ rw (e, f) (next now _ _ le (next t _ _ (omega arith) before))
        ]
      ]

  module _ (positive : 0 < l.max_failures) where
    calls-refusals :
        (now : ℕ) (ip : String) (rs : List Request)
        → IsOrdered now rs
        → failure_times ip (calls rs) ≡ refusals ip rs
    unfolding calls failure_times refusals answered
    calls-refusals now ip [] h = refl
    calls-refusals now ip (ticks t ∷ rs) (request _ _ _ le h) = calls-refusals t ip rs h
    calls-refusals now ip (logs_in t own user password ∷ rs) (request _ _ _ le h) =
        let older = calls-refusals t ip rs h in
        let blocks : String → Bool = λ j. leb l.max_failures (streak l t (refusals j rs)) in
        let test : is_some (check l t own (after l (calls rs))).0 ≡ blocks own =
          check-after l t own (calls rs) positive (calls-InOrder t rs h)
          ∙ ap (λ ts. leb l.max_failures (streak l t ts)) (calls-refusals t own rs h) in
        elim (Bool-cases (str_eq own ip)) [
          | inr e ↦ elim (Bool-cases (blocks own)) [
            | inl b ↦ rw (test ∙ b, e) older
            | inr b ↦ elim (Option-cases (validate user password)) [
              | inl f ↦ rw (test ∙ b, f, e) older
              | inr (who, f) ↦ rw (test ∙ b, f, e) older
            ]
          ]
          | inl e ↦
              let same : blocks own ≡ blocks ip = ap blocks ((eq_iff own ip).0 e) in
              elim (Bool-cases (blocks ip)) [
                | inl b ↦ rw (test ∙ (same ∙ b), e, b) older
                | inr b ↦ elim (Option-cases (validate user password)) [
                  | inl f ↦ rw (test ∙ (same ∙ b), f, e, b) (ap (λ ts. t ∷ ts) older)
                  | inr (who, f) ↦ rw (test ∙ (same ∙ b), f, e, b) refl
                ]
              ]
        ]

    -- For requests that come in the order of their times and a limit above 0: a login is blocked,
    -- whatever its user and password, exactly when as many logins of its address as the limit says, or
    -- more, were refused since one was admitted, with no gap between these, or from the last of them to
    -- now, that is longer than the window. Otherwise the answer is that of the user and the password.
    -- Logins of other addresses and the ticks of the cleanup do not matter, nor do logins that were
    -- blocked.
    pub password_callback-serve_all :
        (now : ℕ) (ip user password : String) (rs : List Request)
        → IsOrdered now rs
        → (password_callback l validate now ip user password (serve_all l validate rs)).0 ≡ (
            if leb l.max_failures (streak l now (refusals ip rs))
            then blocked
            else verdict (validate user password))
    password_callback-serve_all now ip user password rs h =
        rw (serve_all-calls rs, sym (calls-refusals now ip rs h))
          (password_callback-answer l validate now ip user password (calls rs) positive
            (calls-InOrder now rs h))
