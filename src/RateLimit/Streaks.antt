-- ===== src/RateLimit/Streaks.antt =====
-- What the limiter's answers are in terms of the failed logins alone (sftp/ratelimit.go).
use game_janitor.Base.{
  ℕ, suc, ◌-◌, ◌≤◌, ◌<◌, String, ◌≡◌, sym, ◌∙◌, refl, ap, false, Option, none, some, List, [], ◌∷◌,
  if◌then◌else◌, ltb, leb, str_eq, is_some, arith, Bool-cases, Option-cases, inl, inr, eq_refl,
  eq_iff,
}
use game_janitor.RateLimit.{
  Limits, AttemptRecord, Attempts, Login, blocked, refused, admitted, password_callback,
  no_attempts, with_attempt, has_elapsed, check, record_failure, record_success, clean_up, Event,
  checks, fails, succeeds, cleans, perform, after,
}

abbrev pub time_of : Event → ℕ
time_of (checks now ip) = now
time_of (fails now ip) = now
time_of (succeeds now ip) = now
time_of (cleans now) = now

-- The events of a history come in the order of their times, the last at `now` or before.
pub data InOrder : ℕ → List Event → Type 0 where
  nothing : (now : ℕ) → InOrder now []
  next :
      (now : ℕ) (e : Event) (es : List Event)
      → time_of e ≤ now
      → InOrder (time_of e) es
      → InOrder now (e ∷ es)

-- The times at which an address failed since it last succeeded, newest first.
unfoldable pub failure_times : String → List Event → List ℕ
failure_times ip [] = []
failure_times ip (checks now own ∷ es) = failure_times ip es
failure_times ip (fails now own ∷ es) =
    let older = failure_times ip es in if str_eq own ip then now ∷ older else older
failure_times ip (succeeds now own ∷ es) =
    let older = failure_times ip es in if str_eq own ip then [] else older
failure_times ip (cleans now ∷ es) = failure_times ip es

-- How many of these there are until the first gap that is longer than the window.
unfoldable pub streak : Limits → ℕ → List ℕ → ℕ
streak l now [] = 0
streak l now (t ∷ ts) = let older = streak l t ts in if ltb l.window (now - t) then 0 else suc older

-- The failures of an entry that count at a time.
unfoldable pub counted : Limits → ℕ → Option AttemptRecord → ℕ
counted l now none = 0
counted l now (some r) = if has_elapsed l now r then 0 else r.failures

-- Counted after one event, for the address of the event and for the others.
module _ (l : Limits) (now t : ℕ) (ip : String) (m : Attempts) where
  check-counted : t ≤ now → counted l now ((check l t ip m).1 ip) ≡ counted l now (m ip)
  unfolding counted check with_attempt
  check-counted le = elim (Option-cases (m ip)) [
    | inl e ↦ ground (arith, e, eq_refl ip, le)
    | inr (r, e) ↦ ground (arith, e, eq_refl ip, le)
  ]

  record_failure-counted :
      counted l now (record_failure l t ip m ip)
      ≡ (let older = counted l t (m ip) in if ltb l.window (now - t) then 0 else suc older)
  unfolding counted record_failure with_attempt
  record_failure-counted = elim (Option-cases (m ip)) [
    | inl e ↦ ground (arith, e, eq_refl ip)
    | inr (r, e) ↦ ground (arith, e, eq_refl ip)
  ]

  clean_up-counted : t ≤ now → counted l now (clean_up l t m ip) ≡ counted l now (m ip)
  unfolding counted clean_up
  clean_up-counted le = elim (Option-cases (m ip)) [
    | inl e ↦ rw (e, clean_up) refl
    | inr (r, e) ↦ ground (arith, e, le)
  ]

  module _ (asked : String) (other : str_eq ip asked ≡ false) where
    check-other : (check l t ip m).1 asked ≡ m asked
    unfolding check with_attempt
    check-other = elim (Option-cases (m ip)) [
      | inl e ↦ rw (e, check) refl
      | inr (r, e) ↦ ground (arith, e, other)
    ]

    record_failure-other : record_failure l t ip m asked ≡ m asked
    unfolding record_failure with_attempt
    record_failure-other = elim (Option-cases (m ip)) [
      | inl e ↦ ground (arith, e, other)
      | inr (r, e) ↦ ground (arith, e, other)
    ]

later : (t now : ℕ) (es : List Event) → t ≤ now → InOrder t es → InOrder now es
later t now [] le h = nothing now
later t now (e ∷ es) le (next _ _ _ before h) = next now e es (omega arith) h

pub after-counted :
    (l : Limits) (now : ℕ) (ip : String) (es : List Event)
    → InOrder now es
    → counted l now (after l es ip) ≡ streak l now (failure_times ip es)
unfolding streak failure_times after no_attempts perform counted record_success with_attempt
after-counted l now ip [] h = refl
after-counted l now ip (checks t own ∷ es) (next _ _ _ le h) =
    let before = after-counted l now ip es (later t now es le h) in
    elim (Bool-cases (str_eq own ip)) [
      | inl e ↦ rw ((eq_iff own ip).0 e) (check-counted l now t ip (after l es) le ∙ before)
      | inr e ↦ ap (counted l now) (check-other l now t own (after l es) ip e) ∙ before
    ]
after-counted l now ip (fails t own ∷ es) (next _ _ _ le h) = elim (Bool-cases (str_eq own ip)) [
  | inl e ↦
      rw (e, (eq_iff own ip).0 e, sym (after-counted l t ip es h))
        (record_failure-counted l now t ip (after l es))
  | inr e ↦
      rw (e, record_failure-other l now t own (after l es) ip e)
        (after-counted l now ip es (later t now es le h))
]
after-counted l now ip (succeeds t own ∷ es) (next _ _ _ le h) = elim (Bool-cases (str_eq own ip)) [
  | inl e ↦ rw (e, record_success) refl
  | inr e ↦ rw (e, record_success) (after-counted l now ip es (later t now es le h))
]
after-counted l now ip (cleans t ∷ es) (next _ _ _ le h) =
    clean_up-counted l now t ip (after l es) le ∙ after-counted l now ip es (later t now es le h)

-- The error of `check` in terms of the failures.
pub check-after :
    (l : Limits) (now : ℕ) (ip : String) (es : List Event)
    → 0 < l.max_failures
    → InOrder now es
    → is_some (check l now ip (after l es)).0
      ≡ leb l.max_failures (streak l now (failure_times ip es))
unfolding check counted
check-after l now ip es positive h = elim (Option-cases (after l es ip)) [
  | inl e ↦ rw (sym (after-counted l now ip es h), e, check) (ground (arith, positive))
  | inr (r, e) ↦ rw (sym (after-counted l now ip es h)) (ground (arith, e, positive))
]

-- What a login answers that is not blocked.
abbrev pub verdict : Option (String × String) → Login
verdict none = refused
verdict (some who) = admitted who

-- The answer to a login in terms of the failures.
pub password_callback-answer :
    (l : Limits) (validate : String → String → Option (String × String)) (now : ℕ)
    (ip user password : String) (es : List Event)
    → 0 < l.max_failures
    → InOrder now es
    → (password_callback l validate now ip user password (after l es)).0 ≡ (
        if leb l.max_failures (streak l now (failure_times ip es))
        then blocked
        else verdict (validate user password))
unfolding password_callback
password_callback-answer l validate now ip user password es positive h =
    rw (sym (check-after l now ip es positive h))
      (elim (Option-cases (check l now ip (after l es)).0) [
        | inl e ↦ elim (Option-cases (validate user password)) [
          | inl f ↦ rw (e, f, password_callback) refl
          | inr (who, f) ↦ rw (e, f, password_callback) refl
        ]
        | inr (remaining, e) ↦ rw (e, password_callback) refl
      ])
