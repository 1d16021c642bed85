-- ===== src/Live/Operations/Exclusive.antt =====
-- The harness of controller/gameserver/live.go runs one operation at a time as long as no event of
-- the worker ends an operation.
use game_janitor.Base.{
  ◌≡◌, refl, true, false, not, if◌then◌else◌, List, [], ◌∷◌, Option, some, none, arith, inl, inr, ℕ,
  suc, ◌<◌, ◌≤◌, Option-cases, keep, map, ◌==◌, All,
}
use game_janitor.Live.Operations.{
  Opts, Goroutine, Harness, submit_pass, Ended, finish, run_deferred, find_goroutine, mark_returned,
  cancel_one, launch, Happening, submits, finishes, defers, observes, happen, happen_all,
}

-- How many operation functions are running.
abbrev pub running_count : List Goroutine → ℕ
running_count [] = 0
running_count (r ∷ rs) = let later = running_count rs in if r.returned then later else suc later

-- One operation function runs at most, and while it runs the operation is shown.
pub record IsExclusive (h : Harness) : Type 0 where
  pub at_most_one : running_count h.goroutines ≤ 1
  pub shown : h.system.live.operation ≡ none → running_count h.goroutines ≡ 0

running_count-cancel_one :
    (channel : Option ℕ) (rs : List Goroutine)
    → running_count (map (cancel_one channel) rs) ≡ running_count rs
unfolding cancel_one
running_count-cancel_one channel [] = refl
running_count-cancel_one channel (r ∷ rs) = ground (arith, running_count-cancel_one channel rs)

running_count-mark_le :
    (id : ℕ) (rs : List Goroutine) → running_count (map (mark_returned id) rs) ≤ running_count rs
unfolding mark_returned
running_count-mark_le id [] = omega arith
running_count-mark_le id (r ∷ rs) = ground (arith, running_count-mark_le id rs)

running_count-mark_returned :
    (id : ℕ) (r : Goroutine) (rs : List Goroutine)
    → find_goroutine id false rs ≡ some r
    → running_count (map (mark_returned id) rs) < running_count rs
unfolding mark_returned find_goroutine
running_count-mark_returned id r [] e = cc
running_count-mark_returned id r (q ∷ rs) e =
    ground (arith, running_count-mark_returned id r rs, running_count-mark_le id rs)

running_count-keep :
    (id : ℕ) (rs : List Goroutine)
    → running_count (keep (λ q. not (q.id == id)) rs) ≤ running_count rs
running_count-keep id [] = omega arith
running_count-keep id (r ∷ rs) = ground (arith, running_count-keep id rs)

submit-IsExclusive :
    (opts : Opts) (h : Harness) → IsExclusive h → IsExclusive (submit_pass opts h).0
unfolding submit_pass launch
submit-IsExclusive opts h v =
    ground (arith, running_count-cancel_one h.system.live.op_done h.goroutines)

finish-IsExclusive :
    (id : ℕ) (ended : Ended) (h : Harness) → IsExclusive h → IsExclusive (finish id ended h)
unfolding finish
finish-IsExclusive id ended h v = elim (Option-cases (find_goroutine id false h.goroutines)) [
  | inl e ↦ rw (e, finish) v
  | inr (r, e) ↦
      let fewer = running_count-mark_returned id r h.goroutines e in
      let one = v.at_most_one in
      rw (e, finish) (record { at_most_one = omega arith; shown = λ _. omega arith })
]

defer-IsExclusive : (id : ℕ) (h : Harness) → IsExclusive h → IsExclusive (run_deferred id h)
unfolding run_deferred
defer-IsExclusive id h v = elim (Option-cases (find_goroutine id true h.goroutines)) [
  | inl e ↦ rw (e, run_deferred) v
  | inr (r, e) ↦
      let fewer = running_count-keep id h.goroutines in
      let one = v.at_most_one in
      rw (e, run_deferred)
        (record { at_most_one = omega arith; shown = λ f. ground (arith, v.shown f) })
]

abbrev pub IsInternal : Happening → Type 0
IsInternal (observes now u) = ⊥
IsInternal _ = Unit {0}

happen-IsExclusive :
    (e : Happening) (h : Harness) → IsInternal e → IsExclusive h → IsExclusive (happen e h)
unfolding happen
happen-IsExclusive (submits opts) h i v = submit-IsExclusive opts h v
happen-IsExclusive (finishes id ended) h i v = finish-IsExclusive id ended h v
happen-IsExclusive (defers id) h i v = defer-IsExclusive id h v
happen-IsExclusive (observes now u) h i v = absurd i

-- However calls, ends of operations and ends of goroutines follow one another, at most one operation
-- function runs at a time, and while it runs the object shows an operation; no event of the worker
-- comes in between.
pub happen_all-IsExclusive :
    (es : List Happening) (h : Harness)
    → All IsInternal es
    → IsExclusive h
    → IsExclusive (happen_all es h)
unfolding happen_all
happen_all-IsExclusive [] h i v = v
happen_all-IsExclusive (e ∷ es) h (i, is) v =
    happen_all-IsExclusive es (happen e h) is (happen-IsExclusive e h i v)
