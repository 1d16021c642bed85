-- ===== src/Live/Operations/Overlap.antt =====
-- Where the harness of controller/gameserver/live.go does not do what its comments say: a wait with
-- nothing to wait for, and two operations at once.
use game_janitor.Base.{
  ◌≡◌, refl, true, false, List, [], ◌∷◌, some, none, arith, ℕ, zero, suc, ◌<◌, is_some, map, ap,
  ==_iff,
}
use game_janitor.Model.{Operation}
use game_janitor.Live.{InstanceStateUpdate, state_exited}
use game_janitor.Live.Process.{handle_process_event, is_own}
use game_janitor.Live.Process.Crash.{handle_process_event-settles, handle_process_event-frame}
use game_janitor.Live.Operations.{
  Opts, Goroutine, Harness, op_priority, submit_pass, submit_passes, waiting, started, finish,
  run_deferred, succeeded, cancel_one, update_system,
}

map-cancel_none : (rs : List Goroutine) → map (cancel_one none) rs ≡ rs
unfolding cancel_one
map-cancel_none [] = refl
map-cancel_none (r ∷ rs) = ap (◌∷◌ r) (map-cancel_none rs)

spin :
    (opts : Opts) (h : Harness) (op : Operation)
    → h.system.live.operation ≡ some op
    → h.system.live.op_done ≡ none
    → op_priority op.op_type < op_priority opts.op_type
    → submit_pass opts h ≡ (h, waiting none)
unfolding submit_pass
spin opts h op e d p = ground (arith, map-cancel_none h.goroutines)

-- An operation whose goroutine is gone leaves nothing to wait for: while no event of the worker
-- ends it, a call with a higher priority (a stop of a server that is starting up) makes pass after
-- pass, each without effect, and is never started nor refused.
pub submit_passes-spins :
    (n : ℕ) (opts : Opts) (h : Harness) (op : Operation)
    → h.system.live.operation ≡ some op
    → h.system.live.op_done ≡ none
    → op_priority op.op_type < op_priority opts.op_type
    → submit_passes n opts h ≡ (h, waiting none)
unfolding submit_passes
submit_passes-spins zero opts h op e d p = spin opts h op e d p
submit_passes-spins (suc n) opts h op e d p =
    rw (submit_passes-spins n opts h op e d p) (spin opts h op e d p)

-- The goroutine of an operation that waits for the worker (a start, restart, update, reinstall),
-- alone and with its function running.
abbrev pub RunsAlone : Goroutine → Operation → Harness → Type 0
RunsAlone r op h =
    (h.goroutines ≡ r ∷ [])
    × (r.returned ≡ false)
    × (r.opts.terminal ≡ false)
    × (r.opts.clear_on_success ≡ false)
    × (h.system.live.operation ≡ some op)

finished_lem :
    (r : Goroutine) (op : Operation) (h : Harness)
    → RunsAlone r op h
    → let h' = run_deferred r.id (finish r.id succeeded h) in
      (h'.system.live.operation ≡ some op) × (h'.system.live.op_done ≡ none)
unfolding finish run_deferred
finished_lem r op h (alone, running, kind, keeps, e) = ground (arith, ==_iff r.id r.id)

-- After the function of a lone start has succeeded and its goroutine is gone, a stop makes no
-- progress, however many passes its loop makes, until the worker sends an event.
pub stop_after_start-spins :
    (n : ℕ) (opts : Opts) (r : Goroutine) (op : Operation) (h : Harness)
    → RunsAlone r op h
    → op_priority op.op_type < op_priority opts.op_type
    → let h' = run_deferred r.id (finish r.id succeeded h) in
      submit_passes n opts h' ≡ (h', waiting none)
stop_after_start-spins n opts r op h alone p =
    let (e, d) = finished_lem r op h alone in
    submit_passes-spins n opts (run_deferred r.id (finish r.id succeeded h)) op e d p

-- The exit of the instance ends the operation but not its goroutine: the next call that has a
-- worker is started at once, beside every goroutine that is still running.
pub submit-overlaps :
    (now : ℕ) (u : InstanceStateUpdate) (opts : Opts) (h : Harness)
    → is_own u h.system.live ≡ true
    → u.state ≡ state_exited
    → is_some h.system.live.worker ≡ true
    → let h' = update_system (handle_process_event now u) h in
      ((submit_pass opts h').1 ≡ started)
      × ((submit_pass opts h').0.goroutines
          ≡ record { id = h.next_id; opts = opts; cancelled = false; returned = false }
            ∷ h.goroutines)
unfolding submit_pass
submit-overlaps now u opts h own st w =
    let idle = (handle_process_event-settles now u h.system own st).0 in
    let same = (handle_process_event-frame now u h.system).0 in
    rw (idle, submit_pass) (ground arith)
