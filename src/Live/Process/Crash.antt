-- ===== src/Live/Process/Crash.antt =====
-- How HandleProcessEvent (controller/gameserver/live.go) tells a crash from an exit that was asked
-- for, and what follows from each.
use game_janitor.Base.{
  String, eq_refl, is_some, ◌≡◌, refl, true, false, ◌&&◌, not, if◌then◌else◌, ◌∷◌, Option, some,
  none, arith, Bool-cases, inl, inr, ℕ, ◌+◌, ◌<◌, ◌≢◌, ◌↔◌, ◌⊎◌, Option-cases, eq_iff, ltb,
}
use game_janitor.Model.{
  process_none, Operation, op_delete, no_error, desired_running, process_running, process_exited,
}
use game_janitor.Live.{
  System, Live, InstanceStateUpdate, InstanceState, state_created, state_running, state_exited,
  ready_event, operation_event, watched,
}
use game_janitor.Live.Process.{
  on_state, is_crash, is_own, handle_process_event, restarts_itself, max_restart_attempts, deleting,
}

-- An exit is a crash when the gameserver is meant to run, no delete is under way, and the process
-- was running or an operation was.
abbrev pub IsCrash : Live → Type 0
IsCrash g =
    (g.spec.desired_state ≡ desired_running)
    × ((op : Operation) → g.operation ≡ some op → op.op_type ≢ op_delete)
    × ((g.process_state ≡ process_running) ⊎ (g.operation ≢ none))

deleting-some :
    (o : Option Operation)
    → (deleting o ≡ false) ↔ ((op : Operation) → o ≡ some op → op.op_type ≢ op_delete)
deleting-some none = (λ _ op e. cc, λ _. refl)
deleting-some (some op) = (λ h op' e f. ground arith, λ h. ground (arith, h op refl))

is_crash-IsCrash : (g : Live) → (is_crash g ≡ true) ↔ IsCrash g
is_crash-IsCrash g = (
  (λ e. (ground arith, (deleting-some g.operation).0 (ground arith), ground arith)),
  (λ (w, d, r). ground (arith, (deleting-some g.operation).1 d)),
)

-- What is said of the two systems before and after the exit of the gameserver's own instance.
exit_restarts :
    (now : ℕ) (u : InstanceStateUpdate) (s : System)
    → is_own u s.live ≡ true
    → u.state ≡ state_exited
    → (handle_process_event now u s).restarts ≡ (
        if is_crash s.live
          && restarts_itself s.live.spec.auto_restart
          && not (ltb max_restart_attempts (s.live.crash_count + 1))
        then s.restarts + 1
        else s.restarts)
unfolding handle_process_event on_state
exit_restarts now u s own st = rw own (rw st (ground arith))

-- The exit of the gameserver's own instance starts a restart exactly when it is a crash, the
-- gameserver has auto_restart set to true, and it crashed less than three times since the count
-- was reset; otherwise no restart is started.
pub handle_process_event-restarts :
    (now : ℕ) (u : InstanceStateUpdate) (s : System)
    → is_own u s.live ≡ true
    → u.state ≡ state_exited
    → let t = handle_process_event now u s in
      ((t.restarts ≡ s.restarts + 1)
        ↔ (IsCrash s.live × (s.live.spec.auto_restart ≡ some true) × (s.live.crash_count < 3)))
      × ((t.restarts ≡ s.restarts + 1) ⊎ (t.restarts ≡ s.restarts))
handle_process_event-restarts now u s own st =
    let e = exit_restarts now u s own st in
    let c = is_crash-IsCrash s.live in
    (
      (
        (λ h. (c.0 (ground arith), ground arith, ground arith)),
        (λ (crash, auto, few). ground (arith, c.1 crash)),
      ),
      ground arith,
    )

-- The exit of the own instance always ends with no operation, no instance id and no readiness, and
-- the exit is what the object shows unless a restart was started.
pub handle_process_event-settles :
    (now : ℕ) (u : InstanceStateUpdate) (s : System)
    → is_own u s.live ≡ true
    → u.state ≡ state_exited
    → let t = handle_process_event now u s in
      (t.live.operation ≡ none)
      × (t.live.spec.instance_id ≡ none)
      × (t.live.ready ≡ false)
      × (t.live.ready_at ≡ none)
      × (((t.live.process_state ≡ process_exited) × (t.live.exit_code ≡ u.exit_code))
          ⊎ (t.restarts ≡ s.restarts + 1))
unfolding handle_process_event on_state
handle_process_event-settles now u s own st = rw own (rw st (ground arith))

-- An exit that was asked for (the gameserver is not meant to run, or it is being deleted) starts no
-- restart, counts no crash, leaves the error reason alone and publishes no error.
pub handle_process_event-intended :
    (now : ℕ) (u : InstanceStateUpdate) (s : System)
    → is_own u s.live ≡ true
    → u.state ≡ state_exited
    → (s.live.spec.desired_state ≢ desired_running)
      ⊎ ((op : Operation) × (s.live.operation ≡ some op) × (op.op_type ≡ op_delete))
    → let t = handle_process_event now u s in
      (t.restarts ≡ s.restarts)
      × (t.live.crash_count ≡ s.live.crash_count)
      × (t.live.spec.error_reason ≡ s.live.spec.error_reason)
      × ((t.log ≡ s.log) ⊎ (t.log ≡ watched none ∷ operation_event none ∷ s.log))
unfolding handle_process_event on_state
handle_process_event-intended now u s own st why =
    let calm : is_crash s.live ≡ false = elim why [
      | inl idle ↦ ground arith
      | inr (op, e, d) ↦ ground arith
    ] in
    rw own (rw st (rw calm (ground arith)))

-- An event about another instance, or where the gameserver has no instance, changes nothing.
pub handle_process_event-stale :
    (now : ℕ) (u : InstanceStateUpdate) (s : System)
    → s.live.spec.instance_id ≢ some u.instance_id
    → handle_process_event now u s ≡ s
unfolding handle_process_event
handle_process_event-stale now u s h =
    let other : is_own u s.live ≡ false = elim (Option-cases s.live.spec.instance_id) [
      | inl e ↦ ground arith
      | inr (id, e) ↦ ground (arith, eq_iff u.instance_id id)
    ] in
    rw other

-- A running event of the own instance shows the process as running, with the readiness that the
-- worker reports, and clears the error; exactly where readiness appears the operation ends and the
-- ready event is the last that is published.
pub handle_process_event-running :
    (now : ℕ) (u : InstanceStateUpdate) (s : System)
    → is_own u s.live ≡ true
    → u.state ≡ state_running
    → let t = handle_process_event now u s in
      (t.live.process_state ≡ process_running)
      × (t.live.ready ≡ u.ready)
      × (t.live.spec.error_reason ≡ no_error)
      × (u.ready ≡ true
          → s.live.ready ≡ false
          → (t.live.operation ≡ none)
            × ((t.log ≡ ready_event ∷ s.log)
                ⊎ (t.log ≡ ready_event ∷ watched none ∷ operation_event none ∷ s.log)))
      × ((u.ready ≡ false) ⊎ (s.live.ready ≡ true)
          → (t.live.operation ≡ s.live.operation) × (t.log ≡ s.log))
unfolding handle_process_event on_state
handle_process_event-running now u s own st =
    rw own (rw st (refl, refl, refl, (λ a b. ground arith), (λ h. ground arith)))

on_state-frame :
    (state : InstanceState) (now : ℕ) (u : InstanceStateUpdate) (g : Live)
    → ((on_state state now u g).0.worker ≡ g.worker)
      × ((on_state state now u g).0.op_done ≡ g.op_done)
unfolding on_state
on_state-frame state_created now u g = (refl, refl)
on_state-frame state_running now u g = (refl, refl)
on_state-frame state_exited now u g = ground arith

-- The fields that no event of the worker changes.
pub handle_process_event-frame :
    (now : ℕ) (u : InstanceStateUpdate) (s : System)
    → ((handle_process_event now u s).live.worker ≡ s.live.worker)
      × ((handle_process_event now u s).live.op_done ≡ s.live.op_done)
unfolding handle_process_event
handle_process_event-frame now u s = elim (Bool-cases (is_own u s.live)) [
  | inr other ↦ rw other (refl, refl)
  | inl own ↦ rw own (on_state-frame u.state now u s.live)
]

-- A gameserver that is up: meant to run, running as this instance, with no operation, on a worker.
pub record IsUp (id : String) (g : Live) : Type 0 where
  pub meant : g.spec.desired_state ≡ desired_running
  pub restarts : g.spec.auto_restart ≡ some true
  pub instance : g.spec.instance_id ≡ some id
  pub running : g.process_state ≡ process_running
  pub idle : g.operation ≡ none
  pub count : g.crash_count ≡ 0
  pub online : is_some g.worker ≡ true

-- A gameserver that crashed and is to be started again.
pub record IsDown (g : Live) : Type 0 where
  pub meant : g.spec.desired_state ≡ desired_running
  pub restarts : g.spec.auto_restart ≡ some true
  pub stopped : g.process_state ≡ process_none
  pub unready : g.ready ≡ false
  pub idle : g.operation ≡ none
  pub online : is_some g.worker ≡ true

own_update :
    (u : InstanceStateUpdate) (g : Live)
    → g.spec.instance_id ≡ some u.instance_id
    → is_own u g ≡ true
own_update u g e = rw e (eq_refl u.instance_id)

pub handle_process_event-IsDown :
    (now : ℕ) (u : InstanceStateUpdate) (s : System)
    → IsUp u.instance_id s.live
    → u.state ≡ state_exited
    → let t = handle_process_event now u s in IsDown t.live × (t.restarts ≡ s.restarts + 1)
unfolding handle_process_event on_state
handle_process_event-IsDown now u s up st =
    let own = own_update u s.live up.instance in
    let crash : is_crash s.live ≡ true =
      (is_crash-IsCrash s.live).1
        (up.meant, (λ op e. absurd (ground (arith, up.idle))), inl up.running) in
    let e = up.meant in
    let a = up.restarts in
    let w = up.online in
    let c = up.count in
    rw own (
      rw st (
        rw crash (
          rw a (
            rw c (
              record {
                meant = e;
                restarts = refl;
                stopped = refl;
                unready = refl;
                idle = refl;
                online = w;
              },
              refl,
            )))))

-- A running and ready event of an instance that was just recorded.
pub handle_process_event-IsUp :
    (now : ℕ) (u : InstanceStateUpdate) (s : System)
    → s.live.spec.desired_state ≡ desired_running
    → s.live.spec.auto_restart ≡ some true
    → s.live.spec.instance_id ≡ some u.instance_id
    → s.live.crash_count ≡ 0
    → s.live.ready ≡ false
    → is_some s.live.worker ≡ true
    → u.state ≡ state_running
    → u.ready ≡ true
    → let t = handle_process_event now u s in IsUp u.instance_id t.live × (t.restarts ≡ s.restarts)
unfolding handle_process_event on_state
handle_process_event-IsUp now u s wanted auto own none_yet unready online st up =
    rw (own_update u s.live own) (
      rw st (
        record {
          meant = wanted;
          restarts = auto;
          instance = own;
          running = refl;
          idle = ground arith;
          count = none_yet;
          online = online;
        },
        refl,
      ))
