-- ===== src/Live/Lifecycle/Requests/CrashLoop.antt =====
-- A gameserver that crashes again and again: the exit of its instance (HandleProcessEvent of
-- controller/gameserver/live.go) has Start (lifecycle.go) called, which records a new instance.
use game_janitor.Base.{
  ℕ, ◌+◌, String, true, false, some, List, [], ◌∷◌, is_some, ◌≡◌, refl, arith, length, ◌∙◌,
}
use game_janitor.Model.{desired_running, is_archived}
use game_janitor.Live.{System, Live, InstanceStateUpdate, state_exited, state_running}
use game_janitor.Live.Process.{handle_process_event}
use game_janitor.Live.Process.Crash.{
  IsUp, IsDown, handle_process_event-IsDown, handle_process_event-IsUp,
}
use game_janitor.Live.Operations.{Harness, submit_pass, launch, update_system, started}
use game_janitor.Live.Lifecycle.{record_instance}
use game_janitor.Live.Lifecycle.Requests.{start, want_running, submit, submitted}

abbrev exits : String → InstanceStateUpdate → InstanceStateUpdate
exits id u = record u { instance_id = id; state = state_exited }

abbrev comes_up : String → InstanceStateUpdate → InstanceStateUpdate
comes_up id u = record u { instance_id = id; state = state_running; ready = true }

-- The instance `old` crashes, the goroutine of the restart calls Start, whose own goroutine records
-- the instance `new`, and the worker reports that one as ready.
pub crash_round : ℕ → InstanceStateUpdate → String → String → Harness → Harness
crash_round now u old new h = update_system (handle_process_event now (comes_up new u)) (
    update_system (record_instance new)
      (start (update_system (handle_process_event now (exits old u)) h)).0)

pub crash_rounds : ℕ → InstanceStateUpdate → String → List String → Harness → Harness
unfolding crash_round
crash_rounds now u old [] h = h
crash_rounds now u old (new ∷ ids) h = crash_rounds now u new ids (crash_round now u old new h)

-- What Start leaves of a gameserver that is down.
abbrev IsStarting : Live → Type 0
IsStarting g =
    (g.spec.desired_state ≡ desired_running)
    × (g.spec.auto_restart ≡ some true)
    × (g.crash_count ≡ 0)
    × (g.ready ≡ false)
    × (is_some g.worker ≡ true)

start-starts :
    (h : Harness)
    → IsDown h.system.live
    → ((start h).1 ≡ submitted started)
      × IsStarting (start h).0.system.live
      × ((start h).0.system.restarts ≡ h.system.restarts)
unfolding start submit want_running submit_pass launch is_archived
start-starts h down =
    let m = down.meant in
    let s = down.stopped in
    let i = down.idle in
    let w = down.online in
    rw m
      (rw s (rw (i, submit_pass) (rw w (refl, (refl, down.restarts, refl, down.unready, w), refl))))

record_instance-IsUp :
    (now : ℕ) (u : InstanceStateUpdate) (new : String) (s : System)
    → IsStarting s.live
    → let t = handle_process_event now (comes_up new u) (record_instance new s) in
      IsUp new t.live × (t.restarts ≡ s.restarts)
unfolding record_instance
record_instance-IsUp now u new s (wanted, auto, count, unready, online) =
    handle_process_event-IsUp now (comes_up new u) (record_instance new s) wanted auto refl count
      unready online refl refl

crash_round-IsUp :
    (now : ℕ) (u : InstanceStateUpdate) (old new : String) (h : Harness)
    → IsUp old h.system.live
    → let t = crash_round now u old new h in
      IsUp new t.system.live × (t.system.restarts ≡ h.system.restarts + 1)
unfolding crash_round
crash_round-IsUp now u old new h up =
    let (down, once) = handle_process_event-IsDown now (exits old u) h.system up refl in
    let (_, starting, same) =
      start-starts (update_system (handle_process_event now (exits old u)) h) down in
    let again =
      record_instance-IsUp now u new
        (start (update_system (handle_process_event now (exits old u)) h)).0.system starting in
    (again.0, again.1 ∙ same ∙ once)

-- A gameserver that restarts by itself, crashes and comes up again under a new instance is
-- restarted every time, however often: Start resets the crash count, so the limit of three restarts
-- is never reached.
pub crash_rounds-restarts :
    (now : ℕ) (u : InstanceStateUpdate) (old : String) (ids : List String) (h : Harness)
    → IsUp old h.system.live
    → (crash_rounds now u old ids h).system.restarts ≡ h.system.restarts + length ids
unfolding crash_rounds
crash_rounds-restarts now u old [] h up = omega arith
crash_rounds-restarts now u old (new ∷ ids) h up =
    let (up', once) = crash_round-IsUp now u old new h up in
    omega (arith, crash_rounds-restarts now u new ids (crash_round now u old new h) up', once)
