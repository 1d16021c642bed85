-- ===== src/Live/Lifecycle/Sync.antt =====
-- The durable fields in memory and in the store stay equal across a run of executeStart
-- (controller/gameserver/lifecycle.go), wherever it ends.
use game_janitor.Base.{
  ◌≡◌, ◌≢◌, refl, ap, eq_iff, Bool, true, false, ◌&&◌, not, if◌then◌else◌, List, [], ◌∷◌, Option,
  some, none, Bool-cases, inl, inr, String, Option-cases, is_some, str_eq, ltb, ◌==◌,
}
use game_janitor.Model.{
  ℤ, Env, ErrorReason, OperationPhase, OperationProgress, snapshot_config, no_error,
  phase_downloading_game, phase_pulling_image, phase_installing, phase_starting, depot_failed,
  steam_login_required, image_failed, depot_copy_failed, scripts_failed, install_phase_failed,
  install_exit_code, install_start_failed, install_create_failed, start_failed, create_failed,
  ports_invalid, env_invalid, game_not_found, worker_unavailable,
}
use game_janitor.Store.Laws.{
  Stored, Stored-set_error_reason, Stored-set_instance_id, Stored-update_gameserver,
}
use game_janitor.Games.{Game, depot_app_id, requires_auth}
use game_janitor.Live.{
  System, publish, set_phase, set_progress, set_error, depot_downloading_event, image_pulling_event,
}
use game_janitor.Live.Config.{PortBinding, merge_env, Merged, merged, missing}
use game_janitor.Live.Lifecycle.Stale.{
  held, IsNamed, IsNamed-kept, held-depot_step, held-image_step, held-scripts_step,
}
use game_janitor.Live.Lifecycle.{
  Run, Answers, Answer, given, refused, completed, interrupted_run, broken, Done, and_then, call,
  abort, check_cancelled, report_all, download, depot_step, image_step, copy_step, scripts_step,
  forget_instance, clear_stale, mark_installed, install_ended, run_install, install_step,
  record_instance, start_created, launch_step, configured, configure, start_game, execute_start,
  is_success, downloaded_as, install_created, instance_created, start_ended, forget_stale,
  with_ports, with_env, start_known, after_image, after_depot, copy_depot, prepare_scripts,
  reconcile_mods, Download, download_failed, download_cached, downloaded,
}

-- The database answers, and its row is the spec in memory.
abbrev pub InSync : System → Type 0
InSync s = Stored s.store s.live.spec.id s.live.spec

-- Wherever a step ends, memory and database agree; where it fails, an error is shown.
abbrev pub EndsWell : Done → Type 0
EndsWell (r, outcome) =
    InSync r.system × (outcome ≡ broken → r.system.live.spec.error_reason ≢ no_error)

pub InSync-set_phase : (phase : OperationPhase) (s : System) → InSync s → InSync (set_phase phase s)
unfolding set_phase
InSync-set_phase phase s h = elim (Option-cases s.live.operation) [
  | inl e ↦ rw (e, set_phase) h
  | inr (op, e) ↦ rw (e, set_phase) h
]

InSync-set_progress :
    (progress : OperationProgress) (s : System) → InSync s → InSync (set_progress progress s)
unfolding set_progress
InSync-set_progress progress s h = elim (Option-cases s.live.operation) [
  | inl e ↦ rw (e, set_progress) h
  | inr (op, e) ↦ rw (e, set_progress) h
]

InSync-report_all : (ps : List OperationProgress) (s : System) → InSync s → InSync (report_all ps s)
unfolding report_all
InSync-report_all [] s h = h
InSync-report_all (p ∷ ps) s h = elim (Bool-cases (ltb 0 p.total_bytes)) [
  | inl e ↦ rw (e, report_all) (InSync-report_all ps (set_progress p s) (InSync-set_progress p s h))
  | inr e ↦ rw (e, report_all) (InSync-report_all ps s h)
]

abort-EndsWell :
    (reason : ErrorReason) (r : Run)
    → reason ≢ no_error
    → InSync r.system
    → EndsWell (abort reason r)
unfolding abort set_error
abort-EndsWell reason r shown h = (
  Stored-set_error_reason r.system.store r.system.live.spec.id r.system.live.spec reason h,
  λ _. shown,
)

and_then-EndsWell :
    (d : Done) (k : Run → Done)
    → EndsWell d
    → ((r : Run) → InSync r.system → EndsWell (k r))
    → EndsWell (and_then d k)
unfolding and_then
and_then-EndsWell (r, completed) k h next = next r h.0
and_then-EndsWell (r, interrupted_run) k h next = h
and_then-EndsWell (r, broken) k h next = h

if_EndsWell : (c : Bool) (d e : Done) → EndsWell d → EndsWell e → EndsWell (if c then d else e)
if_EndsWell true d e h k = h
if_EndsWell false d e h k = k

check-EndsWell : (c : Bool) (r : Run) → InSync r.system → EndsWell (check_cancelled c r)
unfolding check_cancelled
check-EndsWell true r h = (h, λ e. cc)
check-EndsWell false r h = (h, λ e. cc)

downloaded_as-EndsWell : (d : Download) (r : Run) → InSync r.system → EndsWell (downloaded_as d r)
unfolding downloaded_as
downloaded_as-EndsWell download_failed r h = abort-EndsWell depot_failed r (λ e. cc) h
downloaded_as-EndsWell download_cached r h = (h, λ e. cc)
downloaded_as-EndsWell downloaded r h = (h, λ e. cc)

depot_step-EndsWell :
    (a : Answers) (game : Game) (r : Run) → InSync r.system → EndsWell (depot_step a game r)
unfolding depot_step download
depot_step-EndsWell a game r h = elim (Bool-cases (depot_app_id game == 0)) [
  | inl e ↦ rw e (h, λ f. cc)
  | inr e ↦ rw e (elim (Bool-cases (requires_auth game.steam_login && str_eq a.refresh_token "")) [
    | inl f ↦ rw f (abort-EndsWell steam_login_required r (λ g. cc) h)
    | inr f ↦ rw f (
        downloaded_as-EndsWell a.depot _ (
          InSync-report_all a.depot_progress _
            (InSync-set_phase phase_downloading_game (publish depot_downloading_event r.system) h)))
  ])
]

image_step-EndsWell : (a : Answers) (r : Run) → InSync r.system → EndsWell (image_step a r)
unfolding image_step
image_step-EndsWell a r h =
    let reported =
      InSync-report_all a.image_progress
        (publish image_pulling_event (set_phase phase_pulling_image r.system))
        (InSync-set_phase phase_pulling_image r.system h) in
    elim (Bool-cases a.image_pulled) [
      | inl e ↦ rw e (reported, λ f. cc)
      | inr e ↦ rw e (abort-EndsWell image_failed _ (λ f. cc) reported)
    ]

copy_step-EndsWell :
    (a : Answers) (game : Game) (r : Run) → InSync r.system → EndsWell (copy_step a game r)
unfolding copy_step
copy_step-EndsWell a game r h =
    elim (Bool-cases (not (depot_app_id game == 0) && not r.system.live.spec.installed)) [
      | inr e ↦ rw e (h, λ f. cc)
      | inl e ↦ rw e (elim (Bool-cases a.depot_copied) [
        | inl f ↦ rw f (h, λ g. cc)
        | inr f ↦ rw f (abort-EndsWell depot_copy_failed (call copy_depot r) (λ g. cc) h)
      ])
    ]

scripts_step-EndsWell :
    (a : Answers) (game : Game) (r : Run) → InSync r.system → EndsWell (scripts_step a game r)
unfolding scripts_step
scripts_step-EndsWell a game r h = elim (Bool-cases a.scripts_prepared) [
  | inl e ↦ rw e (
      and_then-EndsWell (copy_step a game (call prepare_scripts r))
        (λ r. (call reconcile_mods r, completed))
        (copy_step-EndsWell a game (call prepare_scripts r) h) (λ r h. (h, λ f. cc)))
  | inr e ↦ rw e (abort-EndsWell scripts_failed (call prepare_scripts r) (λ f. cc) h)
]

InSync-forget_stale :
    (old : Option String) (r : Run)
    → old ≢ some ""
    → InSync r.system
    → InSync (forget_stale old r).system
unfolding forget_stale forget_instance
InSync-forget_stale none r named h = h
InSync-forget_stale (some old) r named h = elim (Bool-cases (str_eq old "")) [
  | inl e ↦ absurd (named (ap some ((eq_iff old "").0 e)))
  | inr e ↦
      rw e (Stored-set_instance_id r.system.store r.system.live.spec.id r.system.live.spec none h)
]

InSync-clear_stale : (r : Run) → IsNamed r.system → InSync r.system → InSync (clear_stale r).system
unfolding clear_stale
InSync-clear_stale r named h = InSync-forget_stale (held r.system) r named h

InSync-mark_installed : (s : System) → InSync s → InSync (mark_installed s)
unfolding mark_installed
InSync-mark_installed s h =
    Stored-update_gameserver s.store s.live.spec (record s.live.spec { installed = true }) refl refl
      h

install_ended-EndsWell :
    (code : Option ℤ) (r : Run) → InSync r.system → EndsWell (install_ended code r)
unfolding install_ended
install_ended-EndsWell none r h = abort-EndsWell install_phase_failed r (λ e. cc) h
install_ended-EndsWell (some code) r h = elim (Bool-cases (is_success code)) [
  | inl e ↦ rw e (InSync-mark_installed r.system h, λ f. cc)
  | inr e ↦ rw e (abort-EndsWell (install_exit_code code) r (λ f. cc) h)
]

run_install-EndsWell :
    (code : Option ℤ) (started : Option String) (id : String) (r : Run)
    → InSync r.system
    → EndsWell (run_install code started id r)
unfolding run_install
run_install-EndsWell code (some message) id r h =
    abort-EndsWell (install_start_failed message) _ (λ e. cc) h
run_install-EndsWell code none id r h = install_ended-EndsWell code _ h

install_created-EndsWell :
    (a : Answers) (x : Answer) (r : Run) → InSync r.system → EndsWell (install_created a x r)
unfolding install_created
install_created-EndsWell a (refused message) r h =
    abort-EndsWell (install_create_failed message) r (λ e. cc) h
install_created-EndsWell a (given id) r h =
    run_install-EndsWell a.install_exit a.install_start id r h

install_step-EndsWell :
    (a : Answers) (env : Env) (ports : List PortBinding) (r : Run)
    → InSync r.system
    → EndsWell (install_step a env ports r)
unfolding install_step
install_step-EndsWell a env ports r h =
    if_EndsWell r.system.live.spec.installed _ _ (h, λ f. cc)
      (install_created-EndsWell a a.install_instance _
        (InSync-set_phase phase_installing r.system h))

InSync-record_instance : (id : String) (s : System) → InSync s → InSync (record_instance id s)
unfolding record_instance
InSync-record_instance id s h =
    Stored-update_gameserver s.store s.live.spec
      (record s.live.spec {
        instance_id = some id;
        applied_config = some (snapshot_config s.live.spec);
      })
      refl refl h

start_ended-EndsWell :
    (started : Option String) (r : Run) → InSync r.system → EndsWell (start_ended started r)
unfolding start_ended
start_ended-EndsWell (some message) r h = abort-EndsWell (start_failed message) r (λ e. cc) h
start_ended-EndsWell none r h = (h, λ e. cc)

instance_created-EndsWell :
    (a : Answers) (x : Answer) (r : Run) → InSync r.system → EndsWell (instance_created a x r)
unfolding instance_created start_created
instance_created-EndsWell a (refused message) r h =
    abort-EndsWell (create_failed message) r (λ e. cc) h
instance_created-EndsWell a (given id) r h = elim (Bool-cases a.cancelled_after_create) [
  | inl e ↦ rw e (h, λ f. cc)
  | inr e ↦ rw e (start_ended-EndsWell a.start _ (InSync-record_instance id r.system h))
]

launch_step-EndsWell :
    (a : Answers) (env : Env) (ports : List PortBinding) (r : Run)
    → InSync r.system
    → EndsWell (launch_step a env ports r)
unfolding launch_step
launch_step-EndsWell a env ports r h =
    instance_created-EndsWell a a.instance _ (InSync-set_phase phase_starting r.system h)

-- A step that keeps a named instance, and what follows it.
and_then-named :
    (d : Done) (k : Run → Done) (s : System)
    → held d.0.system ≡ held s
    → IsNamed s
    → EndsWell d
    → ((r : Run) → IsNamed r.system → InSync r.system → EndsWell (k r))
    → EndsWell (and_then d k)
unfolding and_then
and_then-named (r, completed) k s same named h next =
    next r (IsNamed-kept s r.system same named) h.0
and_then-named (r, interrupted_run) k s same named h next = h
and_then-named (r, broken) k s same named h next = h

held-check : (c : Bool) (r : Run) → held (check_cancelled c r).0.system ≡ held r.system
unfolding check_cancelled
held-check c r = refl

configured-EndsWell :
    (a : Answers) (game : Game) (env : Env) (ports : List PortBinding) (r : Run)
    → IsNamed r.system
    → InSync r.system
    → EndsWell (configured a game env ports r)
unfolding configured
configured-EndsWell a game env ports r named h =
    and_then-named (scripts_step a game r) _ r.system (held-scripts_step a game r) named
      (scripts_step-EndsWell a game r h)
      λ r named h.
        and_then-EndsWell (install_step a env ports (clear_stale r)) _
          (install_step-EndsWell a env ports (clear_stale r) (InSync-clear_stale r named h))
          λ r h.
            and_then-EndsWell (check_cancelled a.cancelled_after_install r) _
              (check-EndsWell a.cancelled_after_install r h)
              λ r h. launch_step-EndsWell a env ports r h

with_ports-EndsWell :
    (a : Answers) (game : Game) (env : Env) (ports : Option (List PortBinding)) (r : Run)
    → IsNamed r.system
    → InSync r.system
    → EndsWell (with_ports a game env ports r)
unfolding with_ports
with_ports-EndsWell a game env none r named h = abort-EndsWell ports_invalid r (λ e. cc) h
with_ports-EndsWell a game env (some ports) r named h =
    configured-EndsWell a game env ports r named h

with_env-EndsWell :
    (a : Answers) (game : Game) (m : Merged) (r : Run)
    → IsNamed r.system
    → InSync r.system
    → EndsWell (with_env a game m r)
unfolding with_env
with_env-EndsWell a game (missing key label) r named h = abort-EndsWell env_invalid r (λ e. cc) h
with_env-EndsWell a game (merged env) r named h = with_ports-EndsWell a game env _ r named h

after_image-EndsWell :
    (a : Answers) (game : Game) (r : Run)
    → IsNamed r.system
    → InSync r.system
    → EndsWell (after_image a game r)
unfolding after_image configure
after_image-EndsWell a game r named h =
    and_then-named (check_cancelled a.cancelled_after_image r) (configure a game) r.system
      (held-check a.cancelled_after_image r) named (check-EndsWell a.cancelled_after_image r h)
      (λ r named h.
        with_env-EndsWell a game (merge_env game.default_env r.system.live.spec.env) r named h)

image_then-EndsWell :
    (a : Answers) (game : Game) (r : Run)
    → IsNamed r.system
    → InSync r.system
    → EndsWell (and_then (image_step a r) (after_image a game))
image_then-EndsWell a game r named h =
    and_then-named (image_step a r) (after_image a game) r.system (held-image_step a r) named
      (image_step-EndsWell a r h) (after_image-EndsWell a game)

after_depot-EndsWell :
    (a : Answers) (game : Game) (r : Run)
    → IsNamed r.system
    → InSync r.system
    → EndsWell (after_depot a game r)
unfolding after_depot
after_depot-EndsWell a game r named h =
    and_then-named (check_cancelled a.cancelled_after_depot r)
      (λ r. and_then (image_step a r) (after_image a game)) r.system
      (held-check a.cancelled_after_depot r) named (check-EndsWell a.cancelled_after_depot r h)
      (image_then-EndsWell a game)

start_game-EndsWell :
    (a : Answers) (game : Game) (r : Run)
    → IsNamed r.system
    → InSync r.system
    → EndsWell (start_game a game r)
unfolding start_game
start_game-EndsWell a game r named h =
    and_then-named (depot_step a game r) (after_depot a game) r.system (held-depot_step a game r)
      named (depot_step-EndsWell a game r h) (after_depot-EndsWell a game)

start_known-EndsWell :
    (a : Answers) (game : Option Game) (r : Run)
    → IsNamed r.system
    → InSync r.system
    → EndsWell (start_known a game r)
unfolding start_known
start_known-EndsWell a none r named h = abort-EndsWell game_not_found r (λ e. cc) h
start_known-EndsWell a (some game) r named h = elim (Bool-cases (is_some r.system.live.worker)) [
  | inl e ↦ rw e (start_game-EndsWell a game r named h)
  | inr e ↦ rw e (abort-EndsWell worker_unavailable r (λ f. cc) h)
]

-- Where the database answers and holds the gameserver's spec, and the spec names no instance or one
-- with an id that is not empty: the database holds the spec at the end of a start too, wherever the
-- start ends; and a start that ends with an error, not by being cancelled, leaves an error reason for
-- the user to see.
pub execute_start-EndsWell :
    (a : Answers) (r : Run) → IsNamed r.system → InSync r.system → EndsWell (execute_start a r)
unfolding execute_start
execute_start-EndsWell a r named h = start_known-EndsWell a a.game r named h
