-- ===== src/Live/Lifecycle/Outcomes.antt =====
-- What a start that completes leaves (executeStart of controller/gameserver/lifecycle.go).
use game_janitor.Base.{
  ◌≡◌, refl, Bool, true, false, if◌then◌else◌, List, Option, some, none, arith, Bool-cases, inl,
  inr, String, sym, subst, Option-cases, is_some,
}
use game_janitor.Model.{ℤ, Env, OperationPhase, snapshot_config, phase_starting, restart_required}
use game_janitor.Model.Laws.{IsMap, restart_required-snapshot_config}
use game_janitor.Games.{Game}
use game_janitor.Live.{System, set_phase}
use game_janitor.Live.Config.{
  PortBinding, merge_env, parse_gameserver_ports, Merged, merged, missing,
}
use game_janitor.Live.Lifecycle.{
  Run, Answers, Answer, given, refused, completed, interrupted_run, broken, Done, and_then, abort,
  check_cancelled, clear_stale, mark_installed, depot_step, image_step, scripts_step, install_ended,
  run_install, install_step, install_created, record_instance, start_ended, start_created,
  instance_created, launch_step, configured, configure, start_game, execute_start, with_env,
  with_ports, after_image, after_depot, start_known,
}

-- The instance that the worker created is recorded, the game is installed, and the applied
-- configuration is the present one.
abbrev pub IsStarted : Answers → Run → Type 0
IsStarted a r =
    let spec = r.system.live.spec in
    ((id : String) × (a.instance ≡ given id) × (spec.instance_id ≡ some id))
    × (spec.installed ≡ true)
    × (spec.applied_config ≡ some (snapshot_config spec))

abbrev IsInstalled : Run → Type 0
IsInstalled r = r.system.live.spec.installed ≡ true

module _ (P Q : Run → Type 0) where
  and_then-completed :
      (d : Done) (k : Run → Done)
      → (d.1 ≡ completed → P d.0)
      → ((r : Run) → P r → (k r).1 ≡ completed → Q (k r).0)
      → (and_then d k).1 ≡ completed
      → Q (and_then d k).0
  unfolding and_then
  and_then-completed (r, completed) k h next e = next r (h refl) e
  and_then-completed (r, interrupted_run) k h next e = cc
  and_then-completed (r, broken) k h next e = cc

abbrev Anything : Run → Type 0
Anything r = Unit {0}

set_phase-spec : (phase : OperationPhase) (s : System) → (set_phase phase s).live.spec ≡ s.live.spec
unfolding set_phase
set_phase-spec phase s = elim (Option-cases s.live.operation) [
  | inl e ↦ rw (e, set_phase) refl
  | inr (op, e) ↦ rw (e, set_phase) refl
]

install_ended-completed :
    (code : Option ℤ) (r : Run)
    → (install_ended code r).1 ≡ completed
    → IsInstalled (install_ended code r).0
unfolding install_ended abort mark_installed
install_ended-completed none r e = cc
install_ended-completed (some code) r e = ground arith

run_install-completed :
    (code : Option ℤ) (started : Option String) (id : String) (r : Run)
    → (run_install code started id r).1 ≡ completed
    → IsInstalled (run_install code started id r).0
unfolding run_install abort
run_install-completed code (some message) id r e = cc
run_install-completed code none id r e = install_ended-completed code _ e

install_created-completed :
    (a : Answers) (x : Answer) (r : Run)
    → (install_created a x r).1 ≡ completed
    → IsInstalled (install_created a x r).0
unfolding install_created abort
install_created-completed a (refused message) r e = cc
install_created-completed a (given id) r e =
    run_install-completed a.install_exit a.install_start id r e

if_IsInstalled :
    (c : Bool) (d e : Done)
    → (c ≡ true → IsInstalled d.0)
    → (e.1 ≡ completed → IsInstalled e.0)
    → (if c then d else e).1 ≡ completed
    → IsInstalled (if c then d else e).0
if_IsInstalled true d e h k f = h refl
if_IsInstalled false d e h k f = k f

install_step-completed :
    (a : Answers) (env : Env) (ports : List PortBinding) (r : Run)
    → (install_step a env ports r).1 ≡ completed
    → IsInstalled (install_step a env ports r).0
unfolding install_step
install_step-completed a env ports r =
    if_IsInstalled r.system.live.spec.installed _ _ (λ e. e)
      (install_created-completed a a.install_instance _)

start_created-completed :
    (a : Answers) (started : Option String) (id : String) (r : Run)
    → a.instance ≡ given id
    → IsInstalled r
    → a.start ≡ started
    → (start_created a id r).1 ≡ completed
    → IsStarted a (start_created a id r).0
unfolding start_created start_ended record_instance abort snapshot_config
start_created-completed a (some message) id r f i g e = cc (rw (g, start_ended) at e)
start_created-completed a none id r f i g e = rw (g, start_ended) ((id, f, refl), i, refl)

instance_created-completed :
    (a : Answers) (x : Answer) (r : Run)
    → a.instance ≡ x
    → IsInstalled r
    → (instance_created a x r).1 ≡ completed
    → IsStarted a (instance_created a x r).0
unfolding instance_created abort
instance_created-completed a (refused message) r f i e = cc
instance_created-completed a (given id) r f i e = elim (Bool-cases a.cancelled_after_create) [
  | inl c ↦ cc (rw c at e)
  | inr c ↦ rw c (start_created-completed a a.start id r f i refl (rw c at e))
]

launch_step-completed :
    (a : Answers) (env : Env) (ports : List PortBinding) (r : Run)
    → IsInstalled r
    → (launch_step a env ports r).1 ≡ completed
    → IsStarted a (launch_step a env ports r).0
unfolding launch_step
launch_step-completed a env ports r i e =
    instance_created-completed a a.instance _ refl
      (subst (λ spec. spec.installed ≡ true) (sym (set_phase-spec phase_starting r.system)) i) e

check-completed : (c : Bool) (r : Run) → IsInstalled r → IsInstalled (check_cancelled c r).0
unfolding check_cancelled
check-completed c r i = i

launched : Answers → Env → List PortBinding → Run → Done
launched a env ports r =
    and_then (check_cancelled a.cancelled_after_install r) λ r. launch_step a env ports r

launched-completed :
    (a : Answers) (env : Env) (ports : List PortBinding) (r : Run)
    → IsInstalled r
    → (launched a env ports r).1 ≡ completed
    → IsStarted a (launched a env ports r).0
unfolding launched
launched-completed a env ports r i =
    and_then-completed IsInstalled (IsStarted a) (check_cancelled a.cancelled_after_install r)
      (launch_step a env ports) (λ _. check-completed a.cancelled_after_install r i)
      (launch_step-completed a env ports)

configured-completed :
    (a : Answers) (game : Game) (env : Env) (ports : List PortBinding) (r : Run)
    → (configured a game env ports r).1 ≡ completed
    → IsStarted a (configured a game env ports r).0
unfolding configured launched
configured-completed a game env ports r =
    and_then-completed Anything (IsStarted a) (scripts_step a game r)
      (λ r. and_then (install_step a env ports (clear_stale r)) (launched a env ports)) (λ _. tt)
      (λ r _.
        and_then-completed IsInstalled (IsStarted a) (install_step a env ports (clear_stale r))
          (launched a env ports) (install_step-completed a env ports (clear_stale r))
          (launched-completed a env ports))

with_ports-completed :
    (a : Answers) (game : Game) (env : Env) (ports : Option (List PortBinding)) (r : Run)
    → (with_ports a game env ports r).1 ≡ completed
    → IsStarted a (with_ports a game env ports r).0
unfolding with_ports abort
with_ports-completed a game env none r e = cc
with_ports-completed a game env (some ports) r e = configured-completed a game env ports r e

with_env-completed :
    (a : Answers) (game : Game) (m : Merged) (r : Run)
    → (with_env a game m r).1 ≡ completed
    → IsStarted a (with_env a game m r).0
unfolding with_env abort
with_env-completed a game (missing key label) r e = cc
with_env-completed a game (merged env) r e =
    with_ports-completed a game env
      (parse_gameserver_ports game.default_ports r.system.live.spec.ports) r e

after_image-completed :
    (a : Answers) (game : Game) (r : Run)
    → (after_image a game r).1 ≡ completed
    → IsStarted a (after_image a game r).0
unfolding after_image configure
after_image-completed a game r =
    and_then-completed Anything (IsStarted a) (check_cancelled a.cancelled_after_image r)
      (configure a game) (λ _. tt)
      (λ r _. with_env-completed a game (merge_env game.default_env r.system.live.spec.env) r)

start_game-completed :
    (a : Answers) (game : Game) (r : Run)
    → (start_game a game r).1 ≡ completed
    → IsStarted a (start_game a game r).0
unfolding start_game after_depot
start_game-completed a game r =
    and_then-completed Anything (IsStarted a) (depot_step a game r) (after_depot a game) (λ _. tt)
      (λ r _.
        and_then-completed Anything (IsStarted a) (check_cancelled a.cancelled_after_depot r)
          (λ r. and_then (image_step a r) (after_image a game)) (λ _. tt)
          (λ r _.
            and_then-completed Anything (IsStarted a) (image_step a r) (after_image a game)
              (λ _. tt) (λ r _. after_image-completed a game r)))

start_known-completed :
    (a : Answers) (game : Option Game) (r : Run)
    → (start_known a game r).1 ≡ completed
    → IsStarted a (start_known a game r).0
unfolding start_known abort
start_known-completed a none r e = cc
start_known-completed a (some game) r e = elim (Bool-cases (is_some r.system.live.worker)) [
  | inl w ↦ rw w (start_game-completed a game r (rw w at e))
  | inr w ↦ cc
]

-- A start that completes has recorded the instance that the worker created, the game is installed,
-- the applied configuration is the present one, and so no restart is required.
pub execute_start-completed :
    (a : Answers) (r : Run)
    → (execute_start a r).1 ≡ completed
    → let t = (execute_start a r).0 in
      IsStarted a t × (IsMap t.system.live.spec.env → restart_required t.system.live.spec ≡ false)
unfolding execute_start
execute_start-completed a r e =
    let started = start_known-completed a a.game r e in
    let spec = (start_known a a.game r).0.system.live.spec in
    (
      started,
      λ m.
          subst (λ gs. restart_required gs ≡ false)
            (λ i. record spec { applied_config = sym started.2 i })
            (restart_required-snapshot_config spec m),
    )
