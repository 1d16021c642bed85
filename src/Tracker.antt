-- ===== src/Tracker.antt =====
-- worker/local/tracker.go: what a worker knows of its instances, and the updates that it sends to the
-- controller through a channel with room for 64. A method is one step: its change under the lock, with
-- the update that it emits afterwards. `watching` tells that a goroutine reads the instance's log.
pub mod Latest
mod Tests
use game_janitor.Base.{
  ℕ, zero, suc, ◌+◌, String, Bool, true, false, ◌&&◌, not, Option, none, some, List, [], ◌∷◌, ◌++◌,
  map, if◌then◌else◌, ◌==◌, ltb, length, lookup, insert, delete, str_eq,
}
use game_janitor.Model.{ℤ, pos}
use game_janitor.Live.{
  InstanceState, state_created, state_running, state_exited, InstanceStateUpdate,
}

pub record TrackedInstance : Type 0 where
  pub id : String
  pub name : String
  pub state : InstanceState
  pub ready : Bool
  pub ready_at : ℕ
  pub exit_code : ℤ
  pub started_at : ℕ
  pub exited_at : ℕ
  pub installed : Bool
  pub watching : Bool

-- `queue` is the channel's content, oldest first; newest first, `sent` are the updates that went into
-- it, `dropped` those that found it full, and `received` those that the consumer took.
pub record InstanceTracker : Type 0 where
  pub instances : List (String × TrackedInstance)
  pub queue : List InstanceStateUpdate
  pub sent : List InstanceStateUpdate
  pub dropped : List InstanceStateUpdate
  pub received : List InstanceStateUpdate

abbrev pub capacity : ℕ
capacity = 64

-- snapshotLocked
unfoldable pub snapshot_of : TrackedInstance → InstanceStateUpdate
snapshot_of i = record {
  instance_id = i.id;
  instance_name = i.name;
  state = i.state;
  ready = i.ready;
  ready_at = i.ready_at;
  exit_code = i.exit_code;
  started_at = i.started_at;
  exited_at = i.exited_at;
  installed = i.installed;
}

-- emit
pub emit : InstanceStateUpdate → InstanceTracker → InstanceTracker
emit u t =
    if ltb (length t.queue) capacity
    then record t { queue = t.queue ++ (u ∷ []); sent = u ∷ t.sent }
    else record t { dropped = u ∷ t.dropped }

-- The consumer receives the oldest update.
pub receive : InstanceTracker → InstanceTracker
receive t = elim t.queue [ [] ↦ t | u ∷ us ↦ record t { queue = us; received = u ∷ t.received } ]

-- A change of a tracked instance and the update that it emits.
change : String → (TrackedInstance → TrackedInstance) → InstanceTracker → InstanceTracker
unfolding emit
change id f t = elim (lookup id t.instances) [
  | none ↦ t
  | some i ↦
      let next = f i in
      emit (snapshot_of next) (record t { instances = insert id next t.instances })
]

new_instance : String → String → TrackedInstance
new_instance id name = record {
  id = id;
  name = name;
  state = state_created;
  ready = false;
  ready_at = 0;
  exit_code = pos 0;
  started_at = 0;
  exited_at = 0;
  installed = false;
  watching = false;
}

-- Track
pub track_instance : String → String → InstanceTracker → InstanceTracker
unfolding new_instance
track_instance id name t = record t { instances = insert id (new_instance id name) t.instances }

-- SetState at the time `now`
with_state : ℕ → InstanceState → TrackedInstance → TrackedInstance
with_state now state_created i = record i { state = state_created }
with_state now state_running i = record i {
  state = state_running;
  started_at = if i.started_at == 0 then now else i.started_at;
}
with_state now state_exited i = record i { state = state_exited; exited_at = now; watching = false }

pub set_state : ℕ → String → InstanceState → InstanceTracker → InstanceTracker
unfolding change with_state
set_state now id state t = change id (with_state now state) t

abbrev is_ready : Option TrackedInstance → Bool
is_ready none = false
is_ready (some i) = i.ready

-- SetReady
pub set_ready : ℕ → String → InstanceTracker → InstanceTracker
unfolding change
set_ready now id t =
    let changed = change id (λ i. record i { ready = true; ready_at = now }) t in
    if is_ready (lookup id t.instances) then t else changed

-- SetExited
pub set_exited : ℕ → String → ℤ → InstanceTracker → InstanceTracker
unfolding change
set_exited now id exit_code t =
    change id
      (λ i. record i {
        state = state_exited;
        exit_code = exit_code;
        exited_at = now;
        watching = false;
      })
      t

-- SetInstalled
pub set_installed : String → InstanceTracker → InstanceTracker
unfolding change
set_installed id t = change id (λ i. record i { installed = true }) t

-- Remove, Get and Snapshot
pub remove : String → InstanceTracker → InstanceTracker
remove id t = record t { instances = delete id t.instances }

pub get_update : String → InstanceTracker → Option InstanceStateUpdate
get_update id t = elim (lookup id t.instances) [ none ↦ none | some i ↦ some (snapshot_of i) ]

pub snapshots : InstanceTracker → List InstanceStateUpdate
snapshots t = map (λ entry. snapshot_of entry.1) t.instances

-- WatchLogs, with what the compiled pattern is: none where there is no pattern or an invalid one.
pub watch_logs : ℕ → String → Option (String → Bool) → InstanceTracker → InstanceTracker
unfolding set_ready
watch_logs now id pattern t =
    let ready = set_ready now id t in
    elim (lookup id t.instances) [
      | none ↦ t
      | some i ↦ elim pattern [
        | none ↦ ready
        | some test ↦ record t { instances = insert id (record i { watching = true }) t.instances }
      ]
    ]

-- watchLogsLoop over the lines that come before the goroutine is cancelled.
pub watch_logs_loop : ℕ → String → (String → Bool) → List String → InstanceTracker → InstanceTracker
unfolding set_ready
watch_logs_loop now id test [] t = t
watch_logs_loop now id test (line ∷ lines) t =
    let later = watch_logs_loop now id test lines t in
    if test line then set_ready now id t else later

abbrev is_running_state : InstanceState → Bool
is_running_state state_running = true
is_running_state _ = false

-- Recover
pub recover : String → String → InstanceState → ℕ → Bool → InstanceTracker → InstanceTracker
recover id name state started_at installed t =
    let running = is_running_state state in
    record t {
      instances =
          insert id
            (record {
              id = id;
              name = name;
              state = state;
              ready = running;
              ready_at = if running then started_at else 0;
              exit_code = pos 0;
              started_at = started_at;
              exited_at = 0;
              installed = installed;
              watching = false;
            })
            t.instances;
    }

-- What happens to the tracker.
pub data Event : Type 0 where
  tracks : String → String → Event
  sets_state : ℕ → String → InstanceState → Event
  sets_ready : ℕ → String → Event
  sets_exited : ℕ → String → ℤ → Event
  sets_installed : String → Event
  removes : String → Event
  watches : ℕ → String → Option (String → Bool) → Event
  reads : ℕ → String → (String → Bool) → List String → Event
  recovers : String → String → InstanceState → ℕ → Bool → Event
  receives : Event

pub perform : Event → InstanceTracker → InstanceTracker
unfolding track_instance set_state set_ready set_exited set_installed remove watch_logs
    watch_logs_loop recover receive
perform (tracks id name) t = track_instance id name t
perform (sets_state now id state) t = set_state now id state t
perform (sets_ready now id) t = set_ready now id t
perform (sets_exited now id code) t = set_exited now id code t
perform (sets_installed id) t = set_installed id t
perform (removes id) t = remove id t
perform (watches now id pattern) t = watch_logs now id pattern t
perform (reads now id test lines) t = watch_logs_loop now id test lines t
perform (recovers id name state started_at installed) t =
    recover id name state started_at installed t
perform receives t = receive t

pub perform_all : List Event → InstanceTracker → InstanceTracker
unfolding perform
perform_all [] t = t
perform_all (e ∷ es) t = perform_all es (perform e t)

-- NewInstanceTracker
abbrev pub new_tracker : InstanceTracker
new_tracker = record { instances = []; queue = []; sent = []; dropped = []; received = [] }
