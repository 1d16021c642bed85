-- ===== src/Tracker/Tests.antt =====
-- One instance runs and exits (worker/local/tracker.go).
use game_janitor.Base.{◌≡◌, refl, true, [], ◌∷◌, List, lookup, insert, length}
use game_janitor.Model.{pos}
use game_janitor.Live.{state_running, state_exited, InstanceStateUpdate}
use game_janitor.Tracker.{
  InstanceTracker, TrackedInstance, new_tracker, perform_all, Event, get_update, snapshot_of,
}
use game_janitor.Tracker.Latest.{make-Tells, make, to_exited, Tells}

abbrev life : List Event
life =
    Event.tracks "i1" "gamejanitor-a"
    ∷ Event.sets_state 3 "i1" state_running
    ∷ Event.sets_ready 4 "i1"
    ∷ Event.receives
    ∷ Event.sets_exited 9 "i1" (pos 1)
    ∷ []

abbrev instance : TrackedInstance
instance = record {
  id = "i1";
  name = "gamejanitor-a";
  state = state_running;
  ready = true;
  ready_at = 4;
  exit_code = pos 0;
  started_at = 3;
  exited_at = 0;
  installed = true;
  watching = true;
}

abbrev one : InstanceTracker
one = record new_tracker { instances = ("i1", instance) ∷ [] }

abbrev running : InstanceStateUpdate
running = record {
  instance_id = "i1";
  instance_name = "gamejanitor-a";
  state = state_running;
  ready = true;
  ready_at = 4;
  exit_code = pos 0;
  started_at = 3;
  exited_at = 0;
  installed = true;
}

make-Tells_example :
    let exit = record running { state = state_exited; exit_code = pos 1; exited_at = 9 } in
    Tells exit "i1" one (make (to_exited 9 (pos 1)) "i1" one)
unfolding lookup get_update snapshot_of
make-Tells_example = make-Tells (to_exited 9 (pos 1)) "i1" running one refl tt

-- Three updates were sent, two of which wait.
told : length (perform_all life new_tracker).queue ≡ 2
unfolding perform_all lookup insert
told = refl
