-- ===== src/Live/Operations.antt =====
-- The operation harness of controller/gameserver/live.go: submitOperation with its preemption rules,
-- and the goroutine that runs an operation. Goroutines are named by numbers; the `op_done` channel
-- and the cancel function of an operation are named by the goroutine that was started with them.
-- A call waits where the source receives from `opDone`: a pass of its loop is one step.
pub mod Exclusive
pub mod Overlap
use game_janitor.Base.{
  ℕ, zero, suc, ◌+◌, String, ◌≡◌, Bool, true, false, ◌&&◌, not, Option, none, some, List, [], ◌∷◌,
  leb, ◌==◌, if◌then◌else◌, str_eq, keep, map, is_some, elem,
}
use game_janitor.Model.{
  Operation, OperationPhase, OpType, op_stop, op_delete, ErrorReason, failed_with,
}
use game_janitor.Live.{System, Live, InstanceStateUpdate, set_error, clear_operation}
use game_janitor.Live.Process.{handle_process_event}

-- opPriority, 0 for what is not listed.
unfoldable pub op_priority : OpType → ℕ
op_priority op_stop = 1
op_priority op_delete = 2
op_priority _ = 0

-- operationOpts, but for the functions that run.
pub record Opts : Type 0 where
  pub op_type : OpType
  pub initial_phase : OperationPhase
  pub require_worker : Bool
  pub error_prefix : String
  pub clear_on_success : Bool
  pub terminal : Bool

pub record Goroutine : Type 0 where
  pub id : ℕ
  pub opts : Opts
  pub cancelled : Bool
  pub returned : Bool

-- `closed` lists the channels that were closed.
pub record Harness : Type 0 where
  pub system : System
  pub goroutines : List Goroutine
  pub closed : List ℕ
  pub next_id : ℕ

-- A pass of the loop of submitOperation rejects, cancels the running operation and waits for it,
-- finds no worker, or starts the operation.
pub data Submitted : Type 0 where
  conflict : OpType → Submitted
  unavailable started : Submitted
  waiting : Option ℕ → Submitted

abbrev same_flag : Bool → Bool → Bool
same_flag true b = b
same_flag false b = not b

cancel_one : Option ℕ → Goroutine → Goroutine
cancel_one none r = r
cancel_one (some id) r = if r.id == id then record r { cancelled = true } else r

unfoldable pub launch : Opts → Harness → Harness
launch opts h =
    let s = h.system in
    let g = s.live in
    record h {
      system = record s {
        live = record g {
          operation =
              some (record { op_type = opts.op_type; phase = opts.initial_phase; progress = none });
          op_done = some h.next_id;
        };
      };
      goroutines =
          record { id = h.next_id; opts = opts; cancelled = false; returned = false }
          ∷ h.goroutines;
      next_id = h.next_id + 1;
    }

unfoldable pub submit_pass : Opts → Harness → Harness × Submitted
unfolding op_priority cancel_one launch
submit_pass opts h = elim h.system.live.operation [
  | some op ↦
      if leb (op_priority opts.op_type) (op_priority op.op_type)
      then (h, conflict op.op_type)
      else (
        record h { goroutines = map (cancel_one h.system.live.op_done) h.goroutines },
        waiting h.system.live.op_done,
      )
  | none ↦
      if opts.require_worker && not (is_some h.system.live.worker)
      then (h, unavailable)
      else (launch opts h, started)
]

-- A nil channel is not waited for.
abbrev pub is_closed : Option ℕ → Harness → Bool
is_closed none h = true
is_closed (some id) h = elem id h.closed

-- What follows a wait: the next pass, once the channel is closed.
resume : Opts → Harness → Submitted → Harness × Submitted
resume opts h (waiting done) = if is_closed done h then submit_pass opts h else (h, waiting done)
resume opts h other = (h, other)

-- `n` passes of the loop with nothing else running in between.
pub submit_passes : ℕ → Opts → Harness → Harness × Submitted
unfolding resume
submit_passes zero opts h = submit_pass opts h
submit_passes (suc n) opts h = let (h', r) = submit_passes n opts h in resume opts h' r

abbrev pub update_system : (System → System) → Harness → Harness
update_system f h = record h { system = f h.system }

-- How an operation's function ends: the result of `fn`.
pub data Ended : Type 0 where
  succeeded : Ended
  failed : String → Ended

-- The tail of the goroutine after `fn`, before its deferred function.
pub after_fn : Goroutine → Ended → System → System
after_fn r succeeded s =
    if r.opts.terminal then s else if r.opts.clear_on_success then clear_operation s else s
after_fn r (failed message) s = clear_operation (
    if not r.cancelled && not (str_eq r.opts.error_prefix "")
    then set_error (failed_with r.opts.error_prefix message) s
    else s)

-- The goroutine whose function is still running, or has returned, under an id.
find_goroutine : ℕ → Bool → List Goroutine → Option Goroutine
find_goroutine id returned [] = none
find_goroutine id returned (r ∷ rs) =
    let later = find_goroutine id returned rs in
    if r.id == id && same_flag r.returned returned then some r else later

mark_returned : ℕ → Goroutine → Goroutine
mark_returned id r = if r.id == id then record r { returned = true } else r

-- The function of goroutine `id` returns, and the goroutine goes on to its deferred function.
pub finish : ℕ → Ended → Harness → Harness
unfolding after_fn find_goroutine mark_returned
finish id ended h = elim (find_goroutine id false h.goroutines) [
  | none ↦ h
  | some r ↦ record h {
    system = after_fn r ended h.system;
    goroutines = map (mark_returned id) h.goroutines;
  }
]

abbrev add_closed : Option ℕ → List ℕ → List ℕ
add_closed none closed = closed
add_closed (some id) closed = id ∷ closed

-- The deferred function closes whatever channel the object has by then.
pub run_deferred : ℕ → Harness → Harness
unfolding find_goroutine
run_deferred id h = elim (find_goroutine id true h.goroutines) [
  | none ↦ h
  | some r ↦
      let s = h.system in
      let g = s.live in
      record h {
        system = record s { live = record g { op_done = none } };
        goroutines = keep (λ q. not (q.id == id)) h.goroutines;
        closed = add_closed g.op_done h.closed;
      }
]

-- What happens to the object: calls, ends of goroutines, and events of the worker.
pub data Happening : Type 0 where
  submits : Opts → Happening
  finishes : ℕ → Ended → Happening
  defers : ℕ → Happening
  observes : ℕ → InstanceStateUpdate → Happening

pub happen : Happening → Harness → Harness
happen (submits opts) h = (submit_pass opts h).0
happen (finishes id ended) h = finish id ended h
happen (defers id) h = run_deferred id h
happen (observes now u) h = update_system (handle_process_event now u) h

pub happen_all : List Happening → Harness → Harness
happen_all [] h = h
happen_all (e ∷ es) h = happen_all es (happen e h)
