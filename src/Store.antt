-- ===== src/Store.antt =====
-- store/gameserver.go and store/worker_node.go: the queries and updates, over the rows of the
-- tables. Which queries the database answers with an error is part of the state, `fails`.
pub mod Laws
pub mod Frame
use game_janitor.Base.{
  ℕ, zero, suc, ◌+◌, ◌^◌, String, ◌≡◌, Bool, true, false, ◌&&◌, ◌||◌, not, Option, none, some, List,
  [], ◌∷◌, map, ltb, if◌then◌else◌, or_else, str_eq, keep, any, length,
}
use game_janitor.Model.{
  Gameserver, WorkerNode, ErrorReason, no_error, DesiredState, desired_archived,
}

pub data Query : Type 0 where
  list_query get_query update_query delete_query node_query : Query
  memory_query cpu_query storage_query : Query
  owner_query grants_query owned_query granted_query : Query
  node_count_query token_count_query token_sums_query : Query

pub record Store : Type 0 where
  pub gameservers : List Gameserver
  pub nodes : List WorkerNode
  pub fails : Query → Bool

-- The numbers of a Go int stop below 2 ^ 63.
unfoldable pub int_limit : ℕ
int_limit = 2 ^ 63

abbrev pub on_node : String → Gameserver → Bool
on_node node_id gs = elim gs.node_id [ none ↦ false | some n ↦ str_eq n node_id ]

abbrev unplaced : Gameserver → Bool
unplaced gs = elim gs.node_id [ none ↦ true | some n ↦ false ]

-- The node filter of ListGameservers; the empty text asks for the rows with no node.
abbrev pub matches_node : Option String → Gameserver → Bool
matches_node none gs = true
matches_node (some node_id) gs = if str_eq node_id "" then unplaced gs else on_node node_id gs

-- ListGameservers, with a filter on the node only.
unfoldable pub list_gameservers : Store → Option String → Option (List Gameserver)
list_gameservers s filter =
    if s.fails list_query then none else some (keep (matches_node filter) s.gameservers)

unfoldable pub find_gameserver : String → List Gameserver → Option Gameserver
find_gameserver id [] = none
find_gameserver id (gs ∷ rest) = if str_eq gs.id id then some gs else find_gameserver id rest

-- GetGameserver: an error, or a row that may be missing. scanGameserver takes an applied_config without
-- an env for none; the env that SnapshotConfig writes is never null, as Create and UpdateConfig store
-- no null env, so none of the rows of the model has one.
unfoldable pub get_gameserver : Store → String → Option (Option Gameserver)
unfolding find_gameserver
get_gameserver s id = if s.fails get_query then none else some (find_gameserver id s.gameservers)

pub find_node : String → List WorkerNode → Option WorkerNode
find_node id [] = none
find_node id (n ∷ rest) = if str_eq n.id id then some n else find_node id rest

-- GetWorkerNode, where the caller takes an error and a missing row alike.
unfoldable pub get_worker_node : Store → String → Option WorkerNode
unfolding find_node
get_worker_node s id = if s.fails node_query then none else find_node id s.nodes

-- The rows that allocatedIntByNode and allocatedFloatByNode add up.
abbrev pub counted : String → String → Gameserver → Bool
counted node_id exclude_id gs =
    on_node node_id gs && (str_eq exclude_id "" || not (str_eq gs.id exclude_id))

unfoldable pub sum_column : (Gameserver → ℕ) → List Gameserver → ℕ
sum_column column [] = 0
sum_column column (gs ∷ rest) = column gs + sum_column column rest

-- COALESCE(SUM(column), 0); SQLite answers an integer sum past 64 bits with an error.
unfoldable pub allocated_by_node : Store → Query → (Gameserver → ℕ) → String → String → Option ℕ
unfolding sum_column
allocated_by_node s query column node_id exclude_id =
    let total = sum_column column (keep (counted node_id exclude_id) s.gameservers) in
    if s.fails query then none else if ltb total int_limit then some total else none

-- The same over a column of floating-point numbers, whose sum is never an error.
unfoldable pub allocated_float_by_node :
    Store → Query → (Gameserver → ℕ) → String → String → Option ℕ
unfolding sum_column
allocated_float_by_node s query column node_id exclude_id =
    if s.fails query
    then none
    else some (sum_column column (keep (counted node_id exclude_id) s.gameservers))

abbrev pub memory_column : Gameserver → ℕ
memory_column gs = gs.memory_limit_mb

abbrev pub cpu_column : Gameserver → ℕ
cpu_column gs = gs.cpu_limit

-- NULL counts for nothing in SUM.
abbrev pub storage_column : Gameserver → ℕ
storage_column gs = or_else gs.storage_limit_mb 0

-- A single-row UPDATE of the row with this id, by the change that its SET list makes.
pub update_rows : (Gameserver → Gameserver) → String → List Gameserver → List Gameserver
update_rows change id [] = []
update_rows change id (gs ∷ rest) =
    let later = update_rows change id rest in
    if str_eq gs.id id then change gs ∷ later else gs ∷ later

-- An UPDATE whose error the caller ignores.
pub exec_update : Store → (Gameserver → Gameserver) → String → Store
exec_update s change id =
    if s.fails update_query
    then s
    else record s { gameservers = update_rows change id s.gameservers }

-- The columns that UpdateGameserver writes: all but id and created_by_token_id.
abbrev pub written : Gameserver → Gameserver → Gameserver
written gs row = record gs { id = row.id; created_by_token_id = row.created_by_token_id }

-- UpdateGameserver, SetErrorReason, ClearErrorReason, SetInstanceID and SetDesiredState.
unfoldable pub update_gameserver : Gameserver → Store → Store
update_gameserver gs s = exec_update s (written gs) gs.id

unfoldable pub set_error_reason : String → ErrorReason → Store → Store
set_error_reason id reason s = exec_update s (λ row. record row { error_reason = reason }) id

unfoldable pub clear_error_reason : String → Store → Store
unfolding set_error_reason
clear_error_reason id s = set_error_reason id no_error s

unfoldable pub set_instance_id : String → Option String → Store → Store
set_instance_id id instance s = exec_update s (λ row. record row { instance_id = instance }) id

pub set_desired_state : String → DesiredState → Store → Store
set_desired_state id state s = exec_update s (λ row. record row { desired_state = state }) id

abbrev pub with_row : Gameserver → Store → Store
with_row gs s = record s { gameservers = gs ∷ s.gameservers }

-- CreateGameserver and DeleteGameserver; none is an error.
unfoldable pub create_gameserver : Gameserver → Store → Option Store
create_gameserver gs s =
    if s.fails update_query || any (λ row. str_eq row.id gs.id) s.gameservers
    then none
    else some (with_row gs s)

pub delete_gameserver : String → Store → Option Store
delete_gameserver id s =
    if s.fails delete_query
    then none
    else if any (λ row. str_eq row.id id) s.gameservers
    then some (record s { gameservers = keep (λ row. not (str_eq row.id id)) s.gameservers })
    else none

abbrev archived : Gameserver → Bool
archived gs = elim gs.desired_state [ desired_archived ↦ true | _ ↦ false ]

-- GameserverCountByNode
unfoldable pub gameserver_count_by_node : Store → String → Option ℕ
gameserver_count_by_node s node_id =
    if s.fails node_count_query
    then none
    else some (length (keep (λ gs. on_node node_id gs && not (archived gs)) s.gameservers))

abbrev pub made_by : String → Gameserver → Bool
made_by token_id gs = elim gs.created_by_token_id [ none ↦ false | some id ↦ str_eq id token_id ]

-- CountGameserversByToken
unfoldable pub count_gameservers_by_token : Store → String → Option ℕ
count_gameservers_by_token s token_id =
    if s.fails token_count_query
    then none
    else some (length (keep (made_by token_id) s.gameservers))

-- SumResourcesByToken: memory, CPU and storage; an integer sum past 64 bits is an error.
unfoldable pub sum_resources_by_token : Store → String → Option (ℕ × ℕ × ℕ)
unfolding sum_column
sum_resources_by_token s token_id =
    let own = keep (made_by token_id) s.gameservers in
    let mem = sum_column memory_column own in
    let disk = sum_column storage_column own in
    if s.fails token_sums_query || not (ltb mem int_limit) || not (ltb disk int_limit)
    then none
    else some (mem, sum_column cpu_column own, disk)
