-- ===== src/Placement.antt =====
-- controller/cluster/placement.go: node selection, capacity checks and port allocation. The lock
-- makes each operation one step on the state. The ranked candidates (dispatcher.go) are an argument.
pub mod Search
pub mod Assign
pub mod Blocks
pub mod Pending
pub mod Capacity
pub mod Kept
mod Tests
use game_janitor.Base.{
  ℕ, zero, suc, ◌+◌, ◌-◌, ◌%◌, ◌^◌, String, ◌≡◌, Bool, true, false, ◌&&◌, ◌||◌, not, Option, none,
  some, List, [], ◌∷◌, ◌++◌, map, ltb, ◌==◌, if◌then◌else◌, or_else, str_eq, keep, is_empty, length,
  insert, delete,
}
use game_janitor.Model.{Gameserver, WorkerNode, PortMapping, Labels}
use game_janitor.Store.{
  Store, Query, memory_query, cpu_query, storage_query, int_limit, list_gameservers,
  get_worker_node, allocated_by_node, allocated_float_by_node, memory_column, cpu_column,
  storage_column,
}
use Search.{find_base, Found, base, exhausted, out_of_fuel}
use Assign.{unique_sorted, assign}

pub record Settings : Type 0 where
  pub port_uniqueness : String
  pub port_range_start : ℕ
  pub port_range_end : ℕ

pub record Placement : Type 0 where
  pub store : Store
  pub settings : Settings
  pub pending_ports : List (String × List ℕ)

pub data Resource : Type 0 where
  memory cpu storage : Resource

pub data Error : Type 0 where
  listing_failed no_block no_ports no_workers no_labelled_workers : Error
  limit_query_failed limit_reached : Resource → Error
  no_capacity : Error

pub data Result {ℓ} (A : Type ℓ) : Type ℓ where
  ok : A → Result A
  err : Error → Result A

-- CommitPorts and ReleasePorts have the same body.
unfoldable pub commit_ports : String → Placement → Placement
commit_ports id p = record p { pending_ports = delete id p.pending_ports }

unfoldable pub release_ports : String → Placement → Placement
release_ports id p = record p { pending_ports = delete id p.pending_ports }

row_ports : String → List Gameserver → List ℕ
row_ports exclude_id [] = []
row_ports exclude_id (gs ∷ rest) =
    let later = row_ports exclude_id rest in
    if str_eq gs.id exclude_id
    then later
    else keep (λ n. not (n == 0)) (map (λ m. m.port) gs.ports) ++ later

pub reserved_ports : String → List (String × List ℕ) → List ℕ
reserved_ports exclude_id [] = []
reserved_ports exclude_id ((id, ports) ∷ rest) =
    let later = reserved_ports exclude_id rest in
    if str_eq id exclude_id then later else ports ++ later

-- UsedPorts
pub used_ports : Placement → String → String → Option (List ℕ)
unfolding row_ports
used_ports p node_id exclude_id =
    elim (list_gameservers p.store
      (if str_eq p.settings.port_uniqueness "node" then some node_id else none)) [
        | none ↦ none
        | some rows ↦ some (row_ports exclude_id rows ++ reserved_ports exclude_id p.pending_ports)
      ]

own_range : Option WorkerNode → ℕ × ℕ → ℕ × ℕ
own_range none range = range
own_range (some node) range = elim node.port_range_start [
  | none ↦ range
  | some lo ↦ elim node.port_range_end [ none ↦ range | some hi ↦ (lo, hi) ]
]

-- portRangeForNode
pub port_range_for_node : Placement → String → ℕ × ℕ
unfolding own_range
port_range_for_node p node_id =
    let range : ℕ × ℕ = (p.settings.port_range_start, p.settings.port_range_end) in
    if str_eq node_id "" then range else own_range (get_worker_node p.store node_id) range

-- The int64 of a sum that wraps, as a comparison with a limit of 0 or more sees it: a number from 0
-- up, or none for a negative one, which exceeds no limit.
abbrev pub wrapped : ℕ → Option ℕ
wrapped n = let bits = n % 2 ^ 64 in if ltb bits int_limit then some bits else none

abbrev pub over_limit : Option ℕ → ℕ → Bool
over_limit none limit = false
over_limit (some n) limit = ltb limit n

-- `a + n > limit`, over Go's int and, for the CPU, over float64, which holds these sums exactly.
unfoldable pub exceeds : Resource → ℕ → ℕ → ℕ → Bool
exceeds memory a n limit = over_limit (wrapped (a + n)) limit
exceeds cpu a n limit = ltb limit (a + n)
exceeds storage a n limit = over_limit (wrapped (a + n)) limit

check_resource : Resource → Option ℕ → ℕ → Option ℕ → Option Error
unfolding exceeds
check_resource r limit needed allocated = elim limit [
  | none ↦ none
  | some most ↦ elim allocated [
    | none ↦ some (limit_query_failed r)
    | some a ↦ if exceeds r a needed most then some (limit_reached r) else none
  ]
]

-- The first error of two checks.
or_error : Option Error → Option Error → Option Error
or_error none later = later
or_error (some e) later = some e

check_node : Store → WorkerNode → String → ℕ → ℕ → ℕ → String → Option Error
unfolding check_resource or_error
check_node s node node_id mem cpus disk exclude_id =
    or_error
      (check_resource memory node.max_memory_mb mem
        (allocated_by_node s memory_query memory_column node_id exclude_id))
      (or_error
        (check_resource cpu node.max_cpu cpus
          (allocated_float_by_node s cpu_query cpu_column node_id exclude_id))
        (check_resource storage (if ltb 0 disk then node.max_storage_mb else none) disk
          (allocated_by_node s storage_query storage_column node_id exclude_id)))

-- checkWorkerLimits; none is success. A node with no record has no limits.
unfoldable pub check_worker_limits : Store → String → ℕ → ℕ → ℕ → String → Option Error
unfolding check_node
check_worker_limits s node_id mem cpus disk exclude_id = elim (get_worker_node s node_id) [
  | none ↦ none
  | some node ↦ check_node s node node_id mem cpus disk exclude_id
]

track : String → List PortMapping → Placement → Placement
track id ports p =
    if str_eq id ""
    then p
    else record p { pending_ports = insert id (map (λ m. m.port) ports) p.pending_ports }

allocate_in :
    Placement → List PortMapping → ℕ × ℕ → List ℕ → String → Result (List PortMapping × Placement)
unfolding track
allocate_in p ports (start, end) used id =
    let numbers = unique_sorted ports in
    elim (find_base (suc (end + 1 - start)) used (length numbers) end start) [
      | base b ↦ let mapped = map (assign b numbers) ports in ok (mapped, track id mapped p)
      | exhausted ↦ err no_block
      | out_of_fuel ↦ err no_block
    ]

-- AllocatePorts
pub allocate_ports :
    Placement → List PortMapping → String → String → String → Result (List PortMapping × Placement)
unfolding allocate_in
allocate_ports p ports node_id exclude_id id =
    if is_empty ports then ok ([], p) else elim (used_ports p node_id exclude_id) [
      | none ↦ err listing_failed
      | some used ↦ allocate_in p ports (port_range_for_node p node_id) used id
    ]

-- ReallocatePorts
pub reallocate_ports :
    Placement → List PortMapping → String → String → Result (List PortMapping × Placement)
reallocate_ports p ports node_id exclude_id = allocate_ports p ports node_id exclude_id ""

-- FindNodeWithCapacity
pub find_node_with_capacity : Store → ℕ → ℕ → ℕ → List String → String → Option String
find_node_with_capacity s mem cpus disk [] exclude_node = none
find_node_with_capacity s mem cpus disk (c ∷ cs) exclude_node =
    let rest = find_node_with_capacity s mem cpus disk cs exclude_node in
    if str_eq c exclude_node
    then rest
    else elim (check_worker_limits s c mem cpus disk "") [ none ↦ some c | some e ↦ rest ]

-- A placement: the node, the ports if any were allocated, and the state.
abbrev pub Placed : Type 0
Placed = String × Option (List PortMapping) × Placement

abbrev pub limits_error : Placement → Gameserver → String → Option Error
limits_error p gs node_id =
    check_worker_limits p.store node_id gs.memory_limit_mb gs.cpu_limit
      (or_else gs.storage_limit_mb 0) ""

-- The ports of one node, where the gameserver's port mode is "auto".
ports_on : Placement → List PortMapping → Gameserver → String → Result Placed
ports_on p ports gs node_id =
    if str_eq gs.port_mode "auto"
    then elim (allocate_ports p ports node_id "" gs.id) [
      | ok (mapped, q) ↦ ok (node_id, some mapped, q)
      | err e ↦ err e
    ]
    else ok (node_id, none, p)

pub place_on_node : Placement → List PortMapping → Gameserver → String → Result Placed
unfolding ports_on
place_on_node p ports gs node_id = elim (limits_error p gs node_id) [
  | some e ↦ err e
  | none ↦ elim (ports_on p ports gs node_id) [ ok placed ↦ ok placed | err e ↦ err no_ports ]
]

-- The loop over the ranked candidates: the first with capacity and free ports.
place_auto : Placement → List PortMapping → Gameserver → List String → Result Placed
unfolding ports_on
place_auto p ports gs [] = err no_capacity
place_auto p ports gs (c ∷ cs) =
    let rest = place_auto p ports gs cs in
    elim (if str_eq c "" then none else limits_error p gs c) [
      | some e ↦ rest
      | none ↦ elim (ports_on p ports gs c) [ ok placed ↦ ok placed | err e ↦ rest ]
    ]

place_ranked : Placement → List PortMapping → Gameserver → List String → Result Placed
unfolding place_auto
place_ranked p ports gs [] = err (if is_empty gs.node_tags then no_workers else no_labelled_workers)
place_ranked p ports gs (c ∷ cs) = place_auto p ports gs (c ∷ cs)

-- PlaceGameserver
unfoldable pub place_gameserver :
    Placement → List PortMapping → Gameserver → List String → Result Placed
unfolding place_on_node place_ranked
place_gameserver p ports gs candidates = elim gs.node_id [
  | none ↦ place_ranked p ports gs candidates
  | some node_id ↦
      if str_eq node_id ""
      then place_ranked p ports gs candidates
      else place_on_node p ports gs node_id
]
