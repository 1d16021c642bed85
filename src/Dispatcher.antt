-- ===== src/Dispatcher.antt =====
-- controller/cluster/dispatcher.go: which worker serves a gameserver, and the ranking of the workers
-- that a new gameserver may be placed on. A worker is named by its node. Scores are exact fractions
-- where the source has floating-point numbers, and of candidates that tie the earlier stays first.
pub mod Ranking
pub mod Order
mod Tests
use game_janitor.Base.{
  ℕ, ◌+◌, ◌*◌, String, ◌≡◌, Bool, true, false, ◌&&◌, ◌||◌, not, Option, none, some, List, [], ◌∷◌,
  ltb, ◌==◌, if◌then◌else◌, or_else, str_eq, is_empty, is_some,
}
use game_janitor.Model.{Gameserver, WorkerNode, Labels, has_all}
use game_janitor.Store.{
  Store, memory_query, cpu_query, storage_query, memory_column, cpu_column, storage_column,
  allocated_by_node, allocated_float_by_node, get_gameserver, get_worker_node,
  gameserver_count_by_node,
}
use game_janitor.Registry.{Registry, RegisteredWorker, get}

-- The worker of a node, where it is connected; SelectWorkerByNodeID.
unfoldable pub select_worker_by_node_id : Registry → String → Option String
select_worker_by_node_id r node_id =
    if str_eq node_id "" then none else elim (get node_id r) [ none ↦ none | some c ↦ some node_id ]

-- lookupNodeID, with the empty text for a gameserver without a node; none is an error.
node_id_of : Option Gameserver → String
node_id_of none = ""
node_id_of (some gs) = or_else gs.node_id ""

pub lookup_node_id : Store → String → Option String
unfolding node_id_of
lookup_node_id s id = elim (get_gameserver s id) [
  | none ↦ none
  | some found ↦ some (node_id_of found)
]

-- WorkerFor
unfoldable pub worker_for : Store → Registry → String → Option String
unfolding lookup_node_id select_worker_by_node_id
worker_for s r id = elim (lookup_node_id s id) [
  | none ↦ none
  | some node_id ↦ select_worker_by_node_id r node_id
]

-- The fraction (plus - minus) / over.
pub record Score : Type 0 where
  pub plus : ℕ
  pub minus : ℕ
  pub over : ℕ

pub above : Score → Score → Bool
above a b = ltb (b.plus * a.over + a.minus * b.over) (a.plus * b.over + b.minus * a.over)

pub record PlacementCandidate : Type 0 where
  pub node_id : String
  pub score : Score
  pub gameserver_count : ℕ

-- The share of a limit that is not allocated, where there is a limit.
headroom : Option ℕ → ℕ → Option Score
headroom none allocated = none
headroom (some limit) allocated =
    if ltb 0 limit then some (record { plus = limit; minus = allocated; over = limit }) else none

-- The smaller of two scores.
least : Option Score → Option Score → Option Score
least none b = b
least (some a) none = some a
least (some a) (some b) = if above a b then some b else some a

unlimited : ℕ → Score
unlimited allocated = record { plus = 0; minus = allocated; over = 1 }

-- What is allocated on a node: memory, CPU and storage.
abbrev pub Allocated : Type 0
Allocated = ℕ × ℕ × ℕ

pub score_of : Option WorkerNode → Allocated → Score
unfolding headroom least unlimited
score_of none (mem, cpus, disk) = unlimited mem
score_of (some node) (mem, cpus, disk) =
    or_else
      (least (least (headroom node.max_memory_mb mem) (headroom node.max_cpu cpus))
        (headroom node.max_storage_mb disk))
      (unlimited mem)

-- The three sums; the worker is skipped where one is an error.
allocated_on : Store → String → Option Allocated
allocated_on s id = elim (allocated_by_node s memory_query memory_column id "") [
  | none ↦ none
  | some mem ↦ elim (allocated_float_by_node s cpu_query cpu_column id "") [
    | none ↦ none
    | some cpus ↦ elim (allocated_by_node s storage_query storage_column id "") [
      | none ↦ none
      | some disk ↦ some (mem, cpus, disk)
    ]
  ]
]

abbrev pub is_cordoned : Option WorkerNode → Bool
is_cordoned none = false
is_cordoned (some node) = node.cordoned

abbrev pub has_labels : Labels → Option WorkerNode → Bool
has_labels required none = is_empty required
has_labels required (some node) = is_empty required || has_all node.tags required

candidate_with : Store → String → Option Allocated → Option PlacementCandidate
unfolding score_of
candidate_with s id none = none
candidate_with s id (some allocated) = some (record {
  node_id = id;
  score = score_of (get_worker_node s id) allocated;
  gameserver_count = or_else (gameserver_count_by_node s id) 0;
})

-- A pass of the loop over the connected workers.
pub candidate : Store → Labels → String → Option PlacementCandidate
unfolding candidate_with allocated_on
candidate s required id =
    let node = get_worker_node s id in
    if has_labels required node && not (is_cordoned node)
    then candidate_with s id (allocated_on s id)
    else none

pub candidates : Store → Labels → List (String × RegisteredWorker) → List PlacementCandidate
unfolding candidate
candidates s required [] = []
candidates s required ((id, rw) ∷ rest) =
    let later = candidates s required rest in
    if is_some rw.worker
    then elim (candidate s required id) [ none ↦ later | some c ↦ c ∷ later ]
    else later

-- The order of the ranking: whether `a` goes before `b`.
pub before : PlacementCandidate → PlacementCandidate → Bool
unfolding above
before a b =
    if above a.score b.score
    then true
    else if above b.score a.score
    then false
    else ltb a.gameserver_count b.gameserver_count

pub insert_ranked : PlacementCandidate → List PlacementCandidate → List PlacementCandidate
insert_ranked c [] = c ∷ []
insert_ranked c (d ∷ ds) =
    let rest = insert_ranked c ds in if before d c then d ∷ rest else c ∷ d ∷ ds

pub sort_ranked : List PlacementCandidate → List PlacementCandidate
unfolding insert_ranked
sort_ranked [] = []
sort_ranked (c ∷ cs) = insert_ranked c (sort_ranked cs)

-- RankWorkersForPlacement
pub rank_workers_for_placement : Store → Registry → Labels → List PlacementCandidate
unfolding candidates sort_ranked
rank_workers_for_placement s r required = sort_ranked (candidates s required r.workers)
