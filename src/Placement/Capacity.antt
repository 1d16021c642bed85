-- ===== src/Placement/Capacity.antt =====
-- Node limits (checkWorkerLimits and PlaceGameserver of controller/cluster/placement.go).
use game_janitor.Base.{
  ℕ, ◌+◌, ◌^◌, ◌≤◌, ◌<◌, String, ◌≡◌, refl, ◌↔◌, ◌⊎◌, inl, inr, true, List, [], ◌∷◌, Option, none,
  some, arith, ltb, if◌then◌else◌, str_eq, eq_iff, Bool-cases, Option-cases, str_elem,
}
use game_janitor.Model.{PortMapping, Gameserver, WorkerNode}
use game_janitor.Store.{
  Store, memory_query, cpu_query, storage_query, int_limit, get_worker_node, allocated_by_node,
  allocated_float_by_node, memory_column, cpu_column, storage_column,
}
use game_janitor.Placement.{
  Placement, ok, Resource, memory, cpu, storage, Error, over_limit, wrapped, exceeds,
  check_resource, or_error, check_node, check_worker_limits, limits_error, ports_on, place_on_node,
  place_auto, place_ranked, place_gameserver,
}

-- A resource fits: with a limit, the allocation is known and with the need stays within it.
abbrev pub Fits : Option ℕ → ℕ → Option ℕ → Type 0
Fits none needed allocated = Unit {0}
Fits (some most) needed none = ⊥
Fits (some most) needed (some a) = a + needed ≤ most

-- The integers that float64 holds exactly stop here, so sums of CPU in 1024ths of a core are exact.
abbrev pub InFloat : Option ℕ → ℕ → Type 0
InFloat none needed = Unit {0}
InFloat (some a) needed = a + needed < 2 ^ 53

-- Sums of int stay below 2 ^ 63.
abbrev pub InRange : Option ℕ → ℕ → Type 0
InRange none needed = Unit {0}
InRange (some a) needed = a + needed < int_limit

abbrev Bounded : Resource → Option ℕ → ℕ → Type 0
Bounded cpu allocated needed = InFloat allocated needed
Bounded memory allocated needed = InRange allocated needed
Bounded storage allocated needed = InRange allocated needed

-- A sum that is an int is compared as it is.
pub over_limit-int : (n limit : ℕ) → n < int_limit → over_limit (wrapped n) limit ≡ ltb limit n
unfolding int_limit
over_limit-int n limit h = ground (arith, h)

check_resource-Fits :
    (r : Resource) (limit : Option ℕ) (needed : ℕ) (allocated : Option ℕ)
    → Bounded r allocated needed
    → (check_resource r limit needed allocated ≡ none) ↔ Fits limit needed allocated
unfolding check_resource exceeds
check_resource-Fits r none needed allocated b = (λ _. tt, λ _. refl)
check_resource-Fits r (some most) needed none b = (λ e. cc, λ h. absurd h)
check_resource-Fits memory (some most) needed (some a) b =
    rw (over_limit-int (a + needed) most b) (λ e. ground arith, λ h. ground arith)
check_resource-Fits cpu (some most) needed (some a) b = (λ e. ground arith, λ h. ground arith)
check_resource-Fits storage (some most) needed (some a) b =
    rw (over_limit-int (a + needed) most b) (λ e. ground arith, λ h. ground arith)

or_error-none : (a b : Option Error) → (or_error a b ≡ none) ↔ ((a ≡ none) × (b ≡ none))
unfolding or_error
or_error-none none b = (λ e. (refl, e), λ h. h.1)
or_error-none (some x) b = (λ e. cc, λ h. cc)

abbrev allocated_memory : Store → String → String → Option ℕ
allocated_memory s node_id exclude_id =
    allocated_by_node s memory_query memory_column node_id exclude_id

abbrev allocated_cpu : Store → String → String → Option ℕ
allocated_cpu s node_id exclude_id =
    allocated_float_by_node s cpu_query cpu_column node_id exclude_id

abbrev allocated_storage : Store → String → String → Option ℕ
allocated_storage s node_id exclude_id =
    allocated_by_node s storage_query storage_column node_id exclude_id

-- Every limited resource of the node has room; storage counts only where some is asked for.
abbrev pub HasRoom : Store → WorkerNode → String → ℕ → ℕ → ℕ → String → Type 0
HasRoom s node node_id mem cpus disk exclude_id =
    Fits node.max_memory_mb mem (allocated_memory s node_id exclude_id)
    × Fits node.max_cpu cpus (allocated_cpu s node_id exclude_id)
    × Fits (if ltb 0 disk then node.max_storage_mb else none) disk
        (allocated_storage s node_id exclude_id)

check_node-HasRoom :
    (s : Store) (node : WorkerNode) (node_id : String) (mem cpus disk : ℕ) (exclude_id : String)
    → InRange (allocated_memory s node_id exclude_id) mem
    → InFloat (allocated_cpu s node_id exclude_id) cpus
    → InRange (allocated_storage s node_id exclude_id) disk
    → (check_node s node node_id mem cpus disk exclude_id ≡ none)
      ↔ HasRoom s node node_id mem cpus disk exclude_id
unfolding check_node
check_node-HasRoom s node node_id mem cpus disk exclude_id bm bc bd =
    let m =
      check_resource-Fits memory node.max_memory_mb mem (allocated_memory s node_id exclude_id)
        bm in
    let c = check_resource-Fits cpu node.max_cpu cpus (allocated_cpu s node_id exclude_id) bc in
    let d =
      check_resource-Fits storage (if ltb 0 disk then node.max_storage_mb else none) disk
        (allocated_storage s node_id exclude_id) bd in
    (
      (λ e.
          let (em, rest) = (or_error-none _ _).0 e in
          let (ec, ed) = (or_error-none _ _).0 rest in (m.0 em, c.0 ec, d.0 ed)),
      (λ h. (or_error-none _ _).1 (m.1 h.0, (or_error-none _ _).1 (c.1 h.1, d.1 h.2))),
    )

-- For CPU limits that are multiples of a 1024th of a core, and where the sums of allocation and need of
-- memory and storage stay within a Go int and that of CPU below 2 ^ 53 of these units, so that float64
-- holds it exactly: checkWorkerLimits accepts a node with a record exactly when memory, CPU and storage each have room below the node's limit, with the
-- excluded gameserver not counted; and it accepts every node that has no record.
pub check_worker_limits-HasRoom :
    (s : Store) (node_id : String) (mem cpus disk : ℕ) (exclude_id : String)
    → InRange (allocated_memory s node_id exclude_id) mem
    → InFloat (allocated_cpu s node_id exclude_id) cpus
    → InRange (allocated_storage s node_id exclude_id) disk
    → ((node : WorkerNode)
        → get_worker_node s node_id ≡ some node
        → (check_worker_limits s node_id mem cpus disk exclude_id ≡ none)
          ↔ HasRoom s node node_id mem cpus disk exclude_id)
      × (get_worker_node s node_id ≡ none
          → check_worker_limits s node_id mem cpus disk exclude_id ≡ none)
unfolding check_worker_limits
check_worker_limits-HasRoom s node_id mem cpus disk exclude_id bm bc bd = (
  (λ node e.
      rw (e, check_worker_limits)
        (check_node-HasRoom s node node_id mem cpus disk exclude_id bm bc bd)),
  (λ e. rw (e, check_worker_limits)),
)

-- A node that PlaceGameserver may choose: the requested one, or a candidate.
abbrev pub IsOffered : Gameserver → List String → String → Type 0
IsOffered gs candidates node_id = (gs.node_id ≡ some node_id) ⊎ (str_elem node_id candidates ≡ true)

ports_on-node :
    (p q : Placement) (game_ports : List PortMapping) (gs : Gameserver) (node_id chosen : String)
    (ports : Option (List PortMapping))
    → ports_on p game_ports gs node_id ≡ ok (chosen, ports, q)
    → chosen ≡ node_id
unfolding ports_on
ports_on-node p q game_ports gs node_id chosen ports e = ground arith

-- The checks that a chosen node has passed; an empty node id is not checked.
abbrev pub Passed : Placement → Gameserver → String → Type 0
Passed p gs node_id = (node_id ≡ "") ⊎ (limits_error p gs node_id ≡ none)

place_auto-Passed :
    (p q : Placement) (game_ports : List PortMapping) (gs : Gameserver) (cs : List String)
    (chosen : String) (ports : Option (List PortMapping))
    → place_auto p game_ports gs cs ≡ ok (chosen, ports, q)
    → (str_elem chosen cs ≡ true) × Passed p gs chosen
unfolding place_auto
place_auto-Passed p q game_ports gs [] chosen ports e = cc
place_auto-Passed p q game_ports gs (c ∷ cs) chosen ports e = ground (
  arith,
  eq_iff c "",
  eq_iff c chosen,
  ports_on-node p q game_ports gs c chosen ports,
  place_auto-Passed p q game_ports gs cs chosen ports,
)

place_ranked-Passed :
    (p q : Placement) (game_ports : List PortMapping) (gs : Gameserver) (cs : List String)
    (chosen : String) (ports : Option (List PortMapping))
    → place_ranked p game_ports gs cs ≡ ok (chosen, ports, q)
    → (str_elem chosen cs ≡ true) × Passed p gs chosen
unfolding place_ranked
place_ranked-Passed p q game_ports gs [] chosen ports e = cc
place_ranked-Passed p q game_ports gs (c ∷ cs) chosen ports e =
    place_auto-Passed p q game_ports gs (c ∷ cs) chosen ports e

pub place_on_node-Passed :
    (p q : Placement) (game_ports : List PortMapping) (gs : Gameserver) (node_id chosen : String)
    (ports : Option (List PortMapping))
    → place_on_node p game_ports gs node_id ≡ ok (chosen, ports, q)
    → (chosen ≡ node_id) × Passed p gs chosen
unfolding place_on_node
place_on_node-Passed p q game_ports gs node_id chosen ports e =
    ground (arith, ports_on-node p q game_ports gs node_id chosen ports)

-- A gameserver is placed only on the node that it asks for or, if it asks for none, on one of the
-- ranked candidates; and a chosen node with a nonempty id has passed the limit checks for the
-- gameserver's memory, CPU and storage.
pub place_gameserver-Passed :
    (p q : Placement) (game_ports : List PortMapping) (gs : Gameserver) (candidates : List String)
    (chosen : String) (ports : Option (List PortMapping))
    → place_gameserver p game_ports gs candidates ≡ ok (chosen, ports, q)
    → ((gs.node_id ≡ some chosen) ⊎ (str_elem chosen candidates ≡ true)) × Passed p gs chosen
unfolding place_gameserver
place_gameserver-Passed p q game_ports gs candidates chosen ports e =
    elim (Option-cases gs.node_id) [
      | inl f ↦ ground (
        arith,
        place_ranked-Passed p q game_ports gs candidates chosen ports
            (rw (f, place_gameserver) at e),
      )
      | inr (node_id, f) ↦ elim (Bool-cases (str_eq node_id "")) [
        | inl blank ↦
            let h =
              place_ranked-Passed p q game_ports gs candidates chosen ports
                (rw blank at (rw (f, place_gameserver) at e)) in
            (inr h.0, h.1)
        | inr asked ↦
            let h =
              place_on_node-Passed p q game_ports gs node_id chosen ports
                (rw asked at (rw (f, place_gameserver) at e)) in
            (inl (rw h.0 f), h.1)
      ]
    ]
