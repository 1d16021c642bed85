-- ===== src/Placement/Blocks.antt =====
-- AllocatePorts (controller/cluster/placement.go): what the allocated ports are, and when there
-- are none.
use game_janitor.Base.{
  ℕ, suc, ◌+◌, ◌-◌, ◌≤◌, ◌<◌, String, ◌≡◌, refl, ap, ◌↔◌, true, false, List, [], ◌∷◌, map, some,
  arith, length, elem, All,
}
use game_janitor.Model.{PortMapping}
use game_janitor.Placement.Search.{
  Found, base, exhausted, out_of_fuel, find_base, Answers, IsFree, find_base-Answers,
}
use game_janitor.Placement.Assign.{
  port_numbers, unique_sorted, port_index, assign, elem-unique_sorted, port_index_bounds,
  port_index-injective, unique_sorted-nonempty,
}
use game_janitor.Placement.{
  Placement, Result, ok, err, no_block, used_ports, port_range_for_node, allocate_in,
  allocate_ports,
}

-- A game with a port has a block of at least one port.
block_pos : (gp : PortMapping) (ports : List PortMapping) → 0 < length (unique_sorted (gp ∷ ports))
block_pos gp ports = unique_sorted-nonempty gp ports

-- The search that allocate_in makes.
abbrev pub search : ℕ × ℕ → List ℕ → List PortMapping → Found
search range used ports =
    find_base (suc (range.1 + 1 - range.0)) used (length (unique_sorted ports)) range.1 range.0

search-Answers :
    (range : ℕ × ℕ) (used : List ℕ) (gp : PortMapping) (ports : List PortMapping)
    → Answers used
        (length (unique_sorted (gp ∷ ports)))
        range.1
        range.0
        (search range used (gp ∷ ports))
search-Answers range used gp ports =
    find_base-Answers (suc (range.1 + 1 - range.0)) used (length (unique_sorted (gp ∷ ports)))
      range.1 range.0 (block_pos gp ports) (omega arith)

-- The host port of one game port lies in the range and is unused.
abbrev pub IsFreePort : ℕ × ℕ → List ℕ → PortMapping → Type 0
IsFreePort range used m = (range.0 ≤ m.port) × (m.port ≤ range.1) × (elem m.port used ≡ false)

assign-IsFreePort :
    (range : ℕ × ℕ) (used numbers : List ℕ) (b : ℕ) (gp : PortMapping)
    → range.0 ≤ b
    → b + length numbers ≤ range.1 + 1
    → IsFree used b (length numbers)
    → elem gp.port numbers ≡ true
    → IsFreePort range used (assign b numbers gp)
unfolding assign
assign-IsFreePort range used numbers b gp lo hi free here =
    let bound : port_index gp.port numbers 0 < length numbers =
      omega (arith, port_index_bounds gp.port numbers 0 here) in
    (omega arith, omega arith, free (port_index gp.port numbers 0) bound)

assigned :
    (range : ℕ × ℕ) (used numbers : List ℕ) (b : ℕ) (ports : List PortMapping)
    → range.0 ≤ b
    → b + length numbers ≤ range.1 + 1
    → IsFree used b (length numbers)
    → ((n : ℕ) → elem n (port_numbers ports) ≡ true → elem n numbers ≡ true)
    → All (IsFreePort range used) (map (assign b numbers) ports)
assigned range used numbers b [] lo hi free sub = tt
assigned range used numbers b (gp ∷ ports) lo hi free sub = (
  assign-IsFreePort range used numbers b gp lo hi free (sub gp.port (ground arith)),
  assigned range used numbers b ports lo hi free (λ n h. sub n (ground arith)),
)

-- What a successful allocation gives.
pub record IsAllocation (range : ℕ × ℕ) (used : List ℕ) (ports mapped : List PortMapping)
    : Type 0 where
  pub free : All (IsFreePort range used) mapped
  pub names : map (λ m. m.name) mapped ≡ map (λ m. m.name) ports
  pub protocols : map (λ m. m.protocol) mapped ≡ map (λ m. m.protocol) ports
  pub one_to_one :
      (b : ℕ) × (mapped ≡ map (assign b (unique_sorted ports)) ports)
      × ((gp gp' : PortMapping)
          → elem gp.port (port_numbers ports) ≡ true
          → elem gp'.port (port_numbers ports) ≡ true
          → ((assign b (unique_sorted ports) gp).port ≡ (assign b (unique_sorted ports) gp').port)
            ↔ (gp.port ≡ gp'.port))

map-assign-name :
    (b : ℕ) (numbers : List ℕ) (ports : List PortMapping)
    → (map (λ m. m.name) (map (assign b numbers) ports) ≡ map (λ m. m.name) ports)
      × (map (λ m. m.protocol) (map (assign b numbers) ports) ≡ map (λ m. m.protocol) ports)
unfolding assign
map-assign-name b numbers [] = (refl, refl)
map-assign-name b numbers (gp ∷ ports) =
    let (names, protocols) = map-assign-name b numbers ports in
    (ap (◌∷◌ gp.name) names, ap (◌∷◌ gp.protocol) protocols)

assign-one_to_one :
    (b : ℕ) (ports : List PortMapping) (gp gp' : PortMapping)
    → elem gp.port (port_numbers ports) ≡ true
    → elem gp'.port (port_numbers ports) ≡ true
    → ((assign b (unique_sorted ports) gp).port ≡ (assign b (unique_sorted ports) gp').port)
      ↔ (gp.port ≡ gp'.port)
unfolding assign
assign-one_to_one b ports gp gp' h h' = (
  (λ e.
      port_index-injective gp.port gp'.port (unique_sorted ports) 0
        (elem-unique_sorted gp.port ports h) (elem-unique_sorted gp'.port ports h') (omega arith)),
  (λ e. rw e),
)

found-IsAllocation :
    (range : ℕ × ℕ) (used : List ℕ) (ports : List PortMapping) (b : ℕ)
    → range.0 ≤ b
    → b + length (unique_sorted ports) ≤ range.1 + 1
    → IsFree used b (length (unique_sorted ports))
    → IsAllocation range used ports (map (assign b (unique_sorted ports)) ports)
found-IsAllocation range used ports b lo hi free = record {
  free =
      assigned range used (unique_sorted ports) b ports lo hi free
        (λ n h. elem-unique_sorted n ports h);
  names = (map-assign-name b (unique_sorted ports) ports).0;
  protocols = (map-assign-name b (unique_sorted ports) ports).1;
  one_to_one = (b, refl, assign-one_to_one b ports);
}

-- What an allocation in a range answers: an allocation, or that no free block is there.
abbrev pub Allocates :
    Placement → ℕ × ℕ → List ℕ → List PortMapping → Result (List PortMapping × Placement) → Type 0
Allocates p range used ports (ok (mapped, q)) = IsAllocation range used ports mapped
Allocates p range used ports (err e) =
    (e ≡ no_block)
    × ((c : ℕ)
        → range.0 ≤ c
        → c + length (unique_sorted ports) ≤ range.1 + 1
        → ¬ IsFree used c (length (unique_sorted ports)))

allocate_found :
    (p : Placement) (range : ℕ × ℕ) (used : List ℕ) (id : String) (gp : PortMapping)
    (ports : List PortMapping) (r : Found)
    → search range used (gp ∷ ports) ≡ r
    → Answers used (length (unique_sorted (gp ∷ ports))) range.1 range.0 r
    → Allocates p range used (gp ∷ ports) (allocate_in p (gp ∷ ports) range used id)
unfolding allocate_in
allocate_found p range used id gp ports (base b) e (lo, hi, free, first) =
    rw (e, allocate_in) (found-IsAllocation range used (gp ∷ ports) b lo hi free)
allocate_found p range used id gp ports exhausted e h = rw (e, allocate_in) (refl, h)
allocate_found p range used id gp ports out_of_fuel e h = absurd h

allocate_in-Allocates :
    (p : Placement) (range : ℕ × ℕ) (used : List ℕ) (id : String) (gp : PortMapping)
    (ports : List PortMapping)
    → Allocates p range used (gp ∷ ports) (allocate_in p (gp ∷ ports) range used id)
allocate_in-Allocates p range used id gp ports =
    allocate_found p range used id gp ports (search range used (gp ∷ ports)) refl
      (search-Answers range used gp ports)

-- For a game with ports, where the listing answers: AllocatePorts gives every port of the game a
-- host port of the node's range that is not in use, with names and protocols kept in order and one
-- host port for each distinct game port; and it fails exactly with `no_block`, and only where no
-- block of that many consecutive free ports lies in the range.
pub allocate_ports-Allocates :
    (p : Placement) (gp : PortMapping) (ports : List PortMapping) (node_id exclude_id id : String)
    (used : List ℕ)
    → used_ports p node_id exclude_id ≡ some used
    → Allocates p
        (port_range_for_node p node_id)
        used
        (gp ∷ ports)
        (allocate_ports p (gp ∷ ports) node_id exclude_id id)
unfolding allocate_ports
allocate_ports-Allocates p gp ports node_id exclude_id id used e =
    rw (e, allocate_ports)
      (allocate_in-Allocates p (port_range_for_node p node_id) used id gp ports)
