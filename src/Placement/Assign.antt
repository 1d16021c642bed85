-- ===== src/Placement/Assign.antt =====
-- How AllocatePorts (controller/cluster/placement.go) numbers a game's ports within a block.
use game_janitor.Base.{
  ℕ, ◌+◌, ◌≤◌, ◌<◌, ◌≡◌, refl, inl, inr, true, false, ◌||◌, List, [], ◌∷◌, map, arith, leb, ◌==◌,
  if◌then◌else◌, elem, length, Bool-cases,
}
use game_janitor.Model.{PortMapping}

-- The loop over the game's ports that keeps each number once, in order.
pub unique_ports : List ℕ → List ℕ → List ℕ
unique_ports seen [] = []
unique_ports seen (p ∷ ps) =
    let old = unique_ports seen ps in
    let new = p ∷ unique_ports (p ∷ seen) ps in if elem p seen then old else new

insert_sorted : ℕ → List ℕ → List ℕ
insert_sorted p [] = p ∷ []
insert_sorted p (q ∷ qs) = let rest = insert_sorted p qs in if leb p q then p ∷ q ∷ qs else q ∷ rest

-- sort.Ints
pub sort_ports : List ℕ → List ℕ
unfolding insert_sorted
sort_ports [] = []
sort_ports (p ∷ ps) = insert_sorted p (sort_ports ps)

-- portIndex[port]: the place of a port among the sorted unique ports, 0 where it is missing.
unfoldable pub port_index : ℕ → List ℕ → ℕ → ℕ
port_index p [] i = 0
port_index p (q ∷ qs) i = let rest = port_index p qs (i + 1) in if q == p then i else rest

abbrev pub port_numbers : List PortMapping → List ℕ
port_numbers = map λ p. p.port

-- The sorted unique port numbers of a game; their number is the block size.
unfoldable pub unique_sorted : List PortMapping → List ℕ
unfolding unique_ports sort_ports
unique_sorted ports = sort_ports (unique_ports [] (port_numbers ports))

-- The mapping of one game port into the block at `base`.
unfoldable pub assign : ℕ → List ℕ → PortMapping → PortMapping
assign base numbers gp = record gp { port = base + port_index gp.port numbers 0 }

elem-unique_ports :
    (p : ℕ) (seen ps : List ℕ)
    → elem p ps ≡ true
    → elem p seen ≡ false
    → elem p (unique_ports seen ps) ≡ true
unfolding unique_ports
elem-unique_ports p seen [] h k = h
elem-unique_ports p seen (q ∷ ps) h k = elim (Bool-cases (q == p)) [
  | inl same ↦ ground arith
  | inr other ↦ ground (arith, elem-unique_ports p seen ps, elem-unique_ports p (q ∷ seen) ps)
]

elem-insert_sorted : (p q : ℕ) (qs : List ℕ) → elem p (insert_sorted q qs) ≡ (q == p) || elem p qs
unfolding insert_sorted
elem-insert_sorted p q [] = refl
elem-insert_sorted p q (r ∷ qs) = ground (arith, elem-insert_sorted p q qs)

elem-sort_ports : (p : ℕ) (ps : List ℕ) → elem p (sort_ports ps) ≡ elem p ps
unfolding sort_ports
elem-sort_ports p [] = refl
elem-sort_ports p (q ∷ ps) =
    ground (arith, elem-insert_sorted p q (sort_ports ps), elem-sort_ports p ps)

pub elem-unique_sorted :
    (p : ℕ) (ports : List PortMapping)
    → elem p (port_numbers ports) ≡ true
    → elem p (unique_sorted ports) ≡ true
unfolding unique_sorted
elem-unique_sorted p ports h =
    rw (elem-sort_ports p (unique_ports [] (port_numbers ports)))
      (elem-unique_ports p [] (port_numbers ports) h refl)

pub port_index_bounds :
    (p : ℕ) (qs : List ℕ) (i : ℕ)
    → elem p qs ≡ true
    → (i ≤ port_index p qs i) × (port_index p qs i < i + length qs)
unfolding port_index
port_index_bounds p [] i h = cc
port_index_bounds p (q ∷ qs) i h = ground (arith, port_index_bounds p qs (i + 1))

-- Two ports of the game are mapped to one host port exactly when they are one port.
pub port_index-injective :
    (p r : ℕ) (qs : List ℕ) (i : ℕ)
    → elem p qs ≡ true
    → elem r qs ≡ true
    → port_index p qs i ≡ port_index r qs i
    → p ≡ r
unfolding port_index
port_index-injective p r [] i hp hr e = cc
port_index-injective p r (q ∷ qs) i hp hr e = ground (
  arith,
  port_index-injective p r qs (i + 1),
  port_index_bounds p qs (i + 1),
  port_index_bounds r qs (i + 1),
)

length-insert_sorted : (p : ℕ) (qs : List ℕ) → 0 < length (insert_sorted p qs)
unfolding insert_sorted
length-insert_sorted p [] = omega arith
length-insert_sorted p (q ∷ qs) = ground arith

pub unique_sorted-nonempty :
    (gp : PortMapping) (ports : List PortMapping) → 0 < length (unique_sorted (gp ∷ ports))
unfolding unique_sorted
unique_sorted-nonempty gp ports = length-insert_sorted gp.port _
