-- ===== src/Placement/Pending.antt =====
-- The ports that are allocated and not yet stored (pendingPorts of controller/cluster/placement.go).
use game_janitor.Base.{
  ℕ, String, ◌≡◌, ap, ◌∙◌, refl, ◌≢◌, inl, inr, true, false, List, [], ◌∷◌, none, some, arith, elem,
  elem-append, All, Bool-cases, Option-cases, ◌==◌, str_eq, eq_iff, eq_refl, lookup, insert, delete,
  lookup-delete, lookup-insert, keep, not, if◌then◌else◌,
}
use game_janitor.Model.{PortMapping, Gameserver}
use game_janitor.Store.Laws.{create_gameserver-rows, listed_head}
use game_janitor.Store.{Store, list_gameservers, create_gameserver}
use game_janitor.Placement.Assign.{port_numbers}
use game_janitor.Placement.Blocks.{IsFreePort, Allocates, allocate_ports-Allocates}
use game_janitor.Placement.{
  Placement, ok, used_ports, reserved_ports, row_ports, port_range_for_node, allocate_in,
  allocate_ports, commit_ports, release_ports,
}

-- A port that is pending for another gameserver is among the reserved ports.
reserved_of_lookup :
    (id exclude_id : String) (ports : List ℕ) (m : List (String × List ℕ)) (n : ℕ)
    → lookup id m ≡ some ports
    → id ≢ exclude_id
    → elem n ports ≡ true
    → elem n (reserved_ports exclude_id m) ≡ true
unfolding reserved_ports lookup
reserved_of_lookup id exclude_id ports [] n e h k = cc
reserved_of_lookup id exclude_id ports ((j, w) ∷ m) n e h k = ground (
  arith,
  eq_iff j id,
  eq_iff j exclude_id,
  elem-append n w (reserved_ports exclude_id m),
  reserved_of_lookup id exclude_id ports m n,
)

-- So it is in use, on every node.
used_of_pending :
    (p : Placement) (node_id exclude_id id : String) (ports used : List ℕ) (n : ℕ)
    → lookup id p.pending_ports ≡ some ports
    → id ≢ exclude_id
    → used_ports p node_id exclude_id ≡ some used
    → elem n ports ≡ true
    → elem n used ≡ true
unfolding used_ports
used_of_pending p node_id exclude_id id ports used n e h u k =
    elim (Option-cases (
      list_gameservers p.store
        (if str_eq p.settings.port_uniqueness "node" then some node_id else none))) [
          | inl f ↦ cc (rw (f, used_ports) at u)
          | inr (rows, f) ↦ ground (
            arith,
            f,
            rw (f, used_ports) at u,
            elem-append n (row_ports exclude_id rows) (reserved_ports exclude_id p.pending_ports),
            reserved_of_lookup id exclude_id ports p.pending_ports n e h k,
          )
        ]

-- A successful allocation under an id is pending under that id.
allocate_in-pending :
    (p q : Placement) (range : ℕ × ℕ) (used : List ℕ) (id : String)
    (ports mapped : List PortMapping)
    → id ≢ ""
    → allocate_in p ports range used id ≡ ok (mapped, q)
    → (q.pending_ports ≡ insert id (port_numbers mapped) p.pending_ports)
      × (q.store ≡ p.store)
      × (q.settings ≡ p.settings)
unfolding allocate_in
allocate_in-pending p q range used id ports mapped h e = ground (arith, eq_iff id "")

allocate_ports-pending :
    (p q : Placement) (gp : PortMapping) (ports mapped : List PortMapping)
    (node_id exclude_id id : String)
    → id ≢ ""
    → allocate_ports p (gp ∷ ports) node_id exclude_id id ≡ ok (mapped, q)
    → (q.pending_ports ≡ insert id (port_numbers mapped) p.pending_ports)
      × (q.store ≡ p.store)
      × (q.settings ≡ p.settings)
unfolding allocate_ports
allocate_ports-pending p q gp ports mapped node_id exclude_id id h e =
    elim (Option-cases (used_ports p node_id exclude_id)) [
      | inl f ↦ cc (rw (f, allocate_ports) at e)
      | inr (used, f) ↦
          allocate_in-pending p q (port_range_for_node p node_id) used id (gp ∷ ports) mapped h
            (rw (f, allocate_ports) at e)
    ]

-- The ports of a successful allocation are free for the caller.
allocate_ports-free :
    (p q : Placement) (gp : PortMapping) (ports mapped : List PortMapping)
    (node_id exclude_id id : String) (used : List ℕ)
    → used_ports p node_id exclude_id ≡ some used
    → allocate_ports p (gp ∷ ports) node_id exclude_id id ≡ ok (mapped, q)
    → All (IsFreePort (port_range_for_node p node_id) used) mapped
allocate_ports-free p q gp ports mapped node_id exclude_id id used f e =
    let a : Allocates p (port_range_for_node p node_id) used (gp ∷ ports) (ok (mapped, q)) =
      rw e at (allocate_ports-Allocates p gp ports node_id exclude_id id used f) in
    a.free

apart :
    (range : ℕ × ℕ) (used : List ℕ) (taken : List ℕ) (mapped : List PortMapping)
    → ((n : ℕ) → elem n taken ≡ true → elem n used ≡ true)
    → All (IsFreePort range used) mapped
    → All (λ m. elem m.port taken ≡ false) mapped
apart range used taken [] sub h = tt
apart range used taken (m ∷ ms) sub ((lo, hi, free), hs) = (
  elim (Bool-cases (elem m.port taken)) [
    | inl yes' ↦ absurd (cc (sub m.port yes'))
    | inr no' ↦ no'
  ],
  apart range used taken ms sub hs,
)

succeeds-used :
    (p q : Placement) (gp : PortMapping) (ports mapped : List PortMapping)
    (node_id exclude_id id : String)
    → allocate_ports p (gp ∷ ports) node_id exclude_id id ≡ ok (mapped, q)
    → (used : List ℕ) × (used_ports p node_id exclude_id ≡ some used)
unfolding allocate_ports
succeeds-used p q gp ports mapped node_id exclude_id id e =
    elim (Option-cases (used_ports p node_id exclude_id)) [
      | inl f ↦ cc (rw (f, allocate_ports) at e)
      | inr found ↦ found
    ]

-- What happens to the placement between two moments, other than a commit or a release of `id`, or an
-- allocation under it: allocations for others, which of them are committed or released, and changes of
-- the database.
pub data Others (id : String) (p : Placement) : Placement → Type 0 where
  none_yet : Others id p p
  allocated :
      (ports mapped : List PortMapping) (node_id exclude_id other : String) {q r : Placement}
      → other ≢ id
      → allocate_ports q ports node_id exclude_id other ≡ ok (mapped, r)
      → Others id p q
      → Others id p r
  committed :
      (other : String) {q : Placement}
      → other ≢ id
      → Others id p q
      → Others id p (commit_ports other q)
  released :
      (other : String) {q : Placement}
      → other ≢ id
      → Others id p q
      → Others id p (release_ports other q)
  stored : (s : Store) {q : Placement} → Others id p q → Others id p (record q { store = s })

-- An allocation under another id leaves the ports that are pending under this one.
allocate_in-others :
    (p q : Placement) (range : ℕ × ℕ) (used : List ℕ) (id other : String)
    (ports mapped : List PortMapping)
    → other ≢ id
    → allocate_in p ports range used other ≡ ok (mapped, q)
    → lookup id q.pending_ports ≡ lookup id p.pending_ports
unfolding allocate_in
allocate_in-others p q range used id other ports mapped h e = elim (Bool-cases (str_eq other "")) [
  | inl f ↦ ground (arith, f)
  | inr f ↦
      let kept =
        (allocate_in-pending p q range used other ports mapped (λ g. cc ((eq_iff other "").1 g))
          e).0 in
      ap (lookup id) kept
      ∙ (lookup-insert other id (port_numbers mapped) p.pending_ports
          ∙ ground (arith, eq_iff other id))
]

allocate_ports-others :
    (p q : Placement) (ports mapped : List PortMapping) (node_id exclude_id id other : String)
    → other ≢ id
    → allocate_ports p ports node_id exclude_id other ≡ ok (mapped, q)
    → lookup id q.pending_ports ≡ lookup id p.pending_ports
unfolding allocate_ports
allocate_ports-others p q [] mapped node_id exclude_id id other h e = ground arith
allocate_ports-others p q (gp ∷ ports) mapped node_id exclude_id id other h e =
    elim (Option-cases (used_ports p node_id exclude_id)) [
      | inl f ↦ cc (rw (f, allocate_ports) at e)
      | inr (used, f) ↦
          allocate_in-others p q (port_range_for_node p node_id) used id other (gp ∷ ports) mapped h
            (rw (f, allocate_ports) at e)
    ]

delete-others :
    (id other : String) (m : List (String × List ℕ))
    → other ≢ id
    → lookup id (delete other m) ≡ lookup id m
delete-others id other m h = ground (arith, eq_iff other id, lookup-delete other id m)

Others-pending :
    (id : String) (p q : Placement)
    → Others id p q
    → lookup id q.pending_ports ≡ lookup id p.pending_ports
unfolding commit_ports release_ports
Others-pending id p q none_yet = refl
Others-pending id p q (allocated ports mapped node_id exclude_id other {q = k} h e run) =
    allocate_ports-others k q ports mapped node_id exclude_id id other h e
    ∙ Others-pending id p k run
Others-pending id p q (committed other {q = k} h run) =
    delete-others id other k.pending_ports h ∙ Others-pending id p k run
Others-pending id p q (released other {q = k} h run) =
    delete-others id other k.pending_ports h ∙ Others-pending id p k run
Others-pending id p q (stored s {q = k} run) = Others-pending id p k run

-- Of any number of gameservers that are being created at once, no two get one host port: from an
-- allocation for `id` until it is committed or released, whatever is allocated, committed and released
-- for others and however the database changes, an allocation on any node, which excludes no
-- gameserver, has none of its ports. This holds under either uniqueness setting.
pub allocate_ports-apart :
    (p q r t : Placement) (gp gp' : PortMapping) (ports ports' mapped mapped' : List PortMapping)
    (node_id node_id' exclude_id id id' : String)
    → id ≢ ""
    → allocate_ports p (gp ∷ ports) node_id exclude_id id ≡ ok (mapped, q)
    → Others id q r
    → allocate_ports r (gp' ∷ ports') node_id' "" id' ≡ ok (mapped', t)
    → All (λ m. elem m.port (port_numbers mapped) ≡ false) mapped'
allocate_ports-apart p q r t gp gp' ports ports' mapped mapped' node_id node_id' exclude_id id id' h
      e run e' =
    let (used, f) = succeeds-used r t gp' ports' mapped' node_id' "" id' e' in
    let reserved : lookup id q.pending_ports ≡ some (port_numbers mapped) =
      rw ((allocate_ports-pending p q gp ports mapped node_id exclude_id id h e).0)
        (rw lookup-insert (rw eq_refl)) in
    let tracked : lookup id r.pending_ports ≡ some (port_numbers mapped) =
      Others-pending id q r run ∙ reserved in
    apart (port_range_for_node r node_id') used (port_numbers mapped) mapped'
      (λ n. used_of_pending r node_id' "" id (port_numbers mapped) used n tracked h f)
      (allocate_ports-free r t gp' ports' mapped' node_id' "" id' used f e')

elem-keep_nonzero :
    (n : ℕ) (ns : List ℕ) → n ≢ 0 → elem n ns ≡ true → elem n (keep (λ k. not (k == 0)) ns) ≡ true
elem-keep_nonzero n [] nz h = h
elem-keep_nonzero n (k ∷ ks) nz h = ground (arith, elem-keep_nonzero n ks nz)

row_ports-head :
    (gs : Gameserver) (rows : List Gameserver) (exclude_id : String) (n : ℕ)
    → gs.id ≢ exclude_id
    → n ≢ 0
    → elem n (port_numbers gs.ports) ≡ true
    → elem n (row_ports exclude_id (gs ∷ rows)) ≡ true
unfolding row_ports
row_ports-head gs rows exclude_id n h nz k = ground (
  arith,
  eq_iff gs.id exclude_id,
  elem-append n (keep (λ k. not (k == 0)) (port_numbers gs.ports)) (row_ports exclude_id rows),
  elem-keep_nonzero n (port_numbers gs.ports) nz k,
)

-- Once the row is stored, committing keeps its ports in use: with cluster-wide port uniqueness,
-- where the listing answers, every nonzero port of the stored row is still in use for every
-- other gameserver and on every node.
pub commit-used :
    (p : Placement) (s : Store) (gs : Gameserver) (node_id exclude_id : String) (n : ℕ)
    (used : List ℕ)
    → create_gameserver gs p.store ≡ some s
    → str_eq p.settings.port_uniqueness "node" ≡ false
    → gs.id ≢ exclude_id
    → used_ports (commit_ports gs.id (record p { store = s })) node_id exclude_id ≡ some used
    → elem n (port_numbers gs.ports) ≡ true
    → n ≢ 0
    → elem n used ≡ true
unfolding used_ports commit_ports
commit-used p s gs node_id exclude_id n used c u h e k nz =
    elim (Option-cases (list_gameservers s none)) [
      | inl f ↦ cc (rw (f, used_ports) at (rw (u, used_ports) at e))
      | inr (rows, f) ↦
          let (later, g) =
            listed_head s gs p.store.gameservers rows (create_gameserver-rows gs p.store s c) f in
          let rest = reserved_ports exclude_id (delete gs.id p.pending_ports) in
          ground (
            arith,
            rw (f, used_ports) at (rw (u, used_ports) at e),
            elem-append n (row_ports exclude_id rows) rest,
            row_ports-head gs later exclude_id n h nz k,
          )
    ]

-- Releasing, as committing, takes exactly this gameserver's pending ports away.
pub release_ports-pending :
    (p : Placement) (id j : String)
    → (lookup j (release_ports id p).pending_ports
        ≡ (if str_eq id j then none else lookup j p.pending_ports))
      × (lookup j (commit_ports id p).pending_ports
          ≡ (if str_eq id j then none else lookup j p.pending_ports))
      × ((release_ports id p).store ≡ p.store)
unfolding release_ports commit_ports
release_ports-pending p id j =
    (lookup-delete id j p.pending_ports, lookup-delete id j p.pending_ports, refl)
