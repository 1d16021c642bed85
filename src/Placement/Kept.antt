-- ===== src/Placement/Kept.antt =====
-- A placement (controller/cluster/placement.go) changes nothing but the pending ports of the
-- gameserver that it is for.
use game_janitor.Base.{
  ℕ, String, ◌≡◌, refl, false, if◌then◌else◌, Option, none, some, List, [], ◌∷◌, str_eq, lookup,
  lookup-insert, Bool-cases, Option-cases, inl, inr, arith, ◌∙◌, ◌⊎◌, map, subst,
}
use game_janitor.Model.{Gameserver, PortMapping}
use game_janitor.Placement.Capacity.{place_on_node-Passed}
use game_janitor.Placement.{
  Placement, Placed, Result, Error, ok, err, track, allocate_in, allocate_ports, ports_on,
  place_on_node, place_auto, place_ranked, place_gameserver, used_ports, port_range_for_node,
  limits_error,
}

abbrev pub KeepsOthers : String → Placement → Placement → Type 0
KeepsOthers id p q =
    (q.store ≡ p.store)
    × ((j : String) → str_eq id j ≡ false → lookup j q.pending_ports ≡ lookup j p.pending_ports)

kept_self : (id : String) (p : Placement) → KeepsOthers id p p
kept_self id p = (refl, λ j other. refl)

track-KeepsOthers :
    (id : String) (ports : List PortMapping) (p : Placement) → KeepsOthers id p (track id ports p)
unfolding track
track-KeepsOthers id ports p = elim (Bool-cases (str_eq id "")) [
  | inl e ↦ rw e (kept_self id p)
  | inr e ↦ rw e (
    refl,
    λ j other. rw (lookup-insert id j (map (λ m. m.port) ports) p.pending_ports) (rw other refl),
  )
]

allocate_in-KeepsOthers :
    (p q : Placement) (ports mapped : List PortMapping) (range : ℕ × ℕ) (used : List ℕ)
    (id : String)
    → allocate_in p ports range used id ≡ ok (mapped, q)
    → KeepsOthers id p q
unfolding allocate_in
allocate_in-KeepsOthers p q ports mapped range used id e =
    let tracked : track id mapped p ≡ q = ground arith in
    subst (λ x. KeepsOthers id p x) tracked (track-KeepsOthers id mapped p)

allocate_ports-KeepsOthers :
    (p q : Placement) (ports mapped : List PortMapping) (node_id exclude_id id : String)
    → allocate_ports p ports node_id exclude_id id ≡ ok (mapped, q)
    → KeepsOthers id p q
unfolding allocate_ports
allocate_ports-KeepsOthers p q [] mapped node_id exclude_id id e =
    let same : p ≡ q = ground arith in subst (λ x. KeepsOthers id p x) same (kept_self id p)
allocate_ports-KeepsOthers p q (gp ∷ ports) mapped node_id exclude_id id e =
    elim (Option-cases (used_ports p node_id exclude_id)) [
      | inl f ↦ cc (rw (f, allocate_ports) at e)
      | inr (used, f) ↦
          allocate_in-KeepsOthers p q (gp ∷ ports) mapped (port_range_for_node p node_id) used id
            (rw (f, allocate_ports) at e)
    ]

-- The result of an allocation, as a placement.
abbrev placed_by : String → Result (List PortMapping × Placement) → Result Placed
placed_by node_id r = elim r [ ok (mapped, q) ↦ ok (node_id, some mapped, q) | err e ↦ err e ]

allocated_kept :
    (p q : Placement) (gs : Gameserver) (node_id chosen : String)
    (mapped : Option (List PortMapping)) (r : Result (List PortMapping × Placement))
    → ((m : List PortMapping) (x : Placement) → r ≡ ok (m, x) → KeepsOthers gs.id p x)
    → placed_by node_id r ≡ ok (chosen, mapped, q)
    → KeepsOthers gs.id p q
allocated_kept p q gs node_id chosen mapped (ok (m, x)) h e =
    let same : x ≡ q = cc in subst (λ y. KeepsOthers gs.id p y) same (h m x refl)
allocated_kept p q gs node_id chosen mapped (err r) h e = absurd cc

ports_on-KeepsOthers :
    (p q : Placement) (ports : List PortMapping) (gs : Gameserver) (node_id chosen : String)
    (mapped : Option (List PortMapping))
    → ports_on p ports gs node_id ≡ ok (chosen, mapped, q)
    → KeepsOthers gs.id p q
unfolding ports_on
ports_on-KeepsOthers p q ports gs node_id chosen mapped e =
    elim (Bool-cases (str_eq gs.port_mode "auto")) [
      | inr f ↦
          let same : p ≡ q = ground (arith, f, e) in
          subst (λ x. KeepsOthers gs.id p x) same (kept_self gs.id p)
      | inl f ↦
          allocated_kept p q gs node_id chosen mapped (allocate_ports p ports node_id "" gs.id)
            (λ m x h. allocate_ports-KeepsOthers p x ports m node_id "" gs.id h)
            (rw (f, ports_on) at e)
    ]

place_on_node-KeepsOthers :
    (p q : Placement) (ports : List PortMapping) (gs : Gameserver) (node_id chosen : String)
    (mapped : Option (List PortMapping))
    → place_on_node p ports gs node_id ≡ ok (chosen, mapped, q)
    → KeepsOthers gs.id p q
unfolding place_on_node
place_on_node-KeepsOthers p q ports gs node_id chosen mapped e =
    ports_on-KeepsOthers p q ports gs node_id chosen mapped (ground arith)

pub is_placed-cases {ℓ} :
    {A : Type ℓ} (r : Result A) → ((a : A) × (r ≡ ok a)) ⊎ ((why : Error) × (r ≡ err why))
is_placed-cases (ok a) = inl (a, refl)
is_placed-cases (err why) = inr (why, refl)

place_auto-KeepsOthers :
    (p q : Placement) (ports : List PortMapping) (gs : Gameserver) (cs : List String)
    (chosen : String) (mapped : Option (List PortMapping))
    → place_auto p ports gs cs ≡ ok (chosen, mapped, q)
    → KeepsOthers gs.id p q
unfolding place_auto
place_auto-KeepsOthers p q ports gs [] chosen mapped e = absurd cc
place_auto-KeepsOthers p q ports gs (c ∷ cs) chosen mapped e =
    elim (Option-cases (if str_eq c "" then none else limits_error p gs c)) [
      | inr (full, f) ↦
          place_auto-KeepsOthers p q ports gs cs chosen mapped (rw (f, place_auto) at e)
      | inl f ↦ elim (is_placed-cases (ports_on p ports gs c)) [
        | inl (placed, g) ↦
            ports_on-KeepsOthers p q ports gs c chosen mapped
              (g ∙ rw (g, place_auto) at (rw (f, place_auto) at e))
        | inr (why, g) ↦
            place_auto-KeepsOthers p q ports gs cs chosen mapped
              (rw (g, place_auto) at (rw (f, place_auto) at e))
      ]
    ]

place_ranked-KeepsOthers :
    (p q : Placement) (ports : List PortMapping) (gs : Gameserver) (cs : List String)
    (chosen : String) (mapped : Option (List PortMapping))
    → place_ranked p ports gs cs ≡ ok (chosen, mapped, q)
    → KeepsOthers gs.id p q
unfolding place_ranked
place_ranked-KeepsOthers p q ports gs [] chosen mapped e = absurd cc
place_ranked-KeepsOthers p q ports gs (c ∷ cs) chosen mapped e =
    place_auto-KeepsOthers p q ports gs (c ∷ cs) chosen mapped e

pub place_gameserver-KeepsOthers :
    (p q : Placement) (ports : List PortMapping) (gs : Gameserver) (cs : List String)
    (chosen : String) (mapped : Option (List PortMapping))
    → place_gameserver p ports gs cs ≡ ok (chosen, mapped, q)
    → KeepsOthers gs.id p q
unfolding place_gameserver
place_gameserver-KeepsOthers p q ports gs cs chosen mapped e = elim (Option-cases gs.node_id) [
  | inl f ↦ place_ranked-KeepsOthers p q ports gs cs chosen mapped (rw (f, place_gameserver) at e)
  | inr (node_id, f) ↦ elim (Bool-cases (str_eq node_id "")) [
    | inl blank ↦
        place_ranked-KeepsOthers p q ports gs cs chosen mapped
          (rw (blank, place_gameserver) at (rw (f, place_gameserver) at e))
    | inr named ↦
        place_on_node-KeepsOthers p q ports gs node_id chosen mapped
          (rw (named, place_gameserver) at (rw (f, place_gameserver) at e))
  ]
]

-- A requested node is the chosen one.
pub place_gameserver-requested :
    (p q : Placement) (ports : List PortMapping) (gs : Gameserver) (cs : List String)
    (node_id chosen : String) (mapped : Option (List PortMapping))
    → gs.node_id ≡ some node_id
    → str_eq node_id "" ≡ false
    → place_gameserver p ports gs cs ≡ ok (chosen, mapped, q)
    → chosen ≡ node_id
unfolding place_gameserver
place_gameserver-requested p q ports gs cs node_id chosen mapped f named e =
    (place_on_node-Passed p q ports gs node_id chosen mapped
      (rw (named, place_gameserver) at (rw (f, place_gameserver) at e))).0
