-- ===== src/Manager/Create/Placed.antt =====
-- Where a created gameserver is (Create of controller/gameserver/manager.go with PlaceGameserver and
-- RankWorkersForPlacement of controller/cluster).
use game_janitor.Base.{
  refl, sym, or_else, String, ◌≡◌, ◌⊎◌, ap, ◌∙◌, subst, true, false, Option, none, some, List,
  Bool-cases, Option-cases, inl, inr, arith, is_some, str_eq, eq_iff, str_elem,
}
use game_janitor.Model.{Gameserver, PortMapping}
use game_janitor.Registry.{get}
use game_janitor.Access.{Token}
use game_janitor.Placement.{limits_error}
use game_janitor.Placement.Capacity.{Passed, place_gameserver-Passed}
use game_janitor.Placement.Kept.{place_gameserver-requested}
use game_janitor.Dispatcher.{select_worker_by_node_id, rank_workers_for_placement}
use game_janitor.Dispatcher.Ranking.{IsEligible, rank_workers-IsRanked, ranked-IsEligible}
use game_janitor.Manager.{Manager}
use game_janitor.Manager.Request.{Request, passed, and_then}
use game_janitor.Manager.Create.{Answers, draft, create, target, placed_row, reachable}
use game_janitor.Manager.Create.Succeeded.{create-Succeeds, candidates_for, Succeeds-node}

-- The node is connected.
abbrev pub IsConnected : Manager → String → Type 0
IsConnected m id = is_some (get id m.registry) ≡ true

select_worker-IsConnected :
    (m : Manager) (node_id w : String)
    → select_worker_by_node_id m.registry node_id ≡ some w
    → (node_id ≡ w) × IsConnected m w
unfolding select_worker_by_node_id
select_worker-IsConnected m node_id w e = elim (Bool-cases (str_eq node_id "")) [
  | inl f ↦ absurd (ground (arith, f, e))
  | inr f ↦ elim (Option-cases (get node_id m.registry)) [
    | inl g ↦ absurd (ground (arith, f, g, e))
    | inr (c, g) ↦
        let same : node_id ≡ w = ground (arith, f, g, e) in
        (same, subst (IsConnected m) same (ap is_some g))
  ]
]

reachable-IsConnected :
    (m : Manager) (node_id w : String)
    → and_then (reachable (select_worker_by_node_id m.registry node_id)) (λ v. passed (some v))
      ≡ passed (some w)
    → (node_id ≡ w) × IsConnected m w
reachable-IsConnected m node_id w e =
    elim (Option-cases (select_worker_by_node_id m.registry node_id)) [
      | inl f ↦ absurd (ground (arith, f, e))
      | inr (v, f) ↦
          let same : v ≡ w = ground (arith, f, e) in
          select_worker-IsConnected m node_id w (f ∙ ap some same)
    ]

target-IsConnected :
    (m : Manager) (gs : Gameserver) (w : String)
    → target m gs ≡ passed (some w)
    → (gs.node_id ≡ some w) × (str_eq w "" ≡ false) × IsConnected m w
unfolding target
target-IsConnected m gs w e = elim (Option-cases gs.node_id) [
  | inl f ↦ absurd (ground (arith, f, e))
  | inr (node_id, f) ↦ elim (Bool-cases (str_eq node_id "")) [
    | inl blank ↦ absurd (ground (arith, f, blank, e))
    | inr named ↦
        let (same, connected) =
          reachable-IsConnected m node_id w (rw (named, target) at (rw (f, target) at e)) in
        (f ∙ ap some same, subst (λ n. str_eq n "" ≡ false) same named, connected)
  ]
]

-- How the node was found: it was asked for or, where none was asked for, it is eligible.
abbrev pub IsChosen : Manager → Gameserver → String → Type 0
IsChosen m gs id =
    (gs.node_id ≡ some id)
    ⊎ ((or_else gs.node_id "" ≡ "") × IsEligible m.placement.store gs.node_tags id)

candidate-IsEligible :
    (m : Manager) (gs : Gameserver) (id : String)
    → str_elem id (candidates_for m gs) ≡ true
    → IsEligible m.placement.store gs.node_tags id
candidate-IsEligible m gs id listed =
    let s = m.placement.store in
    ranked-IsEligible s gs.node_tags id (rank_workers_for_placement s m.registry gs.node_tags)
      (rank_workers-IsRanked s m.registry gs.node_tags).2 listed

IsChosen-of :
    (m : Manager) (gs : Gameserver) (id : String)
    → ((n : String) → gs.node_id ≡ some n → str_eq n "" ≡ false → id ≡ n)
    → (gs.node_id ≡ some id) ⊎ (str_elem id (candidates_for m gs) ≡ true)
    → IsChosen m gs id
IsChosen-of m gs id asked (inl found) = inl found
IsChosen-of m gs id asked (inr listed) = elim (Option-cases gs.node_id) [
  | inl e ↦ inr (rw e refl, candidate-IsEligible m gs id listed)
  | inr (n, e) ↦ elim (Bool-cases (str_eq n "")) [
    | inl blank ↦ inr (rw e ((eq_iff n "").0 blank), candidate-IsEligible m gs id listed)
    | inr full ↦ inl (e ∙ ap some (sym (asked n e full)))
  ]
]

-- The node in a placed row is the one that was chosen.
placed_row-chosen :
    (node_id w : String) (ports : Option (List PortMapping)) (gs : Gameserver)
    → ((n : String) → gs.node_id ≡ some n → str_eq n "" ≡ false → node_id ≡ n)
    → str_eq w "" ≡ false
    → (placed_row node_id ports gs).node_id ≡ some w
    → node_id ≡ w
unfolding placed_row
placed_row-chosen node_id w ports gs asked named e = elim (Bool-cases (str_eq node_id "")) [
  | inl blank ↦ asked w (ground (arith, blank, e)) named
  | inr full ↦ ground (arith, full, e)
]

limits_of :
    (m : Manager) (gs : Gameserver) (id : String)
    → str_eq id "" ≡ false
    → Passed m.placement gs id
    → limits_error m.placement gs id ≡ none
limits_of m gs id named (inl blank) = absurd (ground (arith, named, eq_iff id ""))
limits_of m gs id named (inr h) = h

-- A created gameserver is on a connected node whose limits had room for it. If the request names a
-- node, it is that one; if it names none, it is a node that has the required labels and is not
-- cordoned.
pub create-IsPlaced :
    (a : Answers) (token : Option Token) (r : Request) (m : Manager) (gs : Gameserver)
    → (create a token r m).outcome ≡ passed gs
    → (id : String) × (gs.node_id ≡ some id)
      × IsConnected m id
      × (limits_error m.placement (draft a token r) id ≡ none)
      × IsChosen m (draft a token r) id
create-IsPlaced a token r m gs e =
    let new = draft a token r in
    let done = create-Succeeds a token r m gs e in
    let moved : Manager = record m { placement = done.placement } in
    let row = placed_row done.node_id done.ports new in
    let (on_row, named, connected) =
      target-IsConnected moved row done.worker done.completed.reached in
    let (found, checked) =
      place_gameserver-Passed m.placement done.placement done.game.default_ports new
        (candidates_for m new) done.node_id done.ports done.placed in
    let requested : (n : String) → new.node_id ≡ some n → str_eq n "" ≡ false → done.node_id ≡ n =
      λ n asked full.
        place_gameserver-requested m.placement done.placement done.game.default_ports new
          (candidates_for m new) n done.node_id done.ports asked full done.placed in
    let same : done.node_id ≡ done.worker =
      placed_row-chosen done.node_id done.worker done.ports new requested named on_row in
    (
      done.worker,
      Succeeds-node a token r m gs done ∙ on_row,
      connected,
      limits_of m new done.worker named (subst (Passed m.placement new) same checked),
      subst (IsChosen m new) same (IsChosen-of m new done.node_id requested found),
    )
