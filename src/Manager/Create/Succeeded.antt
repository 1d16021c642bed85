-- ===== src/Manager/Create/Succeeded.antt =====
-- What Create (controller/gameserver/manager.go) did where it succeeded, and what of the request it
-- takes over unchecked.
use game_janitor.Base.{
  String, ◌≡◌, sym, ap, ◌∙◌, Option, List, [], map, Option-cases, inl, inr, arith,
}
use game_janitor.Model.{Gameserver, PortMapping}
use game_janitor.Store.{create_gameserver}
use game_janitor.Games.{Game}
use game_janitor.Access.{Token}
use game_janitor.Placement.{Placement, ok, place_gameserver}
use game_janitor.Placement.Kept.{is_placed-cases}
use game_janitor.Dispatcher.{rank_workers_for_placement}
use game_janitor.Live.Config.{apply_overrides}
use game_janitor.Manager.{Manager}
use game_janitor.Manager.Request.{Request, Checked, passed, rejected}
use game_janitor.Manager.Request.Laws.{Checked-cases, and_then-passed, passed-same}
use game_janitor.Manager.Create.Complete.{IsComplete, complete-IsComplete}
use game_janitor.Manager.Create.{
  Answers, draft, prepare, complete, fail, store_row, store_completed, create_placed, placed_row,
  place_draft, create, apply_game_defaults, autogenerate_all, default_env,
}

-- The candidates for a gameserver.
abbrev pub candidates_for : Manager → Gameserver → List String
candidates_for m gs =
    map (λ c. c.node_id) (rank_workers_for_placement m.placement.store m.registry gs.node_tags)

-- The way of a request that succeeded.
pub record Succeeds (a : Answers) (token : Option Token) (r : Request) (m : Manager)
    (gs : Gameserver) : Type 0 where
  pub game : Game
  pub prepared : prepare a token r m.placement.store ≡ passed game
  pub node_id : String
  pub ports : Option (List PortMapping)
  pub placement : Placement
  pub placed :
      place_gameserver m.placement game.default_ports
        (draft a token r)
        (candidates_for m (draft a token r))
      ≡ ok (node_id, ports, placement)
  pub worker : String
  pub completed :
      IsComplete a game
        (placed_row node_id ports (draft a token r))
        gs
        worker
        (record m { placement = placement })

store_row-outcome :
    (row gs : Gameserver) (w : String) (m : Manager)
    → (store_row row w m).outcome ≡ passed gs
    → row ≡ gs
unfolding store_row fail
store_row-outcome row gs w m e = elim (Option-cases (create_gameserver row m.placement.store)) [
  | inl f ↦ absurd (ground (arith, f, e))
  | inr (s, f) ↦ ground (arith, f, e)
]

store_completed-outcome :
    (done : Checked {0} (Gameserver × String)) (id : String) (gs : Gameserver) (m : Manager)
    → (store_completed done id m).outcome ≡ passed gs
    → (w : String) × (done ≡ passed (gs, w))
unfolding store_completed fail
store_completed-outcome (rejected reason) id gs m e = absurd cc
store_completed-outcome (passed (row, w)) id gs m e =
    (w, ap (λ x. passed (x, w)) (store_row-outcome row gs w m e))

place_draft-Succeeds :
    (a : Answers) (token : Option Token) (r : Request) (m : Manager) (game : Game) (gs : Gameserver)
    → prepare a token r m.placement.store ≡ passed game
    → (place_draft a game (draft a token r) m).outcome ≡ passed gs
    → Succeeds a token r m gs
unfolding place_draft create_placed
place_draft-Succeeds a token r m game gs prepared e =
    let new = draft a token r in
    elim (is_placed-cases
      (place_gameserver m.placement game.default_ports new (candidates_for m new))) [
        | inr (why, f) ↦ absurd (ground (arith, f, e))
        | inl ((node_id, ports, p), f) ↦
            let n : Manager = record m { placement = p } in
            let row = placed_row node_id ports new in
            let (w, done) =
              store_completed-outcome (complete a game row n) row.id gs n
                (rw (f, place_draft) at e) in
            record {
              game = game;
              prepared = prepared;
              node_id = node_id;
              ports = ports;
              placement = p;
              placed = f;
              worker = w;
              completed = complete-IsComplete a game row gs w n done;
            }
      ]

pub create-Succeeds :
    (a : Answers) (token : Option Token) (r : Request) (m : Manager) (gs : Gameserver)
    → (create a token r m).outcome ≡ passed gs
    → Succeeds a token r m gs
unfolding create
create-Succeeds a token r m gs e = elim (Checked-cases (prepare a token r m.placement.store)) [
  | inl (game, f) ↦ place_draft-Succeeds a token r m game gs f (rw (f, create) at e)
  | inr (reason, f) ↦ absurd (ground (arith, f, e))
]

filled_from :
    (passwords : String → Option String) (game : Game) (gs row : Gameserver)
    → apply_game_defaults passwords game gs ≡ passed row
    → record gs { ports = row.ports; env = row.env } ≡ row
unfolding apply_game_defaults
filled_from passwords game gs row e =
    let env = apply_overrides gs.env (default_env game.default_env []) in
    let (full, _, e1) = and_then-passed (autogenerate_all passwords game.default_env env) _ row e in
    ap (λ x. record gs { ports = x.ports; env = x.env }) (sym (passed-same e1)) ∙ passed-same e1

-- A created gameserver is the draft of the request, but for its node, ports and environment.
pub Succeeds-draft :
    (a : Answers) (token : Option Token) (r : Request) (m : Manager) (gs : Gameserver)
    → Succeeds a token r m gs
    → record (draft a token r) { node_id = gs.node_id; ports = gs.ports; env = gs.env } ≡ gs
unfolding placed_row
Succeeds-draft a token r m gs done =
    let row = placed_row done.node_id done.ports (draft a token r) in
    let same = filled_from a.passwords done.game row gs done.completed.filled in
    ap (λ x. record (draft a token r) { node_id = x.node_id; ports = gs.ports; env = gs.env })
      (sym same)
    ∙ same

pub Succeeds-node :
    (a : Answers) (token : Option Token) (r : Request) (m : Manager) (gs : Gameserver)
    (done : Succeeds a token r m gs)
    → gs.node_id ≡ (placed_row done.node_id done.ports (draft a token r)).node_id
Succeeds-node a token r m gs done =
    let row = placed_row done.node_id done.ports (draft a token r) in
    ap (λ x. x.node_id) (sym (filled_from a.passwords done.game row gs done.completed.filled))

-- A created gameserver has the instance id, the installed flag, the error reason and the applied
-- configuration that the request names, whatever they are.
pub create-takes_over :
    (a : Answers) (token : Option Token) (r : Request) (m : Manager) (gs : Gameserver)
    → (create a token r m).outcome ≡ passed gs
    → (gs.instance_id ≡ r.instance_id)
      × (gs.installed ≡ r.installed)
      × (gs.error_reason ≡ r.error_reason)
      × (gs.applied_config ≡ r.applied_config)
unfolding draft
create-takes_over a token r m gs e =
    let same = sym (Succeeds-draft a token r m gs (create-Succeeds a token r m gs e)) in
    (
      ap (λ x. x.instance_id) same,
      ap (λ x. x.installed) same,
      ap (λ x. x.error_reason) same,
      ap (λ x. x.applied_config) same,
    )
