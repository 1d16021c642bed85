-- ===== src/Manager/Create/Outcome.antt =====
-- Create (controller/gameserver/manager.go) does all of its work or none of it.
use game_janitor.Base.{
  String, ◌≡◌, refl, sym, ap, ◌∙◌, subst, false, if◌then◌else◌, Option, none, [], ◌∷◌, str_eq,
  lookup, insert, Bool-cases, Option-cases, inl, inr, eq_iff, map,
}
use game_janitor.Model.{Gameserver}
use game_janitor.Store.{Query, create_gameserver, with_row}
use game_janitor.Store.Laws.{create_gameserver-with_row}
use game_janitor.Store.Frame.{with_row-Keeps, with_row-Stored}
use game_janitor.Live.{new_live, set_worker}
use game_janitor.Games.{Game}
use game_janitor.Access.{Token}
use game_janitor.Placement.{Placement, place_gameserver, commit_ports}
use game_janitor.Placement.Pending.{release_ports-pending}
use game_janitor.Placement.Kept.{KeepsOthers, place_gameserver-KeepsOthers, is_placed-cases}
use game_janitor.Dispatcher.{rank_workers_for_placement}
use game_janitor.Manager.{Manager}
use game_janitor.Manager.Synced.{IsSynced, Synced, insert-Synced}
use game_janitor.Manager.Request.Laws.{Checked-cases}
use game_janitor.Manager.Request.{Request, Checked, passed, rejected, Refusal, save_failed}
use game_janitor.Manager.Create.Complete.{complete-IsComplete, filled-id}
use game_janitor.Manager.Create.{
  Answers, draft, prepare, complete, Created, fail, store_row, store_completed, create_placed,
  placed_row, place_draft, create,
}

-- The placement has the store and the pending ports of another.
abbrev pub SamePlacement : Placement → Placement → Type 0
SamePlacement p q =
    (q.store ≡ p.store) × ((j : String) → lookup j q.pending_ports ≡ lookup j p.pending_ports)

-- Nothing is left of a call.
abbrev pub LeavesNothing : Manager → Created → Type 0
LeavesNothing m c =
    SamePlacement m.placement c.manager.placement × (c.manager.lives ≡ m.lives) × (c.volumes ≡ [])

-- A gameserver was created: its row is in the database, its object in the map with a worker, its
-- volume on that worker, and its ports are no longer pending.
abbrev pub HasCreated : String → Manager → Gameserver → Created → Type 0
HasCreated id m gs c =
    (gs.id ≡ id)
    × (c.manager.placement.store ≡ with_row gs m.placement.store)
    × ((j : String)
        → lookup j c.manager.placement.pending_ports ≡ lookup j m.placement.pending_ports)
    × ((w : String) × (c.volumes ≡ w ∷ [])
        × (c.manager.lives ≡ insert id (set_worker w (new_live gs)) m.lives))

-- What a call comes to: all of it, or nothing.
abbrev pub OutcomeOf : Checked {0} Gameserver → String → Manager → Created → Type 0
OutcomeOf (passed gs) id m c = HasCreated id m gs c
OutcomeOf (rejected reason) id m c = LeavesNothing m c

abbrev pub AllOrNothing : String → Manager → Created → Type 0
AllOrNothing id m c = OutcomeOf c.outcome id m c

-- Ports that are released or committed under a fresh id are as they were.
restored :
    (id j : String) (p q : Placement)
    → lookup id p.pending_ports ≡ none
    → KeepsOthers id p q
    → (if str_eq id j then none else lookup j q.pending_ports) ≡ lookup j p.pending_ports
restored id j p q fresh (same, others) = elim (Bool-cases (str_eq id j)) [
  | inl e ↦ rw e (sym fresh ∙ ap (λ k. lookup k p.pending_ports) ((eq_iff id j).0 e))
  | inr e ↦ rw e (others j e)
]

fail-LeavesNothing :
    (reason : Refusal) (id : String) (m n : Manager)
    → lookup id m.placement.pending_ports ≡ none
    → KeepsOthers id m.placement n.placement
    → n.lives ≡ m.lives
    → LeavesNothing m (fail reason id n)
unfolding fail
fail-LeavesNothing reason id m n fresh keeps lives = (
  (
    (release_ports-pending n.placement id id).2 ∙ keeps.0,
    λ j.
        (release_ports-pending n.placement id j).0
        ∙ restored id j m.placement n.placement fresh keeps,
  ),
  lives,
  refl,
)

store_row-AllOrNothing :
    (gs : Gameserver) (w : String) (m n : Manager)
    → lookup gs.id m.placement.pending_ports ≡ none
    → KeepsOthers gs.id m.placement n.placement
    → n.lives ≡ m.lives
    → AllOrNothing gs.id m (store_row gs w n)
unfolding store_row commit_ports
store_row-AllOrNothing gs w m n fresh keeps lives =
    let q = n.placement in
    elim (Option-cases (create_gameserver gs q.store)) [
      | inl e ↦ rw (e, store_row) (fail-LeavesNothing save_failed gs.id m n fresh keeps lives)
      | inr (s, e) ↦
          let stored : Placement = record q { store = s } in
          rw (e, store_row)
            (
              refl,
              create_gameserver-with_row gs q.store s e ∙ ap (with_row gs) keeps.0,
              (λ j.
                  (release_ports-pending stored gs.id j).1
                  ∙ restored gs.id j m.placement q fresh keeps),
              (w, refl, ap (insert gs.id (set_worker w (new_live gs))) lives),
            )
    ]

store_completed-AllOrNothing :
    (a : Answers) (game : Game) (gs : Gameserver) (m n : Manager)
    (done : Checked (Gameserver × String))
    → complete a game gs n ≡ done
    → lookup gs.id m.placement.pending_ports ≡ none
    → KeepsOthers gs.id m.placement n.placement
    → n.lives ≡ m.lives
    → AllOrNothing gs.id m (store_completed done gs.id n)
unfolding store_completed
store_completed-AllOrNothing a game gs m n (rejected reason) e fresh keeps lives =
    fail-LeavesNothing reason gs.id m n fresh keeps lives
store_completed-AllOrNothing a game gs m n (passed (row, w)) e fresh keeps lives =
    let own : row.id ≡ gs.id =
      filled-id a.passwords game gs row (complete-IsComplete a game gs row w n e).filled in
    subst (λ id. AllOrNothing id m (store_row row w n)) own
      (store_row-AllOrNothing row w m n (ap (λ id. lookup id m.placement.pending_ports) own ∙ fresh)
        (subst (λ id. KeepsOthers id m.placement n.placement) (sym own) keeps) lives)

place_draft-AllOrNothing :
    (a : Answers) (game : Game) (gs : Gameserver) (m : Manager)
    → lookup gs.id m.placement.pending_ports ≡ none
    → AllOrNothing gs.id m (place_draft a game gs m)
unfolding place_draft create_placed placed_row
place_draft-AllOrNothing a game gs m fresh =
    let ranked = rank_workers_for_placement m.placement.store m.registry gs.node_tags in
    elim (is_placed-cases
      (place_gameserver m.placement game.default_ports gs (map (λ c. c.node_id) ranked))) [
        | inr (why, e) ↦ rw (e, place_draft) ((refl, λ j. refl), refl, refl)
        | inl ((node_id, ports, p), e) ↦
            let n : Manager = record m { placement = p } in
            let row = placed_row node_id ports gs in
            rw (e, place_draft)
              (store_completed-AllOrNothing a game row m n (complete a game row n) refl fresh
                (place_gameserver-KeepsOthers m.placement p game.default_ports gs
                  (map (λ c. c.node_id) ranked) node_id ports e)
                refl)
      ]

-- Create does all of its work or none of it, for an id under which no ports are pending. Where it
-- succeeds, the gameserver has that id, its row is added to the database, its object to the map with
-- the worker that has its volume, and the pending ports are as before. Where it fails, the database,
-- the map and the pending ports are as before, and no volume is left if its removal succeeds.
pub create-AllOrNothing :
    (a : Answers) (token : Option Token) (r : Request) (m : Manager)
    → lookup a.id m.placement.pending_ports ≡ none
    → AllOrNothing a.id m (create a token r m)
unfolding create draft
create-AllOrNothing a token r m fresh = elim (Checked-cases (prepare a token r m.placement.store)) [
  | inl (game, e) ↦ rw (e, create) (place_draft-AllOrNothing a game (draft a token r) m fresh)
  | inr (reason, e) ↦ rw (e, create) ((refl, λ j. refl), refl, refl)
]

unchanged-IsSynced :
    (m n : Manager)
    → n.placement.store ≡ m.placement.store
    → n.lives ≡ m.lives
    → IsSynced m
    → IsSynced n
unchanged-IsSynced m n s l h =
    subst (λ x. Synced x n.lives) (sym s) (subst (λ x. Synced m.placement.store x) (sym l) h)

created-IsSynced :
    (id : String) (m : Manager) (gs : Gameserver) (c : Created)
    → ((q : Query) → m.placement.store.fails q ≡ false)
    → HasCreated id m gs c
    → IsSynced m
    → IsSynced c.manager
unfolding set_worker new_live
created-IsSynced id m gs c answers (own, stored, _, (w, _, lives)) h =
    subst (λ s. Synced s c.manager.lives) (sym stored)
      (subst (λ l. Synced (with_row gs m.placement.store) l) (sym lives)
        (subst
          (λ k.
            Synced (with_row gs m.placement.store) (insert k (set_worker w (new_live gs)) m.lives))
          own
          (insert-Synced gs.id (set_worker w (new_live gs)) m.placement.store
            (with_row gs m.placement.store) m.lives refl
            (with_row-Stored gs m.placement.store answers) (with_row-Keeps gs m.placement.store)
            h)))

outcome-IsSynced :
    (outcome : Checked {0} Gameserver) (id : String) (m : Manager) (c : Created)
    → ((q : Query) → m.placement.store.fails q ≡ false)
    → OutcomeOf outcome id m c
    → IsSynced m
    → IsSynced c.manager
outcome-IsSynced (passed gs) id m c answers h = created-IsSynced id m gs c answers h
outcome-IsSynced (rejected reason) id m c answers ((stored, _), lives, _) =
    unchanged-IsSynced m c.manager stored lives

pub create-IsSynced :
    (a : Answers) (token : Option Token) (r : Request) (m : Manager)
    → lookup a.id m.placement.pending_ports ≡ none
    → ((q : Query) → m.placement.store.fails q ≡ false)
    → IsSynced m
    → IsSynced (create a token r m).manager
create-IsSynced a token r m fresh answers =
    let c = create a token r m in
    outcome-IsSynced c.outcome a.id m c answers (create-AllOrNothing a token r m fresh)
