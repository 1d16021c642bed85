-- ===== src/Manager/Config/Merged.antt =====
-- What a change of a gameserver that went through (UpdateConfig of controller/gameserver/manager.go)
-- tells of its checks, and what it leaves in the database and in memory.
use game_janitor.Base.{
  String, ◌≡◌, refl, sym, ap, ◌∙◌, subst, Bool, false, if◌then◌else◌, Option, none, some, lookup,
  Bool-cases, Option-cases, inl, inr, arith,
}
use game_janitor.Model.{Gameserver}
use game_janitor.Store.{
  Store, Query, get_gameserver, find_gameserver, update_gameserver, update_query,
}
use game_janitor.Store.Laws.{
  Stored, Stored-update_gameserver, get_gameserver-id, get_gameserver-find,
}
use game_janitor.Store.Frame.{Keeps, Keeps-trans, update_gameserver-Keeps}
use game_janitor.Live.{Live}
use game_janitor.Games.{GameStore, get_game}
use game_janitor.Access.{Token}
use game_janitor.Manager.{Manager}
use game_janitor.Manager.Synced.{Synced, IsSynced, insert-Synced, unknown-Synced}
use game_janitor.Manager.Request.{Request, passed, Required, enforce_required, validate_update}
use game_janitor.Manager.Request.Laws.{and_then-passed, passed-same}
use game_janitor.Manager.Config.{
  check_permissions, check_env_of, install_triggered, merge, present, swap_spec, save, checked_row,
  save_checked, update_config,
}

present-passed :
    (found : Option (Option Gameserver)) (gs : Gameserver)
    → present found ≡ passed gs
    → found ≡ some (some gs)
present-passed none gs e = absurd cc
present-passed (some none) gs e = absurd cc
present-passed (some (some row)) gs e = ap (λ x. some (some x)) cc

-- A row that passed the checks.
pub record IsChecked (req : Required) (games : GameStore) (token : Option Token) (r : Request)
    (existing row : Gameserver) : Type 0 where
  pub permitted : check_permissions token existing r ≡ passed tt
  pub complete : check_env_of (get_game games existing.game_id) r.env ≡ passed tt
  pub limited :
      let to = merge r existing in
      enforce_required req to.memory_limit_mb to.cpu_limit to.storage_limit_mb ≡ passed tt
  pub merged : merge r existing ≡ row

pub checked_row-IsChecked :
    (req : Required) (games : GameStore) (token : Option Token) (r : Request)
    (existing row : Gameserver)
    → checked_row req games token r existing ≡ passed row
    → IsChecked req games token r existing row
unfolding checked_row
checked_row-IsChecked req games token r existing row e =
    let (_, permitted, e1) = and_then-passed (check_permissions token existing r) _ row e in
    let (_, complete, e2) =
      and_then-passed (check_env_of (get_game games existing.game_id) r.env) _ row e1 in
    let to = merge r existing in
    let (_, limited, e3) =
      and_then-passed (enforce_required req to.memory_limit_mb to.cpu_limit to.storage_limit_mb) _
        row e2 in
    record {
      permitted = permitted;
      complete = complete;
      limited = limited;
      merged = passed-same e3;
    }

-- The row that is kept.
abbrev pub kept_row : Bool → Gameserver → Gameserver
kept_row triggered gs = if triggered then record gs { installed = false } else gs

-- The object of a saved row, if there is one, shows the row.
swap_spec-IsSynced :
    (gs : Gameserver) (s : Store) (m : Manager)
    → Stored m.placement.store gs.id gs
    → Keeps gs.id s m.placement.store
    → Synced s m.lives
    → IsSynced (swap_spec gs (lookup gs.id m.lives) m)
unfolding swap_spec
swap_spec-IsSynced gs s m held keeps h = elim (Option-cases (lookup gs.id m.lives)) [
  | inl e ↦ rw (e, swap_spec) (unknown-Synced gs.id s m.placement.store m.lives e keeps h)
  | inr (g, e) ↦
      rw (e, swap_spec)
        (insert-Synced gs.id (record g { spec = gs }) s m.placement.store m.lives refl held keeps h)
]

swap_spec-store :
    (gs : Gameserver) (found : Option Live) (m : Manager)
    → (swap_spec gs found m).placement.store ≡ m.placement.store
unfolding swap_spec
swap_spec-store gs none m = refl
swap_spec-store gs (some g) m = refl

-- The database and the map after a row was saved.
pub save-IsSynced :
    (triggered : Bool) (old gs : Gameserver) (m : Manager)
    → gs.id ≡ old.id
    → gs.created_by_token_id ≡ old.created_by_token_id
    → Stored m.placement.store gs.id old
    → IsSynced m
    → let n = save triggered gs m in
      IsSynced n × Stored n.placement.store gs.id (kept_row triggered gs)
unfolding save
save-IsSynced triggered old gs m same_id same_creator held h =
    let s = m.placement.store in
    let p = m.placement in
    let once = update_gameserver gs s in
    let first = Stored-update_gameserver s old gs same_id same_creator held in
    let keeps = update_gameserver-Keeps gs s in
    elim (Bool-cases triggered) [
      | inl e ↦
          let final : Gameserver = record gs { installed = false } in
          let t = update_gameserver final once in
          let second = Stored-update_gameserver once gs final refl refl first in
          let saved : Manager = record m { placement = record p { store = t } } in
          rw e (
            swap_spec-IsSynced final s saved second
                (Keeps-trans gs.id s once t keeps (update_gameserver-Keeps final once)) h,
            rw (swap_spec-store final (lookup gs.id m.lives) saved) second,
          )
      | inr e ↦
          let saved : Manager = record m { placement = record p { store = once } } in
          rw e (
            swap_spec-IsSynced gs s saved first keeps h,
            rw (swap_spec-store gs (lookup gs.id m.lives) saved) first,
          )
    ]

-- What the database holds after a change that went through.
pub record IsSaved (req : Required) (games : GameStore) (token : Option Token) (id : String)
    (r : Request) (m n : Manager) : Type 0 where
  pub existing : Gameserver
  pub found : find_gameserver id m.placement.store.gameservers ≡ some existing
  pub checked : IsChecked req games token r existing (merge r existing)
  pub synced : IsSynced n
  pub saved :
      let triggered = install_triggered (get_game games existing.game_id) existing r.env in
      Stored n.placement.store id (kept_row triggered (merge r existing))

merge-id : (r : Request) (gs : Gameserver) → (merge r gs).id ≡ gs.id
unfolding merge
merge-id r gs = refl

merge-creator :
    (r : Request) (gs : Gameserver) → (merge r gs).created_by_token_id ≡ gs.created_by_token_id
unfolding merge
merge-creator r gs = refl

save_checked-passed :
    (triggered : Bool) (row : Gameserver) (m n : Manager)
    → save_checked triggered row m ≡ passed n
    → save triggered row m ≡ n
unfolding save_checked
save_checked-passed triggered row m n e = elim (Bool-cases (m.placement.store.fails update_query)) [
  | inl f ↦ absurd (ground (arith, f, e))
  | inr f ↦ ground (arith, f, e)
]

pub update_config-IsSaved :
    (req : Required) (games : GameStore) (token : Option Token) (id : String) (r : Request)
    (m n : Manager)
    → ((q : Query) → m.placement.store.fails q ≡ false)
    → IsSynced m
    → update_config req games token id r m ≡ passed n
    → IsSaved req games token id r m n
unfolding update_config
update_config-IsSaved req games token id r m n answers h e =
    let s = m.placement.store in
    let (_, valid, e1) = and_then-passed (validate_update r) _ n e in
    let (existing, is_present, e2) = and_then-passed (present (get_gameserver s id)) _ n e1 in
    let (row, is_row, e3) = and_then-passed (checked_row req games token r existing) _ n e2 in
    let checked = checked_row-IsChecked req games token r existing row is_row in
    let triggered = install_triggered (get_game games existing.game_id) existing r.env in
    let got = present-passed (get_gameserver s id) existing is_present in
    let named : existing.id ≡ id = get_gameserver-id s id existing got in
    let found = get_gameserver-find s id existing got in
    let to = merge r existing in
    let own : to.id ≡ id = merge-id r existing ∙ named in
    let to_saved : save triggered to m ≡ n =
      subst (λ x. save triggered x m ≡ n) (sym checked.merged)
        (save_checked-passed triggered row m n e3) in
    let (synced, saved) =
      save-IsSynced triggered existing to m (merge-id r existing) (merge-creator r existing)
        (subst (λ k. Stored s k existing) (sym own) (answers, found)) h in
    record {
      existing = existing;
      found = found;
      checked = record {
        permitted = checked.permitted;
        complete = checked.complete;
        limited = checked.limited;
        merged = refl;
      };
      synced = subst IsSynced to_saved synced;
      saved =
          subst (λ k. Stored n.placement.store k (kept_row triggered to)) own
            (subst (λ x. Stored x.placement.store to.id (kept_row triggered to)) to_saved saved);
    }
