-- ===== src/Manager/Config/Escalation.antt =====
-- The grants of a gameserver (UpdateConfig of controller/gameserver/manager.go) are in none of the
-- groups of fields that need a permission.
use game_janitor.Base.{
  String, ◌≡◌, refl, ap, ◌∙◌, false, ◌||◌, Option, none, some, lookup, Bool-cases, inl, inr, List,
  [],
}
use game_janitor.Model.{pos, Gameserver, no_error}
use game_janitor.Store.{Query, find_gameserver, get_query, update_query}
use game_janitor.Store.Laws.{get_gameserver-answers}
use game_janitor.Games.{Game, GameStore, get_game}
use game_janitor.Access.{Token, is_admin}
use game_janitor.Manager.{Manager}
use game_janitor.Manager.Synced.{IsSynced}
use game_janitor.Manager.Request.{Request, Required, passed, enforce_required, validate_update}
use game_janitor.Manager.Request.Laws.{and_then-step}
use game_janitor.Manager.Config.{
  field_checks, check_fields, check_grant, check_permissions, check_env_of, is_creator, merge,
  update_config, checked_row, install_triggered, save, save_checked, present,
}
use game_janitor.Manager.Config.Merged.{update_config-IsSaved, kept_row}

-- A request that has new grants and nothing else.
abbrev pub only_grants : List (String × List String) → Request
only_grants new = record {
  name = "";
  game_id = "";
  ports = none;
  env = none;
  memory_limit_mb = pos 0;
  cpu_limit = pos 0;
  cpu_enforced = false;
  port_mode = "";
  node_id = none;
  backup_limit = none;
  storage_limit_mb = none;
  node_tags = [];
  auto_restart = none;
  connection_address = none;
  applied_config = none;
  created_by_token_id = none;
  grants = some new;
  instance_id = none;
  installed = false;
  error_reason = no_error;
}

only_grants-permitted :
    (t : Token) (gs : Gameserver) (perms : List String) (new : List (String × List String))
    → lookup t.id gs.grants ≡ some perms
    → check_permissions (some t) gs (only_grants new) ≡ passed tt
unfolding check_permissions check_grant check_fields field_checks
only_grants-permitted t gs perms new granted =
    elim (Bool-cases (is_admin (some t) || is_creator t gs)) [
      | inl e ↦ rw e refl
      | inr e ↦ rw e (rw (granted, check_grant) refl)
    ]

no_env : (game : Option Game) → check_env_of game none ≡ passed tt
unfolding check_env_of
no_env none = refl
no_env (some game) = refl

no_install : (game : Option Game) (gs : Gameserver) → install_triggered game gs none ≡ false
unfolding install_triggered
no_install none gs = refl
no_install (some game) gs = refl

only_grants-row :
    (req : Required) (games : GameStore) (t : Token) (gs : Gameserver) (perms : List String)
    (new : List (String × List String))
    → lookup t.id gs.grants ≡ some perms
    → enforce_required req gs.memory_limit_mb gs.cpu_limit gs.storage_limit_mb ≡ passed tt
    → checked_row req games (some t) (only_grants new) gs ≡ passed (record gs { grants = new })
unfolding checked_row merge check_env_of
only_grants-row req games t gs perms new granted limits =
    and_then-step _ (only_grants-permitted t gs perms new granted)
      (and_then-step _ (no_env (get_game games gs.game_id)) (and_then-step _ limits refl))

-- Whoever is granted anything on a gameserver can give the grants of it any value by UpdateConfig,
-- whatever the permissions are: the request is accepted and the new grants are in the row. It is
-- assumed that the database answers and agrees with memory, and that the gameserver has the limits
-- that the settings require.
pub update_config-escalates :
    (req : Required) (games : GameStore) (t : Token) (id : String) (m : Manager) (gs : Gameserver)
    (perms : List String) (new : List (String × List String))
    → ((q : Query) → m.placement.store.fails q ≡ false)
    → IsSynced m
    → find_gameserver id m.placement.store.gameservers ≡ some gs
    → lookup t.id gs.grants ≡ some perms
    → enforce_required req gs.memory_limit_mb gs.cpu_limit gs.storage_limit_mb ≡ passed tt
    → (n : Manager) × (update_config req games (some t) id (only_grants new) m ≡ passed n)
      × (find_gameserver id n.placement.store.gameservers ≡ some (record gs { grants = new }))
unfolding update_config save_checked validate_update merge
update_config-escalates req games t id m gs perms new answers h found granted limits =
    let s = m.placement.store in
    let row : Gameserver = record gs { grants = new } in
    let n = save false row m in
    let game = get_game games gs.game_id in
    let accepted : update_config req games (some t) id (only_grants new) m ≡ passed n =
      and_then-step _ (ap present (get_gameserver-answers s id (answers get_query) ∙ ap some found))
        (and_then-step _ (only_grants-row req games t gs perms new granted limits)
          (ap (λ b. save_checked b row m) (no_install game gs) ∙ rw (answers update_query) refl)) in
    let saved =
      update_config-IsSaved req games (some t) id (only_grants new) m n answers h accepted in
    let same : saved.existing ≡ gs = cc in
    let kept =
      ap
        (λ x.
          kept_row (install_triggered (get_game games x.game_id) x none)
            (merge (only_grants new) x))
        same in
    (n, accepted, saved.saved.1 ∙ ap some (kept ∙ ap (λ b. kept_row b row) (no_install game gs)))
