-- ===== src/Manager/Config/Permissions.antt =====
-- Who may change what: the permissions of UpdateConfig (controller/gameserver/manager.go).
use game_janitor.Base.{
  String, ◌≡◌, refl, sym, ap, ◌∙◌, subst, Bool, true, false, ◌&&◌, ◌||◌, not, some, lookup,
  Bool-cases, Option-cases, inl, inr, arith, List, [], ◌∷◌, str_eq, All, is_some, is_empty,
}
use game_janitor.Model.{Gameserver}
use game_janitor.Store.{Query, find_gameserver}
use game_janitor.Games.{GameStore}
use game_janitor.Access.{Token, is_admin, has_grant_permission}
use game_janitor.Manager.{Manager}
use game_janitor.Manager.Synced.{IsSynced}
use game_janitor.Manager.Request.{Request, Required, passed}
use game_janitor.Manager.Config.{
  FieldCheck, field_checks, check_fields, check_grant, check_permissions, is_creator, merge,
  update_config, nonzero,
}
use game_janitor.Manager.Config.Merged.{update_config-IsSaved, kept_row}

-- What a granted token leaves as it is, where a permission is missing.
abbrev pub KeepsRest : List String → Gameserver → Gameserver → Type 0
KeepsRest perms old new =
    (has_grant_permission perms "gameserver.configure.name" ≡ false → new.name ≡ old.name)
    × (has_grant_permission perms "gameserver.configure.env" ≡ false → new.env ≡ old.env)
    × (has_grant_permission perms "gameserver.configure.resources" ≡ false
        → (new.memory_limit_mb ≡ old.memory_limit_mb)
          × (new.cpu_limit ≡ old.cpu_limit)
          × (new.cpu_enforced ≡ old.cpu_enforced)
          × (new.storage_limit_mb ≡ old.storage_limit_mb)
          × (new.backup_limit ≡ old.backup_limit)
          × (new.node_tags ≡ old.node_tags))
    × (has_grant_permission perms "gameserver.configure.ports" ≡ false
        → (new.ports ≡ old.ports) × (new.port_mode ≡ old.port_mode))
    × (has_grant_permission perms "gameserver.configure.connection" ≡ false
        → new.connection_address ≡ old.connection_address)
    × (has_grant_permission perms "gameserver.configure.auto-restart" ≡ false
        → new.auto_restart ≡ old.auto_restart)

-- A group of fields that the token may not change is not in the request.
abbrev IsAbsent : List String → FieldCheck → Type 0
IsAbsent perms c = has_grant_permission perms c.1 ≡ false → c.0 ≡ false

check_fields-IsAbsent :
    (perms : List String) (cs : List FieldCheck)
    → check_fields perms cs ≡ passed tt
    → All (IsAbsent perms) cs
unfolding check_fields
check_fields-IsAbsent perms [] e = tt
check_fields-IsAbsent perms ((changed, perm, field) ∷ cs) e =
    elim (Bool-cases (changed && not (has_grant_permission perms perm))) [
      | inl f ↦ absurd (ground (arith, e, f))
      | inr f ↦
          ((λ lacks. ground (arith, f)), check_fields-IsAbsent perms cs (ground (arith, e, f)))
    ]

or_false : (a b : Bool) → (a || b) ≡ false → (a ≡ false) × (b ≡ false)
or_false false b e = (refl, e)
or_false true b e = absurd cc

absent-KeepsRest :
    (perms : List String) (r : Request) (gs : Gameserver)
    → All (IsAbsent perms) (field_checks r)
    → KeepsRest perms gs (merge r gs)
unfolding field_checks merge
absent-KeepsRest perms r gs (name, (env, (resources, (ports, (address, (restart, _)))))) = (
  (λ lacks. let e = name lacks in ground arith),
  (λ lacks. let e = env lacks in ground arith),
  (λ lacks.
      let a = nonzero r.memory_limit_mb in
      let b = nonzero r.cpu_limit in
      let c = is_some r.storage_limit_mb in
      let d = is_some r.backup_limit in
      let (abcd, tags) =
        or_false (a || b || c || d) (not (is_empty r.node_tags)) (resources lacks) in
      let (abc, backups) = or_false (a || b || c) d abcd in
      let (ab, disk) = or_false (a || b) c abc in
      let (mem, cpus) = or_false a b ab in
      (rw mem refl, rw cpus refl, rw cpus refl, ground arith, ground arith, ground arith)),
  (λ lacks.
      let (e, f) = or_false (is_some r.ports) (not (str_eq r.port_mode "")) (ports lacks) in
      (ground arith, ground arith)),
  (λ lacks. let e = address lacks in ground arith),
  (λ lacks. let e = restart lacks in ground arith),
)

check_permissions-IsAbsent :
    (t : Token) (gs : Gameserver) (r : Request)
    → is_admin (some t) ≡ false
    → is_creator t gs ≡ false
    → check_permissions (some t) gs r ≡ passed tt
    → (perms : List String) × (lookup t.id gs.grants ≡ some perms)
      × All (IsAbsent perms) (field_checks r)
unfolding check_permissions check_grant
check_permissions-IsAbsent t gs r plain other e =
    let e1 : check_grant r (lookup t.id gs.grants) ≡ passed tt =
      sym (rw plain (rw other refl)) ∙ e in
    elim (Option-cases (lookup t.id gs.grants)) [
      | inl f ↦ absurd (ground (arith, f, e1))
      | inr (perms, f) ↦
          (perms, f, check_fields-IsAbsent perms (field_checks r) (ap (check_grant r) (sym f) ∙ e1))
    ]

keeps_installed :
    (perms : List String) (gs to : Gameserver) (triggered : Bool)
    → KeepsRest perms gs to
    → KeepsRest perms gs (kept_row triggered to)
keeps_installed perms gs to true h = h
keeps_installed perms gs to false h = h

-- A token that is neither an admin's nor the creator's changes a gameserver only where it is granted
-- access, and then none of the fields of a group, in the gameserver's row, that it has no permission
-- for. The groups do not cover the grants. It is assumed that the database answers and that it
-- agrees with memory before.
pub update_config-KeepsRest :
    (req : Required) (games : GameStore) (t : Token) (id : String) (r : Request) (m n : Manager)
    (gs : Gameserver)
    → ((q : Query) → m.placement.store.fails q ≡ false)
    → IsSynced m
    → find_gameserver id m.placement.store.gameservers ≡ some gs
    → is_admin (some t) ≡ false
    → is_creator t gs ≡ false
    → update_config req games (some t) id r m ≡ passed n
    → (perms : List String) × (new : Gameserver) × (lookup t.id gs.grants ≡ some perms)
      × (find_gameserver id n.placement.store.gameservers ≡ some new)
      × KeepsRest perms gs new
update_config-KeepsRest req games t id r m n gs answers h found plain other e =
    let saved = update_config-IsSaved req games (some t) id r m n answers h e in
    let same : saved.existing ≡ gs = cc in
    let permitted : check_permissions (some t) gs r ≡ passed tt =
      subst (λ x. check_permissions (some t) x r ≡ passed tt) same saved.checked.permitted in
    let (perms, granted, absent) = check_permissions-IsAbsent t gs r plain other permitted in
    (
      perms,
      _,
      granted,
      saved.saved.1,
      keeps_installed perms gs (merge r saved.existing) _ (
          subst (λ x. KeepsRest perms gs (merge r x)) (sym same)
            (absent-KeepsRest perms r gs absent)),
    )
