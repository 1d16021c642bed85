-- ===== src/Store/Frame.antt =====
-- An update of one row (store/gameserver.go) leaves what is known of the other rows alone.
use game_janitor.Base.{String, ◌≡◌, refl, false, str_eq, Bool-cases, inl, inr, eq_refl, Option}
use game_janitor.Model.{Gameserver, ErrorReason}
use game_janitor.Store.{
  Store, Query, exec_update, update_gameserver, written, set_error_reason, clear_error_reason,
  set_instance_id, find_gameserver, update_query, with_row,
}
use game_janitor.Store.Laws.{Stored, exec_update-fails, find_gameserver-update_rows}

-- What `s` holds under other ids than `id`, `t` holds too.
abbrev pub Keeps : String → Store → Store → Type 0
Keeps id s t = (j : String) (gs : Gameserver) → str_eq id j ≡ false → Stored s j gs → Stored t j gs

pub Keeps-trans : (id : String) (s t u : Store) → Keeps id s t → Keeps id t u → Keeps id s u
Keeps-trans id s t u first second j gs other h = second j gs other (first j gs other h)

find-exec_update_other :
    (s : Store) (change : Gameserver → Gameserver) (id j : String)
    → ((row : Gameserver) → (change row).id ≡ row.id)
    → str_eq id j ≡ false
    → find_gameserver j (exec_update s change id).gameservers ≡ find_gameserver j s.gameservers
unfolding exec_update
find-exec_update_other s change id j same other = elim (Bool-cases (s.fails update_query)) [
  | inl e ↦ rw e refl
  | inr e ↦ rw e (rw (find_gameserver-update_rows change id j s.gameservers same) (rw other refl))
]

pub exec_update-Keeps :
    (s : Store) (change : Gameserver → Gameserver) (id : String)
    → ((row : Gameserver) → (change row).id ≡ row.id)
    → Keeps id s (exec_update s change id)
exec_update-Keeps s change id same j gs other (answers, held) = (
  (λ q. rw (exec_update-fails s change id) (answers q)),
  rw (find-exec_update_other s change id j same other) held,
)

pub update_gameserver-Keeps : (gs : Gameserver) (s : Store) → Keeps gs.id s (update_gameserver gs s)
unfolding update_gameserver
update_gameserver-Keeps gs s = exec_update-Keeps s (written gs) gs.id (λ row. refl)

pub set_error_reason-Keeps :
    (id : String) (reason : ErrorReason) (s : Store) → Keeps id s (set_error_reason id reason s)
unfolding set_error_reason
set_error_reason-Keeps id reason s =
    exec_update-Keeps s (λ row. record row { error_reason = reason }) id (λ row. refl)

pub clear_error_reason-Keeps : (id : String) (s : Store) → Keeps id s (clear_error_reason id s)
unfolding clear_error_reason set_error_reason
clear_error_reason-Keeps id s = set_error_reason-Keeps id _ s

pub set_instance_id-Keeps :
    (id : String) (instance : Option String) (s : Store)
    → Keeps id s (set_instance_id id instance s)
unfolding set_instance_id
set_instance_id-Keeps id instance s =
    exec_update-Keeps s (λ row. record row { instance_id = instance }) id (λ row. refl)

pub with_row-Keeps : (gs : Gameserver) (s : Store) → Keeps gs.id s (with_row gs s)
unfolding find_gameserver
with_row-Keeps gs s j row other (answers, held) = (answers, rw (other, find_gameserver) held)

pub with_row-Stored :
    (gs : Gameserver) (s : Store)
    → ((q : Query) → s.fails q ≡ false)
    → Stored (with_row gs s) gs.id gs
unfolding find_gameserver
with_row-Stored gs s answers = (answers, rw (eq_refl, find_gameserver) refl)
