-- ===== src/Store/Laws.antt =====
-- What a read of store/gameserver.go sees after a write.
use game_janitor.Base.{
  ◌≡◌, refl, ◌∷◌, some, none, false, sym, subst, arith, keep, String, str_eq, List, [], Option,
  eq_iff, eq_refl, if◌then◌else◌,
}
use game_janitor.Model.{Gameserver, ErrorReason, no_error, DesiredState}
use game_janitor.Store.{
  Store, Query, set_error_reason, clear_error_reason, set_instance_id, set_desired_state,
  update_gameserver, written, update_query, get_query, get_gameserver, exec_update,
  create_gameserver, find_gameserver, update_rows, list_gameservers, with_row, matches_node,
}

pub create_gameserver-with_row :
    (gs : Gameserver) (s t : Store) → create_gameserver gs s ≡ some t → t ≡ with_row gs s
unfolding create_gameserver
create_gameserver-with_row gs s t e = ground arith

-- A created row is the new row before the old ones.
pub create_gameserver-rows :
    (gs : Gameserver) (s t : Store)
    → create_gameserver gs s ≡ some t
    → t.gameservers ≡ gs ∷ s.gameservers
unfolding create_gameserver
create_gameserver-rows gs s t e = ground arith

-- An update changes the row that it names, and no other.
pub find_gameserver-update_rows :
    (change : Gameserver → Gameserver) (id j : String) (rows : List Gameserver)
    → ((gs : Gameserver) → (change gs).id ≡ gs.id)
    → find_gameserver j (update_rows change id rows) ≡ (
        if str_eq id j
        then elim (find_gameserver j rows) [ none ↦ none | some gs ↦ some (change gs) ]
        else find_gameserver j rows)
unfolding find_gameserver update_rows
find_gameserver-update_rows change id j [] same = ground arith
find_gameserver-update_rows change id j (gs ∷ rows) same = ground (
  arith,
  same gs,
  eq_iff id j,
  eq_iff gs.id id,
  eq_iff gs.id j,
  eq_iff (change gs).id j,
  find_gameserver-update_rows change id j rows same,
)

-- Without a filter every row is listed, in order.
pub listed_head :
    (s : Store) (gs : Gameserver) (rows found : List Gameserver)
    → s.gameservers ≡ gs ∷ rows
    → list_gameservers s none ≡ some found
    → (later : List Gameserver) × (found ≡ gs ∷ later)
unfolding list_gameservers
listed_head s gs rows found e f = (keep (matches_node none) rows, ground (arith, e))

-- A found row has the id that was looked for.
pub find-id :
    (id : String) (rows : List Gameserver) (gs : Gameserver)
    → find_gameserver id rows ≡ some gs
    → gs.id ≡ id
unfolding find_gameserver
find-id id [] gs e = cc
find-id id (row ∷ rows) gs e = ground (arith, eq_iff row.id id, find-id id rows gs)

pub get_gameserver-id :
    (s : Store) (id : String) (gs : Gameserver) → get_gameserver s id ≡ some (some gs) → gs.id ≡ id
unfolding get_gameserver
get_gameserver-id s id gs e = find-id id s.gameservers gs (ground (arith, e))

pub get_gameserver-find :
    (s : Store) (id : String) (gs : Gameserver)
    → get_gameserver s id ≡ some (some gs)
    → find_gameserver id s.gameservers ≡ some gs
unfolding get_gameserver
get_gameserver-find s id gs e = ground (arith, e)

-- An update that the database answers changes the row that it names.
find-exec_update :
    (s : Store) (change : Gameserver → Gameserver) (id : String) (gs : Gameserver)
    → s.fails update_query ≡ false
    → ((row : Gameserver) → (change row).id ≡ row.id)
    → find_gameserver id s.gameservers ≡ some gs
    → find_gameserver id (exec_update s change id).gameservers ≡ some (change gs)
unfolding exec_update
find-exec_update s change id gs up same h =
    rw up (rw (find_gameserver-update_rows change id id s.gameservers same) (rw (eq_refl, h)))

pub get_gameserver-answers :
    (s : Store) (id : String)
    → s.fails get_query ≡ false
    → get_gameserver s id ≡ some (find_gameserver id s.gameservers)
unfolding get_gameserver
get_gameserver-answers s id up = rw up

-- No write changes which queries fail.
pub exec_update-fails :
    (s : Store) (change : Gameserver → Gameserver) (id : String)
    → (exec_update s change id).fails ≡ s.fails
unfolding exec_update
exec_update-fails s change id = ground arith

-- The database answers every query, and the row with this id is `gs`.
abbrev pub Stored : Store → String → Gameserver → Type 0
Stored s id gs = ((q : Query) → s.fails q ≡ false) × (find_gameserver id s.gameservers ≡ some gs)

Stored-exec_update :
    (s : Store) (change : Gameserver → Gameserver) (id : String) (gs : Gameserver)
    → ((row : Gameserver) → (change row).id ≡ row.id)
    → Stored s id gs
    → Stored (exec_update s change id) id (change gs)
Stored-exec_update s change id gs same (answers, held) = (
  (λ q. rw (exec_update-fails s change id) (answers q)),
  find-exec_update s change id gs (answers update_query) same held,
)

pub Stored-set_error_reason :
    (s : Store) (id : String) (gs : Gameserver) (reason : ErrorReason)
    → Stored s id gs
    → Stored (set_error_reason id reason s) id (record gs { error_reason = reason })
unfolding set_error_reason
Stored-set_error_reason s id gs reason h =
    Stored-exec_update s (λ row. record row { error_reason = reason }) id gs (λ row. refl) h

pub Stored-clear_error_reason :
    (s : Store) (id : String) (gs : Gameserver)
    → Stored s id gs
    → Stored (clear_error_reason id s) id (record gs { error_reason = no_error })
unfolding clear_error_reason
Stored-clear_error_reason s id gs h = Stored-set_error_reason s id gs no_error h

pub Stored-set_instance_id :
    (s : Store) (id : String) (gs : Gameserver) (instance : Option String)
    → Stored s id gs
    → Stored (set_instance_id id instance s) id (record gs { instance_id = instance })
unfolding set_instance_id
Stored-set_instance_id s id gs instance h =
    Stored-exec_update s (λ row. record row { instance_id = instance }) id gs (λ row. refl) h

pub Stored-set_desired_state :
    (s : Store) (id : String) (gs : Gameserver) (state : DesiredState)
    → Stored s id gs
    → Stored (set_desired_state id state s) id (record gs { desired_state = state })
unfolding set_desired_state
Stored-set_desired_state s id gs state h =
    Stored-exec_update s (λ row. record row { desired_state = state }) id gs (λ row. refl) h

written_self :
    (gs to : Gameserver)
    → to.id ≡ gs.id
    → to.created_by_token_id ≡ gs.created_by_token_id
    → written to gs ≡ to
written_self gs to e c = λ i. record to { id = sym e i; created_by_token_id = sym c i }

-- UpdateGameserver writes all of `to` but the id and the creator.
pub Stored-update_gameserver :
    (s : Store) (gs to : Gameserver)
    → to.id ≡ gs.id
    → to.created_by_token_id ≡ gs.created_by_token_id
    → Stored s to.id gs
    → Stored (update_gameserver to s) to.id to
unfolding update_gameserver
Stored-update_gameserver s gs to e c h =
    subst (λ row. Stored (exec_update s (written to) to.id) to.id row) (written_self gs to e c)
      (Stored-exec_update s (written to) to.id gs (λ row. refl) h)
