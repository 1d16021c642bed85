-- ===== src/Manager/Synced.antt =====
-- The gameservers in memory and the rows of the database agree: the parts of
-- controller/gameserver/manager.go that put a gameserver into the map, or change one that is there.
use game_janitor.Base.{
  ℕ, String, ◌≡◌, refl, sym, ◌∙◌, subst, Bool, true, false, if◌then◌else◌, none, some, List, [],
  ◌∷◌, lookup, insert, lookup-insert, str_eq, eq_iff, Bool-cases, Option-cases, inl, inr, arith,
  is_some,
}
use game_janitor.Store.{Store, on_node}
use game_janitor.Store.Laws.{Stored}
use game_janitor.Store.Frame.{Keeps}
use game_janitor.Registry.{set_offline}
use game_janitor.Naming.{gameserver_id_from_instance_name}
use game_janitor.Live.{
  Live, System, InstanceState, InstanceStateUpdate, state_created, state_running, state_exited,
  set_worker, clear_worker,
}
use game_janitor.Live.Process.{handle_process_event}
use game_janitor.Live.Process.Sync.{handle_process_event-Stored}
use game_janitor.Live.Process.Frame.{handle_process_event-id, handle_process_event-Keeps}
use game_janitor.Live.Lifecycle.Sync.{InSync}
use game_janitor.Manager.{
  Manager, on_gameserver, put_system, system_of, poll, route_to, route_process_event, map_node,
  on_worker_online, on_worker_offline, worker_lost, handle_stream_break,
}

-- Every gameserver in memory is in the database with the same durable fields, under its own id.
abbrev pub Synced : Store → List (String × Live) → Type 0
Synced s lives =
    (id : String) (g : Live) → lookup id lives ≡ some g → (g.spec.id ≡ id) × Stored s id g.spec

abbrev pub IsSynced : Manager → Type 0
IsSynced m = Synced m.placement.store m.lives

-- A method of one gameserver's object keeps it in step and leaves the other rows alone.
abbrev pub IsSound : (System → System) → Type 0
IsSound f =
    (s : System)
    → InSync s
    → InSync (f s)
      × ((f s).live.spec.id ≡ s.live.spec.id)
      × Keeps s.live.spec.id s.store (f s).store

pub insert-Synced :
    (id : String) (new : Live) (s t : Store) (lives : List (String × Live))
    → new.spec.id ≡ id
    → Stored t id new.spec
    → Keeps id s t
    → Synced s lives
    → Synced t (insert id new lives)
insert-Synced id new s t lives own held keeps h j g e = elim (Bool-cases (str_eq id j)) [
  | inl same ↦
      let here : new ≡ g = ground (arith, lookup-insert id j new lives, same, e) in
      let j_is : id ≡ j = ground (arith, eq_iff id j, same) in
      subst (λ k. (g.spec.id ≡ k) × Stored t k g.spec) j_is
        (subst (λ x. (x.spec.id ≡ id) × Stored t id x.spec) here (own, held))
  | inr other ↦
      let old : lookup j lives ≡ some g = ground (arith, lookup-insert id j new lives, other, e) in
      let (named, there) = h j g old in (named, keeps j g.spec other there)
]

-- A write to a row whose gameserver is not in the map.
pub unknown-Synced :
    (id : String) (s t : Store) (lives : List (String × Live))
    → lookup id lives ≡ none
    → Keeps id s t
    → Synced s lives
    → Synced t lives
unknown-Synced id s t lives unknown keeps h j g e = elim (Bool-cases (str_eq id j)) [
  | inl same ↦ absurd (ground (arith, eq_iff id j, same, unknown, e))
  | inr other ↦ let (named, there) = h j g e in (named, keeps j g.spec other there)
]

pub on_gameserver-IsSynced :
    (id : String) (f : System → System) (m : Manager)
    → IsSound f
    → IsSynced m
    → IsSynced (on_gameserver id f m)
unfolding on_gameserver put_system
on_gameserver-IsSynced id f m sound h = elim (Option-cases (lookup id m.lives)) [
  | inl e ↦ rw (e, on_gameserver) h
  | inr (g, e) ↦
      let (named, held) = h id g e in
      let s = system_of g m in
      let (synced, same, keeps) =
        sound s (subst (λ k. Stored m.placement.store k g.spec) (sym named) held) in
      rw (e, on_gameserver)
        (insert-Synced id (f s).live m.placement.store (f s).store m.lives (same ∙ named)
          (subst (λ k. Stored (f s).store k (f s).live.spec) (same ∙ named) synced)
          (subst (λ k. Keeps k m.placement.store (f s).store) named keeps) h)
]

pub on_gameserver-Keeps :
    (id : String) (f : System → System) (m : Manager)
    → IsSound f
    → IsSynced m
    → Keeps id m.placement.store (on_gameserver id f m).placement.store
unfolding on_gameserver put_system
on_gameserver-Keeps id f m sound h = elim (Option-cases (lookup id m.lives)) [
  | inl e ↦ rw (e, on_gameserver) (λ j gs other k. k)
  | inr (g, e) ↦
      let (named, held) = h id g e in
      let s = system_of g m in
      let (synced, same, keeps) =
        sound s (subst (λ k. Stored m.placement.store k g.spec) (sym named) held) in
      rw (e, on_gameserver) (subst (λ k. Keeps k m.placement.store (f s).store) named keeps)
]

-- Nothing leaves the map.
pub on_gameserver-known :
    (id j : String) (f : System → System) (m : Manager)
    → is_some (lookup j m.lives) ≡ true
    → is_some (lookup j (on_gameserver id f m).lives) ≡ true
unfolding on_gameserver put_system
on_gameserver-known id j f m h = elim (Option-cases (lookup id m.lives)) [
  | inl e ↦ rw (e, on_gameserver) h
  | inr (g, e) ↦
      rw (e, on_gameserver) (ground (arith, lookup-insert id j (f (system_of g m)).live m.lives, h))
]

handle_process_event-IsSound :
    (now : ℕ) (u : InstanceStateUpdate) → IsSound (handle_process_event now u)
handle_process_event-IsSound now u s h = (
  handle_process_event-Stored now u s h,
  handle_process_event-id now u s,
  handle_process_event-Keeps now u s,
)

poll-IsSynced :
    (state : InstanceState) (id : String) (m : Manager) → IsSynced m → IsSynced (poll state id m)
unfolding poll
poll-IsSynced state_created id m h = h
poll-IsSynced state_running id m h = h
poll-IsSynced state_exited id m h = h

route_to-IsSynced :
    (now : ℕ) (u : InstanceStateUpdate) (id : String) (m : Manager)
    → IsSynced m
    → IsSynced (route_to now u id m)
unfolding route_to
route_to-IsSynced now u id m h = elim (Option-cases (lookup id m.lives)) [
  | inl e ↦ rw (e, route_to) h
  | inr (g, e) ↦
      rw (e, route_to)
        (poll-IsSynced u.state id (on_gameserver id (handle_process_event now u) m) (
          on_gameserver-IsSynced id (handle_process_event now u) m
            (handle_process_event-IsSound now u) h))
]

pub route_process_event-IsSynced :
    (now : ℕ) (u : InstanceStateUpdate) (m : Manager)
    → IsSynced m
    → IsSynced (route_process_event now u m)
unfolding route_process_event
route_process_event-IsSynced now u m h =
    elim (Option-cases (gameserver_id_from_instance_name u.instance_name)) [
      | inl e ↦ rw (e, route_process_event) h
      | inr (id, e) ↦ rw (e, route_process_event) (route_to-IsSynced now u id m h)
    ]

-- What is on the node is changed, and nothing else.
pub map_node-lookup :
    (f : Live → Live) (node_id j : String) (lives : List (String × Live))
    → lookup j (map_node f node_id lives) ≡ elim (lookup j lives) [
      | none ↦ none
      | some g ↦ some (if on_node node_id g.spec then f g else g)
    ]
unfolding map_node lookup
map_node-lookup f node_id j [] = refl
map_node-lookup f node_id j ((id, x) ∷ rest) =
    let later = map_node-lookup f node_id j rest in
    elim (Bool-cases (str_eq id j)) [
      | inl same ↦ elim (Bool-cases (on_node node_id x.spec)) [
        | inl e ↦ rw (e, map_node) (rw (same, lookup) (rw e refl))
        | inr e ↦ rw (e, map_node) (rw (same, lookup) (rw e refl))
      ]
      | inr other ↦ elim (Bool-cases (on_node node_id x.spec)) [
        | inl e ↦ rw (e, map_node) (rw (other, lookup) later)
        | inr e ↦ rw (e, map_node) (rw (other, lookup) later)
      ]
    ]

map_node-Synced :
    (f : Live → Live) (node_id : String) (s : Store) (lives : List (String × Live))
    → ((x : Live) → (f x).spec ≡ x.spec)
    → Synced s lives
    → Synced s (map_node f node_id lives)
map_node-Synced f node_id s lives same h id g e = elim (Option-cases (lookup id lives)) [
  | inl missing ↦ absurd (ground (arith, map_node-lookup f node_id id lives, missing, e))
  | inr (old, found) ↦
      let kept : old.spec ≡ g.spec =
        ground (arith, map_node-lookup f node_id id lives, found, e, same old) in
      subst (λ gs. (gs.id ≡ id) × Stored s id gs) kept (h id old found)
]

pub on_worker_online-IsSynced :
    (node_id : String) (m : Manager) → IsSynced m → IsSynced (on_worker_online node_id m)
unfolding on_worker_online set_worker
on_worker_online-IsSynced node_id m h =
    map_node-Synced (set_worker node_id) node_id m.placement.store m.lives (λ x. refl) h

pub on_worker_offline-IsSynced :
    (node_id : String) (m : Manager) → IsSynced m → IsSynced (on_worker_offline node_id m)
unfolding on_worker_offline clear_worker
on_worker_offline-IsSynced node_id m h =
    map_node-Synced clear_worker node_id m.placement.store m.lives (λ x. refl) h

pub handle_stream_break-IsSynced :
    (answers : Bool) (node_id : String) (m : Manager)
    → IsSynced m
    → IsSynced (handle_stream_break answers node_id m)
unfolding handle_stream_break worker_lost
handle_stream_break-IsSynced true node_id m h = h
handle_stream_break-IsSynced false node_id m h =
    elim (Option-cases (lookup node_id m.registry.workers)) [
      | inl e ↦ rw (e, worker_lost) h
      | inr (rw', e) ↦
          rw (e, worker_lost)
            (on_worker_offline-IsSynced node_id
              (record m { registry = set_offline node_id m.registry }) h)
    ]
