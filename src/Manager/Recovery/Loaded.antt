-- ===== src/Manager/Recovery/Loaded.antt =====
-- RecoverAll and the recovery of a worker's gameservers (controller/gameserver/manager.go) over the
-- whole map.
use game_janitor.Base.{
  String, ◌≡◌, refl, sym, ap, subst, true, false, none, some, List, [], ◌∷◌, lookup, insert,
  lookup-insert, str_eq, eq_refl, Bool-cases, Option-cases, inl, inr, arith, All, keep, is_some,
}
use game_janitor.Model.{Gameserver}
use game_janitor.Store.{Store, Query, find_gameserver, list_gameservers, list_query}
use game_janitor.Store.Laws.{Stored}
use game_janitor.Store.Frame.{Keeps}
use game_janitor.Live.{Live, new_live, set_worker}
use game_janitor.Dispatcher.{worker_for}
use game_janitor.Manager.{Manager}
use game_janitor.Manager.Synced.{
  IsSynced, on_gameserver-IsSynced, insert-Synced, on_gameserver-Keeps, on_gameserver-known,
}
use game_janitor.Manager.Recovery.{
  Inspect, recover_live, recover_gameserver, start_poller, polls, recover_each,
  recover_worker_gameservers, to_recover, load_one, load_each, recover_all,
}
use game_janitor.Manager.Recovery.Sound.{recover_live-IsSound}

pub recover_gameserver-IsSynced :
    (inspect : Inspect) (id : String) (m : Manager)
    → IsSynced m
    → IsSynced (recover_gameserver inspect id m)
      × Keeps id m.placement.store (recover_gameserver inspect id m).placement.store
unfolding recover_gameserver start_poller
recover_gameserver-IsSynced inspect id m h =
    let sound = recover_live-IsSound inspect in
    let whole = on_gameserver-IsSynced id (recover_live inspect) m sound h in
    let keeps = on_gameserver-Keeps id (recover_live inspect) m sound h in
    elim (Option-cases (lookup id m.lives)) [
      | inl e ↦ rw (e, recover_gameserver) (h, λ j gs other k. k)
      | inr (g, e) ↦
          rw (e, recover_gameserver)
            (elim (Bool-cases (polls inspect g)) [
              | inl f ↦ rw f (whole, keeps)
              | inr f ↦ rw f (whole, keeps)
            ])
    ]

-- The gameserver is in the map.
abbrev pub Knows : Manager → String → Type 0
Knows m id = is_some (lookup id m.lives) ≡ true

recover_gameserver-Knows :
    (inspect : Inspect) (id j : String) (m : Manager)
    → Knows m j
    → Knows (recover_gameserver inspect id m) j
unfolding recover_gameserver start_poller
recover_gameserver-Knows inspect id j m h =
    let kept = on_gameserver-known id j (recover_live inspect) m h in
    elim (Option-cases (lookup id m.lives)) [
      | inl e ↦ rw (e, recover_gameserver) h
      | inr (g, e) ↦
          rw (e, recover_gameserver)
            (elim (Bool-cases (polls inspect g)) [ inl f ↦ rw f kept | inr f ↦ rw f kept ])
    ]

recover_each-IsSynced :
    (inspect : Inspect) (ids : List String) (m : Manager)
    → IsSynced m
    → IsSynced (recover_each inspect ids m)
unfolding recover_each
recover_each-IsSynced inspect [] m h = h
recover_each-IsSynced inspect (id ∷ ids) m h =
    recover_each-IsSynced inspect ids (recover_gameserver inspect id m)
      (recover_gameserver-IsSynced inspect id m h).0

pub recover_worker_gameservers-IsSynced :
    (inspect : Inspect) (node_id : String) (m : Manager)
    → IsSynced m
    → IsSynced (recover_worker_gameservers inspect node_id m)
unfolding recover_worker_gameservers
recover_worker_gameservers-IsSynced inspect node_id m h =
    recover_each-IsSynced inspect (to_recover node_id m.lives) m h

-- The rows have different ids, as the primary key makes sure.
abbrev pub Distinct : List Gameserver → Type 0
Distinct [] = Unit
Distinct (gs ∷ rest) = All (λ later. str_eq gs.id later.id ≡ false) rest × Distinct rest

-- Each of the rows is in the store.
abbrev AllStored : Store → List Gameserver → Type 0
AllStored s rows = All (λ gs. Stored s gs.id gs) rows

AllStored-Keeps :
    (id : String) (s t : Store) (rows : List Gameserver)
    → Keeps id s t
    → All (λ later. str_eq id later.id ≡ false) rows
    → AllStored s rows
    → AllStored t rows
AllStored-Keeps id s t [] keeps others h = tt
AllStored-Keeps id s t (gs ∷ rows) keeps (other, others) (held, h) =
    (keeps gs.id gs other held, AllStored-Keeps id s t rows keeps others h)

known_after :
    (id : String) (g : Live) (lives : List (String × Live))
    → is_some (lookup id (insert id g lives)) ≡ true
known_after id g lives = rw (lookup-insert id id g lives) (rw eq_refl refl)

known_before :
    (id j : String) (g : Live) (lives : List (String × Live))
    → is_some (lookup j lives) ≡ true
    → is_some (lookup j (insert id g lives)) ≡ true
known_before id j g lives h = ground (arith, lookup-insert id j g lives, h)

keep-true : (rows : List Gameserver) → keep (λ gs. true) rows ≡ rows
keep-true [] = refl
keep-true (gs ∷ rows) = ap (λ later. gs ∷ later) (keep-true rows)

-- A loaded row is in the map, in step, and what follows is still to be found.
load_one-IsSynced :
    (inspects : String → Inspect) (gs : Gameserver) (m : Manager)
    → Stored m.placement.store gs.id gs
    → IsSynced m
    → let n = load_one inspects gs m in
      IsSynced n × Keeps gs.id m.placement.store n.placement.store × Knows n gs.id
unfolding load_one new_live set_worker
load_one-IsSynced inspects gs m held h =
    let s = m.placement.store in
    let fresh : (g : Live) → g.spec ≡ gs → IsSynced (record m { lives = insert gs.id g m.lives }) =
      λ g same.
        insert-Synced gs.id g s s m.lives (ap (λ row. row.id) same)
          (subst (λ row. Stored s gs.id row) (sym same) held) (λ j row other k. k) h in
    elim (Option-cases (worker_for s m.registry gs.id)) [
      | inl e ↦
          rw (e, load_one)
            (
              fresh (new_live gs) refl,
              (λ j row other k. k),
              known_after gs.id (new_live gs) m.lives,
            )
      | inr (w, e) ↦
          let g = set_worker w (new_live gs) in
          let mid : Manager = record m { lives = insert gs.id g m.lives } in
          let (synced, keeps) = recover_gameserver-IsSynced (inspects w) gs.id mid (fresh g refl) in
          rw (e, load_one)
            (
              synced,
              keeps,
              recover_gameserver-Knows (inspects w) gs.id gs.id mid (known_after gs.id g m.lives),
            )
    ]

load_one-Knows :
    (inspects : String → Inspect) (gs : Gameserver) (j : String) (m : Manager)
    → Knows m j
    → Knows (load_one inspects gs m) j
unfolding load_one
load_one-Knows inspects gs j m h =
    elim (Option-cases (worker_for m.placement.store m.registry gs.id)) [
      | inl e ↦ rw (e, load_one) (known_before gs.id j (new_live gs) m.lives h)
      | inr (w, e) ↦
          rw (e, load_one)
            (recover_gameserver-Knows (inspects w) gs.id j
              (record m { lives = insert gs.id (set_worker w (new_live gs)) m.lives })
              (known_before gs.id j (set_worker w (new_live gs)) m.lives h))
    ]

load_each-Knows :
    (inspects : String → Inspect) (rows : List Gameserver) (j : String) (m : Manager)
    → Knows m j
    → Knows (load_each inspects rows m) j
unfolding load_each
load_each-Knows inspects [] j m h = h
load_each-Knows inspects (gs ∷ rows) j m h =
    load_each-Knows inspects rows j (load_one inspects gs m) (load_one-Knows inspects gs j m h)

load_each-IsSynced :
    (inspects : String → Inspect) (rows : List Gameserver) (m : Manager)
    → Distinct rows
    → AllStored m.placement.store rows
    → IsSynced m
    → IsSynced (load_each inspects rows m)
      × All (λ gs. Knows (load_each inspects rows m) gs.id) rows
unfolding load_each
load_each-IsSynced inspects [] m distinct held h = (h, tt)
load_each-IsSynced inspects (gs ∷ rows) m (others, distinct) (first, held) h =
    let n = load_one inspects gs m in
    let (synced, keeps, known) = load_one-IsSynced inspects gs m first h in
    let (all_synced, all_known) =
      load_each-IsSynced inspects rows n distinct
        (AllStored-Keeps gs.id m.placement.store n.placement.store rows keeps others held) synced in
    (all_synced, (load_each-Knows inspects rows gs.id n known, all_known))

-- Each of different rows is found under its id.
All-find :
    (gs : Gameserver) (rows later : List Gameserver)
    → All (λ row. str_eq gs.id row.id ≡ false) later
    → All (λ row. find_gameserver row.id rows ≡ some row) later
    → All (λ row. find_gameserver row.id (gs ∷ rows) ≡ some row) later
unfolding find_gameserver
All-find gs rows [] others found = tt
All-find gs rows (x ∷ later) (other, others) (here, found) =
    (rw (other, find_gameserver) here, All-find gs rows later others found)

Distinct-find :
    (rows : List Gameserver)
    → Distinct rows
    → All (λ row. find_gameserver row.id rows ≡ some row) rows
unfolding find_gameserver
Distinct-find [] distinct = tt
Distinct-find (gs ∷ rows) (others, distinct) =
    (rw (eq_refl, find_gameserver) refl, All-find gs rows rows others (Distinct-find rows distinct))

All-Stored :
    (s : Store) (rows : List Gameserver)
    → ((q : Query) → s.fails q ≡ false)
    → All (λ row. find_gameserver row.id s.gameservers ≡ some row) rows
    → AllStored s rows
All-Stored s [] answers found = tt
All-Stored s (gs ∷ rows) answers (here, found) = ((answers, here), All-Stored s rows answers found)

list-everything :
    (s : Store) → s.fails list_query ≡ false → list_gameservers s none ≡ some s.gameservers
unfolding list_gameservers
list-everything s up = rw up (ap some (keep-true s.gameservers))

-- Where the database answers and its rows have different ids, RecoverAll succeeds: every row is in
-- the map afterwards, and memory and database agree on each gameserver in the map, where they agreed on those that were in it before.
pub recover_all-IsSynced :
    (inspects : String → Inspect) (m : Manager)
    → ((q : Query) → m.placement.store.fails q ≡ false)
    → Distinct m.placement.store.gameservers
    → IsSynced m
    → (n : Manager) × (recover_all inspects m ≡ some n)
      × IsSynced n
      × All (λ gs. Knows n gs.id) m.placement.store.gameservers
unfolding recover_all
recover_all-IsSynced inspects m answers distinct h =
    let s = m.placement.store in
    let (synced, known) =
      load_each-IsSynced inspects s.gameservers m distinct
        (All-Stored s s.gameservers answers (Distinct-find s.gameservers distinct)) h in
    (
      load_each inspects s.gameservers m,
      rw (list-everything s (answers list_query), recover_all) refl,
      synced,
      known,
    )
