-- ===== src/Registry/Reaper.antt =====
-- The workers that time out, and what connections say of a worker's status
-- (controller/cluster/registry.go).
use game_janitor.Base.{
  ℕ, String, Option, none, some, List, [], ◌∷◌, lookup, insert, ◌≡◌, ◌≢◌, refl, arith, eq_iff,
  lookup-insert, lookup-delete, Bool-cases, Option-cases, inl, inr, str_eq, sym, subst,
}
use game_janitor.Registry.{
  Registry, RegisteredWorker, WorkerInfo, online, offline, register, clear_worker, set_offline,
  unregister, update_heartbeat, taken_offline, close_worker, went_offline, persisted,
}

-- A worker with a connection is shown as online.
abbrev pub ShowsConnections : Registry → Type 0
ShowsConnections r =
    (id : String) (rw : RegisteredWorker)
    → lookup id r.workers ≡ some rw
    → rw.worker ≢ none
    → rw.info.status ≡ online

abbrev off : Option RegisteredWorker → Option RegisteredWorker
off none = none
off (some rw) = some (taken_offline rw)

off-off : (x : Option RegisteredWorker) → off (off x) ≡ off x
off-off none = refl
off-off (some rw) = refl

-- A map has each key once.
abbrev pub HasKeysOnce : List (String × RegisteredWorker) → Type 0
HasKeysOnce [] = Unit {0}
HasKeysOnce ((id, rw) ∷ m) = (lookup id m ≡ none) × HasKeysOnce m

HasKeysOnce-insert :
    (id : String) (w : RegisteredWorker) (m : List (String × RegisteredWorker))
    → HasKeysOnce m
    → HasKeysOnce (insert id w m)
unfolding insert lookup
HasKeysOnce-insert id w [] once = (refl, tt)
HasKeysOnce-insert id w ((key, v) ∷ m) (fresh, once) = elim (Bool-cases (str_eq key id)) [
  | inl f ↦ rw f (subst (λ k. lookup k m ≡ none) ((eq_iff key id).0 f) fresh, once)
  | inr f ↦ rw f (
    ground (arith, lookup-insert id key w m, eq_iff id key, eq_iff key id),
    HasKeysOnce-insert id w m once,
  )
]

inserted :
    (id : String) (w : RegisteredWorker) (r r' : Registry)
    → r'.workers ≡ insert id w r.workers
    → (w.worker ≢ none → w.info.status ≡ online)
    → ShowsConnections r
    → ShowsConnections r'
inserted id w r r' e good h asked found f g =
    let step = lookup-insert id asked w r.workers in
    let there = subst (λ m. lookup asked m ≡ some found) e f in
    elim (Bool-cases (str_eq id asked)) [
      | inl k ↦
          let same : w ≡ found = ground (arith, k, step) in
          subst (λ x. x.info.status ≡ online) same
            (good (subst (λ x. x.worker ≢ none) (sym same) g))
      | inr k ↦ h asked found (ground (arith, k, step)) g
    ]

register-ShowsConnections :
    (now : ℕ) (id : String) (c : ℕ) (info : WorkerInfo) (r : Registry)
    → ShowsConnections r
    → ShowsConnections (register now id c info r)
unfolding register
register-ShowsConnections now id c info r h =
    inserted id _ r (register now id c info r) refl (λ _. refl) h

clear_worker-ShowsConnections :
    (id : String) (r : Registry) → ShowsConnections r → ShowsConnections (clear_worker id r)
unfolding clear_worker
clear_worker-ShowsConnections id r h = elim (Option-cases (lookup id r.workers)) [
  | inl e ↦ rw (e, clear_worker) h
  | inr (w, e) ↦
      rw (e, clear_worker)
        (inserted id (record w { worker = none }) r
          (record {
            workers = insert id (record w { worker = none }) r.workers;
            told = close_worker w.worker r.told;
          })
          refl (λ f. absurd (f refl)) h)
]

set_offline-ShowsConnections :
    (id : String) (r : Registry) → ShowsConnections r → ShowsConnections (set_offline id r)
unfolding set_offline
set_offline-ShowsConnections id r h = elim (Option-cases (lookup id r.workers)) [
  | inl e ↦ rw (e, set_offline) h
  | inr (w, e) ↦
      rw (e, set_offline)
        (inserted id (taken_offline w) r
          (record {
            workers = insert id (taken_offline w) r.workers;
            told = went_offline id ∷ persisted id offline ∷ close_worker w.worker r.told;
          })
          refl (λ f. absurd (f refl)) h)
]

unregister-ShowsConnections :
    (id : String) (r : Registry) → ShowsConnections r → ShowsConnections (unregister id r)
unfolding unregister
unregister-ShowsConnections id r h asked found f g = elim (Option-cases (lookup id r.workers)) [
  | inl e ↦ h asked found (rw (e, unregister) at f) g
  | inr (w, e) ↦
      h asked found (ground (arith, lookup-delete id asked r.workers, rw (e, unregister) at f)) g
]

update_heartbeat-ShowsConnections :
    (now : ℕ) (id : String) (info : WorkerInfo) (r r' : Registry)
    → update_heartbeat now id info r ≡ some r'
    → ShowsConnections r
    → ShowsConnections r'
unfolding update_heartbeat
update_heartbeat-ShowsConnections now id info r r' e h = elim (Option-cases (lookup id r.workers)) [
  | inl f ↦ cc (rw (f, update_heartbeat) at e)
  | inr (w, f) ↦
      let beat : RegisteredWorker = record w {
        info = record info { last_seen = now; status = online; token_id = w.info.token_id };
      } in
      let same : r'.workers ≡ insert id beat r.workers =
        ground (arith, rw (f, update_heartbeat) at e) in
      inserted id beat r r' same (λ _. refl) h
]

-- In every registry that shows its connected workers as online, so does what each operation makes of
-- it: a registration, a lost connection, a worker that goes offline, a removal and a heartbeat.
pub registry-ShowsConnections :
    (r : Registry)
    → ShowsConnections r
    → ((now : ℕ) (id : String) (c : ℕ) (info : WorkerInfo)
        → ShowsConnections (register now id c info r))
      × ((id : String) → ShowsConnections (clear_worker id r))
      × ((id : String) → ShowsConnections (set_offline id r))
      × ((id : String) → ShowsConnections (unregister id r))
      × ((now : ℕ) (id : String) (info : WorkerInfo) (r' : Registry)
          → update_heartbeat now id info r ≡ some r'
          → ShowsConnections r')
registry-ShowsConnections r h = (
  (λ now id c info. register-ShowsConnections now id c info r h),
  (λ id. clear_worker-ShowsConnections id r h),
  (λ id. set_offline-ShowsConnections id r h),
  (λ id. unregister-ShowsConnections id r h),
  (λ now id info r' e. update_heartbeat-ShowsConnections now id info r r' e h),
)
