-- ===== src/Registry.antt =====
-- controller/cluster/registry.go: the workers that the controller knows, with the connections of
-- those that are connected. A connection is named by a number, times are nanoseconds, and the
-- callbacks and the database are what they are told, newest first.
pub mod Reaper
mod Tests
use game_janitor.Base.{
  ℕ, ◌+◌, ◌-◌, String, Bool, true, false, ◌&&◌, Option, none, some, List, [], ◌∷◌, if◌then◌else◌,
  ltb, lookup, insert, delete, length, is_some, map, ◌≡◌,
}

pub data Status : Type 0 where
  online offline : Status

pub record WorkerInfo : Type 0 where
  pub lan_ip : String
  pub external_ip : String
  pub cpu_cores : ℕ
  pub memory_total_mb : ℕ
  pub memory_available_mb : ℕ
  pub disk_total_mb : ℕ
  pub disk_available_mb : ℕ
  pub status : Status
  pub last_seen : ℕ
  pub token_id : String

pub record RegisteredWorker : Type 0 where
  pub worker : Option ℕ
  pub info : WorkerInfo

-- What the registry tells the database and the callbacks, and the connections that it closes.
pub data Told : Type 0 where
  persisted : String → Status → Told
  went_online : String → ℕ → Told
  went_offline : String → Told
  closed : ℕ → Told

pub record Registry : Type 0 where
  pub workers : List (String × RegisteredWorker)
  pub told : List Told

abbrev close_worker : Option ℕ → List Told → List Told
close_worker none told = told
close_worker (some c) told = closed c ∷ told

-- The connection that an entry has, if there is one.
abbrev connection : Option RegisteredWorker → Option ℕ
connection none = none
connection (some rw) = rw.worker

-- Register
pub register : ℕ → String → ℕ → WorkerInfo → Registry → Registry
register now id c info r = record {
  workers =
      insert id
        (record { worker = some c; info = record info { last_seen = now; status = online } })
        r.workers;
  told =
      went_online id c
      ∷ persisted id online
      ∷ close_worker (connection (lookup id r.workers)) r.told;
}

-- ClearWorker
pub clear_worker : String → Registry → Registry
clear_worker id r = elim (lookup id r.workers) [
  | none ↦ r
  | some rw ↦ record {
    workers = insert id (record rw { worker = none }) r.workers;
    told = close_worker rw.worker r.told;
  }
]

abbrev pub taken_offline : RegisteredWorker → RegisteredWorker
taken_offline rw =
    let info = rw.info in record { worker = none; info = record info { status = offline } }

-- SetOffline
pub set_offline : String → Registry → Registry
set_offline id r = elim (lookup id r.workers) [
  | none ↦ r
  | some rw ↦ record {
    workers = insert id (taken_offline rw) r.workers;
    told = went_offline id ∷ persisted id offline ∷ close_worker rw.worker r.told;
  }
]

-- Unregister
pub unregister : String → Registry → Registry
unregister id r = elim (lookup id r.workers) [
  | none ↦ r
  | some rw ↦ record {
    workers = delete id r.workers;
    told = went_offline id ∷ close_worker rw.worker r.told;
  }
]

-- Get and GetInfo
unfoldable pub get : String → Registry → Option ℕ
get id r = connection (lookup id r.workers)

pub get_info : String → Registry → Option WorkerInfo
get_info id r = elim (lookup id r.workers) [ none ↦ none | some rw ↦ some rw.info ]

-- UpdateHeartbeat; none is the error of a worker that is not online.
pub update_heartbeat : ℕ → String → WorkerInfo → Registry → Option Registry
update_heartbeat now id info r = elim (lookup id r.workers) [
  | none ↦ none
  | some rw ↦
      if is_some rw.worker
      then some (record r {
        workers =
            insert id
              (record rw {
                info = record info {
                  last_seen = now;
                  status = online;
                  token_id = rw.info.token_id;
                };
              })
              r.workers;
      })
      else none
]

-- ListWorkers, ListOnlineWorkers and Count
pub list_workers : List (String × RegisteredWorker) → List WorkerInfo
list_workers [] = []
list_workers ((id, rw) ∷ rest) = rw.info ∷ list_workers rest

pub list_online_workers : List (String × RegisteredWorker) → List WorkerInfo
list_online_workers [] = []
list_online_workers ((id, rw) ∷ rest) =
    let later = list_online_workers rest in if is_some rw.worker then rw.info ∷ later else later

pub count : Registry → ℕ
count r = length r.workers

-- A worker that is connected and was not heard of for longer than the timeout.
abbrev pub is_stale : ℕ → ℕ → RegisteredWorker → Bool
is_stale now timeout rw = is_some rw.worker && ltb timeout (now - rw.info.last_seen)

stale_ids : ℕ → ℕ → List (String × RegisteredWorker) → List String
stale_ids now timeout [] = []
stale_ids now timeout ((id, rw) ∷ rest) =
    let later = stale_ids now timeout rest in if is_stale now timeout rw then id ∷ later else later

set_all_offline : List String → Registry → Registry
unfolding set_offline
set_all_offline [] r = r
set_all_offline (id ∷ ids) r = set_all_offline ids (set_offline id r)

-- reapStale
pub reap_stale : ℕ → ℕ → Registry → Registry
unfolding stale_ids set_all_offline
reap_stale now timeout r = set_all_offline (stale_ids now timeout r.workers) r
