-- ===== src/Registry/Tests.antt =====
-- Runs of the registry (controller/cluster/registry.go) with one worker.
use game_janitor.Base.{ℕ, String, [], ◌∷◌, some, lookup, ◌≡◌, arith}
use game_janitor.Registry.{
  Registry, RegisteredWorker, WorkerInfo, online, clear_worker, register, set_offline, unregister,
  update_heartbeat,
}
use game_janitor.Registry.Reaper.{registry-ShowsConnections, ShowsConnections}

abbrev connected : RegisteredWorker
connected = record {
  worker = some 1;
  info = record {
    lan_ip = "10.0.0.2";
    external_ip = "";
    cpu_cores = 8;
    memory_total_mb = 16_384;
    memory_available_mb = 8192;
    disk_total_mb = 100_000;
    disk_available_mb = 50_000;
    status = online;
    last_seen = 100;
    token_id = "t1";
  };
}

abbrev one : Registry
one = record { workers = ("n1", connected) ∷ []; told = [] }

shows : ShowsConnections one
unfolding lookup
shows id rw e f = ground (arith, e)

registry-ShowsConnections_example :
    ((now : ℕ) (id : String) (c : ℕ) (info : WorkerInfo)
      → ShowsConnections (register now id c info one))
    × ((id : String) → ShowsConnections (clear_worker id one))
    × ((id : String) → ShowsConnections (set_offline id one))
    × ((id : String) → ShowsConnections (unregister id one))
    × ((now : ℕ) (id : String) (info : WorkerInfo) (r' : Registry)
        → update_heartbeat now id info one ≡ some r'
        → ShowsConnections r')
registry-ShowsConnections_example = registry-ShowsConnections one shows
