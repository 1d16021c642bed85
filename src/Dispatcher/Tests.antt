-- ===== src/Dispatcher/Tests.antt =====
-- Two connected workers (controller/cluster/dispatcher.go).
use game_janitor.Base.{ℕ, String, ◌≡◌, refl, true, false, none, some, [], ◌∷◌, map}
use game_janitor.Model.{WorkerNode}
use game_janitor.Store.{
  Store, get_worker_node, allocated_by_node, allocated_float_by_node, gameserver_count_by_node,
  int_limit,
}
use game_janitor.Registry.{Registry, RegisteredWorker, online}
use game_janitor.Dispatcher.{rank_workers_for_placement, before}

abbrev node : String → ℕ → WorkerNode
node id mem = record {
  id = id;
  max_memory_mb = some mem;
  max_cpu = none;
  max_storage_mb = none;
  cordoned = false;
  tags = [];
  port_range_start = none;
  port_range_end = none;
}

abbrev connected : RegisteredWorker
connected = record {
  worker = some 1;
  info = record {
    lan_ip = "";
    external_ip = "";
    cpu_cores = 4;
    memory_total_mb = 2048;
    memory_available_mb = 2048;
    disk_total_mb = 0;
    disk_available_mb = 0;
    status = online;
    last_seen = 0;
    token_id = "";
  };
}

abbrev database : Store
database = record {
  gameservers = [];
  nodes = node "n1" 1024 ∷ record (node "n2" 2048) { cordoned = true } ∷ node "n3" 0 ∷ [];
  fails = λ q. false;
}

abbrev registry : Registry
registry = record {
  workers = ("n3", connected) ∷ ("n2", connected) ∷ ("n1", connected) ∷ [];
  told = [];
}

-- The cordoned node is left out, and the one that has a limit and is empty goes first.
ranked : map (λ c. c.node_id) (rank_workers_for_placement database registry []) ≡ "n1" ∷ "n3" ∷ []
unfolding rank_workers_for_placement get_worker_node allocated_by_node allocated_float_by_node
    gameserver_count_by_node int_limit before
ranked = refl
