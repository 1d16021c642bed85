-- ===== src/Placement/Tests.antt =====
-- Runs of the placement (controller/cluster/placement.go) on a small cluster.
use game_janitor.Base.{
  ℕ, ◌≡◌, refl, ◌↔◌, true, false, [], ◌∷◌, none, some, arith, elem, All, insert, delete, eq_iff,
}
use game_janitor.Model.{Gameserver, WorkerNode, PortMapping, desired_stopped, no_error}
use game_janitor.Store.{
  Store, list_gameservers, create_gameserver, int_limit, get_worker_node, allocated_by_node,
  allocated_float_by_node,
}
use game_janitor.Placement.Assign.{unique_sorted, assign, port_index}
use game_janitor.Placement.Search.{find_base, first_used}
use game_janitor.Placement.Blocks.{Allocates, allocate_ports-Allocates}
use game_janitor.Placement.Pending.{Others, allocate_ports-apart, commit-used}
use game_janitor.Placement.Capacity.{check_worker_limits-HasRoom, HasRoom}
use game_janitor.Placement.{
  Placement, reserved_ports, ok, used_ports, port_range_for_node, allocate_ports, commit_ports,
  check_worker_limits, place_gameserver,
}

abbrev game : PortMapping
game = record { name = "game"; port = 27_015; protocol = "udp" }

abbrev query : PortMapping
query = record { name = "query"; port = 27_016; protocol = "udp" }

abbrev rcon : PortMapping
rcon = record { name = "rcon"; port = 27_015; protocol = "tcp" }

abbrev plain : Gameserver
plain = record {
  id = "a";
  name = "plain";
  game_id = "cs";
  volume_name = "gamejanitor-a";
  ports = record { name = "game"; port = 27_001; protocol = "udp" } ∷ [];
  env = [];
  memory_limit_mb = 512;
  cpu_limit = 500;
  cpu_enforced = false;
  port_mode = "auto";
  node_id = some "n1";
  backup_limit = none;
  storage_limit_mb = none;
  node_tags = [];
  auto_restart = none;
  connection_address = none;
  applied_config = none;
  desired_state = desired_stopped;
  created_by_token_id = none;
  grants = [];
  sftp_username = "plain";
  hashed_sftp_password = "";
  instance_id = none;
  installed = false;
  error_reason = no_error;
}

abbrev small : WorkerNode
small = record {
  id = "n1";
  max_memory_mb = some 2048;
  max_cpu = some 4000;
  max_storage_mb = none;
  cordoned = false;
  tags = [];
  port_range_start = none;
  port_range_end = none;
}

abbrev cluster : Store
cluster = record { gameservers = plain ∷ []; nodes = small ∷ []; fails = λ q. false }

abbrev start : Placement
start = record {
  store = cluster;
  settings = record {
    port_uniqueness = "cluster";
    port_range_start = 27_000;
    port_range_end = 27_010;
  };
  pending_ports = [];
}

-- The two games share a number, so three ports take two numbers behind the used one.
three_ports : used_ports start "n1" "" ≡ some (27_001 ∷ [])
unfolding used_ports list_gameservers reserved_ports
three_ports = refl

allocate_ports-Allocates_example :
    Allocates start
      (port_range_for_node start "n1")
      (27_001 ∷ [])
      (game ∷ query ∷ rcon ∷ [])
      (allocate_ports start (game ∷ query ∷ rcon ∷ []) "n1" "" "b")
allocate_ports-Allocates_example =
    allocate_ports-Allocates start game (query ∷ rcon ∷ []) "n1" "" "b" (27_001 ∷ []) three_ports

abbrev moved : ℕ → PortMapping → PortMapping
moved n m = record m { port = n }

abbrev after_first : Placement
after_first = record start { pending_ports = ("b", 27_002 ∷ 27_003 ∷ []) ∷ [] }

abbrev after_second : Placement
after_second = record start {
  pending_ports = ("b", 27_002 ∷ 27_003 ∷ []) ∷ ("c", 27_000 ∷ []) ∷ [];
}

-- What a run of the allocation computes with.
running : ℕ
unfolding allocate_ports used_ports list_gameservers find_base first_used unique_sorted assign
    insert reserved_ports port_range_for_node get_worker_node port_index place_gameserver
    check_worker_limits allocated_by_node allocated_float_by_node int_limit
running = 0

allocate_first :
    allocate_ports start (game ∷ query ∷ []) "n1" "" "b"
    ≡ ok (moved 27_002 game ∷ moved 27_003 query ∷ [], after_first)
unfolding running
allocate_first = refl

allocate_second :
    allocate_ports after_first (game ∷ []) "n1" "" "c" ≡ ok (moved 27_000 game ∷ [], after_second)
unfolding running
allocate_second = refl

abbrev after_third : Placement
after_third = record start {
  pending_ports = ("b", 27_002 ∷ 27_003 ∷ []) ∷ ("c", 27_000 ∷ []) ∷ ("d", 27_004 ∷ []) ∷ [];
}

allocate_third :
    allocate_ports after_second (game ∷ []) "n1" "" "d" ≡ ok (moved 27_004 game ∷ [], after_third)
unfolding running
allocate_third = refl

allocate_ports-apart_example :
    All (λ m. elem m.port (27_002 ∷ 27_003 ∷ []) ≡ false) (moved 27_004 game ∷ [])
allocate_ports-apart_example =
    allocate_ports-apart start after_first after_second after_third game game (query ∷ []) []
      (moved 27_002 game ∷ moved 27_003 query ∷ []) (moved 27_004 game ∷ []) "n1" "n1" "" "b" "d"
      (ground (arith, eq_iff "b" "")) allocate_first
      (Others.allocated (game ∷ []) (moved 27_000 game ∷ []) "n1" "" "c"
        (ground (arith, eq_iff "c" "b")) allocate_second Others.none_yet)
      allocate_third

abbrev fresh : Gameserver
fresh = record plain { id = "b"; ports = moved 27_002 game ∷ [] }

abbrev stored : Store
stored = record cluster { gameservers = fresh ∷ plain ∷ [] }

commit-used_example : elem 27_002 (27_002 ∷ 27_001 ∷ []) ≡ true
unfolding create_gameserver used_ports commit_ports list_gameservers delete reserved_ports
commit-used_example =
    commit-used after_first stored fresh "n1" "" 27_002 (27_002 ∷ 27_001 ∷ []) refl refl
      (ground (arith, eq_iff "b" "")) refl refl (omega arith)

check_worker_limits-HasRoom_example :
    ((node : WorkerNode)
      → get_worker_node cluster "n1" ≡ some node
      → (check_worker_limits cluster "n1" 1024 500 0 "" ≡ none)
        ↔ HasRoom cluster node "n1" 1024 500 0 "")
    × (get_worker_node cluster "n1" ≡ none → check_worker_limits cluster "n1" 1024 500 0 "" ≡ none)
unfolding allocated_by_node allocated_float_by_node int_limit
check_worker_limits-HasRoom_example =
    check_worker_limits-HasRoom cluster "n1" 1024 500 0 "" (omega arith) (omega arith) (omega arith)
