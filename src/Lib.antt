-- ===== src/Lib.antt =====
-- GameJanitor: a controller that runs game servers on worker nodes.
--
-- The controller keeps a runtime object for each gameserver (controller/gameserver), which starts,
-- stops and deletes its instance on a worker and listens to the events that the worker sends about
-- it. Before a gameserver is created it is placed on a node with room for it, where it gets free
-- ports (controller/cluster). The controller keeps all runtime objects in a map, recovers them from
-- the database when it starts, and routes the events of the workers to them.
-- Rows live in a database (store), as records (model).
--
--   Base        the names that all files share: tests on numbers and texts, lists, maps
--   Model       model/: the records, the comparison of configurations (ComputeRestartRequired)
--   Store       store/gameserver.go, store/worker_node.go: rows and the queries over them. Which
--               queries fail is a predicate of the state, so every error path can be taken.
--   Placement   controller/cluster/placement.go: PlacementService. Search is the search for a block
--               of free ports, Assign the numbering of a game's ports in it, Blocks what an
--               allocation is, Pending the ports reserved for gameservers not yet stored, Capacity
--               the limits of a node.
--   Games       games/registry.go, games/store.go: what the controller reads of a game's definition
--   Naming      util/naming/naming.go: the names of instances and volumes
--   Live        controller/gameserver/live.go: LiveGameserver. Process is HandleProcessEvent, with
--               Crash on its verdicts and Sync on memory and database; Operations is
--               submitOperation, with Exclusive on the single operation and Overlap on its limits;
--               Config is mergeEnv and parseGameserverPorts; Lifecycle is
--               controller/gameserver/lifecycle.go: executeStart, with Sync and Outcomes on how it
--               ends, Stop on doStop and stopIfRunning (archive.go), Stale on old instances, and Requests on Start, Stop and
--               the other calls, with CrashLoop on a server that crashes again and again.
--   Registry    controller/cluster/registry.go: the connected workers, with Reaper on timeouts
--   Vdf         steam/vdf.go: the parser of Steam's binary KeyValues, with Encode an independent
--               encoder, and Total on its end
--   Tracker     worker/local/tracker.go: what a worker knows of its instances and tells the
--               controller, with Latest on what a change sends
--   Dispatcher  controller/cluster/dispatcher.go: the worker of a gameserver, and the ranking of the
--               workers that a new one may be placed on, with Order and Ranking on the ranking
--   Manager     controller/gameserver/manager.go: the gameservers in memory. Manager itself routes
--               events and follows workers that come and go; Recovery is RecoverAll and
--               recoverGameserver, with Sound, Loaded and Honest on what they leave; Request is what
--               a client sends and its validation (model/validate.go); Config is UpdateConfig, with
--               Merged, Permissions and Escalation; Create is Create with quotas and defaults, with
--               Outcome, Complete, Succeeded and Quotas; Synced and Steps put the steps together.
--   RateLimit   sftp/ratelimit.go and the login of sftp/server.go: the failed logins of an address, with
--               Streaks on its counts and Logins on what the server answers
--   Warning     controller/warning/warning.go: the warnings about a gameserver's storage, with Told on
--               what is published of them
--   Access      controller/auth/auth.go, api/middleware.go and Manager.List of
--               controller/gameserver/manager.go: who is served, and who sees what.
--
-- Numbers. Ports, sizes and times are numbers from 0; CPU limits are in 1024ths of a core:
-- float64 values that are multiples of 2 ^ -10, whose sums float64 holds exactly below 2 ^ 53 units. The
-- sums that Go forms in int wrap at 2 ^ 63, which is written out where a limit is checked.
--
-- Loops. The search for ports has a counter of steps: one for each port of the range and one more,
-- and find_base-Answers shows that the search always ends before it runs out. The parser of KeyValues
-- has one step more than there are bytes; each step reads a byte.
--
-- Concurrency. A section under a lock is one step. The operation harness is a step function on a
-- state that holds the goroutines and the closed channels; a call that waits is a pass that leaves
-- the state unchanged. Side effects that follow a section are applied at once. A run of executeStart
-- or doStop is one step, with what the worker and the context answer as an argument.
--
-- The manager's methods are steps in any order, each with its reads and writes of the database at
-- once; what a worker answers to InspectInstance is a function of the instance.
--
-- Not modelled: transports, processes, mounts, images, HTTP handlers and their JSON, the command line
-- and the user interface. Ranking of workers is an argument of PlaceGameserver, which
-- Manager.Create gives the ranking of the dispatcher. Tokens are compared as
-- records: hashing and expiry are not modelled.
pub mod Base
pub mod Model
pub mod Games
pub mod Naming
pub mod Store
pub mod Placement
pub mod Live
pub mod Access
pub mod Registry
pub mod Vdf
pub mod Tracker
pub mod Dispatcher
pub mod Manager
pub mod RateLimit
pub mod Warning
