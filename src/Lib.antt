-- ===== src/Lib.antt =====
-- A verification library for pm0, a process supervisor written in Go.
--
-- The program. A daemon keeps a registry of applications (internal/supervisor/supervisor.go). Each
-- is an actor, one goroutine, that owns the state of one application and handles one message or
-- event at a time (internal/machine/machine.go). The actor calls the process layer (internal/proc)
-- to spawn a process tree and to kill one, and reads its configuration (internal/config). Cron
-- expressions (internal/cron/cron.go) are parsed when an application is built. A log route for each
-- application tails the files that the process writes (internal/logbus/logbus.go). A reconciler
-- restarts applications by cron, memory, health checks and file changes (internal/ops/ops.go).
--
-- The files.
--   Base        numbers, integers, texts, maps and decimal numerals for all other files.
--   Config      the configuration record and its defaults (internal/config/config.go); Interp
--               (WithResolvedExec, internal/config/interp.go), with its proofs in Interp/Targets and Interp/Resolved;
--               Ecosystem (the coercions of internal/config/ecosystem.go) and its child Keys
--               (parseEcosystemApp, appsFromExports, ResolveEnv), with the proofs in Ecosystem/Units
--               and Keys/Accepted.
--   Proc        handles, exit information, spawn specifications and SanitizeName (internal/proc); Stat
--               (the readers of /proc/<pid>/stat, starttime_linux.go and snapshot_linux.go), Snapshot
--               (ReadSnapshot, AttributeTree, and orphanMarkerIndex of internal/daemon), Cgroup and
--               Detect (detect_linux.go), Scan (scan_linux.go) and Kill (StopWithin and the force
--               paths, handle_linux.go and cgroup_linux.go). The proofs are in Stat/Image,
--               Snapshot/Attributed, Detect/Justified, Kill/Drained, Kill/Ends and Kill/Verified.
--   Cron        Parse, parseField, checkFeasible and dayMatches (internal/cron/cron.go); Calendar (what
--               it uses of Go's time package) and Next (Next); the proofs are in Calendar/Skips and
--               Next/First.
--   Machine     State (the App struct), Policy (restart delays and the crash budget's bookkeeping),
--               Env (command line and environment of a child), Signals, Build (New and Adopt),
--               Handlers (onStart, onStop, ... and launch), Exit (onExit), Actor (the loop),
--               Snapshot. The proofs are in Machine/Actor, Machine/Policy, Machine/Env/Getenv and
--               Machine/Build.
--   Supervisor  Registry (StartApps, StartReplacementAt, RegisterAt), Commands (resolveLocked and
--               the commands), Reload (the registry's part of reloadOne), Gate (its stability gate,
--               and ReloadIDs); Rolling, Starting, Placing, Listing, Naming and Gate/Deadline
--               hold the proofs.
--   Logbus      the data of a log route (internal/logbus/logbus.go); Ring (pushRing), Fanout (fanout),
--               Routing (appendLines, Backlog, Subscribe, Clear, Close), Lines (SplitCompleteConsumed,
--               readNewIntoPrefix) and Pump (one tick of pump). The proofs are in Ring/Refine,
--               Ring/Push, Ring/Bounds, Fanout/Accounts, Routing/Capture, Lines/Conserved, Pump/Tail.
--   Ops         the data and the knobs of the reconciler (internal/ops/ops.go); Sync (Sync, Stop) and
--               Step (step, the probe, onWatchEvent), Watch (watchIgnore and
--               the loop of internal/ops/watch_linux.go). The proofs are in Sync/Runners, Step/Passes,
--               Step/Health, Step/Runs and Watch/Quiet.
--   Store       appToRecord, recordToApp and what Save and Load make of them (internal/store/store.go);
--               the proof is in RoundTrip.
--   Cluster     the node version that cluster mode wants (internal/cluster/cluster.go); the proof is
--               in Versions.
--   Daemon      DropLog (dropLogger, internal/daemon/logroute.go), with its proofs in Accounts;
--               Redact (internal/daemon/redact.go, and Save of internal/daemon/control.go), with its
--               proofs in Hidden; Convert (specToConfig and fillPaths, internal/daemon/convert.go);
--               Select (resolveSelector, internal/daemon/daemon.go); Expand, Control, Scale and
--               Resurrect (internal/daemon/control.go). The proofs are in Select/Chosen,
--               Expand/Family, Scale/Shared, Resurrect/Placed and
--               Resurrect/Preserved.
--   Samples, Tests  test data, runs of the code, and the theorems at concrete inputs.
--
-- The correspondence. A method that mutates its receiver returns the new record, and an error is an
-- Option. Strings are lists of bytes, maps are association lists in the order of Go's range loop,
-- int and time.Duration are integers whose products wrap at 64 bits, times are nanoseconds on one
-- clock with `none` for Go's zero time. Pids, ids, serials and counters are unbounded naturals.
-- What the process layer and the clock answer during a step is a `World`, any value of which is
-- admitted: a spawn may fail, a kill path may leave survivors. The field `calls` of App is not in
-- the source: it lists the calls made of the process layer, so that statements can speak of them.
-- The identity of an actor (its pointer) is the serial with which it was registered; that of a
-- parked one is kept at the key -id - 1, as in the source. A timer's channel is the Option that
-- tells how long it was set for. The waits inside a handler are not interleaved with other
-- messages, which the single goroutine does not allow either; commands that come between two polls
-- of the reload gate are the function `meanwhile` of the later poll, any change of the registry.
-- A delete that a reload sends to an actor that has ended blocks, as it does in the source; that other
-- commands are sent to such an actor is left out.
--
-- A log route is the record Route; a subscriber's channel is the list that it holds, and what its
-- consumer receives during a delivery is a `Traffic`, any value of which is admitted. What the file
-- system answers during a tick of a pump is a `Look`, the outcome of a rotation included. The field
-- `sent` of Sub is not in the source: it lists all that its channel accepted.
--
-- An instant of the calendar is a Minute in UTC; its seconds play no part in cron.go. A pass of a
-- runner reads the clock once, as a `Now`, and what the callbacks tell it is an `Answers`; the probe
-- goroutine and the passes are separate steps. The restarts that a pass asks for are its reasons.
--
-- The events of a watch come with the times at which the loop takes them, and what the loop's timer
-- has pending is the time at which it ends.
--
-- What the file system and PATH answer to WithResolvedExec is a `Files`, with the path that
-- filepath.Join makes.
--
-- What the kernel, the cgroup files and the clock answer during a stop of a tree are the `Answers` of
-- Proc/Kill, in the order in which the code asks, so that the tree may do anything between two looks;
-- `Action` is what the stop does to it. The machine takes a stop as one answer of its `World`. What
-- /proc, the environment and the probe answer to the other parts of internal/proc are arguments, and
-- so are filepath.Join and filepath.Rel, the output of `node --version` and the search for a tree to
-- adopt. A request to the daemon is a function of the registry; its handlers are not interleaved.
--
-- The values of an ecosystem file are given evaluated; a number is what the code asks of it, and what
-- strconv.ParseFloat answers is an argument. The fields of an object come in any order.
--
-- The drop reports are a step relation on the atomic operations of onDrop and flush; their counters
-- do not overflow in it.
--
-- Bounds and fuel. `search` moves forward by at least a minute a round, and the minutes up to its
-- limit are its fuel. `make_room` evicts one line a round, and the lines in the ring are its fuel;
-- `split_from` makes one round for each newline, and a byte is fuel enough for one. `itoa` makes at
-- most n + 1 rounds for n. `fill`, the loop over the values of a cron element, makes one round for
-- each value up to the last, which is at most 59, and the last value plus one is its fuel; a step
-- near 2 ^ 63, which overflows int in the source, is out of scope. All else is structural recursion;
-- the loops of the reload gate and of the kill path recurse on the lists of their polls.
--
-- Not modelled: the launcher, the reaper, the IPC channel and the search for a tree to adopt of
-- internal/proc, which are system calls, the text of the cluster preload, the evaluation of an ecosystem
-- file (JSON, and JavaScript by a third-party package), JSON and file I/O of the dump,
-- the walk over the directories that are watched, the daemon's socket, monitoring numbers and HTTP
-- front end, the client and the command line; of the parts above, the advisory pid file, locks, and log
-- output. Case folding and blanks are those of ASCII.
pub mod Base
pub mod Config
pub mod Proc
pub mod Cron
pub mod Machine
pub mod Supervisor
pub mod Logbus
pub mod Ops
pub mod Store
pub mod Cluster
pub mod Daemon
pub mod Samples
pub mod Tests
