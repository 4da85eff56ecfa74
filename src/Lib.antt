-- ===== src/Lib.antt =====
-- AngelLab is a host-security daemon. The Lab supervises worker processes, the Angels, which watch
-- the host and report over a Unix socket. `labd` is the daemon, `angel` the worker, and `lab` the
-- command line.
--
-- The parts, and the file of each (paths from the repository's root):
--   Lab/Conn.antt         internal/lab/connection.go: ConnTracker, the state machine of one link with its
--                         recovery timer. Children: Edges (the diagram), Window (a link under a clock),
--                         Expiry and Reconnect (when the callback runs).
--   Lab/Supervisor.antt   internal/lab/supervisor.go: RegisterConn, HandleHeartbeat, MarkConnLost,
--                         checkHeartbeats and TerminateAngel for one angel. Children: Worker (runAngel as
--                         a state machine), Table (the process table, SpawnAngel, TerminateAll,
--                         BootRecovery), Ids (generateID), Restarts, Policy, Health, LateDrops and
--                         Boot (proofs).
--   Lab/Broadcast.antt    internal/lab/broadcaster.go: event subscribers with bounded channels.
--   Lab/Server.antt       internal/lab/server.go: the connections of the angels. Children: Frames, Events
--                         and Loop (proofs), and Cli, the requests of the command line, with Commands,
--                         Responses and the proofs Answers, Replies, Diffs, Exchange and Streams.
--   Lab/Daemon.antt       internal/lab/daemon.go, reload.go: configuration, start and reload.
--   Registry.antt         pkg/registry/registry.go: the SQLite tables. Children: Recovery and Recent.
--   Ipc.antt              pkg/ipc/transport.go, message.go: framed messages with deadlines, the HELLO
--                         handshake and Ping. Children: Frames, Deadlines, and Client
--                         (pkg/ipc/client.go) with Exchange.
--   Linux/NetConn.antt    pkg/linux/procnet.go: a socket, and the map from inodes to processes.
--   Linux/ProcNet.antt    pkg/linux/procnet.go: ParseTCPFile. Children: Numbers, Columns and RoundTrip.
--   Linux/Proc.antt       pkg/linux/proc.go: the parsers of /proc/<pid>/stat, status and the files of a
--                         cgroup, and the CPU sampler. Child: Stat.
--   Linux/Host.antt       pkg/linux/proc.go: the clock tick of the auxiliary vector, open descriptors.
--   Linux/Inotify.antt    pkg/linux/inotify.go: the watches and the parser of its buffers. Child: Buffers.
--   Net.antt              Go's net.IP as the program uses it. Child: Dotted, its texts.
--   Sentinel/*.antt       internal/angels/sentinel: Baseline (baseline.go), Dedup and Rate (dedup.go),
--                         Scorer (scorer.go), Poll (sentinel.go), Persist (persist.go) and Caches
--                         (inodecache.go), each with its proofs as children.
--   Memory.antt           internal/angels/memory/memory.go: the windows of resident memory and the
--                         alert rules. Children: Window, Alarms, Cooldown and Polls.
--   Guardian.antt         internal/angels/guardian/guardian.go: events on watched files, snapshots and
--                         restores. Children: Restore and Refresh (proofs), Diff (diff.go) with Report.
--   Process.antt          internal/angels/process: the table of processes, its baseline, the score and
--                         the poll. Children: Scores, Whitelist, Loops, Polls, Learning and Startup.
--   Logging.antt          pkg/logging/logger.go: levels, and the rotation of the log file. Child: Rotation.
--   Metrics.antt          pkg/metrics/exporter.go: the registry, and in Exposition the text it serves.
--   Prelude.antt          shared names, maps, sorting, decimal notation and lemmas.
--
-- How they interact: Lab/Server calls RegisterConn, HandleHeartbeat and MarkConnLost of the supervisor,
-- whose entries hold a Lab/Conn link and whose every change of state is written to the registry; it
-- answers the command line, whose side is Ipc/Client, from the same table. The
-- sentinel feeds the rows of Linux/ProcNet through Dedup, Scorer and Baseline. Angels and the Lab
-- exchange Ipc messages, and events go on to the Broadcast subscribers.
--
-- State is passed on explicitly, and a method that runs under one lock is one function. What goes on
-- at the same time is a list of steps (Lab/Conn/Window, Lab/Supervisor/Worker), in any order. Times are
-- nanoseconds that the caller reads. Machine integers that can wrap keep their wrap-around: uint64
-- sizes in Memory, the accumulators of Linux/ProcNet. Numbers that cannot come near a limit are
-- unbounded.
--
-- Loops are structural, except generateID, whose fuel is one more than the number of angels, and the
-- decimal digits, whose fuel is the number of digits or the number itself, and the receive loops of
-- Lab/Server, Ipc/Client and Linux/Inotify, whose fuel is the number of bytes that are there; these are enough.
--
-- Parameters: msgpack (Ipc.Msgpack, and the payloads in Lab/Server and Lab/Server/Cli), JSON
-- (Lab/Supervisor/Table.Codec, Process, Sentinel/Persist.Json), TOML (Lab/Daemon), what SQLite and /proc
-- answer (Lab/Supervisor.Env, Process.ProcFs), strings.ToLower in Memory, SHA-256 and the JSON
-- decoder in Guardian, texts of IPv6 in Net/Dotted. The lemmas that need it say what they ask of them.
--
-- Not modelled: the layout of log lines, the HTTP and the accept loops, the terminal programs, and
-- all of what only opens files, sockets or processes. White space is that of ASCII.
-- Float64 percentages of Memory are exact fractions. Go's map order is the order of insertion.
pub mod Guardian
pub mod Ipc
pub mod Lab
pub mod Linux
pub mod Logging
pub mod Memory
pub mod Metrics
pub mod Net
pub mod Prelude
pub mod Process
pub mod Registry
pub mod Sentinel
