-- ===== src/Lib.antt =====
-- The Python control plane of ROSPlus (src/rosplus): workspaces of files, the processes that run
-- their nodes, a safety monitor, an HTTP interface over these, and a tool that migrates ROS 1
-- sources; and the scripts that run and compare what it makes (scripts).
--
-- The parts and their files:
--   Models      src/rosplus/models.py: `NodeRecord`, `Workspace`, their `public`, `Workspace.log`
--   Workspace   src/rosplus/workspace.py: `WorkspaceManager`. `Workspace` has the registry (`create`,
--               `get`, `delete`), Workspace/Files the file methods (`safe_path`, `list_files`,
--               `read_file`, `write_file`), Workspace/Templates `NAME` and `TEMPLATES`
--   Process     src/rosplus/process.py: `ProcessManager`. Process/Table is the dict of `Popen`
--               objects, Process/Build, Process/Run and Process/Stop hold `build`, `run` and
--               `stop`, with the steps of `_capture`, Process/Output the whole of `_capture`, and
--               Process/Build/Race the statements of several builds as steps that interleave
--   Safety      src/rosplus/safety.py: Safety/Gpio is `GpioSimulator`, Safety/Monitor the methods of
--               `SafetyMonitor`, Safety/Watch the loop of `_watch` by itself, and Safety/Threads the
--               same statements as the steps of threads that interleave in one session
--   Server      src/rosplus/server.py: `Application` and its metrics, Server/Request the requests,
--               answers and the clauses that catch exceptions, Server/Render the JSON bodies,
--               Server/Dispatch the routes, Server/Lifecycle `__init__` and `close`,
--               Server/Heartbeats the threads of the application as time goes by, and
--               Server/Serve `serve`, over these
--   Migration   src/rosplus/migration.py: Migration/Syntax is what it uses of Python's syntax trees,
--               Migration/Transform is `Transform`, Migration/Python `migrate_python`, and
--               Migration/Tree `MigrationResult` and `migrate_tree`
--   Cli         src/rosplus/cli.py: the exit codes of `main`, and in Cli/Demo the safety demo, whose
--               two loops run beside the thread of `_watch`
--   Scripts     Scripts/Fixture is scripts/validate_migration_scenario.py, Scripts/Pairs
--               scripts/validate_migration_compatibility.py, Scripts/Capture
--               scripts/capture_migration.py, Scripts/Bag scripts/validate_recorded_bag.py,
--               Scripts/Talker scripts/check_ros2.py, and Scripts/Dds scripts/benchmark_dds.py.
--               Scripts/Lab has what they share: the world as they see it, the loops that wait, and
--               the end of their processes, and in Scripts/Lab/Counting the processes that the
--               system has started for them. The `main` of each bears the name of what it does.
--               Scripts/Reports/Validation is scripts/compare_migration_validation.py, with the
--               messages of its timers in Scripts/Timer, and Scripts/Reports/Compatibility is
--               scripts/compare_migration_compatibility.py. Scripts/Comparison is
--               scripts/benchmark_compare.py. Scripts/Benchmark has the samples and percentiles of
--               scripts/stock_benchmark.py, whose messages are in Scripts/Benchmark/Sender and whose
--               two parts run in Scripts/Benchmark/Publisher and Scripts/Benchmark/Subscriber
--   Base, Exec, Json, Paths and Disk are what these share: lists, texts and dicts, methods that may
--   raise, programs that wait (Exec/Task), JSON values with what Python reads of them (Json/Access)
--   and their equality (Json/Equal), `pathlib` paths, and the file system. Tests holds examples.
--
-- A method that changes its object is a function from the state to a result and the next state; what
-- was changed before an exception stays changed. The server calls the managers on the state it
-- holds, the process manager works on the registry of the workspace manager, and both on one disk.
-- A workspace object is shared by reference in the source; here it stands in the registry, and each
-- method that changes it stores it there. Times are whole microseconds, paths are lists of
-- components.
--
-- The file system is an argument (Disk), an interface of the calls that the sources make, and so are
-- the clocks, new identifiers, the compiler, `str.lower` on names, `str` of JSON values, the processes that are started and how they end,
-- `unquote`, `json.loads`, and the parser and printer of `ast`. `migrate_tree` takes what is made of
-- a text as an argument, for which Migration/Python has `convert`. Some results assume laws of the
-- file system (`IsLawful`), which Disk/Memory satisfies.
--
-- The world of the scripts is an argument too (`Lab`): the clock, `Popen` and its methods, the calls
-- of ROS, each with its result as JSON, and the files they read and write. Where a result needs it,
-- it assumes that sleeps and spins take time and that no call turns the clock back (`IsTicking`),
-- that a process can be killed and waited for (`IsReaping`), and that the calls on workers succeed
-- (`IsWorking`); Tests/Workbench has a world with all three. A call of a library comes back.
--
-- `_watch`, the safety demo and the loops of the scripts that wait for a deadline have no bound of
-- their own. They take fuel, and more than the timeout in microseconds is enough, as every sleep
-- lasts a microsecond at least; for the demo, in which two sleep in turn, it is twice the time.
-- `str` of a number takes as much fuel as the number and one.
--
-- Not modelled: the parsing of arguments, HTTP framing, the environment and the pipes of processes,
-- what a load worker does with its core, numbers with a fraction, and all that is not Python. The
-- locks of the managers are not modelled: each method of a manager is one step, except where
-- Process/Stop/Laws/Races puts the thread of `_capture` between them, and where Process/Build/Race
-- takes the builds of a workspace statement by statement. Safety/Threads has one call of `start` and
-- one of `stop`, and `GpioSimulator.set` is one step of it. The thread of `_capture` is taken to
-- start, `py_compile` to leave the disk as it is, and the files that `migrate_tree` scans are an
-- argument. A mode that is no text stands as the text that `str` makes of it.
pub mod Base
pub mod Json
pub mod Cli
pub mod Disk
pub mod Exec
pub mod Migration
pub mod Models
pub mod Paths
pub mod Process
pub mod Safety
pub mod Scripts
pub mod Server
pub mod Tests
pub mod Workspace
