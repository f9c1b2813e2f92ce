-- ===== src/Lib.antt =====
-- cli-toolkit: a model of the parts of the toolkit that keep a program inside its jail and that
-- drive it in tests: the jail boundary, the jailed file system, the environment and the clock of a
-- test, the runtime over them, processes and pipelines, the log of a test, and the cascade of
-- configuration layers.
--
-- How the parts interact. `toolkit/jail` decides by the text of two paths whether one lies below
-- the other. `toolkit/filesystem` keeps a jail and a working directory, turns each path that a
-- program names into a path of the host, asks the host what links there are, and checks every
-- link-free path against the jail before it makes its one call of the host. `toolkit/env` keeps the
-- variables of a test, with a home that moves with the jail. `clock` keeps a queue of timers and
-- tickers over a time that moves only when a test moves it. `toolkit.Runtime` puts one jail and one
-- working directory over an environment and a file system, hands both on to the two, and resolves
-- each path before the file system sees it. `sandbox` runs functions as processes over clones of
-- such a runtime, alone or joined into a pipeline, and bundles a runtime with a clock and fixtures
-- for tests. `cfgcascade` merges what its providers load.
--
-- FilePath (Split, Clean, Join, Rel, Dir): Go's path/filepath on Unix, which the sources call:
--   Clean, IsAbs, Join, Rel, Dir and Base on the bytes of a path. Windows paths are not modelled.
-- Jail (Boundary, Prefix): toolkit/jail/path.go and toolkit/jail/jail.go. CleanJail is clean_jail,
--   RemoveJailPrefix is remove_jail_prefix, IsInJail is is_in_jail, EnsureInJail is ensure_in_jail.
-- OsFs (Base, Calls, Methods, Virtual, Walk, Create, Confined, Checked, Escape, Start, Glob,
--   Prefix, Matches): toolkit/filesystem/os_fs.go. OsFS is the record OsFs; resolveVirtual,
--   resolveHost, resolveHostForCreate and resolveHostForOpen are resolve_virtual, resolve_host,
--   resolve_host_for_create and resolve_host_for_open; the methods are the functions of
--   OsFs/Methods, which perform brings together, each with the one call of the host that it ends in
--   as its result, and setwd; NewOsFS is new_os_fs. The host (os.Getwd, os.Lstat, os.Stat,
--   filepath.EvalSymlinks, filepath.Glob) is a parameter, a record of functions, of which is
--   supposed only that it answers with absolute paths. It does not change between a check and the
--   call behind it; under a Runtime it may answer otherwise behind each call made of it (World in
--   Runtime/Host), except for the EvalSymlinks of a test environment, which is one function
--   throughout.
-- Clock (Order, Drain, Rounds, Sequence, Ticks, Invariant, Advance, Timers, Liveness):
--   clock/clock.go and clock/scheduler.go. TestClock with its scheduler is the record Scheduler;
--   addTicker, addAfterFunc, addAfter, stopTicker, remove, cancel, resetTimer and advance are the
--   functions of those names. The priority queue is kept as the list of what container/heap pops,
--   in that order. A time is an integer of nanoseconds, with no bound; the numbers of entries wrap
--   at 64 bits. A send on a channel of capacity 1 fills its cell or is dropped; a started goroutine
--   is a callback in a list.
-- TestEnv (Vars, Paths, Homes, Invariant, Kept, Reach, Environ): toolkit/env/test_env.go on Unix.
--   TestEnv is the record of that name; SetJail, SetHome, SetUser, Setwd, Set, Unset, Get, GetHome,
--   ExpandPath, ResolvePath, Environ and GetTempDir are the functions of those names. It uses Jail
--   as OsFs does. filepath.EvalSymlinks and sort.Strings are parameters.
-- Cascade (Resolve, EnvKeys): cfgcascade/cascade.go, cfgcascade/provider.go, cfgcascade/env.go.
--   Cascade.Resolve is resolve, with its loop in visit_all; sort.Slice, MergeFn and os.Getenv are
--   parameters. EnvProvider.Load is env_load.
-- User (Paths): toolkit/user.go and appctx/context.go. UserConfigPath, UserCachePath, UserDataPath,
--   UserStatePath and NewAppPaths are the functions of those names, on Unix, over a record of what
--   they call of an Env. ExpandPath of that file is expand_user_path; GetDefault of
--   toolkit/env/env.go is get_default.
-- Expand (Braces): os.Expand, which ExpandEnv of toolkit/env/env.go calls, as expand_env.
-- Runtime (Base, Files, Options, Contract, Kept, Confined, Sync, Reach, Paths, Host, Sandbox,
--   Start, Glob): toolkit/runtime.go. Runtime is the record of that name over any environment and
--   any file system: the interfaces of toolkit/env/env.go and toolkit/filesystem/filesystem.go are
--   the records Environment and FileSystem, with their laws in Runtime/Contract, and Runtime/Host
--   fills both with TestEnv and OsFS. The methods have the code's names; normalizeState is
--   normalize_state, and the four forms that the methods on files take are act, act_at, act_below
--   and act_between. Whether the host's call succeeds is the parameter `reply`. The record keeps
--   one thing that the code does not, the list of the calls of package os made of the host, which
--   only `reply` and the host's answers depend on.
-- Process (Pipeline, Chain, Exit): sandbox/process.go and sandbox/pipeline.go. Process and Pipeline
--   are the records of those names; Process.Run is run, with the choice of its streams in start,
--   and Pipeline.Run is run_pipeline, with the joining of its stages in connect and its end in
--   collect. What a runner returns and the order that stages finish in are parameters.
-- Log (Lines, Handler, Shared): mylog/logger.go and mylog/logger_testutils.go. ParseLevel is
--   parse_level, and SlogWriter.Write is write, with the lines that it logs in logged;
--   runtime.Caller is a parameter. TestHandler is the record of that name, in a store, since
--   handlers point to their parents; Handle, WithAttrs, WithGroup, root and FindEntries are handle,
--   with_attrs, with_group, root_of and find_entries. A parent is made before, so the place of a
--   handler is fuel enough for root.
-- Sandbox (Base, Embed, Copied, Below, Held, Confined, Whole): sandbox/sandbox.go, over
--   NewTestRuntime of toolkit/runtime_impl.go, which is new_test_runtime in Runtime/Start. Sandbox
--   is the record of that name, NewSandbox is new_sandbox, and the options and methods have the
--   code's names; copyEmbedDir is copy_embed_dir, over a tree in place of the embedded file system.
--   The directory of TempDir and whether a call of package os succeeds are parameters.
-- GitRoot (Nearest): appctx/git.go. FindGitRoot is find_git_root, with its loop in search_up; what
--   Runtime.Stat reports and what git does are parameters. Each round of the loop takes a name off,
--   so the length of the path is fuel enough.
-- OsEnv (Lookup, Whole, Dump): toolkit/env/os_env.go and DumpEnv of toolkit/env/env.go. OsEnv is
--   the record of that name with the variables and the directory of its process; the methods have
--   the code's names. user.Current, os.Getwd and os.Chdir are the parameter System. OsEnv/Whole
--   puts it under Runtime with OsFS, as NewRuntime does by default.
-- Base (Tests, Lists, Text, Int): Boolean tests, lists, byte strings, and integers.
--
-- Strings are lists of bytes, and strings.TrimSpace is modelled on ASCII white space. Mutexes are
-- left out: each method is one step. Only Advance of the clock lets go of its lock within one,
-- between collecting and firing: callbacks that call the clock, or calls from elsewhere at that
-- moment, are not modelled. The loop of resolveHostForCreate runs on the length of the path as
-- fuel, since each round takes a name off. The loop of advance runs on the sum over the queue of
-- how many nanoseconds each entry is overdue, since a ticker comes back at least one nanosecond
-- later.
--
-- Not modelled: OsClock, streams, terminals, hashing and the identity of a process, which wrap the
-- operating system; what a Sandbox dumps to the log of its test; of mylog, NewLogger and
-- RequireEntry; Clone of a Runtime, which shares its file system; os.Chdir as a call of the host;
-- the bytes that flow between processes; Edit; of OsFS, the steps of AtomicWriteFile behind its
-- path; of TestEnv, Clone, which copies values that nothing shares here.
pub mod Base
pub mod FilePath
pub mod Jail
pub mod OsFs
pub mod TestEnv
pub mod User
pub mod Clock
pub mod Cascade
pub mod Expand
pub mod Runtime
pub mod Process
pub mod Log
pub mod Sandbox
pub mod GitRoot
pub mod OsEnv
