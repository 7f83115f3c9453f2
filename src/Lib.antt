-- ===== src/Lib.antt =====
-- herdr-tabline renames the tabs of a Herdr session by a template. A daemon takes a snapshot of
-- the session, builds a context for each tab, resolves the configuration's profiles against it,
-- renders the label and renames the tab; a store keeps, for each tab, the label that the user
-- gave.
--
-- Base (tests, lists, integers, texts, paths, maps, results): what the program uses of Go and
--   its standard library. A Go map is an association list, an `int` a ℤ.
-- Api: internal/herdrapi/types.go, the records of the server's answers.
-- Model: internal/model/context.go, the records that templates and matchers see.
-- Collector: internal/collector. Build is `Build` of collector.go, Panes `selectPane`,
--   Processes `AttachProcess`, Normalize the functions of that name, Sessions `BuildSession` of
--   session.go.
-- Render: internal/render. Width is width.go; Engine is engine.go (`New`, `Compile`, `Execute`,
--   `ExecuteSession`), where a slice out of range is an error value. The templates of
--   text/template and the segmentation of uniseg are parameters. Helpers is helpers.go, over
--   the values that reflection tells apart.
-- Config: internal/config. Types is types.go, Matching and Resolve are profile.go, Compile and
--   Manager load.go (`compile`, `Load`, `ReloadIfChanged`). Regular expressions, globs,
--   durations, TOML, SHA-256 and the file system are parameters.
-- State: internal/state. Store is store.go: the disk is a map from paths to contents, and the
--   failure of each call is an input. encoding/json is a parameter. Sharing is `Store.lock` of
--   lock_unix.go with `Load`, `Update` and `writeAtomically` as step relations, a system call a
--   step, of callers that interleave, fail and die. Daemon is the same for `Acquire`,
--   `Release`, `SignalStop` and `clearStalePID`.
-- Client: internal/herdrapi/client_unix.go. Client itself is the reading and decoding of the
--   answer to a call, Calls the call around it with its id, Subscription `Subscribe` and
--   its stream, Lifecycle `begin`, the slots and `Close` as a step relation.
--   The buffered reader is the list of its slices, the bound on a frame (1 << 20) an argument.
-- Controller: internal/controller/controller.go. A pass (`Reconcile`) runs over a world of the
--   server, the configuration and the store, whose calls are a record; an error of one tab is a
--   value that the loop drops, as the source logs it. Calls, Visits and Passes are about one
--   pass, Sources about the labels of the user, Settling about a pass that follows another.
-- Runner: internal/controller/runner.go. `Run` is a step relation on the variables of the loop
--   and the world: an event, the closed stream, an expiry, a value received from a timer or the
--   ticker.
-- Session: a pass with internal/config's manager and internal/state's store as the calls behind
--   it.
-- Cli: internal/cli. Cli itself is the environment, the choice of the tab and `rename-current`
--   of app.go, Preview its `preview`, Commands the other commands with status.go, and `Run`.
-- Tests: the model on concrete inputs.
--
-- A pass calls the collector, the resolution and the engine as the source does; the runner
-- makes passes, and the commands make one, show one or start the runner. The manager and the
-- store stand behind the record of services, as they stand behind the source's interfaces, and
-- Session puts them there.
--
-- All definitions are total, most by recursion on lists or texts. Three have fuel: `reconnect`,
-- which tries without end while subscribing fails, and needs more than its failed rounds; a
-- subscription's stream, which needs more than the reader's slices; and the digits of a number.
-- Positions and counts are natural numbers without a bound, other integers have no overflow:
-- the program adds to none but counts of list elements. Times are numbers of nanoseconds.
--
-- Not modelled: the encoding of the socket client's requests and the deadlines of its
-- connections, the template functions that only pass on a call of the standard library, the
-- starting of a process (internal/cli/process_unix.go), and cmd/herdr-tabline. Outside of
-- Sharing, a load and an update of the store are one step each, and a reload is one step;
-- logging is left out.
pub mod Base
pub mod Api
pub mod Model
pub mod Collector
pub mod Render
pub mod Config
pub mod State
pub mod Client
pub mod Controller
pub mod Runner
pub mod Session
pub mod Cli
pub mod Tests
