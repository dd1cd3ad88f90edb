-- ===== src/Lib.antt =====
-- Parallel Consciousness: a coordination kernel for coding agents that converge through shared test
-- gates. Participants declare readiness for a gate (pkg/gate), over a message protocol (pkg/protocol)
-- that an agent loop carries on a bus; when every required participant stands, a coordinator asks a
-- runner to test and broadcasts its verdict; `pc submit` (internal/pcops) waits for the verdict that
-- tested its version, and a scenario (internal/pcops) bounds how many failing rounds there can be.
--
-- Prelude, Prelude/Tests, Prelude/Lists, Prelude/Int: shared names, Boolean tests, lists of names,
-- signed integers for durations. Dict: Go maps with string keys as association lists.
-- Protocol, Protocol/Body: pkg/protocol/protocol.go and body.go. Protocol/Wire: a message through
-- encoding/json, which is a parameter (Json) with its documented behaviour.
-- Agent: pkg/agent/agent.go, the dispatch of an agent whose handlers are arguments. Agent/Replies: the
-- proofs.
-- Gate: the data of pkg/gate/gate.go, `Ready` (ready_message) and `ServeRunner` (serve_request).
-- Gate/Round: what the coordinator does to one gate: outstandingFor, resolve, open, and onReady from
-- the gate's lock on (ready_at); the comment above each definition names its function or its part.
-- Gate/Coordinator: NewCoordinator, SetRunnerTimeout, Register, OnVerdict, onReady, onVerdictMsg and
-- the timer of open, over a map of gates. Effects holds the messages sent, the timers armed and the
-- calls of the verdict hook, in order.
-- Gate/Quorum, Gate/Versions, Gate/Phase, Gate/Phase/Moves, Gate/Answers, Gate/Runner,
-- Gate/Coordinator/Reach, Gate/Coordinator/Timers: the proofs.
-- Pcops/Config (with Loops, Valid, Timeouts): internal/pcops/config.go and the defaults that up.go and
-- submit.go put in. Pcops/Run (with Cycles, Cap): fixCycle and the loop of Run in run.go.
-- Pcops/Up: StartCoordinator and Up of up.go. Pcops/Run/Setup and Sessions: its set-up and teardown, drainEvents and heartbeatLease.
-- Pcops/Waiter, Pcops/Submit (with Hearing, Fence, Honest, Gap): submitwaiter.go and submit.go.
-- Bus/Sqlite: pkg/bus/sqlite/sqlite.go, the log, what Publish stores and buildMessage reads, cursors
-- and Prune. Bus/Sqlite/Wal: ensureWAL. Bus/Sqlite/Opening:
-- the options, Open, OpenDB, walBackoff and Close. Bus/Sqlite/Polling: deliverBatch and poll_. Bus/Sqlite/Encoding, Bus/Sqlite/Cursors,
-- Bus/Sqlite/Polling/Batches, Ranges and Delivery: the proofs. Columns of a row are texts, as in the
-- table; encoding/json and the layout of times are a parameter (Codec).
-- Bus/Sqlite/History (with Exact): history.go, `History` and the goroutine of `Tail`.
-- Bus/Memory: pkg/bus/bus.go, the bus inside one process; a channel is a number, with what it holds.
-- Bus/Memory/Open, Routing, Contract: the proofs, the contract being `wanted`. Bus/Agreement: the two
-- buses' choice of recipients.
-- Pcops/Runner (with Merging, Verdicts): rungate.go, mergeAll and the executor of StartRunner over git
-- and a shell, which are a parameter (Tools). Pcops/Watch (with Lines, Feed): watch.go, and
-- describeVersions of submit.go. Pcops/Courier (with Routing): courier.go and send.go, over a session
-- that is a parameter. Prelude/Texts, Prelude/Sorting: what these use of Go's strings and sort; a text
-- is a list of runes, so a cut in the middle of one drops it.
-- Runtime: the types of pkg/runtime/runtime.go. Runtime/Fake (with Beside, Pending, Endings):
-- pkg/runtime/fake/fake.go, the session's loop and its callers as interleaved moves.
-- Cmd (with Exits, Scenarios): cmd/pc/main.go, each command from its flags to its exit code.
-- Workspace: pkg/workspace/workspace.go and git.go, the lease table and the operations on it; the
-- disk and git are a parameter (Outside). Workspace/Acquire, Fencing, Races: the proofs.
-- Examples: concrete inputs.
--
-- Handlers of one agent run one after the other, as pkg/agent dispatches them, so each is one step, but
-- those of a submit: its loop runs beside them, and both are cut where they use the lock or a channel. A
-- runner timer's callback is two steps, since it releases the gate's lock in between; the coordinator's
-- answer from its cache, which does so too, is one. A timer finds its gate by id, so a gate is taken to
-- be registered once. The selects of submit and run take their signals in any order: the model is given
-- the order. No definition takes fuel. Times are nanoseconds (milliseconds for leases) that do not wrap;
-- message identifiers and times are arguments.
--
-- A statement of SQLite is one atomic step on its table; whether it fails is an input.
--
-- Not modelled: demonstration programs, test support, and pure input and output.
mod Prelude
pub mod Dict
pub mod Protocol
pub mod Gate
pub mod Agent
pub mod Bus
pub mod Pcops
pub mod Workspace
pub mod Cmd
pub mod Runtime
mod Examples
