-- ===== src/Lib.antt =====
-- crewd: the core of the message bus daemon, crates/crewd-core, and its request handlers, crates/crewd.
--
-- The daemon lets cells (agents) send, ask, reply and broadcast. A request passes the validators, the
-- access control and the quotas, becomes an envelope with a sequence number of its pair of cells, and
-- is queued as one delivery row for each recipient; a delivery is claimed under a lease, delivered,
-- retried with a back-off, or read from the inbox. Asks have one reply, awaits on asks are edges of a
-- graph without cycles, and every change is an event of a hash chain. Cells run engine threads, which
-- are spawned idempotently and work through a queue of jobs.
--
-- Files, with the code that they model under crates/crewd-core/src:
--   Error           error.rs: the error variants and their codes; Result and `?`
--   Types           types.rs: Envelope, validate_invariants, clamp_ttl; Types.Clock: the calendar, RFC 3339
--   Validators      validators.rs: names of cells and idempotency keys
--   Acl             acl.rs: Capability, Acl::parse, check, check_reach, recipients_for_broadcast, reload
--   Quota           quota.rs: QuotaTracker with its sliding windows
--   Tickets         tickets.rs: WaitForGraph; `closes_cycle` is `search` around `scan`
--   Delivery        state.rs and the contract of adapter.rs: the states of a delivery
--   Canonical       canonical.rs: canonical JSON
--   Audit           audit.rs: AuditChain::append, verify, open
--   Store.Tables    the schema of store.rs and the row types of cells.rs, threads.rs, jobs.rs
--   Store.Deliveries, Store.Asks    store.rs: the operations of Store
--   Jobs            jobs.rs: the job queue of a cell
--   Threads         threads.rs: the threads of the cells; Threads.Recovery: threads_in_states, and
--                   boot_recovery of crates/crewd/src/scheduler.rs
--   Spawn           spawn.rs: spawn_idempotent; Spawn.Worktrees: worktree_record, worktree_mark_cleanup, worktree_list
--   Cells           cells.rs: cell_register, cell_update, cell_get, cell_list_defs, resolve_spawn_target
--   Wire            wire.rs: frames, responses and the parameters of the tools
--   Engine          engine.rs: the types of the engines, the journal and its tail
--   Daemon          crates/crewd/src/handlers.rs: DaemonState, audit, the checks; below it
--                   Outbound (authorize_outbound, admit_outbound), Send, Ask, Await, Reply, Broadcast,
--                   Fabric (spawn, send_task, cancel), Reads (inbox, list, status, result, correlation),
--                   Operator (op_status, op_inspect, op_audit_verify), Names, Json, Dispatch; Daemon.Loop: delivery.rs, tick and
--                   apply_outcome
--   Engines         crates/crewd/src/engines/mod.rs: the contract EngineAdapter; Engines.Fake: fake.rs
--   Supervisor      crates/crewd/src/supervisor.rs: EngineSupervisor over any adapter
--   Base            shared lists, tables, tests and texts
-- The files below these prove what they are named for; the modules named Tests hold runs and examples.
--
-- State and steps. A struct is a record, an enum a data type, a table the list of its rows in the order
-- of their row ids, and a HashMap the list of its entries or the function that looks a key up. An operation takes the state and returns
-- its result beside the new state; a transaction is one step, and one that fails leaves the tables as
-- they were. Where a property is about a history, a data type Step lists the calls and Reach the
-- states that they make of the empty one.
--
-- A handler is an action: a function from the daemon's state to a result and a state, composed with the
-- steps of Daemon (`lift` for a check, `gets` for a look at the state, `on_store` for a call of the
-- store) in the order of the source, so that an early return keeps what was written before it. Trail,
-- Writes and Success are the rules that the proofs go by, step by step: what is kept whether a step
-- succeeds or not, and what a success has passed. handle_await is two steps, with other requests between.
--
-- Parameters. What a handler takes from outside is the argument World: serde_json's reading of each
-- tool's parameters, and what the n-th look at the disk, the clock, the UUID generator and SQLite sees.
-- The clock, fresh identifiers and random jitter are arguments. SHA-256, JSON reading and writing, and
-- what a file system does with a line are arguments (Audit.Codec, Audit.Disk); a theorem that needs a
-- line to read back says so. make_adapter is an argument of the supervisor. The TOML reader's result is
-- the argument of Acl.parse.
--
-- Failures. A write of a handler, of an envelope, a delivery, an ask, a reply or a submission, may fail
-- in SQLite and leaves those before it as they are (Daemon.write). Elsewhere a statement that the schema
-- allows succeeds. The roll-back of the transaction of a spawn is SQLite's, and taken as such. A write to
-- the audit file that stops within a line is left out, as the file is the list of its lines.
--
-- Numbers are natural numbers. u32 counters of the wait-for graph and the 64-bit shift of the back-off
-- wrap as in the code; saturating subtraction is that of the natural numbers; times and
-- attempts fit their words.
--
-- Fuel. Only `search` of Tickets runs on fuel, two more than the edges of the graph: each round takes a
-- cell off the queue, and each cell is queued once, by an edge or as the start. Tickets.Search shows
-- that the search always answers.
--
-- Not modelled: the interleavings of two handlers between their locks, and a reload of the access
-- control within one; the rest of scheduler.rs, server.rs and auth.rs of crates/crewd, the engines that are child processes, the command line of crates/crew, principal.rs,
-- ephemeral_startable_defs of threads.rs, and the texts that errors carry.
pub mod Base
pub mod Error
pub mod Types
pub mod Delivery
pub mod Validators
pub mod Wire
pub mod Acl
pub mod Quota
pub mod Tickets
pub mod Canonical
pub mod Audit
pub mod Store
pub mod Jobs
pub mod Threads
pub mod Spawn
pub mod Cells
pub mod Engine
pub mod Daemon
pub mod Engines
pub mod Supervisor
