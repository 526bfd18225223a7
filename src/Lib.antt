-- ===== src/Lib.antt =====
-- Verification of the core of gearbox, a framework for REST services whose requests are jobs that
-- workers run, with a status that tells how far each job has come.
--
-- The parts and how they interact. A request becomes a job (gearbox/job/Job.h) and, unless it is
-- answered at once, a status (gearbox/job/Status.h) that clients poll under a URI. A worker
-- (gearbox/worker/Worker.cc) takes the job, marks the status RUNNING, calls its handler and ends the
-- status; the handler asks by `checkpoint` whether somebody wants the job to stop. A status is an
-- object over an implementation (gearbox/job/StatusImpl.cc and its subclasses), which caches what a
-- store holds. Errors are exceptions with an HTTP code (gearbox/core/Errors.h). What jobs, statuses and
-- configurations exchange is JSON (gearbox/core/Json.cc), checked against schemas
-- (gearbox/core/JsonSchema.cc); the agents of a configuration run in batches (gearbox/job/JobManager.cc).
--
-- The files:
--   Base and Base/: shared names, Boolean tests on numbers, lists, texts as lists of byte codes, and
--     the integers. A text is a `Bytes`; `codes` gives that of a string literal.
--   Errors.antt: gearbox/core/Errors.h and Errors.cc. `Outcome S A` is a call that returns or throws,
--     with the state that it leaves in either case.
--   Util/Shell.antt and Util/Base32.antt: `shellquote_list`, `encode_b32c`, `decode_b32c` and
--     `uuid_b32c` of gearbox/core/util.cc. Util/Shell/Reading.antt has the shell that reads the
--     quoted words back.
--   Uri/Text.antt, Uri/Path.antt, Uri/Methods.antt: gearbox/core/Uri.cc. A method is a function from
--     the object to an `Outcome`.
--   Status/State.antt: the states and `validStateTransition` of gearbox/job/Status.cc;
--     Status/Transitions.antt follows a status over a list of requests.
--   Status/Impl.antt: the fields and setters of gearbox/job/StatusImpl.cc.
--   Status/Backend.antt: `fail`, `cancel`, `success` and `checkpoint`, over the table of the virtual
--     methods that they call; the record `Laws` is what an implementation owes them.
--   Status/Transient.antt: gearbox/job/TransientStatusImpl.cc. The shared records are cells of a heap,
--     and objects point to them, so that two objects may share one. Status/Transient/Refines.antt
--     fills `Laws`.
--   Worker/: `run_job` of gearbox/worker/Worker.cc, in the order of its code: Attempt.antt is its
--     `try` block with the `catch` clauses, Run.antt what follows. What it calls is the record `Env`.
--   Job/Nodes.antt and Job/Queue.antt: `job_queue` of gearbox/job/JobManager.cc, which makes the jobs of
--     a configuration of agents and puts them into batches. What `known_job_name` says, the context of
--     a JSON value and the topological sort of boost are parameters. Job/Queue/Order.antt and
--     Job/Queue/Once.antt have the invariants of its loop; Job/Queue/Entries.antt and
--     Job/Queue/Total.antt are about the configurations for which it returns.
--   Job/QueueRun.antt: `job_queue_run` of the same file; its loop that polls runs on fuel, and `none` says
--     that it polls still. Job/QueueRun/Untimed.antt describes the same run without timers.
--   Job/Retry.antt: `retry` and `delay` of the same file, over the statuses kept in memory; the loop of
--     `delay` runs on fuel, which is enough from the first attempt that is accepted.
--   Job/Name.antt: the name of a job, in gearbox/job/JobImpl.cc.
--   Json/Value.antt: the values of gearbox/core/Json.h; Json/Order.antt has maps with ascending keys.
--   Json/Access.antt: reading and changing a value, from gearbox/core/Json.cc. A call that returns a
--     reference to an element returns the element; assigning through it is `set_key` or `set_at`.
--   Json/Generator.antt, Json/Parser.antt: gearbox/core/JsonGenerator.cc as the list of its calls of
--     yajl, and gearbox/core/JsonParser.cc as a step for each callback of yajl. Json/Parser/Reads.antt
--     has what yajl makes of its own text.
--   Schema.antt and Schema/: gearbox/core/JsonSchema.cc, and `validate` of gearbox/core/Json.cc. A check
--     is a `Verdict`, which is accepted or has the text of the error.
--   SqlStatus.antt and SqlStatus/: plugins/status/sql/SQLStatusImpl.cc, statuses in the tables of a data
--     base. Tables.antt is the interface of the tables, with the laws that the source relies on, and the
--     loops that repeat failing statements; Object.antt, Lists.antt and End.antt are the methods.
--     Reading.antt, Ending.antt, Races.antt and Messages.antt are about one object, about an end with
--     other processes at work, about many processes, and about failing statements. Collection.antt is the
--     collection of statuses, with its filters and its cursor.
--   GearboxWorker.antt and GearboxWorker/: workers/gearbox/WorkerGearbox.cc. World.antt has what its
--     handlers work on: the store, the delayed jobs and the jobs that run afterwards. Cancel.antt has the
--     four handlers that cancel a job, each composed of the next, over the statuses of
--     Status/Transient.antt; Steps.antt, Cancelling.antt and Refusing.antt follow a request through
--     them. Counter.antt counts the agents of a level, and Levels.antt chains the batches of
--     Job/Queue.antt.
--   DelayDaemon.antt: the delayed jobs of workers/gearbox/DelayProcessor.cc, and `do_put_delay_job_v1` of
--     workers/gearbox/WorkerGearbox.cc; DelayDaemon/Keeping.antt has what stays in their table.
--   Tests/: the theorems at concrete inputs.
--
-- Bounds and fuel. The loops of `encode_b32c` and of the printing of numbers run on fuel: a number
-- is its own bound, one more than it always suffices, and the round trip shows it. Arithmetic on
-- uint64_t is modulo 2 ^ 64, the counter of processes modulo 2 ^ 32; a queue of statuses holds 100.
-- A schema's counts are read modulo 2 ^ 32 and its lengths modulo 2 ^ 64, as the conversions of the
-- code do. The loops that poll jobs and that put a delayed job run on fuel: `none` says that they go on
-- still, and the theorems hold for every fuel, or say which is enough. All readings of the clock in one
-- call give the same second, but for those of `job_queue_run`, which polls an outside that changes.
--
-- What is not modelled. Logging, stack traces and copying of results are left out. The JSON values of
-- the worker and the status are texts. The updates of a status (`starting`, `stopping`, `add_message`,
-- the setters) throw nothing in the model of the worker, as in the implementation in memory. Of the
-- SQL plugin the registered events and the counter of processes are left out; its statements may fail,
-- and a list tells which, so that every loop over them ends. Of the handlers of the gearbox worker
-- those are left out that list, make and update statuses for other processes. Random numbers, the
-- clock, the data base, gearman, yajl, the arithmetic and texts of doubles and the handlers of a
-- worker are parameters. The parser of JSON stands without a schema, and the documents that it fills
-- are not part of others; error handlers that do not throw, and the contexts in the texts of schema
-- errors, are left out. The HTTP client, the configuration, the web server's module and the bindings
-- are outside the development.
pub mod Base
pub mod Errors
pub mod Util
pub mod Uri
pub mod Status
pub mod Json
pub mod Schema
pub mod Job
pub mod Worker
pub mod SqlStatus
pub mod GearboxWorker
pub mod DelayDaemon
pub mod Tests
