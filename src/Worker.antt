-- ===== src/Worker.antt =====
-- gearbox/worker/Worker.cc: how a worker runs one job.
-- `W` is the world that a job can change: the status in its store, seen through the object
-- `status` and through the copy in the job's response, the data base, and the queues of other
-- jobs. What the worker calls there is an `Env`; the worker's own control flow is in the modules.
-- Logging, the log levels and the copying of the reply for gearman are left out.
pub mod Env
pub mod Queue
pub mod Attempt
pub mod Run
pub mod Reply
pub mod Settle
pub mod Flow
pub mod Returns
pub mod Total
