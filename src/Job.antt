-- ===== src/Job.antt =====
-- gearbox/job: the names of jobs, and the batches of a configuration of agents.
pub mod Nodes
pub mod Queue
pub mod QueueRun
pub mod Retry
pub mod Name
