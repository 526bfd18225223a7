-- ===== src/GearboxWorker.antt =====
-- workers/gearbox/WorkerGearbox.cc: the worker that answers requests on statuses, runs the agents of a
-- configuration level by level, and counts down the agents of a level.
pub mod World
pub mod Cancel
pub mod Steps
pub mod Objects
pub mod Cancelling
pub mod Refusing
pub mod Counter
pub mod Levels
