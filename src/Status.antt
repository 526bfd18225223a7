-- ===== src/Status.antt =====
-- gearbox/job/Status.cc, StatusImpl.cc and TransientStatusImpl.cc: the status of a job.
pub mod State
pub mod Transitions
pub mod Impl
pub mod Backend
pub mod Transient
