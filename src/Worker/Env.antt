-- ===== src/Worker/Env.antt =====
-- What `run_job` of gearbox/worker/Worker.cc calls, and the values that it passes around.
use gearbox.Base.{ℕ, ℤ, List, Bytes, is_empty, if◌then◌else◌}
use gearbox.Errors.{Exception, Outcome}
use gearbox.Status.Backend.{Backend}

-- `Worker::response_t`
pub data Response : Type 0 where
  success error continue retry : Response

-- `Job::JobType`
pub data JobType : Type 0 where
  unknown sync async : JobType

-- `Job::Event`
pub data Event : Type 0 where
  unknown completed failed succeeded started stopped cancelled : Event

-- `JobResponse`, without the status and the job that it points to
pub record JobResponse : Type 0 where
  pub content : Bytes
  pub headers : List (Bytes × Bytes)
  pub code : ℤ

-- an entry of the queue of jobs to run afterwards: the job's name and the delay in seconds
pub record QueueEntry : Type 0 where
  pub name : Bytes
  pub delay : ℕ

-- what the worker sends back: the fields of `content`
pub record Reply : Type 0 where
  pub message : Bytes
  pub status : Bytes
  pub code : ℤ
  pub headers : List (Bytes × Bytes)
  pub content : Bytes

-- the state of one call of `run_job`
pub record State (W : Type 0) : Type 0 where
  pub world : W
  pub response : JobResponse
  pub afterwards : List QueueEntry

-- how far the setup of a job came: `args` decoded, the job made, its status found
pub data Setup : Type 0 where
  no_job : Exception → Setup
  no_status : Exception → Setup
  ready : Setup

-- The calls of `run_job`. `status` and `copy` are the two objects for the status of the job: the one
-- that was fetched or created, and the one in the response. `starting`, `stopping` and
-- `add_message` throw nothing here, as for a status in memory; what `rollback` throws is swallowed.
pub record Env (W : Type 0) : Type 0 where
  pub name : Bytes
  pub status : Backend W
  pub copy : Backend W
  pub status_name : W → Bytes
  pub add_message : Bytes → W → W
  pub setup : W → Setup × W
  pub starting : W → W
  pub stopping : W → W
  pub enter : W → Outcome W (Unit {0})
  pub event : Event → W → Outcome W (Unit {0})
  pub pre_request : W → Outcome W (Unit {0})
  pub handler : State W → Outcome (State W) Response
  pub rollback : W → W
  pub delay : ℕ → W → Outcome W (Unit {0})
  pub retry : W → Outcome W (Unit {0})
  pub run_entry : QueueEntry → W → Outcome W (Unit {0})
  pub now : W → ℕ

-- which status the setup takes: an async job with a status id fetches it, any other job creates a
-- transient one, under its id if it has one
pub data StatusSource : Type 0 where
  fetch : Bytes → StatusSource
  create_transient : Bytes → StatusSource

unfoldable pub status_source : JobType → Bytes → Bytes → StatusSource
status_source async id new_id = if is_empty id then create_transient new_id else fetch id
status_source _ id new_id = create_transient (if is_empty id then new_id else id)
