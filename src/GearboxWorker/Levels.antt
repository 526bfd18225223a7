-- ===== src/GearboxWorker/Levels.antt =====
-- The handlers of workers/gearbox/WorkerGearbox.cc that run the agents of a configuration level by level:
-- `do_run_global_agents_v1`, which chains the levels, and `do_runlevel_global_agents_v1`, which starts
-- one. The levels are the batches of `job_queue`. An agent is the name of its job; the contents and
-- the envelopes that the jobs carry along are left out.
pub mod Order
use gearbox.Base.{
  ℕ, zero, suc, ◌-◌, ◌*◌, ◌/◌, Bool, List, [], ◌∷◌, ◌++◌, Bytes, codes, Option, none, some, length,
  if◌then◌else◌, ◌==◌,
}
use gearbox.Errors.{Outcome, ok, throw, std_exception, ◌>>=◌, ◌>>◌}
use gearbox.Worker.Env.{Response, success, continue}
use gearbox.GearboxWorker.World.{Watched, thrown}
use gearbox.GearboxWorker.Counter.{Files, make_counter}

-- A job "do_runlevel_global_agents_v1" with what hangs on it. Its status is set to a progress when it
-- has started. When the only agent of a level has completed, the next level runs; with several agents,
-- each decrements the same counter, and the next level runs when the counter is done.
pub data RunLevel : Type 0 where
  nothing_left : RunLevel
  single : ℕ → Bytes → RunLevel → RunLevel
  several : ℕ → Bytes → List Bytes → RunLevel → RunLevel

-- the variables of the loop: the job for the next level, the counters, and how many were made
pub record Chain : Type 0 where
  pub next_level : RunLevel
  pub files : Files
  pub made : ℕ

-- `q[i]`
abbrev pub batch_at : List (List Bytes) → ℕ → List Bytes
batch_at [] i = []
batch_at (b ∷ q) zero = b
batch_at (b ∷ q) (suc i) = batch_at q i

-- the progress when level `l + 1` of `q` starts
unfoldable pub progress_of : ℕ → ℕ → ℕ
progress_of q l = let progress = (100 / q) * l in if progress == 0 then 1 else progress

-- `JobManager::gen_id` gives `fresh k` at its k-th call
module _ (fresh : ℕ → Bytes) where
  -- the body of the loop
  unfoldable pub add_level : ℕ → List Bytes → Chain → Chain
  unfolding make_counter
  add_level progress (agent ∷ []) c = record c { next_level = single progress agent c.next_level }
  add_level progress agents c = record {
    next_level = several progress (fresh c.made) agents c.next_level;
    files = make_counter (fresh c.made) (length agents) c.files;
    made = suc c.made;
  }

  -- `for( int level = q.size(); level > 0; --level )`
  unfoldable pub add_levels : List (List Bytes) → ℕ → Chain → Chain
  unfolding add_level progress_of
  add_levels q zero c = c
  add_levels q (suc l) c = add_levels q l (add_level (progress_of (length q) l) (batch_at q l) c)

  -- `do_run_global_agents_v1`: the job that it runs afterwards, and the counters
  unfoldable pub do_run_agents : List (List Bytes) → Files → Chain
  unfolding add_levels
  do_run_agents q files =
      add_levels q (length q) (record { next_level = nothing_left; files = files; made = 0 })

-- the agents that a level runs
unfoldable pub jobs : RunLevel → List Bytes
jobs nothing_left = []
jobs (single progress agent next) = agent ∷ []
jobs (several progress counter agents next) = agents

-- `do_runlevel_global_agents_v1`: `event` is the status of the job before, with its last message if it
-- has one; the state is the list of the jobs to run afterwards
check_level : Option (Watched × Bool) → List Bytes → Outcome (List Bytes) (Unit {0})
check_level none posted = ok tt posted
check_level (some (e, has_messages)) posted =
    if e.has_completed
    then (if e.is_success
        then ok tt posted
        else throw
            (thrown e.code (if has_messages then e.message else codes "Unknown error from agent"))
            posted)
    else throw (std_exception (codes "is_success is invalid on in-complete status")) posted

start_jobs : List Bytes → List Bytes → Outcome (List Bytes) Response
start_jobs [] posted = ok success posted
start_jobs (a ∷ agents) posted = ok continue (posted ++ (a ∷ agents))

unfoldable pub do_runlevel :
    Option (Watched × Bool) → RunLevel → List Bytes → Outcome (List Bytes) Response
unfolding check_level start_jobs jobs
do_runlevel event level = check_level event >> start_jobs (jobs level)
