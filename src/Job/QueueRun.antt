-- ===== src/Job/QueueRun.antt =====
-- `JobManager::job_queue_run` of gearbox/job/JobManager.cc, which runs batches of jobs one after the
-- other and polls the jobs of a batch until each has ended. The jobs are pointers: the map of timers is
-- keyed by them, and `JobImpl::job`, which the transports call for the job of a response, makes a new
-- one. The loop that polls runs on fuel; `none` says that it polls still. Timeouts are not negative.
pub mod Untimed
pub mod Timeouts
use gearbox.Base.{
  ℕ, zero, suc, ◌+◌, ◌-◌, ℤ, Bool, true, false, not, ◌&&◌, List, [], ◌∷◌, ◌++◌, Bytes, codes,
  Option, none, some, ◌==◌, leb, is_zero, if◌then◌else◌,
}
use gearbox.Errors.{Exception, Outcome, ok, throw, internal_server_error}

-- a `JobPtr`, with what the code asks of the job
pub record JobPtr : Type 0 where
  pub address : ℕ
  pub name : Bytes
  pub timeout : ℕ

-- what is polled: the job of the response, and a handle of its status
pub record Response : Type 0 where
  pub job : JobPtr
  pub status : ℕ

-- the transports, the statuses and the clock
pub record Agents (W : Type 0) : Type 0 where
  pub run : JobPtr → W → Outcome W ℕ
  pub sync : ℕ → W → Outcome W (Unit {0})
  pub progress : ℕ → W → ℕ
  pub code : ℕ → W → ℤ
  pub time : W → ℕ
  pub usleep : W → W
  pub print_code : ℤ → Bytes

-- the outside, the next free address, and the local map of timers: when a job was started, and how
-- long it may take
pub record State (W : Type 0) : Type 0 where
  pub world : W
  pub free : ℕ
  pub timer : List (ℕ × ℕ × ℕ)

-- `timer.count(job)` and `timer[job]`
unfoldable pub lookup : ℕ → List (ℕ × ℕ × ℕ) → Option (ℕ × ℕ)
lookup p [] = none
lookup p ((q, start, limit) ∷ ts) =
    let later = lookup p ts in if p == q then some (start, limit) else later

unfoldable pub exceeded : Bytes → Exception
exceeded name = internal_server_error (codes "Agent '" ++ (name ++ codes "' exceeded timeout!"))

unfoldable pub returned_code : Bytes → Bytes → Exception
returned_code name code =
    internal_server_error (codes "Agent '" ++ (name ++ (codes "' returned status code " ++ code)))

-- what a look at the front of the queue shows
pub data Polled : Type 0 where
  waits completes : Polled

module _ {W : Type 0} (a : Agents W) where
  -- `JobImpl::job`: a new pointer to a clone
  unfoldable pub clone_job : JobPtr → State W → JobPtr
  clone_job j s = record j { address = s.free }

  -- `job->run()`, with the response that the transport makes
  unfoldable pub run_agent : JobPtr → State W → Outcome (State W) Response
  run_agent j s = elim (a.run j s.world) [
    | throw e w ↦ throw e (record s { world = w })
    | ok h w ↦
        ok (record { job = clone_job j s; status = h }) (record s { world = w; free = s.free + 1 })
  ]

  -- the timer of a job that has a timeout
  unfoldable pub start_timer : JobPtr → State W → State W
  start_timer j s =
      if j.timeout == 0
      then s
      else record s { timer = (j.address, a.time s.world, j.timeout) ∷ s.timer }

  -- the loop that dispatches a batch
  unfoldable pub dispatch :
      List JobPtr → List Response → State W → Outcome (State W) (List Response)
  dispatch [] jq s = ok jq s
  dispatch (j ∷ js) jq s = elim (run_agent j (start_timer j s)) [
    | throw e s' ↦ throw e s'
    | ok r s' ↦ dispatch js (jq ++ r ∷ []) s'
  ]

  expired : ℕ → Option (ℕ × ℕ) → Bool
  expired now none = false
  expired now (some (start, limit)) = not (limit == 0) && leb limit (now - start)

  -- one turn of the loop that polls
  unfoldable pub poll : Response → State W → Outcome (State W) Polled
  unfolding expired
  poll r s = elim (a.sync r.status s.world) [
    | throw e w ↦ throw e (record s { world = w })
    | ok _ w ↦
        if not (a.progress r.status w == 100)
        then if expired (a.time w) (lookup r.job.address s.timer)
          then throw (exceeded r.job.name) (record s { world = w })
          else ok waits (record s { world = a.usleep w })
        else if not (is_zero (a.code r.status w))
        then throw (returned_code r.job.name (a.print_code (a.code r.status w)))
            (record s { world = w })
        else ok completes (record s { world = w })
  ]

  unfoldable pub poll_all : ℕ → List Response → State W → Option (Outcome (State W) (Unit {0}))
  poll_all fuel [] s = some (ok tt s)
  poll_all zero (r ∷ jq) s = none
  poll_all (suc fuel) (r ∷ jq) s = elim (poll r s) [
    | throw e s' ↦ some (throw e s')
    | ok p s' ↦ elim p [ waits ↦ poll_all fuel (r ∷ jq) s' | completes ↦ poll_all fuel jq s' ]
  ]

  -- the loop over the batches; each polls with the same fuel
  unfoldable pub run_batches :
      ℕ → List (List JobPtr) → State W → Option (Outcome (State W) (Unit {0}))
  run_batches fuel [] s = some (ok tt s)
  run_batches fuel (batch ∷ jobs) s = elim (dispatch batch [] s) [
    | throw e s' ↦ some (throw e s')
    | ok jq s' ↦ elim (poll_all fuel jq s') [
      | none ↦ none
      | some o ↦ elim o [ throw e t ↦ some (throw e t) | ok _ t ↦ run_batches fuel jobs t ]
    ]
  ]

  -- `job_queue_run`, which starts with no timers
  unfoldable pub job_queue_run :
      ℕ → List (List JobPtr) → W → ℕ → Option (Outcome (State W) (Unit {0}))
  job_queue_run fuel jobs w free =
      run_batches fuel jobs (record { world = w; free = free; timer = [] })
