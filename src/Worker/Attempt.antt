-- ===== src/Worker/Attempt.antt =====
-- The `try` block of `run_job` in gearbox/worker/Worker.cc, with its `catch` clauses.
use gearbox.Base.{Bool, true, false, ◌++◌, codes, if◌then◌else◌}
use gearbox.Errors.{
  Exception, worker_stop, Outcome, ok, throw, internal_server_error, precondition_failed, ◌>>◌,
}
use gearbox.Status.State
use gearbox.Status.State.{state_eq, state2str}
use gearbox.Status.Backend.{checkpoint}
use gearbox.Worker.Env.{
  Response, error, started, stopped, Reply, State, Setup, no_job, no_status, ready, Env,
}
use gearbox.Worker.Reply.{error_reply, ok_reply}

-- what the block leaves: `rollback`, `ranjob`, and whether the job and its status are there
pub record Attempt (W : Type 0) : Type 0 where
  pub reply : Reply
  pub resp : Response
  pub rollback : Bool
  pub ran : Bool
  pub has_job : Bool
  pub has_status : Bool
  pub state : State W

-- the local variables when an exception is thrown
pub record Locals : Type 0 where
  pub resp : Response
  pub ran : Bool
  pub has_job : Bool
  pub has_status : Bool

-- `resp`, `ranjob` and the pointers at the start, before and behind `ranjob=1`
abbrev pub unran : Locals
unran = record { resp = Response.success; ran = false; has_job = true; has_status = true }

abbrev pub running : Locals
running = record { resp = Response.success; ran = true; has_job = true; has_status = true }

module _ {W : Type 0} (env : Env W) where
  abbrev pub in_world : State W → W → State W
  in_world s w = record s { world = w }

  -- a PENDING status becomes RUNNING, or the job is refused
  unfoldable pub start_status : W → Outcome W (Unit {0})
  start_status w =
      if state_eq (env.status.state w) State.pending
      then (let (w', changed) = env.status.set_state (env.now w) State.running w in
          if changed
          then ok tt w'
          else (env.status.sync (env.now w') >> λ w''.
                throw
                  (precondition_failed (
                    codes "Invalid status state transition from \""
                    ++ (state2str (env.status.state w'')
                        ++ (codes "\" to \"RUNNING\" for status " ++ env.status_name w''))))
                  w'')
              w')
      else ok tt w

  -- between the setup and `ranjob=1`
  unfoldable pub before_run : W → Outcome W (Unit {0})
  before_run w =
      (env.enter >> (start_status >> (env.event started >> env.pre_request))) (env.starting w)

  abbrev pub attempt_of : Locals → Exception → State W → Attempt W
  attempt_of l e s = record {
    reply = error_reply e;
    resp = l.resp;
    rollback = true;
    ran = l.ran;
    has_job = l.has_job;
    has_status = l.has_status;
    state = s;
  }

  -- The `catch` clauses. The one for WorkerStop calls an event, and what that throws leaves `run_job`.
  unfoldable pub caught : Locals → Exception → State W → Outcome (State W) (Attempt W)
  caught l worker_stop s = elim (env.event stopped s.world) [
    | ok _ w ↦ ok (attempt_of (record l { resp = error }) worker_stop (in_world s w)) (in_world s w)
    | throw e w ↦ throw e (in_world s w)
  ]
  caught l e s = ok (attempt_of l e s) s

  unfoldable pub finished : Response → State W → Outcome (State W) (Attempt W)
  unfolding caught
  finished error s =
      caught (record running { resp = error })
        (internal_server_error (env.name ++ codes " returned unknown error")) s
  finished resp s =
      ok
        (record {
          reply = ok_reply s.response;
          resp = resp;
          rollback = false;
          ran = true;
          has_job = true;
          has_status = true;
          state = s;
        })
        s

  -- behind `ranjob=1`: a last look whether the job is to stop, then the handler
  unfoldable pub run_handler : State W → Outcome (State W) (Attempt W)
  unfolding finished
  run_handler s = elim (checkpoint env.status (env.now s.world) s.world) [
    | throw e w ↦ caught running e (in_world s w)
    | ok _ w ↦ elim (env.handler (in_world s w)) [
      | throw e t ↦ caught running e t
      | ok resp t ↦ finished resp t
    ]
  ]

  unfoldable pub begin : State W → Outcome (State W) (Attempt W)
  begin s = elim (before_run s.world) [
    | throw e w ↦ caught unran e (in_world s w)
    | ok _ w ↦ run_handler (in_world s w)
  ]

  unfoldable pub after_setup : Setup → State W → Outcome (State W) (Attempt W)
  unfolding begin
  after_setup (no_job e) s = caught (record unran { has_job = false; has_status = false }) e s
  after_setup (no_status e) s = caught (record unran { has_status = false }) e s
  after_setup ready s = begin s

  unfoldable pub attempt : State W → Outcome (State W) (Attempt W)
  unfolding after_setup
  attempt s = let (setup, w) = env.setup s.world in after_setup setup (in_world s w)
