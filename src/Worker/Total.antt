-- ===== src/Worker/Total.antt =====
-- `run_job` of gearbox/worker/Worker.cc always answers: what its `try` blocks cannot let out.
use gearbox.Base.{◌≡◌, refl, Bool-cases, inl, inr, codes, ◌++◌, not, ◌&&◌}
use gearbox.Errors.{
  Exception, http, json_error, soci_error, worker_stop, uri_error, std_exception,
  internal_server_error, Outcome, ok,
}
use gearbox.Errors.Laws.{outcome-cases}
use gearbox.Status.Backend.{checkpoint}
use gearbox.Worker.Env.{
  Response, success, error, continue, retry, State, Setup, no_job, no_status, ready, Env, stopped,
}
use gearbox.Worker.Attempt.{
  Attempt, Locals, attempt, caught, running, unran, begin, after_setup, before_run, run_handler,
  finished, in_world,
}
use gearbox.Worker.Run.{run_job, conclude, put_off, is_retry, retried, after_status, after_rollback}

-- a call that returns
abbrev pub Returns : {S A : Type 0} → Outcome S A → Type 0
Returns {S} {A} o = (a : A) × (s : S) × (o ≡ ok a s)

module _ {W : Type 0} (env : Env W) (stops : (w : W) → Returns (env.event stopped w)) where
  caught-Returns : (l : Locals) (e : Exception) (s : State W) → Returns (caught env l e s)
  unfolding caught
  caught-Returns l worker_stop s = let (_, w, e) = stops s.world in rw (e, caught) (_, _, refl)
  caught-Returns l (http e) s = (_, _, refl)
  caught-Returns l (json_error e) s = (_, _, refl)
  caught-Returns l (soci_error e) s = (_, _, refl)
  caught-Returns l (uri_error e) s = (_, _, refl)
  caught-Returns l (std_exception e) s = (_, _, refl)

  finished-Returns : (r : Response) (s : State W) → Returns (finished env r s)
  unfolding finished
  finished-Returns error s =
      caught-Returns (record running { resp = error })
        (internal_server_error (env.name ++ codes " returned unknown error")) s
  finished-Returns success s = (_, _, refl)
  finished-Returns continue s = (_, _, refl)
  finished-Returns retry s = (_, _, refl)

  run_handler-Returns : (s : State W) → Returns (run_handler env s)
  unfolding run_handler
  run_handler-Returns s = elim (outcome-cases (checkpoint env.status (env.now s.world) s.world)) [
    | inr (x, w, e) ↦ rw (e, run_handler) (caught-Returns running x (in_world env s w))
    | inl (_, w, e) ↦ elim (outcome-cases (env.handler (in_world env s w))) [
      | inr (x, t, h) ↦ rw (e, run_handler, h) (caught-Returns running x t)
      | inl (r, t, h) ↦ rw (e, run_handler, h) (finished-Returns r t)
    ]
  ]

  begin-Returns : (s : State W) → Returns (begin env s)
  unfolding begin
  begin-Returns s = elim (outcome-cases (before_run env s.world)) [
    | inr (x, w, e) ↦ rw (e, begin) (caught-Returns unran x (in_world env s w))
    | inl (_, w, e) ↦ rw (e, begin) (run_handler-Returns (in_world env s w))
  ]

  after_setup-Returns : (x : Setup) (s : State W) → Returns (after_setup env x s)
  unfolding after_setup
  after_setup-Returns (no_job e) s = caught-Returns _ e s
  after_setup-Returns (no_status e) s = caught-Returns _ e s
  after_setup-Returns ready s = begin-Returns s

  attempt-Returns : (s : State W) → Returns (attempt env s)
  unfolding attempt
  attempt-Returns s =
      after_setup-Returns (env.setup s.world).0 (in_world env s (env.setup s.world).1)

  module _ (delays : (w : W) → Returns (env.delay 1 w))
      (retries : (w : W) → Returns (env.retry w)) where
    put_off-Returns : (a : Attempt W) → Returns (put_off env a)
    unfolding put_off
    put_off-Returns a = elim (Bool-cases (not a.ran && a.has_job)) [
      | inl unrun ↦ let (_, w, e) = delays a.state.world in rw (unrun, put_off, e) (_, _, refl)
      | inr other ↦ rw (other, put_off) (a, a.state, refl)
    ]

    retried-Returns : (a : Attempt W) (s : State W) → Returns (retried env a s)
    unfolding retried
    retried-Returns a s = elim (Bool-cases (is_retry a.resp && a.has_job)) [
      | inl again ↦ let (_, w, e) = retries s.world in rw (again, retried, e) (_, _, refl)
      | inr once ↦ rw (once, retried) (_, _, refl)
    ]

    conclude-Returns : (a : Attempt W) → Returns (conclude env a)
    unfolding conclude
    conclude-Returns a =
        let (_, t, e) = retried-Returns a (after_status env a (after_rollback env a)) in
        rw (e, conclude) (_, _, refl)

    -- As long as the handling of the event STOPPED, the delay of a job and the retry of a job throw
    -- nothing, every job is answered: whatever its setup, its preparation, its handler, its status
    -- and the jobs afterwards throw, `run_job` returns a reply.
    pub run_job-Returns : (s : State W) → Returns (run_job env s)
    unfolding run_job
    run_job-Returns s =
        let (a, t, e) = attempt-Returns s in
        let (b, u, put) = put_off-Returns a in rw (e, run_job, put) (conclude-Returns b)
