-- ===== src/Worker/Flow.antt =====
-- The ways through `run_job` of gearbox/worker/Worker.cc.
use gearbox.Base.{ap, ◌∙◌, ◌≡◌, ◌≢◌, refl, true, ge_nat, []}
use gearbox.Errors.{
  Exception, http, json_error, soci_error, worker_stop, uri_error, std_exception, ok, throw,
}
use gearbox.Status.State.{completed, valid_state_transition}
use gearbox.Status.Backend.{Laws, checkpoint}
use gearbox.Status.Backend.Ending.{Ended}
use gearbox.Worker.Env.{continue, Reply, State, ready, Env, JobResponse}
use gearbox.Worker.Reply.{error_reply}
use gearbox.Worker.Attempt.{
  Attempt, Locals, attempt, attempt_of, caught, before_run, begin, after_setup, run_handler, unran,
  running, in_world,
}
use gearbox.Worker.Run.{run_job, conclude, put_off, close_status, finish_queue, end_events}
use gearbox.Worker.Queue.{post_request, clear_afterwards}
use gearbox.Worker.Settle.{KeepsEnd, close_status_lem, left_by}

-- the reply with what the handler put into the response
abbrev pub with_response : Reply → JobResponse → Reply
with_response reply r = record reply { headers = r.headers; content = r.content }

module _ {W : Type 0} (env : Env W) where
  caught_lem :
      (l : Locals) (e : Exception) (s : State W)
      → e ≢ worker_stop
      → caught env l e s ≡ ok (attempt_of env l e s) s
  unfolding caught
  caught_lem l (http e) s h = refl
  caught_lem l (json_error e) s h = refl
  caught_lem l (soci_error e) s h = refl
  caught_lem l worker_stop s h = absurd (h refl)
  caught_lem l (uri_error e) s h = refl
  caught_lem l (std_exception e) s h = refl

  pub attempt_ready :
      (s : State W) (w : W)
      → env.setup s.world ≡ (ready, w)
      → attempt env s ≡ begin env (in_world env s w)
  unfolding attempt after_setup
  attempt_ready s w set = rw set

  begin_failed :
      (s : State W) (w : W) (e : Exception)
      → before_run env s.world ≡ throw e w
      → e ≢ worker_stop
      → begin env s ≡ ok (attempt_of env unran e (in_world env s w)) (in_world env s w)
  unfolding begin
  begin_failed s w e failed other = rw (failed, begin, caught_lem unran e (in_world env s w) other)

  pub run_job_attempted :
      (s t u : State W) (a b : Attempt W)
      → attempt env s ≡ ok a t
      → put_off env a ≡ ok b u
      → run_job env s ≡ conclude env b
  unfolding run_job
  run_job_attempted s t u a b done put = rw (done, run_job, put)

  put_off-unran :
      (e : Exception) (s : State W) (w : W)
      → env.delay 1 s.world ≡ ok tt w
      → put_off env (attempt_of env unran e s)
        ≡ ok
            (record (attempt_of env unran e s) { resp = continue; state = in_world env s w })
            (in_world env s w)
  unfolding put_off
  put_off-unran e s w put = rw put

  pub put_off_ran : (a : Attempt W) → a.ran ≡ true → put_off env a ≡ ok a a.state
  unfolding put_off
  put_off_ran a r = rw (r, put_off)

  finish_queue_bad :
      (reply : Reply) (s : State W)
      → ge_nat reply.code 300 ≡ true
      → finish_queue env reply true s ≡ record s { afterwards = [] }
  unfolding finish_queue post_request clear_afterwards
  finish_queue_bad reply s bad = rw (bad, finish_queue)

  conclude-unran :
      (e : Exception) (s : State W) (w : W)
      → ge_nat (error_reply e).code 300 ≡ true
      → conclude env
          (record (attempt_of env unran e s) { resp = continue; state = in_world env s w })
        ≡ ok
            (with_response (error_reply e) s.response)
            (record s { world = env.stopping (env.rollback w); afterwards = [] })
  unfolding conclude
  conclude-unran e s w bad =
      ap (ok (with_response (error_reply e) s.response))
        (finish_queue_bad (error_reply e) (in_world env s (env.stopping (env.rollback w))) bad)

  conclude_thrown :
      (e : Exception) (s : State W)
      → ge_nat (error_reply e).code 300 ≡ true
      → conclude env (attempt_of env running e s)
        ≡ ok (with_response (error_reply e) s.response) (record s {
          world = env.stopping (close_status env (error_reply e) true (env.rollback s.world));
          afterwards = [];
        })
  unfolding conclude
  conclude_thrown e s bad = ap (ok (with_response (error_reply e) s.response)) (
      finish_queue_bad (error_reply e)
        (in_world env s
          (env.stopping (close_status env (error_reply e) true (env.rollback s.world))))
        bad)

  -- A job whose preparation throws (anything but WorkerStop) is not given up: with the job known, it
  -- is delayed by one second, the transaction is rolled back, its status is not ended but only
  -- released by `stopping`, the handler is not run, and the reply is that of the exception. If the
  -- code of the reply is 300 or more, no job is run afterwards.
  pub unstarted_is_put_off :
      (s : State W) (w w1 w2 : W) (e : Exception)
      → env.setup s.world ≡ (ready, w)
      → before_run env w ≡ throw e w1
      → e ≢ worker_stop
      → env.delay 1 w1 ≡ ok tt w2
      → ge_nat (error_reply e).code 300 ≡ true
      → run_job env s
        ≡ ok
            (with_response (error_reply e) s.response)
            (record s { world = env.stopping (env.rollback w2); afterwards = [] })
  unstarted_is_put_off s w w1 w2 e set failed other put bad =
      run_job_attempted s _ _ _ _
        (attempt_ready s w set ∙ begin_failed (in_world env s w) w1 e failed other)
        (put_off-unran e (in_world env s w1) w2 put)
      ∙ conclude-unran e (in_world env s w1) w2 bad

  module _ (s : State W) (w w1 w2 : W) (set : env.setup s.world ≡ (ready, w))
      (entered : before_run env w ≡ ok tt w1)
      (goes : checkpoint env.status (env.now w1) w1 ≡ ok tt w2) where
    pub begun : begin env (in_world env s w) ≡ run_handler env (in_world env s w1)
    unfolding begin
    begun = rw (entered, begin)

    handled_throw :
        (e : Exception) (t : State W)
        → env.handler (in_world env s w2) ≡ throw e t
        → e ≢ worker_stop
        → attempt env s ≡ ok (attempt_of env running e t) t
    unfolding run_handler
    handled_throw e t thrown other =
        attempt_ready s w set ∙ begun ∙ rw (goes, run_handler, thrown, caught_lem running e t other)

    thrown_is_closed :
        (e : Exception) (t : State W)
        → env.handler (in_world env s w2) ≡ throw e t
        → e ≢ worker_stop
        → ge_nat (error_reply e).code 300 ≡ true
        → run_job env s
          ≡ ok (with_response (error_reply e) t.response) (record t {
            world = env.stopping (close_status env (error_reply e) true (env.rollback t.world));
            afterwards = [];
          })
    thrown_is_closed e t thrown other bad =
        run_job_attempted s _ _ _ _ (handled_throw e t thrown other) (put_off_ran _ refl)
        ∙ conclude_thrown e t bad

    -- A job that has begun and whose handler throws (anything but WorkerStop, with a reply of 300 or
    -- more) fails: the transaction is rolled back; then its status, if it shows less than 100% and
    -- may be COMPLETED, is COMPLETED with progress 100 and the code of the reply; then the events of
    -- the end are handled and the status is released. The reply is that of the exception, and no
    -- job is run afterwards.
    pub thrown_job_fails :
        (e : Exception) (t : State W) (IsFresh : W → Type 0)
        → env.handler (in_world env s w2) ≡ throw e t
        → e ≢ worker_stop
        → ge_nat (error_reply e).code 300 ≡ true
        → Laws env.copy IsFresh
        → KeepsEnd env IsFresh
        → IsFresh (env.rollback t.world)
        → env.copy.progress (env.rollback t.world) ≢ 100
        → valid_state_transition (env.copy.state (env.rollback t.world)) completed ≡ true
        → (w' : W) × Ended env.copy completed (error_reply e).code w'
          × (run_job env s
              ≡ ok (with_response (error_reply e) t.response) (record t {
                world = env.stopping (left_by (end_events env completed w'));
                afterwards = [];
              }))
    thrown_job_fails e t IsFresh thrown other bad laws adds fresh less v =
        let (w', ended, closed) =
          close_status_lem env IsFresh laws adds (error_reply e) (env.rollback t.world) fresh less
            v in
        (w', rw bad at ended, thrown_is_closed e t thrown other bad ∙ rw closed refl)
