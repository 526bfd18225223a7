-- ===== src/Worker/Returns.antt =====
-- What `run_job` of gearbox/worker/Worker.cc does when a handler returns.
use gearbox.Base.{
  ◌∙◌, ◌≡◌, ◌≢◌, refl, arith, true, false, [], pos, ge_nat, if◌then◌else◌, Bool-cases, inl, inr,
}
use gearbox.Status.State.{completed, valid_state_transition}
use gearbox.Status.Backend.{Laws}
use gearbox.Status.Backend.Ending.{Ended}
use gearbox.Worker.Queue.{post_request, clear_afterwards, drain}
use gearbox.Worker.Settle.{KeepsEnd, close_status_lem, left_by}
use gearbox.Errors.{ok}
use gearbox.Status.Backend.{checkpoint}
use gearbox.Worker.Env.{Response, success, continue, retry, State, ready, Env}
use gearbox.Worker.Reply.{ok_reply}
use gearbox.Worker.Attempt.{Attempt, attempt, before_run, run_handler, finished, in_world}
use gearbox.Worker.Run.{run_job, conclude, close_status, finish_queue, end_events}
use gearbox.Worker.Flow.{attempt_ready, begun, run_job_attempted, put_off_ran, with_response}

module _ {W : Type 0} (env : Env W) where
  -- what the `try` block leaves when the handler returns
  abbrev returned : Response → State W → Attempt W
  returned resp t = record {
    reply = ok_reply t.response;
    resp = resp;
    rollback = false;
    ran = true;
    has_job = true;
    has_status = true;
    state = t;
  }

  finished_lem :
      (resp : Response) (t : State W)
      → resp ≢ Response.error
      → finished env resp t ≡ ok (returned resp t) t
  unfolding finished
  finished_lem success t fine = refl
  finished_lem Response.error t fine = absurd (fine refl)
  finished_lem continue t fine = refl
  finished_lem retry t fine = refl

  conclude-success :
      (t : State W)
      → conclude env (returned success t)
        ≡ ok (with_response (ok_reply t.response) t.response) (
            finish_queue env
              (ok_reply t.response)
              true
              (in_world env t (env.stopping (close_status env (ok_reply t.response) true t.world))))
  unfolding conclude
  conclude-success t = refl

  module _ (s : State W) (w w1 w2 : W) (set : env.setup s.world ≡ (ready, w))
      (entered : before_run env w ≡ ok tt w1)
      (goes : checkpoint env.status (env.now w1) w1 ≡ ok tt w2) where
    attempt-returned :
        (resp : Response) (t : State W)
        → resp ≢ Response.error
        → env.handler (in_world env s w2) ≡ ok resp t
        → attempt env s ≡ ok (returned resp t) t
    unfolding run_handler
    attempt-returned resp t fine e =
        attempt_ready env s w set
        ∙ begun env s w w1 w2 set entered goes
        ∙ rw (goes, run_handler, e) (finished_lem resp t fine)

    run_job-returned :
        (resp : Response) (t : State W)
        → resp ≢ Response.error
        → env.handler (in_world env s w2) ≡ ok resp t
        → run_job env s ≡ conclude env (returned resp t)
    run_job-returned resp t fine e =
        run_job_attempted env s _ _ _ _ (attempt-returned resp t fine e) (put_off_ran env _ refl)

    run_job-success :
        (t : State W)
        → env.handler (in_world env s w2) ≡ ok success t
        → run_job env s
          ≡ ok (with_response (ok_reply t.response) t.response) (
              finish_queue env (ok_reply t.response) true (
                in_world env t
                  (env.stopping (close_status env (ok_reply t.response) true t.world))))
    run_job-success t e = run_job-returned success t (ground arith) e ∙ conclude-success t

    -- A job that has begun and whose handler returns SUCCESS is closed: its status, if it shows less
    -- than 100% and may be COMPLETED, is COMPLETED with progress 100, and with the code of the response
    -- if that is 300 or more, else with code 0; then the events of the end are handled and the status
    -- is released. The reply is "OK" with the response's code and content. The jobs afterwards are
    -- dropped if the code is 300 or more, else they are run.
    pub handled_job_succeeds :
        (t : State W) (IsFresh : W → Type 0)
        → env.handler (in_world env s w2) ≡ ok success t
        → Laws env.copy IsFresh
        → KeepsEnd env IsFresh
        → IsFresh t.world
        → env.copy.progress t.world ≢ 100
        → valid_state_transition (env.copy.state t.world) completed ≡ true
        → (w' : W) × Ended env.copy completed
            (if ge_nat t.response.code 300 then t.response.code else pos 0)
            w'
          × (run_job env s
              ≡ ok (with_response (ok_reply t.response) t.response) (
                  let released = env.stopping (left_by (end_events env completed w')) in
                  if ge_nat t.response.code 300
                  then record t { world = released; afterwards = [] }
                  else post_request env (in_world env t released)))
    unfolding ok_reply finish_queue clear_afterwards post_request drain
    handled_job_succeeds t IsFresh e laws adds fresh less v =
        let (w', ended, closed) =
          close_status_lem env IsFresh laws adds (ok_reply t.response) t.world fresh less v in
        (
          w',
          ended,
          run_job-success t e ∙ elim (Bool-cases (ge_nat t.response.code 300)) [
            | inl bad ↦ rw (bad, closed) refl
            | inr good ↦ rw (good, closed) refl
          ],
        )
