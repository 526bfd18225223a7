-- ===== src/Worker/Run.antt =====
-- `run_job` of gearbox/worker/Worker.cc behind its `try` block: the delay of a job that could not be
-- started, the rollback, the end of the status, the retry and the jobs afterwards.
use gearbox.Base.{ge_nat, Bool, true, false, not, ◌&&◌, ◌||◌, ◌==◌, if◌then◌else◌}
use gearbox.Errors.{Outcome, ok, throw, ◌>>=◌, ◌>>◌}
use gearbox.Status.State
use gearbox.Status.Backend.{fail, success, is_success}
use gearbox.Worker.Env.{
  Response, continue, retry, completed, failed, succeeded, cancelled, Reply, State, Env,
}
use gearbox.Worker.Queue.{clear_afterwards, post_request}
use gearbox.Worker.Attempt.{Attempt, attempt, in_world}

abbrev pub goes_on : Response → Bool
goes_on continue = true
goes_on retry = true
goes_on _ = false

abbrev pub is_retry : Response → Bool
is_retry retry = true
is_retry _ = false

module _ {W : Type 0} (env : Env W) where
  -- a status that has not reached 100% is ended with the code of the reply
  unfoldable pub settle : Reply → W → Outcome W (Unit {0})
  settle reply w =
      if env.copy.progress w == 100
      then ok tt w
      else if ge_nat reply.code 300
      then fail env.copy (env.now w) reply.code (env.add_message reply.message w)
      else success env.copy (env.now w) w

  unfoldable pub ended : W → Outcome W (Unit {0})
  ended =
      env.event completed
      >> (is_success env.copy >>= λ good. if good then env.event succeeded else env.event failed)

  -- the events of the state in which the status has ended
  unfoldable pub end_events : State.State → W → Outcome W (Unit {0})
  unfolding ended
  end_events State.completed = ended
  end_events State.stopped = ended
  end_events State.cancelled = env.event cancelled
  end_events _ = λ w. ok tt w

  -- the `try` block about the status; its exceptions are only logged
  unfoldable pub close_status : Reply → Bool → W → W
  close_status reply has_job w =
      elim ((settle reply >> λ v. if has_job then end_events (env.copy.state v) v else ok tt v) w) [
        | ok _ v ↦ v
        | throw _ v ↦ v
      ]

  -- `int sc` and what depends on it
  unfoldable pub finish_queue : Reply → Bool → State W → State W
  finish_queue reply has_job s =
      let s' = if ge_nat reply.code 300 then clear_afterwards env s else s in
      if has_job then post_request env s' else s'

  -- a job that has not run is put off by a second
  unfoldable pub put_off : Attempt W → Outcome (State W) (Attempt W)
  put_off a =
      if not a.ran && a.has_job
      then elim (env.delay 1 a.state.world) [
        | ok _ w ↦
            ok (record a { resp = continue; state = in_world env a.state w })
              (in_world env a.state w)
        | throw e w ↦ throw e (in_world env a.state w)
      ]
      else ok a a.state

  unfoldable pub after_rollback : Attempt W → State W
  after_rollback a =
      if a.rollback || is_retry a.resp
      then in_world env a.state (env.rollback a.state.world)
      else a.state

  unfoldable pub after_status : Attempt W → State W → State W
  after_status a s =
      if a.has_status
      then (let w = if goes_on a.resp then s.world else close_status a.reply a.has_job s.world in
          in_world env s (env.stopping w))
      else s

  unfoldable pub retried : Attempt W → State W → Outcome (State W) (Unit {0})
  retried a s =
      if is_retry a.resp && a.has_job
      then elim (env.retry s.world) [
        | ok _ w ↦ ok tt (in_world env s w)
        | throw e w ↦ throw e (in_world env s w)
      ]
      else ok tt s

  final_reply : Attempt W → State W → Reply
  final_reply a s = record a.reply { headers = s.response.headers; content = s.response.content }

  unfoldable pub conclude : Attempt W → Outcome (State W) Reply
  unfolding after_rollback after_status retried final_reply
  conclude a =
      let s = after_status a (after_rollback a) in
      elim (retried a s) [
        | throw e t ↦ throw e t
        | ok _ t ↦ ok (final_reply a t) (finish_queue a.reply a.has_job t)
      ]

  unfoldable pub run_job : State W → Outcome (State W) Reply
  run_job s = elim (attempt env s) [
    | throw e t ↦ throw e t
    | ok a _ ↦ elim (put_off a) [ throw e t ↦ throw e t | ok b _ ↦ conclude b ]
  ]
