-- ===== src/GearboxWorker/Cancel.antt =====
-- The handlers of workers/gearbox/WorkerGearbox.cc that cancel the job of a status, over the statuses
-- kept in memory: `do_post_global_status_v1`, `do_stop_global_status_v1`,
-- `do_pollstate_global_status_v1` and `do_cancelwatch_global_status_v1`.
-- The contents of the jobs are read into arguments. `now` is the clock and `base` the base URI; what
-- the handlers ask of other processes are the parameters of the section below.
use gearbox.Base.{
  ℕ, ℤ, pos, Bool, true, false, not, ◌&&◌, ◌||◌, List, [], ◌∷◌, ◌++◌, Bytes, codes, bytes_eq,
  Option, none, some, ◌==◌, if◌then◌else◌,
}
use gearbox.Errors.{std_exception, Outcome, ok, throw, internal_server_error, ◌>>=◌, ◌>>◌}
use gearbox.Status.State.{
  State, pending, running, stopping, stopped, cancelling, cancelled, completed, state_eq, state2str,
}
use gearbox.Status.Backend
use gearbox.Status.Backend.{fail, checkpoint}
use gearbox.Status.Transient.{Db, Transient, transient, fetch}
use gearbox.Worker.Env.{Response, success, continue, retry}
use gearbox.GearboxWorker.World.{
  Watched, Event, precancel, cancel, cancelwatch, pollstate, before_stop, World, bad_request,
  conflict, thrown, note, post_job, reschedule, set_time, is_negative, on_status, to_state,
  swallow_stop,
}

module _ (now : ℕ) (base : Bytes) (look : Bytes → Db → Outcome Db Watched)
    (handler : Event → Transient → Option Bytes) (run : Bytes → Db → Outcome Db Watched)
    (cancel_child : Bytes → Db → Outcome Db Watched) where
  -- a call of another process
  abbrev pub ask : (Db → Outcome Db Watched) → World → Outcome World Watched
  ask f w = elim (f w.db) [
    | ok a db ↦ ok a (record w { db = db })
    | throw e db ↦ throw e (record w { db = db })
  ]

  -- `status_manager().fetch(job.arguments()[0])`
  unfoldable pub fetch_status : Bytes → World → Outcome World Transient
  fetch_status name w = elim (fetch now base name w.db) [ ok s t ↦ ok s w | throw e t ↦ throw e w ]

  -- the loop over `watch`: what is left of it at the first status that has not completed
  unfoldable pub watch_all : Bytes → List Bytes → World → Outcome World (List Bytes)
  unfolding fetch_status
  watch_all name [] = λ w. ok [] w
  watch_all name (u ∷ us) =
      let others = watch_all name us in
      ask (look u) >>= λ a.
      if not a.has_completed
      then (λ w. ok (u ∷ us) w)
      else if not a.is_success
      then (fetch_status name >>= λ s.
          on_status (fail transient now a.code) s >>= λ _ w. throw (thrown a.code a.message) w)
      else others

  abbrev pub answer : Response → World → Outcome World Response
  answer r w = ok r w

  -- the end of `do_cancelwatch_global_status_v1`, when nothing is left to watch
  unfoldable pub cancel_now : Bytes → Bytes → Transient → World → Outcome World Response
  cancel_now name state s =
      if bytes_eq state (codes "CANCELLING")
      then elim (handler cancel s) [
        | some j ↦
            note 70
            >> (ask (run j) >>= λ r w.
                ok continue (post_job (cancelwatch 0 (r.uri ∷ []) (codes "CANCELLED")) w))
        | none ↦ on_status (Backend.cancel transient now) s >>= λ _. answer success
      ]
      else if bytes_eq state (codes "CANCELLED")
      then (on_status (Backend.cancel transient now) s >>= λ _. answer success)
      else answer success

  after_watch : Bytes → Bytes → List Bytes → World → Outcome World Response
  unfolding cancel_now
  after_watch name state [] = fetch_status name >>= cancel_now name state
  after_watch name state (u ∷ us) = λ w. ok continue (post_job (cancelwatch 10 (u ∷ us) state) w)

  unfoldable pub do_cancelwatch : Bytes → List Bytes → Bytes → World → Outcome World Response
  unfolding watch_all after_watch
  do_cancelwatch name watch state = watch_all name watch >>= after_watch name state

  -- the loop over the children: the URIs of the jobs that cancel them
  unfoldable pub cancel_children : List Bytes → World → Outcome World (List Bytes)
  cancel_children [] = λ w. ok [] w
  cancel_children (c ∷ cs) =
      let others = cancel_children cs in
      ask (cancel_child c) >>= λ r.
      if r.has_completed && not r.is_success
      then (λ w. throw (thrown r.code r.message) w)
      else (others >>= λ uris w. ok (r.uri ∷ uris) w)

  -- the `catch` around the loop: the status is COMPLETED again, as far as its state allows
  reopened : Transient → Outcome World Response → Outcome World Response
  reopened s (ok r w) = ok r w
  reopened s (throw e w) = elim ((on_status (to_state now completed) s) w) [
    | ok _ w' ↦ throw e w'
    | throw e' w' ↦ throw e' w'
  ]

  -- the state has become CANCELLING, if `changed`
  unfoldable pub cancel_stopped : Bytes → Bool × Transient → World → Outcome World Response
  unfolding do_cancelwatch cancel_children reopened
  cancel_stopped name (changed, s) w =
      if changed
      then reopened s (
          (cancel_children s.super.children >>= λ uris.
          do_cancelwatch name uris (codes "CANCELLING"))
            w)
      else ok retry w

  has_stopped : State → Bool
  has_stopped s = state_eq s stopped || state_eq s completed

  unfoldable pub polled : Bytes → Bytes → Option Bytes → Transient → World → Outcome World Response
  unfolding cancel_stopped has_stopped
  polled name state next_state s =
      if state_eq s.super.state cancelled
      then answer success
      else if bytes_eq state (codes "STOPPED") && has_stopped s.super.state
      then elim next_state [
        | none ↦ answer success
        | some next ↦
            note 40
            >> (if bytes_eq next (codes "CANCELLED")
                then (on_status (to_state now cancelling) s >>= cancel_stopped name)
                else (λ w.
                    throw
                      (internal_server_error
                        (codes "Unexpected state transition requested: " ++ next))
                      w))
      ]
      else (λ w. ok continue (post_job (pollstate 10 state next_state) w))

  unfoldable pub do_pollstate : Bytes → Bytes → Option Bytes → World → Outcome World Response
  unfolding fetch_status polled
  do_pollstate name state next_state = fetch_status name >>= polled name state next_state

  -- the check of a job of EVENT_PRECANCEL; `is_success` throws on a status that has not completed
  event_passed : Option Watched → World → Outcome World (Unit {0})
  event_passed none w = ok tt w
  event_passed (some e) w =
      if e.has_completed
      then (if e.is_success then ok tt w else throw (thrown e.code e.message) w)
      else throw (std_exception (codes "is_success is invalid on in-complete status")) w

  -- the state has become STOPPING, if `changed`
  unfoldable pub stop_now : Bool × Transient → World → Outcome World Bool
  unfolding reschedule
  stop_now (changed, s) w =
      if changed
      then (if not (is_negative s.super.ytime)
          then ok true (set_time (pos 0) s w)
          else if s.super.concurrency == 0
          then ((on_status (λ t. swallow_stop (checkpoint transient now t)) s >>= λ _ w'.
                ok true w')
              w)
          else ok true w)
      else ok false w

  unfoldable pub stop_running : Transient → World → Outcome World Bool
  unfolding stop_now
  stop_running s =
      if state_eq s.super.state pending || state_eq s.super.state running
      then (on_status (to_state now stopping) s >>= stop_now)
      else (λ w. ok true w)

  unfoldable pub do_stop : Bytes → Option Watched → World → Outcome World Response
  unfolding event_passed stop_running fetch_status do_pollstate
  do_stop name event =
      event_passed event
      >> (note 10
          >> (fetch_status name >>= λ s. stop_running s >>= λ went_on.
              if went_on
              then do_pollstate name (codes "STOPPED") (some (codes "CANCELLED"))
              else answer retry))

  -- `do_post` on a status that is to be cancelled
  unfoldable pub post_cancelled : Bytes → Transient → World → Outcome World Response
  unfolding do_stop
  post_cancelled name s =
      if state_eq s.super.state cancelled
      then answer success
      else if state_eq s.super.state stopping || state_eq s.super.state cancelling
      then (λ w. throw (conflict (codes "state is currently " ++ state2str s.super.state)) w)
      else elim (handler precancel s) [
        | some j ↦ λ w. ok continue (post_job (before_stop j) w)
        | none ↦ do_stop name none
      ]

  unfoldable pub do_post : Option Bytes → Option Bytes → Option ℤ → World → Outcome World Response
  unfolding fetch_status post_cancelled reschedule
  do_post none state ytime = λ w. throw (bad_request (codes "missing required resource name")) w
  do_post (some name) (some state) ytime = fetch_status name >>= λ s.
      note 1
      >> (if bytes_eq state (codes "CANCELLED") then post_cancelled name s else (λ w.
          throw (bad_request (codes "transition to state '" ++ (state ++ codes "' unsupported")))
            w))
  do_post (some name) none (some ytime) =
      fetch_status name >>= λ s w. ok success (set_time ytime s w)
  do_post (some name) none none = fetch_status name >>= λ s. answer success
