-- ===== src/Tests/Worker.antt =====
-- The theorems on a worker at concrete inputs: a worker whose jobs' statuses are kept in memory.
use gearbox.Base.{pos, ◌≡◌, refl, [], ◌∷◌, bytes_eq, codes, arith}
use gearbox.Errors.{Exception, Outcome, ok, throw, json_error}
use gearbox.Status.State.{completed, running, valid_state_transition}
use gearbox.Status.Backend.{checkpoint}
use gearbox.Status.Backend.Ending.{Ended}
use gearbox.Status.Impl
use gearbox.Status.Impl.{new_impl}
use gearbox.Status.Transient.{
  Transient, new_data, transient, add_message, starting, stopping, sync, load, load_from, synced,
  super_state, find_last, copy_fields,
}
use gearbox.Status.Transient.Refines.{IsFresh, transient-Laws}
use gearbox.Worker.Env.{Response, success, State, ready, Env}
use gearbox.Worker.Reply.{error_reply, ok_reply}
use gearbox.Worker.Attempt.{before_run, in_world, start_status}
use gearbox.Worker.Run.{run_job, end_events}
use gearbox.Worker.Queue.{post_request}
use gearbox.Worker.Settle.{KeepsEnd, left_by}
use gearbox.Worker.Flow.{with_response, thrown_job_fails}
use gearbox.Worker.Returns.{handled_job_succeeds}
use gearbox.Worker.Total.{Returns, run_job-Returns}

abbrev quiet : Transient → Outcome Transient (Unit {0})
quiet w = ok tt w

-- The job's status is running at 40%.
abbrev world : Transient
world = record {
  db = record {
    cells = λ p. record (new_data 5) { name = codes "st-1"; state = running; progress = 40 };
    next = 1;
    queue = 0 ∷ [];
  };
  super = record (new_impl 5) { name = codes "st-1"; state = running; progress = 40 };
  ptr = 0;
}

abbrev start : State Transient
start = record {
  world = world;
  response = record { content = codes "half done"; headers = []; code = pos 0 };
  afterwards = record { name = codes "do_next_v1"; delay = 0 } ∷ [];
}

-- a worker with a given handler and a given `pre_request`
abbrev worker :
    (Transient → Outcome Transient (Unit {0}))
    → (State Transient → Outcome (State Transient) Response)
    → Env Transient
worker pre_request handler = record {
  name = codes "do_update_v1";
  status = transient;
  copy = transient;
  status_name = λ w. w.super.name;
  add_message = add_message 9;
  setup = λ w. (ready, w);
  starting = starting;
  stopping = stopping;
  enter = quiet;
  event = λ e. quiet;
  pre_request = pre_request;
  handler = handler;
  rollback = λ w. w;
  delay = λ n. quiet;
  retry = quiet;
  run_entry = λ e. quiet;
  now = λ w. 9;
}

abbrev problem : Exception
problem = json_error (codes "no such key")

abbrev failing : Env Transient
failing = worker quiet (λ s. throw problem s)

abbrev unready : Env Transient
unready = worker (λ w. throw problem w) (λ s. ok success s)

abbrev working : Env Transient
working = worker quiet (λ s. ok success s)

-- the world in which the handler is called, and that before the last check
abbrev before : Env Transient → Transient
before env = left_by (before_run env world)

abbrev checked : Env Transient → Transient
checked env = left_by (checkpoint transient 9 (before env))

failing_enters : before_run failing world ≡ ok tt (before failing)
failing_enters = unfold before_run start_status starting in refl

working_enters : before_run working world ≡ ok tt (before working)
working_enters = unfold before_run start_status starting in refl

unready_enters : before_run unready world ≡ throw problem (before unready)
unready_enters = unfold before_run start_status starting in refl

failing_goes : checkpoint transient 9 (before failing) ≡ ok tt (checked failing)
unfolding before_run start_status starting checkpoint sync load load_from synced super_state
    find_last copy_fields Impl.set_state valid_state_transition bytes_eq
failing_goes = refl

working_goes : checkpoint transient 9 (before working) ≡ ok tt (checked working)
unfolding before_run start_status starting checkpoint sync load load_from synced super_state
    find_last copy_fields Impl.set_state valid_state_transition bytes_eq
working_goes = refl

checked_lem :
    IsFresh (checked failing)
    × ((checked failing).super.progress ≡ 40)
    × ((checked failing).super.state ≡ running)
unfolding before_run start_status starting checkpoint sync load load_from synced super_state
    find_last copy_fields Impl.set_state valid_state_transition bytes_eq
checked_lem = (refl, refl, refl)

adds : KeepsEnd failing IsFresh
unfolding add_message Impl.add_message
adds = record {
  same = λ m w. record { state = refl; progress = refl; code = refl };
  fresh = λ m w h. ground (arith, h);
}

thrown_job_fails_example :
    (w : Transient) × Ended transient completed (error_reply problem).code w
    × (run_job failing start
        ≡ ok (with_response (error_reply problem) start.response) (record start {
          world = stopping (left_by (end_events failing completed w));
          afterwards = [];
        }))
thrown_job_fails_example =
    thrown_job_fails failing start world (before failing) (checked failing) refl failing_enters
      failing_goes problem (in_world failing start (checked failing)) IsFresh refl (ground arith)
      (unfold error_reply in refl) transient-Laws adds checked_lem.0 (ground (arith, checked_lem.1))
      (rw checked_lem.2 (unfold valid_state_transition in refl))

abbrev handled : State Transient
handled = in_world working start (checked working)

handled_lem :
    IsFresh handled.world
    × (handled.world.super.progress ≡ 40)
    × (handled.world.super.state ≡ running)
unfolding before_run start_status starting checkpoint sync load load_from synced super_state
    find_last copy_fields Impl.set_state valid_state_transition bytes_eq
handled_lem = (refl, refl, refl)

working_adds : KeepsEnd working IsFresh
unfolding add_message Impl.add_message
working_adds = record {
  same = λ m w. record { state = refl; progress = refl; code = refl };
  fresh = λ m w h. ground (arith, h);
}

handled_job_succeeds_example :
    (w : Transient) × Ended transient completed (pos 0) w
    × (run_job working start
        ≡ ok (with_response (ok_reply handled.response) handled.response) (
            post_request working
              (in_world working handled (stopping (left_by (end_events working completed w))))))
handled_job_succeeds_example =
    handled_job_succeeds working start world (before working) (checked working) refl working_enters
      working_goes handled IsFresh refl transient-Laws working_adds handled_lem.0
      (ground (arith, handled_lem.1)) (rw handled_lem.2 (unfold valid_state_transition in refl))

run_job-Returns_example : Returns (run_job failing start)
run_job-Returns_example =
    run_job-Returns failing (λ w. (tt, w, refl)) (λ w. (tt, w, refl)) (λ w. (tt, w, refl)) start
