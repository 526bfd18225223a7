-- ===== src/Tests/Gearbox.antt =====
-- The theorems on the gearbox worker at concrete inputs.
use gearbox.Base.{
  ℤ, All, leb, if◌then◌else◌, ℕ, pos, negsuc, true, List, [], ◌∷◌, ◌++◌, Bytes, bytes_eq, codes,
  Option, none, some, ◌≡◌, refl, ◌⊎◌,
}
use mathlib.Core.List.{Memᴰ}
use gearbox.DelayDaemon.{DelayedJob, run_delayed_jobs}
use gearbox.DelayDaemon.Keeping.{left, IsAccepted, run_delayed_jobs_lem}
use gearbox.Errors.{Outcome, ok, throw}
use gearbox.Status.State.{State, running, pending, stopping, cancelling, cancelled, state2str}
use gearbox.Status.Transient.{Db, Transient, new_data, find_last}
use gearbox.Worker.Env.{success, retry}
use gearbox.GearboxWorker.World.{Watched, Event, World, conflict}
use gearbox.GearboxWorker.Cancel.{do_post}
use gearbox.GearboxWorker.Steps.{IsAt}
use gearbox.GearboxWorker.Cancelling.{do_post-running}
use gearbox.GearboxWorker.Refusing.{do_post-unchanged}
use gearbox.GearboxWorker.Counter.{Files, make_counter}
use gearbox.GearboxWorker.Counter.Counting.{answers, occurrences, expected, answers-make_counter}

abbrev job : Bytes
job = codes "st-1"

-- no other status, and no registered jobs
abbrev unseen : Bytes → Db → Outcome Db Watched
unseen u db =
    ok (record { has_completed = true; is_success = true; code = pos 0; message = []; uri = u }) db

abbrev unhandled : Event → Transient → Option Bytes
unhandled e s = none

abbrev world : State → World
world st = record {
  db = record {
    cells = λ p. record (new_data 5) { name = job; state = st; progress = 40 };
    next = 1;
    queue = 0 ∷ [];
  };
  delayed = [];
  progress = 0;
  posted = [];
}

found : (st : State) → find_last job (world st).db.cells (world st).db.queue none ≡ some 0
found st = unfold find_last bytes_eq in refl

world-IsAt : (st : State) → IsAt job 0 [] st 40 (negsuc 0) (world st).db
world-IsAt st = record {
  found = found st;
  state = refl;
  progress = refl;
  code = refl;
  children = refl;
}

do_post-running_example :
    (w : World) × (do_post 9 [] unseen unhandled unseen unseen
        (some job)
        (some (codes "CANCELLED"))
        none
        (world running)
      ≡ ok success w)
    × IsAt job 0 [] cancelled 100 (pos 410) w.db
    × (w.posted ≡ [])
do_post-running_example =
    do_post-running 9 [] unseen unhandled unseen unseen job 0 (λ e s. refl) 40 (negsuc 0) none
      (world running) (world-IsAt running) refl refl

do_post-unchanged_example :
    let o =
      do_post 9 [] unseen unhandled unseen unseen
        (some job)
        (some (codes "CANCELLED"))
        none
        (world pending) in
    ((pending ≡ cancelled) → (w : World) × (o ≡ ok success w) × (w.db ≡ (world pending).db))
    × ((pending ≡ stopping) ⊎ (pending ≡ cancelling)
        → (w : World) × (o ≡ throw (conflict (codes "state is currently " ++ state2str pending)) w)
          × (w.db ≡ (world pending).db))
    × ((pending ≡ pending) → (w : World) × (o ≡ ok retry w) × (w.db ≡ (world pending).db))
do_post-unchanged_example =
    do_post-unchanged 9 [] unseen unhandled unseen unseen job 0 [] (λ e s. refl) 40 (negsuc 0) none
      pending (world pending) (world-IsAt pending)

-- two agents of one level, and one of another counter in between
abbrev agents_done : List (Bytes × Option Watched)
agents_done = (codes "i-1", none) ∷ (codes "i-2", none) ∷ (codes "i-1", none) ∷ []

abbrev no_files : Files
no_files id = none

answers-make_counter_example :
    answers (codes "i-1") agents_done (make_counter (codes "i-1") 2 no_files)
    ≡ expected (occurrences (codes "i-1") agents_done) 1
answers-make_counter_example =
    answers-make_counter (codes "i-1") agents_done 1 no_files (tt, (tt, (tt, tt)))

abbrev fresh : ℕ → Bytes
fresh k = k ∷ []

abbrev batches : List (List Bytes)
batches = (codes "a" ∷ codes "b" ∷ []) ∷ (codes "c" ∷ []) ∷ []

-- two delayed jobs, of which one is due; it is queued
abbrev delayed : ℕ → ℕ → DelayedJob
delayed id time = record {
  id = id;
  name = codes "do_update";
  status_name = some job;
  envelope = [];
  time = time;
  ctime = 1;
}

abbrev waiting : List DelayedJob
waiting = delayed 1 5 ∷ delayed 2 50 ∷ []

abbrev due : ℕ → List DelayedJob → List DelayedJob
due now [] = []
due now (r ∷ rs) = if leb r.time now then r ∷ due now rs else due now rs

abbrev queued : DelayedJob → Outcome (Unit {0}) ℤ
queued j = ok (pos 202) tt

run_delayed_jobs_example :
    (Memᴰ (delayed 2 50) waiting
      → All (λ j. j.id ≡ 2 → ¬ IsAccepted queued j) (due 9 waiting)
      → Memᴰ (delayed 2 50) (left (run_delayed_jobs queued due 9 waiting)))
    × (Memᴰ (delayed 2 50) (left (run_delayed_jobs queued due 9 waiting))
        → Memᴰ (delayed 2 50) waiting)
    × ((rows' : List DelayedJob)
        → run_delayed_jobs queued due 9 waiting ≡ ok tt rows'
        → Memᴰ (delayed 2 50) rows'
        → All (λ j. j.id ≡ 2 → ¬ IsAccepted queued j) (due 9 waiting))
run_delayed_jobs_example = run_delayed_jobs_lem queued due 9 waiting (delayed 2 50)
