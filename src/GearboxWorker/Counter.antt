-- ===== src/GearboxWorker/Counter.antt =====
-- The counters of workers/gearbox/WorkerGearbox.cc, which tell when all agents of a level are done:
-- `make_counter` and `do_decrement_global_counter_v1`. A counter is a file that holds a number; `Files`
-- gives the number in the file of an id, if there is one. The ids and the failures of calls of the
-- system are arguments.
pub mod Counting
use gearbox.Base.{
  ℕ, zero, suc, ℤ, pos, negsuc, Bool, true, false, List, [], ◌∷◌, Bytes, bytes_eq, bytes_eq_iff,
  codes, All, Option, none, some, if◌then◌else◌, ◌≡◌, refl, arith, Bool-cases, inl, inr, ap, ◌∙◌,
}
use gearbox.Errors.{Exception, Outcome, ok, throw, std_exception, ◌>>=◌, ◌>>◌}
use gearbox.Errors.Laws.{>>=-ok}
use gearbox.Worker.Env.{Response, success, continue, retry}
use gearbox.GearboxWorker.World.{Watched, thrown, bad_request}

abbrev pub Files : Type 0
Files = Bytes → Option ℤ

-- what is in the file `id` from now on
abbrev pub put : Bytes → Option ℤ → Files → Files
put id v files j = if bytes_eq j id then v else files j

-- `make_counter(start)`, whose id is new
unfoldable pub make_counter : Bytes → ℕ → Files → Files
unfolding bytes_eq
make_counter id start files = put id (some (pos start)) files

-- where the handler's calls of the system fail, if at all: before the file is written (opening, locking,
-- reading and writing it), behind that (unlocking and closing), or when it is removed
pub data Fault : Type 0 where
  nothing before_write after_write at_remove : Fault

pub predℤ : ℤ → ℤ
predℤ (pos zero) = negsuc 0
predℤ (pos (suc n)) = pos n
predℤ (negsuc n) = negsuc (suc n)

pub is_positive : ℤ → Bool
is_positive (pos zero) = false
is_positive (pos (suc n)) = true
is_positive (negsuc n) = false

-- the `try` block, and RETRY of its `catch`
decremented : Fault → Bytes → ℤ → Files → Response × Files
unfolding predℤ is_positive bytes_eq
decremented before_write id n files = (retry, files)
decremented after_write id n files = (retry, put id (some (predℤ n)) files)
decremented nothing id n files =
    if is_positive (predℤ n)
    then (continue, put id (some (predℤ n)) files)
    else (success, put id none files)
decremented at_remove id n files =
    (if is_positive (predℤ n) then continue else retry, put id (some (predℤ n)) files)

-- a file that does not exist counts as done
on_file : Fault → Bytes → Option ℤ → Files → Response × Files
unfolding decremented
on_file fault id none files = (success, files)
on_file fault id (some n) files = decremented fault id n files

unfoldable pub count_down : Fault → Bytes → Files → Response × Files
unfolding on_file
count_down fault id files = on_file fault id (files id) files

-- `is_success` throws on a status that has not completed
check_event : Option Watched → Files → Outcome Files (Unit {0})
check_event none files = ok tt files
check_event (some e) files =
    if e.has_completed
    then (if e.is_success then ok tt files else throw (thrown e.code e.message) files)
    else throw (std_exception (codes "is_success is invalid on in-complete status")) files

-- `do_decrement_global_counter_v1`: `event` is the status of the agent that has completed
unfoldable pub do_decrement : Fault → Option Watched → Option Bytes → Files → Outcome Files Response
unfolding check_event count_down
do_decrement fault event none =
    check_event event >> (λ files. throw (bad_request (codes "missing counter id")) files)
do_decrement fault event (some id) =
    check_event event >> (λ files. let (r, files') = count_down fault id files in ok r files')
