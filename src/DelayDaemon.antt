-- ===== src/DelayDaemon.antt =====
-- The jobs that wait for a time: `do_put_delay_job_v1` of workers/gearbox/WorkerGearbox.cc puts them into
-- the table `jobs`, and the daemon of workers/gearbox/DelayProcessor.cc runs those that are due.
-- What the SELECT gives is a parameter, and so is the run of a job. The compression of envelopes and
-- the socket by which the daemon is woken are left out.
pub mod Keeping
use gearbox.Base.{
  ℕ, suc, ◌-◌, ◌≤◌, ℤ, pos, negsuc, Bool, true, false, List, [], ◌∷◌, ◌++◌, Bytes, Option, none,
  some, ltb, leb, ◌==◌, if◌then◌else◌, is_empty,
}
use gearbox.Errors.{Exception, Outcome, ok, throw, ◌>>=◌, ◌>>◌}
use gearbox.SqlStatus.Tables.{Db, transact, reading}

-- a row of the table `jobs`
pub record DelayedJob : Type 0 where
  pub id : ℕ
  pub name : Bytes
  pub status_name : Option Bytes
  pub envelope : Bytes
  pub time : ℕ
  pub ctime : ℕ

-- the table; `next_id` is the key that the data base gives to the next row
pub record Jobs : Type 0 where
  pub rows : List DelayedJob
  pub next_id : ℕ

abbrev pub insert_row : Bytes → Bytes → Bytes → ℕ → ℕ → Jobs → Jobs
insert_row name status envelope time now t = record {
  rows =
      t.rows
      ++ record {
        id = t.next_id;
        name = name;
        status_name = if is_empty status then none else some status;
        envelope = envelope;
        time = time;
        ctime = now;
      }
        ∷ [];
  next_id = suc t.next_id;
}

-- `do_put_delay_job_v1`: a transaction that is repeated until it does not fail
unfoldable pub put_delay_job : Bool → ℕ → Bytes → Bytes → Bytes → ℕ → Db Jobs → Db Jobs
unfolding transact
put_delay_job run_immediately now name status envelope time = transact (
    reading
    ∷ insert_row name status envelope (if run_immediately then 0 else time) now
    ∷ reading
    ∷ [])

-- `DELETE from jobs where id = :id`
unfoldable pub delete_row : ℕ → List DelayedJob → List DelayedJob
delete_row id [] = []
delete_row id (r ∷ rs) = let rest = delete_row id rs in if r.id == id then rest else r ∷ rest

-- `resp.code() < 300`
abbrev pub is_queued : ℤ → Bool
is_queued (pos n) = ltb n 300
is_queued (negsuc n) = true

module _ (run : DelayedJob → Outcome (Unit {0}) ℤ) where
  -- the rest of the loop body, once the job was run
  unfoldable pub after_run :
      DelayedJob → List DelayedJob → Outcome (Unit {0}) ℤ → Outcome (List DelayedJob) (Unit {0})
  unfolding delete_row
  after_run j rows (ok code _) = ok tt (if is_queued code then delete_row j.id rows else rows)
  after_run j rows (throw e _) = throw e rows

  -- the loop over the rows that were selected
  unfoldable pub run_all : List DelayedJob → List DelayedJob → Outcome (List DelayedJob) (Unit {0})
  unfolding after_run
  run_all [] = ok tt
  run_all (j ∷ js) = (λ rows. after_run j rows (run j)) >> run_all js

  -- `run_delayed_jobs`: `select` gives the rows with `time <= :now`, by their time
  unfoldable pub run_delayed_jobs :
      (ℕ → List DelayedJob → List DelayedJob)
      → ℕ
      → List DelayedJob
      → Outcome (List DelayedJob) (Unit {0})
  unfolding run_all
  run_delayed_jobs select now rows = run_all (select now rows) rows

-- how long `wait_next_job` waits for a worker to write
pub data Wait : Type 0 where
  forever at_once : Wait
  seconds : ℕ → Wait

-- `first` is the time of the row that comes first
unfoldable pub wait_next_job : Option ℕ → ℕ → Wait
wait_next_job none now = forever
wait_next_job (some first) now = if leb first now then at_once else seconds (first - now)
