-- ===== src/GearboxWorker/World.antt =====
-- What the handlers of workers/gearbox/WorkerGearbox.cc work on: the store, the rows of the delay
-- daemon and the jobs that run afterwards, with the small operations that they share.
use gearbox.Base.{
  ℕ, ℤ, pos, negsuc, Bool, true, false, List, [], ◌∷◌, ◌++◌, Bytes, codes, bytes_eq, Option, none,
  some, ltb, if◌then◌else◌,
}
use gearbox.Errors.{
  Exception, http, worker_stop, std_exception, Outcome, ok, throw, make_error, throw_from_code,
}
use gearbox.Status.State.{State}
use gearbox.Status.Transient.{Db, Transient, set_state}
use gearbox.Status.Transient.Setters.{set_ytime}

-- what a handler reads of the status of another job
pub record Watched : Type 0 where
  pub has_completed : Bool
  pub is_success : Bool
  pub code : ℤ
  pub message : Bytes
  pub uri : Bytes

-- `Status::EVENT_PRECANCEL` and `Status::EVENT_CANCEL`
pub data Event : Type 0 where
  precancel cancel : Event

-- the jobs that the handlers run afterwards, with the delay in seconds
pub data Posted : Type 0 where
  cancelwatch : ℕ → List Bytes → Bytes → Posted
  pollstate : ℕ → Bytes → Option Bytes → Posted
  before_stop : Bytes → Posted

-- a row of the table `jobs` of the delay daemon
pub record Delayed : Type 0 where
  pub status_name : Bytes
  pub time : ℤ

-- `progress` is that of the status of the request itself, `resp.status()`
pub record World : Type 0 where
  pub db : Db
  pub delayed : List Delayed
  pub progress : ℕ
  pub posted : List Posted

abbrev pub bad_request : Bytes → Exception
bad_request msg = http (make_error msg 400 (codes "BAD_REQUEST"))

abbrev pub conflict : Bytes → Exception
conflict msg = http (make_error msg 409 (codes "CONFLICT"))

-- the exception of `throw_from_code`; a negative code has no class
pub thrown : ℤ → Bytes → Exception
thrown code msg =
    let n : ℕ = elim code [ pos k ↦ k | negsuc k ↦ 0 ] in
    elim (throw_from_code n msg) [ some e ↦ http e | none ↦ std_exception msg ]

-- `resp.status()->progress(p)`
abbrev pub note : ℕ → World → Outcome World (Unit {0})
note p w = ok tt (record w { progress = if ltb w.progress p then p else w.progress })

-- `afterwards(job)`
abbrev pub post_job : Posted → World → World
post_job j w = record w { posted = w.posted ++ j ∷ [] }

-- `UPDATE jobs SET time = :time WHERE status_name = :name`
unfoldable pub reschedule : Bytes → ℤ → List Delayed → List Delayed
unfolding bytes_eq
reschedule name time [] = []
reschedule name time (d ∷ ds) =
    (if bytes_eq d.status_name name then record d { time = time } else d) ∷ reschedule name time ds

-- the table, then the status: `ytime`
abbrev pub set_time : ℤ → Transient → World → World
set_time time s w = record w {
  db = (set_ytime time s).db;
  delayed = reschedule s.super.name time w.delayed;
}

abbrev pub is_negative : ℤ → Bool
is_negative (pos n) = false
is_negative (negsuc n) = true

-- an operation on a status, whose object holds the store
abbrev pub on_status :
    {A : Type 0}
    → (Transient → Outcome Transient A)
    → Transient
    → World
    → Outcome World (A × Transient)
on_status f s w = elim (f (record s { db = w.db })) [
  | ok a s' ↦ ok (a, s') (record w { db = s'.db })
  | throw e s' ↦ throw e (record w { db = s'.db })
]

abbrev pub to_state : ℕ → State → Transient → Outcome Transient Bool
to_state now to s = let (s', changed) = set_state now to s in ok changed s'

-- `checkpoint` in a `try` whose `catch` drops WorkerStop
abbrev pub swallow_stop : Outcome Transient (Unit {0}) → Outcome Transient (Unit {0})
swallow_stop (throw worker_stop s) = ok tt s
swallow_stop o = o
