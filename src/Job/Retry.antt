-- ===== src/Job/Retry.antt =====
-- `JobManager::retry` and `JobManager::delay` of gearbox/job/JobManager.cc, over the statuses kept in
-- memory. The floating-point formula of the back-off and the random share of the jitter are library
-- calls; of the job that puts a delayed job there is how each of its attempts ends. The loop of `delay`
-- runs on fuel; `none` says that it tries still. Delays are not negative.
pub mod Backoff
use gearbox.Base.{
  ℕ, zero, suc, ◌+◌, pos, Bool, true, false, Bytes, is_empty, Option, none, some, ltb,
  if◌then◌else◌, [],
}
use gearbox.Errors.{Exception, Outcome, ok, throw}
use gearbox.Status.Transient.{Db, Transient, fetch, set_failures}
use gearbox.Status.Transient.Setters.{set_ytime}

-- how an attempt to put a delayed job ends: its status has completed without success, it throws, or
-- neither, which ends the loop
pub data Answer : Type 0 where
  failed accepted : Answer
  threw : Exception → Answer

-- the loop of `delay` from its i-th attempt
unfoldable pub put_delayed : (ℕ → Answer) → ℕ → ℕ → Option ℕ
put_delayed answer zero i = none
put_delayed answer (suc fuel) i = elim (answer i) [
  | failed ↦ put_delayed answer fuel (suc i)
  | accepted ↦ some i
  | threw e ↦ put_delayed answer fuel (suc i)
]

-- the JSON that the delaying agent gets
pub record Delayed : Type 0 where
  pub name : Bytes
  pub envelope : Bytes
  pub time : ℕ
  pub status_name : Option Bytes

-- what `delay` and `retry` ask of a job
pub record Task : Type 0 where
  pub name : Bytes
  pub envelope : Bytes
  pub status : Bytes

module _ (now : ℕ) (base_uri : Bytes) (answer : ℕ → Answer) where
  -- the time at which the status of the job goes on, and the text of the job
  abbrev pub message : Task → ℕ → Option Bytes → Delayed
  message job seconds status = record {
    name = job.name;
    envelope = job.envelope;
    time = now + seconds;
    status_name = status;
  }

  unfoldable pub mark_delayed : Task → ℕ → Db → Outcome Db Delayed
  mark_delayed job seconds db =
      let marked : Outcome Db Delayed = elim (fetch now base_uri job.status db) [
        | throw e _ ↦ throw e db
        | ok s _ ↦
            ok (message job seconds (some s.super.name)) (set_ytime (pos (now + seconds)) s).db
      ] in
      if is_empty job.status then ok (message job seconds none) db else marked

  -- `delay`
  unfoldable pub delay : ℕ → Task → ℕ → Db → Option (Outcome Db Delayed)
  delay fuel job seconds db = elim (mark_delayed job seconds db) [
    | throw e db' ↦ some (throw e db')
    | ok d db' ↦ elim (put_delayed answer fuel 0) [ none ↦ none | some n ↦ some (ok d db') ]
  ]

  -- which attempt this is, by the failures of the status
  unfoldable pub count_failures : Task → Db → Outcome Db ℕ
  count_failures job db =
      let counted : Outcome Db ℕ = elim (fetch now base_uri job.status db) [
        | throw e _ ↦ throw e db
        | ok s _ ↦ ok (s.super.failures + 1) (set_failures (s.super.failures + 1) s).db
      ] in
      if is_empty job.status then ok 1 db else counted

  -- `(int)(ceil(...))` of the Fibonacci formula, and `(int)` of the random share of the jitter
  module _ (fibonacci jitter : ℕ → ℕ) where
    unfoldable pub choose_delay : ℕ → ℕ → ℕ → ℕ
    choose_delay retry max_delay max_jitter =
        let limit = if ltb 9220695 max_delay then 9220695 else max_delay in
        let wanted = if ltb retry 35 then fibonacci retry else limit in
        let delay = if ltb limit wanted then limit else wanted in
        if ltb max_jitter delay then delay + jitter max_jitter else delay

    -- `retry`
    unfoldable pub retry : ℕ → Task → ℕ → ℕ → Db → Option (Outcome Db Delayed)
    retry fuel job max_delay max_jitter db = elim (count_failures job db) [
      | throw e db' ↦ some (throw e db')
      | ok n db' ↦ delay fuel job (choose_delay n max_delay max_jitter) db'
    ]
