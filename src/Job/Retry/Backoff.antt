-- ===== src/Job/Retry/Backoff.antt =====
-- The back-off of `retry`.
use gearbox.Base.{
  ℕ, zero, suc, ◌+◌, ◌≤◌, ◌<◌, ◌≡◌, refl, sym, ap, subst, ◌∙◌, inl, inr, Bool-cases, false, Bytes,
  is_empty, none, some, ltb, ◌==◌, ==_iff, if◌then◌else◌, pos, arith,
}
use gearbox.Errors.{ok}
use gearbox.Status.Transient.{Db, TransientStatusData, find_last, set_failures, put}
use gearbox.Status.Transient.Setters.{set_ytime}
use gearbox.Status.Transient.Refines.{find_last_cong}
use gearbox.Status.Transient.Store.{fetch_lem}
use gearbox.Job.Retry.{
  Answer, failed, accepted, threw, put_delayed, Task, message, mark_delayed, delay, count_failures,
  choose_delay, retry,
}

put_delayed-again :
    (answer : ℕ → Answer) (i fuel : ℕ) (a : Answer)
    → answer i ≡ a
    → (n : ℕ) × (put_delayed answer fuel (suc i) ≡ some n)
    → (n : ℕ) × (put_delayed answer (suc fuel) i ≡ some n)
unfolding put_delayed
put_delayed-again answer i fuel failed e more = rw (e, put_delayed) more
put_delayed-again answer i fuel accepted e more = (i, rw (e, put_delayed) refl)
put_delayed-again answer i fuel (threw x) e more = rw (e, put_delayed) more

-- the loop ends once an attempt is accepted, however the earlier ones end
put_delayed-some :
    (answer : ℕ → Answer) (d i : ℕ) (fuel : ℕ)
    → answer (i + d) ≡ accepted
    → d < fuel
    → (n : ℕ) × (put_delayed answer fuel i ≡ some n)
unfolding put_delayed
put_delayed-some answer d i zero h less = ground (less, arith)
put_delayed-some answer zero i (suc fuel) h less =
    let here : i + zero ≡ i = omega arith in
    (i, rw (subst (λ n. answer n ≡ accepted) here h, put_delayed) refl)
put_delayed-some answer (suc d) i (suc fuel) h less =
    let there : i + suc d ≡ suc i + d = omega arith in
    put_delayed-again answer i fuel (answer i) refl (
      put_delayed-some answer d (suc i) fuel (subst (λ n. answer n ≡ accepted) there h)
        (omega (arith, less)))

-- a write into one record that keeps its name
put-name :
    (db : Db) (p : ℕ) (d : TransientStatusData)
    → d.name ≡ (db.cells p).name
    → (q : ℕ) → (db.cells q).name ≡ ((put p d db).cells q).name
put-name db p d h q = elim (Bool-cases (q == p)) [
  | inl same ↦ rw same (rw ((==_iff q p).0 same) (sym h))
  | inr other ↦ rw other refl
]

put_self : (db : Db) (p q : ℕ) (d : TransientStatusData) → p ≡ q → (put p d db).cells q ≡ d
put_self db p q d e = rw ((==_iff q p).1 (sym e)) refl

module _ (now : ℕ) (base_uri : Bytes) (answer : ℕ → Answer) where
  -- a store that differs from another in no name
  record SameNames (db db' : Db) : Type 0 where
    names : (q : ℕ) → (db.cells q).name ≡ (db'.cells q).name
    queue : db'.queue ≡ db.queue

  count_failures-one :
      (job : Task) (db : Db) (p : ℕ)
      → is_empty job.status ≡ false
      → find_last job.status db.cells db.queue none ≡ some p
      → (db' : Db) × (count_failures now base_uri answer job db ≡ ok 1 db')
        × SameNames db db'
        × ((db'.cells p).failures ≡ 1)
  unfolding count_failures set_failures
  count_failures-one job db p named found =
      let (t, fetched, at, same, loaded) = (fetch_lem now base_uri job.status db).0 p found in
      (
        (set_failures 1 t).db,
        rw (named, fetched, loaded.failures, count_failures) refl,
        record {
          names = λ q. ap (λ x. (x.cells q).name) (sym same) ∙ put-name t.db t.ptr _ refl q;
          queue = ap (λ x. x.queue) same;
        },
        ap (λ d. d.failures) (put_self t.db t.ptr p _ at),
      )

  mark_delayed-ok :
      (job : Task) (seconds : ℕ) (db : Db) (p : ℕ)
      → is_empty job.status ≡ false
      → find_last job.status db.cells db.queue none ≡ some p
      → (db' : Db) × (mark_delayed now base_uri answer job seconds db
          ≡ ok (message now base_uri answer job seconds (some job.status)) db')
        × ((db'.cells p).failures ≡ (db.cells p).failures)
        × ((db'.cells p).ytime ≡ pos (now + seconds))
  unfolding mark_delayed set_ytime
  mark_delayed-ok job seconds db p named found =
      let (t, fetched, at, same, loaded) = (fetch_lem now base_uri job.status db).0 p found in
      (
        (set_ytime (pos (now + seconds)) t).db,
        rw (named, fetched, loaded.name, mark_delayed) refl,
        ap (λ d. d.failures) (put_self t.db t.ptr p _ at)
            ∙ (ap (λ x. (x.cells t.ptr).failures) same ∙ ap (λ q. (db.cells q).failures) at),
        ap (λ d. d.ytime) (put_self t.db t.ptr p _ at),
      )

  module _ (fibonacci jitter : ℕ → ℕ) where
    -- at most the limit, and the jitter
    choose_delay-le :
        ((m : ℕ) → jitter m ≤ m)
        → (n max_delay max_jitter : ℕ)
        → choose_delay now base_uri answer fibonacci jitter n max_delay max_jitter
          ≤ (if ltb 9220695 max_delay then 9220695 else max_delay) + max_jitter
    unfolding choose_delay
    choose_delay-le small n max_delay max_jitter = ground (arith, small max_jitter)

    -- `retry` of a job whose status is kept in memory. Let the jitter be at most its bound, and let the
    -- agent that delays jobs accept the n-th attempt, for which the fuel is enough. If the status is
    -- found, the job is delayed by the delay of a first attempt, whatever number of failures the record
    -- has; then the record has one failure and the time at which the job goes on. That delay is at most
    -- the bound of delays, or 9220695 if that is less, and the bound of the jitter.
    pub retry_lem :
        (fuel n max_delay max_jitter : ℕ) (job : Task) (db : Db) (p : ℕ)
        → ((m : ℕ) → jitter m ≤ m)
        → answer n ≡ accepted
        → n < fuel
        → is_empty job.status ≡ false
        → find_last job.status db.cells db.queue none ≡ some p
        → (seconds : ℕ) × (db' : Db) × (seconds
            ≡ choose_delay now base_uri answer fibonacci jitter 1 max_delay max_jitter)
          × (retry now base_uri answer fibonacci jitter fuel job max_delay max_jitter db
              ≡ some (ok (message now base_uri answer job seconds (some job.status)) db'))
          × ((db'.cells p).failures ≡ 1)
          × ((db'.cells p).ytime ≡ pos (now + seconds))
          × (seconds ≤ (if ltb 9220695 max_delay then 9220695 else max_delay) + max_jitter)
    unfolding retry delay
    retry_lem fuel n max_delay max_jitter job db p small takes enough named found =
        let (db1, counted, same, one) = count_failures-one job db p named found in
        let seconds = choose_delay now base_uri answer fibonacci jitter 1 max_delay max_jitter in
        let found1 : find_last job.status db1.cells db1.queue none ≡ some p =
          sym (find_last_cong job.status db.cells db1.cells same.names db1.queue none)
          ∙ (ap (λ qs. find_last job.status db.cells qs none) same.queue ∙ found) in
        let (db2, marked, kept, time) = mark_delayed-ok job seconds db1 p named found1 in
        let start : n ≡ 0 + n = omega arith in
        let (k, put_k) =
          put_delayed-some answer n 0 fuel (subst (λ i. answer i ≡ accepted) start takes) enough in
        (
          seconds,
          db2,
          refl,
          rw (counted, retry) (rw (marked, delay) (rw (put_k, delay) refl)),
          kept ∙ one,
          time,
          choose_delay-le small 1 max_delay max_jitter,
        )
