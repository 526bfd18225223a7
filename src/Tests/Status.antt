-- ===== src/Tests/Status.antt =====
-- The theorems on a job's status at concrete inputs, over the statuses kept in memory.
use gearbox.Base.{
  ℕ, zero, suc, ◌+◌, ◌≤◌, ltb, if◌then◌else◌, pos, negsuc, List, ◌≡◌, ◌≢◌, refl, ◌⊎◌, [], ◌∷◌,
  Bytes, bytes_eq, codes, some, none, arith, true, false, ◌++◌,
}
use gearbox.Errors.{Exception, ok, throw, worker_stop, not_found}
use gearbox.Status.State.{
  completed, cancelled, stopping, stopped, pending, running, valid_state_transition,
}
use gearbox.Status.Backend.{fail, cancel, checkpoint, invalid_change}
use gearbox.Status.Backend.Ending.{Ended, SameEnd, WasCancelled, fail_lem, cancel_lem}
use gearbox.Status.Backend.Checkpoint.{IsStopping, IsCancelling, checkpoint_lem}
use gearbox.Status.Impl.{new_impl}
use gearbox.Job.Retry.{Answer, failed, accepted, Task, message, choose_delay, retry}
use gearbox.Job.Retry.Backoff.{retry_lem}
use gearbox.Status.Transient.{
  Transient, Db, TransientStatusData, new_data, transient, create, fetch, find_last, set_state,
  sync,
}
use gearbox.Status.Transient.Refines.{IsFresh, IsLoaded, transient-Laws, touched, sync_lem}
use gearbox.Status.Transient.Coherent.{Update, update_all, IsCoherent, create-IsCoherent}
use gearbox.Status.Transient.Store.{
  IsBounded, create-IsBounded, fetch_lem, fetch-create, checkpoint_after_stopping,
}

abbrev job_name : Bytes
job_name = codes "st-1"

-- a store with one status, that is running at 40%
abbrev stored : TransientStatusData
stored = record (new_data 5) {
  name = job_name;
  operation = codes "update";
  state = running;
  progress = 40;
}

abbrev store : Db
store = record { cells = λ p. stored; next = 1; queue = 0 ∷ [] }

-- the object of the worker, and that of a client, who has seen an older state
abbrev made : Transient
made = record {
  db = store;
  super = record (new_impl 5) { name = job_name; state = running; progress = 40 };
  ptr = 0;
}

abbrev client : Transient
client = record {
  db = store;
  super = record (new_impl 5) { name = job_name; state = pending };
  ptr = 0;
}

made-IsFresh : IsFresh made
made-IsFresh = refl

found : find_last job_name store.cells store.queue (some 0) ≡ some 0
found = unfold find_last bytes_eq in refl

-- a delaying agent whose second attempt is accepted, and a job with the status above
abbrev second_accepted : ℕ → Answer
second_accepted zero = failed
second_accepted (suc n) = accepted

abbrev put_off : Task
put_off = record { name = codes "update"; envelope = codes "{}"; status = job_name }

found_new : find_last put_off.status store.cells store.queue none ≡ some 0
found_new = unfold find_last bytes_eq in refl

retry_example :
    (seconds : ℕ) × (db' : Db) × (seconds
      ≡ choose_delay 9 [] second_accepted (λ n. n) (λ m. 0) 1 300 15)
    × (retry 9 [] second_accepted (λ n. n) (λ m. 0) 5 put_off 300 15 store
        ≡ some (ok (message 9 [] second_accepted put_off seconds (some put_off.status)) db'))
    × ((db'.cells 0).failures ≡ 1)
    × ((db'.cells 0).ytime ≡ pos (9 + seconds))
    × (seconds ≤ (if ltb 9220695 300 then 9220695 else 300) + 15)
retry_example =
    retry_lem 9 [] second_accepted (λ n. n) (λ m. 0) 5 1 300 15 put_off store 0 (λ m. omega arith)
      refl (omega arith) refl found_new

fail_example :
    ((valid_state_transition (transient.state made) completed ≡ true)
      × ((s : Transient) × (fail transient 9 (pos 500) made ≡ ok tt s)
          × Ended transient completed (pos 500) s))
    ⊎ ((valid_state_transition (transient.state made) completed ≡ false)
        × ((s : Transient) × (fail transient 9 (pos 500) made
              ≡ throw (invalid_change (transient.state made) (codes "COMPLETED")) s)
            × SameEnd transient made s))
fail_example = fail_lem transient IsFresh transient-Laws 9 made made-IsFresh (pos 500)

cancel_example :
    ((transient.state made ≡ cancelled) × (cancel transient 9 made ≡ ok tt made))
    ⊎ (((transient.state made ≢ cancelled)
          × (valid_state_transition (transient.state made) cancelled ≡ true)
          × ((s : Transient) × (cancel transient 9 made ≡ ok tt s)
              × WasCancelled transient IsFresh transient-Laws 9 made made-IsFresh s))
        ⊎ ((valid_state_transition (transient.state made) cancelled ≡ false)
            × ((s : Transient) × (cancel transient 9 made
                  ≡ throw (invalid_change (transient.state made) (codes "CANCELLED")) s)
                × SameEnd transient made s)))
cancel_example = cancel_lem transient IsFresh transient-Laws 9 made made-IsFresh

checkpoint_example :
    ((e : Exception) (s : Transient)
      → sync 9 made ≡ throw e s
      → checkpoint transient 9 made ≡ throw e s)
    × ((read : Transient)
        → sync 9 made ≡ ok tt read
        → (IsStopping (transient.state read)
            × ((s : Transient) × (checkpoint transient 9 made ≡ throw worker_stop s)
                × Ended transient stopped (pos 410) s))
          ⊎ ((IsCancelling (transient.state read)
                × ((s : Transient) × (checkpoint transient 9 made ≡ throw worker_stop s)
                    × SameEnd transient read s))
              ⊎ ((¬ IsStopping (transient.state read))
                  × (¬ IsCancelling (transient.state read))
                  × (checkpoint transient 9 made ≡ ok tt read))))
checkpoint_example = checkpoint_lem transient IsFresh transient-Laws 9 made

sync_example :
    (t : Transient) × (sync 9 made ≡ ok tt t)
    × (t.ptr ≡ 0)
    × (t.db.cells 0 ≡ touched 9 made 0)
    × (t.db.queue ≡ made.db.queue)
    × IsLoaded (touched 9 made 0) job_name 0 t.super
sync_example = sync_lem 9 made 0 found

checkpoint_after_stopping_example :
    (s : Transient) × (checkpoint transient 9
        (record made { db = (set_state 7 stopping client).0.db })
      ≡ throw worker_stop s)
    × Ended transient stopped (pos 410) s
checkpoint_after_stopping_example =
    checkpoint_after_stopping 7 9 client made (unfold valid_state_transition in refl) found

store-IsBounded : IsBounded store
store-IsBounded = record { size = omega arith; allocated = (omega arith, tt) }

abbrev uri : Bytes
uri = codes "http://h/v1/r"

create-IsBounded_example :
    IsBounded
      (create 6 (codes "http://h/v1") (codes "st-2") (codes "update") uri (codes "web") store).db
create-IsBounded_example =
    create-IsBounded 6 (codes "http://h/v1") (codes "st-2") (codes "update") uri (codes "web") store
      store-IsBounded

fetch-create_example :
    (t : Transient) × (fetch 8
        (codes "http://h/v1")
        (codes "st-2")
        (create 6 (codes "http://h/v1") (codes "st-2") (codes "update") uri (codes "web") store).db
      ≡ ok t (some t))
    × (t.super.state ≡ pending)
    × (t.super.name ≡ codes "st-2")
    × (t.super.operation ≡ codes "update")
    × (t.super.resource_uri ≡ uri)
    × (t.super.component ≡ codes "web")
    × (t.super.progress ≡ 0)
    × (t.super.code ≡ negsuc 0)
    × (t.super.failures ≡ 0)
fetch-create_example =
    fetch-create 6 (codes "http://h/v1") (codes "st-2") (codes "update") uri (codes "web") store 8

fetch_example :
    ((p : ℕ)
      → find_last job_name store.cells store.queue none ≡ some p
      → (t : Transient) × (fetch 8 uri job_name store ≡ ok t (some t))
        × (t.ptr ≡ p)
        × (t.db ≡ store)
        × IsLoaded (store.cells p) job_name 0 t.super)
    × (find_last job_name store.cells store.queue none ≡ none
        → fetch 8 uri job_name store
          ≡ throw (not_found (codes "status " ++ (job_name ++ codes " not found"))) none)
fetch_example = fetch_lem 8 uri job_name store

abbrev history : List (ℕ × Update)
history =
    (7, Update.state running)
    ∷ (8, Update.progress 50)
    ∷ (8, Update.message (codes "half done"))
    ∷ (9, Update.state pending)
    ∷ []

create-IsCoherent_example : IsCoherent (
    update_all history
      (create 6 (codes "http://h/v1") (codes "st-2") (codes "update") uri (codes "web") store))
create-IsCoherent_example =
    create-IsCoherent 6 (codes "http://h/v1") (codes "st-2") (codes "update") uri (codes "web")
      store history
