-- ===== src/GearboxWorker/Objects.antt =====
-- The objects of statuses in the handlers of workers/gearbox/WorkerGearbox.cc.
use gearbox.Base.{List, ℕ, ℤ, Bool, Bytes, Option, ◌≡◌, sym, subst}
use gearbox.Errors.{Exception, Outcome, ok, throw}
use gearbox.Status.State.{State}
use gearbox.Status.Transient.{Db, Transient, set_state}
use gearbox.GearboxWorker.Steps.{IsAt, Sees, fetch-Sees}
use gearbox.GearboxWorker.World.{Watched, Event, World, on_status, to_state}
use gearbox.GearboxWorker.Cancel.{fetch_status}

pub on_status-ok :
    {A : Type 0} (f : Transient → Outcome Transient A) (s : Transient) (w : World) {a : A}
    {s' : Transient}
    → f (record s { db = w.db }) ≡ ok a s'
    → on_status f s w ≡ ok (a, s') (record w { db = s'.db })
on_status-ok f s w e = rw (e, on_status)

pub on_status-throw :
    {A : Type 0} (f : Transient → Outcome Transient A) (s : Transient) (w : World) {e : Exception}
    {s' : Transient}
    → f (record s { db = w.db }) ≡ throw e s'
    → on_status f s w ≡ throw e (record w { db = s'.db })
on_status-throw f s w e = rw (e, on_status)

pub to_state-ok :
    (now : ℕ) (to : State) (s : Transient) {changed : Bool} {s' : Transient}
    → set_state now to s ≡ (s', changed)
    → to_state now to s ≡ ok changed s'
to_state-ok now to s e = rw e

module _ (now : ℕ) (base : Bytes) (look : Bytes → Db → Outcome Db Watched)
    (handler : Event → Transient → Option Bytes) (run : Bytes → Db → Outcome Db Watched)
    (cancel_child : Bytes → Db → Outcome Db Watched) (name : Bytes) (p : ℕ) (cs : List Bytes) where
  module _ (pr : ℕ) (c : ℤ) (st : State) (w : World) (h : IsAt name p cs st pr c w.db) where
    pub fetch_status_lem :
        (s : Transient) × (fetch_status now base look handler run cancel_child name w ≡ ok s w)
        × (s.super.state ≡ st)
        × ((db : Db) → db ≡ w.db → Sees name p cs st pr c (record s { db = db }))
        × (s.super.ytime ≡ (w.db.cells p).ytime)
        × (s.super.concurrency ≡ (w.db.cells p).concurrency)
    unfolding fetch_status
    fetch_status_lem =
        let (s, fetched, k, same, y, n) = fetch-Sees name p cs pr c now base st w.db h in
        (
          s,
          rw (fetched, fetch_status),
          k.state,
          λ db e. record {
            ptr = k.ptr;
            name = k.name;
            state = k.state;
            progress = k.progress;
            code = k.code;
            children = k.children;
            at = subst (IsAt name p cs st pr c) (sym e) h;
          },
          y,
          n,
        )
