-- ===== src/GearboxWorker/Cancelling.antt =====
-- A request to cancel the job of a status, through all handlers of workers/gearbox/WorkerGearbox.cc that
-- it passes.
use gearbox.Base.{
  ℕ, ℤ, pos, true, [], Bytes, bytes_eq, codes, Option, none, some, ltb, if◌then◌else◌, ◌≡◌, refl,
  ap, ◌∙◌,
}
use gearbox.Errors.{Outcome, ok}
use gearbox.Errors.Laws.{>>=-ok}
use gearbox.Status.State.{running, stopping, stopped, cancelling, cancelled, valid_state_transition}
use gearbox.Status.Backend
use gearbox.Status.Backend.{checkpoint}
use gearbox.Status.Transient.{Db, Transient, transient}
use gearbox.Worker.Env.{Response, success, retry}
use gearbox.GearboxWorker.Steps.{IsAt, Sees, set_state-Sees, checkpoint-IsAt, cancel-IsAt}
use gearbox.GearboxWorker.World.{
  Watched, Event, precancel, cancel, World, on_status, to_state, swallow_stop, is_negative,
}
use gearbox.GearboxWorker.Cancel.{
  answer, fetch_status, cancel_now, do_cancelwatch, cancel_stopped, polled, do_pollstate, stop_now,
  stop_running, do_stop, post_cancelled, do_post,
}
use gearbox.GearboxWorker.Objects.{on_status-ok, to_state-ok, fetch_status_lem}

module _ (now : ℕ) (base : Bytes) (look : Bytes → Db → Outcome Db Watched)
    (handler : Event → Transient → Option Bytes) (run : Bytes → Db → Outcome Db Watched)
    (cancel_child : Bytes → Db → Outcome Db Watched) (name : Bytes) (p : ℕ) where
  module _ (none_waits : (e : Event) (s : Transient) → handler e s ≡ none) where
    -- the last handler, with nothing to watch
    cancelwatch_lem :
        (w : World)
        → IsAt name p [] cancelling 100 (pos 410) w.db
        → (w' : World) × (do_cancelwatch now base look handler run cancel_child name []
              (codes "CANCELLING")
              w
            ≡ ok success w')
          × IsAt name p [] cancelled 100 (pos 410) w'.db
          × (w'.posted ≡ w.posted)
    unfolding do_cancelwatch cancel_now bytes_eq
    cancelwatch_lem w h =
        let (s, fetched, _, sees, _, _) =
          fetch_status_lem now base look handler run cancel_child name p [] 100 (pos 410) cancelling
            w h in
        let (s', ended, at) = cancel-IsAt name p [] 100 (pos 410) now _ (sees w.db refl) in
        (
          record w { db = s'.db },
          >>=-ok (fetch_status now base look handler run cancel_child name) _ w fetched
              ∙ rw (none_waits cancel s, cancel_now)
                  (>>=-ok (on_status (Backend.cancel transient now) s) _ w
                    (on_status-ok (Backend.cancel transient now) s w ended)),
          at,
          refl,
        )

    -- the request has got through: the status is CANCELLED, and no job is to run for it
    abbrev pub IsDone : World → Outcome World Response → Type 0
    IsDone w o =
        (w' : World) × (o ≡ ok success w')
        × IsAt name p [] cancelled 100 (pos 410) w'.db
        × (w'.posted ≡ w.posted)

    cancel_stopped_lem :
        (s : Transient) (w : World)
        → s.super.children ≡ []
        → IsAt name p [] cancelling 100 (pos 410) w.db
        → IsDone w (cancel_stopped now base look handler run cancel_child name (true, s) w)
    unfolding cancel_stopped
    cancel_stopped_lem s w childless h =
        let (w', done, at, posted) = cancelwatch_lem w h in (w', simp (childless, done), at, posted)

    polled_lem :
        (s : Transient) (w : World)
        → s.super.state ≡ stopped
        → Sees name p [] stopped 100 (pos 410) (record s { db = w.db })
        → IsDone w (
            polled now base look handler run cancel_child name
              (codes "STOPPED")
              (some (codes "CANCELLED"))
              s
              w)
    unfolding polled bytes_eq valid_state_transition
    polled_lem s w at_stop sees =
        let w₁ : World = record w { progress = if ltb w.progress 40 then 40 else w.progress } in
        let (s', changed, k, _, _, _, _) =
          set_state-Sees name p [] 100 (pos 410) now stopped cancelling (record s { db = w.db })
            sees refl in
        let (w', done, at, posted) =
          cancel_stopped_lem s' (record w₁ { db = s'.db }) k.children k.at in
        (
          w',
          simp at_stop (
              >>=-ok (on_status (to_state now cancelling) s)
                (cancel_stopped now base look handler run cancel_child name) w₁
                (on_status-ok (to_state now cancelling) s w₁ (to_state-ok now cancelling _ changed))
              ∙ done),
          at,
          posted,
        )

    pollstate_lem :
        (w : World)
        → IsAt name p [] stopped 100 (pos 410) w.db
        → IsDone w (
            do_pollstate now base look handler run cancel_child name
              (codes "STOPPED")
              (some (codes "CANCELLED"))
              w)
    unfolding do_pollstate
    pollstate_lem w h =
        let (s, fetched, at_stop, sees, _, _) =
          fetch_status_lem now base look handler run cancel_child name p [] 100 (pos 410) stopped w
            h in
        let (w', done, at, posted) = polled_lem s w at_stop (sees w.db refl) in
        (
          w',
          >>=-ok (fetch_status now base look handler run cancel_child name) _ w fetched ∙ done,
          at,
          posted,
        )

    -- `do_stop` on the running status: with no delay and nobody at work it is STOPPED at once
    stop_now_lem :
        (pr : ℕ) (c : ℤ) (s : Transient) (w : World)
        → is_negative s.super.ytime ≡ true
        → s.super.concurrency ≡ 0
        → Sees name p [] stopping pr c (record s { db = w.db })
        → (w' : World) × (stop_now now base look handler run cancel_child (true, s) w ≡ ok true w')
          × IsAt name p [] stopped 100 (pos 410) w'.db
          × (w'.posted ≡ w.posted)
    unfolding stop_now
    stop_now_lem pr c s w undelayed idle sees =
        let (s', stops, at) = checkpoint-IsAt name p [] pr c now (record s { db = w.db }) sees in
        (
          record w { db = s'.db },
          simp (undelayed, idle)
              (>>=-ok (on_status (λ t. swallow_stop (checkpoint transient now t)) s)
                (λ _ w'. ok true w') w
                (on_status-ok (λ t. swallow_stop (checkpoint transient now t)) s w
                  (ap swallow_stop stops))),
          at,
          refl,
        )

    module _ (pr : ℕ) (c : ℤ) (w : World) (h : IsAt name p [] running pr c w.db)
        (undelayed : is_negative (w.db.cells p).ytime ≡ true)
        (idle : (w.db.cells p).concurrency ≡ 0) where
      stop_running_lem :
          (s : Transient)
          → s.super.state ≡ running
          → s.super.ytime ≡ (w.db.cells p).ytime
          → s.super.concurrency ≡ (w.db.cells p).concurrency
          → Sees name p [] running pr c (record s { db = w.db })
          → (w' : World) × (stop_running now base look handler run cancel_child s w ≡ ok true w')
            × IsAt name p [] stopped 100 (pos 410) w'.db
            × (w'.posted ≡ w.posted)
      unfolding stop_running valid_state_transition
      stop_running_lem s runs y n sees =
          let (s', changed, k, y', n', _, _) =
            set_state-Sees name p [] pr c now running stopping (record s { db = w.db }) sees refl in
          let (w', stops, at, posted) =
            stop_now_lem pr c s' (record w { db = s'.db }) (ap is_negative (y' ∙ y) ∙ undelayed)
              (n' ∙ n ∙ idle) k in
          (
            w',
            simp runs (
                >>=-ok (on_status (to_state now stopping) s)
                  (stop_now now base look handler run cancel_child) w
                  (on_status-ok (to_state now stopping) s w (to_state-ok now stopping _ changed))
                ∙ stops),
            at,
            posted,
          )

    module _ (pr : ℕ) (c : ℤ) (w : World) (h : IsAt name p [] running pr c w.db)
        (undelayed : is_negative (w.db.cells p).ytime ≡ true)
        (idle : (w.db.cells p).concurrency ≡ 0) where
      do_stop_lem : IsDone w (do_stop now base look handler run cancel_child name none w)
      unfolding do_stop
      do_stop_lem =
          let w₁ : World = record w { progress = if ltb w.progress 10 then 10 else w.progress } in
          let (s, fetched, runs, sees, y, n) =
            fetch_status_lem now base look handler run cancel_child name p [] pr c running w₁ h in
          let (w₂, stops, at, posted) =
            stop_running_lem pr c w₁ h undelayed idle s runs y n (sees w.db refl) in
          let (w', done, at', posted') = pollstate_lem w₂ at in
          (
            w',
            >>=-ok (fetch_status now base look handler run cancel_child name) _ w₁ fetched
                ∙ >>=-ok (stop_running now base look handler run cancel_child s)
                    (λ went_on.
                      if went_on
                      then do_pollstate now base look handler run cancel_child name
                          (codes "STOPPED") (some (codes "CANCELLED"))
                      else answer now base look handler run cancel_child retry)
                    w₁ stops
                ∙ done,
            at',
            posted' ∙ posted,
          )

      post_cancelled_lem :
          (s : Transient)
          → s.super.state ≡ running
          → IsDone w (post_cancelled now base look handler run cancel_child name s w)
      unfolding post_cancelled
      post_cancelled_lem s runs =
          let (w', done, at, posted) = do_stop_lem in
          (w', simp (runs, none_waits precancel s, done), at, posted)

    -- A running job can be cancelled. Let the name lead to a status that is RUNNING, that waits for no
    -- time, that no process works on, and that has no children, and let no job be registered for the
    -- cancellation. Then a request for the state CANCELLED returns SUCCESS, and the stored status is
    -- CANCELLED, with progress 100 and the code 410 of a job that was stopped; no job is posted to go on
    -- with it.
    pub do_post-running :
        (pr : ℕ) (c : ℤ) (ytime : Option ℤ) (w : World)
        → IsAt name p [] running pr c w.db
        → is_negative (w.db.cells p).ytime ≡ true
        → (w.db.cells p).concurrency ≡ 0
        → (w' : World) × (do_post now base look handler run cancel_child
              (some name)
              (some (codes "CANCELLED"))
              ytime
              w
            ≡ ok success w')
          × IsAt name p [] cancelled 100 (pos 410) w'.db
          × (w'.posted ≡ w.posted)
    unfolding do_post bytes_eq
    do_post-running pr c ytime w h undelayed idle =
        let (s, fetched, runs, _, _, _) =
          fetch_status_lem now base look handler run cancel_child name p [] pr c running w h in
        let (w', done, at, posted) =
          post_cancelled_lem pr c
            (record w { progress = if ltb w.progress 1 then 1 else w.progress }) h undelayed idle s
            runs in
        (
          w',
          >>=-ok (fetch_status now base look handler run cancel_child name) _ w fetched ∙ done,
          at,
          posted,
        )
