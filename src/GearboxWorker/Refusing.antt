-- ===== src/GearboxWorker/Refusing.antt =====
-- The requests to cancel a job that workers/gearbox/WorkerGearbox.cc does not carry out.
use gearbox.Base.{
  List, ℕ, ℤ, false, ◌++◌, Bytes, bytes_eq, codes, Option, none, some, ltb, if◌then◌else◌, ◌≡◌,
  refl, sym, ap, subst, ◌∙◌, inl, inr, ◌⊎◌,
}
use gearbox.Errors.{Outcome, ok, throw, ◌>>◌}
use gearbox.Errors.Laws.{>>=-ok}
use gearbox.Status.State.{
  State, pending, stopping, cancelling, cancelled, state2str, valid_state_transition,
}
use gearbox.Status.Transient.{Db, Transient}
use gearbox.Worker.Env.{success, retry}
use gearbox.GearboxWorker.Steps.{IsAt, Sees, set_state-refused}
use gearbox.GearboxWorker.World.{
  conflict, Watched, Event, precancel, World, note, on_status, to_state,
}
use gearbox.GearboxWorker.Cancel.{
  answer, fetch_status, do_pollstate, stop_now, stop_running, do_stop, post_cancelled, do_post,
}
use gearbox.GearboxWorker.Objects.{on_status-ok, to_state-ok, fetch_status_lem}

module _ (now : ℕ) (base : Bytes) (look : Bytes → Db → Outcome Db Watched)
    (handler : Event → Transient → Option Bytes) (run : Bytes → Db → Outcome Db Watched)
    (cancel_child : Bytes → Db → Outcome Db Watched) (name : Bytes) (p : ℕ) (cs : List Bytes) where
  module _ (none_waits : (e : Event) (s : Transient) → handler e s ≡ none) where
    conflict_lem :
        (s : Transient) (w : World)
        → (s.super.state ≡ stopping) ⊎ (s.super.state ≡ cancelling)
        → post_cancelled now base look handler run cancel_child name s w
          ≡ throw (conflict (codes "state is currently " ++ state2str s.super.state)) w
    unfolding post_cancelled
    conflict_lem s w (inl e) = simp e
    conflict_lem s w (inr e) = simp e

    module _ (pr : ℕ) (c : ℤ) (w : World) (h : IsAt name p cs pending pr c w.db) where
      stop_pending :
          (s : Transient)
          → s.super.state ≡ pending
          → Sees name p cs pending pr c (record s { db = w.db })
          → stop_running now base look handler run cancel_child s w ≡ ok false w
      unfolding stop_running stop_now valid_state_transition
      stop_pending s is sees = simp is (
          >>=-ok (on_status (to_state now stopping) s)
            (stop_now now base look handler run cancel_child) w
            (on_status-ok (to_state now stopping) s w (
              to_state-ok now stopping _ (
                set_state-refused name p cs pending pr c now stopping (record s { db = w.db }) sees
                  refl))))

    post_pending :
        (pr : ℕ) (c : ℤ) (s : Transient) (w : World)
        → IsAt name p cs pending pr c w.db
        → s.super.state ≡ pending
        → post_cancelled now base look handler run cancel_child name s w
          ≡ ok retry (record w { progress = if ltb w.progress 10 then 10 else w.progress })
    unfolding post_cancelled do_stop
    post_pending pr c s w h is =
        let w₁ : World = record w { progress = if ltb w.progress 10 then 10 else w.progress } in
        let (s', fetched, is', sees, _, _) =
          fetch_status_lem now base look handler run cancel_child name p cs pr c pending w₁ h in
        simp (is, none_waits precancel s)
          (>>=-ok (fetch_status now base look handler run cancel_child name) _ w₁ fetched
            ∙ >>=-ok (stop_running now base look handler run cancel_child s')
                (λ went_on.
                  if went_on
                  then do_pollstate now base look handler run cancel_child name (codes "STOPPED")
                      (some (codes "CANCELLED"))
                  else answer now base look handler run cancel_child retry)
                w₁ (stop_pending pr c w₁ h s' is' (sees w.db refl)))

    -- A request for the state CANCELLED that changes nothing in the store, where no job is registered
    -- for it. A CANCELLED status returns SUCCESS. One that is STOPPING or CANCELLING throws the error
    -- CONFLICT, which names its state. And one that is PENDING returns RETRY: it is asked to become
    -- STOPPING, which the table of states refuses.
    pub do_post-unchanged :
        (pr : ℕ) (c : ℤ) (ytime : Option ℤ) (st : State) (w : World)
        → IsAt name p cs st pr c w.db
        → let o =
            do_post now base look handler run cancel_child
              (some name)
              (some (codes "CANCELLED"))
              ytime
              w in
          ((st ≡ cancelled) → (w' : World) × (o ≡ ok success w') × (w'.db ≡ w.db))
          × ((st ≡ stopping) ⊎ (st ≡ cancelling)
              → (w' : World) × (o
                  ≡ throw (conflict (codes "state is currently " ++ state2str st)) w')
                × (w'.db ≡ w.db))
          × ((st ≡ pending) → (w' : World) × (o ≡ ok retry w') × (w'.db ≡ w.db))
    unfolding do_post bytes_eq
    do_post-unchanged pr c ytime st w h =
        let (s, fetched, is, sees, _, _) =
          fetch_status_lem now base look handler run cancel_child name p cs pr c st w h in
        let w₁ : World = record w { progress = if ltb w.progress 1 then 1 else w.progress } in
        let first =
          >>=-ok (fetch_status now base look handler run cancel_child name)
            (λ s'. note 1 >> post_cancelled now base look handler run cancel_child name s') w
            fetched in
        (
          λ e.
              let here : s.super.state ≡ cancelled = is ∙ e in
              (w₁, first ∙ (unfold post_cancelled in simp here), refl),
          λ e. (
            w₁,
            first
                ∙ conflict_lem s w₁ (subst (λ t. (t ≡ stopping) ⊎ (t ≡ cancelling)) (sym is) e)
                ∙ ap (λ t. throw (conflict (codes "state is currently " ++ state2str t)) w₁) is,
            refl,
          ),
          λ e. (
            record w₁ { progress = if ltb w₁.progress 10 then 10 else w₁.progress },
            first ∙ post_pending pr c s w₁ (subst (λ t. IsAt name p cs t pr c w.db) e h) (is ∙ e),
            refl,
          ),
        )
