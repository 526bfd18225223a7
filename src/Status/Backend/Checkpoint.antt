-- ===== src/Status/Backend/Checkpoint.antt =====
-- `checkpoint` of gearbox/job/Status.cc, by which a worker notices that its job is to stop.
use gearbox.Base.{ℕ, pos, ◌≡◌, true, false, arith, inl, inr, ◌⊎◌}
use gearbox.Errors.{Exception, ok, throw, worker_stop}
use gearbox.Status.State.{State, stopping, stopped, cancelling, cancelled, valid_state_transition}
use gearbox.Status.Backend.{Backend, Laws, checkpoint, halt, wants_stop}
use gearbox.Status.Backend.Ending.{Ended, SameEnd, finish_Ended, refused_SameEnd}

-- the caller is to stop, and its status can be marked so
abbrev pub IsStopping : State → Type 0
IsStopping t = (t ≡ stopping) ⊎ (t ≡ stopped)

abbrev pub IsCancelling : State → Type 0
IsCancelling t = (t ≡ cancelling) ⊎ (t ≡ cancelled)

wants_stop-cases :
    (t : State)
    → (IsStopping t × (wants_stop t ≡ true) × (valid_state_transition t stopped ≡ true))
      ⊎ ((IsCancelling t × (wants_stop t ≡ true) × (valid_state_transition t stopped ≡ false))
          ⊎ ((¬ IsStopping t) × (¬ IsCancelling t) × (wants_stop t ≡ false)))
unfolding wants_stop valid_state_transition
wants_stop-cases t = ground arith

module _ {S : Type 0} (b : Backend S) (IsFresh : S → Type 0) (laws : Laws b IsFresh) (now : ℕ) where
  module _ (s : S) (fresh : IsFresh s) where
    halt-Ended :
        valid_state_transition (b.state s) stopped ≡ true → Ended b stopped (pos 410) (halt b now s)
    unfolding halt
    halt-Ended v =
        rw (laws.set_state_result now stopped s fresh, v)
          (finish_Ended b IsFresh laws now stopped (pos 410) _
            (simp (laws.state-set_state now stopped s fresh, v)))

    halt-SameEnd : valid_state_transition (b.state s) stopped ≡ false → SameEnd b s (halt b now s)
    unfolding halt
    halt-SameEnd v =
        rw (laws.set_state_result now stopped s fresh, v)
          (refused_SameEnd b IsFresh laws now stopped s fresh v)

  -- `checkpoint` first reads the stored status. If that fails, it throws the same exception. If the
  -- stored state is STOPPING or STOPPED, it throws WorkerStop and leaves the status STOPPED with
  -- progress 100 and code 410. If the state is CANCELLING or CANCELLED, it throws WorkerStop and
  -- leaves state, progress and code as they were read. In any other state it returns.
  pub checkpoint_lem :
      (s : S)
      → ((e : Exception) (s' : S) → b.sync now s ≡ throw e s' → checkpoint b now s ≡ throw e s')
        × ((read : S)
            → b.sync now s ≡ ok tt read
            → (IsStopping (b.state read)
                × ((s' : S) × (checkpoint b now s ≡ throw worker_stop s')
                    × Ended b stopped (pos 410) s'))
              ⊎ ((IsCancelling (b.state read)
                    × ((s' : S) × (checkpoint b now s ≡ throw worker_stop s') × SameEnd b read s'))
                  ⊎ ((¬ IsStopping (b.state read))
                      × (¬ IsCancelling (b.state read))
                      × (checkpoint b now s ≡ ok tt read))))
  unfolding checkpoint
  checkpoint_lem s = (
    λ e s' failed. rw failed,
    λ read synced.
        let fresh : IsFresh read = laws.sync_IsFresh now s read synced in
        elim (wants_stop-cases (b.state read)) [
          | inl (is, stops, v) ↦
              inl (is, (halt b now read, rw (synced, stops), halt-Ended read fresh v))
          | inr (inl (is, stops, v)) ↦
              inr (inl (is, (halt b now read, rw (synced, stops), halt-SameEnd read fresh v)))
          | inr (inr (h, k, goes)) ↦ inr (inr (h, k, rw (synced, goes)))
        ],
  )
