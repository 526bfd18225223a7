-- ===== src/Status/Backend/Ending.antt =====
-- How a status ends: `fail`, `success` and `cancel`, for every backend that keeps the laws.
use gearbox.Base.{
  ap, ◌∙◌, ℕ, ℤ, pos, ◌≡◌, ◌≢◌, refl, true, false, codes, ltb, arith, if◌then◌else◌, Bool-cases,
  inl, inr, ◌⊎◌,
}
use gearbox.Errors.{ok, throw}
use gearbox.Status.State.{State, cancelled, completed, state_eq, valid_state_transition}
use gearbox.Status.Backend.{Backend, Laws, fail, cancel, close_cancelled, invalid_change}

-- the status has ended with a code
pub record Ended {S : Type 0} (b : Backend S) (to : State) (c : ℤ) (s : S) : Type 0 where
  pub state : b.state s ≡ to
  pub progress : b.progress s ≡ 100
  pub code : b.code s ≡ c

-- nothing that a client reads has changed
pub record SameEnd {S : Type 0} (b : Backend S) (old s : S) : Type 0 where
  pub state : b.state s ≡ b.state old
  pub progress : b.progress s ≡ b.progress old
  pub code : b.code s ≡ b.code old

module _ {S : Type 0} (b : Backend S) (IsFresh : S → Type 0) (laws : Laws b IsFresh) where
  -- the three writes behind an accepted change
  pub finish_Ended :
      (now : ℕ) (to : State) (code : ℤ) (s : S)
      → b.state s ≡ to
      → Ended b to code (b.set_progress now 100 (b.set_code code s))
  finish_Ended now to code s e = record {
    state = simp (laws.state-set_progress, laws.state-set_code) e;
    progress = laws.progress-set_progress now 100 _;
    code = simp (laws.code-set_progress, laws.code-set_code);
  }

  pub refused_SameEnd :
      (now : ℕ) (to : State) (s : S)
      → IsFresh s
      → valid_state_transition (b.state s) to ≡ false
      → SameEnd b s (b.set_state now to s).0
  refused_SameEnd now to s fresh v = record {
    state = simp (laws.state-set_state now to s fresh, v);
    progress = laws.progress-set_state now to s;
    code = laws.code-set_state now to s;
  }

  module _ (now : ℕ) (s : S) (fresh : IsFresh s) where
    state_accepted :
        (to : State)
        → valid_state_transition (b.state s) to ≡ true
        → b.state (b.set_state now to s).0 ≡ to
    state_accepted to v = simp (laws.state-set_state now to s fresh, v)

    -- `fail` on a status that is in step with its store: if the table allows COMPLETED it returns,
    -- and the status is COMPLETED with progress 100 and the given code; otherwise it throws the
    -- error that names the state, and state, progress and code are as before.
    pub fail_lem :
        (code : ℤ)
        → ((valid_state_transition (b.state s) completed ≡ true)
            × ((s' : S) × (fail b now code s ≡ ok tt s') × Ended b completed code s'))
          ⊎ ((valid_state_transition (b.state s) completed ≡ false)
              × ((s' : S) × (fail b now code s
                    ≡ throw (invalid_change (b.state s) (codes "COMPLETED")) s')
                  × SameEnd b s s'))
    unfolding fail
    fail_lem code = elim (Bool-cases (valid_state_transition (b.state s) completed)) [
      | inl v ↦ inl (
        v,
        (
          _,
          rw (laws.set_state_result now completed s fresh, v),
          finish_Ended now completed code _
              (laws.state-set_mtime now _ ∙ state_accepted completed v),
        ),
      )
      | inr v ↦ inr (
        v,
        (
          _,
          rw (laws.set_state_result now completed s fresh, v)
              (ap
                (λ t. throw (invalid_change t (codes "COMPLETED")) (b.set_state now completed s).0)
                (refused_SameEnd now completed s fresh v).state),
          refused_SameEnd now completed s fresh v,
        ),
      )
    ]

    close_cancelled_lem :
        (s' : S)
        → b.state s' ≡ cancelled
        → (b.state (close_cancelled b now s') ≡ cancelled)
          × (b.progress (close_cancelled b now s')
              ≡ (if ltb (b.progress s') 100 then 100 else b.progress s'))
          × (b.code (close_cancelled b now s')
              ≡ (if ltb (b.progress s') 100 then pos 409 else b.code s'))
    unfolding close_cancelled
    close_cancelled_lem s' e = elim (Bool-cases (ltb (b.progress s') 100)) [
      | inl less ↦ rw less (
          let end = finish_Ended now cancelled (pos 409) s' e in
          (end.state, end.progress, end.code))
      | inr full ↦ rw full (e, refl, refl)
    ]

    abbrev pub WasCancelled : S → Type 0
    WasCancelled s' =
        (b.state s' ≡ cancelled)
        × (b.progress s' ≡ (if ltb (b.progress s) 100 then 100 else b.progress s))
        × (b.code s' ≡ (if ltb (b.progress s) 100 then pos 409 else b.code s))

    cancel_accepted :
        valid_state_transition (b.state s) cancelled ≡ true
        → WasCancelled (close_cancelled b now (b.set_state now cancelled s).0)
    cancel_accepted v =
        let changed = (b.set_state now cancelled s).0 in
        let (state, progress, code) = close_cancelled_lem changed (state_accepted cancelled v) in
        (
          state,
          rw (laws.progress-set_state now cancelled s) at progress,
          rw (laws.progress-set_state now cancelled s, laws.code-set_state now cancelled s) at code,
        )

    -- `cancel` on a status that is in step with its store: a cancelled one is left alone. Otherwise,
    -- if the table allows CANCELLED, the status becomes CANCELLED, with progress 100 and code 409 if
    -- its progress was below 100, and with its old progress and code if not. If the table does not
    -- allow it, the error that names the state is thrown, and state, progress and code stay.
    pub cancel_lem :
        ((b.state s ≡ cancelled) × (cancel b now s ≡ ok tt s))
        ⊎ (((b.state s ≢ cancelled)
              × (valid_state_transition (b.state s) cancelled ≡ true)
              × ((s' : S) × (cancel b now s ≡ ok tt s') × WasCancelled s'))
            ⊎ ((valid_state_transition (b.state s) cancelled ≡ false)
                × ((s' : S) × (cancel b now s
                      ≡ throw (invalid_change (b.state s) (codes "CANCELLED")) s')
                    × SameEnd b s s')))
    unfolding cancel
    cancel_lem = elim (Bool-cases (state_eq (b.state s) cancelled)) [
      | inl is ↦ inl (ground arith, rw is)
      | inr other ↦ inr (elim (Bool-cases (valid_state_transition (b.state s) cancelled)) [
        | inl v ↦ inl (
          ground arith,
          v,
          (
            close_cancelled b now (b.set_state now cancelled s).0,
            rw (other, laws.set_state_result now cancelled s fresh, v),
            cancel_accepted v,
          ),
        )
        | inr v ↦ inr (
          v,
          (
            _,
            rw (other, laws.set_state_result now cancelled s fresh, v)
                (ap
                  (λ t.
                    throw (invalid_change t (codes "CANCELLED")) (b.set_state now cancelled s).0)
                  (refused_SameEnd now cancelled s fresh v).state),
            refused_SameEnd now cancelled s fresh v,
          ),
        )
      ])
    ]
