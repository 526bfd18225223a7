-- ===== src/Status/Backend.antt =====
-- The operations of gearbox/job/StatusImpl.cc and Status.cc that stand on virtual methods: `fail`,
-- `cancel`, `success`, `progress`, `checkpoint`, `is_success`. A `Backend` is the table of the
-- virtual methods they call, over the state `S` of an implementation (which holds the store that
-- the implementation shares); `Laws` says what an implementation owes its clients.
pub mod Ending
pub mod Checkpoint
use gearbox.Base.{
  ℕ, ℤ, pos, negsuc, ◌≡◌, Bool, true, false, Bytes, codes, ◌++◌, leb, ltb, ◌==◌, is_zero, not,
  if◌then◌else◌,
}
use gearbox.Errors.{
  Exception, std_exception, worker_stop, internal_server_error, Outcome, ok, throw,
}
use gearbox.Status.State.{
  State, unknown, pending, running, stopping, stopped, cancelling, cancelled, completed, state_eq,
  valid_state_transition, state2str,
}

pub record Backend (S : Type 0) : Type 0 where
  pub state : S → State
  pub progress : S → ℕ
  pub code : S → ℤ
  pub set_state : ℕ → State → S → S × Bool
  pub set_progress : ℕ → ℕ → S → S
  pub set_code : ℤ → S → S
  pub set_mtime : ℕ → S → S
  pub sync : ℕ → S → Outcome S (Unit {0})

-- `IsFresh s` says that what the object caches is what its store holds.
pub record Laws {S : Type 0} (b : Backend S) (IsFresh : S → Type 0) : Type 0 where
  pub set_state_result :
      (now : ℕ) (to : State) (s : S)
      → IsFresh s
      → (b.set_state now to s).1 ≡ valid_state_transition (b.state s) to
  pub state-set_state :
      (now : ℕ) (to : State) (s : S)
      → IsFresh s
      → b.state (b.set_state now to s).0
        ≡ (if valid_state_transition (b.state s) to then to else b.state s)
  pub progress-set_state :
      (now : ℕ) (to : State) (s : S) → b.progress (b.set_state now to s).0 ≡ b.progress s
  pub code-set_state : (now : ℕ) (to : State) (s : S) → b.code (b.set_state now to s).0 ≡ b.code s
  pub state-set_progress : (now p : ℕ) (s : S) → b.state (b.set_progress now p s) ≡ b.state s
  pub progress-set_progress : (now p : ℕ) (s : S) → b.progress (b.set_progress now p s) ≡ p
  pub code-set_progress : (now p : ℕ) (s : S) → b.code (b.set_progress now p s) ≡ b.code s
  pub state-set_code : (c : ℤ) (s : S) → b.state (b.set_code c s) ≡ b.state s
  pub progress-set_code : (c : ℤ) (s : S) → b.progress (b.set_code c s) ≡ b.progress s
  pub code-set_code : (c : ℤ) (s : S) → b.code (b.set_code c s) ≡ c
  pub state-set_mtime : (t : ℕ) (s : S) → b.state (b.set_mtime t s) ≡ b.state s
  pub progress-set_mtime : (t : ℕ) (s : S) → b.progress (b.set_mtime t s) ≡ b.progress s
  pub code-set_mtime : (t : ℕ) (s : S) → b.code (b.set_mtime t s) ≡ b.code s
  pub sync_IsFresh : (now : ℕ) (s s' : S) → b.sync now s ≡ ok tt s' → IsFresh s'

-- the exception of a refused change from the state `from`
pub invalid_change : State → Bytes → Exception
invalid_change from to =
    internal_server_error
      (codes "Invalid status state change from " ++ (state2str from ++ (codes " to " ++ to)))

-- the states in which `checkpoint` stops its caller
unfoldable pub wants_stop : State → Bool
wants_stop stopping = true
wants_stop stopped = true
wants_stop cancelling = true
wants_stop cancelled = true
wants_stop _ = false

module _ {S : Type 0} (b : Backend S) where
  unfoldable pub fail : ℕ → ℤ → S → Outcome S (Unit {0})
  fail now code s =
      let (s', changed) = b.set_state now completed s in
      if changed
      then ok tt (b.set_progress now 100 (b.set_code code (b.set_mtime now s')))
      else throw (invalid_change (b.state s') (codes "COMPLETED")) s'

  unfoldable pub success : ℕ → S → Outcome S (Unit {0})
  success now s =
      let (s', changed) = b.set_state now completed s in
      if changed
      then ok tt (b.set_progress now 100 (b.set_code (pos 0) (b.set_mtime now s')))
      else throw (invalid_change (b.state s') (codes "COMPLETED")) s'

  -- the tail of `cancel`: the code is 409, of `ERR_CONFLICT`
  close_cancelled : ℕ → S → S
  close_cancelled now s =
      if ltb (b.progress s) 100 then b.set_progress now 100 (b.set_code (pos 409) s) else s

  unfoldable pub cancel : ℕ → S → Outcome S (Unit {0})
  unfolding close_cancelled
  cancel now s =
      if state_eq (b.state s) cancelled
      then ok tt s
      else (let (s', changed) = b.set_state now cancelled s in
          if changed
          then ok tt (close_cancelled now s')
          else throw (invalid_change (b.state s') (codes "CANCELLED")) s')

  -- `Status::progress(unsigned)`: a smaller value is ignored
  unfoldable pub advance : ℕ → ℕ → S → S
  advance now p s = if ltb (b.progress s) p then b.set_progress now p s else s

  unfoldable pub has_completed : S → Bool
  has_completed s = b.progress s == 100

  unfoldable pub is_success : S → Outcome S Bool
  is_success s =
      if b.progress s == 100
      then ok (is_zero (b.code s)) s
      else throw (std_exception (codes "is_success is invalid on in-complete status")) s

  -- the code is 410, of `ERR_GONE`
  halt : ℕ → S → S
  halt now s =
      let (s', changed) = b.set_state now stopped s in
      if changed then b.set_progress now 100 (b.set_code (pos 410) s') else s'

  after_sync : ℕ → Outcome S (Unit {0}) → Outcome S (Unit {0})
  unfolding halt wants_stop
  after_sync now (throw e s) = throw e s
  after_sync now (ok _ s) =
      if wants_stop (b.state s) then throw worker_stop (halt now s) else ok tt s

  unfoldable pub checkpoint : ℕ → S → Outcome S (Unit {0})
  unfolding after_sync
  checkpoint now s = after_sync now (b.sync now s)
