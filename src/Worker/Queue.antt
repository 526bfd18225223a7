-- ===== src/Worker/Queue.antt =====
-- The queue of jobs to run afterwards: `afterwards`, `post_request` and `clear_afterwards` of
-- gearbox/worker/Worker.cc. `run_entry` runs an entry at once or, if it has a delay, puts it off.
use gearbox.Base.{ℕ, List, [], ◌∷◌, ◌++◌, Bytes}
use gearbox.Errors.{Outcome, ok, throw}
use gearbox.Worker.Env.{QueueEntry, State, Env}

module _ {W : Type 0} (env : Env W) where
  unfoldable pub add_afterwards : Bytes → ℕ → State W → State W
  add_afterwards name delay s = record s {
    afterwards = s.afterwards ++ record { name = name; delay = delay } ∷ [];
  }

  unfoldable pub clear_afterwards : State W → State W
  clear_afterwards s = record s { afterwards = [] }

  -- an entry leaves the queue before it is run; an exception leaves the rest in the queue
  unfoldable pub drain : List QueueEntry → W → Outcome (W × List QueueEntry) (Unit {0})
  drain [] w = ok tt (w, [])
  drain (e ∷ es) w = elim (env.run_entry e w) [
    | ok _ w' ↦ drain es w'
    | throw x w' ↦ throw x (w', es)
  ]

  -- `post_request` in the `try` of `run_job`: an exception is only logged
  unfoldable pub post_request : State W → State W
  unfolding drain
  post_request s = elim (drain s.afterwards s.world) [
    | ok _ (w, es) ↦ record s { world = w; afterwards = es }
    | throw _ (w, es) ↦ record s { world = w; afterwards = es }
  ]
