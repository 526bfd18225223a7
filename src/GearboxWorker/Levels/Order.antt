-- ===== src/GearboxWorker/Levels/Order.antt =====
-- The chain of levels that `do_run_global_agents_v1` of workers/gearbox/WorkerGearbox.cc builds.
use gearbox.Base.{ℕ, ◌<◌, pos, List, [], ◌∷◌, Bytes, some, length, ◌≡◌}
use gearbox.GearboxWorker.Counter.{Files}
use gearbox.GearboxWorker.Levels.{RunLevel, nothing_left, single, several, Chain}

-- the levels that follow one another
pub levels_of : RunLevel → List (List Bytes)
levels_of nothing_left = []
levels_of (single progress agent next) = (agent ∷ []) ∷ levels_of next
levels_of (several progress counter agents next) = agents ∷ levels_of next

-- the counter of every level with several agents is there, and holds their number
abbrev pub IsCounted : Files → RunLevel → Type 0
IsCounted files nothing_left = Unit {0}
IsCounted files (single progress agent next) = IsCounted files next
IsCounted files (several progress counter agents next) =
    (files counter ≡ some (pos (length agents))) × IsCounted files next

module _ (fresh : ℕ → Bytes) (distinct : (i j : ℕ) → fresh i ≡ fresh j → i ≡ j) where
  -- the counters of the levels were made before the `made`-th
  abbrev WereMade : ℕ → RunLevel → Type 0
  WereMade made nothing_left = Unit {0}
  WereMade made (single progress agent next) = WereMade made next
  WereMade made (several progress counter agents next) =
      ((k : ℕ) × (counter ≡ fresh k) × (k < made)) × WereMade made next

  abbrev IsGood : Chain → Type 0
  IsGood c = WereMade c.made c.next_level × IsCounted c.files c.next_level
