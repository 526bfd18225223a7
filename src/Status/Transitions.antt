-- ===== src/Status/Transitions.antt =====
-- What the transition table of gearbox/job/Status.cc allows over a whole life of a status.
use mathlib.Core.List.{Memᴰ}
use gearbox.Base.{◌⊎◌, inl, inr, sym, ◌≡◌, ℕ, ◌≤◌, ◌≢◌, List, [], ◌∷◌, arith, All, if◌then◌else◌}
use gearbox.Status.State.{
  State, unknown, pending, running, stopping, stopped, cancelling, cancelled, completed,
  valid_state_transition,
}

-- A status that receives requests for states: a refused request changes nothing.
unfoldable pub request : State → State → State
request s to = if valid_state_transition s to then to else s

unfoldable pub requests : State → List State → State
unfolding request
requests s [] = s
requests s (to ∷ tos) = requests (request s to) tos

-- How far a status has come.
abbrev pub rank : State → ℕ
rank unknown = 0
rank pending = 0
rank running = 1
rank stopping = 2
rank stopped = 3
rank completed = 3
rank cancelling = 3
rank cancelled = 4

abbrev pub IsKnown : State → Type 0
IsKnown s = s ≢ unknown

pub rank-request : (s to : State) → IsKnown to → rank s ≤ rank (request s to)
unfolding request valid_state_transition
rank-request s to k = ground arith

-- The rank of a status never falls under any requests for known states: no request brings a job
-- that has started back to PENDING, one that has stopped or completed back to RUNNING or STOPPING,
-- or a cancelled one to anything else.
pub rank-requests :
    (s : State) (tos : List State) → All IsKnown tos → rank s ≤ rank (requests s tos)
unfolding requests
rank-requests s [] k = ground arith
rank-requests s (to ∷ tos) (k, ks) =
    ground (arith, rank-request s to k, rank-requests (request s to) tos ks)

-- a job that has started and that nothing has begun to cancel
abbrev pub IsStarted : State → Type 0
IsStarted s = (s ≢ unknown) × (s ≢ pending) × (s ≢ cancelling) × (s ≢ cancelled)

request-IsStarted :
    (s to : State) → IsStarted s → IsKnown to → (to ≡ cancelling) ⊎ IsStarted (request s to)
unfolding request valid_state_transition
request-IsStarted s to h k = ground arith

-- Requests for known states bring a job that has started, and that is neither cancelling nor
-- cancelled, to CANCELLED only if one of them asks for CANCELLING.
pub cancelled_needs_cancelling :
    (s : State) (tos : List State)
    → IsStarted s
    → All IsKnown tos
    → requests s tos ≡ cancelled
    → Memᴰ cancelling tos
unfolding requests
cancelled_needs_cancelling s [] h k e = absurd (h.3 e)
cancelled_needs_cancelling s (to ∷ tos) h (k, ks) e = elim (request-IsStarted s to h k) [
  | inl p ↦ Memᴰ.head (sym p)
  | inr q ↦ Memᴰ.tail (cancelled_needs_cancelling (request s to) tos q ks e)
]
