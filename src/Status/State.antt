-- ===== src/Status/State.antt =====
-- The states of a job's status, their names and the transition table of gearbox/job/Status.cc.
pub mod Names
use gearbox.Base.{
  ℕ, Bool, true, false, ◌||◌, List, [], ◌∷◌, map, Bytes, codes, bytes_eq, to_upper, if◌then◌else◌,
}

pub data State : Type 0 where
  unknown pending running stopping stopped cancelling cancelled completed : State

pub State-discrete : Discrete State
State-discrete = hlevel

-- `==` on the enumeration
abbrev pub state_eq : State → State → Bool
state_eq unknown unknown = true
state_eq pending pending = true
state_eq running running = true
state_eq stopping stopping = true
state_eq stopped stopped = true
state_eq cancelling cancelling = true
state_eq cancelled cancelled = true
state_eq completed completed = true
state_eq _ _ = false

-- the `switch` of `validStateTransition`
valid_switch : State → State → Bool
valid_switch unknown to = true
valid_switch pending to = state_eq to running || state_eq to cancelled || state_eq to completed
valid_switch running to = state_eq to completed || state_eq to stopping
valid_switch stopping to = state_eq to stopped || state_eq to completed
valid_switch stopped to = state_eq to cancelling
valid_switch completed to = state_eq to cancelling
valid_switch cancelling to = state_eq to cancelled || state_eq to completed
valid_switch cancelled to = false

unfoldable pub valid_state_transition : State → State → Bool
unfolding valid_switch
valid_state_transition from to =
    if state_eq to unknown then true else if state_eq to from then true else valid_switch from to

-- the chain of `?:` in `str2state`, over the name in upper case
str2state_upper : Bytes → State
str2state_upper istr =
    if bytes_eq istr (codes "PENDING")
    then pending
    else if bytes_eq istr (codes "RUNNING")
    then running
    else if bytes_eq istr (codes "CANCELLING")
    then cancelling
    else if bytes_eq istr (codes "CANCELLED")
    then cancelled
    else if bytes_eq istr (codes "COMPLETED")
    then completed
    else if bytes_eq istr (codes "STOPPING")
    then stopping
    else if bytes_eq istr (codes "STOPPED")
    then stopped
    else unknown

unfoldable pub str2state : Bytes → State
unfolding str2state_upper to_upper bytes_eq
str2state str = str2state_upper (map to_upper str)

unfoldable pub state2str : State → Bytes
state2str pending = codes "PENDING"
state2str running = codes "RUNNING"
state2str cancelling = codes "CANCELLING"
state2str cancelled = codes "CANCELLED"
state2str completed = codes "COMPLETED"
state2str stopping = codes "STOPPING"
state2str stopped = codes "STOPPED"
state2str unknown = codes "UNKNOWN"
