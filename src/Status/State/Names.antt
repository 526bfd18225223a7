-- ===== src/Status/State/Names.antt =====
-- The names of the states: `str2state` and `state2str` of gearbox/job/Status.cc.
use gearbox.Base.{◌≡◌, ◌↔◌, refl, map, Bytes, codes, bytes_eq_iff, to_upper, arith, ◌≢◌}
use gearbox.Status.State.{State, unknown, pending, running, str2state_upper, str2state, state2str}

abbrev Chosen : Bytes → Type 0
Chosen istr = (t : State) → t ≢ unknown → (str2state_upper istr ≡ t) ↔ (istr ≡ state2str t)

str2state_upper_iff : (istr : Bytes) → Chosen istr
unfolding str2state_upper state2str
str2state_upper_iff istr pending k = ground (arith, bytes_eq_iff istr (codes "PENDING"))
str2state_upper_iff istr running k =
    ground (arith, bytes_eq_iff istr (codes "PENDING"), bytes_eq_iff istr (codes "RUNNING"))
str2state_upper_iff istr unknown k = absurd (k refl)
str2state_upper_iff istr _ k = ground (
  arith,
  bytes_eq_iff istr (codes "PENDING"),
  bytes_eq_iff istr (codes "RUNNING"),
  bytes_eq_iff istr (codes "CANCELLING"),
  bytes_eq_iff istr (codes "CANCELLED"),
  bytes_eq_iff istr (codes "COMPLETED"),
  bytes_eq_iff istr (codes "STOPPING"),
  bytes_eq_iff istr (codes "STOPPED"),
)

-- A text is read as a known state exactly if its upper case is the name that is printed for that
-- state; all other texts are read as UNKNOWN.
pub str2state_iff :
    (str : Bytes) (t : State) → t ≢ unknown → (str2state str ≡ t) ↔ (map to_upper str ≡ state2str t)
unfolding str2state
str2state_iff str t k = str2state_upper_iff (map to_upper str) t k

-- Every printed name is read back as its state.
pub str2state-state2str : (t : State) → str2state (state2str t) ≡ t
unfolding str2state state2str
str2state-state2str unknown = refl
str2state-state2str _ = refl
