-- ===== src/Status/Impl.antt =====
-- gearbox/job/StatusImpl.cc: the fields of a status and the methods of the base class.
-- `now` is the reading of the clock, `time(NULL)`, in the call; the calls that one method makes
-- read the same second. `meta` holds its JSON values as text; `cfg` and `sm` are left out.
use gearbox.Base.{
  ◌≡◌, refl, arith, ℕ, ℤ, negsuc, Bool, true, false, List, [], ◌∷◌, ◌++◌, Bytes, if◌then◌else◌,
  ◌&&◌, not,
}
use gearbox.Status.State.{
  State, unknown, stopping, stopped, cancelling, cancelled, state_eq, valid_state_transition,
}

pub record Impl : Type 0 where
  pub messages : List Bytes
  pub children : List Bytes
  pub name : Bytes
  pub operation : Bytes
  pub meta : List (Bytes × Bytes)
  pub progress : ℕ
  pub code : ℤ
  pub resource_uri : Bytes
  pub parent_uri : Bytes
  pub ctime : ℕ
  pub mtime : ℕ
  pub ytime : ℤ
  pub base_uri : Bytes
  pub state : State
  pub failures : ℕ
  pub component : Bytes
  pub concurrency : ℕ

-- `Private(const ConfigFile &)`
abbrev pub new_impl : ℕ → Impl
new_impl now = record {
  messages = [];
  children = [];
  name = [];
  operation = [];
  meta = [];
  progress = 0;
  code = negsuc 0;
  resource_uri = [];
  parent_uri = [];
  ctime = now;
  mtime = now;
  ytime = negsuc 0;
  base_uri = [];
  state = unknown;
  failures = 0;
  component = [];
  concurrency = 0;
}

-- the states that leave `mtime` alone
abbrev pub keeps_mtime : State → Bool
keeps_mtime stopping = true
keeps_mtime stopped = true
keeps_mtime cancelling = true
keeps_mtime cancelled = true
keeps_mtime _ = false

-- `StatusImpl::state(State)`; the Boolean is the value that it returns
unfoldable pub set_state : ℕ → State → Impl → Impl × Bool
set_state now to s =
    let valid = valid_state_transition s.state to in
    if not valid && not (state_eq to unknown)
    then (s, false)
    else (record s { state = to; mtime = if keeps_mtime to then s.mtime else now }, true)

-- the setters that write one field, and those that note the time too
unfoldable pub set_messages : List Bytes → Impl → Impl
set_messages m s = record s { messages = m }

unfoldable pub add_message : ℕ → Bytes → Impl → Impl
add_message now m s = record s { messages = s.messages ++ m ∷ []; mtime = now }

unfoldable pub set_children : List Bytes → Impl → Impl
set_children c s = record s { children = c }

unfoldable pub add_child : ℕ → Bytes → Impl → Impl
add_child now c s = record s { children = s.children ++ c ∷ []; mtime = now }

unfoldable pub set_name : ℕ → Bytes → Impl → Impl
set_name now n s = record s { name = n; mtime = now }

unfoldable pub set_operation : ℕ → Bytes → Impl → Impl
set_operation now op s = record s { operation = op; mtime = now }

unfoldable pub set_resource_uri : ℕ → Bytes → Impl → Impl
set_resource_uri now u s = record s { resource_uri = u; mtime = now }

unfoldable pub set_component : ℕ → Bytes → Impl → Impl
set_component now c s = record s { component = c; mtime = now }

unfoldable pub set_meta : ℕ → List (Bytes × Bytes) → Impl → Impl
set_meta now m s = record s { meta = m; mtime = now }

unfoldable pub set_progress : ℕ → ℕ → Impl → Impl
set_progress now p s = record s { progress = p; mtime = now }

unfoldable pub set_code : ℤ → Impl → Impl
set_code c s = record s { code = c }

unfoldable pub set_parent_uri : ℕ → Bytes → Impl → Impl
set_parent_uri now u s = record s { parent_uri = u; mtime = now }

unfoldable pub set_ctime : ℕ → Impl → Impl
set_ctime t s = record s { ctime = t }

unfoldable pub set_mtime : ℕ → Impl → Impl
set_mtime t s = record s { mtime = t }

unfoldable pub set_ytime : ℤ → Impl → Impl
set_ytime t s = record s { ytime = t }

unfoldable pub set_base_uri : Bytes → Impl → Impl
set_base_uri u s = record s { base_uri = u }

unfoldable pub set_failures : ℕ → Impl → Impl
set_failures n s = record s { failures = n }

unfoldable pub set_concurrency : ℕ → Impl → Impl
set_concurrency n s = record s { concurrency = n }

-- The test for UNKNOWN behind `!valid` never decides: the table allows every change to UNKNOWN.
pub set_state_lem :
    (now : ℕ) (to : State) (s : Impl)
    → set_state now to s ≡ (
        if valid_state_transition s.state to
        then (record s { state = to; mtime = if keeps_mtime to then s.mtime else now }, true)
        else (s, false))
unfolding set_state valid_state_transition
set_state_lem now unknown s = refl
set_state_lem now to s = ground arith
