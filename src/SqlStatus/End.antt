-- ===== src/SqlStatus/End.antt =====
-- How a status of plugins/status/sql/SQLStatusImpl.cc changes its state and ends.
-- `others` is what other processes do to the tables between the load of the row and the lock.
use gearbox.Base.{
  ℕ, ℤ, pos, negsuc, Bool, false, List, [], ◌∷◌, Option, none, some, ltb, not, ◌==◌, ◌&&◌,
  if◌then◌else◌,
}
use gearbox.Errors.{Outcome, ok, throw, ◌>>=◌, ◌>>◌}
use gearbox.Status.State.{
  State, unknown, cancelled, completed, state_eq, str2state, state2str, valid_state_transition,
}
use gearbox.Status.Impl
use gearbox.Status.Impl.{Impl}
use gearbox.Status.Backend.{invalid_change}
use gearbox.SqlStatus.Tables.{Row, Tables, transact, reading}
use gearbox.SqlStatus.Lists.{forget_messages, forget_children, forget_meta}
use gearbox.SqlStatus.Object.{Sql, row_of, really_load, getter}

-- the state that `SELECT state` puts into an empty string
abbrev pub stored_state : Option Row → State
stored_state none = str2state []
stored_state (some r) = str2state r.state

-- `code() == -1` of `cancel`
abbrev pub is_unset : ℤ → Bool
is_unset (negsuc n) = n == 0
is_unset (pos n) = false

module _ {T : Type 0} (tb : Tables T) where
  -- lock, SELECT and, if the stored state allows the change, UPDATE and commit; else roll back
  abbrev pub locked_change : State → (Row → Row) → Sql T → List (T → T)
  locked_change to f s =
      if valid_state_transition (stored_state (row_of tb s)) to
      then reading ∷ reading ∷ tb.update s.super.name f ∷ reading ∷ []
      else reading ∷ reading ∷ []

  -- the loop over it; the Boolean says whether the change was made
  unfoldable pub change_row : State → (Row → Row) → Sql T → Sql T × Bool
  unfolding transact
  change_row to f s = (
    record s { db = transact (locked_change to f s) s.db },
    valid_state_transition (stored_state (row_of tb s)) to,
  )

  -- `state(State)` behind the load
  unfoldable pub state_loaded : ℕ → State → Sql T → Sql T × Bool
  unfolding change_row
  state_loaded now to s =
      let (super, changed) = Impl.set_state now to s.super in
      let s' : Sql T = record s { super = super } in
      if changed
      then change_row to
          (λ r. record r { state = state2str s'.super.state; mtime = s'.super.mtime }) s'
      else (s, false)

  abbrev pub meanwhile : (T → T) → Sql T → Sql T
  meanwhile others s = record s { db = record s.db { tables = others s.db.tables } }

  state_result : Sql T × Bool → Outcome (Sql T) Bool
  state_result (s, changed) = ok changed s

  -- `state(State)`
  unfoldable pub set_state : (T → T) → ℕ → State → Sql T → Outcome (Sql T) Bool
  unfolding state_result
  set_state others now to s =
      ((if s.should_load && not s.loaded then really_load tb now else ok tt)
          >> (λ s'. state_result (state_loaded now to (meanwhile others s'))))
        s

  unfoldable pub forget_lists : ℕ → Sql T → Outcome (Sql T) (Unit {0})
  unfolding forget_messages forget_children forget_meta
  forget_lists now s = ok tt (forget_meta tb now (forget_children tb (forget_messages tb s)))

  -- `sync`
  unfoldable pub sync : ℕ → Sql T → Outcome (Sql T) (Unit {0})
  unfolding forget_lists
  sync now s =
      (really_load tb now >> forget_lists now)
        (record s { super = (Impl.set_state now unknown s.super).0 })

  -- the part of `end` between the load and the loop: the cached fields of the end, or the exception
  unfoldable pub finished : ℕ → ℤ → State → Sql T → Outcome (Sql T) (Unit {0})
  finished now code to s =
      let (super, changed) = Impl.set_state now to s.super in
      let s' : Sql T = record s { super = super } in
      if changed
      then ok tt (
          if ltb super.progress 100
          then record s { super = Impl.set_progress now 100 (Impl.set_code code super) }
          else s')
      else throw (invalid_change super.state (state2str to)) s'

  -- the loop of `end`; a stored state that forbids the change is logged and left
  unfoldable pub finish_row : State → Sql T → Outcome (Sql T) (Unit {0})
  unfolding change_row
  finish_row to s =
      ok tt
        (change_row to
          (λ r. record r {
            progress = s.super.progress;
            code = s.super.code;
            state = state2str s.super.state;
          })
          s).0

  -- `end` behind the load
  unfoldable pub end_loaded : ℕ → ℤ → State → Sql T → Outcome (Sql T) (Unit {0})
  unfolding finished finish_row
  end_loaded now code to = finished now code to >> finish_row to

  unfoldable pub end : (T → T) → ℕ → ℤ → State → Sql T → Outcome (Sql T) (Unit {0})
  unfolding sync end_loaded
  end others now code to s =
      ((if not s.loaded then really_load tb now else sync now)
          >> (λ s'. end_loaded now code to (meanwhile others s')))
        s

  unfoldable pub fail : (T → T) → ℕ → ℤ → Sql T → Outcome (Sql T) (Unit {0})
  unfolding end
  fail others now code = end others now code completed

  unfoldable pub success : (T → T) → ℕ → Sql T → Outcome (Sql T) (Unit {0})
  unfolding end
  success others now = end others now (pos 0) completed

  -- `cancel`: 409 is the code of `ERR_CONFLICT`
  unfoldable pub cancel : (T → T) → ℕ → Sql T → Outcome (Sql T) (Unit {0})
  unfolding end getter
  cancel others now = getter tb (λ i. i.state) now >>= λ state.
      if state_eq state cancelled
      then ok tt
      else (getter tb (λ i. i.code) now >>= λ code.
          end others now (if is_unset code then pos 409 else code) cancelled)
