-- ===== src/SqlStatus/Ending.antt =====
-- How a status in the tables ends, with other processes at work: `end`, which `fail`, `success` and
-- `cancel` of plugins/status/sql/SQLStatusImpl.cc call.
use gearbox.Base.{
  ℕ, ℤ, Bool, true, false, not, Bytes, some, ltb, if◌then◌else◌, ◌≡◌, ◌≢◌, refl, ap, ◌∙◌, arith,
  Bool-cases, inl, inr, ◌⊎◌,
}
use gearbox.Errors.{ok, throw}
use gearbox.Errors.Laws.{>>=-ok, >>=-throw}
use gearbox.Status.State.{State, str2state, state2str, valid_state_transition}
use gearbox.Status.Impl
use gearbox.Status.Impl.{Impl, set_state_lem, keeps_mtime}
use gearbox.Status.Backend.{invalid_change}
use gearbox.SqlStatus.Tables.{Row, Tables, Laws, on_row}
use gearbox.SqlStatus.Tries.{transact_lem}
use gearbox.SqlStatus.Object.{Sql, row_of, really_load}
use gearbox.SqlStatus.Reading.{IsReadable, read_lem}
use gearbox.SqlStatus.End.{
  stored_state, locked_change, change_row, meanwhile, sync, finished, finish_row, end_loaded, end,
}

-- the row that `end` leaves of `now_there`, after it had read `seen`
abbrev pub closed : ℤ → State → Row → Row → Row
closed code to seen now_there = record now_there {
  progress = if ltb seen.progress 100 then 100 else seen.progress;
  code = if ltb seen.progress 100 then code else seen.code;
  state = state2str to;
}

module _ {T : Type 0} (tb : Tables T) where
  -- a change under the lock goes by the stored state alone
  pub change_row_tables :
      (to : State) (f : Row → Row) (s : Sql T)
      → (change_row tb to f s).0.db.tables ≡ (
          if valid_state_transition (stored_state (row_of tb s)) to
          then tb.update s.super.name f s.db.tables
          else s.db.tables)
  unfolding change_row
  change_row_tables to f s =
      elim (Bool-cases (valid_state_transition (stored_state (row_of tb s)) to)) [
        | inl v ↦ transact_lem (locked_change tb to f s) s.db ∙ rw v
        | inr v ↦ transact_lem (locked_change tb to f s) s.db ∙ rw v
      ]

  module _ (now : ℕ) (code : ℤ) (to : State) (o : Sql T) where
    pub finished-refused :
        valid_state_transition o.super.state to ≡ false
        → finished tb now code to o ≡ throw (invalid_change o.super.state (state2str to)) o
    unfolding finished
    finished-refused v = rw (set_state_lem now to o.super, v)

    pub finished-accepted :
        valid_state_transition o.super.state to ≡ true
        → (s' : Sql T) × (finished tb now code to o ≡ ok tt s')
          × (s'.super.state ≡ to)
          × (s'.super.progress ≡ (if ltb o.super.progress 100 then 100 else o.super.progress))
          × (s'.super.code ≡ (if ltb o.super.progress 100 then code else o.super.code))
          × (s'.super.name ≡ o.super.name)
          × (s'.db ≡ o.db)
    unfolding finished Impl.set_progress Impl.set_code
    finished-accepted v = (
      if ltb o.super.progress 100
          then record o { super = Impl.set_progress now 100 (Impl.set_code code changed) }
          else record o { super = changed },
      rw (set_state_lem now to o.super, v),
      ground arith,
      ground arith,
      ground arith,
      ground arith,
      ground arith,
    )
      where
        changed : Impl
        changed = record o.super {
          state = to;
          mtime = if keeps_mtime to then o.super.mtime else now;
        }

    finish_row_lem :
        (s : Sql T)
        → (s' : Sql T) × (finish_row tb to s ≡ ok tt s')
          × (s'.super ≡ s.super)
          × (s'.db.tables ≡ (
              if valid_state_transition (stored_state (row_of tb s)) to
              then tb.update s.super.name
                  (λ r. record r {
                    progress = s.super.progress;
                    code = s.super.code;
                    state = state2str s.super.state;
                  })
                  s.db.tables
              else s.db.tables))
    unfolding finish_row change_row
    finish_row_lem s = (_, refl, refl, change_row_tables to _ s)

  module _ (laws : Laws tb) (name : Bytes) (f : Row → Row) (t : T) where
    select_changed :
        (b : Bool) (r : Row)
        → tb.select name t ≡ some r
        → tb.select name (if b then tb.update name f t else t) ≡ some (if b then f r else r)
    select_changed true r e = laws.select-update_self name f t ∙ ap (on_row f) e
    select_changed false r e = e

    select_unchanged :
        (b : Bool) (n : Bytes)
        → n ≢ name
        → tb.select n (if b then tb.update name f t else t) ≡ tb.select n t
    select_unchanged true n h = laws.select-update_other n name f t h
    select_unchanged false n h = refl

  module _ (laws : Laws tb) (now : ℕ) (code : ℤ) (to : State) where
    -- `end` behind the load, on an object that has read `seen`, where `r` is stored by now
    end_loaded_lem :
        (o : Sql T) (seen r : Row)
        → o.super.state ≡ str2state seen.state
        → o.super.progress ≡ seen.progress
        → o.super.code ≡ seen.code
        → row_of tb o ≡ some r
        → valid_state_transition (str2state seen.state) to ≡ true
        → (s' : Sql T) × (end_loaded tb now code to o ≡ ok tt s')
          × (s'.super.state ≡ to)
          × (s'.db.tables ≡ (
              if valid_state_transition (str2state r.state) to
              then tb.update o.super.name (closed code to seen) o.db.tables
              else o.db.tables))
    unfolding end_loaded
    end_loaded_lem o seen r st pr co stored v =
        let allowed : valid_state_transition o.super.state to ≡ true = rw st v in
        let (a, finish, state, progress, value, name, db) =
          finished-accepted now code to o allowed in
        let (s', row, super, tables) = finish_row_lem now code to o a in
        let here : row_of tb a ≡ some r =
          ap (λ n. tb.select n a.db.tables) name
          ∙ ap (λ d. tb.select o.super.name d.tables) db
          ∙ stored in
        let permits : stored_state (row_of tb a) ≡ str2state r.state = ap stored_state here in
        (
          s',
          >>=-ok (finished tb now code to) _ o finish ∙ row,
          ap (λ i. i.state) super ∙ state,
          simp (permits, state, progress, value, name, db, pr, co) at tables,
        )

    -- `end` of a status whose row was `seen` when it was read and is `r` under the lock, after what
    -- other processes did meanwhile. The object has read its row before, or its state is still the
    -- UNKNOWN that the constructor gives; an object that was just inserted, which has another state and
    -- has read nothing, is left out. If the table of states forbids the change from what was seen,
    -- it throws the error that names that state and leaves the tables. Otherwise it returns, and the
    -- object shows the new state; the row has the new state, with progress 100 and the given code if
    -- the progress seen was below 100 and those seen if not, if the table allows the change from the
    -- stored state too. If it does not, the row is left as it is, and still no error is thrown. No other
    -- row is touched.
    pub end_lem :
        (others : T → T) (s : Sql T) (seen r : Row)
        → row_of tb s ≡ some seen
        → seen.name ≡ s.super.name
        → IsReadable s
        → tb.select s.super.name (others s.db.tables) ≡ some r
        → ((valid_state_transition (str2state seen.state) to ≡ false)
            × ((s' : Sql T) × (end tb others now code to s
                  ≡ throw (invalid_change (str2state seen.state) (state2str to)) s')
                × (s'.db.tables ≡ others s.db.tables)))
          ⊎ ((valid_state_transition (str2state seen.state) to ≡ true)
              × ((s' : Sql T) × (end tb others now code to s ≡ ok tt s')
                  × (s'.super.state ≡ to)
                  × (tb.select s.super.name s'.db.tables
                      ≡ some (
                          if valid_state_transition (str2state r.state) to
                          then closed code to seen r
                          else r))
                  × ((n : Bytes)
                      → n ≢ s.super.name
                      → tb.select n s'.db.tables ≡ tb.select n (others s.db.tables))))
    unfolding end end_loaded
    end_lem others s seen r stored keyed readable later =
        let (a, loaded, h) = read_lem tb now s seen stored keyed readable in
        let o : Sql T = meanwhile tb others a in
        let there : row_of tb o ≡ some r =
          ap (λ n. tb.select n (others a.db.tables)) h.name
          ∙ ap (λ t. tb.select s.super.name (others t)) h.tables
          ∙ later in
        let first =
          >>=-ok (if not s.loaded then really_load tb now else sync tb now)
            (λ _ s'. end_loaded tb now code to (meanwhile tb others s')) s loaded in
        elim (Bool-cases (valid_state_transition (str2state seen.state) to)) [
          | inl v ↦
              let (s', ended, state, tables) =
                end_loaded_lem o seen r h.state h.progress h.code there v in
              let written : s'.db.tables ≡ change (others s.db.tables) =
                tables
                ∙ ap (λ n. change_at n (others a.db.tables)) h.name
                ∙ ap (λ t. change (others t)) h.tables in
              inr (
                v,
                (
                  s',
                  first ∙ ended,
                  state,
                  ap (tb.select s.super.name) written ∙ select_changed laws _ _ _ _ r later,
                  λ n other. ap (tb.select n) written ∙ select_unchanged laws _ _ _ _ n other,
                ),
              )
          | inr v ↦ inl (
            v,
            (
              o,
              first
                  ∙ >>=-throw (finished tb now code to) _ o (
                      finished-refused now code to o
                        (ap (λ t. valid_state_transition t to) h.state ∙ v))
                  ∙ ap (λ t. throw (invalid_change t (state2str to)) o) h.state,
              ap others h.tables,
            ),
          )
        ]
      where
        change_at : Bytes → T → T
        change_at n t =
            if valid_state_transition (str2state r.state) to
            then tb.update n (closed code to seen) t
            else t

        change : T → T
        change = change_at s.super.name
