-- ===== src/SqlStatus/Object.antt =====
-- The object of plugins/status/sql/SQLStatusImpl.cc: loading, the getters that load at the first call,
-- and the setters. Values of columns are read into the types of the fields; `now` is the clock.
use gearbox.Base.{
  ℕ, ℤ, Bool, true, false, [], ◌∷◌, Bytes, codes, ◌++◌, Option, none, some, ltb, if◌then◌else◌,
}
use gearbox.Errors.{Outcome, ok, throw, not_found, ◌>>=◌}
use gearbox.Status.State.{str2state, state2str}
use gearbox.Status.Impl
use gearbox.Status.Impl.{Impl}
use gearbox.SqlStatus.Tables.{Row, Tables, Db, persist, reading}

pub record Sql (T : Type 0) : Type 0 where
  pub db : Db T
  pub super : Impl
  pub messages_loaded : Bool
  pub children_loaded : Bool
  pub meta_loaded : Bool
  pub loaded : Bool
  pub should_load : Bool

-- the constructor, over the fields of the base class
abbrev pub new_sql : {T : Type 0} → Impl → Db T → Sql T
new_sql super db = record {
  db = db;
  super = super;
  messages_loaded = false;
  children_loaded = false;
  meta_loaded = false;
  loaded = false;
  should_load = false;
}

-- the writes of `really_load` into the cached fields
unfoldable pub fill : ℕ → Row → Impl → Impl
unfolding Impl.set_name Impl.set_operation Impl.set_component Impl.set_progress Impl.set_code
    Impl.set_resource_uri Impl.set_parent_uri Impl.set_ctime Impl.set_ytime Impl.set_failures
    Impl.set_mtime
fill now r s =
    let s1 =
      Impl.set_component now r.component
        (Impl.set_operation now r.operation (Impl.set_name now r.name s)) in
    let s2 =
      Impl.set_resource_uri now r.resource_uri
        (Impl.set_code r.code (Impl.set_progress now r.progress s1)) in
    let s3 =
      Impl.set_ytime r.ytime (Impl.set_ctime r.ctime (Impl.set_parent_uri now r.parent_uri s2)) in
    Impl.set_mtime r.mtime
      (Impl.set_failures r.failures (Impl.set_state now (str2state r.state) s3).0)

-- the values that `insert` writes; the column `concurrency` has its default
abbrev pub row_for : Impl → Row
row_for s = record {
  name = s.name;
  operation = s.operation;
  component = s.component;
  progress = s.progress;
  code = s.code;
  resource_uri = s.resource_uri;
  parent_uri = s.parent_uri;
  ctime = s.ctime;
  mtime = s.mtime;
  ytime = s.ytime;
  state = state2str s.state;
  failures = s.failures;
  concurrency = 0;
}

module _ {T : Type 0} (tb : Tables T) where
  abbrev pub row_of : Sql T → Option Row
  row_of s = tb.select s.super.name s.db.tables

  filled : ℕ → Sql T → Option Row → Outcome (Sql T) (Unit {0})
  filled now s none = throw (not_found (codes "status " ++ (s.super.name ++ codes " not found"))) s
  filled now s (some r) =
      ok tt (record s { super = fill now r s.super; loaded = true; should_load = true })

  -- `really_load`: the SELECT is repeated until it does not fail
  unfoldable pub really_load : ℕ → Sql T → Outcome (Sql T) (Unit {0})
  unfolding filled
  really_load now s = filled now (record s { db = persist (reading ∷ []) s.db }) (row_of s)

  -- `load` only notes that a row is there to be read
  unfoldable pub load : Sql T → Sql T
  load s = record s { should_load = true }

  unfoldable pub ensure_loaded : ℕ → Sql T → Outcome (Sql T) (Unit {0})
  ensure_loaded now s = if s.loaded then ok tt s else really_load now s

  -- the getters `operation()`, `component()`, `resource_uri()`, `progress()`, `code()`,
  -- `parent_uri()`, `ctime()`, `mtime()`, `ytime()`, `state()` and `failures()`
  unfoldable pub getter : {A : Type 0} → (Impl → A) → ℕ → Sql T → Outcome (Sql T) A
  unfolding ensure_loaded
  getter field now = ensure_loaded now >>= λ _ s. ok (field s.super) s

  -- `UPDATE status SET ... WHERE name = :name`, repeated until it does not fail
  unfoldable pub update_row : (Row → Row) → Sql T → Sql T
  unfolding persist
  update_row f s = record s { db = persist (tb.update s.super.name f ∷ []) s.db }

  unfoldable pub set_parent_uri : ℕ → Bytes → Sql T → Sql T
  unfolding Impl.set_parent_uri update_row
  set_parent_uri now u s =
      let s' : Sql T = record s { super = Impl.set_parent_uri now u s.super } in
      update_row (λ r. record r { parent_uri = s'.super.parent_uri; mtime = s'.super.mtime }) s'

  -- the WHERE clause also asks for `progress < :progress`
  unfoldable pub set_progress : ℕ → ℕ → Sql T → Sql T
  unfolding Impl.set_progress update_row
  set_progress now p s =
      let s' : Sql T = record s { super = Impl.set_progress now p s.super } in
      update_row
        (λ r.
          if ltb r.progress s'.super.progress
          then record r { progress = s'.super.progress; mtime = s'.super.mtime }
          else r)
        s'

  unfoldable pub set_code : ℤ → Sql T → Sql T
  unfolding Impl.set_code update_row
  set_code c s =
      let s' : Sql T = record s { super = Impl.set_code c s.super } in
      update_row (λ r. record r { code = s'.super.code; mtime = s'.super.mtime }) s'

  unfoldable pub set_ytime : ℤ → Sql T → Sql T
  unfolding Impl.set_ytime update_row
  set_ytime y s =
      let s' : Sql T = record s { super = Impl.set_ytime y s.super } in
      update_row (λ r. record r { ytime = s'.super.ytime; mtime = s'.super.mtime }) s'

  unfoldable pub set_failures : ℕ → Sql T → Sql T
  unfolding Impl.set_failures update_row
  set_failures n s =
      let s' : Sql T = record s { super = Impl.set_failures n s.super } in
      update_row (λ r. record r { failures = s'.super.failures; mtime = s'.super.mtime }) s'

  -- `insert` returns from its loop, so the assignment to `loaded` behind it is never made
  unfoldable pub insert : Sql T → Sql T
  insert s = record s { db = persist (tb.insert (row_for s.super) ∷ []) s.db }
