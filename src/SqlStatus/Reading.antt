-- ===== src/SqlStatus/Reading.antt =====
-- What `really_load` and `sync` of plugins/status/sql/SQLStatusImpl.cc read, whatever was cached.
use gearbox.Base.{
  ℕ, Bool, true, not, [], ◌∷◌, some, if◌then◌else◌, ◌≡◌, refl, ap, ◌∙◌, arith, Bool-cases, inl, inr,
  ◌⊎◌,
}
use gearbox.Errors.{Outcome, ok}
use gearbox.Errors.Laws.{>>=-ok}
use gearbox.Status.State.{State, unknown, str2state, valid_state_transition}
use gearbox.Status.Impl
use gearbox.Status.Impl.{Impl, set_state_lem, keeps_mtime}
use gearbox.SqlStatus.Tables.{Row, Tables, persist, reading}
use gearbox.SqlStatus.Tries.{persist_one}
use gearbox.SqlStatus.Object.{Sql, row_of, really_load, fill}
use gearbox.SqlStatus.Lists.{
  forget_messages, forget_children, forget_meta, load_messages, load_children, load_meta,
}
use gearbox.SqlStatus.End.{sync}

-- what stays when a list is forgotten
record SameStatus {T : Type 0} (old s : Sql T) : Type 0 where
  tables : s.db.tables ≡ old.db.tables
  name : s.super.name ≡ old.super.name
  state : s.super.state ≡ old.super.state
  progress : s.super.progress ≡ old.super.progress
  code : s.super.code ≡ old.super.code

SameStatus-trans : {T : Type 0} (a b c : Sql T) → SameStatus a b → SameStatus b c → SameStatus a c
SameStatus-trans a b c h k = record {
  tables = k.tables ∙ h.tables;
  name = k.name ∙ h.name;
  state = k.state ∙ h.state;
  progress = k.progress ∙ h.progress;
  code = k.code ∙ h.code;
}

-- `loaded`, or the state that the constructor gives: then the next read takes the stored state
abbrev pub IsReadable : {T : Type 0} → Sql T → Type 0
IsReadable s = (s.loaded ≡ true) ⊎ (s.super.state ≡ unknown)

module _ {T : Type 0} (tb : Tables T) where
  forget_messages-SameStatus : (s : Sql T) → SameStatus s (forget_messages tb s)
  unfolding forget_messages load_messages
  forget_messages-SameStatus s = ground (arith, persist_one reading s.db)

  forget_children-SameStatus : (s : Sql T) → SameStatus s (forget_children tb s)
  unfolding forget_children load_children
  forget_children-SameStatus s = ground (arith, persist_one reading s.db)

  forget_meta-SameStatus : (now : ℕ) (s : Sql T) → SameStatus s (forget_meta tb now s)
  unfolding forget_meta load_meta
  forget_meta-SameStatus now s = ground (arith, persist_one reading s.db)

  -- the object has read the row `r`, and the tables are as they were
  pub record HasRead (r : Row) (old s : Sql T) : Type 0 where
    pub tables : s.db.tables ≡ old.db.tables
    pub name : s.super.name ≡ old.super.name
    pub state : s.super.state ≡ str2state r.state
    pub progress : s.super.progress ≡ r.progress
    pub code : s.super.code ≡ r.code

  valid_from_unknown : (to : State) → valid_state_transition unknown to ≡ true
  unfolding valid_state_transition
  valid_from_unknown to = ground arith

  filled_state :
      (now : ℕ) (to : State) (i : Impl)
      → i.state ≡ unknown
      → (Impl.set_state now to i).0
        ≡ record i { state = to; mtime = if keeps_mtime to then i.mtime else now }
  filled_state now to i e = rw (set_state_lem now to i, e, valid_from_unknown to)

  -- what `really_load` has copied when it comes to the state
  abbrev before_state : ℕ → Row → Impl → Impl
  before_state now r i = record i {
    name = r.name;
    operation = r.operation;
    component = r.component;
    progress = r.progress;
    code = r.code;
    resource_uri = r.resource_uri;
    parent_uri = r.parent_uri;
    ctime = r.ctime;
    ytime = r.ytime;
    mtime = now;
  }

  fill_lem :
      (now : ℕ) (r : Row) (i : Impl)
      → i.state ≡ unknown
      → ((fill now r i).name ≡ r.name)
        × ((fill now r i).state ≡ str2state r.state)
        × ((fill now r i).progress ≡ r.progress)
        × ((fill now r i).code ≡ r.code)
  unfolding fill
  fill_lem now r i e = ground (arith, filled_state now (str2state r.state) (before_state now r i) e)

  module _ (now : ℕ) (s : Sql T) (r : Row) (stored : row_of tb s ≡ some r)
      (keyed : r.name ≡ s.super.name) where
    really_load_lem :
        s.super.state ≡ unknown → (s' : Sql T) × (really_load tb now s ≡ ok tt s') × HasRead r s s'
    unfolding really_load
    really_load_lem unread =
        let (name, state, progress, code) = fill_lem now r s.super unread in
        (
          record s {
            db = persist (reading ∷ []) s.db;
            super = fill now r s.super;
            loaded = true;
            should_load = true;
          },
          rw stored,
          record {
            tables = persist_one reading s.db;
            name = name ∙ keyed;
            state = state;
            progress = progress;
            code = code;
          },
        )

    forget-HasRead :
        (a : Sql T)
        → HasRead r s a
        → HasRead r s (forget_meta tb now (forget_children tb (forget_messages tb a)))
    forget-HasRead a h =
        let kept =
          SameStatus-trans _ _ _ (forget_messages-SameStatus a) (
            SameStatus-trans _ _ _ (forget_children-SameStatus _) (forget_meta-SameStatus now _)) in
        record {
          tables = kept.tables ∙ h.tables;
          name = kept.name ∙ h.name;
          state = kept.state ∙ h.state;
          progress = kept.progress ∙ h.progress;
          code = kept.code ∙ h.code;
        }

  reset_lem :
      (now : ℕ) (i : Impl)
      → (Impl.set_state now unknown i).0 ≡ record i { state = unknown; mtime = now }
  unfolding valid_state_transition
  reset_lem now i = rw (set_state_lem now unknown i)

  -- `sync`
  sync_lem :
      (now : ℕ) (s : Sql T) (r : Row)
      → row_of tb s ≡ some r
      → r.name ≡ s.super.name
      → (s' : Sql T) × (sync tb now s ≡ ok tt s') × HasRead r s s'
  unfolding sync
  sync_lem now s r stored keyed =
      let blank : Sql T = record s { super = record s.super { state = unknown; mtime = now } } in
      let (a, loaded, h) = really_load_lem now blank r stored keyed refl in
      (
        forget_meta tb now (forget_children tb (forget_messages tb a)),
        rw (reset_lem now s.super) (>>=-ok (really_load tb now) _ blank loaded),
        forget-HasRead now s r stored keyed a (record {
          tables = h.tables;
          name = h.name;
          state = h.state;
          progress = h.progress;
          code = h.code;
        }),
      )

  pub read_lem :
      (now : ℕ) (s : Sql T) (r : Row)
      → row_of tb s ≡ some r
      → r.name ≡ s.super.name
      → IsReadable s
      → (s' : Sql T) × ((if not s.loaded then really_load tb now else sync tb now) s ≡ ok tt s')
        × HasRead r s s'
  read_lem now s r stored keyed readable = elim (Bool-cases s.loaded) [
    | inl is ↦ let (s', synced, h) = sync_lem now s r stored keyed in (s', ap choose is ∙ synced, h)
    | inr other ↦
        let (s', loaded, h) = really_load_lem now s r stored keyed (ground arith) in
        (s', ap choose other ∙ loaded, h)
  ]
    where
      choose : Bool → Outcome (Sql T) (Unit {0})
      choose b = (if not b then really_load tb now else sync tb now) s
