-- ===== src/SqlStatus/Lists.antt =====
-- The lists of plugins/status/sql/SQLStatusImpl.cc that stand in tables of their own: messages,
-- children and the meta data, which are read at the first call.
use gearbox.Base.{ℕ, true, false, List, [], ◌∷◌, Bytes, bytes_eq, not, if◌then◌else◌}
use gearbox.Status.Impl
use gearbox.Status.Impl.{Impl}
use gearbox.SqlStatus.Tables.{Tables, persist, reading}
use gearbox.SqlStatus.Object.{Sql}

-- `meta[key] = value`
unfoldable pub put_meta : Bytes → Bytes → List (Bytes × Bytes) → List (Bytes × Bytes)
put_meta k v [] = (k, v) ∷ []
put_meta k v ((j, w) ∷ rest) = if bytes_eq j k then (j, v) ∷ rest else (j, w) ∷ put_meta k v rest

unfoldable pub put_entries : List (Bytes × Bytes) → List (Bytes × Bytes) → List (Bytes × Bytes)
unfolding put_meta
put_entries [] meta = meta
put_entries ((k, v) ∷ rest) meta = put_entries rest (put_meta k v meta)

module _ {T : Type 0} (tb : Tables T) where
  -- `messages()`: a list that is not loaded is read; the time of change is put back
  unfoldable pub load_messages : Sql T → Sql T
  unfolding Impl.set_messages
  load_messages s = if s.messages_loaded then s else record s {
    db = persist (reading ∷ []) s.db;
    super = Impl.set_messages (tb.messages s.super.name s.db.tables) s.super;
    messages_loaded = true;
  }

  -- `children()`
  unfoldable pub load_children : Sql T → Sql T
  unfolding Impl.set_children
  load_children s = if s.children_loaded then s else record s {
    db = persist (reading ∷ []) s.db;
    super = Impl.set_children (tb.children s.super.name s.db.tables) s.super;
    children_loaded = true;
  }

  -- `meta()`: the rows are added to the entries that are cached already
  unfoldable pub load_meta : Sql T → Sql T
  unfolding put_entries
  load_meta s = if s.meta_loaded then s else record s {
    db = persist (reading ∷ []) s.db;
    super = record s.super { meta = put_entries (tb.meta s.super.name s.db.tables) s.super.meta };
    meta_loaded = true;
  }

  -- `UPDATE status SET mtime = :mtime WHERE name = :name`
  abbrev pub touch : Sql T → T → T
  touch s = tb.update s.super.name (λ r. record r { mtime = s.super.mtime })

  -- `add_message`: it reads the list first if it is loaded already, which is no reading at all
  unfoldable pub add_message : ℕ → Bytes → Sql T → Sql T
  unfolding load_messages Impl.add_message persist
  add_message now m s =
      let s' = if s.messages_loaded then load_messages s else s in
      let s'' : Sql T = record s' { super = Impl.add_message now m s'.super } in
      record s'' { db = persist (tb.insert_message s''.super.name m ∷ touch s'' ∷ []) s''.db }

  -- `add_child`; the path and the leaf of the URI are columns that nothing reads
  unfoldable pub add_child : ℕ → Bytes → Sql T → Sql T
  unfolding load_children Impl.add_child persist
  add_child now c s =
      let s' = if not s.children_loaded then load_children s else s in
      let s'' : Sql T = record s' { super = Impl.add_child now c s'.super } in
      record s'' { db = persist (tb.insert_child s''.super.name c ∷ touch s'' ∷ []) s''.db }

  -- `meta(name, value)`
  unfoldable pub add_meta : ℕ → Bytes → Bytes → Sql T → Sql T
  unfolding put_meta persist
  add_meta now k v s =
      let s' : Sql T = record s {
        super = record s.super { meta = put_meta k v s.super.meta; mtime = now };
      } in
      record s' { db = persist (tb.replace_meta s'.super.name k v ∷ touch s' ∷ []) s'.db }

  -- the loop of `meta(meta)` over the entries
  add_entries : ℕ → List (Bytes × Bytes) → Sql T → Sql T
  unfolding add_meta
  add_entries now [] s = s
  add_entries now ((k, v) ∷ rest) s = add_entries now rest (add_meta now k v s)

  -- `meta(meta)`
  unfoldable pub set_meta : ℕ → List (Bytes × Bytes) → Sql T → Sql T
  unfolding add_entries persist
  set_meta now meta s =
      add_entries now meta
        (record s { db = persist (tb.delete_meta s.super.name ∷ touch s ∷ []) s.db })

  -- the three tests of `sync`: a list that is not empty is cleared, and clearing the meta data notes
  -- the time
  unfoldable pub forget_messages : Sql T → Sql T
  unfolding load_messages Impl.set_messages
  forget_messages s =
      let s' = load_messages s in
      record s' {
        super = elim s'.super.messages [ [] ↦ s'.super | m ∷ ms ↦ Impl.set_messages [] s'.super ];
        messages_loaded = false;
      }

  unfoldable pub forget_children : Sql T → Sql T
  unfolding load_children Impl.set_children
  forget_children s =
      let s' = load_children s in
      record s' {
        super = elim s'.super.children [ [] ↦ s'.super | c ∷ cs ↦ Impl.set_children [] s'.super ];
        children_loaded = false;
      }

  unfoldable pub forget_meta : ℕ → Sql T → Sql T
  unfolding load_meta Impl.set_meta
  forget_meta now s =
      let s' = load_meta s in
      record s' {
        super = elim s'.super.meta [ [] ↦ s'.super | e ∷ es ↦ Impl.set_meta now [] s'.super ];
        meta_loaded = false;
      }
