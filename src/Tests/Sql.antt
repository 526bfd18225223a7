-- ===== src/Tests/Sql.antt =====
-- The theorems on the statuses in tables at concrete inputs. The tables here are functions of the name.
use gearbox.Base.{
  ◌≤◌, pos, true, false, List, [], ◌∷◌, ◌++◌, Bytes, bytes_eq, bytes_eq_iff, codes, Option, none,
  some, if◌then◌else◌, ◌≡◌, ◌≢◌, refl, ◌⊎◌, inl, inr, Bool-cases,
}
use gearbox.Errors.{ok, throw}
use gearbox.Status.State.{
  running, stopping, completed, str2state, state2str, valid_state_transition,
}
use gearbox.Status.Transitions.{rank}
use gearbox.Status.Impl.{new_impl}
use gearbox.Status.Backend.{invalid_change}
use gearbox.SqlStatus.Tables.{Row, Tables, Laws, Db, on_row}
use gearbox.Base.{All}
use gearbox.Status.State.{cancelled}
use gearbox.Status.State.Names.{str2state-state2str}
use gearbox.SqlStatus.Collection.{Collection, new_collection}
use gearbox.SqlStatus.Collection.Cursor.{HasState, ReadsCancelled, pops, pops-ReadsCancelled}
use gearbox.SqlStatus.Object.{Sql, new_sql, row_for}
use gearbox.SqlStatus.Lists.{add_message}
use gearbox.SqlStatus.End
use gearbox.SqlStatus.Ending.{closed, end_lem}
use gearbox.SqlStatus.Races.{Write, perform_all, state_in, rank-perform_all}
use gearbox.SqlStatus.Messages.{inserts, copies, messages-add_message}

record Store : Type 0 where
  rows : Bytes → Option Row
  notes : Bytes → List Bytes

abbrev on_name {ℓ} : {A : Type ℓ} → Bytes → (A → A) → (Bytes → A) → Bytes → A
on_name m f g n = if bytes_eq n m then f (g n) else g n

abbrev store : Tables Store
store = record {
  select = λ n t. t.rows n;
  update = λ m f t. record t { rows = on_name m (on_row f) t.rows };
  insert = λ r t. record t { rows = on_name r.name (λ _. some r) t.rows };
  messages = λ n t. t.notes n;
  insert_message = λ n m t. record t { notes = on_name n (λ l. l ++ m ∷ []) t.notes };
  children = λ n t. [];
  insert_child = λ n c t. t;
  meta = λ n t. [];
  replace_meta = λ n k v t. t;
  delete_meta = λ n t. t;
}

bytes_eq_self : (n : Bytes) → bytes_eq n n ≡ true
bytes_eq_self n = (bytes_eq_iff n n).1 refl

bytes_eq_other : (n m : Bytes) → n ≢ m → bytes_eq n m ≡ false
bytes_eq_other n m h = elim (Bool-cases (bytes_eq n m)) [
  | inl same ↦ absurd (h ((bytes_eq_iff n m).0 same))
  | inr other ↦ other
]

store-Laws : Laws store
store-Laws = record {
  select-update_self = λ n f t. rw (bytes_eq_self n);
  select-update_other = λ n m f t h. rw (bytes_eq_other n m h);
  messages-update = λ n m f t. refl;
  messages-insert_message = λ n m t. rw (bytes_eq_self n);
  select-insert_message = λ n k m t. refl;
}

abbrev job : Bytes
job = codes "st-1"

abbrev half_done : Row
half_done = record (row_for (new_impl 5)) { name = job; progress = 40; state = state2str running }

-- a connection whose first statement fails, and its third
abbrev shaky : Db Store
shaky = record {
  tables = record { rows = λ n. if bytes_eq n job then some half_done else none; notes = λ n. [] };
  faults = true ∷ false ∷ true ∷ [];
}

abbrev fetched : Sql Store
fetched = new_sql (record (new_impl 7) { name = job }) shaky

messages-add_message_example :
    (store.messages job (add_message store 9 (codes "hi") fetched).db.tables
      ≡ store.messages job shaky.tables ++ copies (inserts shaky.faults) (codes "hi"))
    × (1 ≤ inserts shaky.faults)
messages-add_message_example = messages-add_message store 9 (codes "hi") fetched store-Laws

rank-perform_all_example :
    rank (state_in store job shaky.tables)
    ≤ rank (
        state_in store job
          (perform_all store
            ((fetched, Write.state 9 stopping) ∷ (fetched, Write.end 9 (pos 500) completed) ∷ [])
            shaky).tables)
rank-perform_all_example =
    rank-perform_all store store-Laws job
      ((fetched, Write.state 9 stopping) ∷ (fetched, Write.end 9 (pos 500) completed) ∷ []) shaky
      (λ e. cc, (λ e. cc, tt))

there : store.select job shaky.tables ≡ some half_done
there = rw (bytes_eq_self job)

end_example :
    ((valid_state_transition (str2state half_done.state) completed ≡ false)
      × ((s : Sql Store) × (End.end store (λ t. t) 9 (pos 500) completed fetched
            ≡ throw (invalid_change (str2state half_done.state) (state2str completed)) s)
          × (s.db.tables ≡ shaky.tables)))
    ⊎ ((valid_state_transition (str2state half_done.state) completed ≡ true)
        × ((s : Sql Store) × (End.end store (λ t. t) 9 (pos 500) completed fetched ≡ ok tt s)
            × (s.super.state ≡ completed)
            × (store.select job s.db.tables
                ≡ some (
                    if valid_state_transition (str2state half_done.state) completed
                    then closed (pos 500) completed half_done half_done
                    else half_done))
            × ((n : Bytes) → n ≢ job → store.select n s.db.tables ≡ store.select n shaky.tables)))
end_example =
    end_lem store store-Laws 9 (pos 500) completed (λ t. t) fetched half_done half_done there refl
      (inr refl) there

-- a collection whose cursor holds a cancelled status, with a running one behind it
abbrev listing : Collection
listing = record (new_collection (record (new_impl 5) { state = cancelled })) {
  executed = true;
  rows = half_done ∷ half_done ∷ [];
}

half_done-HasState : HasState half_done
half_done-HasState e = cc (str2state-state2str running, e)

pops-ReadsCancelled_example :
    All (ReadsCancelled store (λ cs n t. []) 9 shaky) (pops store (λ cs n t. []) 9 shaky 2 listing)
pops-ReadsCancelled_example =
    pops-ReadsCancelled store (λ cs n t. []) 9 shaky 2 listing refl refl
      (half_done-HasState, (half_done-HasState, tt))
