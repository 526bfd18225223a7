-- ===== src/Status/Transient/Store.antt =====
-- The store of transient statuses: it stays bounded, a new status can be fetched, and a request
-- made through one object reaches the others.
use gearbox.Base.{
  ◌∙◌, ℕ, suc, ◌≤◌, ◌<◌, pos, negsuc, ◌≡◌, refl, true, Bytes, arith, Bool-cases, inl, inr, Option,
  some, none, ==_iff, ◌==◌, length, length-append, List, [], ◌∷◌, ◌++◌, All, All-append,
  bytes_eq_iff, codes,
}
use gearbox.Errors.{ok, throw, worker_stop, not_found}
use gearbox.Status.State.{State, unknown, pending, stopping, stopped, valid_state_transition}
use gearbox.Status.Impl
use gearbox.Status.Impl.{Impl, new_impl, set_state_lem, keeps_mtime}
use gearbox.Status.Backend.{checkpoint}
use gearbox.Status.Backend.Ending.{Ended}
use gearbox.Status.Backend.Checkpoint.{checkpoint_lem}
use gearbox.Status.Transient.{
  Db, Transient, TransientStatusData, data_of, set_state, super_state, set_mtime, find_last,
  transient, max_queue, drop_front, allocate, insert, write_fields, write_meta, create, fetch, load,
  load_from, copy_fields,
}
use gearbox.Status.Transient.Refines.{
  IsFresh, IsLoaded, copy_fields-IsLoaded, transient-Laws, find_last_cong, sync_lem,
}

-- the queue is bounded, and its pointers are to records that have been made
pub record IsBounded (db : Db) : Type 0 where
  pub size : length db.queue ≤ max_queue
  pub allocated : All (λ p. p < db.next) db.queue

All-drop_front : (P : ℕ → Type 0) (ps : List ℕ) → All P ps → All P (drop_front ps)
All-drop_front P [] h = h
All-drop_front P (p ∷ ps) h = h.1

All-suc : (n : ℕ) (ps : List ℕ) → All (λ p. p < n) ps → All (λ p. p < suc n) ps
All-suc n [] h = tt
All-suc n (p ∷ ps) (h, hs) = (omega arith, All-suc n ps hs)

length-drop_front : (ps : List ℕ) → length ps ≡ max_queue → length (drop_front ps) < max_queue
length-drop_front [] h = omega arith
length-drop_front (p ∷ ps) h = omega arith

allocate-IsBounded : (now : ℕ) (db : Db) → IsBounded db → IsBounded (allocate now db)
unfolding allocate
allocate-IsBounded now db h = elim (Bool-cases (length db.queue == max_queue)) [
  | inl full ↦ rw full (record {
    size = omega (
      arith,
      length-append {0} (drop_front db.queue) (db.next ∷ []),
      length-drop_front db.queue ((==_iff _ _).0 full),
    );
    allocated =
        All-append _ (drop_front db.queue) (db.next ∷ [])
          (All-suc db.next _ (All-drop_front _ db.queue h.allocated)) (omega arith, tt);
  })
  | inr room ↦ rw room (record {
    size = ground (arith, length-append db.queue (db.next ∷ []), h.size);
    allocated =
        All-append _ db.queue (db.next ∷ []) (All-suc db.next _ h.allocated) (omega arith, tt);
  })
]

-- the later writes of `insert` go to the new record alone
insert_queue :
    (now : ℕ) (db : Db) (super : Impl) → (insert now db super).db.queue ≡ (allocate now db).queue
unfolding insert write_meta write_fields set_mtime set_state super_state
insert_queue now db super = ground arith

insert_next : (now : ℕ) (db : Db) (super : Impl) → (insert now db super).db.next ≡ suc db.next
unfolding insert write_meta write_fields set_mtime set_state super_state allocate
insert_next now db super = ground arith

-- a record that has just been made for the fields of an object
record IsNew (super : Impl) (d : TransientStatusData) : Type 0 where
  name : d.name ≡ super.name
  operation : d.operation ≡ super.operation
  resource_uri : d.resource_uri ≡ super.resource_uri
  component : d.component ≡ super.component
  state : d.state ≡ super.state
  progress : d.progress ≡ 0
  code : d.code ≡ negsuc 0
  failures : d.failures ≡ 0

valid_unknown_to : (to : State) → valid_state_transition unknown to ≡ true
unfolding valid_state_transition
valid_unknown_to to = ground arith

insert-IsNew :
    (now : ℕ) (db : Db) (super : Impl) → IsNew super ((insert now db super).db.cells db.next)
unfolding insert write_meta write_fields set_mtime set_state super_state allocate
insert-IsNew now db super = ground (arith, valid_unknown_to super.state)

find_last_concat :
    (name : Bytes) (cells : ℕ → TransientStatusData) (ps : List ℕ) (p : ℕ) (found : Option ℕ)
    → (cells p).name ≡ name
    → find_last name cells (ps ++ p ∷ []) found ≡ some p
unfolding find_last
find_last_concat name cells [] p found e = rw ((bytes_eq_iff _ _).1 e)
find_last_concat name cells (q ∷ ps) p found e = find_last_concat name cells ps p _ e

-- the object that `fetch` and `create` start from
abbrev blank : ℕ → Bytes → Bytes → Impl
blank now base name = record (new_impl now) { base_uri = base; name = name; mtime = now }

-- `fetch` finds the last record of the name in the queue and throws NOT_FOUND if there is none. The
-- object that it returns has the fields of the record, but its count of failures is 0, whatever
-- the record holds.
pub fetch_lem :
    (now : ℕ) (base name : Bytes) (db : Db)
    → ((p : ℕ)
        → find_last name db.cells db.queue none ≡ some p
        → (t : Transient) × (fetch now base name db ≡ ok t (some t))
          × (t.ptr ≡ p)
          × (t.db ≡ db)
          × IsLoaded (db.cells p) name 0 t.super)
      × (find_last name db.cells db.queue none ≡ none
          → fetch now base name db
            ≡ throw (not_found (codes "status " ++ (name ++ codes " not found"))) none)
unfolding fetch load load_from Impl.set_name Impl.set_base_uri
fetch_lem now base name db = (
  λ p found. (
    record { db = db; super = copy_fields now (db.cells p) (blank now base name); ptr = p },
    rw found,
    refl,
    refl,
    copy_fields-IsLoaded now (db.cells p) (blank now base name) refl,
  ),
  λ lost. rw lost,
)

module _ (now : ℕ) (base name operation uri component : Bytes) (db : Db) where
  -- Making a status keeps the store bounded: at most 100 statuses are queued, and every queued
  -- pointer is to a record that has been made.
  pub create-IsBounded :
      IsBounded db → IsBounded (create now base name operation uri component db).db
  unfolding create
  create-IsBounded h =
      let kept = allocate-IsBounded now db h in
      record {
        size = rw insert_queue kept.size;
        allocated = rw (insert_queue, insert_next) (unfold allocate in kept.allocated);
      }

  -- the object that `create` fills before `insert`
  abbrev pub filled : Impl
  filled = record (blank now base name) {
    operation = operation;
    resource_uri = uri;
    component = component;
    state = pending;
  }

  pub create-insert : create now base name operation uri component db ≡ insert now db filled
  unfolding create Impl.set_name Impl.set_base_uri Impl.set_operation Impl.set_resource_uri
      Impl.set_component Impl.set_state valid_state_transition
  create-insert = refl

  found_new :
      let made = (insert now db filled).db in
      find_last name made.cells made.queue none ≡ some db.next
  found_new =
      let made = (insert now db filled).db in
      rw (insert_queue now db filled) (
        unfold allocate in
        find_last_concat name made.cells _ db.next none (insert-IsNew now db filled).name)

  -- A status that was just made is the one that its name fetches, whatever the store held: it is
  -- PENDING, with the operation, the resource and the component that were given, progress 0, code
  -- -1 and no failures.
  pub fetch-create :
      (later : ℕ)
      → (t : Transient) × (fetch later base name
            (create now base name operation uri component db).db
          ≡ ok t (some t))
        × (t.super.state ≡ pending)
        × (t.super.name ≡ name)
        × (t.super.operation ≡ operation)
        × (t.super.resource_uri ≡ uri)
        × (t.super.component ≡ component)
        × (t.super.progress ≡ 0)
        × (t.super.code ≡ negsuc 0)
        × (t.super.failures ≡ 0)
  fetch-create later =
      let new = insert-IsNew now db filled in
      let (t, fetched, _, _, l) =
        (fetch_lem later base name (insert now db filled).db).0 db.next found_new in
      rw create-insert (
        t,
        fetched,
        l.state ∙ new.state,
        l.name,
        l.operation ∙ new.operation,
        l.resource_uri ∙ new.resource_uri,
        l.component ∙ new.component,
        l.progress ∙ new.progress,
        l.code ∙ new.code,
        l.failures,
      )

pub names-set_state :
    (now : ℕ) (to : State) (t : Transient) (p : ℕ)
    → ((set_state now to t).0.db.cells p).name ≡ (t.db.cells p).name
unfolding set_state super_state set_mtime
names-set_state now to t p = ground arith

pub queue-set_state :
    (now : ℕ) (to : State) (t : Transient) → (set_state now to t).0.db.queue ≡ t.db.queue
unfolding set_state super_state set_mtime
queue-set_state now to t = ground arith

stored-set_state :
    (now : ℕ) (to : State) (t : Transient)
    → valid_state_transition (data_of t).state to ≡ true
    → ((set_state now to t).0.db.cells t.ptr).state ≡ to
unfolding set_state super_state set_mtime
stored-set_state now to t v = ground arith

-- A request to stop reaches the worker. Let one object `o` ask for STOPPING where the stored state
-- allows it, and let `w` be another object whose name leads to the same record, with whatever it
-- has cached. Then the next checkpoint of `w` throws WorkerStop and leaves it STOPPED, with
-- progress 100 and code 410.
pub checkpoint_after_stopping :
    (now later : ℕ) (o w : Transient)
    → valid_state_transition (data_of o).state stopping ≡ true
    → find_last w.super.name o.db.cells o.db.queue (some w.ptr) ≡ some o.ptr
    → (s : Transient) × (checkpoint transient later
          (record w { db = (set_state now stopping o).0.db })
        ≡ throw worker_stop s)
      × Ended transient stopped (pos 410) s
checkpoint_after_stopping now later o w v e =
    let told = (set_state now stopping o).0.db in
    let w' : Transient = record w { db = told } in
    let found : find_last w.super.name told.cells told.queue (some w.ptr) ≡ some o.ptr =
      rw (queue-set_state now stopping o)
        (find_last_cong _ _ _ (names-set_state now stopping o) _ _ ∙ e) in
    let (read, synced, _, _, _, loaded) = sync_lem later w' o.ptr found in
    let state : read.super.state ≡ stopping = loaded.state ∙ stored-set_state now stopping o v in
    elim ((checkpoint_lem transient IsFresh transient-Laws later w').1 read synced) [
      | inl (_, ended) ↦ ended
      | inr (inl (inl c, _)) ↦ cc
      | inr (inl (inr c, _)) ↦ cc
      | inr (inr (still, _, _)) ↦ absurd (still (inl state))
    ]
