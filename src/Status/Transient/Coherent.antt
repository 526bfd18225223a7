-- ===== src/Status/Transient/Coherent.antt =====
-- An object of gearbox/job/TransientStatusImpl.cc that alone works on its record.
use gearbox.Base.{ℕ, ℤ, List, [], ◌∷◌, Bytes, arith}
use gearbox.Status.State.{State, valid_state_transition}
use gearbox.Status.Impl
use gearbox.Status.Impl.{set_state_lem}
use gearbox.Status.Transient.{
  Transient, Db, data_of, set_mtime, add_message, set_progress, set_code, set_failures,
  set_concurrency, starting, stopping, super_state, set_state, create, insert, write_meta,
  write_fields, allocate,
}
use gearbox.Status.Transient.Setters.{
  set_messages, set_children, add_child, set_name, set_operation, set_resource_uri, set_component,
  set_meta, set_parent_uri, set_ctime, set_ytime,
}
use gearbox.Status.Transient.Refines.{IsLoaded}
use gearbox.Status.Transient.Store.{filled, create-insert}

-- the calls that change a status
pub data Update : Type 0 where
  messages children : List Bytes → Update
  message child name operation resource_uri component parent_uri : Bytes → Update
  meta : List (Bytes × Bytes) → Update
  progress failures concurrency ctime mtime : ℕ → Update
  code ytime : ℤ → Update
  state : State → Update
  start stop : Update

unfoldable pub update : ℕ → Update → Transient → Transient
update now (messages m) = set_messages m
update now (children c) = set_children c
update now (message m) = add_message now m
update now (child c) = add_child now c
update now (name n) = set_name now n
update now (operation op) = set_operation now op
update now (resource_uri u) = set_resource_uri now u
update now (component c) = set_component now c
update now (parent_uri u) = set_parent_uri now u
update now (meta m) = set_meta now m
update now (progress p) = set_progress now p
update now (failures n) = set_failures n
update now (concurrency n) = set_concurrency n
update now (ctime t) = set_ctime t
update now (mtime t) = set_mtime t
update now (code c) = set_code c
update now (ytime y) = set_ytime y
update now (state to) = λ t. (set_state now to t).0
update now start = starting
update now stop = stopping

-- the object shows in every field what its record holds
pub IsCoherent : Transient → Type 0
IsCoherent t = IsLoaded (data_of t) (data_of t).name (data_of t).failures t.super

update-IsCoherent :
    (now : ℕ) (u : Update) (t : Transient) → IsCoherent t → IsCoherent (update now u t)
unfolding IsCoherent update set_messages set_children add_message Impl.add_message add_child
    set_name set_operation set_resource_uri set_component set_meta set_parent_uri set_progress
    set_failures set_concurrency set_ctime set_mtime set_code set_ytime starting stopping set_state
    super_state
update-IsCoherent now (messages x) t h = ground (arith, h)
update-IsCoherent now (children x) t h = ground (arith, h)
update-IsCoherent now (message x) t h = ground (arith, h)
update-IsCoherent now (child x) t h = ground (arith, h)
update-IsCoherent now (name x) t h = ground (arith, h)
update-IsCoherent now (operation x) t h = ground (arith, h)
update-IsCoherent now (resource_uri x) t h = ground (arith, h)
update-IsCoherent now (component x) t h = ground (arith, h)
update-IsCoherent now (parent_uri x) t h = ground (arith, h)
update-IsCoherent now (meta x) t h = ground (arith, h)
update-IsCoherent now (progress x) t h = ground (arith, h)
update-IsCoherent now (failures x) t h = ground (arith, h)
update-IsCoherent now (concurrency x) t h = ground (arith, h)
update-IsCoherent now (ctime x) t h = ground (arith, h)
update-IsCoherent now (mtime x) t h = ground (arith, h)
update-IsCoherent now (code x) t h = ground (arith, h)
update-IsCoherent now (ytime x) t h = ground (arith, h)
update-IsCoherent now (state to) t h = ground (arith, h, set_state_lem now to t.super)
update-IsCoherent now start t h = ground (arith, h)
update-IsCoherent now stop t h = ground (arith, h)

-- one call after another, each at its own time
unfoldable pub update_all : List (ℕ × Update) → Transient → Transient
update_all [] t = t
update_all ((now, u) ∷ us) t = update_all us (update now u t)

update_all-IsCoherent :
    (us : List (ℕ × Update)) (t : Transient) → IsCoherent t → IsCoherent (update_all us t)
unfolding update_all
update_all-IsCoherent [] t h = h
update_all-IsCoherent ((now, u) ∷ us) t h =
    update_all-IsCoherent us (update now u t) (update-IsCoherent now u t h)

module _ (now : ℕ) (base name operation uri component : Bytes) (db : Db) where
  insert-IsCoherent : IsCoherent (insert now db (filled now base name operation uri component db))
  unfolding IsCoherent insert write_meta write_fields set_mtime set_state super_state allocate
      Impl.set_state valid_state_transition
  insert-IsCoherent = ground arith

  -- A status shows what its record holds. Whatever sequence of setters, of changes of its state
  -- (allowed or refused) and of `starting` and `stopping` an object is taken through after it was
  -- made, each of its fields agrees with the record that it shares.
  pub create-IsCoherent :
      (us : List (ℕ × Update))
      → IsCoherent (update_all us (create now base name operation uri component db))
  create-IsCoherent us =
      update_all-IsCoherent us _
        (rw (create-insert now base name operation uri component db) insert-IsCoherent)
