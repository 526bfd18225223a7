-- ===== src/Status/Transient/Setters.antt =====
-- The other setters of gearbox/job/TransientStatusImpl.cc: each writes through to the shared record,
-- then calls the method of the base class, whose note of the time is the virtual `mtime`.
use gearbox.Base.{ℕ, ℤ, List, [], ◌∷◌, ◌++◌, Bytes}
use gearbox.Status.Impl
use gearbox.Status.Transient.{Transient, write, super_call, set_mtime}

unfoldable pub set_messages : List Bytes → Transient → Transient
unfolding Impl.set_messages
set_messages m t = super_call (Impl.set_messages m) (write (λ d. record d { messages = m }) t)

unfoldable pub set_children : List Bytes → Transient → Transient
unfolding Impl.set_children
set_children c t = super_call (Impl.set_children c) (write (λ d. record d { children = c }) t)

unfoldable pub add_child : ℕ → Bytes → Transient → Transient
unfolding set_mtime Impl.add_child
add_child now c t = set_mtime now (
    super_call (Impl.add_child now c) (write (λ d. record d { children = d.children ++ c ∷ [] }) t))

unfoldable pub set_name : ℕ → Bytes → Transient → Transient
unfolding set_mtime Impl.set_name
set_name now n t =
    set_mtime now (super_call (Impl.set_name now n) (write (λ d. record d { name = n }) t))

unfoldable pub set_operation : ℕ → Bytes → Transient → Transient
unfolding set_mtime Impl.set_operation
set_operation now op t =
    set_mtime now
      (super_call (Impl.set_operation now op) (write (λ d. record d { operation = op }) t))

unfoldable pub set_resource_uri : ℕ → Bytes → Transient → Transient
unfolding set_mtime Impl.set_resource_uri
set_resource_uri now u t =
    set_mtime now
      (super_call (Impl.set_resource_uri now u) (write (λ d. record d { resource_uri = u }) t))

unfoldable pub set_component : ℕ → Bytes → Transient → Transient
unfolding set_mtime Impl.set_component
set_component now c t =
    set_mtime now
      (super_call (Impl.set_component now c) (write (λ d. record d { component = c }) t))

unfoldable pub set_meta : ℕ → List (Bytes × Bytes) → Transient → Transient
unfolding set_mtime Impl.set_meta
set_meta now m t =
    set_mtime now (super_call (Impl.set_meta now m) (write (λ d. record d { meta = m }) t))

unfoldable pub set_parent_uri : ℕ → Bytes → Transient → Transient
unfolding set_mtime Impl.set_parent_uri
set_parent_uri now u t =
    set_mtime now
      (super_call (Impl.set_parent_uri now u) (write (λ d. record d { parent_uri = u }) t))

unfoldable pub set_ctime : ℕ → Transient → Transient
unfolding Impl.set_ctime
set_ctime c t = super_call (Impl.set_ctime c) (write (λ d. record d { ctime = c }) t)

unfoldable pub set_ytime : ℤ → Transient → Transient
unfolding Impl.set_ytime
set_ytime y t = super_call (Impl.set_ytime y) (write (λ d. record d { ytime = y }) t)
