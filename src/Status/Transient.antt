-- ===== src/Status/Transient.antt =====
-- gearbox/job/TransientStatusImpl.cc: statuses kept in the memory of the process. Every object
-- caches the fields of its base class and points to a record that it shares with all objects of
-- the same name; `db` is a queue of such records. Pointers are addresses into `cells`, so a record
-- lives on after it has left the queue. The event handlers of a record are left out.
-- Before `insert` or `load` the pointer is null, and the methods that may be called then are those
-- of the base class: `create` and `fetch` below call those, and `Transient` always has a pointer.
pub mod Refines
pub mod Store
pub mod Setters
pub mod Coherent
use gearbox.Base.{
  ℕ, suc, ◌+◌, ◌-◌, ◌%◌, ◌^◌, ℤ, pos, negsuc, Bool, true, false, List, [], ◌∷◌, ◌++◌, Bytes, codes,
  bytes_eq, Option, none, some, ◌==◌, length, if◌then◌else◌, ◌≡◌,
}
use gearbox.Errors.{Outcome, ok, throw, not_found}
use gearbox.Status.State.{State, unknown, pending, valid_state_transition}
use gearbox.Status.Impl
use gearbox.Status.Impl.{Impl, new_impl, keeps_mtime}
use gearbox.Status.Backend.{Backend}

abbrev pub max_queue : ℕ
max_queue = 100

pub record TransientStatusData : Type 0 where
  pub name : Bytes
  pub messages : List Bytes
  pub children : List Bytes
  pub operation : Bytes
  pub meta : List (Bytes × Bytes)
  pub progress : ℕ
  pub code : ℤ
  pub resource_uri : Bytes
  pub parent_uri : Bytes
  pub ctime : ℕ
  pub mtime : ℕ
  pub ytime : ℤ
  pub state : State
  pub failures : ℕ
  pub component : Bytes
  pub concurrency : ℕ

abbrev pub new_data : ℕ → TransientStatusData
new_data now = record {
  name = [];
  messages = [];
  children = [];
  operation = [];
  meta = [];
  progress = 0;
  code = negsuc 0;
  resource_uri = [];
  parent_uri = [];
  ctime = now;
  mtime = now;
  ytime = negsuc 0;
  state = unknown;
  failures = 0;
  component = [];
  concurrency = 0;
}

-- `db`, with the heap that its shared pointers point into
pub record Db : Type 0 where
  pub cells : ℕ → TransientStatusData
  pub next : ℕ
  pub queue : List ℕ

-- an object, with the store that it shares
pub record Transient : Type 0 where
  pub db : Db
  pub super : Impl
  pub ptr : ℕ

-- the record that the object points to
abbrev pub data_of : Transient → TransientStatusData
data_of t = t.db.cells t.ptr

abbrev pub put : ℕ → TransientStatusData → Db → Db
put p d db = record db { cells = λ q. if q == p then d else db.cells q }

-- a write through `data`
abbrev pub write : (TransientStatusData → TransientStatusData) → Transient → Transient
write f t = record t { db = put t.ptr (f (data_of t)) t.db }

-- a call of a method of the base class on the cached fields
abbrev pub super_call : (Impl → Impl) → Transient → Transient
super_call f t = record t { super = f t.super }

unfoldable pub set_mtime : ℕ → Transient → Transient
unfolding Impl.set_mtime
set_mtime m t = super_call (Impl.set_mtime m) (write (λ d. record d { mtime = m }) t)

unfoldable pub add_message : ℕ → Bytes → Transient → Transient
unfolding set_mtime
add_message now m t = set_mtime now (
    super_call (Impl.add_message now m)
      (write (λ d. record d { messages = d.messages ++ m ∷ [] }) t))

unfoldable pub set_progress : ℕ → ℕ → Transient → Transient
unfolding set_mtime Impl.set_progress
set_progress now p t =
    set_mtime now (super_call (Impl.set_progress now p) (write (λ d. record d { progress = p }) t))

unfoldable pub set_code : ℤ → Transient → Transient
unfolding Impl.set_code
set_code c t = super_call (Impl.set_code c) (write (λ d. record d { code = c }) t)

unfoldable pub set_failures : ℕ → Transient → Transient
unfolding Impl.set_failures
set_failures n t = super_call (Impl.set_failures n) (write (λ d. record d { failures = n }) t)

unfoldable pub set_concurrency : ℕ → Transient → Transient
unfolding Impl.set_concurrency
set_concurrency n t =
    super_call (Impl.set_concurrency n) (write (λ d. record d { concurrency = n }) t)

-- `starting` and `stopping`: a uint32_t counter of the processes at work
unfoldable pub starting : Transient → Transient
unfolding set_concurrency
starting t = set_concurrency ((t.super.concurrency + 1) % 2 ^ 32) t

unfoldable pub stopping : Transient → Transient
unfolding set_concurrency
stopping t = set_concurrency ((t.super.concurrency + 2 ^ 32 - 1) % 2 ^ 32) t

-- `StatusImpl::state` on the cached fields; its `mtime` is the virtual one
unfoldable pub super_state : ℕ → State → Transient → Transient × Bool
unfolding set_mtime
super_state now to t =
    let (super', changed) = Impl.set_state now to t.super in
    let t' : Transient = record t { super = super' } in
    (if changed then (if keeps_mtime to then t' else set_mtime now t') else t', changed)

unfoldable pub set_state : ℕ → State → Transient → Transient × Bool
set_state now to t =
    if valid_state_transition (data_of t).state to
    then super_state now to (write (λ d. record d { state = to }) t)
    else (t, false)

-- the loop of `load`: the last record of that name in the queue, if there is one
unfoldable pub find_last : Bytes → (ℕ → TransientStatusData) → List ℕ → Option ℕ → Option ℕ
find_last name cells [] found = found
find_last name cells (p ∷ ps) found =
    find_last name cells ps (if bytes_eq (cells p).name name then some p else found)

-- the writes of `load` into the cached fields. The times that they note on the way are
-- overwritten by the last one; `name` and `failures` are not among them.
unfoldable pub copy_fields : ℕ → TransientStatusData → Impl → Impl
unfolding Impl.set_children Impl.set_messages Impl.set_component Impl.set_resource_uri
    Impl.set_operation Impl.set_code Impl.set_progress Impl.set_meta Impl.set_ytime Impl.set_ctime
    Impl.set_parent_uri Impl.set_concurrency Impl.set_mtime
copy_fields now d s =
    let s1 = Impl.set_children d.children (Impl.set_messages d.messages s) in
    let s2 =
      Impl.set_component now d.component
        (Impl.set_resource_uri now d.resource_uri (Impl.set_operation now d.operation s1)) in
    let s3 = (Impl.set_state now d.state s2).0 in
    let s4 =
      Impl.set_code d.code (Impl.set_progress now d.progress (Impl.set_meta now d.meta s3)) in
    let s5 =
      Impl.set_ytime d.ytime (Impl.set_ctime d.ctime (Impl.set_parent_uri now d.parent_uri s4)) in
    Impl.set_concurrency d.concurrency (Impl.set_mtime d.mtime s5)

unfoldable pub load_from : ℕ → Db → Impl → Option ℕ → Outcome (Option Transient) Transient
load_from now db super none =
    throw (not_found (codes "status " ++ (super.name ++ codes " not found"))) none
load_from now db super (some p) =
    let t : Transient = record { db = db; super = copy_fields now (db.cells p) super; ptr = p } in
    ok t (some t)

-- `load`, from the pointer that the object had
unfoldable pub load : ℕ → Db → Impl → Option ℕ → Outcome (Option Transient) Transient
load now db super ptr = load_from now db super (find_last super.name db.cells db.queue ptr)

unfoldable pub synced :
    Transient → Outcome (Option Transient) Transient → Outcome Transient (Unit {0})
synced t (ok t' _) = ok tt t'
synced t (throw e _) = throw e t

-- `sync`: the cached state becomes UNKNOWN, so that every stored state can be loaded
unfoldable pub sync : ℕ → Transient → Outcome Transient (Unit {0})
sync now t =
    let t' = (super_state now unknown t).0 in synced t' (load now t'.db t'.super (some t'.ptr))

abbrev pub transient : Backend Transient
transient = record {
  state = λ t. t.super.state;
  progress = λ t. t.super.progress;
  code = λ t. t.super.code;
  set_state = set_state;
  set_progress = set_progress;
  set_code = set_code;
  set_mtime = set_mtime;
  sync = sync;
}

abbrev pub drop_front : List ℕ → List ℕ
drop_front [] = []
drop_front (p ∷ ps) = ps

-- the part of `insert` that makes the record: a full queue loses its oldest one
unfoldable pub allocate : ℕ → Db → Db
allocate now db = record {
  cells = λ q. if q == db.next then new_data now else db.cells q;
  next = suc db.next;
  queue = (if length db.queue == max_queue then drop_front db.queue else db.queue) ++ db.next ∷ [];
}

-- the part of `insert` that writes name, operation, uri and component
unfoldable pub write_fields : ℕ → Transient → Transient
unfolding set_mtime
write_fields now t = set_mtime now (
    write
      (λ d. record d {
        name = t.super.name;
        operation = t.super.operation;
        resource_uri = t.super.resource_uri;
        component = t.super.component;
      })
      t)

unfoldable pub write_meta : ℕ → Transient → Transient
unfolding set_mtime
write_meta now t = set_mtime now (write (λ d. record d { meta = t.super.meta }) t)

unfoldable pub insert : ℕ → Db → Impl → Transient
insert now db super =
    let t = write_fields now (record { db = allocate now db; super = super; ptr = db.next }) in
    write_meta now (set_state now t.super.state t).0

-- `StatusManager::create`, for the type "transient"
unfoldable pub create : ℕ → Bytes → Bytes → Bytes → Bytes → Bytes → Db → Transient
create now base_uri name operation rsrc_uri component db =
    let named = Impl.set_name now name (Impl.set_base_uri base_uri (new_impl now)) in
    let filled =
      Impl.set_component now component
        (Impl.set_resource_uri now rsrc_uri (Impl.set_operation now operation named)) in
    insert now db (Impl.set_state now pending filled).0

-- `StatusManager::fetch(name)`, for the type "transient"
unfoldable pub fetch : ℕ → Bytes → Bytes → Db → Outcome (Option Transient) Transient
fetch now base_uri name db =
    load now db (Impl.set_name now name (Impl.set_base_uri base_uri (new_impl now))) none
