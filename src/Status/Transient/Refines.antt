-- ===== src/Status/Transient/Refines.antt =====
-- The transient implementation keeps the laws of a backend.
use gearbox.Base.{
  ap, subst, ◌∙◌, ℕ, ◌≡◌, refl, true, Bytes, arith, if◌then◌else◌, Bool-cases, inl, inr, sym,
  Option, some, ◌==◌, bytes_eq, List, [], ◌∷◌,
}
use gearbox.Errors.{ok}
use gearbox.Status.State.{State, unknown, valid_state_transition}
use gearbox.Status.Impl
use gearbox.Status.Impl.{Impl, set_state_lem, keeps_mtime}
use gearbox.Status.Backend.{Laws}
use gearbox.Status.Transient.{
  Transient, TransientStatusData, data_of, set_state, super_state, set_mtime, set_progress,
  set_code, sync, load, load_from, find_last, copy_fields, synced, transient,
}

-- the object's cached state is the one that its record holds
abbrev pub IsFresh : Transient → Type 0
IsFresh t = (data_of t).state ≡ t.super.state

module _ (now : ℕ) (to : State) (t : Transient) where
  set_state_result : IsFresh t → (set_state now to t).1 ≡ valid_state_transition t.super.state to
  unfolding set_state super_state
  set_state_result fresh = ground (arith, set_state_lem now to t.super)

  state-set_state :
      IsFresh t
      → (set_state now to t).0.super.state
        ≡ (if valid_state_transition t.super.state to then to else t.super.state)
  unfolding set_state super_state
  state-set_state fresh = ground (arith, set_state_lem now to t.super)

  progress-set_state : (set_state now to t).0.super.progress ≡ t.super.progress
  unfolding set_state super_state
  progress-set_state = ground (arith, set_state_lem now to t.super)

  code-set_state : (set_state now to t).0.super.code ≡ t.super.code
  unfolding set_state super_state
  code-set_state = ground (arith, set_state_lem now to t.super)

valid_unknown : (s : State) → valid_state_transition s unknown ≡ true
unfolding valid_state_transition
valid_unknown s = ground arith

valid_from_unknown : (to : State) → valid_state_transition unknown to ≡ true
unfolding valid_state_transition
valid_from_unknown to = ground arith

find_last-some :
    (name : Bytes) (cells : ℕ → TransientStatusData) (ps : List ℕ) (p : ℕ)
    → (q : ℕ) × (find_last name cells ps (some p) ≡ some q)
unfolding find_last
find_last-some name cells [] p = (p, refl)
find_last-some name cells (r ∷ ps) p = elim (Bool-cases (bytes_eq (cells r).name name)) [
  | inl is ↦ rw is (find_last-some name cells ps r)
  | inr other ↦ rw other (find_last-some name cells ps p)
]

-- only the names in the store decide which record is found
pub find_last_cong :
    (name : Bytes) (cells cells' : ℕ → TransientStatusData)
    → ((p : ℕ) → (cells p).name ≡ (cells' p).name)
    → (ps : List ℕ) (found : Option ℕ)
    → find_last name cells ps found ≡ find_last name cells' ps found
unfolding find_last
find_last_cong name cells cells' h [] found = refl
find_last_cong name cells cells' h (p ∷ ps) found =
    rw (h p) (find_last_cong name cells cells' h ps _)

-- the state in which `sync` loads
abbrev reset : ℕ → Transient → Transient
reset now t = set_mtime now (record t { super = record t.super { state = unknown; mtime = now } })

reset_lem : (now : ℕ) (t : Transient) → (super_state now unknown t).0 ≡ reset now t
unfolding super_state
reset_lem now t = rw (set_state_lem now unknown t.super, valid_unknown)

-- the cached fields are those of the record, but for `name` and `failures`, which are not loaded
pub record IsLoaded (d : TransientStatusData) (n : Bytes) (f : ℕ) (s : Impl) : Type 0 where
  pub messages : s.messages ≡ d.messages
  pub children : s.children ≡ d.children
  pub operation : s.operation ≡ d.operation
  pub resource_uri : s.resource_uri ≡ d.resource_uri
  pub component : s.component ≡ d.component
  pub state : s.state ≡ d.state
  pub meta : s.meta ≡ d.meta
  pub progress : s.progress ≡ d.progress
  pub code : s.code ≡ d.code
  pub parent_uri : s.parent_uri ≡ d.parent_uri
  pub ctime : s.ctime ≡ d.ctime
  pub ytime : s.ytime ≡ d.ytime
  pub mtime : s.mtime ≡ d.mtime
  pub concurrency : s.concurrency ≡ d.concurrency
  pub name : s.name ≡ n
  pub failures : s.failures ≡ f

-- what `load` has copied when it comes to the state
abbrev before_state : ℕ → TransientStatusData → Impl → Impl
before_state now d s = record s {
  messages = d.messages;
  children = d.children;
  operation = d.operation;
  resource_uri = d.resource_uri;
  component = d.component;
  mtime = now;
}

accepted :
    (now : ℕ) (to : State) (s : Impl)
    → s.state ≡ unknown
    → (Impl.set_state now to s).0
      ≡ record s { state = to; mtime = if keeps_mtime to then s.mtime else now }
accepted now to s e = rw (set_state_lem now to s, e, valid_from_unknown to)

pub copy_fields-IsLoaded :
    (now : ℕ) (d : TransientStatusData) (s : Impl)
    → s.state ≡ unknown
    → IsLoaded d s.name s.failures (copy_fields now d s)
unfolding copy_fields
copy_fields-IsLoaded now d s e = ground (arith, accepted now d.state (before_state now d s) e)

-- the record at `q` after the cached state of `t` was reset: the reset notes the time in the
-- record that the object points to
abbrev pub touched : ℕ → Transient → ℕ → TransientStatusData
touched now t q = record (t.db.cells q) { mtime = if q == t.ptr then now else (t.db.cells q).mtime }

reset-touched : (now : ℕ) (t : Transient) (q : ℕ) → (reset now t).db.cells q ≡ touched now t q
unfolding set_mtime
reset-touched now t q = ground arith

find-reset :
    (now : ℕ) (t : Transient)
    → find_last (reset now t).super.name (reset now t).db.cells (reset now t).db.queue (some t.ptr)
      ≡ find_last t.super.name t.db.cells t.db.queue (some t.ptr)
unfolding set_mtime
find-reset now t = find_last_cong _ _ _ (λ p. ground arith) _ _

sync-eq :
    (now : ℕ) (t : Transient)
    → sync now t
      ≡ synced (reset now t) (
          load_from now (reset now t).db (reset now t).super (
            find_last
              (reset now t).super.name
              (reset now t).db.cells
              (reset now t).db.queue
              (some t.ptr)))
unfolding sync load set_mtime
sync-eq now t = rw reset_lem

-- `sync` always returns. Let `q` be the last record of the object's name in the queue, or the
-- object's own record if there is none: then the object points to `q`, and its cached fields are
-- those of `q`, except that `name` and `failures` are not loaded, and that its time of change is
-- `now` if `q` is the record that it pointed to before.
pub sync_lem :
    (now : ℕ) (t : Transient) (q : ℕ)
    → find_last t.super.name t.db.cells t.db.queue (some t.ptr) ≡ some q
    → (t' : Transient) × (sync now t ≡ ok tt t')
      × (t'.ptr ≡ q)
      × (t'.db.cells q ≡ touched now t q)
      × (t'.db.queue ≡ t.db.queue)
      × IsLoaded (touched now t q) t.super.name t.super.failures t'.super
unfolding load_from synced set_mtime
sync_lem now t q e = (
  loaded,
  sync-eq now t
      ∙ ap (λ o. synced (reset now t) (load_from now (reset now t).db (reset now t).super o))
          (find-reset now t ∙ e)
      ∙ ap (λ d. ok tt (record loaded { super = copy_fields now d (reset now t).super }))
          (reset-touched now t q),
  refl,
  reset-touched now t q,
  refl,
  copy_fields-IsLoaded now (touched now t q) (reset now t).super refl,
)
  where
    loaded : Transient
    loaded = record {
      db = (reset now t).db;
      super = copy_fields now (touched now t q) (reset now t).super;
      ptr = q;
    }

-- and it writes nothing but that time
pub sync_db :
    (now : ℕ) (t t' : Transient) (q : ℕ)
    → find_last t.super.name t.db.cells t.db.queue (some t.ptr) ≡ some q
    → sync now t ≡ ok tt t'
    → ((p : ℕ) → t'.db.cells p ≡ touched now t p) × (t'.db.queue ≡ t.db.queue)
unfolding load_from synced set_mtime
sync_db now t t' q e done =
    let end : sync now t
        ≡ ok tt (record {
          db = (reset now t).db;
          super = copy_fields now ((reset now t).db.cells q) (reset now t).super;
          ptr = q;
        }) =
      sync-eq now t
      ∙ ap (λ o. synced (reset now t) (load_from now (reset now t).db (reset now t).super o))
          (find-reset now t ∙ e) in
    let same : t'.db ≡ (reset now t).db = cc (done, end) in
    (λ p. ap (λ d. d.cells p) same ∙ reset-touched now t p, ap (λ d. d.queue) same)

sync_IsFresh : (now : ℕ) (s s' : Transient) → sync now s ≡ ok tt s' → IsFresh s'
sync_IsFresh now s s' e =
    let (q, found) = find_last-some s.super.name s.db.cells s.db.queue s.ptr in
    let (t, returned, at, stored, _, loaded) = sync_lem now s q found in
    let same : t ≡ s' = ground (arith, returned, e) in
    subst IsFresh same
      (ap (λ p. (t.db.cells p).state) at ∙ ap (λ d. d.state) stored ∙ sym loaded.state)

-- The transient implementation keeps the laws that `fail`, `success`, `cancel` and `checkpoint`
-- rely on.
pub transient-Laws : Laws transient IsFresh
transient-Laws = record {
  set_state_result = set_state_result;
  state-set_state = state-set_state;
  progress-set_state = progress-set_state;
  code-set_state = code-set_state;
  state-set_progress = λ now p s. unfold set_progress set_mtime in refl;
  progress-set_progress = λ now p s. unfold set_progress set_mtime in refl;
  code-set_progress = λ now p s. unfold set_progress set_mtime in refl;
  state-set_code = λ c s. unfold set_code in refl;
  progress-set_code = λ c s. unfold set_code in refl;
  code-set_code = λ c s. unfold set_code in refl;
  state-set_mtime = λ m s. unfold set_mtime in refl;
  progress-set_mtime = λ m s. unfold set_mtime in refl;
  code-set_mtime = λ m s. unfold set_mtime in refl;
  sync_IsFresh = sync_IsFresh;
}
