-- ===== src/GearboxWorker/Steps.antt =====
-- What the steps of a cancellation do to a status in the store.
use gearbox.Base.{
  ℕ, ℤ, pos, true, false, List, [], ◌∷◌, Bytes, bytes_eq, Option, none, some, ltb, if◌then◌else◌,
  ◌≡◌, refl, sym, ap, subst, ◌∙◌, arith, Bool-cases, inl, inr,
}
use gearbox.Errors.{ok, throw, worker_stop}
use gearbox.Status.State.{State, stopping, stopped, cancelling, cancelled, valid_state_transition}
use gearbox.Status.Impl.{set_state_lem}
use gearbox.Status.Backend.{cancel, checkpoint}
use gearbox.Status.Transient.{
  Db, Transient, TransientStatusData, transient, fetch, find_last, set_state, super_state,
  set_mtime, set_code, set_progress, sync,
}
use gearbox.Status.Transient.Refines.{find_last_cong, sync_lem, sync_db}
use gearbox.Status.Transient.Store.{fetch_lem, names-set_state, queue-set_state}

-- the status that a name leads to, and what a reader of it sees
pub record IsAt (n : Bytes) (p : ℕ) (cs : List Bytes) (st : State) (pr : ℕ) (c : ℤ) (db : Db)
    : Type 0 where
  pub found : find_last n db.cells db.queue none ≡ some p
  pub state : (db.cells p).state ≡ st
  pub progress : (db.cells p).progress ≡ pr
  pub code : (db.cells p).code ≡ c
  pub children : (db.cells p).children ≡ cs

-- an object for it that shows the same
pub record Sees (n : Bytes) (p : ℕ) (cs : List Bytes) (st : State) (pr : ℕ) (c : ℤ) (s : Transient)
    : Type 0 where
  pub ptr : s.ptr ≡ p
  pub name : s.super.name ≡ n
  pub state : s.super.state ≡ st
  pub progress : s.super.progress ≡ pr
  pub code : s.super.code ≡ c
  pub children : s.super.children ≡ cs
  pub at : IsAt n p cs st pr c s.db

-- only the names and the queue decide what is found
found_again :
    (name : Bytes) (p : ℕ) (db db' : Db)
    → find_last name db.cells db.queue none ≡ some p
    → ((q : ℕ) → (db'.cells q).name ≡ (db.cells q).name)
    → db'.queue ≡ db.queue
    → find_last name db'.cells db'.queue none ≡ some p
found_again name p db db' e names queue =
    ap (λ q. find_last name db'.cells q none) queue
    ∙ find_last_cong name db'.cells db.cells names db.queue none
    ∙ e

module _ (name : Bytes) (p : ℕ) (cs : List Bytes) (pr : ℕ) (c : ℤ) (now : ℕ) where
  -- a fetched object shows its record
  pub fetch-Sees :
      (base : Bytes) (st : State) (db : Db)
      → IsAt name p cs st pr c db
      → (s : Transient) × (fetch now base name db ≡ ok s (some s))
        × Sees name p cs st pr c s
        × (s.db ≡ db)
        × (s.super.ytime ≡ (db.cells p).ytime)
        × (s.super.concurrency ≡ (db.cells p).concurrency)
  fetch-Sees base st db h =
      let (s, fetched, ptr, same, l) = (fetch_lem now base name db).0 p h.found in
      (
        s,
        fetched,
        record {
          ptr = ptr;
          name = l.name;
          state = l.state ∙ h.state;
          progress = l.progress ∙ h.progress;
          code = l.code ∙ h.code;
          children = l.children ∙ h.children;
          at = subst (IsAt name p cs st pr c) (sym same) h;
        },
        same,
        l.ytime,
        l.concurrency,
      )

  -- an allowed change of the state
  pub set_state-Sees :
      (st to : State) (s : Transient)
      → Sees name p cs st pr c s
      → valid_state_transition st to ≡ true
      → (s' : Transient) × (set_state now to s ≡ (s', true))
        × Sees name p cs to pr c s'
        × (s'.super.ytime ≡ s.super.ytime)
        × (s'.super.concurrency ≡ s.super.concurrency)
        × ((s'.db.cells p).ytime ≡ (s.db.cells p).ytime)
        × ((s'.db.cells p).concurrency ≡ (s.db.cells p).concurrency)
  unfolding set_state super_state set_mtime
  set_state-Sees st to s h v = (
    (set_state now to s).0,
    ap (λ b. ((set_state now to s).0, b)) changed,
    record {
      ptr = fields.0;
      name = fields.1;
      state = fields.2;
      progress = fields.3;
      code = fields.4;
      children = fields.5;
      at = record {
        found =
            found_again name p s.db (set_state now to s).0.db h.at.found (names-set_state now to s)
              (queue-set_state now to s);
        state = stored.0;
        progress = stored.1;
        code = stored.2;
        children = stored.3;
      };
    },
    fields.6,
    fields.7,
    stored.4,
    stored.5,
  )
    where
      changed : (set_state now to s).1 ≡ true
      changed = ground (arith, set_state_lem now to s.super, h.state, v, h.ptr, h.at.state)

      fields :
          ((set_state now to s).0.ptr ≡ p)
          × ((set_state now to s).0.super.name ≡ name)
          × ((set_state now to s).0.super.state ≡ to)
          × ((set_state now to s).0.super.progress ≡ pr)
          × ((set_state now to s).0.super.code ≡ c)
          × ((set_state now to s).0.super.children ≡ cs)
          × ((set_state now to s).0.super.ytime ≡ s.super.ytime)
          × ((set_state now to s).0.super.concurrency ≡ s.super.concurrency)
      fields = ground (
        arith,
        set_state_lem now to s.super,
        h.state,
        h.name,
        h.progress,
        h.code,
        h.children,
        v,
        h.ptr,
        h.at.state,
      )

      stored :
          (((set_state now to s).0.db.cells p).state ≡ to)
          × (((set_state now to s).0.db.cells p).progress ≡ pr)
          × (((set_state now to s).0.db.cells p).code ≡ c)
          × (((set_state now to s).0.db.cells p).children ≡ cs)
          × (((set_state now to s).0.db.cells p).ytime ≡ (s.db.cells p).ytime)
          × (((set_state now to s).0.db.cells p).concurrency ≡ (s.db.cells p).concurrency)
      stored = ground (
        arith,
        set_state_lem now to s.super,
        h.state,
        v,
        h.ptr,
        h.at.state,
        h.at.progress,
        h.at.code,
        h.at.children,
      )

find_last-some :
    (name : Bytes) (cells : ℕ → TransientStatusData) (ps : List ℕ) (found : Option ℕ) (p : ℕ)
    → find_last name cells ps none ≡ some p
    → find_last name cells ps found ≡ some p
unfolding find_last
find_last-some name cells [] found p e = cc
find_last-some name cells (q ∷ ps) found p e = elim (Bool-cases (bytes_eq (cells q).name name)) [
  | inl is ↦ rw is (rw is at e)
  | inr other ↦ rw other (find_last-some name cells ps found p (rw other at e))
]

module _ (name : Bytes) (p : ℕ) (cs : List Bytes) (st : State) (pr : ℕ) (c : ℤ) (now : ℕ)
    (s : Transient) (h : Sees name p cs st pr c s) where
  found_here : find_last s.super.name s.db.cells s.db.queue (some s.ptr) ≡ some p
  found_here =
      ap (λ n. find_last n s.db.cells s.db.queue (some s.ptr)) h.name
      ∙ find_last-some name s.db.cells s.db.queue (some s.ptr) p h.at.found

  sync-Sees : (s' : Transient) × (sync now s ≡ ok tt s') × Sees name p cs st pr c s'
  sync-Sees =
      let (s', synced, ptr, _, _, l) = sync_lem now s p found_here in
      let (cells, queue) = sync_db now s s' p found_here synced in
      (
        s',
        synced,
        record {
          ptr = ptr;
          name = l.name ∙ h.name;
          state = l.state ∙ h.at.state;
          progress = l.progress ∙ h.at.progress;
          code = l.code ∙ h.at.code;
          children = l.children ∙ h.at.children;
          at = record {
            found =
                found_again name p s.db s'.db h.at.found (λ q. ap (λ d. d.name) (cells q)) queue;
            state = ap (λ d. d.state) (cells p) ∙ h.at.state;
            progress = ap (λ d. d.progress) (cells p) ∙ h.at.progress;
            code = ap (λ d. d.code) (cells p) ∙ h.at.code;
            children = ap (λ d. d.children) (cells p) ∙ h.at.children;
          };
        },
      )

  -- the two writes behind an end
  closed-Sees : (c' : ℤ) → Sees name p cs st 100 c' (set_progress now 100 (set_code c' s))
  unfolding set_progress set_code set_mtime
  closed-Sees c' = record {
    ptr = h.ptr;
    name = h.name;
    state = h.state;
    progress = refl;
    code = refl;
    children = h.children;
    at = record {
      found =
          found_again name p s.db (set_progress now 100 (set_code c' s)).db h.at.found
            (λ q. ground arith) refl;
      state = ground (arith, h.ptr, h.at.state);
      progress = ground (arith, h.ptr, h.at.progress);
      code = ground (arith, h.ptr, h.at.code);
      children = ground (arith, h.ptr, h.at.children);
    };
  }

module _ (name : Bytes) (p : ℕ) (cs : List Bytes) (pr : ℕ) (c : ℤ) (now : ℕ) (s : Transient) where
  -- `checkpoint` of a status that is STOPPING
  pub checkpoint-IsAt :
      Sees name p cs stopping pr c s
      → (s' : Transient) × (checkpoint transient now s ≡ throw worker_stop s')
        × IsAt name p cs stopped 100 (pos 410) s'.db
  unfolding checkpoint valid_state_transition
  checkpoint-IsAt h =
      let (read, synced, k) = sync-Sees name p cs stopping pr c now s h in
      let (halted, changed, l, _, _, _, _) =
        set_state-Sees name p cs pr c now stopping stopped read k refl in
      let closed = closed-Sees name p cs stopped pr c now halted l (pos 410) in
      (set_progress now 100 (set_code (pos 410) halted), rw (synced, k.state, changed), closed.at)

  -- `cancel` of a status that is CANCELLING
  pub cancel-IsAt :
      Sees name p cs cancelling pr c s
      → (s' : Transient) × (cancel transient now s ≡ ok tt s')
        × IsAt name p cs cancelled
            (if ltb pr 100 then 100 else pr)
            (if ltb pr 100 then pos 409 else c)
            s'.db
  unfolding cancel valid_state_transition
  cancel-IsAt h =
      let (s', changed, l, _, _, _, _) =
        set_state-Sees name p cs pr c now cancelling cancelled s h refl in
      elim (Bool-cases (ltb pr 100)) [
        | inl below ↦ (
          set_progress now 100 (set_code (pos 409) s'),
          simp (h.state, changed, l.progress, below),
          rw below (closed-Sees name p cs cancelled pr c now s' l (pos 409)).at,
        )
        | inr full ↦ (s', simp (h.state, changed, l.progress, full), rw full l.at)
      ]

-- a refused change
pub set_state-refused :
    (name : Bytes) (p : ℕ) (cs : List Bytes) (st : State) (pr : ℕ) (c : ℤ) (now : ℕ) (to : State)
    (s : Transient)
    → Sees name p cs st pr c s
    → valid_state_transition st to ≡ false
    → set_state now to s ≡ (s, false)
unfolding set_state
set_state-refused name p cs st pr c now to s h v = ground (arith, v, h.at.state, h.ptr)
