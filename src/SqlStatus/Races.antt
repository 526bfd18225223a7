-- ===== src/SqlStatus/Races.antt =====
-- Many processes at the same tables: what plugins/status/sql/SQLStatusImpl.cc makes of the stored
-- states. The methods read a row first and write later; since reading changes nothing, their parts that
-- write, on objects that may have cached anything, in any order, are all that can happen to the rows.
use gearbox.Base.{
  ℕ, ◌≤◌, ℤ, Bool, true, false, List, [], ◌∷◌, Bytes, bytes_eq, bytes_eq_iff, Option, none, some,
  ltb, if◌then◌else◌, ◌≡◌, refl, ap, subst, sym, ◌∙◌, arith, All, Bool-cases, inl, inr,
}
use gearbox.Errors.{Outcome, ok, throw}
use gearbox.Errors.Laws.{>>=-ok, >>=-throw}
use gearbox.Status.State.{State, str2state, state2str, valid_state_transition}
use gearbox.Status.State.Names.{str2state-state2str}
use gearbox.Status.Transitions.{rank, IsKnown, request, rank-request}
use gearbox.Status.Impl.{set_state_lem, keeps_mtime}
use gearbox.SqlStatus.Tables.{Row, Tables, Laws, Db, on_row, persist}
use gearbox.SqlStatus.Tries.{persist_keeps}
use gearbox.SqlStatus.Object.{Sql, set_parent_uri, set_progress, set_code, set_ytime, set_failures}
use gearbox.SqlStatus.Lists.{add_message}
use gearbox.SqlStatus.Messages.{add_message-eq, add_statements}
use gearbox.SqlStatus.End.{stored_state, change_row, state_loaded, finished, finish_row, end_loaded}
use gearbox.SqlStatus.Ending.{change_row_tables, finished-refused, finished-accepted}

-- the writes of the methods
pub data Write : Type 0 where
  state : ℕ → State → Write
  end : ℕ → ℤ → State → Write
  progress failures : ℕ → ℕ → Write
  parent_uri message : ℕ → Bytes → Write
  code ytime : ℤ → Write

-- a request of a known state
abbrev pub IsKnownWrite : Write → Type 0
IsKnownWrite (state now to) = IsKnown to
IsKnownWrite (end now c to) = IsKnown to
IsKnownWrite w = Unit {0}

abbrev pub left : {T A : Type 0} → Outcome (Sql T) A → Sql T
left (ok a s) = s
left (throw e s) = s

module _ {T : Type 0} (tb : Tables T) where
  unfoldable pub perform : Write → Sql T → Sql T
  perform (state now to) s = (state_loaded tb now to s).0
  perform (end now c to) s = left (end_loaded tb now c to s)
  perform (progress now p) s = set_progress tb now p s
  perform (failures now n) s = set_failures tb n s
  perform (parent_uri now u) s = set_parent_uri tb now u s
  perform (message now m) s = add_message tb now m s
  perform (code c) s = set_code tb c s
  perform (ytime y) s = set_ytime tb y s

  -- one write after another, each through an object of its own; only the tables are shared
  unfoldable pub perform_all : List (Sql T × Write) → Db T → Db T
  unfolding perform
  perform_all [] db = db
  perform_all ((s, w) ∷ rest) db = perform_all rest (perform w (record s { db = db })).db

  abbrev pub state_in : Bytes → T → State
  state_in n t = stored_state (tb.select n t)

  rank-accepted :
      (to : State) (f : Row → Row)
      → IsKnown to
      → ((r : Row) → (f r).state ≡ state2str to)
      → (o : Option Row) → valid_state_transition (stored_state o) to ≡ true
      → rank (stored_state o) ≤ rank (stored_state (on_row f o))
  unfolding request
  rank-accepted to f known h none v = omega arith
  rank-accepted to f known h (some r) v =
      let written : str2state (f r).state ≡ to = ap str2state (h r) ∙ str2state-state2str to in
      ground (arith, ap rank written, rank-request (str2state r.state) to known, v)

  module _ (laws : Laws tb) (n : Bytes) (t : T) where
    -- the row of a name after an UPDATE for some name
    select-update :
        (m : Bytes) (f : Row → Row)
        → tb.select n (tb.update m f t)
          ≡ (if bytes_eq n m then on_row f (tb.select n t) else tb.select n t)
    select-update m f = elim (Bool-cases (bytes_eq n m)) [
      | inl same ↦ rw same (
          subst (λ k. tb.select n (tb.update k f t) ≡ on_row f (tb.select n t))
            ((bytes_eq_iff n m).0 same) (laws.select-update_self n f t))
      | inr other ↦
          rw other
            (laws.select-update_other n m f t (λ e. ground (arith, (bytes_eq_iff n m).1 e, other)))
    ]

    -- an UPDATE that does not set the column of the state
    state_in-update :
        (m : Bytes) (f : Row → Row)
        → ((r : Row) → (f r).state ≡ r.state)
        → state_in n (tb.update m f t) ≡ state_in n t
    state_in-update m f h =
        ap stored_state (select-update m f) ∙ same_state (bytes_eq n m) (tb.select n t)
      where
        same_state :
            (b : Bool) (o : Option Row)
            → stored_state (if b then on_row f o else o) ≡ stored_state o
        same_state true none = refl
        same_state true (some r) = ap str2state (h r)
        same_state false o = refl

    -- an UPDATE of the state under the lock
    rank-locked :
        (m : Bytes) (to : State) (f : Row → Row)
        → IsKnown to
        → ((r : Row) → (f r).state ≡ state2str to)
        → rank (state_in n t)
          ≤ rank
              (state_in n (if valid_state_transition (state_in m t) to then tb.update m f t else t))
    rank-locked m to f known h = elim (Bool-cases (valid_state_transition (state_in m t) to)) [
      | inr refused ↦ rw refused (omega arith)
      | inl v ↦
          rw (v, select-update m f)
            (elim (Bool-cases (bytes_eq n m)) [
              | inr other ↦ rw other (omega arith)
              | inl same ↦
                  let e : m ≡ n = sym ((bytes_eq_iff n m).0 same) in
                  rw same (
                    rank-accepted to f known h (tb.select n t)
                      (subst (λ k. valid_state_transition (state_in k t) to ≡ true) e v))
            ])
    ]

  module _ (laws : Laws tb) (n : Bytes) where
    abbrev Grows : T → T → Type 0
    Grows t t' = rank (state_in n t) ≤ rank (state_in n t')

    change_row-Grows :
        (to : State) (f : Row → Row) (s : Sql T)
        → IsKnown to
        → ((r : Row) → (f r).state ≡ state2str to)
        → Grows s.db.tables (change_row tb to f s).0.db.tables
    change_row-Grows to f s known h =
        subst (Grows s.db.tables) (sym (change_row_tables tb to f s))
          (rank-locked laws n s.db.tables s.super.name to f known h)

    row-Grows :
        (m : Bytes) (f : Row → Row) (db : Db T)
        → ((r : Row) → (f r).state ≡ r.state)
        → Grows db.tables (persist (tb.update m f ∷ []) db).tables
    row-Grows m f db h =
        persist_keeps (Grows db.tables) (tb.update m f ∷ []) db
          (λ t p. ground (arith, p, state_in-update laws n t m f h), tt) (omega arith)

    state_loaded-Grows :
        (now : ℕ) (to : State) (s : Sql T)
        → IsKnown to
        → Grows s.db.tables (state_loaded tb now to s).0.db.tables
    unfolding state_loaded
    state_loaded-Grows now to s known =
        elim (Bool-cases (valid_state_transition s.super.state to)) [
          | inr refused ↦ rw (set_state_lem now to s.super, refused) (omega arith)
          | inl v ↦
              rw (set_state_lem now to s.super, v)
                (change_row-Grows to _
                  (record s {
                    super = record s.super {
                      state = to;
                      mtime = if keeps_mtime to then s.super.mtime else now;
                    };
                  })
                  known (λ r. refl))
        ]

    end_loaded-Grows :
        (now : ℕ) (code : ℤ) (to : State) (s : Sql T)
        → IsKnown to
        → Grows s.db.tables (left (end_loaded tb now code to s)).db.tables
    unfolding end_loaded
    end_loaded-Grows now c to s known =
        elim (Bool-cases (valid_state_transition s.super.state to)) [
          | inr refused ↦
              rw
                (>>=-throw (finished tb now c to) (λ _. finish_row tb to) s
                  (finished-refused tb now c to s refused))
                (omega arith)
          | inl v ↦
              let (a, finish, at, _, _, _, db) = finished-accepted tb now c to s v in
              rw (>>=-ok (finished tb now c to) (λ _. finish_row tb to) s finish) (
                subst (λ d. Grows d.tables (left (finish_row tb to a)).db.tables) db
                  (unfold finish_row in change_row-Grows to _ a known (λ r. ap state2str at)))
        ]

    add_message-Grows :
        (now : ℕ) (m : Bytes) (s : Sql T) → Grows s.db.tables (add_message tb now m s).db.tables
    add_message-Grows now m s = rw (add_message-eq tb now m s) (
        persist_keeps (Grows s.db.tables) (add_statements tb now m s) s.db
          (
            λ t p.
                ground (arith, p, ap stored_state (laws.select-insert_message n s.super.name m t)),
            (
              λ t p. ground (
                arith,
                p,
                state_in-update laws n t s.super.name (λ r. record r { mtime = now }) (λ r. refl),
              ),
              tt,
            ),
          )
          (omega arith))

    perform-Grows :
        (w : Write) (s : Sql T) → IsKnownWrite w → Grows s.db.tables (perform w s).db.tables
    unfolding perform set_progress set_failures set_parent_uri set_code set_ytime
    perform-Grows (state now to) s known = state_loaded-Grows now to s known
    perform-Grows (end now c to) s known = end_loaded-Grows now c to s known
    perform-Grows (progress now p) s known =
        row-Grows s.super.name
          (λ r. if ltb r.progress p then record r { progress = p; mtime = now } else r) s.db
          (λ r. ground arith)
    perform-Grows (failures now k) s known =
        row-Grows s.super.name (λ r. record r { failures = k; mtime = s.super.mtime }) s.db
          (λ r. refl)
    perform-Grows (parent_uri now u) s known =
        row-Grows s.super.name (λ r. record r { parent_uri = u; mtime = now }) s.db (λ r. refl)
    perform-Grows (message now m) s known = add_message-Grows now m s
    perform-Grows (code c) s known =
        row-Grows s.super.name (λ r. record r { code = c; mtime = s.super.mtime }) s.db (λ r. refl)
    perform-Grows (ytime y) s known =
        row-Grows s.super.name (λ r. record r { ytime = y; mtime = s.super.mtime }) s.db (λ r. refl)

    -- The state of a row never goes back, whatever the processes do that share the tables: let them
    -- write one after another, each through an object that may have cached anything, for any name,
    -- with changes of state, ends, and writes of the other columns, and with any statements failing.
    -- Then, as long as no UNKNOWN is asked for, the rank of the stored state of every name is at the
    -- end at least what it was.
    pub rank-perform_all :
        (ws : List (Sql T × Write)) (db : Db T)
        → All (λ w. IsKnownWrite w.1) ws
        → rank (state_in n db.tables) ≤ rank (state_in n (perform_all ws db).tables)
    unfolding perform_all
    rank-perform_all [] db known = omega arith
    rank-perform_all ((s, w) ∷ ws) db (k, ks) = omega (
      arith,
      perform-Grows w (record s { db = db }) k,
      rank-perform_all ws (perform w (record s { db = db })).db ks,
    )
