-- ===== src/SqlStatus/Collection/Cursor.antt =====
-- What the cursor of the collection of plugins/status/sql/SQLStatusImpl.cc keeps from row to row.
use gearbox.Base.{ℕ, zero, suc, All, true, List, [], ◌∷◌, Option, some, ◌≡◌, ◌≢◌, ap, ◌∙◌, arith}
use gearbox.Errors.{Outcome, ok, throw}
use gearbox.Status.State.{State, unknown, cancelled, str2state, valid_state_transition}
use gearbox.Status.Impl
use gearbox.Status.Impl.{Impl, set_state_lem, keeps_mtime}
use gearbox.SqlStatus.Tables.{Row, Tables, Db, persist, reading}
use gearbox.SqlStatus.Object.{Sql, new_sql, fill, getter, row_of}
use gearbox.Errors.Laws.{>>=-ok}
use gearbox.SqlStatus.Object.{really_load}
use gearbox.Base.{subst, sym}
use gearbox.SqlStatus.Collection.{Condition, Collection, fetch, run_query, popped, pop}

-- a row of a known state
abbrev pub HasState : Row → Type 0
HasState r = str2state r.state ≢ unknown

after_cancelled :
    (now : ℕ) (to : State) (i : Impl)
    → i.state ≡ cancelled
    → to ≢ unknown
    → (Impl.set_state now to i).0.state ≡ cancelled
unfolding valid_state_transition
after_cancelled now to i e k = ground (arith, set_state_lem now to i)

-- a cursor that holds a cancelled status keeps its state over any further row
fill_cancelled :
    (now : ℕ) (r : Row) (i : Impl)
    → HasState r
    → i.state ≡ cancelled
    → (fill now r i).state ≡ cancelled
unfolding fill
fill_cancelled now r i k e = after_cancelled now (str2state r.state) _ e k

module _ {T : Type 0} (tb : Tables T) (select_all : List Condition → Option ℕ → T → List Row)
    (now : ℕ) (db : Db T) where
  heard : (Collection → List (Sql T)) → Outcome Collection (Sql T) → List (Sql T)
  heard rest (ok s c) = s ∷ rest c
  heard rest (throw e c) = []

  -- the statuses that `n` calls of `pop` give
  unfoldable pub pops : ℕ → Collection → List (Sql T)
  unfolding heard
  pops zero c = []
  pops (suc n) c = heard (pops n) (pop select_all now db c)

  -- what `state()` of the status returns when its row is read
  abbrev pub ReadsCancelled : Sql T → Type 0
  ReadsCancelled s =
      (r : Row)
      → row_of tb s ≡ some r
      → HasState r
      → (s' : Sql T) × (getter tb (λ i. i.state) now s ≡ ok cancelled s')

  popped-ReadsCancelled : (i : Impl) → i.state ≡ cancelled → ReadsCancelled (new_sql i db)
  unfolding getter really_load
  popped-ReadsCancelled i e r stored k = (
    read,
    >>=-ok (really_load tb now) (λ _ s. ok s.super.state s) (new_sql i db) (rw stored)
        ∙ ap (λ st. ok st read) (fill_cancelled now r i k e),
  )
    where
      read : Sql T
      read = record (new_sql i db) {
        db = persist (reading ∷ []) db;
        super = fill now r i;
        loaded = true;
        should_load = true;
      }

  -- the collection has run its query, and its cursor holds a cancelled status
  record IsStuck (c : Collection) : Type 0 where
    executed : c.executed ≡ true
    cursor : c.cursor.state ≡ cancelled
    rows : All HasState c.rows

  fetch-IsStuck :
      (rows : List Row) (c : Collection)
      → c.executed ≡ true
      → c.cursor.state ≡ cancelled
      → All HasState rows
      → IsStuck (fetch now rows c)
  unfolding fetch
  fetch-IsStuck [] c ex e h = record { executed = ex; cursor = e; rows = tt }
  fetch-IsStuck (r ∷ rows) c ex e (k, h) = record {
    executed = ex;
    cursor = fill_cancelled now r c.cursor k e;
    rows = (k, h);
  }

  popped-IsStuck :
      (n : ℕ) (rows : List Row) (c : Collection)
      → c.executed ≡ true
      → c.cursor.state ≡ cancelled
      → All HasState rows
      → ((c' : Collection) → IsStuck c' → All ReadsCancelled (pops n c'))
      → All ReadsCancelled (heard (pops n) (popped select_all now db rows c))
  unfolding popped heard
  popped-IsStuck n [] c ex e h next = tt
  popped-IsStuck n (r ∷ rows) c ex e (k, h) next =
      (popped-ReadsCancelled c.cursor e, next (fetch now rows c) (fetch-IsStuck rows c ex e h))

  run_query_again : (c : Collection) → c.executed ≡ true → run_query select_all now db.tables c ≡ c
  unfolding run_query
  run_query_again c ex = simp ex

  pops_stuck : (n : ℕ) (c : Collection) → IsStuck c → All ReadsCancelled (pops n c)
  unfolding pops pop
  pops_stuck zero c h = tt
  pops_stuck (suc n) c h =
      subst (λ c'. All ReadsCancelled (heard (pops n) (popped select_all now db c'.rows c')))
        (sym (run_query_again c h.executed))
        (popped-IsStuck n c.rows c h.executed h.cursor h.rows (pops_stuck n))

  -- A collection shows a wrong state behind a cancelled status. Once its cursor holds a status that is
  -- CANCELLED, every status that any number of calls of `pop` give reads as CANCELLED, whatever known
  -- state its own row holds: the rows are read into one object, whose state refuses every other.
  pub pops-ReadsCancelled :
      (n : ℕ) (c : Collection)
      → c.executed ≡ true
      → c.cursor.state ≡ cancelled
      → All HasState c.rows
      → All ReadsCancelled (pops n c)
  pops-ReadsCancelled n c ex e h = pops_stuck n c (record { executed = ex; cursor = e; rows = h })
