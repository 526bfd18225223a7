-- ===== src/SqlStatus/Collection.antt =====
-- The collection of statuses of plugins/status/sql/SQLStatusImpl.cc: a query that filters are added to,
-- and a cursor over its rows. Every row is read into the same object, `cursor`, whose copies are the
-- statuses of the collection. What the data base makes of a query is a parameter.
pub mod Cursor
use gearbox.Base.{
  ℕ, ℤ, pos, negsuc, Bool, true, false, List, [], ◌∷◌, ◌++◌, Bytes, codes, Option, none, some, ◌==◌,
  if◌then◌else◌, ◌≡◌, ◌≢◌, refl, ap, ◌∙◌, arith, map,
}
use gearbox.Errors.{Exception, std_exception, Outcome, ok, throw}
use gearbox.Status.State.{State, unknown, cancelled, str2state, valid_state_transition}
use gearbox.Status.Impl
use gearbox.Status.Impl.{Impl, set_state_lem, keeps_mtime}
use gearbox.SqlStatus.Tables.{Row, Tables, Db, persist, reading}
use gearbox.SqlStatus.Object.{Sql, new_sql, fill, getter, row_of}

pub data Column : Type 0 where
  progress code operation component mtime ctime state resource_uri : Column

pub data Value : Type 0 where
  num : ℤ → Value
  text : Bytes → Value

-- a condition of the WHERE clause
pub data Condition : Type 0 where
  equal at_least at_most like : Column → Value → Condition

-- `lst`, with what was added to its text
pub record Query : Type 0 where
  pub conditions : List Condition
  pub count : ℕ

-- `rows` are those that the statement gives still, the one that was fetched into the cursor first
pub record Collection : Type 0 where
  pub query : Query
  pub executed : Bool
  pub cursor : Impl
  pub rows : List Row

abbrev pub new_collection : Impl → Collection
new_collection blank = record {
  query = record { conditions = []; count = 10 };
  executed = false;
  cursor = blank;
  rows = [];
}

abbrev pub add_conditions : List Condition → Collection → Collection
add_conditions cs c = record c { query = record c.query { conditions = c.query.conditions ++ cs } }

int_same : ℤ → ℤ → Bool
int_same (pos a) (pos b) = a == b
int_same (negsuc a) (negsuc b) = a == b
int_same _ _ = false

-- `filter_progress`, `filter_code`, `filter_mtime` and `filter_ctime`
unfoldable pub filter_range : Column → ℤ → ℤ → Collection → Collection
unfolding int_same
filter_range col min max =
    if int_same min max
    then add_conditions (equal col (num min) ∷ [])
    else add_conditions (at_least col (num min) ∷ at_most col (num max) ∷ [])

-- `filter_operation`, `filter_component` and `filter_state`
unfoldable pub filter_text : Column → Bytes → Collection → Collection
filter_text col t = add_conditions (equal col (text t) ∷ [])

unfoldable pub filter_uri : Bytes → Collection → Collection
filter_uri u = add_conditions (like resource_uri (text (codes "%" ++ (u ++ codes "%"))) ∷ [])

unfoldable pub limit : ℕ → Collection → Collection
limit n c = record c { query = record c.query { count = n } }

-- `fetch`, which reads the next row into the cursor by `from_base`
unfoldable pub fetch : ℕ → List Row → Collection → Collection
fetch now [] c = record c { rows = [] }
fetch now (r ∷ rows) c = record c { cursor = fill now r c.cursor; rows = r ∷ rows }

module _ {T : Type 0} (select_all : List Condition → Option ℕ → T → List Row) where
  -- `run_query`, by which the rows come in descending order of ctime; a count of 0 sets no limit
  unfoldable pub run_query : ℕ → T → Collection → Collection
  unfolding fetch
  run_query now t c =
      if c.executed
      then c
      else record (fetch now
          (select_all c.query.conditions (if c.query.count == 0 then none else some c.query.count)
            t)
          c) { executed = true }

  unfoldable pub empty : ℕ → T → Collection → Bool × Collection
  unfolding run_query
  empty now t c = let c' = run_query now t c in (elim c'.rows [ [] ↦ true | r ∷ rs ↦ false ], c')

  -- the copy of the cursor, and the next row
  unfoldable pub popped : ℕ → Db T → List Row → Collection → Outcome Collection (Sql T)
  unfolding fetch
  popped now db [] c = throw (std_exception (codes "called pop() on empty status collection")) c
  popped now db (r ∷ rows) c = ok (new_sql c.cursor db) (fetch now rows c)

  unfoldable pub pop : ℕ → Db T → Collection → Outcome Collection (Sql T)
  unfolding run_query popped
  pop now db c = let c' = run_query now db.tables c in popped now db c'.rows c'
