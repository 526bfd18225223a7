-- ===== src/SqlStatus/Tables.antt =====
-- The tables of plugins/status/sql/SQLStatusImpl.cc and its loops over failing statements.
-- The data base and the library that talks to it stand outside the repository: `Tables` is what the
-- statements of the source do to the rows, and `Laws` what the source relies on. The text of a
-- statement is its function on a row: `UPDATE status SET ... WHERE name = :name` is `update`.
use gearbox.Base.{ℕ, ℤ, Bool, true, false, List, [], ◌∷◌, ◌++◌, Bytes, Option, none, some, ◌≡◌, ◌≢◌}

-- a row of the table `status`
pub record Row : Type 0 where
  pub name : Bytes
  pub operation : Bytes
  pub component : Bytes
  pub progress : ℕ
  pub code : ℤ
  pub resource_uri : Bytes
  pub parent_uri : Bytes
  pub ctime : ℕ
  pub mtime : ℕ
  pub ytime : ℤ
  pub state : Bytes
  pub failures : ℕ
  pub concurrency : ℕ

-- `select` is the row of a name in `status`, whose primary key is the name; the others are the
-- entries of `messages`, `child_uri` and `status_meta` for a name, in the order of their ids
pub record Tables (T : Type 0) : Type 0 where
  pub select : Bytes → T → Option Row
  pub update : Bytes → (Row → Row) → T → T
  pub insert : Row → T → T
  pub messages : Bytes → T → List Bytes
  pub insert_message : Bytes → Bytes → T → T
  pub children : Bytes → T → List Bytes
  pub insert_child : Bytes → Bytes → T → T
  pub meta : Bytes → T → List (Bytes × Bytes)
  pub replace_meta : Bytes → Bytes → Bytes → T → T
  pub delete_meta : Bytes → T → T

abbrev pub on_row : (Row → Row) → Option Row → Option Row
on_row f none = none
on_row f (some r) = some (f r)

pub record Laws {T : Type 0} (tb : Tables T) : Type 0 where
  pub select-update_self :
      (n : Bytes) (f : Row → Row) (t : T) → tb.select n (tb.update n f t) ≡ on_row f (tb.select n t)
  pub select-update_other :
      (n m : Bytes) (f : Row → Row) (t : T) → n ≢ m → tb.select n (tb.update m f t) ≡ tb.select n t
  pub messages-update :
      (n m : Bytes) (f : Row → Row) (t : T) → tb.messages n (tb.update m f t) ≡ tb.messages n t
  pub messages-insert_message :
      (n m : Bytes) (t : T) → tb.messages n (tb.insert_message n m t) ≡ tb.messages n t ++ m ∷ []
  pub select-insert_message :
      (n k m : Bytes) (t : T) → tb.select n (tb.insert_message k m t) ≡ tb.select n t

-- a connection: the tables, and which of the statements to come will throw, in their order. Behind the
-- end of the list none throws.
pub record Db (T : Type 0) : Type 0 where
  pub tables : T
  pub faults : List Bool

-- `while( true ) { try { all; return; } catch( ... ) { undo; sleep(1); } }`, with `rest` of its
-- statements to go. A statement that throws has done nothing, and the next round begins with the
-- first statement again, on the tables that `undo` leaves.
unfoldable pub keep_trying :
    {T : Type 0} → (T → T) → List (T → T) → List Bool → List (T → T) → T → Db T
keep_trying undo all faults [] t = record { tables = t; faults = faults }
keep_trying undo all [] (f ∷ rest) t = keep_trying undo all [] rest (f t)
keep_trying undo all (false ∷ faults) (f ∷ rest) t = keep_trying undo all faults rest (f t)
keep_trying undo all (true ∷ faults) (f ∷ rest) t = keep_trying undo all faults all (undo t)

-- a loop without a transaction
unfoldable pub persist : {T : Type 0} → List (T → T) → Db T → Db T
unfolding keep_trying
persist all db = keep_trying (λ t. t) all db.faults all db.tables

-- a loop over a transaction, which `dbrollback` takes back
unfoldable pub transact : {T : Type 0} → List (T → T) → Db T → Db T
unfolding keep_trying
transact all db = keep_trying (λ _. db.tables) all db.faults all db.tables

-- a statement that only reads, locks or commits
abbrev pub reading : {T : Type 0} → T → T
reading t = t
