-- ===== src/SqlStatus/Tries.antt =====
-- The loops of plugins/status/sql/SQLStatusImpl.cc over failing statements.
use gearbox.Base.{Bool, true, false, List, [], ◌∷◌, ◌≡◌, refl, All}
use gearbox.SqlStatus.Tables.{Db, keep_trying, persist, transact}

abbrev pub run_all : {T : Type 0} → List (T → T) → T → T
run_all [] t = t
run_all (f ∷ fs) t = run_all fs (f t)

module _ {T : Type 0} where
  keep_trying_transaction :
      (all : List (T → T)) (t₀ : T) (faults : List Bool) (rest : List (T → T)) (t : T)
      → run_all rest t ≡ run_all all t₀
      → (keep_trying (λ _. t₀) all faults rest t).tables ≡ run_all all t₀
  unfolding keep_trying
  keep_trying_transaction all t₀ faults [] t h = h
  keep_trying_transaction all t₀ [] (f ∷ rest) t h = keep_trying_transaction all t₀ [] rest (f t) h
  keep_trying_transaction all t₀ (false ∷ faults) (f ∷ rest) t h =
      keep_trying_transaction all t₀ faults rest (f t) h
  keep_trying_transaction all t₀ (true ∷ faults) (f ∷ rest) t h =
      keep_trying_transaction all t₀ faults all t₀ refl

  -- Whichever statements of a transaction fail, the tables end as if none had.
  pub transact_lem :
      (all : List (T → T)) (db : Db T) → (transact all db).tables ≡ run_all all db.tables
  unfolding transact
  transact_lem all db = keep_trying_transaction all db.tables db.faults all db.tables refl

  keep_trying_one :
      (f : T → T) (faults : List Bool) (t : T)
      → (keep_trying (λ u. u) (f ∷ []) faults (f ∷ []) t).tables ≡ f t
  unfolding keep_trying
  keep_trying_one f [] t = refl
  keep_trying_one f (false ∷ faults) t = refl
  keep_trying_one f (true ∷ faults) t = keep_trying_one f faults t

  -- So for a loop over a single statement.
  pub persist_one : (f : T → T) (db : Db T) → (persist (f ∷ []) db).tables ≡ f db.tables
  unfolding persist
  persist_one f db = keep_trying_one f db.faults db.tables

  module _ {ℓ} (P : T → Type ℓ) where
    keep_trying_keeps :
        (all : List (T → T))
        → All (λ f. (t : T) → P t → P (f t)) all
        → (faults : List Bool) (rest : List (T → T)) (t : T)
        → All (λ f. (t : T) → P t → P (f t)) rest
        → P t
        → P (keep_trying (λ u. u) all faults rest t).tables
    unfolding keep_trying
    keep_trying_keeps all hs faults [] t h p = p
    keep_trying_keeps all hs [] (f ∷ rest) t (h, k) p =
        keep_trying_keeps all hs [] rest (f t) k (h t p)
    keep_trying_keeps all hs (false ∷ faults) (f ∷ rest) t (h, k) p =
        keep_trying_keeps all hs faults rest (f t) k (h t p)
    keep_trying_keeps all hs (true ∷ faults) (f ∷ rest) t h p =
        keep_trying_keeps all hs faults all t hs p

    -- What each statement keeps, a loop over them keeps, whichever of them fail.
    pub persist_keeps :
        (all : List (T → T)) (db : Db T)
        → All (λ f. (t : T) → P t → P (f t)) all
        → P db.tables
        → P (persist all db).tables
    unfolding persist
    persist_keeps all db hs p = keep_trying_keeps all hs db.faults all db.tables hs p
