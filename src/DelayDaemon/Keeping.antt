-- ===== src/DelayDaemon/Keeping.antt =====
-- No job that waits is lost by the daemon of workers/gearbox/DelayProcessor.cc.
use mathlib.Core.List.{Memᴰ}
use gearbox.Base.{
  ℕ, ℤ, Bool, true, false, List, [], ◌∷◌, ◌==◌, ==_iff, if◌then◌else◌, ◌≡◌, ◌≢◌, refl, sym, ap, ◌∙◌,
  All, Bool-cases, inl, inr, ◌⊎◌,
}
use gearbox.Errors.{Exception, Outcome, ok, throw}
use gearbox.Errors.Laws.{outcome-cases, >>=-ok, >>=-throw}
use gearbox.DelayDaemon.{DelayedJob, delete_row, is_queued, after_run, run_all, run_delayed_jobs}

abbrev pub left : Outcome (List DelayedJob) (Unit {0}) → List DelayedJob
left (ok _ rows) = rows
left (throw e rows) = rows

delete_row-other :
    (id : ℕ) (rows : List DelayedJob) (r : DelayedJob)
    → Memᴰ r rows
    → r.id ≢ id
    → Memᴰ r (delete_row id rows)
unfolding delete_row
delete_row-other id [] r m h = m
delete_row-other id (x ∷ rows) r (Memᴰ.head e) h = elim (Bool-cases (x.id == id)) [
  | inl same ↦ absurd (h (ap (λ y. y.id) e ∙ (==_iff x.id id).0 same))
  | inr other ↦ rw other (Memᴰ.head e)
]
delete_row-other id (x ∷ rows) r (Memᴰ.tail m) h = elim (Bool-cases (x.id == id)) [
  | inl same ↦ rw same (delete_row-other id rows r m h)
  | inr other ↦ rw other (Memᴰ.tail (delete_row-other id rows r m h))
]

kept_row :
    (id : ℕ) (x : DelayedJob) (rows : List DelayedJob) (r : DelayedJob)
    → (Memᴰ r (delete_row id rows) → Memᴰ r rows × (r.id ≢ id))
    → (x.id == id) ≡ false
    → Memᴰ r (x ∷ delete_row id rows)
    → Memᴰ r (x ∷ rows) × (r.id ≢ id)
kept_row id x rows r rest other (Memᴰ.head e) =
    (Memᴰ.head e, λ h. cc (other, (==_iff x.id id).1 (ap (λ y. y.id) (sym e) ∙ h)))
kept_row id x rows r rest other (Memᴰ.tail m) = let (k, h) = rest m in (Memᴰ.tail k, h)

delete_row-sublist :
    (id : ℕ) (rows : List DelayedJob) (r : DelayedJob)
    → Memᴰ r (delete_row id rows)
    → Memᴰ r rows × (r.id ≢ id)
unfolding delete_row
delete_row-sublist id [] r m = elim m [ ]
delete_row-sublist id (x ∷ rows) r m = elim (Bool-cases (x.id == id)) [
  | inl same ↦ let (k, h) = delete_row-sublist id rows r (rw same at m) in (Memᴰ.tail k, h)
  | inr other ↦ kept_row id x rows r (delete_row-sublist id rows r) other (rw other at m)
]

module _ (run : DelayedJob → Outcome (Unit {0}) ℤ) where
  -- the job was queued, as its response says
  abbrev pub IsAccepted : DelayedJob → Type 0
  IsAccepted j = (code : ℤ) × (run j ≡ ok code tt) × (is_queued code ≡ true)

  -- one round of the loop
  run_all-step :
      (j : DelayedJob) (js rows : List DelayedJob)
      → ((code : ℤ) × (run j ≡ ok code tt)
          × (run_all run (j ∷ js) rows
              ≡ run_all run js (if is_queued code then delete_row j.id rows else rows)))
        ⊎ ((e : Exception) × (run_all run (j ∷ js) rows ≡ throw e rows))
  unfolding run_all
  run_all-step j js rows = elim (outcome-cases (run j)) [
    | inl (code, _, e) ↦ inl (
      code,
      e,
      >>=-ok (λ t. after_run run j t (run j)) (λ _. run_all run js) rows (rw (e, after_run)),
    )
    | inr (x, _, e) ↦ inr (
      x,
      >>=-throw (λ t. after_run run j t (run j)) (λ _. run_all run js) rows (rw (e, after_run)),
    )
  ]

  deleted-keeps :
      (b : Bool) (id : ℕ) (rows : List DelayedJob) (r : DelayedJob)
      → Memᴰ r rows
      → (b ≡ true → r.id ≢ id)
      → Memᴰ r (if b then delete_row id rows else rows)
  deleted-keeps true id rows r m h = delete_row-other id rows r m (h refl)
  deleted-keeps false id rows r m h = m

  deleted-sublist :
      (b : Bool) (id : ℕ) (rows : List DelayedJob) (r : DelayedJob)
      → Memᴰ r (if b then delete_row id rows else rows)
      → Memᴰ r rows × (b ≡ true → r.id ≢ id)
  deleted-sublist true id rows r m = let (k, h) = delete_row-sublist id rows r m in (k, λ _. h)
  deleted-sublist false id rows r m = (m, λ e. cc)

  run_all-keeps :
      (js rows : List DelayedJob) (r : DelayedJob)
      → Memᴰ r rows
      → All (λ j. j.id ≡ r.id → ¬ IsAccepted j) js
      → Memᴰ r (left (run_all run js rows))
  run_all-keeps [] rows r m h = unfold run_all in m
  run_all-keeps (j ∷ js) rows r m (h, hs) = elim (run_all-step j js rows) [
    | inr (e, thrown) ↦ rw thrown m
    | inl (code, ran, rest) ↦ rw rest (
        run_all-keeps js _ r
          (deleted-keeps (is_queued code) j.id rows r m (λ q same. h (sym same) (code, ran, q))) hs)
  ]

  run_all-sublist :
      (js rows : List DelayedJob) (r : DelayedJob)
      → Memᴰ r (left (run_all run js rows))
      → Memᴰ r rows
  run_all-sublist [] rows r m = unfold run_all in m
  run_all-sublist (j ∷ js) rows r m = elim (run_all-step j js rows) [
    | inr (e, thrown) ↦ rw thrown at m
    | inl (code, ran, rest) ↦
        (deleted-sublist (is_queued code) j.id rows r (run_all-sublist js _ r (rw rest at m))).0
  ]

  run_all-removes :
      (js rows rows' : List DelayedJob) (r : DelayedJob)
      → run_all run js rows ≡ ok tt rows'
      → Memᴰ r rows'
      → All (λ j. j.id ≡ r.id → ¬ IsAccepted j) js
  run_all-removes [] rows rows' r e m = tt
  run_all-removes (j ∷ js) rows rows' r e m = elim (run_all-step j js rows) [
    | inr (x, thrown) ↦ cc (thrown, e)
    | inl (code, ran, rest) ↦ (
      λ same (c, ran', q).
          let one : code ≡ c = cc (ran, ran') in
          let m' : Memᴰ r
              (left (run_all run js (if is_queued code then delete_row j.id rows else rows))) =
            rw (sym rest ∙ e) m in
          (deleted-sublist (is_queued code) j.id rows r (run_all-sublist js _ r m')).1
            (ap is_queued one ∙ q) (sym same),
      run_all-removes js _ rows' r (sym rest ∙ e) m,
    )
  ]

  -- No job that waits is lost, whatever the SELECT gives and whatever the jobs do when they are run. A
  -- row that no selected job of its id has removed by being accepted, with a code below 300, is still
  -- there afterwards, also if the run of some job throws. No row comes in. And if nothing throws, then
  -- the rows that are still there are not those of accepted jobs.
  pub run_delayed_jobs_lem :
      (select : ℕ → List DelayedJob → List DelayedJob) (now : ℕ) (rows : List DelayedJob)
      (r : DelayedJob)
      → (Memᴰ r rows
          → All (λ j. j.id ≡ r.id → ¬ IsAccepted j) (select now rows)
          → Memᴰ r (left (run_delayed_jobs run select now rows)))
        × (Memᴰ r (left (run_delayed_jobs run select now rows)) → Memᴰ r rows)
        × ((rows' : List DelayedJob)
            → run_delayed_jobs run select now rows ≡ ok tt rows'
            → Memᴰ r rows'
            → All (λ j. j.id ≡ r.id → ¬ IsAccepted j) (select now rows))
  unfolding run_delayed_jobs
  run_delayed_jobs_lem select now rows r = (
    run_all-keeps (select now rows) rows r,
    run_all-sublist (select now rows) rows r,
    λ rows'. run_all-removes (select now rows) rows rows' r,
  )
