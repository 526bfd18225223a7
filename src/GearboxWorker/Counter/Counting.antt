-- ===== src/GearboxWorker/Counter/Counting.antt =====
-- How a counter of workers/gearbox/WorkerGearbox.cc counts the agents of a level.
use gearbox.Base.{
  ℕ, zero, suc, ℤ, pos, Bool, true, false, List, [], ◌∷◌, Bytes, bytes_eq, bytes_eq_iff, All,
  Option, none, some, if◌then◌else◌, ◌≡◌, refl, arith, Bool-cases, inl, inr, ap, ◌∙◌,
}
use gearbox.Errors.{Outcome, ok, throw}
use gearbox.Errors.Laws.{>>=-ok}
use gearbox.Worker.Env.{Response, success, continue}
use gearbox.GearboxWorker.World.{Watched}
use gearbox.GearboxWorker.Counter.{
  Files, put, make_counter, nothing, check_event, on_file, count_down, do_decrement,
}

-- an agent that has succeeded, or no agent
abbrev pub Passed : Option Watched → Type 0
Passed none = Unit {0}
Passed (some e) = (e.has_completed ≡ true) × (e.is_success ≡ true)

abbrev pub heard : Bool → (Files → List Response) → Outcome Files Response → List Response
heard mine rest (ok r files) = if mine then r ∷ rest files else rest files
heard mine rest (throw e files) = rest files

-- what the handler answers to the decrements of `id`, among those of other counters
unfoldable pub answers : Bytes → List (Bytes × Option Watched) → Files → List Response
unfolding do_decrement
answers id [] files = []
answers id ((j, event) ∷ js) files =
    heard (bytes_eq j id) (answers id js) (do_decrement nothing event (some j) files)

unfoldable pub occurrences : Bytes → List (Bytes × Option Watched) → ℕ
unfolding bytes_eq
occurrences id [] = 0
occurrences id ((j, event) ∷ js) = let n = occurrences id js in if bytes_eq j id then suc n else n

-- the answers to `k` decrements of a counter with `n + 1` agents to go
unfoldable pub expected : ℕ → ℕ → List Response
expected zero n = []
expected (suc k) zero = success ∷ expected k zero
expected (suc k) (suc n) = continue ∷ expected k n

check_event-Passed :
    (event : Option Watched) (files : Files) → Passed event → check_event event files ≡ ok tt files
unfolding check_event
check_event-Passed none files h = refl
check_event-Passed (some e) files (done, good) = simp (done, good)

do_decrement-Passed :
    (event : Option Watched) (j : Bytes) (files : Files)
    → Passed event
    → do_decrement nothing event (some j) files
      ≡ ok (count_down nothing j files).0 (count_down nothing j files).1
unfolding do_decrement
do_decrement-Passed event j files h =
    >>=-ok (check_event event) _ files (check_event-Passed event files h)

-- the counters of other ids stay
other_id :
    (id j : Bytes) (files : Files)
    → bytes_eq j id ≡ false
    → (o : Option ℤ) → (on_file nothing j o files).1 id ≡ files id
unfolding on_file
other_id id j files h none = refl
other_id id j files h (some n) = ground (arith, bytes_eq_iff id j, bytes_eq_iff j id)

module _ (id : Bytes) where
  bytes_eq_self : bytes_eq id id ≡ true
  bytes_eq_self = (bytes_eq_iff id id).1 refl

  answers-step :
      (j : Bytes) (event : Option Watched) (js : List (Bytes × Option Watched)) (files : Files)
      → Passed event
      → answers id ((j, event) ∷ js) files ≡ (
          let rest = answers id js (count_down nothing j files).1 in
          if bytes_eq j id then (count_down nothing j files).0 ∷ rest else rest)
  unfolding answers
  answers-step j event js files h =
      ap (heard (bytes_eq j id) (answers id js)) (do_decrement-Passed event j files h)

  count_down_gone :
      (files : Files) → files id ≡ none → count_down nothing id files ≡ (success, files)
  unfolding count_down
  count_down_gone files e = rw (e, on_file)

  count_down_last :
      (files : Files)
      → files id ≡ some (pos 1)
      → count_down nothing id files ≡ (success, put id none files)
  unfolding count_down
  count_down_last files e = rw (e, on_file)

  count_down_more :
      (n : ℕ) (files : Files)
      → files id ≡ some (pos (suc (suc n)))
      → count_down nothing id files ≡ (continue, put id (some (pos (suc n))) files)
  unfolding count_down
  count_down_more n files e = rw (e, on_file)

  count_down_other :
      (j : Bytes) (files : Files)
      → bytes_eq j id ≡ false
      → (count_down nothing j files).1 id ≡ files id
  unfolding count_down
  count_down_other j files h = other_id id j files h (files j)

  answers_gone :
      (js : List (Bytes × Option Watched)) (files : Files)
      → All (λ j. Passed j.1) js
      → files id ≡ none
      → answers id js files ≡ expected (occurrences id js) zero
  unfolding occurrences expected
  answers_gone [] files h e = unfold answers in refl
  answers_gone ((j, event) ∷ js) files (h, hs) e = elim (Bool-cases (bytes_eq j id)) [
    | inr other ↦
        answers-step j event js files h
        ∙ rw other (answers_gone js _ hs (count_down_other j files other ∙ e))
    | inl same ↦
        answers-step j event js files h
        ∙ rw ((bytes_eq_iff j id).0 same, bytes_eq_self, count_down_gone files e)
            (ap (λ l. success ∷ l) (answers_gone js files hs e))
  ]

  -- a decrement of the counter itself, where the rest is known
  count_one :
      (js : List (Bytes × Option Watched)) (k : ℕ)
      → ((files : Files) → files id ≡ none → answers id js files ≡ expected k zero)
      → ((n : ℕ) (files : Files)
          → files id ≡ some (pos (suc n))
          → answers id js files ≡ expected k n)
      → (n : ℕ) (files : Files) → files id ≡ some (pos (suc n))
      → (count_down nothing id files).0 ∷ answers id js (count_down nothing id files).1
        ≡ expected (suc k) n
  unfolding expected
  count_one js k gone counting zero files e =
      rw (count_down_last files e)
        (ap (λ l. success ∷ l) (gone (put id none files) (rw bytes_eq_self)))
  count_one js k gone counting (suc n) files e =
      rw (count_down_more n files e)
        (ap (λ l. continue ∷ l) (counting n (put id (some (pos (suc n))) files) (rw bytes_eq_self)))

  answers_counting :
      (js : List (Bytes × Option Watched)) (n : ℕ) (files : Files)
      → All (λ j. Passed j.1) js
      → files id ≡ some (pos (suc n))
      → answers id js files ≡ expected (occurrences id js) n
  unfolding occurrences expected
  answers_counting [] n files h e = unfold answers in refl
  answers_counting ((j, event) ∷ js) n files (h, hs) e = elim (Bool-cases (bytes_eq j id)) [
    | inr other ↦
        answers-step j event js files h
        ∙ rw other (answers_counting js n _ hs (count_down_other j files other ∙ e))
    | inl same ↦
        answers-step j event js files h
        ∙ rw ((bytes_eq_iff j id).0 same, bytes_eq_self)
            (count_one js (occurrences id js) (λ f. answers_gone js f hs)
              (λ m f. answers_counting js m f hs) n files e)
  ]

  -- A counter made for n agents answers CONTINUE to the first n - 1 decrements and SUCCESS to the n-th,
  -- which starts the next level, however the decrements of other counters come in between, as long as
  -- the agents succeed and no call of the system fails. To any further decrement it answers SUCCESS
  -- again.
  pub answers-make_counter :
      (js : List (Bytes × Option Watched)) (n : ℕ) (files : Files)
      → All (λ j. Passed j.1) js
      → answers id js (make_counter id (suc n) files) ≡ expected (occurrences id js) n
  unfolding make_counter
  answers-make_counter js n files h =
      answers_counting js n (put id (some (pos (suc n))) files) h (rw bytes_eq_self)
