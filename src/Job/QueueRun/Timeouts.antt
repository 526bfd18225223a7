-- ===== src/Job/QueueRun/Timeouts.antt =====
-- `job_queue_run` against the description of it that has no timers.
use gearbox.Base.{
  ℕ, ◌+◌, ◌<◌, ◌≤◌, Bool-cases, inl, inr, ◌≡◌, refl, sym, ◌∙◌, ap, List, [], ◌∷◌, ◌++◌, map, Option,
  none, some, All, All-append, ◌==◌, arith,
}
use gearbox.Errors.{Exception, Outcome, ok, throw}
use gearbox.Errors.Laws.{outcome-cases}
use gearbox.Job.QueueRun.{
  JobPtr, Response, Agents, State, clone_job, run_agent, start_timer, dispatch, poll_all,
  run_batches, job_queue_run,
}
use gearbox.Job.QueueRun.Untimed.{
  Task, task, start, await_all, run_untimed, within_all, IsTimed, IsNew, poll_all-await_all,
}

module _ {W : Type 0} (a : Agents W) where
  -- the outside that a run leaves
  unfoldable pub outside : Option (Outcome (State W) (Unit {0})) → Option (Outcome W (Unit {0}))
  outside none = none
  outside (some (ok x s)) = some (ok x s.world)
  outside (some (throw e s)) = some (throw e s.world)

  map_snoc :
      (jq : List Response) (r : Response) → map task (jq ++ r ∷ []) ≡ map task jq ++ task r ∷ []
  map_snoc [] r = refl
  map_snoc (x ∷ jq) r = ap (λ ts. task x ∷ ts) (map_snoc jq r)

  -- a batch is started alike, and what is then polled is new, and the timers are not
  abbrev Matches : ℕ → Outcome (State W) (List Response) → Outcome W (List Task) → Type 0
  Matches base (throw e s) o = (o ≡ throw e s.world)
  Matches base (ok jq s) o =
      (o ≡ ok (map task jq) s.world)
      × All (IsNew base) jq
      × All (IsTimed base) s.timer
      × (base ≤ s.free)

  record IsReady (base : ℕ) (s : State W) : Type 0 where
    timed : All (IsTimed base) s.timer
    above : base ≤ s.free

  start_timer-IsReady :
      (base : ℕ) (j : JobPtr) (s : State W)
      → j.address < base
      → IsReady base s
      → IsReady base (start_timer a j s) × ((start_timer a j s).world ≡ s.world)
  unfolding start_timer IsTimed
  start_timer-IsReady base j s less h = elim (Bool-cases (j.timeout == 0)) [
    | inl never ↦ rw never (h, refl)
    | inr timed ↦ rw timed (record { timed = (less, h.timed); above = h.above }, refl)
  ]

  dispatch-throw :
      (j : JobPtr) (js : List JobPtr) (jq : List Response) (s : State W) (e : Exception) (w : W)
      → a.run j (start_timer a j s).world ≡ throw e w
      → dispatch a (j ∷ js) jq s ≡ throw e (record (start_timer a j s) { world = w })
  unfolding dispatch run_agent
  dispatch-throw j js jq s e w thrown = rw (thrown, dispatch, run_agent) refl

  -- the response to a job that was run in a state, and the state after it
  abbrev answered : JobPtr → ℕ → State W → Response
  answered j h s = record { job = record j { address = s.free }; status = h }

  abbrev ran : W → State W → State W
  ran w s = record s { world = w; free = s.free + 1 }

  dispatch-ok :
      (j : JobPtr) (js : List JobPtr) (jq : List Response) (s : State W) (h : ℕ) (w : W)
      → a.run j (start_timer a j s).world ≡ ok h w
      → dispatch a (j ∷ js) jq s
        ≡ dispatch a js (jq ++ answered j h (start_timer a j s) ∷ []) (ran w (start_timer a j s))
  unfolding dispatch run_agent clone_job
  dispatch-ok j js jq s h w ended = rw (ended, dispatch, run_agent) refl

  start-throw :
      (j : JobPtr) (js : List JobPtr) (ts : List Task) (w v : W) (e : Exception)
      → a.run j w ≡ throw e v
      → start a (j ∷ js) ts w ≡ throw e v
  start-throw j js ts w v e thrown = rw (thrown, start) refl

  start-ok :
      (j : JobPtr) (js : List JobPtr) (ts : List Task) (w v : W) (h : ℕ)
      → a.run j w ≡ ok h v
      → start a (j ∷ js) ts w ≡ start a js (ts ++ record { name = j.name; status = h } ∷ []) v
  start-ok j js ts w v h ended = rw (ended, start) refl

  unfoldable pub IsGiven : ℕ → JobPtr → Type 0
  IsGiven base j = j.address < base

  dispatch-Matches :
      (base : ℕ) (js : List JobPtr) (jq : List Response) (s : State W)
      → All (IsGiven base) js
      → All (IsNew base) jq
      → IsReady base s
      → Matches base (dispatch a js jq s) (start a js (map task jq) s.world)
  unfolding dispatch IsGiven IsNew
  dispatch-Matches base [] jq s given new h = (refl, new, h.timed, h.above)
  dispatch-Matches base (j ∷ js) jq s (less, given) new h =
      let (ready, same) = start_timer-IsReady base j s less h in
      let s1 = start_timer a j s in
      elim (outcome-cases (a.run j s1.world)) [
        | inr (e, w, thrown) ↦
            rw (dispatch-throw j js jq s e w thrown)
              (start-throw j js (map task jq) s.world w e (ap (a.run j) (sym same) ∙ thrown))
        | inl (n, w, ended) ↦
            rw
              (
                dispatch-ok j js jq s n w ended,
                start-ok j js (map task jq) s.world w n (ap (a.run j) (sym same) ∙ ended),
                sym (map_snoc jq (answered j n s1)),
              )
              (dispatch-Matches base js (jq ++ answered j n s1 ∷ []) (ran w s1) given
                (All-append (IsNew base) jq _ new (ready.above, tt))
                (record { timed = ready.timed; above = ground (arith, ready.above) }))
      ]

  -- a run goes on alike
  batch_on :
      (fuel : ℕ) (jobs : List (List JobPtr)) (s : State W) (r : Option (Outcome W (Unit {0})))
      → ((v : W)
          → outside (run_batches a fuel jobs (record s { world = v })) ≡ run_untimed a fuel jobs v)
      → outside (elim (within_all a s r) [
        | none ↦ none
        | some o ↦ elim o [ throw e t ↦ some (throw e t) | ok _ t ↦ run_batches a fuel jobs t ]
      ])
        ≡ elim r [
          | none ↦ none
          | some o ↦ elim o [ throw e v ↦ some (throw e v) | ok _ v ↦ run_untimed a fuel jobs v ]
        ]
  unfolding outside within_all
  batch_on fuel jobs s none more = refl
  batch_on fuel jobs s (some (throw e v)) more = refl
  batch_on fuel jobs s (some (ok _ v)) more = more v

  batch_started :
      (base fuel : ℕ) (jobs : List (List JobPtr)) (d : Outcome (State W) (List Response))
      (o : Outcome W (List Task))
      → Matches base d o
      → ((s : State W)
          → IsReady base s
          → outside (run_batches a fuel jobs s) ≡ run_untimed a fuel jobs s.world)
      → outside (elim d [
        | throw e s ↦ some (throw e s)
        | ok jq s ↦ elim (poll_all a fuel jq s) [
          | none ↦ none
          | some o ↦ elim o [ throw e t ↦ some (throw e t) | ok _ t ↦ run_batches a fuel jobs t ]
        ]
      ])
        ≡ elim o [
          | throw e w ↦ some (throw e w)
          | ok ts w ↦ elim (await_all a fuel ts w) [
            | none ↦ none
            | some o ↦ elim o [ throw e v ↦ some (throw e v) | ok _ v ↦ run_untimed a fuel jobs v ]
          ]
        ]
  unfolding outside
  batch_started base fuel jobs (throw e s) o m more = rw m refl
  batch_started base fuel jobs (ok jq s) o (m, new, timed, above) more =
      rw (m, poll_all-await_all a base fuel jq s new timed)
        (batch_on fuel jobs s (await_all a fuel (map task jq) s.world)
          (λ v. more (record s { world = v }) (record { timed = timed; above = above })))

  run_batches-untimed :
      (base fuel : ℕ) (jobs : List (List JobPtr)) (s : State W)
      → All (All (IsGiven base)) jobs
      → IsReady base s
      → outside (run_batches a fuel jobs s) ≡ run_untimed a fuel jobs s.world
  unfolding run_batches outside
  run_batches-untimed base fuel [] s given h = refl
  run_batches-untimed base fuel (batch ∷ jobs) s (now, given) h =
      batch_started base fuel jobs (dispatch a batch [] s) (start a batch [] s.world)
        (dispatch-Matches base batch [] s now tt h)
        (λ t. run_batches-untimed base fuel jobs t given)

  -- `job_queue_run` never reads a timeout: if the jobs are pointers to what was allocated before, then
  -- for every fuel it ends, throws or still polls exactly as the same run without timers does, and
  -- leaves the outside as that does. The timers are kept under the pointers of the batch, and looked up
  -- under those of the responses, which are new.
  pub job_queue_run-untimed :
      (fuel : ℕ) (jobs : List (List JobPtr)) (w : W) (free : ℕ)
      → All (All (IsGiven free)) jobs
      → outside (job_queue_run a fuel jobs w free) ≡ run_untimed a fuel jobs w
  unfolding job_queue_run
  job_queue_run-untimed fuel jobs w free given =
      run_batches-untimed free fuel jobs (record { world = w; free = free; timer = [] }) given
        (record { timed = tt; above = omega arith })
