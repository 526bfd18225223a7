-- ===== src/Job/QueueRun/Untimed.antt =====
-- `job_queue_run` without timers, and that the polling does not read them.
use gearbox.Base.{
  ℕ, zero, suc, ◌<◌, ◌≤◌, Bool, true, false, not, inl, inr, ◌⊎◌, ◌≡◌, refl, sym, ◌∙◌, ap, List, [],
  ◌∷◌, ◌++◌, map, Bytes, Option, none, some, All, ◌==◌, is_zero, if◌then◌else◌, arith,
}
use gearbox.Errors.{Exception, Outcome, ok, throw}
use gearbox.Errors.Laws.{outcome-cases}
use gearbox.Job.QueueRun.{
  JobPtr, Response, Agents, State, lookup, returned_code, Polled, waits, completes, poll, poll_all,
}

-- what is polled, by name and handle
pub record Task : Type 0 where
  pub name : Bytes
  pub status : ℕ

abbrev pub task : Response → Task
task r = record { name = r.job.name; status = r.status }

-- the same without timers: a batch is started, and each of its jobs is polled until it is at 100%,
-- which ends the run if its code is not 0
module _ {W : Type 0} (a : Agents W) where
  abbrev pub start : List JobPtr → List Task → W → Outcome W (List Task)
  start [] ts w = ok ts w
  start (j ∷ js) ts w = elim (a.run j w) [
    | throw e w' ↦ throw e w'
    | ok h w' ↦ start js (ts ++ record { name = j.name; status = h } ∷ []) w'
  ]

  abbrev pub look : Task → W → Outcome W Polled
  look t w = elim (a.sync t.status w) [
    | throw e w' ↦ throw e w'
    | ok _ w' ↦
        if not (a.progress t.status w' == 100)
        then ok waits (a.usleep w')
        else if not (is_zero (a.code t.status w'))
        then throw (returned_code t.name (a.print_code (a.code t.status w'))) w'
        else ok completes w'
  ]

  abbrev pub await_all : ℕ → List Task → W → Option (Outcome W (Unit {0}))
  await_all fuel [] w = some (ok tt w)
  await_all zero (t ∷ ts) w = none
  await_all (suc fuel) (t ∷ ts) w = elim (look t w) [
    | throw e w' ↦ some (throw e w')
    | ok p w' ↦ elim p [ waits ↦ await_all fuel (t ∷ ts) w' | completes ↦ await_all fuel ts w' ]
  ]

  abbrev pub run_untimed : ℕ → List (List JobPtr) → W → Option (Outcome W (Unit {0}))
  run_untimed fuel [] w = some (ok tt w)
  run_untimed fuel (batch ∷ jobs) w = elim (start batch [] w) [
    | throw e w' ↦ some (throw e w')
    | ok ts w' ↦ elim (await_all fuel ts w') [
      | none ↦ none
      | some o ↦ elim o [ throw e v ↦ some (throw e v) | ok _ v ↦ run_untimed fuel jobs v ]
    ]
  ]

-- a result on the outside, in a state that keeps the rest
abbrev pub within : {W A : Type 0} → State W → Outcome W A → Outcome (State W) A
within s (ok x w) = ok x (record s { world = w })
within s (throw e w) = throw e (record s { world = w })

-- the keys of the timers are below an address, and the jobs of the responses are not
unfoldable pub IsTimed : ℕ → ℕ × ℕ × ℕ → Type 0
IsTimed base t = t.0 < base

unfoldable pub IsNew : ℕ → Response → Type 0
IsNew base r = base ≤ r.job.address

lookup-none :
    (base p : ℕ) (ts : List (ℕ × ℕ × ℕ)) → base ≤ p → All (IsTimed base) ts → lookup p ts ≡ none
unfolding lookup IsTimed
lookup-none base p [] le h = refl
lookup-none base p ((q, x, y) ∷ ts) le (less, h) =
    ground (lookup-none base p ts le h, le, less, arith)

within-if :
    {W A : Type 0} (s : State W) (b c : Bool) (x y z : Outcome W A)
    → (if b then within s x else if c then within s y else within s z)
      ≡ within s (if b then x else if c then y else z)
within-if s true c x y z = refl
within-if s false true x y z = refl
within-if s false false x y z = refl

module _ {W : Type 0} (a : Agents W) where
  look-throw :
      (t : Task) (e : Exception) (w v : W) → a.sync t.status w ≡ throw e v → look a t w ≡ throw e v
  look-throw t e w v thrown = rw (thrown, look) refl

  look-ok :
      (t : Task) (w v : W)
      → a.sync t.status w ≡ ok tt v
      → look a t w ≡ (
          if not (a.progress t.status v == 100)
          then ok waits (a.usleep v)
          else if not (is_zero (a.code t.status v))
          then throw (returned_code t.name (a.print_code (a.code t.status v))) v
          else ok completes v)
  look-ok t w v synced = rw (synced, look) refl

  poll-look :
      (r : Response) (s : State W)
      → lookup r.job.address s.timer ≡ none
      → poll a r s ≡ within s (look a (task r) s.world)
  unfolding poll
  poll-look r s absent = elim (outcome-cases (a.sync r.status s.world)) [
    | inr (e, w, thrown) ↦ rw (look-throw (task r) e s.world w thrown, thrown, poll) refl
    | inl (_, w, synced) ↦
        rw (look-ok (task r) s.world w synced, synced, absent, poll)
          (within-if s (not (a.progress r.status w == 100)) (not (is_zero (a.code r.status w))) _ _
            _)
  ]

  unfoldable pub within_all :
      State W → Option (Outcome W (Unit {0})) → Option (Outcome (State W) (Unit {0}))
  within_all s none = none
  within_all s (some o) = some (within s o)

  -- what follows a look, on both sides
  abbrev polled_on :
      ℕ
      → Response
      → List Response
      → Outcome (State W) Polled
      → Option (Outcome (State W) (Unit {0}))
  polled_on fuel r jq (throw e s) = some (throw e s)
  polled_on fuel r jq (ok waits s) = poll_all a fuel (r ∷ jq) s
  polled_on fuel r jq (ok completes s) = poll_all a fuel jq s

  abbrev looked_on : ℕ → Task → List Task → Outcome W Polled → Option (Outcome W (Unit {0}))
  looked_on fuel t ts (throw e w) = some (throw e w)
  looked_on fuel t ts (ok waits w) = await_all a fuel (t ∷ ts) w
  looked_on fuel t ts (ok completes w) = await_all a fuel ts w

  polled_on_lem :
      (fuel : ℕ) (r : Response) (jq : List Response) (o : Outcome (State W) Polled)
      → elim o [
        | throw e s ↦ some (throw e s)
        | ok p s ↦ elim p [ waits ↦ poll_all a fuel (r ∷ jq) s | completes ↦ poll_all a fuel jq s ]
      ]
        ≡ polled_on fuel r jq o
  polled_on_lem fuel r jq (throw e s) = refl
  polled_on_lem fuel r jq (ok waits s) = refl
  polled_on_lem fuel r jq (ok completes s) = refl

  looked_on_lem :
      (fuel : ℕ) (t : Task) (ts : List Task) (o : Outcome W Polled)
      → elim o [
        | throw e w ↦ some (throw e w)
        | ok p w ↦ elim p [
          | waits ↦ await_all a fuel (t ∷ ts) w
          | completes ↦ await_all a fuel ts w
        ]
      ]
        ≡ looked_on fuel t ts o
  looked_on_lem fuel t ts (throw e w) = refl
  looked_on_lem fuel t ts (ok waits w) = refl
  looked_on_lem fuel t ts (ok completes w) = refl

  on_within :
      (fuel : ℕ) (r : Response) (jq : List Response) (s : State W) (o : Outcome W Polled)
      → ((js : List Response) (w : W)
          → (js ≡ r ∷ jq) ⊎ (js ≡ jq)
          → poll_all a fuel js (record s { world = w })
            ≡ within_all s (await_all a fuel (map task js) w))
      → polled_on fuel r jq (within s o) ≡ within_all s (looked_on fuel (task r) (map task jq) o)
  unfolding within_all
  on_within fuel r jq s (throw e w) more = refl
  on_within fuel r jq s (ok waits w) more = more (r ∷ jq) w (inl refl)
  on_within fuel r jq s (ok completes w) more = more jq w (inr refl)

  pub poll_all-await_all :
      (base fuel : ℕ) (jq : List Response) (s : State W)
      → All (IsNew base) jq
      → All (IsTimed base) s.timer
      → poll_all a fuel jq s ≡ within_all s (await_all a fuel (map task jq) s.world)
  unfolding poll_all within_all IsNew
  poll_all-await_all base fuel [] s new timed = refl
  poll_all-await_all base zero (r ∷ jq) s new timed = refl
  poll_all-await_all base (suc fuel) (r ∷ jq) s (le, new) timed =
      let same = poll-look r s (lookup-none base r.job.address s.timer le timed) in
      let more : (js : List Response) (w : W)
          → (js ≡ r ∷ jq) ⊎ (js ≡ jq)
          → poll_all a fuel js (record s { world = w })
            ≡ within_all s (await_all a fuel (map task js) w) =
        λ js w which.
          poll_all-await_all base fuel js (record s { world = w })
            (elim which [ inl e ↦ rw e (le, new) | inr e ↦ rw e new ]) timed in
      polled_on_lem fuel r jq (poll a r s)
      ∙ (ap (polled_on fuel r jq) same
          ∙ (on_within fuel r jq s (look a (task r) s.world) more
              ∙ ap (within_all s)
                  (sym (looked_on_lem fuel (task r) (map task jq) (look a (task r) s.world)))))
