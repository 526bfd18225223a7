-- ===== src/Worker/Settle.antt =====
-- The end of a job's status in `run_job` of gearbox/worker/Worker.cc, for every backend of the
-- response's status that keeps the laws.
use gearbox.Base.{
  ◌∙◌, ℕ, ℤ, pos, ◌≡◌, ◌≢◌, refl, true, false, Bytes, codes, arith, sym, if◌then◌else◌, Bool-cases,
  inl, inr, ◌⊎◌, ge_nat, ==_iff, ◌==◌,
}
use gearbox.Errors.{Outcome, ok, throw}
use gearbox.Status.State.{completed, valid_state_transition}
use gearbox.Status.Backend.{Backend, Laws, fail, success, invalid_change}
use gearbox.Status.Backend.Ending.{Ended, SameEnd, fail_lem}
use gearbox.Worker.Env.{Reply, Env}
use gearbox.Worker.Run.{settle, close_status, end_events}

-- what `add_message` owes: it changes nothing else that a client reads
pub record KeepsEnd {W : Type 0} (env : Env W) (IsFresh : W → Type 0) : Type 0 where
  pub same : (m : Bytes) (w : W) → SameEnd env.copy w (env.add_message m w)
  pub fresh : (m : Bytes) (w : W) → IsFresh w → IsFresh (env.add_message m w)

-- the code that a status gets for the code of a reply
abbrev pub settled_code : ℤ → ℤ
settled_code code = if ge_nat code 300 then code else pos 0

success_as_fail :
    {S : Type 0} (b : Backend S) (now : ℕ) (s : S) → success b now s ≡ fail b now (pos 0) s
unfolding success fail
success_as_fail b now s = refl

-- the state that a call leaves, whether it returns or throws
abbrev pub left_by : {W : Type 0} → Outcome W (Unit {0}) → W
left_by (ok _ w) = w
left_by (throw _ w) = w

module _ {W : Type 0} (env : Env W) (IsFresh : W → Type 0) (laws : Laws env.copy IsFresh)
    (adds : KeepsEnd env IsFresh) (reply : Reply) (w : W) (fresh : IsFresh w) where
  -- what is left of the two ways to end, for the code `c` and an outcome `o`
  abbrev pub IsSettled : ℤ → Outcome W (Unit {0}) → Type 0
  IsSettled c o =
      ((valid_state_transition (env.copy.state w) completed ≡ true)
        × ((w' : W) × (o ≡ ok tt w') × Ended env.copy completed c w'))
      ⊎ ((valid_state_transition (env.copy.state w) completed ≡ false)
          × ((w' : W) × (o ≡ throw (invalid_change (env.copy.state w) (codes "COMPLETED")) w')
              × SameEnd env.copy w w'))

  fail-IsSettled :
      (c : ℤ) (now : ℕ) (v : W)
      → SameEnd env.copy w v
      → IsFresh v
      → IsSettled c (fail env.copy now c v)
  fail-IsSettled c now v same h =
      rw (sym same.state) (elim (fail_lem env.copy IsFresh laws now v h c) [
        | inl ended ↦ inl ended
        | inr (refused, (v', e, kept)) ↦ inr (
          refused,
          (
            v',
            e,
            record {
              state = kept.state ∙ same.state;
              progress = kept.progress ∙ same.progress;
              code = kept.code ∙ same.code;
            },
          ),
        )
      ])

  -- An ending of the status of the reply's job. A status that shows 100% is left alone. One that
  -- shows less and that may be COMPLETED is COMPLETED, with progress 100, and with the reply's code
  -- if that is 300 or more, else with code 0. One that shows less and may not be COMPLETED makes
  -- the error that names its state, and its state, progress and code stay.
  pub settle_lem :
      ((env.copy.progress w ≡ 100) × (settle env reply w ≡ ok tt w))
      ⊎ ((env.copy.progress w ≢ 100) × IsSettled (settled_code reply.code) (settle env reply w))
  unfolding settle
  settle_lem = elim (Bool-cases (env.copy.progress w == 100)) [
    | inl full ↦ inl ((==_iff _ _).0 full, rw full)
    | inr other ↦ inr (
      ground arith,
      elim (Bool-cases (ge_nat reply.code 300)) [
        | inl bad ↦
            rw (other, bad)
              (fail-IsSettled reply.code (env.now w) (env.add_message reply.message w)
                (adds.same _ _) (adds.fresh _ _ fresh))
        | inr good ↦
            rw (other, good, success_as_fail env.copy (env.now w) w)
              (fail-IsSettled (pos 0) (env.now w) w
                (record { state = refl; progress = refl; code = refl }) fresh)
      ],
    )
  ]

  -- The status of a job that shows less than 100% and may be COMPLETED is closed so; what the events
  -- of the end do comes after that, and their exceptions are lost.
  pub close_status_lem :
      env.copy.progress w ≢ 100
      → valid_state_transition (env.copy.state w) completed ≡ true
      → (w' : W) × Ended env.copy completed (settled_code reply.code) w'
        × (close_status env reply true w ≡ left_by (end_events env completed w'))
  unfolding close_status
  close_status_lem less v = elim settle_lem [
    | inl (full, _) ↦ absurd (less full)
    | inr (_, inr (refused, _)) ↦ cc
    | inr (_, inl (_, (w', e, ended))) ↦ (w', ended, rw (e, close_status, ended.state))
  ]
