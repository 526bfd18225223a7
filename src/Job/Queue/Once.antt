-- ===== src/Job/Queue/Once.antt =====
-- How often a job stands in the batches that `job_queue` makes.
use gearbox.Base.{
  ℕ, suc, ◌+◌, ◌≡◌, refl, inl, inr, Bool-cases, List, [], ◌∷◌, ◌++◌, map, ◌==◌, ==_iff, ltb,
  if◌then◌else◌, arith, sym, ap, subst,
}
use gearbox.Job.Queue.{push, level, recount, sources, group_all}
use gearbox.Job.Queue.Order.{Elem, IsSorted}

unfoldable pub times : ℕ → List ℕ → ℕ
times i [] = 0
times i (x ∷ xs) = let later = times i xs in if x == i then suc later else later

unfoldable pub times_in : ℕ → List (List ℕ) → ℕ
times_in i [] = 0
times_in i (batch ∷ batches) = times i batch + times_in i batches

times-append : (i j : ℕ) (xs : List ℕ) → times i (xs ++ j ∷ []) ≡ times i (j ∷ []) + times i xs
unfolding times
times-append i j [] = omega arith
times-append i j (x ∷ xs) = ground (arith, times-append i j xs)

times_in-push :
    (i key j : ℕ) (group : List (ℕ × List ℕ))
    → times_in i (map (λ r. r.1) (push key j group))
      ≡ times i (j ∷ []) + times_in i (map (λ r. r.1) group)
unfolding times_in push
times_in-push i key j [] = refl
times_in-push i key j ((m, is) ∷ group) = elim (Bool-cases (key == m)) [
  | inl same ↦ rw same (omega (arith, times-append i j is))
  | inr other ↦ rw other (elim (Bool-cases (ltb key m)) [
    | inl less ↦ rw less (omega arith)
    | inr more ↦ rw more (omega (arith, times_in-push i key j group))
  ])
]

times-cons : (i j : ℕ) (xs : List ℕ) → times i (j ∷ xs) ≡ times i (j ∷ []) + times i xs
unfolding times
times-cons i j xs = ground arith

pub times_in-group_all :
    (i : ℕ) (graph : List (List ℕ)) (order : List ℕ) (count : ℕ → ℕ) (group : List (ℕ × List ℕ))
    → times_in i (map (λ r. r.1) (group_all graph order count group))
      ≡ times i order + times_in i (map (λ r. r.1) group)
unfolding group_all times
times_in-group_all i graph [] count group = omega arith
times_in-group_all i graph (j ∷ order) count group =
    let ks = sources graph j in
    omega (
      arith,
      times_in-group_all i graph order (recount count j ks) (push (level count ks) j group),
      times_in-push i (level count ks) j group,
      times-cons i j order,
    )

-- what was done before does not come again
times_done :
    (graph : List (List ℕ)) (done order : List ℕ) (i : ℕ)
    → IsSorted graph done order
    → Elem i done
    → times i order ≡ 0
unfolding IsSorted times Elem
times_done graph done [] i s d = refl
times_done graph done (j ∷ order) i (new, before, s) d = elim (Bool-cases (j == i)) [
  | inl same ↦ absurd (new (subst (λ x. Elem x done) (sym ((==_iff j i).0 same)) d))
  | inr other ↦ rw other (times_done graph (j ∷ done) order i s (inr d))
]

-- what is in a sorted order is in it once
pub times_once :
    (graph : List (List ℕ)) (done order : List ℕ) (i : ℕ)
    → IsSorted graph done order
    → Elem i order
    → times i order ≡ 1
unfolding IsSorted times Elem
times_once graph done [] i s h = elim h [ ]
times_once graph done (j ∷ order) i (new, before, s) h = elim (Bool-cases (j == i)) [
  | inl same ↦
      rw same (ap suc (times_done graph (j ∷ done) order i s (inl (sym ((==_iff j i).0 same)))))
  | inr other ↦ rw other (elim h [
    | inl e ↦ absurd (ground (other, e, (==_iff j i).1, arith))
    | inr later ↦ times_once graph (j ∷ done) order i s later
  ])
]
