-- ===== src/Job/Queue/Order.antt =====
-- The order of the batches that `job_queue` makes.
use gearbox.Base.{
  ◌∙◌, sym, ap, subst, ℕ, suc, ◌<◌, ◌≤◌, ◌≡◌, ◌≢◌, refl, ◌⊎◌, inl, inr, Bool-cases, List, [], ◌∷◌,
  ◌++◌, ◌==◌, ==_iff, ltb, if◌then◌else◌, arith,
}
use gearbox.Job.Queue.{sources, max_dist, push, level, recount, group_all}

unfoldable pub Elem : {A : Type 0} → A → List A → Type 0
Elem i [] = ⊥
Elem i (x ∷ xs) = (i ≡ x) ⊎ Elem i xs

-- the job `i` stands in the batch of that key
unfoldable pub In : ℕ → ℕ → List (ℕ × List ℕ) → Type 0
In key i [] = ⊥
In key i ((m, is) ∷ group) = ((key ≡ m) × Elem i is) ⊎ In key i group

-- what the documentation of boost says of a sorted order: no vertex comes twice, and the sources of
-- its edges come before it (`done` is what came before)
unfoldable pub IsSorted : List (List ℕ) → List ℕ → List ℕ → Type 0
IsSorted graph done [] = Unit {0}
IsSorted graph done (i ∷ order) =
    (¬ Elem i done)
    × ((k : ℕ) → Elem k (sources graph i) → Elem k done)
    × IsSorted graph (i ∷ done) order

pub Elem-append : {A : Type 0} (i : A) (xs : List A) → Elem i (xs ++ i ∷ [])
unfolding Elem
Elem-append i [] = inl refl
Elem-append i (x ∷ xs) = inr (Elem-append i xs)

pub Elem-weaken : {A : Type 0} (i j : A) (xs : List A) → Elem i xs → Elem i (xs ++ j ∷ [])
unfolding Elem
Elem-weaken i j [] h = elim h [ ]
Elem-weaken i j (x ∷ xs) (inl e) = inl e
Elem-weaken i j (x ∷ xs) (inr h) = inr (Elem-weaken i j xs h)

In-push : (key i : ℕ) (group : List (ℕ × List ℕ)) → In key i (push key i group)
unfolding In push Elem
In-push key i [] = inl (refl, inl refl)
In-push key i ((m, is) ∷ group) = elim (Bool-cases (key == m)) [
  | inl same ↦ rw same (inl ((==_iff _ _).0 same, Elem-append i is))
  | inr other ↦ rw other (elim (Bool-cases (ltb key m)) [
    | inl less ↦ rw less (inl (refl, inl refl))
    | inr more ↦ rw more (inr (In-push key i group))
  ])
]

In-push_other :
    (key i m j : ℕ) (group : List (ℕ × List ℕ)) → In m j group → In m j (push key i group)
unfolding In push Elem
In-push_other key i m j [] h = elim h [ ]
In-push_other key i m j ((n, is) ∷ group) h = elim (Bool-cases (key == n)) [
  | inl same ↦ rw same (elim h [ inl (e, k) ↦ inl (e, Elem-weaken j i is k) | inr k ↦ inr k ])
  | inr other ↦ rw other (elim (Bool-cases (ltb key n)) [
    | inl less ↦ rw less (inr h)
    | inr more ↦ rw more (elim h [ inl k ↦ inl k | inr k ↦ inr (In-push_other key i m j group k) ])
  ])
]

pub Elem-split : {A : Type 0} (k j : A) (es : List A) → Elem k (es ++ j ∷ []) → Elem k es ⊎ (k ≡ j)
unfolding Elem
Elem-split k j [] (inl e) = inr e
Elem-split k j [] (inr h) = elim h [ ]
Elem-split k j (x ∷ es) (inl e) = inl (inl e)
Elem-split k j (x ∷ es) (inr h) = elim (Elem-split k j es h) [ inl d ↦ inl (inr d) | inr e ↦ inr e ]

In-push_only :
    (key i m j : ℕ) (group : List (ℕ × List ℕ))
    → In m j (push key i group)
    → In m j group ⊎ ((m ≡ key) × (j ≡ i))
unfolding In push Elem
In-push_only key i m j [] (inl (e, inl same)) = inr (e, same)
In-push_only key i m j [] (inl (e, inr h)) = elim h [ ]
In-push_only key i m j [] (inr h) = elim h [ ]
In-push_only key i m j ((n, is) ∷ group) h = elim (Bool-cases (key == n)) [
  | inl same ↦ elim (rw same at h) [
    | inl (e, k) ↦ elim (Elem-split j i is k) [
      | inl old ↦ inl (inl (e, old))
      | inr new ↦ inr (e ∙ sym ((==_iff _ _).0 same), new)
    ]
    | inr k ↦ inl (inr k)
  ]
  | inr other ↦ elim (Bool-cases (ltb key n)) [
    | inl less ↦ elim (rw (other, less) at h) [
      | inl (e, k) ↦ elim k [ inl new ↦ inr (e, new) | inr void ↦ elim void [ ] ]
      | inr k ↦ inl k
    ]
    | inr more ↦ elim (rw (other, more) at h) [
      | inl k ↦ inl (inl k)
      | inr k ↦ elim (In-push_only key i m j group k) [
        | inl old ↦ inl (inr old)
        | inr new ↦ inr new
      ]
    ]
  ]
]

-- the largest count is at least every count that was looked at
max_dist_ge : (count : ℕ → ℕ) (ks : List ℕ) (m : ℕ) → m ≤ max_dist count ks m
unfolding max_dist
max_dist_ge count [] m = omega arith
max_dist_ge count (k ∷ ks) m =
    ground (arith, max_dist_ge count ks (if ltb m (count k) then count k else m))

max_dist_ge_source :
    (count : ℕ → ℕ) (ks : List ℕ) (m k : ℕ) → Elem k ks → count k ≤ max_dist count ks m
unfolding max_dist Elem
max_dist_ge_source count [] m k h = elim h [ ]
max_dist_ge_source count (j ∷ ks) m k (inl e) =
    rw e (ground (arith, max_dist_ge count ks (if ltb m (count j) then count j else m)))
max_dist_ge_source count (j ∷ ks) m k (inr h) = max_dist_ge_source count ks _ k h

level-gt : (count : ℕ → ℕ) (ks : List ℕ) (k : ℕ) → Elem k ks → count k < level count ks
unfolding level Elem
level-gt count [] k h = elim h [ ]
level-gt count (j ∷ ks) k h = omega (arith, max_dist_ge_source count (j ∷ ks) 0 k h)

recount_self :
    (count : ℕ → ℕ) (i : ℕ) (ks : List ℕ) → count i ≡ 0 → recount count i ks i ≡ level count ks
unfolding recount level
recount_self count i [] e = e
recount_self count i (k ∷ ks) e = ground arith

recount_other :
    (count : ℕ → ℕ) (i : ℕ) (ks : List ℕ) (j : ℕ) → j ≢ i → recount count i ks j ≡ count j
unfolding recount
recount_other count i [] j h = refl
recount_other count i (k ∷ ks) j h = ground arith

-- the keys go up from `low`
unfoldable pub IsAscending : ℕ → List (ℕ × List ℕ) → Type 0
IsAscending low [] = Unit {0}
IsAscending low ((m, is) ∷ group) = (low ≤ m) × IsAscending (suc m) group

push-IsAscending :
    (low key i : ℕ) (group : List (ℕ × List ℕ))
    → low ≤ key
    → IsAscending low group
    → IsAscending low (push key i group)
unfolding IsAscending push
push-IsAscending low key i [] le h = (le, tt)
push-IsAscending low key i ((m, is) ∷ group) le (first, rest) = elim (Bool-cases (key == m)) [
  | inl same ↦ rw same (first, rest)
  | inr other ↦ rw other (elim (Bool-cases (ltb key m)) [
    | inl less ↦ rw less (le, (ground arith, rest))
    | inr more ↦ rw more (first, push-IsAscending (suc m) key i group (ground arith) rest)
  ])
]

pub group_all-IsAscending :
    (graph : List (List ℕ)) (order : List ℕ) (count : ℕ → ℕ) (group : List (ℕ × List ℕ))
    → IsAscending 0 group
    → IsAscending 0 (group_all graph order count group)
unfolding group_all
group_all-IsAscending graph [] count group h = h
group_all-IsAscending graph (i ∷ order) count group h =
    group_all-IsAscending graph order _ _ (push-IsAscending 0 _ i group (omega arith) h)

-- the jobs that are done stand in the batches of their counts, behind those that they require
pub record Placed (graph : List (List ℕ)) (done : List ℕ) (count : ℕ → ℕ)
    (group : List (ℕ × List ℕ)) : Type 0 where
  pub fresh : (i : ℕ) → ¬ Elem i done → count i ≡ 0
  pub place : (i : ℕ) → Elem i done → In (count i) i group
  pub only : (m i : ℕ) → In m i group → Elem i done × (m ≡ count i)
  pub later : (i k : ℕ) → Elem i done → Elem k (sources graph i) → (count k < count i) × Elem k done

place_one :
    (graph : List (List ℕ)) (done : List ℕ) (count : ℕ → ℕ) (group : List (ℕ × List ℕ)) (i : ℕ)
    → ¬ Elem i done
    → ((k : ℕ) → Elem k (sources graph i) → Elem k done)
    → Placed graph done count group
    → Placed graph
        (i ∷ done)
        (recount count i (sources graph i))
        (push (level count (sources graph i)) i group)
unfolding Elem
place_one graph done count group i new before h =
    let ks = sources graph i in
    let apart : (j : ℕ) → Elem j done → j ≢ i = λ j d e. new (subst (λ x. Elem x done) e d) in
    let same : (j : ℕ) → Elem j done → recount count i ks j ≡ count j =
      λ j d. recount_other count i ks j (apart j d) in
    let own : recount count i ks i ≡ level count ks = recount_self count i ks (h.fresh i new) in
    record {
      fresh = λ j n. recount_other count i ks j (λ e. n (inl e)) ∙ h.fresh j (λ d. n (inr d));
      place = λ j d. elim d [
        | inl e ↦ rw (e, own) (In-push (level count ks) i group)
        | inr d' ↦
            rw (same j d') (In-push_other (level count ks) i (count j) j group (h.place j d'))
      ];
      only = λ m j e. elim (In-push_only (level count ks) i m j group e) [
        | inl old ↦ let (d, at) = h.only m j old in (inr d, at ∙ sym (same j d))
        | inr (at, new) ↦ (inl new, at ∙ sym own ∙ ap (recount count i ks) (sym new))
      ];
      later = λ j k d s. elim d [
        | inl e ↦
            let s' : Elem k ks = subst (λ x. Elem k (sources graph x)) e s in
            rw (e, own, same k (before k s')) (level-gt count ks k s', inr (before k s'))
        | inr d' ↦ let (less, dk) = h.later j k d' s in rw (same k dk, same j d') (less, inr dk)
      ];
    }

move :
    (i j : ℕ) (done order : List ℕ)
    → Elem j done ⊎ Elem j (i ∷ order)
    → Elem j (i ∷ done) ⊎ Elem j order
unfolding Elem
move i j done order (inl d) = inl (inr d)
move i j done order (inr (inl e)) = inl (inl e)
move i j done order (inr (inr o)) = inr o

-- A group is made of every job of a sorted order, with the counts that the loop leaves.
pub place_all :
    (graph : List (List ℕ)) (done order : List ℕ) (count : ℕ → ℕ) (group : List (ℕ × List ℕ))
    → IsSorted graph done order
    → Placed graph done count group
    → (done' : List ℕ) × (count' : ℕ → ℕ) × ((i : ℕ) → Elem i done ⊎ Elem i order → Elem i done')
      × Placed graph done' count' (group_all graph order count group)
unfolding IsSorted Elem group_all
place_all graph done [] count group sorted h =
    (done, count, λ i d. elim d [ inl d' ↦ d' | inr e ↦ elim e [ ] ], h)
place_all graph done (i ∷ order) count group (new, before, sorted) h =
    let (done', count', all, h') =
      place_all graph (i ∷ done) order _ _ sorted
        (place_one graph done count group i new before h) in
    (done', count', λ j d. all j (move i j done order d), h')
