-- ===== src/Job/Queue/Requires.antt =====
-- The graph that `job_queue` builds, and what its batches keep of the requirements.
use gearbox.Base.{
  Bool, bytes_eq, ap, ◌∙◌, sym, subst, ℕ, zero, suc, ◌<◌, ◌≡◌, refl, inl, inr, Bool-cases,
  Option-cases, List, [], ◌∷◌, ◌++◌, map, codes, append_assoc, append-nil, Bytes, Option, none,
  some, ◌==◌, arith, length,
}
use gearbox.Json.Value.{Json, Items, Fields, find, empty}
use gearbox.Json.Access.{item_at}
use gearbox.Schema.{key_of, as_text, as_object}
use gearbox.Job.Nodes.{Node, returned, convert, make_nodes, ran}
use gearbox.Job.Queue.{
  index_of, required, add_requires, build, sources, group_all, batches, job_queue,
}
use gearbox.Job.Queue.Order.{
  Elem, Elem-append, Elem-weaken, In, IsSorted, IsAscending, Placed, place_all,
  group_all-IsAscending,
}
use gearbox.Job.Queue.Once.{times_in, times_in-group_all, times_once}
use Json.{undef, bool, int, double, string, object, array}
use Fields.{field}
use Items.{nil, cons}

-- the list names `req`
abbrev pub Names : Items → Bytes → Type 0
Names rs req = (m : ℕ) × (item_at m rs ≡ some (string req))

-- the job with the index `i` requires the name `req`: so says the entry of its name
unfoldable pub Requires : Fields → List Node → ℕ → Bytes → Type 0
Requires sa [] i req = ⊥
Requires sa (n ∷ ns) zero req =
    (v : Json) × (find n.name sa ≡ some v) × Names (required (key_of (codes "require") v)) req
Requires sa (n ∷ ns) (suc i) req = Requires sa ns i req

convert-as_text :
    (ctx : Bytes) (r : Json) (req : Bytes) → convert ctx (as_text r) ≡ returned req → r ≡ string req
unfolding as_text
convert-as_text ctx (string s) req h = cc
convert-as_text ctx undef req h = cc
convert-as_text ctx (bool b) req h = cc
convert-as_text ctx (int n) req h = cc
convert-as_text ctx (double d) req h = cc
convert-as_text ctx (object fs) req h = cc
convert-as_text ctx (array xs) req h = cc

-- what the edges of a job come from
abbrev Covers : List Node → Items → List ℕ → List ℕ → Type 0
Covers all rs es es' =
    ((k : ℕ) → Elem k es → Elem k es')
    × ((req : Bytes) → Names rs req → (k : ℕ) × (index_of req all ≡ some k) × Elem k es')

module _ (context : List Bytes → Bytes) (all : List Node) where
  -- a call that returns has found the first item
  add_one :
      (i : ℕ) (node : Bytes) (n : ℕ) (r : Json) (rs : Items) (es es' : List ℕ)
      → add_requires context all i node n (cons r rs) es ≡ returned es'
      → (req : Bytes) × (k : ℕ) × (r ≡ string req)
        × (index_of req all ≡ some k)
        × (add_requires context all i node (suc n) rs (es ++ k ∷ []) ≡ returned es')
  unfolding add_requires
  add_one i node n r rs es es' h =
      let (req, read, h') = ran (convert _ (as_text r)) _ es' h in
      elim (Option-cases (index_of req all)) [
        | inl missing ↦ let no_edge = rw missing at h' in cc
        | inr (k, found) ↦ elim (Bool-cases (i == k)) [
          | inl cyclic ↦ let no_edge = rw (found, cyclic) at h' in cc
          | inr fine ↦ (req, k, convert-as_text _ r req read, found, rw (found, fine) at h')
        ]
      ]

  add_requires_lem :
      (i : ℕ) (node : Bytes) (n : ℕ) (rs : Items) (es es' : List ℕ)
      → add_requires context all i node n rs es ≡ returned es'
      → Covers all rs es es'
  unfolding Elem item_at add_requires
  add_requires_lem i node n nil es es' h =
      let same : es ≡ es' = cc in (λ k d. subst (Elem k) same d, λ req (m, e). cc)
  add_requires_lem i node n (cons r rs) es es' h =
      let (req, k, text, found, h') = add_one i node n r rs es es' h in
      let (kept, covered) = add_requires_lem i node (suc n) rs (es ++ k ∷ []) es' h' in
      (
        λ j d. kept j (Elem-weaken j k es d),
        λ req' (m, e).
            elim m
                as (λ m.
                  item_at m (cons r rs) ≡ some (string req')
                  → (j : ℕ) × (index_of req' all ≡ some j) × Elem j es') [
                    | zero ↦ λ e'.
                        let same : req ≡ req' = cc in
                        (k, ap (λ x. index_of x all) (sym same) ∙ found, kept k (Elem-append k es))
                    | suc m' ↦ λ e'. covered req' (m', e')
                  ]
              e,
      )

  build_one :
      (sa : Fields) (i : ℕ) (n : Node) (ns : List Node) (graph graph' : List (List ℕ))
      → build context sa all i (n ∷ ns) graph ≡ returned graph'
      → (v : Json) × (es : List ℕ) × (find n.name sa ≡ some v)
        × (add_requires context all i n.name 0 (required (key_of (codes "require") v)) []
            ≡ returned es)
        × (build context sa all (suc i) ns (graph ++ es ∷ []) ≡ returned graph')
  unfolding build
  build_one sa i n ns graph graph' h = elim (Option-cases (find n.name sa)) [
    | inl missing ↦ let no_entry = rw (missing, build) at h in cc
    | inr (v, found) ↦
        let (es, made, h') =
          ran (add_requires context all i n.name 0 (required (key_of (codes "require") v)) []) _
            graph' (rw (found, build) at h) in
        (v, es, found, made, h')
  ]

  build_lem :
      (sa : Fields) (i : ℕ) (ns : List Node) (graph graph' : List (List ℕ))
      → build context sa all i ns graph ≡ returned graph'
      → (new : List (List ℕ)) × (graph' ≡ graph ++ new)
        × (length new ≡ length ns)
        × ((j : ℕ) (req : Bytes)
            → Requires sa ns j req
            → (k : ℕ) × (j < length ns) × (index_of req all ≡ some k) × Elem k (sources new j))
  unfolding Requires sources build
  build_lem sa i [] graph graph' h =
      let same : graph' ≡ graph = cc in
      ([], same ∙ sym (append-nil graph), refl, λ j req r. elim r [ ])
  build_lem sa i (n ∷ ns) graph graph' h =
      let (v, es, found, made, h') = build_one sa i n ns graph graph' h in
      let (new, all_new, size, later) = build_lem sa (suc i) ns (graph ++ es ∷ []) graph' h' in
      (
        es ∷ new,
        all_new ∙ append_assoc graph (es ∷ []) new,
        ap suc size,
        λ j req r.
            elim j
                as (λ j.
                  Requires sa (n ∷ ns) j req
                  → (k : ℕ) × (j < suc (length ns))
                    × (index_of req all ≡ some k)
                    × Elem k (sources (es ∷ new) j)) [
                      | zero ↦ λ (w, at, names).
                          let same : w ≡ v = cc in
                          let (k, e, s) =
                            (add_requires_lem i n.name 0 (required (key_of (codes "require") v)) []
                                es made).1
                              req
                              (subst (λ x. Names (required (key_of (codes "require") x)) req) same
                                names) in
                          (k, omega arith, e, s)
                      | suc j' ↦ λ r'.
                          let (k, less, e, s) = later j' req r' in (k, omega (arith, less), e, s)
                    ]
              r,
      )

nothing-Placed : (graph : List (List ℕ)) → Placed graph [] (λ j. 0) []
unfolding Elem In
nothing-Placed graph = record {
  fresh = λ i h. refl;
  place = λ i h. elim h [ ];
  only = λ m i h. elim h [ ];
  later = λ i k h. elim h [ ];
}

-- What a queue of batches is: the groups of ascending keys, with each job in one batch, and there once,
-- and those that it requires in batches before it.
pub record IsQueue (sa : Fields) (ns : List Node) (made : List (List ℕ)) : Type 0 where
  pub group : List (ℕ × List ℕ)
  pub key : ℕ → ℕ
  pub grouped : made ≡ map (λ r. r.1) group
  pub ascending : IsAscending 0 group
  pub placed : (i : ℕ) → i < length ns → In (key i) i group
  pub once : (i : ℕ) → i < length ns → times_in i made ≡ 1
  pub only : (m i : ℕ) → In m i group → m ≡ key i
  pub before :
      (i : ℕ) (req : Bytes)
      → Requires sa ns i req
      → (k : ℕ) × (index_of req ns ≡ some k) × (i < length ns) × (k < length ns) × (key k < key i)

index_of-lt : (req : Bytes) (ns : List Node) (k : ℕ) → index_of req ns ≡ some k → k < length ns
unfolding index_of
index_of-lt req [] k h = cc
index_of-lt req (n ∷ ns) k h = elim (Bool-cases (bytes_eq req n.name)) [
  | inl same ↦
      let found : some 0 ≡ some k = rw same at h in let first : 0 ≡ k = cc in omega (arith, first)
  | inr other ↦ elim (Option-cases (index_of req ns)) [
    | inl missing ↦ let nothing : none ≡ some k = rw (other, missing) at h in cc
    | inr (j, later) ↦
        let found : some (suc j) ≡ some k = rw (other, later) at h in
        let next : suc j ≡ k = cc in omega (arith, next, index_of-lt req ns j later)
  ]
]

module _ (context : List Bytes → Bytes) (known : Bytes → Bool)
    (sort : List (List ℕ) → Option (List ℕ)) (not_a_dag : Bytes) where
  batches_made :
      (g made : List (List ℕ))
      → batches sort not_a_dag g ≡ returned made
      → (order : List ℕ) × (sort g ≡ some order)
        × (made ≡ map (λ r. r.1) (group_all g order (λ j. 0) []))
  unfolding batches
  batches_made g made h = elim (Option-cases (sort g)) [
    | inl cyclic ↦ let none_made = rw (cyclic, batches) at h in cc
    | inr (order, sorted) ↦
        let same : returned (map (λ r. r.1) (group_all g order (λ j. 0) [])) ≡ returned made =
          rw (sorted, batches) at h in
        (order, sorted, cc)
  ]

  queue_made :
      (k : Bytes) (v : Json) (fs : Fields) (ns : List Node) (made : List (List ℕ))
      → make_nodes context known (field k v fs) ≡ returned ns
      → job_queue context known sort not_a_dag (object (field k v fs)) ≡ returned made
      → (g : List (List ℕ)) × (build context (field k v fs) ns 0 ns [] ≡ returned g)
        × (batches sort not_a_dag g ≡ returned made)
  unfolding job_queue empty as_object
  queue_made k v fs ns made nodes h =
      ran (build context (field k v fs) ns 0 ns []) (batches sort not_a_dag) made (rw nodes at h)

  -- What is required comes first. Let the sort be boost's: an order that it returns has every vertex,
  -- none of them twice, and the sources of the edges come before their targets. If `job_queue` returns
  -- for a configuration that is not empty, then its batches are groups with ascending keys; each job
  -- of the configuration is in one batch, and in it once; and for every name that the entry of a job
  -- requires there is the job of that name, in a batch with a smaller key than the batch of the job that
  -- requires it.
  pub job_queue_lem :
      ((g : List (List ℕ)) (order : List ℕ)
        → sort g ≡ some order
        → IsSorted g [] order × ((i : ℕ) → i < length g → Elem i order))
      → (k : Bytes) (v : Json) (fs : Fields) (ns : List Node) (made : List (List ℕ))
      → make_nodes context known (field k v fs) ≡ returned ns
      → job_queue context known sort not_a_dag (object (field k v fs)) ≡ returned made
      → IsQueue (field k v fs) ns made
  unfolding IsAscending times_in
  job_queue_lem spec k v fs ns made nodes h =
      let (g, built, h') = queue_made k v fs ns made nodes h in
      let (order, sorted, grouped) = batches_made g made h' in
      let (new, all_new, size, covered) = build_lem context ns (field k v fs) 0 ns [] g built in
      let (once, every) = spec g order sorted in
      let (done, key, all, placed) = place_all g [] order (λ j. 0) [] once (nothing-Placed g) in
      let in_order : (i : ℕ) → i < length ns → Elem i order =
        λ i less. every i (subst (λ n. i < n) (sym (ap length all_new ∙ size)) less) in
      record {
        group = group_all g order (λ j. 0) [];
        key = key;
        grouped = grouped;
        ascending = group_all-IsAscending g order (λ j. 0) [] tt;
        placed = λ i less. placed.place i (all i (inr (in_order i less)));
        once = λ i less.
            ap (times_in i) grouped
            ∙ (times_in-group_all i g order (λ j. 0) []
                ∙ omega (arith, times_once g [] order i once (in_order i less)));
        only = λ m i e. (placed.only m i e).1;
        before = λ i req r.
            let (j, less, found, s) = covered i req r in
            let s' : Elem j (sources g i) = subst (λ x. Elem j (sources x i)) (sym all_new) s in
            (
              j,
              found,
              less,
              index_of-lt req ns j found,
              (placed.later i j (all i (inr (in_order i less))) s').0,
            );
      }
