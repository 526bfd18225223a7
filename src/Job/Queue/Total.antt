-- ===== src/Job/Queue/Total.antt =====
-- The configurations for which `job_queue` returns.
use gearbox.Base.{
  ◌∙◌, sym, subst, ap, ℕ, zero, suc, ◌+◌, ◌<◌, ◌≡◌, refl, inl, inr, false, Bool-cases, List, [],
  ◌∷◌, ◌++◌, map, Bool, append_assoc, append-nil, Bytes, codes, Option, some, ◌==◌, ==_iff, arith,
}
use gearbox.Json.Value.{Json, Items, Fields, find, empty}
use gearbox.Json.Access.{item_at}
use gearbox.Schema.{key_of, as_text, as_object}
use gearbox.Job.Nodes.{Node, returned}
use gearbox.Job.Queue.{
  index_of, required, add_requires, build, sources, group_all, batches, job_queue,
}
use gearbox.Job.Queue.Order.{Elem, Elem-split}
use Json.{string, object}
use Fields.{end, field}
use Items.{nil, cons}
use gearbox.Job.Queue.Entries.{name_at, AllRun, NodesRun, make_nodes_lem}

module _ (context : List Bytes → Bytes) (known : Bytes → Bool) where
  module _ (sa : Fields) (rank : Bytes → ℕ) where
    module _ (all : List Node) where
      rank_at : ℕ → ℕ
      rank_at k = rank (name_at all k)

      add_step :
          (i : ℕ) (node : Bytes) (n : ℕ) (rs : Items) (es : List ℕ) (req : Bytes) (k : ℕ)
          → index_of req all ≡ some k
          → (i == k) ≡ false
          → add_requires context all i node n (cons (string req) rs) es
            ≡ add_requires context all i node (suc n) rs (es ++ k ∷ [])
      unfolding add_requires as_text
      add_step i node n rs es req k found apart = grind (arith, found, apart)

      build_step :
          (i : ℕ) (n : Node) (ns : List Node) (graph : List (List ℕ)) (v : Json) (es : List ℕ)
          → find n.name sa ≡ some v
          → add_requires context all i n.name 0 (required (key_of (codes "require") v)) []
            ≡ returned es
          → build context sa all i (n ∷ ns) graph
            ≡ build context sa all (suc i) ns (graph ++ es ∷ [])
      unfolding build
      build_step i n ns graph v es found made = rw (build, found, made) refl

      add_requires_total :
          (i : ℕ) (node : Bytes) (n : ℕ) (rs : Items) (es : List ℕ)
          → ((m : ℕ) (r : Json)
              → item_at m rs ≡ some r
              → (req : Bytes) × (r ≡ string req)
                × ((k : ℕ) × (index_of req all ≡ some k) × (rank_at k < rank_at i)))
          → ((k : ℕ) → Elem k es → rank_at k < rank_at i)
          → (es' : List ℕ) × (add_requires context all i node n rs es ≡ returned es')
            × ((k : ℕ) → Elem k es' → rank_at k < rank_at i)
      unfolding Elem item_at add_requires as_text
      add_requires_total i node n nil es lower below = (es, refl, below)
      add_requires_total i node n (cons r rs) es lower below =
          let (req, text, (k, found, less)) = lower 0 r refl in
          let apart : (i == k) ≡ false = elim (Bool-cases (i == k)) [
            | inl same ↦
                let e : rank_at k < rank_at k =
                  subst (λ x. rank_at k < rank_at x) ((==_iff i k).0 same) less in
                ground (arith, e)
            | inr other ↦ other
          ] in
          let both : (j : ℕ) → Elem j (es ++ k ∷ []) → rank_at j < rank_at i = λ j h.
            elim (Elem-split j k es h) [
              | inl d ↦ below j d
              | inr e ↦ subst (λ x. rank_at x < rank_at i) (sym e) less
            ] in
          let (es', made, done) =
            add_requires_total i node (suc n) rs (es ++ k ∷ []) (λ m x h. lower (suc m) x h) both in
          (
            es',
            ap (λ x. add_requires context all i node n (cons x rs) es) text
                ∙ add_step i node n rs es req k found apart
                ∙ made,
            done,
          )

      below_all :
          (i : ℕ) (es : List ℕ) (new : List (List ℕ))
          → ((k : ℕ) → Elem k es → rank_at k < rank_at i)
          → ((j k : ℕ) → Elem k (sources new j) → rank_at k < rank_at (suc i + j))
          → (j k : ℕ) → Elem k (sources (es ∷ new) j)
          → rank_at k < rank_at (i + j)
      unfolding sources
      below_all i es new below later zero k h =
          subst (λ x. rank_at k < rank_at x) (omega arith) (below k h)
      below_all i es new below later (suc j) k h =
          subst (λ x. rank_at k < rank_at x) (omega arith) (later j k h)

      build_total :
          ((req : Bytes) (w : Json)
            → find req sa ≡ some w
            → (k : ℕ) × (index_of req all ≡ some k) × (name_at all k ≡ req))
          → (i : ℕ) (ns : List Node) (graph : List (List ℕ))
          → ((j : ℕ) → name_at all (i + j) ≡ name_at ns j)
          → NodesRun context known sa rank ns
          → (new : List (List ℕ)) × (build context sa all i ns graph ≡ returned (graph ++ new))
            × ((j k : ℕ) → Elem k (sources new j) → rank_at k < rank_at (i + j))
      unfolding sources Elem build name_at rank_at
      build_total index i [] graph aligned run =
          ([], ap returned (sym (append-nil graph)), λ j k h. elim h [ ])
      build_total index i (n ∷ ns) graph aligned ((v, can), run) =
          let own : name_at all i ≡ n.name = ap (name_at all) (omega arith) ∙ aligned 0 in
          let (es, made, below) =
            add_requires_total i n.name 0 (required (key_of (codes "require") v)) []
              (λ m r e.
                let (req, text, (w, there), less) = can.wants m r e in
                let (k, at, named) = index req w there in
                (req, text, (k, at, rw (named, own) less)))
              (λ k h. elim h [ ]) in
          let (new, built, later) =
            build_total index (suc i) ns (graph ++ es ∷ [])
              (λ j. ap (name_at all) (omega arith) ∙ aligned (suc j)) run in
          (
            es ∷ new,
            build_step i n ns graph v es can.found made
                ∙ (built ∙ ap returned (append_assoc graph (es ∷ []) new)),
            below_all i es new below later,
          )

  -- `job_queue` returns for every configuration that can run. Let the sort be boost's: it returns an
  -- order for every graph without a cycle, one whose vertices have ranks that go up along its edges.
  -- Let every entry of the configuration be one that can run: its type and its method are texts and its
  -- timeout is a whole number, each if it is there; its job can be made (without a method it is known
  -- and its name can be read, with one its key is a URI) and has the key as its name, for a URI then
  -- in canonical form; and each item of its requirements is a text, the key of an entry of lower rank.
  -- Then `job_queue` returns batches.
  pub job_queue_total :
      (sort : List (List ℕ) → Option (List ℕ)) (not_a_dag : Bytes)
      → ((g : List (List ℕ)) (rank : ℕ → ℕ)
          → ((j k : ℕ) → Elem k (sources g j) → rank k < rank j)
          → (order : List ℕ) × (sort g ≡ some order))
      → (sa : Fields) (rank : Bytes → ℕ) → AllRun context known sa rank sa
      → (made : List (List ℕ)) × (job_queue context known sort not_a_dag (object sa)
          ≡ returned made)
  unfolding job_queue empty as_object
  job_queue_total sort not_a_dag spec end rank run = ([], refl)
  job_queue_total sort not_a_dag spec (field k v fs) rank run =
      let sa = field k v fs in
      let (ns, nodes, can, index) = make_nodes_lem context known sa rank sa run in
      let (g, built, below) =
        build_total sa rank ns index 0 ns [] (λ j. ap (name_at ns) (omega arith)) can in
      let (order, sorted) = spec g (rank_at sa rank ns) (λ j x h.
        subst (λ n. rank_at sa rank ns x < rank_at sa rank ns n) (omega arith) (below j x h)) in
      (map (λ r. r.1) (group_all g order (λ j. 0) []), rw (nodes, built, batches, sorted) refl)
