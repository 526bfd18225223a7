-- ===== src/Job/Queue.antt =====
-- `JobManager::job_queue` of gearbox/job/JobManager.cc: the jobs of a configuration in batches, so that
-- every job runs after those that it requires. A job of a batch is its index in `nodes`, which
-- `make_nodes` makes of the configuration. boost's graph is the list of the in-edges of every vertex,
-- and its topological sort, which throws on a cycle, is the parameter `sort`.
pub mod Order
pub mod Once
pub mod Requires
pub mod Entries
pub mod Total
use gearbox.Base.{
  ℕ, zero, suc, ◌+◌, Bool, true, false, List, [], ◌∷◌, ◌++◌, map, Bytes, codes, bytes_eq, Option,
  none, some, ◌==◌, ltb, if◌then◌else◌, decimal,
}
use mathlib.Core.Option
use gearbox.Errors.{Exception, internal_server_error}
use gearbox.Json.Value.{Json, Items, Fields, find, empty}
use gearbox.Schema.{key_of, as_text, as_object}
use gearbox.Job.Nodes.{Node, Result, returned, raised, null_pointer, convert, make_nodes, ◌>>?◌}
use Json.{array}
use Items.{nil, cons}

-- the search for the index `k` of a required job
unfoldable pub index_of : Bytes → List Node → Option ℕ
index_of req [] = none
index_of req (n ∷ ns) =
    let later = Option.map suc (index_of req ns) in if bytes_eq req n.name then some 0 else later

abbrev pub undefined_dependency : Bytes → Bytes → Exception
undefined_dependency node req =
    internal_server_error
      (codes "Agent: '" ++ (node ++ (codes "' has undefined dependency '" ++ (req ++ codes "'"))))

abbrev pub cyclic_dependency : Bytes → Exception
cyclic_dependency node =
    internal_server_error (codes "Agent: '" ++ (node ++ codes "' defines a cyclic dependency!"))

-- the items of "require", of which there are none if it is no array
abbrev pub required : Option Json → Items
required (some (array xs)) = xs
required v = nil

module _ (context : List Bytes → Bytes) where
  -- the edges into the vertex `i` of a job, one for each job that it requires, from the item `n` on
  unfoldable pub add_requires : List Node → ℕ → Bytes → ℕ → Items → List ℕ → Result (List ℕ)
  add_requires all i node n nil es = returned es
  add_requires all i node n (cons r rs) es =
      convert (context (node ∷ codes "require" ∷ decimal n ∷ [])) (as_text r) >>? λ req.
      elim (index_of req all) [
        | none ↦ raised (undefined_dependency node req)
        | some k ↦
            let rest = add_requires all i node (suc n) rs (es ++ k ∷ []) in
            if i == k then raised (cyclic_dependency node) else rest
      ]

  -- the loop over all nodes; `sa[node]` is null for a name that is no key
  unfoldable pub build : Fields → List Node → ℕ → List Node → List (List ℕ) → Result (List (List ℕ))
  build sa all i [] graph = returned graph
  build sa all i (n ∷ ns) graph = elim (find n.name sa) [
    | none ↦ null_pointer
    | some v ↦ add_requires all i n.name 0 (required (key_of (codes "require") v)) [] >>? λ es.
        build sa all (suc i) ns (graph ++ es ∷ [])
  ]

-- the sources of the edges into `i`
unfoldable pub sources : List (List ℕ) → ℕ → List ℕ
sources [] i = []
sources (es ∷ graph) zero = es
sources (es ∷ graph) (suc i) = sources graph i

-- the largest count of the sources
unfoldable pub max_dist : (ℕ → ℕ) → List ℕ → ℕ → ℕ
max_dist count [] maxdist = maxdist
max_dist count (k ∷ ks) maxdist =
    max_dist count ks (if ltb maxdist (count k) then count k else maxdist)

-- `group[key].push_back(i)` on the ordered map `group`
unfoldable pub push : ℕ → ℕ → List (ℕ × List ℕ) → List (ℕ × List ℕ)
push key i [] = (key, i ∷ []) ∷ []
push key i ((m, is) ∷ group) =
    let later = push key i group in
    if key == m
    then (m, is ++ i ∷ []) ∷ group
    else if ltb key m
    then (key, i ∷ []) ∷ (m, is) ∷ group
    else (m, is) ∷ later

-- the count of a vertex when its turn has come, and its key in `group`
unfoldable pub level : (ℕ → ℕ) → List ℕ → ℕ
level count [] = 0
level count (k ∷ ks) = max_dist count (k ∷ ks) 0 + 1

unfoldable pub recount : (ℕ → ℕ) → ℕ → List ℕ → ℕ → ℕ
recount count i [] = count
recount count i (k ∷ ks) = λ j. if j == i then level count (k ∷ ks) else count j

-- the loop over the sorted vertices
unfoldable pub group_all : List (List ℕ) → List ℕ → (ℕ → ℕ) → List (ℕ × List ℕ) → List (ℕ × List ℕ)
group_all graph [] count group = group
group_all graph (i ∷ order) count group =
    let ks = sources graph i in
    group_all graph order (recount count i ks) (push (level count ks) i group)

-- the queue, by the order that `sort` finds
unfoldable pub batches :
    (List (List ℕ) → Option (List ℕ)) → Bytes → List (List ℕ) → Result (List (List ℕ))
batches sort not_a_dag graph = elim (sort graph) [
  | none ↦ raised (internal_server_error (codes "Cycle detected in configuration: " ++ not_a_dag))
  | some order ↦ returned (map (λ r. r.1) (group_all graph order (λ j. 0) []))
]

module _ (context : List Bytes → Bytes) (known : Bytes → Bool)
    (sort : List (List ℕ) → Option (List ℕ)) (not_a_dag : Bytes) where
  unfoldable pub job_queue : Json → Result (List (List ℕ))
  unfolding batches
  job_queue config =
      if empty config
      then returned []
      else convert (context []) (as_object config) >>? (λ sa.
        make_nodes context known sa
        >>? (λ ns. build context sa ns 0 ns [] >>? λ graph. batches sort not_a_dag graph))
