-- ===== src/Tests/Job.antt =====
-- The theorems on jobs at concrete inputs.
use gearbox.Base.{
  length, Bool, true, starts_with, zero, suc, ◌+◌, pos, ltb, sym, Bool-cases, bytes_eq_iff,
  if◌then◌else◌, ℕ, ◌<◌, ◌≡◌, refl, List, [], ◌∷◌, Bytes, bytes_eq, codes, Option, some, none, inl,
  inr, arith,
}
use gearbox.Errors.{ok}
use gearbox.Job.Name.{
  JobImpl, set_name, set_parts, set_resource, set_job_from_name, operation_of, is_version,
}
use gearbox.Job.Name.Parts.{job_name, set_job_from_name_lem}
use gearbox.Job.Queue.{
  index_of, sources, job_queue, build, add_requires, group_all, push, level, recount, max_dist,
  batches,
}
use gearbox.Json.Value.{Json, Fields, Items, find, empty}
use gearbox.Json.Access.{item_at}
use gearbox.Schema.{key_of, as_text, as_integer, as_object, to_i32, to_u32}
use gearbox.Uri.Text.{cut_at, cut_last, cut_scheme}
use gearbox.Worker.Env.{async}
use gearbox.Job.Nodes.{
  Node, returned, named_job, make_nodes, make_node, start_node, text_at, timeout_at,
}
use gearbox.Job.Queue.Entries.{CanRun}
use gearbox.Job.Queue.Order.{Elem, IsSorted}
use gearbox.Job.Queue.Requires.{IsQueue, job_queue_lem}
use gearbox.Job.Queue.Total.{job_queue_total}
use gearbox.Job.QueueRun.{JobPtr, Agents, job_queue_run}
use gearbox.Job.QueueRun.Untimed.{run_untimed}
use gearbox.Job.QueueRun.Timeouts.{outside, IsGiven, job_queue_run-untimed}
use Json.{int, string, object, array}
use Fields.{end, field}
use Items.{nil, cons}

-- two agents, the second of which requires the first
abbrev builds : Bytes
builds = codes "do_make_build_host_v1"

abbrev deploys : Bytes
deploys = codes "do_run_deploy_host_v1"

abbrev build_entry : Json
build_entry = object (field (codes "timeout") (int (pos 30)) end)

abbrev deploy_entry : Json
deploy_entry = object (field (codes "require") (array (cons (string builds) nil)) end)

abbrev config : Fields
config = field builds build_entry (field deploys deploy_entry end)

abbrev nodes : List Node
nodes =
    record { name = builds; type = async; timeout = pos 30 }
    ∷ record { name = deploys; type = async; timeout = pos 0 }
    ∷ []

abbrev no_context : List Bytes → Bytes
no_context path = []

abbrev all_known : Bytes → Bool
all_known name = true

-- a sort that knows the graph of these agents
abbrev sort_pair : List (List ℕ) → Option (List ℕ)
sort_pair ([] ∷ es ∷ []) = if bytes_eq es (0 ∷ []) then some (0 ∷ 1 ∷ []) else none
sort_pair _ = none

abbrev IsBoost : List (List ℕ) → Type 0
IsBoost g =
    (order : List ℕ)
    → sort_pair g ≡ some order
    → IsSorted g [] order × ((i : ℕ) → i < length g → Elem i order)

pair_order : IsSorted ([] ∷ (0 ∷ []) ∷ []) [] (0 ∷ 1 ∷ [])
unfolding IsSorted Elem sources
pair_order = (λ h. h, λ k h. h, (λ h. ground arith, λ k h. h, tt))

pair_complete : (i : ℕ) → i < 2 → Elem i (0 ∷ 1 ∷ [])
unfolding Elem
pair_complete zero h = inl refl
pair_complete (suc zero) h = inr (inl refl)
pair_complete (suc (suc i)) h = absurd (omega (arith, h))

sort_pair_lem : (g : List (List ℕ)) → IsBoost g
sort_pair_lem [] order e = cc
sort_pair_lem ([] ∷ []) order e = cc
sort_pair_lem ((f ∷ fs) ∷ rest) order e = cc
sort_pair_lem ([] ∷ es ∷ []) order e = elim (Bool-cases (bytes_eq es (0 ∷ []))) [
  | inl same ↦
      let known : es ≡ 0 ∷ [] = (bytes_eq_iff es (0 ∷ [])).0 same in
      let found : 0 ∷ 1 ∷ [] ≡ order = ground (arith, rw same at e) in
      rw (known, sym found) (pair_order, pair_complete)
  | inr other ↦ let no = rw other at e in cc
]
sort_pair_lem ([] ∷ es ∷ gs ∷ rest) order e = cc

named_builds : named_job no_context all_known builds ≡ returned builds
unfolding named_job set_name cut_scheme set_job_from_name cut_at starts_with set_parts is_version
    cut_last set_resource
named_builds = refl

named_deploys : named_job no_context all_known deploys ≡ returned deploys
unfolding named_job set_name cut_scheme set_job_from_name cut_at starts_with set_parts is_version
    cut_last set_resource
named_deploys = refl

made_nodes : make_nodes no_context all_known config ≡ returned nodes
unfolding make_nodes make_node start_node text_at timeout_at key_of find bytes_eq as_text as_integer
    to_i32 to_u32 named_job set_name cut_scheme set_job_from_name cut_at starts_with set_parts
    is_version cut_last set_resource
made_nodes = refl

made :
    job_queue no_context all_known sort_pair [] (object config)
    ≡ returned ((0 ∷ []) ∷ (1 ∷ []) ∷ [])
unfolding job_queue batches build add_requires group_all push recount level max_dist index_of
    bytes_eq sources empty as_object as_text key_of find make_nodes make_node start_node text_at
    timeout_at as_integer to_i32 to_u32 named_job set_name cut_scheme set_job_from_name cut_at
    starts_with set_parts is_version cut_last set_resource
made = refl

job_queue_example : IsQueue config nodes ((0 ∷ []) ∷ (1 ∷ []) ∷ [])
job_queue_example =
    job_queue_lem no_context all_known sort_pair [] sort_pair_lem builds build_entry
      (field deploys deploy_entry end) nodes ((0 ∷ []) ∷ (1 ∷ []) ∷ []) made_nodes made

abbrev blank_job : JobImpl
blank_job = record { name = []; version = []; operation = []; component = []; resource_type = [] }

set_job_from_name_example :
    set_job_from_name (job_name (codes "put") (codes "web") (codes "host") (codes "v1")) blank_job
    ≡ ok tt (record blank_job {
      version = codes "v1";
      operation = operation_of (codes "put");
      component = codes "web";
      resource_type = codes "host";
    })
set_job_from_name_example =
    set_job_from_name_lem (codes "put") (codes "web") (codes "host") (codes "v1") blank_job
      (ground arith) (ground arith) (ground arith) (ground arith) (unfold is_version in refl)

-- the ranks of the two agents
abbrev rank : Bytes → ℕ
rank name = if bytes_eq name builds then 0 else 1

builds_run : CanRun no_context all_known config rank builds build_entry
unfolding find bytes_eq key_of item_at
builds_run = record {
  found = refl;
  type = inl refl;
  job = inl (refl, named_builds);
  timeout = inr (pos 30, refl);
  wants = λ m r e. cc;
}

deploys_want :
    (m : ℕ) (r : Json)
    → item_at m (cons (string builds) nil) ≡ some r
    → (req : Bytes) × (r ≡ string req)
      × ((w : Json) × (find req config ≡ some w))
      × (rank req < rank deploys)
unfolding find bytes_eq item_at
deploys_want zero r e = (builds, cc, (build_entry, refl), omega arith)
deploys_want (suc m) r e = cc

deploys_run : CanRun no_context all_known config rank deploys deploy_entry
unfolding find bytes_eq key_of
deploys_run = record {
  found = refl;
  type = inl refl;
  job = inl (refl, named_deploys);
  timeout = inl refl;
  wants = deploys_want;
}

-- a sort that always answers
abbrev sort_any : List (List ℕ) → Option (List ℕ)
sort_any g = some (0 ∷ 1 ∷ [])

job_queue_total_example :
    (queue : List (List ℕ)) × (job_queue no_context all_known sort_any [] (object config)
      ≡ returned queue)
job_queue_total_example =
    job_queue_total no_context all_known sort_any [] (λ g rank h. (0 ∷ 1 ∷ [], refl)) config rank
      (builds_run, (deploys_run, tt))

-- a clock that ticks while the run sleeps, and jobs that end at 100 seconds
abbrev agents : Agents ℕ
agents = record {
  run = λ j w. ok 0 w;
  sync = λ h w. ok tt w;
  progress = λ h w. if ltb w 100 then 0 else 100;
  code = λ h w. pos 0;
  time = λ w. w;
  usleep = λ w. w + 60;
  print_code = λ c. [];
}

-- a job that may take 30 seconds
abbrev hasty : JobPtr
hasty = record { address = 0; name = codes "build"; timeout = 30 }

hasty-IsGiven : IsGiven agents 1 hasty
unfolding IsGiven
hasty-IsGiven = omega arith

job_queue_run-untimed_example :
    outside agents (job_queue_run agents 9 ((hasty ∷ []) ∷ []) 0 1)
    ≡ run_untimed agents 9 ((hasty ∷ []) ∷ []) 0
job_queue_run-untimed_example =
    job_queue_run-untimed agents 9 ((hasty ∷ []) ∷ []) 0 1 ((hasty-IsGiven, tt), tt)

-- it takes 120 seconds, and is not stopped
hasty_ends : run_untimed agents 9 ((hasty ∷ []) ∷ []) 0 ≡ some (ok tt 120)
hasty_ends = refl
