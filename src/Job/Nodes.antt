-- ===== src/Job/Nodes.antt =====
-- How `JobManager::job_queue` of gearbox/job/JobManager.cc makes a job of each entry of a configuration,
-- with the two calls of `JobManager::job` that it uses. What `known_job_name` says is the parameter
-- `known`, and what `context()` says of the value behind some keys the parameter `context`. The HTTP
-- method of a job, and the URIs that are copied into it, are left out.
use gearbox.Base.{
  ℤ, pos, Bool, List, [], ◌∷◌, ◌++◌, Bytes, codes, bytes_eq, Option, none, some, if◌then◌else◌, ◌≡◌,
  refl,
}
use gearbox.Errors.{Exception, std_exception, Outcome, ok, throw}
use gearbox.Json.Value.{Json, Fields}
use gearbox.Json.Parser.{json_error_at}
use gearbox.Schema.{Verdict, accepts, rejects, key_of, as_text, as_integer, to_i32}
use gearbox.Uri.Methods.{new_uri, canonical}
use gearbox.Worker.Env.{JobType, unknown, sync, async}
use gearbox.Job.Name.{JobImpl, set_name}
use Fields.{end, field}

-- a call that returns, throws, or reads through a null pointer
pub data Result (A : Type 0) : Type 0 where
  returned : A → Result A
  raised : Exception → Result A
  null_pointer : Result A

infixl 5 ◌>>?◌
abbrev pub ◌>>?◌ : {A B : Type 0} → Result A → (A → Result B) → Result B
m >>? k = elim m [ returned a ↦ k a | raised e ↦ raised e | null_pointer ↦ null_pointer ]

-- a sequence returns if its parts do
pub ran :
    {A B : Type 0} (m : Result A) (k : A → Result B) (b : B)
    → (m >>? k) ≡ returned b
    → (a : A) × (m ≡ returned a) × (k a ≡ returned b)
ran (returned a) k b h = (a, refl, h)
ran (raised e) k b h = cc
ran null_pointer k b h = cc

-- a conversion of a value, whose error names its context
abbrev pub convert : {A : Type 0} → Bytes → Verdict A → Result A
convert ctx (accepts a) = returned a
convert ctx (rejects msg) = raised (json_error_at ctx msg)

pub record Node : Type 0 where
  pub name : Bytes
  pub type : JobType
  pub timeout : ℤ

-- a job before it is named
abbrev pub new_job : JobImpl
new_job = record { name = []; version = []; operation = []; component = []; resource_type = [] }

-- `ji->name(name)`, and the name of the job then
abbrev pub named : Outcome JobImpl (Unit {0}) → Result Bytes
named (ok _ j) = returned j.name
named (throw e j) = raised e

-- `job(method, job_uri)`, with the URI made from a key
unfoldable pub uri_job : Bytes → Result Bytes
uri_job key = elim (new_uri key) [
  | throw e _ ↦ raised e
  | ok _ u ↦ elim (canonical u) [ throw e _ ↦ raised e | ok s _ ↦ named (set_name s new_job) ]
]

-- the type of a job without a method
abbrev pub job_type : Option Bytes → JobType
job_type none = async
job_type (some s) = if bytes_eq s (codes "SYNC") then sync else async

module _ (context : List Bytes → Bytes) (known : Bytes → Bool) where
  -- `job(job_name)`
  unfoldable pub named_job : Bytes → Result Bytes
  named_job name =
      if known name
      then named (set_name name new_job)
      else raised (std_exception (codes "No such job '" ++ (name ++ codes "' enabled in config.")))

  -- `value[what].as<std::string>()`, where there is such a key
  unfoldable pub text_at : Bytes → Bytes → Json → Result (Option Bytes)
  text_at key what value = elim (key_of what value) [
    | none ↦ returned none
    | some v ↦ convert (context (key ∷ what ∷ [])) (as_text v) >>? λ s. returned (some s)
  ]

  -- the timeout, which is 0 if none is given
  unfoldable pub timeout_at : Bytes → Json → Result ℤ
  timeout_at key value = elim (key_of (codes "timeout") value) [
    | none ↦ returned (pos 0)
    | some v ↦
        convert (context (key ∷ codes "timeout" ∷ [])) (as_integer v) >>? λ n. returned (to_i32 n)
  ]

  -- the name and the type of the job
  unfoldable pub start_node : Bytes → Option Bytes → Option Bytes → Result (Bytes × JobType)
  start_node key type none = named_job key >>? λ name. returned (name, job_type type)
  start_node key type (some method) = uri_job key >>? λ name. returned (name, unknown)

  -- the body of the loop over the entries
  unfoldable pub make_node : Bytes → Json → Result Node
  make_node key value = text_at key (codes "type") value >>? (λ type.
      text_at key (codes "method") value >>? (λ method. start_node key type method >>? (λ j.
        timeout_at key value >>? λ t. returned (record { name = j.0; type = j.1; timeout = t }))))

  unfoldable pub make_nodes : Fields → Result (List Node)
  make_nodes end = returned []
  make_nodes (field k v fs) = make_node k v >>? (λ n. make_nodes fs >>? λ ns. returned (n ∷ ns))
