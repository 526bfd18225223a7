-- ===== src/Job/Name.antt =====
-- The name of a job, `JobImpl::name` and `set_job_from_name` of gearbox/job/JobImpl.cc: a name
-- "do_<op>_<component>_<resource>_<version>" sets the properties of the job; a URI sets none.
pub mod Parts
use gearbox.Base.{
  ℕ, Bool, true, false, ◌&&◌, List, [], ◌∷◌, ◌++◌, Bytes, codes, bytes_eq, starts_with, is_between,
  Option, none, some, ◌==◌, if◌then◌else◌,
}
use gearbox.Errors.{Exception, std_exception, Outcome, ok, throw, ◌>>=◌, ◌>>◌}
use gearbox.Uri.Text.{cut_at, cut, cut_last, cut_scheme}

-- the fields of `JobImpl::Private` that a name decides
pub record JobImpl : Type 0 where
  pub name : Bytes
  pub version : Bytes
  pub operation : Bytes
  pub component : Bytes
  pub resource_type : Bytes

-- `invalid_argument("The string '<name>' <what>")`
abbrev pub invalid_name : Bytes → Bytes → Exception
invalid_name name what = std_exception (codes "The string '" ++ (name ++ (codes "' " ++ what)))

-- `operation(op)`: HTTP methods become the names of operations
unfoldable pub operation_of : Bytes → Bytes
operation_of op =
    if bytes_eq op (codes "put")
    then codes "create"
    else if bytes_eq op (codes "post")
    then codes "update"
    else op

-- `version[0] != 'v' || !isdigit(version[1])`, negated
unfoldable pub is_version : Bytes → Bool
is_version (v ∷ d ∷ rest) = v == b'v' && is_between b'0' b'9' d
is_version _ = false

abbrev pub set_version : Bytes → JobImpl → Outcome JobImpl (Unit {0})
set_version v j = ok tt (record j { version = v })

abbrev pub set_operation : Bytes → JobImpl → Outcome JobImpl (Unit {0})
set_operation op j = ok tt (record j { operation = operation_of op })

-- from the underscore behind the operation on
unfoldable pub set_resource : Bytes → Bytes → JobImpl → Outcome JobImpl (Unit {0})
set_resource name rest j = elim (cut b'_' rest) [
  | none ↦ throw (invalid_name name (codes "is missing a valid component.")) j
  | some (component, rest') ↦
      let j' : JobImpl = record j { component = component } in
      elim (cut b'_' rest') [
        | none ↦ throw (invalid_name name (codes "is missing a valid resource type.")) j'
        | some (resource, _) ↦ ok tt (record j' { resource_type = resource })
      ]
]

-- `name.substr(name.rfind('_') + 1)`
abbrev pub behind_last : Bytes → Option (Bytes × Bytes) → Bytes
behind_last name none = name
behind_last name (some (_, v)) = v

abbrev pub last_part : Bytes → Bytes
last_part name = behind_last name (cut_last b'_' name)

-- from the first underscore on, behind which `rest` stands
unfoldable pub set_parts : Bytes → Bytes → JobImpl → Outcome JobImpl (Unit {0})
set_parts name rest j = elim (cut b'_' rest) [
  | none ↦ throw (invalid_name name (codes "is not a valid job name.")) j
  | some (op, rest') ↦
      if is_version (last_part name)
      then (set_version (last_part name) >> (set_operation op >> set_resource name rest')) j
      else throw (invalid_name name (codes "is missing a version.")) j
]

unfoldable pub set_job_from_name : Bytes → JobImpl → Outcome JobImpl (Unit {0})
set_job_from_name name j = elim (cut b'_' name) [
  | none ↦ throw (invalid_name name (codes "is not a valid job name.")) j
  | some (_, rest) ↦
      if starts_with (codes "do_") name
      then set_parts name rest j
      else throw (invalid_name name (codes "is not a valid job name.")) j
]

unfoldable pub set_name : Bytes → JobImpl → Outcome JobImpl (Unit {0})
set_name name j =
    let j' : JobImpl = record j { name = name } in
    elim (cut_scheme name) [ none ↦ set_job_from_name name j' | some _ ↦ ok tt j' ]
