-- ===== src/Schema/Types.antt =====
-- `validType` and `typeFixup`: the types that a schema allows, and the numbers that it wants as doubles.
use gearbox.Base.{
  Bool, true, false, not, ◌&&◌, ◌||◌, Bytes, codes, bytes_eq, ◌++◌, Option, none, some,
  if◌then◌else◌,
}
use gearbox.Json.Value.{Json, Items}
use gearbox.Schema.{Verdict, accepts, rejects, ◌>>>◌, pass, Library, key_of, as_text, to_i32}
use Json.{undef, bool, int, double, string, object, array}
use Items.{nil, cons}

-- `typeToSchemaType`
unfoldable pub schema_type : Json → Bytes
schema_type undef = codes "null"
schema_type (string s) = codes "string"
schema_type (int n) = codes "integer"
schema_type (double d) = codes "number"
schema_type (bool b) = codes "boolean"
schema_type (object fs) = codes "object"
schema_type (array xs) = codes "array"

-- whether the name of a type in a schema allows a type
unfoldable pub allows : Bytes → Bytes → Bool
allows doc_type type =
    bytes_eq type (codes "any")
    || (bytes_eq type doc_type
        || (bytes_eq type (codes "number") && bytes_eq doc_type (codes "integer")))

-- the loop of `typeListContains`, which returns at the first name that allows the type
unfoldable pub any_allows : Bytes → Items → Verdict Bool
any_allows doc_type nil = accepts false
any_allows doc_type (cons x xs) =
    let later = any_allows doc_type xs in
    as_text x >>> λ type. if allows doc_type type then accepts true else later

-- `typeListContains`, on the value of the schema at the name of the list
unfoldable pub type_list_contains : Bytes → Json → Verdict Bool
type_list_contains doc_type (array xs) = any_allows doc_type xs
type_list_contains doc_type j = as_text j >>> λ type. accepts (allows doc_type type)

-- whether a key is there and its list contains the type
listed : Bytes → Option Json → Verdict Bool
listed doc_type none = accepts false
listed doc_type (some types) = type_list_contains doc_type types

-- whether a key is there and its list does not contain the type
unlisted : Bytes → Option Json → Verdict Bool
unlisted doc_type none = accepts false
unlisted doc_type (some types) = type_list_contains doc_type types >>> λ found. accepts (not found)

unfoldable pub has_no : Option Json → Bool
has_no none = true
has_no (some j) = false

-- `validType`
unfoldable pub valid_type : Json → Json → Verdict (Unit {0})
unfolding listed unlisted
valid_type schema j =
    let doc_type = schema_type j in
    let types = key_of (codes "type") schema in
    let disallow = key_of (codes "disallow") schema in
    let error = rejects (codes "schema does not allow for type \"" ++ (doc_type ++ codes "\"")) in
    if has_no types && has_no disallow
    then pass
    else listed doc_type types >>> (λ listed_type.
      if listed_type
      then pass
      else unlisted doc_type disallow >>> (λ free. if free then pass else error))

-- `json = static_cast<double>(json.as<int>())` for an integer, where the type is "number"
unfoldable pub fix : Library → Bytes → Json → Json
fix lib type (int n) =
    if bytes_eq type (codes "number") then double (lib.of_int (to_i32 n)) else int n
fix lib type j = j

-- the loop of `typeFixup`
unfoldable pub fix_all : Library → Items → Json → Verdict Json
fix_all lib nil j = accepts j
fix_all lib (cons x xs) j = as_text x >>> λ type. fix_all lib xs (fix lib type j)

-- `typeFixup` by the value of the schema at "type"
unfoldable pub fix_at : Library → Json → Json → Verdict Json
fix_at lib (array xs) j = fix_all lib xs j
fix_at lib t j = as_text t >>> λ type. accepts (fix lib type j)

-- `typeFixup`
unfoldable pub type_fixup : Library → Json → Json → Verdict Json
type_fixup lib schema j = elim (key_of (codes "type") schema) [
  | none ↦ accepts j
  | some t ↦ fix_at lib t j
]
