-- ===== src/Schema/Validate.antt =====
-- `getChildSchema`, `setDefaults`, `validRequires`, and `Json::validate` over them.
pub mod Complete
pub mod Keeps
pub mod Closed
pub mod Sizes
use gearbox.Base.{
  ℕ, zero, suc, ◌+◌, Bool, true, false, not, ◌&&◌, ◌||◌, Bytes, codes, bytes_eq, ◌++◌, Option, none,
  some, if◌then◌else◌, decimal, ltb,
}
use gearbox.Json.Value.{Json, Items, Fields, find, map_insert, has_key, array_size}
use gearbox.Json.Access.{item_at}
use gearbox.Schema.{
  Verdict, accepts, rejects, ◌>>>◌, pass, reject_if, Library, key_of, as_text, as_bool, as_object,
}
use gearbox.Schema.Types.{valid_type, type_fixup}
use gearbox.Schema.Values.{
  Formats, valid_value, valid_max_size, valid_min_size, additional_properties,
}
use Json.{undef, bool, int, double, string, object, array}
use Items.{nil, cons}
use Fields.{end, field}

-- the schema for what is not listed, or an error
unfoldable pub or_reject : Option Json → Bytes → Verdict Json
or_reject (some s) msg = accepts s
or_reject none msg = rejects msg

-- `getChildSchema(index)`, by the value of "items": an array has one schema for each position
unfoldable pub child_at : Option Json → Option Json → ℕ → Verdict Json
child_at (some (array items)) more n = elim (item_at n items) [
  | some s ↦ accepts s
  | none ↦
      or_reject more
        (codes "out of bounds: schema does not allow for elements at index " ++ decimal n)
]
child_at (some s) more n = accepts s
child_at none more n =
    or_reject more (codes "out of bounds: schema does not allow for any elements in array")

unfoldable pub child_of_index : Json → ℕ → Verdict Json
child_of_index schema n =
    additional_properties schema >>> λ more. child_at (key_of (codes "items") schema) more n

-- `getChildSchema(key)`, by the value of "properties"
unfoldable pub child_in : Option Json → Option Json → Bytes → Verdict Json
child_in (some (object fs)) more key = elim (find key fs) [
  | some s ↦ accepts s
  | none ↦
      or_reject more (
        codes "invalid property \"" ++ (key ++ codes "\": schema does not allow for this property"))
]
child_in (some s) more key =
    or_reject more
      (codes "invalid property \"" ++ (key ++ codes "\": schema does not allow for this property"))
child_in none more key =
    or_reject more
      (codes "invalid property \"" ++ (key ++ codes "\": schema allows for no properties"))

unfoldable pub child_of_key : Json → Bytes → Verdict Json
child_of_key schema key =
    additional_properties schema >>> λ more. child_in (key_of (codes "properties") schema) more key

-- the loop of `setDefaults`, over the properties of the schema
unfoldable pub default_for : Library → Bytes → Json → Option Json → Fields → Verdict Fields
default_for lib k s none fs = accepts fs
default_for lib k s (some d) fs =
    if has_key k (object fs)
    then accepts fs
    else type_fixup lib s d >>> λ d'. accepts (map_insert k d' fs)

unfoldable pub default_all : Library → Fields → Fields → Verdict Fields
default_all lib end fs = accepts fs
default_all lib (field k s ps) fs =
    default_for lib k s (key_of (codes "default") s) fs >>> λ fs'. default_all lib ps fs'

-- `setDefaults`
unfoldable pub set_defaults : Library → Option Json → Fields → Verdict Fields
set_defaults lib none fs = accepts fs
set_defaults lib (some p) fs = as_object p >>> λ ps. default_all lib ps fs

-- `s.hasKey("optional") && s["optional"].as<bool>()`
flag : Option Json → Verdict Bool
flag none = accepts false
flag (some j) = as_bool j

unfoldable pub is_optional : Json → Verdict Bool
unfolding flag
is_optional s = flag (key_of (codes "optional") s)

-- the properties that an optional property requires once it is set
needs : Bytes → Fields → Json → Verdict (Unit {0})
needs k fs req = as_text req >>> λ name. reject_if (not (has_key name (object fs))) (
    codes "property \""
    ++ (k
        ++ (codes "\" requires additional property \""
            ++ (name ++ codes "\" to be set according to schema"))))

needs_all : Bytes → Fields → Items → Verdict (Unit {0})
needs_all k fs nil = pass
needs_all k fs (cons r rs) = let later = needs_all k fs rs in needs k fs r >>> λ _. later

unfoldable pub check_requires : Bytes → Fields → Option Json → Verdict (Unit {0})
unfolding needs needs_all
check_requires k fs (some (string r)) = needs k fs (string r)
check_requires k fs (some (array rs)) = needs_all k fs rs
check_requires k fs r = pass

-- one property in the loop of `validRequires`; "optional" is only looked at for "requires" if that is
-- there, and again after it
unfoldable pub check_property : Bytes → Json → Fields → Verdict (Unit {0})
check_property k s fs = is_optional s >>> λ optional.
    if optional
    then if has_key k (object fs) then check_requires k fs (key_of (codes "requires") s) else pass
    else reject_if (not (has_key k (object fs)))
        (codes "non-optional property \"" ++ (k ++ codes "\" is missing"))

unfoldable pub check_all : Fields → Fields → Verdict (Unit {0})
check_all end fs = pass
check_all (field k s ps) fs = let later = check_all ps fs in check_property k s fs >>> λ _. later

-- `validRequires`
unfoldable pub valid_requires : Option Json → Fields → Verdict (Unit {0})
valid_requires none fs = pass
valid_requires (some p) fs = as_object p >>> λ ps. check_all ps fs

-- a value that is no object and no array, once its type is fixed: null is not looked at
unfoldable pub validate_value : Library → Formats → Json → Json → Verdict Json
validate_value lib formats schema undef = accepts undef
validate_value lib formats schema j = valid_value lib formats schema j >>> λ _. accepts j

-- the end of `validateObject`
unfoldable pub complete_object : Library → Json → Fields → Verdict Json
complete_object lib schema fs =
    let properties = key_of (codes "properties") schema in
    set_defaults lib properties fs
    >>> (λ fs'. valid_requires properties fs' >>> λ _. accepts (object fs'))

module _ (lib : Library) (formats : Formats) where
  unfoldable mutual
    -- `Json::validate`, with the value as it leaves it; objects and arrays keep their type
    pub validate : Json → Json → Verdict Json
    validate schema (object fs) = valid_type schema (object fs) >>> (λ _.
        type_fixup lib schema (object fs)
        >>> (λ _. validate_object schema fs >>> λ fs'. complete_object lib schema fs'))
    validate schema (array xs) = valid_type schema (array xs) >>> (λ _.
        type_fixup lib schema (array xs) >>> (λ _. valid_min_size schema xs >>> (λ _.
          valid_max_size schema xs
          >>> (λ _. validate_array schema 0 xs >>> λ xs'. accepts (array xs')))))
    validate schema j =
        valid_type schema j
        >>> (λ _. type_fixup lib schema j >>> λ j'. validate_value lib formats schema j')

    -- the loop of `validateObject`
    pub validate_object : Json → Fields → Verdict Fields
    validate_object schema end = accepts end
    validate_object schema (field k v fs) = child_of_key schema k >>> (λ s.
        validate s v >>> (λ v'. validate_object schema fs >>> λ fs'. accepts (field k v' fs')))

    -- the loop of `validateArray`
    pub validate_array : Json → ℕ → Items → Verdict Items
    validate_array schema n nil = accepts nil
    validate_array schema n (cons x xs) = child_of_index schema n >>> (λ s.
        validate s x >>> (λ x'. validate_array schema (n + 1) xs >>> λ xs'. accepts (cons x' xs')))
