-- ===== src/Tests/Schema.antt =====
-- The theorems on schemas at concrete inputs.
use gearbox.Base.{
  ◌≤◌, ℤ, pos, ◌≡◌, refl, [], Bytes, codes, some, none, true, false, bytes_eq, length,
}
use gearbox.Json.Value.{Json, Items, Fields, before, find, has_key, array_size, map_insert}
use gearbox.Json.Order.{Ascending}
use gearbox.Json.Parser.{has_dot}
use gearbox.Schema.{
  accepts, pass, Library, key_of, as_bool, as_object, as_integer, as_text, to_u32, to_u64, to_i32,
}
use gearbox.Schema.Types.{
  schema_type, allows, type_list_contains, has_no, valid_type, fix, fix_at, type_fixup,
}
use gearbox.Schema.Values.{
  Formats, is_number, check_min, check_max, check_decimals, check_min_length, check_max_length,
  format_of, check_format, check_pattern, check_enum, valid_value, check_max_size, valid_max_size,
  check_min_size, additional_of, additional_properties, check_tuple, valid_min_size,
}
use gearbox.Schema.Values.Bounds.{AtMost, IsOneOf, valid_value_lem}
use gearbox.Schema.Validate.{
  or_reject, child_at, child_of_index, child_in, child_of_key, default_for, default_all,
  set_defaults, is_optional, check_requires, check_property, check_all, valid_requires,
  validate_value, complete_object, validate,
}
use gearbox.Schema.Validate.Complete.{Complete, validate-Complete}
use gearbox.Schema.Validate.Keeps.{or_else, default_value, set_defaults_lem}
use gearbox.Schema.Validate.Closed.{validate-find}
use gearbox.Schema.Validate.Sizes.{array_size-validate}
use Json.{undef, bool, int, double, string, object, array}
use Fields.{end, field}
use Items.{nil, cons}

abbrev lib : Library
lib = record {
  of_int = λ n. record { bits = 0 };
  double_le = λ a b. true;
  double_eq = λ a b. true;
  print = λ j. codes "0";
  regex_match = λ p s. accepts true;
}

abbrev formats : Formats
formats = record { checker = λ n. none; default_format = [] }

-- an optional property with a default, and one that has to be there
abbrev port : Json
port = object (field (codes "default") (int (pos 80)) (field (codes "optional") (bool true) end))

abbrev name : Json
name = object (field (codes "type") (string (codes "string")) end)

abbrev properties : Fields
properties = field (codes "name") name (field (codes "port") port end)

abbrev closed : Fields
closed =
    field (codes "additionalProperties") (bool false)
      (field (codes "properties") (object properties) end)

abbrev given : Fields
given = field (codes "name") (string (codes "x")) end

abbrev completed : Fields
completed = field (codes "name") (string (codes "x")) (field (codes "port") (int (pos 80)) end)

properties_found : find (codes "properties") closed ≡ some (object properties)
unfolding find bytes_eq
properties_found = refl

additional_found : find (codes "additionalProperties") closed ≡ some (bool false)
unfolding find bytes_eq
additional_found = refl

validated : validate lib formats (object closed) (object given) ≡ accepts (object completed)
unfolding validate valid_type type_fixup key_of find bytes_eq has_no child_of_key
    additional_properties additional_of child_in or_reject schema_type type_list_contains allows
    fix_at fix as_text validate_value valid_value check_min check_max check_decimals
    check_min_length check_max_length check_format format_of check_pattern check_enum
    complete_object set_defaults as_object default_all default_for has_key map_insert before
    valid_requires check_all check_property is_optional as_bool check_requires
validated = refl

properties_of : key_of (codes "properties") (object closed) ≡ some (object properties)
unfolding key_of find bytes_eq
properties_of = refl

validate-Complete_example : (gs : Fields) × (object completed ≡ object gs) × Complete properties gs
validate-Complete_example =
    validate-Complete lib formats (object closed) (object completed) given properties properties_of
      validated

unlisted : find (codes "zone") properties ≡ none
unfolding find bytes_eq
unlisted = refl

validate-find_example : find (codes "zone") given ≡ none
validate-find_example =
    validate-find lib formats closed properties given (object completed) additional_found
      properties_found validated (codes "zone") unlisted

properties-Ascending : Ascending properties
unfolding before
properties-Ascending = ((refl, tt), (tt, tt))

completes : set_defaults lib (some (object properties)) given ≡ accepts completed
unfolding set_defaults as_object default_all default_for key_of find bytes_eq has_key type_fixup
    map_insert before
completes = refl

set_defaults_example :
    find (codes "port") completed
    ≡ or_else (find (codes "port") given) (default_value lib (find (codes "port") properties))
set_defaults_example =
    set_defaults_lem lib properties given completed properties-Ascending completes (codes "port")

-- an array of at most two
abbrev pair : Json
pair = object (field (codes "maxItems") (int (pos 2)) end)

abbrev items : Items
items = cons (bool true) (cons undef nil)

array_validated : validate lib formats pair (array items) ≡ accepts (array items)
unfolding validate valid_type type_fixup key_of find bytes_eq has_no valid_min_size valid_max_size
    check_min_size check_max_size check_tuple array_size as_integer to_u32 child_of_index
    additional_properties additional_of child_at or_reject schema_type type_list_contains allows
    fix_at fix as_text validate_value valid_value check_min check_max check_decimals
    check_min_length check_max_length check_format format_of check_pattern check_enum
array_validated = refl

array_size-validate_example :
    (ys : Items) × (array items ≡ array ys)
    × (array_size ys ≡ array_size items)
    × ((m : ℤ) → key_of (codes "minItems") pair ≡ some (int m) → to_u32 m ≤ array_size items)
    × ((m : ℤ) → key_of (codes "maxItems") pair ≡ some (int m) → array_size items ≤ to_u32 m)
array_size-validate_example =
    array_size-validate lib formats pair (array items) items array_validated

-- a string of one or two bytes
abbrev short : Json
short =
    object (field (codes "maxLength") (int (pos 2)) (field (codes "minLength") (int (pos 1)) end))

short_passes : valid_value lib formats short (string (codes "ab")) ≡ pass
unfolding key_of find bytes_eq valid_value check_min check_max check_decimals check_min_length
    check_max_length check_format format_of check_pattern check_enum as_integer to_u64
short_passes = refl

valid_value_example :
    ((m : Json)
      → key_of (codes "minimum") short ≡ some m
      → is_number m ≡ true
      → AtMost lib m (string (codes "ab")))
    × ((m : Json)
        → key_of (codes "maximum") short ≡ some m
        → is_number m ≡ true
        → AtMost lib (string (codes "ab")) m)
    × ((xs : Items)
        → key_of (codes "enum") short ≡ some (array xs)
        → IsOneOf lib xs (string (codes "ab")))
    × ((s : Bytes)
        → string (codes "ab") ≡ string s
        → ((m : ℤ) → key_of (codes "minLength") short ≡ some (int m) → to_u64 m ≤ length s)
          × ((m : ℤ) → key_of (codes "maxLength") short ≡ some (int m) → length s ≤ to_u64 m))
valid_value_example = valid_value_lem lib formats short (string (codes "ab")) short_passes

whole : has_dot (codes "100") ≡ false
unfolding has_dot
whole = refl

-- under the type "number", 5000000000 becomes the double of 705032704
big_number_fixed :
    type_fixup lib
      (object (field (codes "type") (string (codes "number")) end))
      (int (pos 5000000000))
    ≡ accepts (double (lib.of_int (pos 705032704)))
unfolding type_fixup key_of find bytes_eq fix_at fix as_text to_i32 to_u32
big_number_fixed = refl
