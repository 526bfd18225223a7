-- ===== src/Schema/Values.antt =====
-- `validValue`, `validMaxSize` and `validMinSize`: the bounds on numbers, strings and arrays.
pub mod Bounds
use gearbox.Base.{
  ℕ, zero, suc, ◌+◌, ◌-◌, ℤ, pos, negsuc, Bool, true, false, not, ◌&&◌, ◌||◌, Bytes, codes,
  bytes_eq, ◌++◌, [], ◌∷◌, Option, none, some, if◌then◌else◌, decimal, ltb, leb, length, is_empty,
  ◌==◌,
}
use gearbox.Json.Value.{Double, Json, Items, Fields, array_size, find, type_name}
use gearbox.Json.Parser.{has_dot}
use gearbox.Schema.{
  Verdict, accepts, rejects, ◌>>>◌, pass, reject_if, Library, key_of, as_text, as_integer, to_u64,
  to_u32, int_le,
}
use Json.{undef, bool, int, double, string, object, array}
use Items.{nil, cons}

-- `validMin` and `validMax`: the bound, then the value. A value that is no number is not within.
unfoldable pub valid_min : Library → Json → Json → Bool
valid_min lib (int m) (int n) = int_le m n
valid_min lib (int m) (double d) = lib.double_le (lib.of_int m) d
valid_min lib (double m) (int n) = lib.double_le m (lib.of_int n)
valid_min lib (double m) (double d) = lib.double_le m d
valid_min lib m j = false

unfoldable pub valid_max : Library → Json → Json → Bool
valid_max lib (int m) (int n) = int_le n m
valid_max lib (int m) (double d) = lib.double_le d (lib.of_int m)
valid_max lib (double m) (int n) = lib.double_le (lib.of_int n) m
valid_max lib (double m) (double d) = lib.double_le d m
valid_max lib m j = false

-- a bound is only looked at if it is a number
unfoldable pub is_number : Json → Bool
is_number (int n) = true
is_number (double d) = true
is_number j = false

unfoldable pub check_min : Library → Option Json → Json → Verdict (Unit {0})
check_min lib none j = pass
check_min lib (some m) j = reject_if (is_number m && not (valid_min lib m j)) (
    codes "value " ++ (lib.print j ++ (codes " is less than schema minimum value " ++ lib.print m)))

unfoldable pub check_max : Library → Option Json → Json → Verdict (Unit {0})
check_max lib none j = pass
check_max lib (some m) j = reject_if (is_number m && not (valid_max lib m j)) (
    codes "value "
    ++ (lib.print j ++ (codes " is larger than schema maximum value " ++ lib.print m)))

-- what follows the first dot
unfoldable pub behind_dot : Bytes → Bytes
behind_dot [] = []
behind_dot (c ∷ s) = let later = behind_dot s in if c == b'.' then s else later

-- `length() - find('.') - 1`, where `find` gives 2 ^ 64 - 1 if there is none
unfoldable pub decimals : Bytes → ℕ
unfolding behind_dot
decimals text = if has_dot text then length (behind_dot text) else length text

unfoldable pub check_decimals : Library → Option Json → Json → Verdict (Unit {0})
check_decimals lib (some m) (double d) = as_integer m >>> λ n.
    reject_if (ltb (to_u64 n) (decimals (lib.print (double d)))) (
      codes "value "
      ++ (lib.print (double d)
          ++ (codes " has "
              ++ (decimal (decimals (lib.print (double d)))
                  ++ (codes " decimal places, but the schema has specified maximum of "
                      ++ (decimal (to_u64 n) ++ codes " decimal places"))))))
check_decimals lib m j = pass

unfoldable pub check_min_length : Option Json → Json → Verdict (Unit {0})
check_min_length (some m) (string s) = as_integer m >>> λ n. reject_if (ltb (length s) (to_u64 n)) (
    codes "string length "
    ++ (decimal (length s) ++ (codes " is less than schema minimum length " ++ decimal (to_u64 n))))
check_min_length m j = pass

unfoldable pub check_max_length : Option Json → Json → Verdict (Unit {0})
check_max_length (some m) (string s) = as_integer m >>> λ n. reject_if (ltb (to_u64 n) (length s)) (
    codes "string length "
    ++ (decimal (length s)
        ++ (codes " is larger than schema maximum length " ++ decimal (to_u64 n))))
check_max_length m j = pass

-- `formats_` and `default_format`, the statics that `setFormat` and `defaultFormat` change
pub record Formats : Type 0 where
  pub checker : Bytes → Option (Bytes → Bool)
  pub default_format : Bytes

unfoldable pub set_format : Bytes → (Bytes → Bool) → Formats → Formats
set_format name check f = record f {
  checker = λ n. if bytes_eq n name then some check else f.checker n;
}

unfoldable pub set_default_format : Bytes → Formats → Formats
set_default_format name f = record f { default_format = name }

-- the format of a schema, or the default one
unfoldable pub format_of : Formats → Option Json → Verdict Bytes
format_of f (some m) = as_text m
format_of f none = accepts f.default_format

matches_format : Option (Bytes → Bool) → Bytes → Bool
matches_format none s = true
matches_format (some check) s = check s

unfoldable pub check_format : Formats → Option Json → Json → Verdict (Unit {0})
unfolding matches_format
check_format f m (string s) = format_of f m >>> λ format.
    reject_if (not (is_empty format) && not (matches_format (f.checker format) s))
      (codes "value does not match required schema format " ++ format)
check_format f m j = pass

unfoldable pub check_pattern : Library → Option Json → Json → Verdict (Unit {0})
check_pattern lib (some m) (string s) = as_text m >>> (λ pattern.
    lib.regex_match pattern s >>> λ matched.
    reject_if (not matched)
      (codes "value does not match schema pattern \"" ++ (pattern ++ codes "\"")))
check_pattern lib m j = pass

int_eq : ℤ → ℤ → Bool
int_eq (pos a) (pos b) = a == b
int_eq (negsuc a) (negsuc b) = a == b
int_eq a b = false

bool_eq : Bool → Bool → Bool
bool_eq true b = b
bool_eq false b = not b

-- the comparison in the loop over "enum"
unfoldable pub same_value : Library → Json → Json → Bool
unfolding int_eq bool_eq
same_value lib (int a) (int b) = int_eq a b
same_value lib (double a) (double b) = lib.double_eq a b
same_value lib (bool a) (bool b) = bool_eq a b
same_value lib (string a) (string b) = bytes_eq a b
same_value lib a b = false

unfoldable pub in_enum : Library → Items → Json → Bool
in_enum lib nil j = false
in_enum lib (cons x xs) j = same_value lib x j || in_enum lib xs j

-- the values of "enum", of which there are none if it is no array
abbrev pub enum_items : Json → Items
enum_items (array xs) = xs
enum_items j = nil

unfoldable pub check_enum : Library → Option Json → Json → Verdict (Unit {0})
check_enum lib none j = pass
check_enum lib (some e) j =
    reject_if (not (in_enum lib (enum_items e) j)) (codes "value is not valid in schema enum")

-- `validValue`
unfoldable pub valid_value : Library → Formats → Json → Json → Verdict (Unit {0})
valid_value lib formats schema j = check_min lib (key_of (codes "minimum") schema) j >>> (λ _.
    check_max lib (key_of (codes "maximum") schema) j >>> (λ _.
      check_decimals lib (key_of (codes "maxDecimal") schema) j >>> (λ _.
        check_min_length (key_of (codes "minLength") schema) j >>> (λ _.
          check_max_length (key_of (codes "maxLength") schema) j >>> (λ _.
            check_format formats (key_of (codes "format") schema) j >>> (λ _.
              check_pattern lib (key_of (codes "pattern") schema) j
              >>> (λ _. check_enum lib (key_of (codes "enum") schema) j)))))))

-- `validMaxSize`
unfoldable pub check_max_size : Option Json → ℕ → Verdict (Unit {0})
check_max_size none n = pass
check_max_size (some m) n = as_integer m >>> λ count.
    reject_if (ltb (to_u32 count) n)
      (codes "array size is larger than schema maximum size " ++ decimal (to_u32 count))

unfoldable pub valid_max_size : Json → Items → Verdict (Unit {0})
valid_max_size schema xs = check_max_size (key_of (codes "maxItems") schema) (array_size xs)

-- `validMinSize`: the least number of items, and the exact one of a tuple type that allows no more
unfoldable pub check_min_size : Option Json → ℕ → Verdict (Unit {0})
check_min_size none n = pass
check_min_size (some m) n = as_integer m >>> λ count. reject_if (ltb n (to_u32 count)) (
    codes "array size "
    ++ (decimal n ++ (codes " is less than schema minimum size " ++ decimal (to_u32 count))))

-- the schema `{"type":"any"}`
abbrev pub any_schema : Json
any_schema = object (Fields.field (codes "type") (string (codes "any")) Fields.end)

-- `getAdditionalProperties`: none if the schema allows no more than it lists
unfoldable pub additional_of : Option Json → Option Json
additional_of none = some any_schema
additional_of (some (bool true)) = some any_schema
additional_of (some (object fs)) = some (object fs)
additional_of (some j) = none

unfoldable pub additional_properties : Json → Verdict (Option Json)
additional_properties (object fs) = accepts (additional_of (find (codes "additionalProperties") fs))
additional_properties undef = accepts (some any_schema)
additional_properties j =
    rejects (codes "cannot access object key \"additionalProperties\" on type " ++ type_name j)

tuple_size : Option Json → ℕ → ℕ → Verdict (Unit {0})
tuple_size (some _) want n = pass
tuple_size none want n = reject_if (not (want == n)) (
    codes "array size "
    ++ (decimal n ++ (codes " does not match schema required size of tuple type " ++ decimal want)))

unfoldable pub check_tuple : Json → Option Json → ℕ → Verdict (Unit {0})
unfolding tuple_size
check_tuple schema (some (array items)) n =
    additional_properties schema >>> λ more. tuple_size more (array_size items) n
check_tuple schema items n = pass

unfoldable pub valid_min_size : Json → Items → Verdict (Unit {0})
valid_min_size schema xs =
    check_min_size (key_of (codes "minItems") schema) (array_size xs) >>> λ _.
    check_tuple schema (key_of (codes "items") schema) (array_size xs)
