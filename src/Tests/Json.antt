-- ===== src/Tests/Json.antt =====
-- The theorems on JSON values at concrete inputs.
use gearbox.Base.{
  ℤ, pos, ◌≡◌, ◌≢◌, refl, ◌⊎◌, [], ◌∷◌, ◌++◌, Bytes, codes, Option, some, none, true, false, ℕ, ltb,
  if◌then◌else◌, List, bytes_eq,
}
use gearbox.Errors.{ok, throw, json_error, strlcpy, buffer_size}
use gearbox.Json.Value.{Double, Json, Items, Fields, find, before, array_size, type_name}
use gearbox.Json.Order.{IsSorted, Ascending}
use gearbox.Json.Generator.{Call, generate, generate_fields}
use gearbox.Json.Access.{set_at, item_at}
use gearbox.Json.Access.Index.{set_at_lem, takes_index, items_of}
use gearbox.Json.Access.Copy.{copy_json, copy_json_lem}
use gearbox.Json.Parser.{ParseEvent, Reading, parse, parsed, thrown, json_error_at, has_dot}
use gearbox.Json.Parser.Reads.{parse-generate, parse-duplicate, replay, IsReadable, Place}
use Json.{undef, bool, int, double, string, object, array}

-- {"a":[3,0.5,null],"b":"x"}
abbrev half : Double
half = record { bits = 4602678819172646912 }

abbrev members : Fields
members =
    Fields.field (codes "a")
      (array (Items.cons (int (pos 3)) (Items.cons (double half) (Items.cons undef Items.nil))))
      (Fields.field (codes "b") (string (codes "x")) Fields.end)

abbrev document : Json
document = object members

-- the texts of its numbers, and the two that are read
abbrev print_int : ℤ → Bytes
print_int n = codes "3"

abbrev print_double : Double → Bytes
print_double d = codes "0.5"

abbrev read_int : Bytes → Option ℤ
read_int s = some (pos 3)

abbrev read_double : Bytes → Option Double
read_double s = some half

-- a reader that knows one text
abbrev reading : Reading
reading = record {
  events =
      ParseEvent.start_map
      ∷ ParseEvent.map_key (codes "a")
      ∷ ParseEvent.start_array
      ∷ ParseEvent.number (codes "3")
      ∷ ParseEvent.number (codes "0.5")
      ∷ ParseEvent.null
      ∷ ParseEvent.end_array
      ∷ ParseEvent.map_key (codes "b")
      ∷ ParseEvent.text (codes "x")
      ∷ ParseEvent.end_map
      ∷ [];
  error = none;
}

abbrev yajl_text : List Call → Bytes
yajl_text cs = codes "{}"

abbrev yajl_parse : Bytes → Reading
yajl_parse s = reading

replayed : yajl_parse (yajl_text (generate print_double document)) ≡ record {
  events = replay print_int (Place.document ∷ []) (generate print_double document);
  error = none;
}
unfolding replay generate
replayed = refl

members-Ascending : Ascending members
unfolding before
members-Ascending = ((refl, tt), (tt, tt))

document-IsSorted : IsSorted document
unfolding IsSorted
document-IsSorted = (members-Ascending, ((tt, (tt, (tt, tt))), (tt, tt)))

document-IsReadable : IsReadable print_int print_double read_int read_double (codes "bad") document
unfolding IsReadable has_dot
document-IsReadable = (((refl, refl), ((refl, refl), (tt, tt))), (tt, tt))

parse-generate_example :
    parse read_int read_double
      (codes "bad")
      yajl_parse
      []
      (yajl_text (generate print_double document))
    ≡ parsed document
parse-generate_example =
    parse-generate print_int print_double read_int read_double (codes "bad") yajl_text yajl_parse []
      document replayed document-IsSorted document-IsReadable

-- a reader of {"a":[3,0.5,null],"b":"x","a":null}
abbrev rest : List Call
rest = Call.gen_string (codes "a") ∷ Call.gen_null ∷ Call.map_close ∷ []

abbrev read_twice : Bytes → Reading
read_twice s = record {
  events =
      replay print_int (Place.document ∷ [])
        (Call.map_open ∷ generate_fields print_double members ++ rest);
  error = none;
}

a_found :
    find (codes "a") members
    ≡ some
        (array (Items.cons (int (pos 3)) (Items.cons (double half) (Items.cons undef Items.nil))))
unfolding find bytes_eq
a_found = refl

parse-duplicate_example :
    parse read_int read_double (codes "bad") read_twice (codes "canceled") (codes "{}")
    ≡ thrown
        (json_error (strlcpy buffer_size (codes "duplicate key name found: " ++ codes "a")))
        document
parse-duplicate_example =
    parse-duplicate print_int print_double read_int read_double (codes "bad") read_twice
      (codes "canceled") (codes "{}") members (codes "a") _ (Call.gen_null ∷ Call.map_close ∷ [])
      none refl document-IsSorted document-IsReadable a_found

copy_json_example : copy_json document ≡ document
copy_json_example = copy_json_lem document document-IsSorted

set_at_example :
    ((takes_index undef ≡ true)
      × ((xs : Items) × (set_at [] 2 (bool true) undef ≡ ok tt (array xs))
          × (array_size xs
              ≡ (if ltb (array_size (items_of undef)) 3 then 3 else array_size (items_of undef)))
          × (item_at 2 xs ≡ some (bool true))
          × ((m : ℕ)
              → m ≢ 2
              → item_at m xs ≡ (
                  if ltb m (array_size (items_of undef))
                  then item_at m (items_of undef)
                  else if ltb m 2
                  then some undef
                  else none))))
    ⊎ ((takes_index undef ≡ false)
        × (set_at [] 2 (bool true) undef
            ≡ throw
                (json_error_at [] (codes "cannot access array index on type " ++ type_name undef))
                undef))
set_at_example = set_at_lem [] 2 (bool true) undef
