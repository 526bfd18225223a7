-- ===== src/Json/Access.antt =====
-- gearbox/core/Json.cc: reading and changing a value. The error handler is the default one, which
-- throws; `ctx` is what `context()` says of the value. A call that returns a reference to an element
-- returns the element, and `set_key` and `set_at` are the assignments through such a reference. An
-- index is not negative.
pub mod Index
pub mod Keyed
pub mod Copy
use gearbox.Base.{
  ℕ, zero, suc, ◌+◌, ◌-◌, ℤ, pos, negsuc, Bool, true, false, not, ◌&&◌, Bytes, codes, bytes_eq,
  ◌++◌, Option, none, some, ltb, ◌==◌, if◌then◌else◌,
}
use gearbox.Errors.{Exception, Outcome, ok, throw, ◌>>=◌}
use gearbox.Json.Value.{
  Double, Json, Items, Fields, find, map_insert, push_back, array_size, size_of, type_name, empty,
  has_key,
}
use gearbox.Json.Parser.{json_error_at}
use Json.{undef, bool, int, double, string, object, array}
use Items.{nil, cons}
use Fields.{end, field}

-- `operator []` on a vector, within its size
unfoldable pub item_at : ℕ → Items → Option Json
item_at n nil = none
item_at zero (cons x xs) = some x
item_at (suc n) (cons x xs) = item_at n xs

-- assigning to an element of a map or a vector that is there
unfoldable pub replace : Bytes → Json → Fields → Fields
replace key v end = end
replace key v (field k w fs) =
    let later = replace key v fs in if bytes_eq k key then field k v fs else field k w later

unfoldable pub replace_at : ℕ → Json → Items → Items
replace_at n v nil = nil
replace_at zero v (cons x xs) = cons v xs
replace_at (suc n) v (cons x xs) = cons x (replace_at n v xs)

-- `erase` of the element that `find` found
unfoldable pub erase : Bytes → Fields → Fields
erase key end = end
erase key (field k w fs) =
    let later = erase key fs in if bytes_eq k key then fs else field k w later

-- `length()`: -1 for what is not an array
unfoldable pub length_of : Json → ℤ
length_of (array xs) = pos (array_size xs)
length_of _ = negsuc 0

-- `handleError` and `onErrorThrow`
abbrev pub handle_error : {A : Type 0} → Bytes → Bytes → Json → Outcome Json A
handle_error ctx msg j = throw (json_error_at ctx msg) j

cannot_access : Json → Bytes → Bytes
cannot_access j what = codes "cannot access " ++ (what ++ (codes " on type " ++ type_name j))

object_key : Bytes → Bytes
object_key key = codes "object key \"" ++ (key ++ codes "\"")

-- `operator [] (key) const`
unfoldable pub get_key : Bytes → Bytes → Json → Outcome Json Json
unfolding cannot_access object_key
get_key ctx key (object fs) = elim (find key fs) [
  | some v ↦ ok v (object fs)
  | none ↦ handle_error ctx (codes "key " ++ (key ++ codes " not found in object")) (object fs)
]
get_key ctx key j = handle_error ctx (cannot_access j (object_key key)) j

-- `operator [] (idx) const`
unfoldable pub get_at : Bytes → ℕ → Json → Outcome Json Json
unfolding cannot_access
get_at ctx n (array xs) = elim (item_at n xs) [
  | some v ↦ ok v (array xs)
  | none ↦ handle_error ctx (codes "index out of range") (array xs)
]
get_at ctx n j = handle_error ctx (cannot_access j (codes "array index")) j

-- `addKey`
unfoldable pub add_key : Bytes → Bytes → Json → Outcome Json Json
add_key ctx key (object fs) = ok undef (object (map_insert key undef fs))
add_key ctx key j =
    let msg = codes "cannot add key \"" ++ (key ++ (codes "\" to type " ++ type_name j)) in
    handle_error ctx msg j

-- `operator [] (key)`, which makes the key, and of a null value an object
unfoldable pub at_key : Bytes → Bytes → Json → Outcome Json Json
unfolding cannot_access object_key
at_key ctx key (object fs) =
    let added = add_key ctx key (object fs) in
    elim (find key fs) [ some v ↦ ok v (object fs) | none ↦ added ]
at_key ctx key undef = add_key ctx key (object end)
at_key ctx key j = handle_error ctx (cannot_access j (object_key key)) j

-- `n` null values more
unfoldable pub push_nulls : ℕ → Items → Items
push_nulls zero xs = xs
push_nulls (suc n) xs = push_nulls n (push_back xs undef)

-- `growArray` of an array
unfoldable pub grow_array : ℕ → Items → Items
grow_array n xs = if ltb (array_size xs) n then push_nulls (n - array_size xs) xs else xs

-- `operator [] (idx)`, which grows the array, and of a null value makes one; then the element, `none`
-- where the index would be out of range
unfoldable pub at_index : Bytes → ℕ → Json → Outcome Json (Option Json)
unfolding cannot_access
at_index ctx n (array xs) = let grown = grow_array (n + 1) xs in ok (item_at n grown) (array grown)
at_index ctx n undef = let grown = grow_array (n + 1) nil in ok (item_at n grown) (array grown)
at_index ctx n j = handle_error ctx (cannot_access j (codes "array index")) j

-- the document once an element of it has been assigned to
unfoldable pub put_key : Bytes → Json → Json → Json
put_key key v (object fs) = object (replace key v fs)
put_key key v j = j

unfoldable pub put_at : ℕ → Json → Json → Json
put_at n v (array xs) = array (replace_at n v xs)
put_at n v j = j

-- `json[key] = v` and `json[idx] = v`
unfoldable pub set_key : Bytes → Bytes → Json → Json → Outcome Json (Unit {0})
set_key ctx key v = at_key ctx key >>= λ _ j. ok tt (put_key key v j)

unfoldable pub set_at : Bytes → ℕ → Json → Json → Outcome Json (Unit {0})
set_at ctx n v = at_index ctx n >>= λ _ j. ok tt (put_at n v j)

-- `deleteKey`
unfoldable pub delete_key : Bytes → Bytes → Json → Outcome Json Bool
delete_key ctx key (object fs) = elim (find key fs) [
  | none ↦ ok false (object fs)
  | some _ ↦ ok true (object (erase key fs))
]
delete_key ctx key j = handle_error ctx (codes "delKey() called on type " ++ type_name j) j
