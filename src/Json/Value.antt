-- ===== src/Json/Value.antt =====
-- The values of gearbox/core/Json.h. A double is its 64 bits; what the code asks of one is a library
-- function. An object is a `std::map`, with its keys in order; an array is a vector.
use gearbox.Base.{
  ℕ, suc, ℤ, Bool, true, false, [], ◌∷◌, Bytes, codes, bytes_eq, is_empty, ltb, Option, none, some,
  if◌then◌else◌,
}

pub record Double : Type 0 where
  pub bits : ℕ

mutual
  pub data Json : Type 0 where
    undef : Json
    bool : Bool → Json
    int : ℤ → Json
    double : Double → Json
    string : Bytes → Json
    object : Fields → Json
    array : Items → Json

  pub data Items : Type 0 where
    nil : Items
    cons : Json → Items → Items

  pub data Fields : Type 0 where
    end : Fields
    field : Bytes → Json → Fields → Fields

-- `operator <` on strings
unfoldable pub before : Bytes → Bytes → Bool
before s [] = false
before [] (d ∷ t) = true
before (c ∷ s) (d ∷ t) =
    let later = before s t in if ltb c d then true else if ltb d c then false else later

-- `find` on a map
unfoldable pub find : Bytes → Fields → Option Json
find key end = none
find key (field k v fs) = let later = find key fs in if bytes_eq k key then some v else later

-- `insert` on a map: a key that is there keeps its value
unfoldable pub map_insert : Bytes → Json → Fields → Fields
map_insert key v end = field key v end
map_insert key v (field k w fs) =
    let later = field k w (map_insert key v fs) in
    if before k key
    then later
    else if before key k
    then field key v (field k w fs)
    else field k w fs

-- `push_back` on a vector, and its size
unfoldable pub push_back : Items → Json → Items
push_back nil v = cons v nil
push_back (cons x xs) v = cons x (push_back xs v)

unfoldable pub array_size : Items → ℕ
array_size nil = 0
array_size (cons x xs) = suc (array_size xs)

unfoldable pub size_of : Fields → ℕ
size_of end = 0
size_of (field k v fs) = suc (size_of fs)

-- `typeToName` on the type of a value
pub type_name : Json → Bytes
type_name undef = codes "null"
type_name (bool b) = codes "boolean"
type_name (int n) = codes "integer"
type_name (double d) = codes "double"
type_name (string s) = codes "string"
type_name (object fs) = codes "object"
type_name (array xs) = codes "array"

-- `empty()`
unfoldable pub empty : Json → Bool
empty undef = true
empty (string s) = is_empty s
empty (object end) = true
empty (array nil) = true
empty _ = false

-- `hasKey`
unfoldable pub has_key : Bytes → Json → Bool
has_key key (object fs) = elim (find key fs) [ none ↦ false | some _ ↦ true ]
has_key key _ = false
