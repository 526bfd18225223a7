-- ===== src/Json/Access/Copy.antt =====
-- `copy` of a value.
use gearbox.Base.{◌≡◌, refl, ap}
use gearbox.Json.Value.{Json, Items, Fields, map_insert, push_back}
use gearbox.Json.Order.{
  Ascending, IsSorted, IsSortedFields, IsSortedItems, Apart, Apart-end, Apart-map_insert, join,
  join-end, join-map_insert, join_items, join_items-nil, join_items-push_back,
}
use Json.{undef, bool, int, double, string, object, array}
use Items.{nil, cons}
use Fields.{end, field}

-- `copy`: the loops of the two private overloads build a new map and a new vector
unfoldable mutual
  pub copy_json : Json → Json
  copy_json undef = undef
  copy_json (bool b) = bool b
  copy_json (int n) = int n
  copy_json (double d) = double d
  copy_json (string s) = string s
  copy_json (object fs) = object (copy_object fs end)
  copy_json (array xs) = array (copy_array xs nil)

  pub copy_object : Fields → Fields → Fields
  copy_object end done = done
  copy_object (field k v fs) done = copy_object fs (map_insert k (copy_json v) done)

  pub copy_array : Items → Items → Items
  copy_array nil done = done
  copy_array (cons x xs) done = copy_array xs (push_back done (copy_json x))

mutual
  unfolding copy_json IsSorted join join_items

  copy_json_self : (j : Json) → IsSorted j → copy_json j ≡ j
  copy_json_self undef s = refl
  copy_json_self (bool b) s = refl
  copy_json_self (int n) s = refl
  copy_json_self (double d) s = refl
  copy_json_self (string t) s = refl
  copy_json_self (object fs) (a, s) = ap object (copy_object-join fs end a s (Apart-end fs))
  copy_json_self (array xs) s = ap array (copy_array-join xs nil s)

  copy_object-join :
      (fs done : Fields)
      → Ascending fs
      → IsSortedFields fs
      → Apart done fs
      → copy_object fs done ≡ join done fs
  copy_object-join end done a s p = rw (join-end done) refl
  copy_object-join (field k v fs) done (o, a) (sv, s) (u, p) =
      rw
        (
          copy_json_self v sv,
          copy_object-join fs (map_insert k v done) a s (Apart-map_insert k v done fs o p),
        )
        (join-map_insert k v done fs u)

  copy_array-join : (xs done : Items) → IsSortedItems xs → copy_array xs done ≡ join_items done xs
  copy_array-join nil done s = rw (join_items-nil done) refl
  copy_array-join (cons x xs) done (sx, s) =
      rw (copy_json_self x sx, copy_array-join xs (push_back done x) s)
        (join_items-push_back done xs x)

-- A copy of a value whose keys ascend, as those of a map do, is that value.
pub copy_json_lem : (j : Json) → IsSorted j → copy_json j ≡ j
copy_json_lem j s = copy_json_self j s
