-- ===== src/Json/Access/Index.antt =====
-- What is read after an assignment to an index.
use gearbox.Base.{
  ℕ, zero, suc, ◌+◌, ◌-◌, ◌≡◌, ◌≢◌, refl, ◌⊎◌, inl, inr, Bool-cases, Bool, true, false, Bytes,
  codes, ◌++◌, none, some, ltb, ◌==◌, if◌then◌else◌, arith, ap, ◌∙◌,
}
use gearbox.Errors.{ok, throw}
use gearbox.Json.Value.{Json, Items, push_back, array_size, type_name}
use gearbox.Json.Parser.{json_error_at}
use gearbox.Json.Access.{item_at, replace_at, push_nulls, grow_array, at_index, put_at, set_at}
use Json.{undef, bool, int, double, string, object, array}
use Items.{nil, cons}

array_size-push_back : (xs : Items) (v : Json) → array_size (push_back xs v) ≡ array_size xs + 1
unfolding array_size push_back
array_size-push_back nil v = omega arith
array_size-push_back (cons x xs) v = omega (arith, array_size-push_back xs v)

array_size-push_nulls : (n : ℕ) (xs : Items) → array_size (push_nulls n xs) ≡ array_size xs + n
unfolding push_nulls
array_size-push_nulls zero xs = omega arith
array_size-push_nulls (suc n) xs =
    omega (arith, array_size-push_nulls n (push_back xs undef), array_size-push_back xs undef)

array_size-replace_at :
    (n : ℕ) (v : Json) (xs : Items) → array_size (replace_at n v xs) ≡ array_size xs
unfolding array_size replace_at
array_size-replace_at n v nil = refl
array_size-replace_at zero v (cons x xs) = refl
array_size-replace_at (suc n) v (cons x xs) = ap suc (array_size-replace_at n v xs)

-- the old items, and then nulls
item_at-push_back :
    (m : ℕ) (xs : Items) (v : Json)
    → item_at m (push_back xs v) ≡ (
        if ltb m (array_size xs) then item_at m xs else if m == array_size xs then some v else none)
unfolding item_at push_back array_size
item_at-push_back zero nil v = ground arith
item_at-push_back (suc m) nil v = ground arith
item_at-push_back zero (cons x xs) v = ground arith
item_at-push_back (suc m) (cons x xs) v = ground (arith, item_at-push_back m xs v)

item_at-none : (m : ℕ) (xs : Items) → ltb m (array_size xs) ≡ false → item_at m xs ≡ none
unfolding item_at array_size
item_at-none m nil h = refl
item_at-none zero (cons x xs) h = ground arith
item_at-none (suc m) (cons x xs) h = item_at-none m xs (ground arith)

item_at-push_nulls :
    (m n : ℕ) (xs : Items)
    → item_at m (push_nulls n xs) ≡ (
        if ltb m (array_size xs)
        then item_at m xs
        else if ltb m (array_size xs + n)
        then some undef
        else none)
unfolding push_nulls
item_at-push_nulls m zero xs = ground (arith, item_at-none m xs)
item_at-push_nulls m (suc n) xs = ground (
  arith,
  item_at-push_nulls m n (push_back xs undef),
  item_at-push_back m xs undef,
  array_size-push_back xs undef,
)

item_at-replace_at :
    (m n : ℕ) (v : Json) (xs : Items)
    → item_at m (replace_at n v xs)
      ≡ (if m == n then if ltb m (array_size xs) then some v else none else item_at m xs)
unfolding item_at replace_at array_size
item_at-replace_at m n v nil = ground arith
item_at-replace_at zero zero v (cons x xs) = ground arith
item_at-replace_at (suc m) zero v (cons x xs) = ground arith
item_at-replace_at zero (suc n) v (cons x xs) = ground arith
item_at-replace_at (suc m) (suc n) v (cons x xs) = ground (arith, item_at-replace_at m n v xs)

-- the vector of a value
abbrev pub items_of : Json → Items
items_of (array xs) = xs
items_of _ = nil

-- what an index can be assigned to: null becomes an array
abbrev pub takes_index : Json → Bool
takes_index (array xs) = true
takes_index undef = true
takes_index _ = false

-- the vector after the assignment
assigned : ℕ → Json → Items → Items
assigned n v xs = replace_at n v (grow_array (n + 1) xs)

array_size-assigned :
    (n : ℕ) (v : Json) (xs : Items)
    → array_size (assigned n v xs) ≡ (if ltb (array_size xs) (n + 1) then n + 1 else array_size xs)
unfolding assigned grow_array
array_size-assigned n v xs = elim (Bool-cases (ltb (array_size xs) (n + 1))) [
  | inl grows ↦ rw grows (
      array_size-replace_at n v _
      ∙ (array_size-push_nulls (n + 1 - array_size xs) xs ∙ ground (arith, grows)))
  | inr fits ↦ rw fits (array_size-replace_at n v xs)
]

item_at-assigned_self : (n : ℕ) (v : Json) (xs : Items) → item_at n (assigned n v xs) ≡ some v
unfolding assigned grow_array
item_at-assigned_self n v xs = elim (Bool-cases (ltb (array_size xs) (n + 1))) [
  | inl grows ↦ rw grows (
      ground (
        arith,
        item_at-replace_at n n v (push_nulls (n + 1 - array_size xs) xs),
        array_size-push_nulls (n + 1 - array_size xs) xs,
        grows,
      ))
  | inr fits ↦ rw fits (ground (arith, item_at-replace_at n n v xs, fits))
]

item_at-assigned_other :
    (n m : ℕ) (v : Json) (xs : Items)
    → m ≢ n
    → item_at m (assigned n v xs)
      ≡ (if ltb m (array_size xs) then item_at m xs else if ltb m n then some undef else none)
unfolding assigned grow_array
item_at-assigned_other n m v xs other = elim (Bool-cases (ltb (array_size xs) (n + 1))) [
  | inl grows ↦ rw grows (
      ground (
        arith,
        item_at-replace_at m n v (push_nulls (n + 1 - array_size xs) xs),
        item_at-push_nulls m (n + 1 - array_size xs) xs,
        grows,
        other,
      ))
  | inr fits ↦ rw fits (ground (arith, item_at-replace_at m n v xs, item_at-none m xs, fits, other))
]

-- `json[n] = v`, on all values. On an array or null, which becomes an array, it returns: the array then
-- has as many items as before, or n + 1 if it had fewer; item n is v; every other item is as before,
-- and those between the old end and n are null. On any other value it throws and leaves the value.
pub set_at_lem :
    (ctx : Bytes) (n : ℕ) (v j : Json)
    → ((takes_index j ≡ true)
        × ((xs : Items) × (set_at ctx n v j ≡ ok tt (array xs))
            × (array_size xs ≡ (
                if ltb (array_size (items_of j)) (n + 1) then n + 1 else array_size (items_of j)))
            × (item_at n xs ≡ some v)
            × ((m : ℕ)
                → m ≢ n
                → item_at m xs ≡ (
                    if ltb m (array_size (items_of j))
                    then item_at m (items_of j)
                    else if ltb m n
                    then some undef
                    else none))))
      ⊎ ((takes_index j ≡ false)
          × (set_at ctx n v j
              ≡ throw
                  (json_error_at ctx (codes "cannot access array index on type " ++ type_name j))
                  j))
unfolding set_at at_index put_at assigned
set_at_lem ctx n v (array xs) = inl (
  refl,
  (
    assigned n v xs,
    refl,
    array_size-assigned n v xs,
    item_at-assigned_self n v xs,
    λ m other. item_at-assigned_other n m v xs other,
  ),
)
set_at_lem ctx n v undef = inl (
  refl,
  (
    assigned n v nil,
    refl,
    array_size-assigned n v nil,
    item_at-assigned_self n v nil,
    λ m other. item_at-assigned_other n m v nil other,
  ),
)
set_at_lem ctx n v (bool b) = inr (refl, refl)
set_at_lem ctx n v (int k) = inr (refl, refl)
set_at_lem ctx n v (double d) = inr (refl, refl)
set_at_lem ctx n v (string s) = inr (refl, refl)
set_at_lem ctx n v (object fs) = inr (refl, refl)
