-- ===== src/Schema/Validate/Sizes.antt =====
-- The size of an accepted array.
use gearbox.Base.{ℕ, suc, ◌+◌, ◌≤◌, ℤ, ◌≡◌, sym, subst, codes, some, arith, ap}
use gearbox.Json.Value.{Json, Items, array_size}
use gearbox.Schema.{accepts, pass, Library, key_of, as_integer, to_u32}
use gearbox.Schema.Types.{valid_type, type_fixup}
use gearbox.Schema.Values.{Formats, check_min_size, check_max_size, valid_min_size, valid_max_size}
use gearbox.Schema.Verdicts.{accepted, accepted_check, accepts_inj, reject_if-accepts}
use gearbox.Schema.Validate.{child_of_index, validate, validate_array}
use Json.{int, array}
use Items.{nil, cons}

min_size_le : (m : ℤ) (n : ℕ) → check_min_size (some (int m)) n ≡ pass → to_u32 m ≤ n
unfolding check_min_size as_integer
min_size_le m n h = ground (reject_if-accepts _ _ h, arith)

max_size_le : (m : ℤ) (n : ℕ) → check_max_size (some (int m)) n ≡ pass → n ≤ to_u32 m
unfolding check_max_size as_integer
max_size_le m n h = ground (reject_if-accepts _ _ h, arith)

array_size-validate_array :
    (lib : Library) (formats : Formats) (schema : Json) (n : ℕ) (xs ys : Items)
    → validate_array lib formats schema n xs ≡ accepts ys
    → array_size ys ≡ array_size xs
unfolding validate array_size
array_size-validate_array lib formats schema n nil ys h = ap array_size (sym (accepts_inj _ _ h))
array_size-validate_array lib formats schema n (cons x xs) ys h =
    let (s, _, h1) = accepted (child_of_index schema n) _ ys h in
    let (x', _, h2) = accepted (validate lib formats s x) _ ys h1 in
    let (zs, h3, e) = accepted (validate_array lib formats schema (n + 1) xs) _ ys h2 in
    rw (sym (accepts_inj _ _ e))
      (ap suc (array_size-validate_array lib formats schema (n + 1) xs zs h3))

-- An array that `validate` accepts is an array of the same size again, and that size is at least
-- "minItems" and at most "maxItems", which are read as unsigned 32-bit numbers.
pub array_size-validate :
    (lib : Library) (formats : Formats) (schema j : Json) (xs : Items)
    → validate lib formats schema (array xs) ≡ accepts j
    → (ys : Items) × (j ≡ array ys)
      × (array_size ys ≡ array_size xs)
      × ((m : ℤ) → key_of (codes "minItems") schema ≡ some (int m) → to_u32 m ≤ array_size xs)
      × ((m : ℤ) → key_of (codes "maxItems") schema ≡ some (int m) → array_size xs ≤ to_u32 m)
unfolding validate valid_min_size valid_max_size
array_size-validate lib formats schema j xs h =
    let (_, _, h1) = accepted (valid_type schema (array xs)) _ j h in
    let (_, _, h2) = accepted (type_fixup lib schema (array xs)) _ j h1 in
    let (least, h3) = accepted_check (valid_min_size schema xs) _ j h2 in
    let (most, h4) = accepted_check (valid_max_size schema xs) _ j h3 in
    let (ys, e, done) = accepted (validate_array lib formats schema 0 xs) _ j h4 in
    let (min, _) =
      accepted_check (check_min_size (key_of (codes "minItems") schema) (array_size xs)) _ tt
        least in
    (
      ys,
      sym (accepts_inj _ _ done),
      array_size-validate_array lib formats schema 0 xs ys e,
      λ m k. min_size_le m _ (subst (λ o. check_min_size o (array_size xs) ≡ pass) k min),
      λ m k. max_size_le m _ (subst (λ o. check_max_size o (array_size xs) ≡ pass) k most),
    )
