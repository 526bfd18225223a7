-- ===== src/Schema/Values/Bounds.antt =====
-- What an accepted number, string or text of a double satisfies.
use gearbox.Base.{
  ℕ, suc, ◌≤◌, ℤ, pos, negsuc, true, false, ◌≡◌, refl, sym, ap, subst, ◌++◌, Bytes, codes, [], ◌∷◌,
  some, arith, length, ◌⊎◌, inl, inr, Bool-cases, ==_iff, bytes_eq_iff,
}
use gearbox.Json.Value.{Double, Json, Items}
use gearbox.Json.Access.{item_at}
use gearbox.Json.Parser.{has_dot}
use gearbox.Schema.{pass, Library, key_of, as_integer, to_u64, int_le}
use gearbox.Schema.Verdicts.{accepted_check, reject_if-accepts}
use gearbox.Schema.Values.{
  Formats, valid_min, valid_max, is_number, check_min, check_max, check_decimals, check_min_length,
  check_max_length, check_format, check_pattern, check_enum, in_enum, same_value, int_eq, bool_eq,
  valid_value, behind_dot, decimals,
}
use Json.{bool, int, double, string, array}
use Items.{nil, cons}

-- all checks of `validValue` have passed
record Passed (lib : Library) (formats : Formats) (schema j : Json) : Type 0 where
  min : check_min lib (key_of (codes "minimum") schema) j ≡ pass
  max : check_max lib (key_of (codes "maximum") schema) j ≡ pass
  min_length : check_min_length (key_of (codes "minLength") schema) j ≡ pass
  max_length : check_max_length (key_of (codes "maxLength") schema) j ≡ pass
  enum : check_enum lib (key_of (codes "enum") schema) j ≡ pass

valid_value-Passed :
    (lib : Library) (formats : Formats) (schema j : Json)
    → valid_value lib formats schema j ≡ pass
    → Passed lib formats schema j
unfolding valid_value
valid_value-Passed lib formats schema j h =
    let (a, h1) = accepted_check (check_min lib (key_of (codes "minimum") schema) j) _ tt h in
    let (b, h2) = accepted_check (check_max lib (key_of (codes "maximum") schema) j) _ tt h1 in
    let (_, h3) =
      accepted_check (check_decimals lib (key_of (codes "maxDecimal") schema) j) _ tt h2 in
    let (d, h4) = accepted_check (check_min_length (key_of (codes "minLength") schema) j) _ tt h3 in
    let (e, h5) = accepted_check (check_max_length (key_of (codes "maxLength") schema) j) _ tt h4 in
    let (_, h6) =
      accepted_check (check_format formats (key_of (codes "format") schema) j) _ tt h5 in
    let (_, h7) = accepted_check (check_pattern lib (key_of (codes "pattern") schema) j) _ tt h6 in
    record { min = a; max = b; min_length = d; max_length = e; enum = h7 }

-- the order of two whole numbers
abbrev pub AtMostInt : ℤ → ℤ → Type 0
AtMostInt (pos a) (pos b) = a ≤ b
AtMostInt (pos a) (negsuc b) = ⊥
AtMostInt (negsuc a) (pos b) = Unit
AtMostInt (negsuc a) (negsuc b) = b ≤ a

-- the order of two numbers, which is the library's where one of them is a double
abbrev pub AtMost : Library → Json → Json → Type 0
AtMost lib (int a) (int b) = AtMostInt a b
AtMost lib (int a) (double d) = lib.double_le (lib.of_int a) d ≡ true
AtMost lib (double d) (int b) = lib.double_le d (lib.of_int b) ≡ true
AtMost lib (double d) (double e) = lib.double_le d e ≡ true
AtMost lib a b = ⊥

-- one of the values, where doubles are compared by the library
abbrev pub IsOneOf : Library → Items → Json → Type 0
IsOneOf lib xs j =
    (n : ℕ) × (x : Json) × (item_at n xs ≡ some x)
    × ((x ≡ j)
        ⊎ ((a : Double) × (b : Double) × (x ≡ double a)
            × (j ≡ double b)
            × (lib.double_eq a b ≡ true)))

int_le-AtMostInt : (a b : ℤ) → int_le a b ≡ true → AtMostInt a b
unfolding int_le
int_le-AtMostInt (pos a) (pos b) h = ground (h, arith)
int_le-AtMostInt (pos a) (negsuc b) h = cc
int_le-AtMostInt (negsuc a) (pos b) h = tt
int_le-AtMostInt (negsuc a) (negsuc b) h = ground (h, arith)

valid_min-AtMost : (lib : Library) (m j : Json) → valid_min lib m j ≡ true → AtMost lib m j
unfolding valid_min
valid_min-AtMost lib (int a) (int b) h = int_le-AtMostInt a b h
valid_min-AtMost lib (int a) (double d) h = h
valid_min-AtMost lib (double d) (int b) h = h
valid_min-AtMost lib (double d) (double e) h = h
valid_min-AtMost lib m j h = cc

valid_max-AtMost : (lib : Library) (m j : Json) → valid_max lib m j ≡ true → AtMost lib j m
unfolding valid_max
valid_max-AtMost lib (int a) (int b) h = int_le-AtMostInt b a h
valid_max-AtMost lib (int a) (double d) h = h
valid_max-AtMost lib (double d) (int b) h = h
valid_max-AtMost lib (double d) (double e) h = h
valid_max-AtMost lib m j h = cc

check_min-AtMost :
    (lib : Library) (m j : Json)
    → is_number m ≡ true
    → check_min lib (some m) j ≡ pass
    → AtMost lib m j
unfolding check_min
check_min-AtMost lib m j n h = valid_min-AtMost lib m j (ground (reject_if-accepts _ _ h, n, arith))

check_max-AtMost :
    (lib : Library) (m j : Json)
    → is_number m ≡ true
    → check_max lib (some m) j ≡ pass
    → AtMost lib j m
unfolding check_max
check_max-AtMost lib m j n h = valid_max-AtMost lib m j (ground (reject_if-accepts _ _ h, n, arith))

same_value_lem :
    (lib : Library) (x j : Json)
    → same_value lib x j ≡ true
    → (x ≡ j)
      ⊎ ((a : Double) × (b : Double) × (x ≡ double a) × (j ≡ double b) × (lib.double_eq a b ≡ true))
unfolding same_value int_eq bool_eq
same_value_lem lib (int (pos a)) (int (pos b)) h = inl (ap (λ n. int (pos n)) ((==_iff a b).0 h))
same_value_lem lib (int (negsuc a)) (int (negsuc b)) h =
    inl (ap (λ n. int (negsuc n)) ((==_iff a b).0 h))
same_value_lem lib (double a) (double b) h = inr (a, b, refl, refl, h)
same_value_lem lib (bool true) (bool b) h = inl (ap bool (sym h))
same_value_lem lib (bool false) (bool b) h = inl (ap bool (ground (h, arith)))
same_value_lem lib (string a) (string b) h = inl (ap string ((bytes_eq_iff a b).0 h))
same_value_lem lib x j h = cc

in_enum-IsOneOf :
    (lib : Library) (xs : Items) (j : Json) → in_enum lib xs j ≡ true → IsOneOf lib xs j
unfolding in_enum item_at
in_enum-IsOneOf lib nil j h = cc
in_enum-IsOneOf lib (cons x xs) j h = elim (Bool-cases (same_value lib x j)) [
  | inl same ↦ (0, x, refl, same_value_lem lib x j same)
  | inr other ↦
      let (n, y, at, same) = in_enum-IsOneOf lib xs j (rw other at h) in (suc n, y, at, same)
]

check_enum-IsOneOf :
    (lib : Library) (xs : Items) (j : Json)
    → check_enum lib (some (array xs)) j ≡ pass
    → IsOneOf lib xs j
unfolding check_enum
check_enum-IsOneOf lib xs j h = in_enum-IsOneOf lib xs j (ground (reject_if-accepts _ _ h, arith))

min_length_le :
    (m : ℤ) (s : Bytes) → check_min_length (some (int m)) (string s) ≡ pass → to_u64 m ≤ length s
unfolding check_min_length as_integer
min_length_le m s h = ground (reject_if-accepts _ _ h, arith)

max_length_le :
    (m : ℤ) (s : Bytes) → check_max_length (some (int m)) (string s) ≡ pass → length s ≤ to_u64 m
unfolding check_max_length as_integer
max_length_le m s h = ground (reject_if-accepts _ _ h, arith)

valid_value-length :
    (lib : Library) (formats : Formats) (schema j : Json) (s : Bytes)
    → j ≡ string s
    → Passed lib formats schema j
    → ((m : ℤ) → key_of (codes "minLength") schema ≡ some (int m) → to_u64 m ≤ length s)
      × ((m : ℤ) → key_of (codes "maxLength") schema ≡ some (int m) → length s ≤ to_u64 m)
valid_value-length lib formats schema j s is p = (
  λ m e. min_length_le m s (rw (e, is) at p.min_length),
  λ m e. max_length_le m s (rw (e, is) at p.max_length),
)

-- A value that `validValue` accepts is within the schema, as far as the schema has the bound: a
-- minimum that is a number is at most the value, which is then a number too; the value is at most a
-- maximum that is one; the value is an item of the array "enum", where two doubles are compared by the
-- library; and a string has at least the bytes of "minLength" and at most those of "maxLength", read as
-- unsigned 64-bit numbers. A whole number and a double are compared by the library, as doubles.
pub valid_value_lem :
    (lib : Library) (formats : Formats) (schema j : Json)
    → valid_value lib formats schema j ≡ pass
    → ((m : Json) → key_of (codes "minimum") schema ≡ some m → is_number m ≡ true → AtMost lib m j)
      × ((m : Json)
          → key_of (codes "maximum") schema ≡ some m
          → is_number m ≡ true
          → AtMost lib j m)
      × ((xs : Items) → key_of (codes "enum") schema ≡ some (array xs) → IsOneOf lib xs j)
      × ((s : Bytes)
          → j ≡ string s
          → ((m : ℤ) → key_of (codes "minLength") schema ≡ some (int m) → to_u64 m ≤ length s)
            × ((m : ℤ) → key_of (codes "maxLength") schema ≡ some (int m) → length s ≤ to_u64 m))
valid_value_lem lib formats schema j h =
    let p = valid_value-Passed lib formats schema j h in
    (
      λ m e n. check_min-AtMost lib m j n (subst (λ o. check_min lib o j ≡ pass) e p.min),
      λ m e n. check_max-AtMost lib m j n (subst (λ o. check_max lib o j ≡ pass) e p.max),
      λ xs e. check_enum-IsOneOf lib xs j (subst (λ o. check_enum lib o j ≡ pass) e p.enum),
      λ s is. valid_value-length lib formats schema j s is p,
    )

has_dot-append : (whole frac : Bytes) → has_dot (whole ++ (b'.' ∷ frac)) ≡ true
unfolding has_dot
has_dot-append [] frac = refl
has_dot-append (c ∷ s) frac = ground (has_dot-append s frac, arith)

behind_dot-append :
    (whole frac : Bytes) → has_dot whole ≡ false → behind_dot (whole ++ (b'.' ∷ frac)) ≡ frac
unfolding has_dot behind_dot
behind_dot-append [] frac h = refl
behind_dot-append (c ∷ s) frac h = ground (behind_dot-append s frac, arith)

-- The decimal places that are counted in the text of a double: those behind the dot, if it has one,
-- and all its characters if it has none.
pub decimals_lem :
    (whole frac : Bytes)
    → has_dot whole ≡ false
    → (decimals (whole ++ (b'.' ∷ frac)) ≡ length frac) × (decimals whole ≡ length whole)
unfolding decimals
decimals_lem whole frac h =
    (rw (has_dot-append whole frac, behind_dot-append whole frac h) refl, rw h refl)
