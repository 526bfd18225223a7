-- ===== src/Schema/Validate/Complete.antt =====
-- What an accepted object has: the properties that its schema wants.
use gearbox.Base.{
  ℕ, zero, suc, true, false, not, Bool-cases, inl, inr, ◌⊎◌, ◌≡◌, refl, sym, subst, Bytes, codes,
  Option, none, some, arith,
}
use gearbox.Json.Value.{Json, Items, Fields, has_key}
use gearbox.Json.Access.{item_at}
use gearbox.Schema.{accepts, pass, Library, key_of, as_object, as_text}
use gearbox.Schema.Types.{valid_type, type_fixup}
use gearbox.Schema.Values.{Formats}
use gearbox.Schema.Verdicts.{accepted, accepted_check, reject_if-accepts, accepts_inj}
use gearbox.Schema.Validate.{
  is_optional, needs, needs_all, check_property, check_requires, check_all, valid_requires,
  set_defaults, complete_object, validate, validate_object,
}
use Json.{undef, bool, int, double, string, object, array}
use Items.{nil, cons}
use Fields.{end, field}

-- what "requires" names is set: one property, or each of an array
abbrev pub Sets : Fields → Option Json → Type 0
Sets gs (some (string r)) = has_key r (object gs) ≡ true
Sets gs (some (array rs)) =
    (n : ℕ) (j : Json)
    → item_at n rs ≡ some j
    → (r : Bytes) × (j ≡ string r) × (has_key r (object gs) ≡ true)
Sets gs r = Unit

-- Each property is set if it is not optional; if it is optional and set, so is what it requires.
abbrev pub Complete : Fields → Fields → Type 0
Complete end gs = Unit
Complete (field k s ps) gs =
    (((is_optional s ≡ accepts false) × (has_key k (object gs) ≡ true))
      ⊎ ((is_optional s ≡ accepts true)
          × (has_key k (object gs) ≡ true → Sets gs (key_of (codes "requires") s))))
    × Complete ps gs

needs_lem :
    (k : Bytes) (gs : Fields) (j : Json)
    → needs k gs j ≡ pass
    → (r : Bytes) × (j ≡ string r) × (has_key r (object gs) ≡ true)
unfolding needs as_text
needs_lem k gs (string r) h =
    (r, refl, ground (reject_if-accepts (not (has_key r (object gs))) _ h, arith))
needs_lem k gs (undef) h = cc
needs_lem k gs (bool b) h = cc
needs_lem k gs (int n) h = cc
needs_lem k gs (double d) h = cc
needs_lem k gs (object fs) h = cc
needs_lem k gs (array xs) h = cc

needs_all_lem :
    (k : Bytes) (gs : Fields) (rs : Items) → needs_all k gs rs ≡ pass → Sets gs (some (array rs))
unfolding needs_all item_at
needs_all_lem k gs nil h n j e = cc
needs_all_lem k gs (cons r rs) h zero j e =
    let (one, _) = accepted_check (needs k gs r) _ tt h in
    let same : r ≡ j = cc in needs_lem k gs j (subst (λ x. needs k gs x ≡ pass) same one)
needs_all_lem k gs (cons r rs) h (suc n) j e =
    let (_, rest) = accepted_check (needs k gs r) _ tt h in needs_all_lem k gs rs rest n j e

check_requires_lem :
    (k : Bytes) (gs : Fields) (r : Option Json) → check_requires k gs r ≡ pass → Sets gs r
unfolding check_requires needs as_text
check_requires_lem k gs none h = tt
check_requires_lem k gs (some (string r)) h =
    ground (reject_if-accepts (not (has_key r (object gs))) _ h, arith)
check_requires_lem k gs (some (array rs)) h = needs_all_lem k gs rs h
check_requires_lem k gs (some undef) h = tt
check_requires_lem k gs (some (bool b)) h = tt
check_requires_lem k gs (some (int n)) h = tt
check_requires_lem k gs (some (double d)) h = tt
check_requires_lem k gs (some (object fs)) h = tt

check_property_lem :
    (k : Bytes) (s : Json) (gs : Fields)
    → check_property k s gs ≡ pass
    → ((is_optional s ≡ accepts false) × (has_key k (object gs) ≡ true))
      ⊎ ((is_optional s ≡ accepts true)
          × (has_key k (object gs) ≡ true → Sets gs (key_of (codes "requires") s)))
unfolding check_property
check_property_lem k s gs h =
    let (optional, e, h') = accepted (is_optional s) _ tt h in
    elim (Bool-cases optional) [
      | inl on ↦ inr (
        (rw on at e),
        λ has. check_requires_lem k gs (key_of (codes "requires") s) (ground (has, on, h', arith)),
      )
      | inr off ↦ inl (
        (rw off at e),
        ground (reject_if-accepts (not (has_key k (object gs))) _ (rw off at h'), arith),
      )
    ]

check_all-Complete : (ps gs : Fields) → check_all ps gs ≡ pass → Complete ps gs
unfolding check_all
check_all-Complete end gs h = tt
check_all-Complete (field k s ps) gs h =
    let (one, rest) = accepted_check (check_property k s gs) _ tt h in
    (check_property_lem k s gs one, check_all-Complete ps gs rest)

-- An object that `validate` accepts is an object again, and it is complete: of the properties of its
-- schema, if that lists any, each is set unless it is optional, and if an optional one is set, so is the
-- property that its "requires" names, or, where that is an array, every one of its items, all of which
-- are texts.
pub validate-Complete :
    (lib : Library) (formats : Formats) (schema j : Json) (fs ps : Fields)
    → key_of (codes "properties") schema ≡ some (object ps)
    → validate lib formats schema (object fs) ≡ accepts j
    → (gs : Fields) × (j ≡ object gs) × Complete ps gs
unfolding validate complete_object set_defaults valid_requires as_object
validate-Complete lib formats schema j fs ps p h =
    let (_, _, h1) = accepted (valid_type schema (object fs)) _ j h in
    let (_, _, h2) = accepted (type_fixup lib schema (object fs)) _ j h1 in
    let (fs', _, h3) = accepted (validate_object lib formats schema fs) _ j h2 in
    let (gs, _, h4) = accepted (set_defaults lib (key_of (codes "properties") schema) fs') _ j h3 in
    let (r, e) = accepted_check (valid_requires (key_of (codes "properties") schema) gs) _ j h4 in
    (
      gs,
      sym (accepts_inj _ _ e),
      check_all-Complete ps gs (subst (λ o. valid_requires o gs ≡ pass) p r),
    )
