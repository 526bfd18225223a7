-- ===== src/Schema/Validate/Closed.antt =====
-- A schema that allows no more properties than it lists.
use gearbox.Base.{
  false, Bool-cases, Option-cases, inl, inr, ◌≡◌, refl, Bytes, codes, bytes_eq, bytes_eq_iff, none,
  some, arith,
}
use gearbox.Json.Value.{Json, Fields, find}
use gearbox.Schema.{accepts, Library, key_of}
use gearbox.Schema.Types.{valid_type, type_fixup}
use gearbox.Schema.Values.{Formats, additional_of, additional_properties}
use gearbox.Schema.Verdicts.{accepted}
use gearbox.Schema.Validate.{or_reject, child_in, child_of_key, validate, validate_object}
use Json.{bool, object}
use Fields.{end, field}

child_in-find :
    (ps : Fields) (key : Bytes) (s : Json)
    → child_in (some (object ps)) none key ≡ accepts s
    → find key ps ≡ some s
unfolding child_in or_reject
child_in-find ps key s h = elim (Option-cases (find key ps)) [
  | inl absent ↦ ground (h, absent, arith)
  | inr (t, present) ↦ ground (h, present, arith)
]

child_of_key-find :
    (so ps : Fields) (key : Bytes) (s : Json)
    → find (codes "additionalProperties") so ≡ some (bool false)
    → find (codes "properties") so ≡ some (object ps)
    → child_of_key (object so) key ≡ accepts s
    → find key ps ≡ some s
unfolding child_of_key additional_properties additional_of key_of
child_of_key-find so ps key s a p h = child_in-find ps key s (rw (a, p) at h)

validate_object-find :
    (lib : Library) (formats : Formats) (so ps fs gs : Fields)
    → find (codes "additionalProperties") so ≡ some (bool false)
    → find (codes "properties") so ≡ some (object ps)
    → validate_object lib formats (object so) fs ≡ accepts gs
    → (l : Bytes) → find l ps ≡ none
    → find l fs ≡ none
unfolding validate find
validate_object-find lib formats so ps end gs a p h l unlisted = refl
validate_object-find lib formats so ps (field k v fs) gs a p h l unlisted =
    let (s, e, h1) = accepted (child_of_key (object so) k) _ gs h in
    let (v', _, h2) = accepted (validate lib formats s v) _ gs h1 in
    let (gs', h3, _) = accepted (validate_object lib formats (object so) fs) _ gs h2 in
    let later = validate_object-find lib formats so ps fs gs' a p h3 l unlisted in
    let listed = child_of_key-find so ps k s a p e in
    elim (Bool-cases (bytes_eq k l)) [
      | inr other ↦ rw other later
      | inl same ↦ ground (rw ((bytes_eq_iff k l).0 same) at listed, unlisted, arith)
    ]

-- With "additionalProperties": false, an object that `validate` accepts has no key that the schema does
-- not list among its properties.
pub validate-find :
    (lib : Library) (formats : Formats) (so ps fs : Fields) (j : Json)
    → find (codes "additionalProperties") so ≡ some (bool false)
    → find (codes "properties") so ≡ some (object ps)
    → validate lib formats (object so) (object fs) ≡ accepts j
    → (l : Bytes) → find l ps ≡ none
    → find l fs ≡ none
unfolding validate
validate-find lib formats so ps fs j a p h =
    let (_, _, h1) = accepted (valid_type (object so) (object fs)) _ j h in
    let (_, _, h2) = accepted (type_fixup lib (object so) (object fs)) _ j h1 in
    let (gs, h3, _) = accepted (validate_object lib formats (object so) fs) _ j h2 in
    validate_object-find lib formats so ps fs gs a p h3
