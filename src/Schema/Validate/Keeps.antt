-- ===== src/Schema/Validate/Keeps.antt =====
-- What `setDefaults` makes of an object.
use gearbox.Base.{
  true, false, Bool-cases, Option-cases, inl, inr, ◌≡◌, refl, sym, ◌∙◌, Bytes, codes, bytes_eq,
  bytes_eq_iff, Option, none, some, arith, if◌then◌else◌,
}
use gearbox.Json.Value.{Json, Fields, find, map_insert, has_key}
use gearbox.Json.Order.{Ascending}
use gearbox.Json.Access.Keyed.{find-map_insert, Over-find}
use gearbox.Schema.{Verdict, accepts, rejects, Library, key_of, as_object}
use gearbox.Schema.Types.{type_fixup}
use gearbox.Schema.Verdicts.{accepted, accepts_inj}
use gearbox.Schema.Validate.{default_for, default_all, set_defaults}
use Json.{object}
use Fields.{end, field}

-- the first of two values that is there
abbrev pub or_else : Option Json → Option Json → Option Json
or_else (some v) d = some v
or_else none d = d

-- the value that a property gets when it is missing
fixed : Verdict Json → Option Json
fixed (accepts d) = some d
fixed (rejects msg) = none

default_at : Library → Json → Option Json → Option Json
default_at lib s none = none
default_at lib s (some d) = fixed (type_fixup lib s d)

unfoldable pub default_value : Library → Option Json → Option Json
unfolding fixed default_at
default_value lib none = none
default_value lib (some s) = default_at lib s (key_of (codes "default") s)

or_else-none : (o : Option Json) → or_else o none ≡ o
or_else-none none = refl
or_else-none (some v) = refl

has_key-find : (k : Bytes) (fs : Fields) → has_key k (object fs) ≡ false → find k fs ≡ none
unfolding has_key
has_key-find k fs h = elim (Option-cases (find k fs)) [
  | inl absent ↦ absent
  | inr (v, present) ↦ ground (h, present, arith)
]

find_same : (k l : Bytes) (fs : Fields) → bytes_eq k l ≡ true → find l fs ≡ find k fs
find_same k l fs same = rw ((bytes_eq_iff k l).0 same) refl

-- a key that is there is not touched
has_key-or_else :
    (k l : Bytes) (fs : Fields) (d : Option Json)
    → has_key k (object fs) ≡ true
    → find l fs ≡ (if bytes_eq k l then or_else (find l fs) d else find l fs)
unfolding has_key
has_key-or_else k l fs d h = elim (Bool-cases (bytes_eq k l)) [
  | inr other ↦ rw other refl
  | inl same ↦ elim (Option-cases (find k fs)) [
    | inl absent ↦ ground (h, absent, arith)
    | inr (v, present) ↦ rw (same, find_same k l fs same ∙ present) refl
  ]
]

default_for-find :
    (lib : Library) (k l : Bytes) (s : Json) (o : Option Json) (fs gs : Fields)
    → default_for lib k s o fs ≡ accepts gs
    → find l gs ≡ (if bytes_eq k l then or_else (find l fs) (default_at lib s o) else find l fs)
unfolding default_for default_at fixed
default_for-find lib k l s none fs gs h =
    rw (sym (accepts_inj fs gs h)) (ground (or_else-none (find l fs), arith))
default_for-find lib k l s (some d) fs gs h = elim (Bool-cases (has_key k (object fs))) [
  | inl there ↦
      rw (sym (accepts_inj fs gs (ground (h, there, arith))))
        (has_key-or_else k l fs (fixed (type_fixup lib s d)) there)
  | inr missing ↦
      let (d', e, h') =
        accepted (type_fixup lib s d) (λ d'. accepts (map_insert k d' fs)) gs
          (ground (h, missing, arith)) in
      rw (sym (accepts_inj _ gs h'), find-map_insert k l d' fs (has_key-find k fs missing), e)
        (elim (Bool-cases (bytes_eq k l)) [
          | inr other ↦ rw other refl
          | inl same ↦ rw (same, find_same k l fs same ∙ has_key-find k fs missing) refl
        ])
]

default_all-find :
    (lib : Library) (ps fs gs : Fields)
    → Ascending ps
    → default_all lib ps fs ≡ accepts gs
    → (l : Bytes) → find l gs ≡ or_else (find l fs) (default_value lib (find l ps))
unfolding default_all find default_value
default_all-find lib end fs gs a h l =
    rw (sym (accepts_inj fs gs h)) (sym (or_else-none (find l fs)))
default_all-find lib (field k s ps) fs gs (o, a) h l =
    let (fs', e, h') = accepted (default_for lib k s (key_of (codes "default") s) fs) _ gs h in
    rw (default_all-find lib ps fs' gs a h' l, default_for-find lib k l s _ fs fs' e)
      (elim (Bool-cases (bytes_eq k l)) [
        | inr other ↦ rw other refl
        | inl same ↦ rw (same, Over-find k l ps same o) (or_else-none _)
      ])

-- `setDefaults` with the properties of a schema, whose keys ascend: when it returns, each key that the
-- object had has its value as before, and each missing one that has a default has that, with its type
-- fixed; no other key is added.
pub set_defaults_lem :
    (lib : Library) (ps fs gs : Fields)
    → Ascending ps
    → set_defaults lib (some (object ps)) fs ≡ accepts gs
    → (l : Bytes) → find l gs ≡ or_else (find l fs) (default_value lib (find l ps))
unfolding set_defaults as_object
set_defaults_lem lib ps fs gs a h l = default_all-find lib ps fs gs a h l
