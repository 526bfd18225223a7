-- ===== src/Json/Access/Keyed.antt =====
-- What is read after a change of a key.
use gearbox.Base.{
  ◌≡◌, refl, ◌⊎◌, inl, inr, Bool-cases, Option-cases, Bool, true, false, Bytes, bytes_eq,
  bytes_eq_iff, none, some, if◌then◌else◌, arith, ap, subst, ◌∙◌,
}
use gearbox.Errors.{Outcome, ok, throw}
use gearbox.Json.Value.{Json, Fields, find, map_insert, has_key}
use gearbox.Json.Order.{before_total, Ascending, Over, find-none-Over}
use gearbox.Json.Parser.{json_error_at}
use gearbox.Json.Access.{replace, erase, add_key, at_key, put_key, set_key, delete_key}
use Json.{undef, bool, int, double, string, object, array}
use Fields.{end, field}

bytes_eq_self : (s : Bytes) → bytes_eq s s ≡ true
bytes_eq_self s = (bytes_eq_iff s s).1 refl

-- a key that equals another is equal to what that is equal to
pub bytes_eq_other : (k key l : Bytes) → bytes_eq k key ≡ true → bytes_eq k l ≡ bytes_eq key l
bytes_eq_other k key l h = rw ((bytes_eq_iff k key).0 h) refl

bytes_eq_same : (k key l : Bytes) → bytes_eq key l ≡ true → bytes_eq k l ≡ bytes_eq k key
bytes_eq_same k key l h = rw ((bytes_eq_iff key l).0 h) refl

-- in a map, a key is found once it is inserted, and no other key is touched
pub find-map_insert :
    (key l : Bytes) (v : Json) (fs : Fields)
    → find key fs ≡ none
    → find l (map_insert key v fs) ≡ (if bytes_eq key l then some v else find l fs)
unfolding find map_insert
find-map_insert key l v end h = refl
find-map_insert key l v (field k w fs) h =
    let later : find key fs ≡ none → _ = find-map_insert key l v fs in
    ground (later, before_total k key, bytes_eq_other k key l, bytes_eq_same k key l, arith)

find-replace :
    (key l : Bytes) (v u : Json) (fs : Fields)
    → find key fs ≡ some u
    → find l (replace key v fs) ≡ (if bytes_eq key l then some v else find l fs)
unfolding find replace
find-replace key l v u end h = cc
find-replace key l v u (field k w fs) h = elim (Bool-cases (bytes_eq k key)) [
  | inl same ↦ rw (same, bytes_eq_other k key l same) (ground arith)
  | inr other ↦ rw other (ground (find-replace key l v u fs, bytes_eq_same k key l, arith))
]

pub Over-find : (k l : Bytes) (fs : Fields) → bytes_eq k l ≡ true → Over k fs → find l fs ≡ none
Over-find k l fs same o = find-none-Over l fs (subst (λ s. Over s fs) ((bytes_eq_iff k l).0 same) o)

-- in a map, a key is gone once it is erased, and no other key is touched
find-erase :
    (key l : Bytes) (fs : Fields)
    → Ascending fs
    → find l (erase key fs) ≡ (if bytes_eq key l then none else find l fs)
unfolding find erase
find-erase key l end a = ground arith
find-erase key l (field k w fs) (o, a) = elim (Bool-cases (bytes_eq k key)) [
  | inl same ↦
      rw (same, bytes_eq_other k key l same)
        (elim (Bool-cases (bytes_eq key l)) [
          | inl hit ↦ rw hit (Over-find k l fs (bytes_eq_other k key l same ∙ hit) o)
          | inr miss ↦ rw miss refl
        ])
  | inr other ↦ rw other (ground (find-erase key l fs a, bytes_eq_same k key l, arith))
]

-- the map of a value, and what a key can be assigned to: null becomes an object
abbrev pub fields_of : Json → Fields
fields_of (object fs) = fs
fields_of _ = end

abbrev pub takes_key : Json → Bool
takes_key (object fs) = true
takes_key undef = true
takes_key _ = false

-- the map after the assignment
assigned : Bytes → Json → Fields → Fields
assigned key v fs = elim (find key fs) [
  | some _ ↦ replace key v fs
  | none ↦ replace key v (map_insert key undef fs)
]

find-assigned :
    (key l : Bytes) (v : Json) (fs : Fields)
    → find l (assigned key v fs) ≡ (if bytes_eq key l then some v else find l fs)
unfolding assigned
find-assigned key l v fs = elim (Option-cases (find key fs)) [
  | inl absent ↦
      rw (absent, assigned)
        (find-replace key l v undef (map_insert key undef fs)
            (find-map_insert key key undef fs absent ∙ rw (bytes_eq_self key) refl)
          ∙ (ground (find-map_insert key l undef fs absent, arith)))
  | inr (u, present) ↦ rw (present, assigned) (find-replace key l v u fs present)
]

at_key-none :
    (ctx key : Bytes) (fs : Fields)
    → find key fs ≡ none
    → at_key ctx key (object fs) ≡ ok undef (object (map_insert key undef fs))
unfolding at_key add_key
at_key-none ctx key fs absent = rw (absent, at_key) refl

at_key-some :
    (ctx key : Bytes) (u : Json) (fs : Fields)
    → find key fs ≡ some u
    → at_key ctx key (object fs) ≡ ok u (object fs)
unfolding at_key
at_key-some ctx key u fs present = rw (present, at_key) refl

set_key-assigned :
    (ctx key : Bytes) (v : Json) (fs : Fields)
    → set_key ctx key v (object fs) ≡ ok tt (object (assigned key v fs))
unfolding set_key put_key assigned
set_key-assigned ctx key v fs =
    let put : Outcome Json Json → Outcome Json (Unit {0}) =
      λ o. elim o [ ok _ j ↦ ok tt (put_key key v j) | throw e j ↦ throw e j ] in
    elim (Option-cases (find key fs)) [
      | inl absent ↦ rw (absent, assigned) (ap put (at_key-none ctx key fs absent))
      | inr (u, present) ↦ rw (present, assigned) (ap put (at_key-some ctx key u fs present))
    ]

-- `json[key] = v`, on all values. On an object or null, which becomes an object, it returns, and then
-- the key is found with v and every other key as before. On any other value it throws and leaves it.
pub set_key_lem :
    (ctx key : Bytes) (v j : Json)
    → ((takes_key j ≡ true)
        × ((fs : Fields) × (set_key ctx key v j ≡ ok tt (object fs))
            × ((l : Bytes)
                → find l fs ≡ (if bytes_eq key l then some v else find l (fields_of j)))))
      ⊎ ((takes_key j ≡ false)
          × ((msg : Bytes) × (set_key ctx key v j ≡ throw (json_error_at ctx msg) j)))
unfolding set_key at_key add_key put_key replace assigned map_insert find
set_key_lem ctx key v (object fs) =
    inl (refl, (assigned key v fs, set_key-assigned ctx key v fs, λ l. find-assigned key l v fs))
set_key_lem ctx key v undef = inl (refl, (_, refl, λ l. find-assigned key l v end))
set_key_lem ctx key v (bool b) = inr (refl, (_, refl))
set_key_lem ctx key v (int n) = inr (refl, (_, refl))
set_key_lem ctx key v (double d) = inr (refl, (_, refl))
set_key_lem ctx key v (string s) = inr (refl, (_, refl))
set_key_lem ctx key v (array xs) = inr (refl, (_, refl))

-- `deleteKey` of an object, whose keys ascend as those of a map do: it returns whether the key was
-- there, and then the key is not found and every other key is as before.
pub delete_key_lem :
    (ctx key : Bytes) (fs : Fields)
    → Ascending fs
    → (gs : Fields) × (delete_key ctx key (object fs) ≡ ok (has_key key (object fs)) (object gs))
      × ((l : Bytes) → find l gs ≡ (if bytes_eq key l then none else find l fs))
unfolding delete_key has_key
delete_key_lem ctx key fs a = elim (Option-cases (find key fs)) [
  | inl absent ↦
      rw (absent, delete_key, has_key) (fs, refl, λ l. ground (bytes_eq_iff key l, absent, arith))
  | inr (u, present) ↦
      rw (present, delete_key, has_key) (erase key fs, refl, λ l. find-erase key l fs a)
]
