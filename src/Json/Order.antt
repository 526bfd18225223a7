-- ===== src/Json/Order.antt =====
-- The keys of a `std::map` in order: `operator <` of strings, and the maps that `insert` makes.
use gearbox.Base.{
  Bool-cases, ◌⊎◌, inl, inr, bytes_eq, true, false, ◌∷◌, [], Bytes, none, ◌≡◌, refl, arith,
}
use gearbox.Json.Value.{Json, Items, Fields, before, find, map_insert, push_back}
use Json.{object, array}
use Fields.{end, field}
use Items.{nil, cons}

pub before_irrefl : (s : Bytes) → before s s ≡ false
unfolding before
before_irrefl [] = refl
before_irrefl (c ∷ s) = ground (arith, before_irrefl s)

pub before-bytes_eq : (s t : Bytes) → before s t ≡ true → bytes_eq s t ≡ false
unfolding before bytes_eq
before-bytes_eq [] (d ∷ t) h = refl
before-bytes_eq [] [] h = cc
before-bytes_eq (c ∷ s) [] h = cc
before-bytes_eq (c ∷ s) (d ∷ t) h = ground (arith, before-bytes_eq s t)

before-bytes_eq_sym : (s t : Bytes) → before s t ≡ true → bytes_eq t s ≡ false
unfolding before bytes_eq
before-bytes_eq_sym [] (d ∷ t) h = refl
before-bytes_eq_sym [] [] h = cc
before-bytes_eq_sym (c ∷ s) [] h = cc
before-bytes_eq_sym (c ∷ s) (d ∷ t) h = ground (arith, before-bytes_eq_sym s t)

pub before_trans : (s t u : Bytes) → before s t ≡ true → before t u ≡ true → before s u ≡ true
unfolding before
before_trans [] (d ∷ t) (e ∷ u) h i = refl
before_trans [] [] u h i = cc
before_trans s (d ∷ t) [] h i = cc
before_trans (c ∷ s) [] u h i = cc
before_trans (c ∷ s) (d ∷ t) (e ∷ u) h i = ground (arith, before_trans s t u)

pub before_asym : (s t : Bytes) → before s t ≡ true → before t s ≡ false
unfolding before
before_asym [] (d ∷ t) h = refl
before_asym [] [] h = cc
before_asym (c ∷ s) [] h = cc
before_asym (c ∷ s) (d ∷ t) h = ground (arith, before_asym s t)

-- neither of two strings comes first exactly if they are the same
pub before_total : (s t : Bytes) → before s t ≡ false → before t s ≡ false → bytes_eq s t ≡ true
unfolding before bytes_eq
before_total [] [] h i = refl
before_total [] (d ∷ t) h i = cc
before_total (c ∷ s) [] h i = cc
before_total (c ∷ s) (d ∷ t) h i = ground (arith, before_total s t)

-- every key comes before the given one, or after it
abbrev pub Under : Bytes → Fields → Type 0
Under key end = Unit
Under key (field k v fs) = (before k key ≡ true) × Under key fs

abbrev pub Over : Bytes → Fields → Type 0
Over key end = Unit
Over key (field k v fs) = (before key k ≡ true) × Over key fs

-- the keys ascend
abbrev pub Ascending : Fields → Type 0
Ascending end = Unit
Ascending (field k v fs) = Over k fs × Ascending fs

-- every key of the first map comes before every key of the second
abbrev pub Apart : Fields → Fields → Type 0
Apart fs end = Unit
Apart fs (field k v gs) = Under k fs × Apart fs gs

-- in every object of the value the keys ascend
unfoldable mutual
  pub IsSorted : Json → Type 0
  IsSorted (object fs) = Ascending fs × IsSortedFields fs
  IsSorted (array xs) = IsSortedItems xs
  IsSorted _ = Unit

  pub IsSortedFields : Fields → Type 0
  IsSortedFields end = Unit
  IsSortedFields (field k v fs) = IsSorted v × IsSortedFields fs

  pub IsSortedItems : Items → Type 0
  IsSortedItems nil = Unit
  IsSortedItems (cons x xs) = IsSorted x × IsSortedItems xs

pub Over-trans : (j k : Bytes) (fs : Fields) → before j k ≡ true → Over k fs → Over j fs
Over-trans j k end h o = tt
Over-trans j k (field l v fs) h (o, os) = (before_trans j k l h o, Over-trans j k fs h os)

-- a new key is put before the first greater one, and one that is there stays
map_insert_cases :
    (key : Bytes) (v : Json) (k : Bytes) (w : Json) (fs : Fields)
    → ((before k key ≡ true) × (map_insert key v (field k w fs) ≡ field k w (map_insert key v fs)))
      ⊎ (((before key k ≡ true) × (map_insert key v (field k w fs) ≡ field key v (field k w fs)))
          ⊎ (map_insert key v (field k w fs) ≡ field k w fs))
unfolding map_insert
map_insert_cases key v k w fs = elim (Bool-cases (before k key)) [
  | inl lower ↦ inl (lower, rw lower)
  | inr ge ↦ elim (Bool-cases (before key k)) [
    | inl upper ↦ inr (inl (upper, rw (ge, upper)))
    | inr eq ↦ inr (inr (rw (ge, eq)))
  ]
]

Over-map_insert :
    (j key : Bytes) (v : Json) (fs : Fields)
    → before j key ≡ true
    → Over j fs
    → Over j (map_insert key v fs)
unfolding map_insert
Over-map_insert j key v end h o = (h, tt)
Over-map_insert j key v (field k w fs) h (o, os) = elim (map_insert_cases key v k w fs) [
  | inl (_, e) ↦ rw e (o, Over-map_insert j key v fs h os)
  | inr (inl (_, e)) ↦ rw e (h, (o, os))
  | inr (inr e) ↦ rw e (o, os)
]

-- one map after the other, and one list of items after the other
unfoldable pub join : Fields → Fields → Fields
join end gs = gs
join (field k v fs) gs = field k v (join fs gs)

pub join-end : (fs : Fields) → join fs end ≡ fs
unfolding join
join-end end = refl
join-end (field k v fs) = rw (join-end fs)

unfoldable pub join_items : Items → Items → Items
join_items nil ys = ys
join_items (cons x xs) ys = cons x (join_items xs ys)

pub join_items-nil : (xs : Items) → join_items xs nil ≡ xs
unfolding join_items
join_items-nil nil = refl
join_items-nil (cons x xs) = rw (join_items-nil xs)

pub join_items-push_back :
    (xs ys : Items) (v : Json) → join_items (push_back xs v) ys ≡ join_items xs (cons v ys)
unfolding join_items push_back
join_items-push_back nil ys v = refl
join_items-push_back (cons x xs) ys v = rw (join_items-push_back xs ys v)

-- a key above all others is not there, and goes to the end
pub find-none : (key : Bytes) (fs : Fields) → Under key fs → find key fs ≡ none
unfolding find
find-none key end u = refl
find-none key (field k v fs) (h, u) = rw (before-bytes_eq k key h, find-none key fs u)

-- a key below all others is not there
pub find-none-Over : (key : Bytes) (fs : Fields) → Over key fs → find key fs ≡ none
unfolding find
find-none-Over key end o = refl
find-none-Over key (field k v fs) (h, o) = rw (before-bytes_eq_sym key k h, find-none-Over key fs o)

pub join-map_insert :
    (key : Bytes) (v : Json) (fs gs : Fields)
    → Under key fs
    → join (map_insert key v fs) gs ≡ join fs (field key v gs)
unfolding map_insert join
join-map_insert key v end gs u = refl
join-map_insert key v (field k w fs) gs (h, u) = rw (h, join, join-map_insert key v fs gs u)

Under-map_insert :
    (l key : Bytes) (v : Json) (fs : Fields)
    → before key l ≡ true
    → Under l fs
    → Under l (map_insert key v fs)
unfolding map_insert
Under-map_insert l key v end h u = (h, tt)
Under-map_insert l key v (field k w fs) h (u, us) = elim (map_insert_cases key v k w fs) [
  | inl (_, e) ↦ rw e (u, Under-map_insert l key v fs h us)
  | inr (inl (_, e)) ↦ rw e (h, (u, us))
  | inr (inr e) ↦ rw e (u, us)
]

pub Apart-map_insert :
    (key : Bytes) (v : Json) (fs gs : Fields)
    → Over key gs
    → Apart fs gs
    → Apart (map_insert key v fs) gs
Apart-map_insert key v fs end o a = tt
Apart-map_insert key v fs (field l w gs) (o, os) (u, a) =
    (Under-map_insert l key v fs o u, Apart-map_insert key v fs gs os a)

pub Apart-end : (gs : Fields) → Apart end gs
Apart-end end = tt
Apart-end (field k v gs) = (tt, Apart-end gs)
