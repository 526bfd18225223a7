-- ===== src/Uri/Text.antt =====
-- Searching and cutting texts, as `find`, `rfind`, `find_first_of` and `substr` do in
-- gearbox/core/Uri.cc.
use gearbox.Base.{
  ℕ, zero, suc, ◌+◌, ◌-◌, ◌*◌, ℤ, pos, negsuc, Bool, true, false, ◌||◌, ◌&&◌, List, [], ◌∷◌, ◌++◌,
  Bytes, Option, none, some, ◌==◌, if◌then◌else◌, decimal, is_between,
}

abbrev pub behind : ℕ → Option (Bytes × Bytes) → Option (Bytes × Bytes)
behind c none = none
behind c (some (before, after)) = some (c ∷ before, after)

-- the text before the first character that passes the test, and the text behind that character
unfoldable pub cut_at : (ℕ → Bool) → Bytes → Option (Bytes × Bytes)
cut_at stop [] = none
cut_at stop (c ∷ s) = if stop c then some ([], s) else behind c (cut_at stop s)

abbrev pub cut : ℕ → Bytes → Option (Bytes × Bytes)
cut c = cut_at (λ x. x == c)

-- the same at the last such character
unfoldable pub cut_last : ℕ → Bytes → Option (Bytes × Bytes)
cut_last c [] = none
cut_last c (x ∷ s) = elim (cut_last c s) [
  | some (before, after) ↦ some (x ∷ before, after)
  | none ↦ if x == c then some ([], s) else none
]

-- the same for the separator "://"
unfoldable pub cut_scheme : Bytes → Option (Bytes × Bytes)
cut_scheme (c ∷ d ∷ e ∷ s) =
    if c == b':' && (d == b'/' && e == b'/')
    then some ([], s)
    else behind c (cut_scheme (d ∷ e ∷ s))
cut_scheme _ = none

-- `split(parts, path, is_any_of("/"))`
unfoldable pub split_slash : Bytes → Bytes → List Bytes
split_slash cur [] = cur ∷ []
split_slash cur (c ∷ s) = elim (c == b'/') [
  | true ↦ cur ∷ split_slash [] s
  | false ↦ split_slash (cur ++ c ∷ []) s
]

-- `atoi`: blanks, a sign, digits. A number that does not fit an `int` is undefined in the source.
unfoldable pub atoi_digits : ℕ → Bytes → ℕ
atoi_digits n [] = n
atoi_digits n (c ∷ s) = if is_between b'0' b'9' c then atoi_digits (n * 10 + (c - b'0')) s else n

abbrev pub negative : ℕ → ℤ
negative zero = pos 0
negative (suc n) = negsuc n

unfoldable pub atoi : Bytes → ℤ
unfolding atoi_digits
atoi [] = pos 0
atoi (c ∷ s) =
    if c == b' ' || is_between 9 13 c
    then atoi s
    else if c == b'-'
    then negative (atoi_digits 0 s)
    else if c == b'+'
    then pos (atoi_digits 0 s)
    else pos (atoi_digits 0 (c ∷ s))

-- an `int` as `<<` prints it
unfoldable pub show_int : ℤ → Bytes
unfolding decimal
show_int (pos n) = decimal n
show_int (negsuc n) = b'-' ∷ decimal (suc n)
