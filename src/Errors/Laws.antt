-- ===== src/Errors/Laws.antt =====
-- `throw_from_code` and the text of an error.
use gearbox.Base.{
  ℕ, map, Bool-cases, inl, inr, ◌⊎◌, zero, suc, ◌<◌, ◌≡◌, refl, true, false, Bytes, codes, List, [],
  ◌∷◌, none, some, arith, ◌==◌, length, length-take,
}
use gearbox.Errors.{
  Outcome, ok, throw, Exception, make_error, strlcpy, buffer_size, error_classes, switch_codes,
  class_name, contains, error_of_code, throw_from_code, ◌>>=◌,
}

strlcpy-lt : (n : ℕ) (src : Bytes) → 0 < n → length (strlcpy n src) < n
unfolding strlcpy
strlcpy-lt zero src h = h
strlcpy-lt (suc n) src h = omega (arith, length-take n src)

-- The text of an error always fits its buffer together with the terminator.
pub what-lt-buffer_size :
    (msg : Bytes) (code : ℕ) (name : Bytes) → length (make_error msg code name).what < buffer_size
unfolding make_error
what-lt-buffer_size msg code name = strlcpy-lt buffer_size _ (omega arith)

-- a code is among the first components of a table exactly if it has a name there
contains-class_name :
    (code : ℕ) (t : List (ℕ × Bytes))
    → ((contains code (map (λ r. r.0) t) ≡ false) × (class_name code t ≡ none))
      ⊎ ((contains code (map (λ r. r.0) t) ≡ true)
          × ((name : Bytes) × (class_name code t ≡ some name)))
unfolding contains class_name
contains-class_name code [] = inl (refl, refl)
contains-class_name code ((c, name) ∷ t) = elim (Bool-cases (c == code)) [
  | inl same ↦ rw same (inr (refl, (name, refl)))
  | inr other ↦ rw other (contains-class_name code t)
]

-- every class has its `case` label, and every label its class
switch_codes_lem : switch_codes ≡ map (λ r. r.0) error_classes
switch_codes_lem = refl

name_500 : class_name 500 error_classes ≡ some (codes "INTERNAL_SERVER_ERROR")
unfolding class_name
name_500 = refl

error_of_code_lem :
    (msg : Bytes) (code : ℕ) (name : Bytes)
    → class_name code error_classes ≡ some name
    → error_of_code msg code ≡ some (make_error msg code name)
unfolding error_of_code
error_of_code_lem msg code name e = rw (e, error_of_code)

-- `throw_from_code` always throws: an error with the code that it is given and the name of that
-- code's class, if a class has this code, and INTERNAL_SERVER_ERROR with code 500 if none has.
pub throw_from_code_lem :
    (code : ℕ) (msg : Bytes)
    → ((name : Bytes) × (class_name code error_classes ≡ some name)
        × (throw_from_code code msg ≡ some (make_error msg code name)))
      ⊎ ((class_name code error_classes ≡ none)
          × (throw_from_code code msg ≡ some (make_error msg 500 (codes "INTERNAL_SERVER_ERROR"))))
unfolding throw_from_code
throw_from_code_lem code msg = elim (contains-class_name code error_classes) [
  | inl (absent, unnamed) ↦
      inr (unnamed, rw (switch_codes_lem, absent) (error_of_code_lem msg 500 _ name_500))
  | inr (present, (name, named)) ↦
      inl (name, named, rw (switch_codes_lem, present) (error_of_code_lem msg code name named))
]

-- a call returns or throws
pub outcome-cases :
    {S A : Type 0} (o : Outcome S A)
    → ((a : A) × (s : S) × (o ≡ ok a s)) ⊎ ((e : Exception) × (s : S) × (o ≡ throw e s))
outcome-cases (ok a s) = inl (a, s, refl)
outcome-cases (throw e s) = inr (e, s, refl)

-- running one call after another, where the first returns
pub >>=-ok :
    {S A B : Type 0} (m : S → Outcome S A) (k : A → S → Outcome S B) (s : S) {a : A} {s' : S}
    → m s ≡ ok a s'
    → (m >>= k) s ≡ k a s'
>>=-ok m k s e = rw (e, ◌>>=◌)

pub >>=-throw :
    {S A B : Type 0} (m : S → Outcome S A) (k : A → S → Outcome S B) (s : S) {x : Exception}
    {s' : S}
    → m s ≡ throw x s'
    → (m >>= k) s ≡ throw x s'
>>=-throw m k s e = rw (e, ◌>>=◌)
