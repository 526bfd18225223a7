-- ===== src/Base/ByteStrings.antt =====
-- `std::string` as a list of bytes: literals, equality, and the searches that the sources use.
use Prim.Native.Nat.{ℕ, zero, suc, ◌+◌, ◌-◌, ◌/◌, ◌%◌, compare, Ordering}
use Prim.Native.Char.{code}
use Prim.Native.String.{String}
use mathlib.Core.Path.{◌≡◌, refl}
use mathlib.Core.Logic.{◌↔◌}
use mathlib.Core.Bool.{Bool, true, false, ◌&&◌}
use mathlib.Core.List.{List, [], ◌∷◌}
use native.Mathlib.Omega.{arith}

abbrev pub Bytes : Type 0
Bytes = List ℕ

-- the code points of a literal, which are its bytes when the text is ASCII
abbrev pub codes : String → Bytes
codes String.[] = []
codes (String.◌∷◌ c s) = code c ∷ codes s

abbrev same : ℕ → ℕ → Bool
same a b = elim (compare a b) [ Ordering.eq ↦ true | _ ↦ false ]

abbrev at_most : ℕ → ℕ → Bool
at_most a b = elim (compare a b) [ Ordering.gt ↦ false | _ ↦ true ]

-- operator== of `std::string`
unfoldable pub bytes_eq : Bytes → Bytes → Bool
bytes_eq [] [] = true
bytes_eq (a ∷ s) (b ∷ t) = same a b && bytes_eq s t
bytes_eq _ _ = false

pub bytes_eq_iff : (s t : Bytes) → (bytes_eq s t ≡ true) ↔ (s ≡ t)
unfolding bytes_eq
bytes_eq_iff [] [] = (λ _. refl, λ _. refl)
bytes_eq_iff (a ∷ s) (b ∷ t) = ground (arith, bytes_eq_iff s t)
bytes_eq_iff [] (b ∷ t) = (λ h. cc, λ h. cc)
bytes_eq_iff (a ∷ s) [] = (λ h. cc, λ h. cc)

abbrev pub is_empty : Bytes → Bool
is_empty [] = true
is_empty (c ∷ s) = false

abbrev pub is_between : ℕ → ℕ → ℕ → Bool
is_between lo hi c = at_most lo c && at_most c hi

-- `toupper` and `tolower` of the C locale
unfoldable pub to_upper : ℕ → ℕ
to_upper c = elim (is_between b'a' b'z' c) [ true ↦ c - 32 | false ↦ c ]

unfoldable pub to_lower : ℕ → ℕ
to_lower c = elim (is_between b'A' b'Z' c) [ true ↦ c + 32 | false ↦ c ]

-- `text.find(prefix) == 0`
unfoldable pub starts_with : Bytes → Bytes → Bool
starts_with [] t = true
starts_with (a ∷ s) [] = false
starts_with (a ∷ s) (b ∷ t) = same a b && starts_with s t

-- the decimal digits of an unsigned number, as `<<` prints them; fuel for each digit
digits : ℕ → ℕ → Bytes → Bytes
digits zero n out = out
digits (suc fuel) n out =
    let more = digits fuel (n / 10) ((48 + n % 10) ∷ out) in
    let last : Bytes = (48 + n) ∷ out in elim (at_most n 9) [ true ↦ last | false ↦ more ]

unfoldable pub decimal : ℕ → Bytes
unfolding digits
decimal n = digits (suc n) n []
