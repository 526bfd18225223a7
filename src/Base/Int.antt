-- ===== src/Base/Int.antt =====
-- `int`: the signed numbers that the sources use for codes.
use Prim.Native.Nat.{ℕ, compare, Ordering}
use mathlib.Core.Bool.{Bool, true, false}

-- `negsuc n` is -(n + 1).
pub data ℤ : Type 0 where
  pos : ℕ → ℤ
  negsuc : ℕ → ℤ

-- `code >= bound` for a bound that is not negative
abbrev pub ge_nat : ℤ → ℕ → Bool
ge_nat (pos n) bound = elim (compare bound n) [ Ordering.gt ↦ false | _ ↦ true ]
ge_nat (negsuc n) bound = false

-- `code == 0`
abbrev pub is_zero : ℤ → Bool
is_zero (pos n) = elim (compare n 0) [ Ordering.eq ↦ true | _ ↦ false ]
is_zero (negsuc n) = false
