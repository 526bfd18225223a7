-- ===== src/Schema.antt =====
-- gearbox/core/JsonSchema.cc and `validate` of gearbox/core/Json.cc. A schema is a JSON value. The
-- error handler is the default one, which throws: `rejects` has the text that it is given, without the
-- context. What a schema caches in itself (the object that stands for "additionalProperties": true,
-- the fixed type of a default) is computed anew here.
pub mod Verdicts
pub mod Types
pub mod Values
pub mod Validate
use gearbox.Base.{
  ℕ, zero, suc, ◌+◌, ◌-◌, ◌%◌, ◌^◌, ℤ, pos, negsuc, Bool, true, false, not, ◌&&◌, ◌||◌, List, [],
  ◌∷◌, ◌++◌, Bytes, codes, bytes_eq, Option, none, some, ltb, leb, if◌then◌else◌, decimal,
}
use gearbox.Json.Value.{Double, Json, Items, Fields, find, type_name}
use Json.{undef, bool, int, double, string, object, array}

-- a check that returns, or that throws with a text
pub data Verdict (A : Type 0) : Type 0 where
  accepts : A → Verdict A
  rejects : Bytes → Verdict A

infixl 5 ◌>>>◌
abbrev pub ◌>>>◌ : {A B : Type 0} → Verdict A → (A → Verdict B) → Verdict B
m >>> k = elim m [ accepts a ↦ k a | rejects msg ↦ rejects msg ]

abbrev pub pass : Verdict (Unit {0})
pass = accepts tt

-- a call of `handleError` if the condition holds
abbrev pub reject_if : Bool → Bytes → Verdict (Unit {0})
reject_if bad msg = if bad then rejects msg else pass

-- the numbers of the library, a text as `<<` prints it with 15 digits, and `regex_match`, which
-- throws for a pattern that is none
pub record Library : Type 0 where
  pub of_int : ℤ → Double
  pub double_le : Double → Double → Bool
  pub double_eq : Double → Double → Bool
  pub print : Json → Bytes
  pub regex_match : Bytes → Bytes → Verdict Bool

-- `(*this)[key]`, where the schema has that key
unfoldable pub key_of : Bytes → Json → Option Json
key_of key (object fs) = find key fs
key_of key _ = none

cannot_convert : {A : Type 0} → Json → Bytes → Verdict A
cannot_convert j to = rejects (codes "cannot convert " ++ (type_name j ++ (codes " to " ++ to)))

-- `as<T>()`
unfoldable pub as_text : Json → Verdict Bytes
unfolding cannot_convert
as_text (string s) = accepts s
as_text j = cannot_convert j (codes "string")

unfoldable pub as_bool : Json → Verdict Bool
unfolding cannot_convert
as_bool (bool b) = accepts b
as_bool j = cannot_convert j (codes "boolean")

unfoldable pub as_integer : Json → Verdict ℤ
unfolding cannot_convert
as_integer (int n) = accepts n
as_integer j = cannot_convert j (codes "integer")

unfoldable pub as_object : Json → Verdict Fields
unfolding cannot_convert
as_object (object fs) = accepts fs
as_object j = cannot_convert j (codes "object")

-- an `int64_t` as a `uint64_t`, as an `unsigned int`, and as an `int`
unfoldable pub to_u64 : ℤ → ℕ
to_u64 (pos n) = n
to_u64 (negsuc n) = 18446744073709551615 - n

unfoldable pub to_u32 : ℤ → ℕ
to_u32 (pos n) = n % 4294967296
to_u32 (negsuc n) = 4294967295 - n % 4294967296

unfoldable pub to_i32 : ℤ → ℤ
to_i32 n = let m = to_u32 n in if ltb m 2147483648 then pos m else negsuc (4294967295 - m)

-- `<=` and `==` on `int64_t`
unfoldable pub int_le : ℤ → ℤ → Bool
int_le (pos a) (pos b) = leb a b
int_le (pos a) (negsuc b) = false
int_le (negsuc a) (pos b) = true
int_le (negsuc a) (negsuc b) = leb b a
