-- ===== src/Util/Base32.antt =====
-- `encode_b32c`, `decode_b32c` and `uuid_b32c` of gearbox/core/util.cc. A `uint64_t` is a number
-- below `2 ^ 64`, and its arithmetic wraps. A text parameter that is passed by reference is an
-- argument and a result.
pub mod RoundTrip
use gearbox.Base.{
  ℕ, zero, suc, ◌+◌, ◌-◌, ◌*◌, ◌/◌, ◌%◌, ◌^◌, Bool, true, false, ◌||◌, ◌&&◌, List, [], ◌∷◌, ◌++◌,
  reverse, Bytes, codes, Option, none, some, ltb, leb, ◌==◌, if◌then◌else◌, refl, ◌≡◌,
}

abbrev pub u64 : ℕ
u64 = 2 ^ 64

abbrev pub basechars : Bytes
basechars = codes "0123456789abcdefghjkmnpqrstvwxyz"

-- `basechars[i]`; the terminator of the array stands for what lies behind
char_at : ℕ → Bytes → ℕ
char_at i [] = 0
char_at zero (c ∷ s) = c
char_at (suc i) (c ∷ s) = char_at i s

-- the loop of `encode_b32c`, least significant digit first; `n + 1` rounds are always enough
emit : ℕ → ℕ → Bytes → Bytes
emit zero n s = s
emit (suc fuel) n s =
    let q = n / 32 in
    let more = emit fuel q (s ++ char_at (n % 32) basechars ∷ []) in
    let last = s ++ char_at n basechars ∷ [] in if n == 0 then s else if q == 0 then last else more

-- the whole text is reversed, also what it held before
unfoldable pub encode_b32c : ℕ → Bytes → Bytes
unfolding emit char_at
encode_b32c n s = reverse (emit (suc n) n s)

-- the value of a digit; `none` is an illegal character
digit_value : ℕ → Option ℕ
digit_value b =
    if ltb b b'0'
      || (ltb b'9' b && ltb b b'a')
      || ltb b'z' b
      || b == b'i'
      || b == b'l'
      || b == b'o'
      || b == b'u'
    then none
    else if leb b b'9'
    then some (b - b'0')
    else if leb b b'h'
    then some (b - 87)
    else if leb b b'k'
    then some (b - 88)
    else if leb b b'n'
    then some (b - 89)
    else if leb b b't'
    then some (b - 90)
    else if leb b b'z'
    then some (b - 91)
    else some b

-- the loop of `decode_b32c` over the reversed text, with the total `t` and the offset `o`;
-- the result is the return code and the total
scan : Bytes → ℕ → ℕ → ℕ × ℕ
scan [] t o = (0, t)
scan (b ∷ s) t o = elim (digit_value b) [
  | none ↦ (1, t)
  | some d ↦ scan s ((t + d * o) % u64) ((o * 32) % u64)
]

unfoldable pub decode_b32c : Bytes → ℕ × ℕ
unfolding scan digit_value
decode_b32c s = scan (reverse s) 0 1

-- the two halves of the random number are an argument
unfoldable pub uuid_b32c : ℕ → ℕ → Bytes → Bytes
unfolding encode_b32c
uuid_b32c low high b32u = encode_b32c high (encode_b32c low b32u)
