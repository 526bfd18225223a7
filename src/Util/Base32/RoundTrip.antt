-- ===== src/Util/Base32/RoundTrip.antt =====
-- Decoding undoes encoding, and what encoding does to a text that is not empty.
use mathlib.Core.List.{reverse-append, reverse-reverse}
use gearbox.Base.{
  length, ℕ, zero, suc, ◌+◌, ◌*◌, ◌/◌, ◌%◌, ◌<◌, Bool, true, false, ◌&&◌, [], ◌∷◌, ◌++◌, reverse,
  Bytes, none, some, ◌==◌, ==_iff, if◌then◌else◌, refl, ◌≡◌, ◌∙◌, sym, ap, arith, append_assoc,
  append-nil, Bool-cases, inl, inr,
}
use gearbox.Util.Base32.{
  u64, basechars, char_at, emit, encode_b32c, digit_value, scan, decode_b32c, uuid_b32c,
}

-- the digits that `emit` appends, least significant first
digits : ℕ → ℕ → Bytes
digits zero n = []
digits (suc fuel) n =
    let more = char_at (n % 32) basechars ∷ digits fuel (n / 32) in
    let last = char_at n basechars ∷ [] in if n == 0 then [] else if n / 32 == 0 then last else more

emit-digits : (fuel n : ℕ) (s : Bytes) → emit fuel n s ≡ s ++ digits fuel n
unfolding emit digits
emit-digits zero n s = sym (append-nil s)
emit-digits (suc fuel) n s = elim (Bool-cases (n == 0)) [
  | inl none_left ↦ rw none_left (sym (append-nil s))
  | inr some_left ↦ rw some_left (elim (Bool-cases (n / 32 == 0)) [
    | inl last ↦ rw last
    | inr more ↦ rw more (
        emit-digits fuel (n / 32) (s ++ char_at (n % 32) basechars ∷ [])
        ∙ append_assoc s (char_at (n % 32) basechars ∷ []) (digits fuel (n / 32)))
  ])
]

-- every character of an alphabet has the value of its place, counted from `k`
spells : ℕ → Bytes → Bool
spells k [] = true
spells k (c ∷ cs) = elim (digit_value c) [ none ↦ false | some v ↦ v == k && spells (suc k) cs ]

spells-char_at :
    (k : ℕ) (cs : Bytes) (d : ℕ)
    → spells k cs ≡ true
    → d < length cs
    → digit_value (char_at d cs) ≡ some (k + d)
unfolding spells char_at
spells-char_at k [] d h less = absurd (omega arith)
spells-char_at k (c ∷ cs) zero h less = ground arith
spells-char_at k (c ∷ cs) (suc d) h less = ground (arith, spells-char_at (suc k) cs d)

digit_value-char_at : (d : ℕ) → d < 32 → digit_value (char_at d basechars) ≡ some d
digit_value-char_at d h =
    spells-char_at 0 basechars d (unfold spells digit_value in refl) (omega arith)
    ∙ ap some (omega arith)

scan_digit :
    (d : ℕ) (s : Bytes) (t o : ℕ)
    → d < 32
    → scan (char_at d basechars ∷ s) t o ≡ scan s ((t + d * o) % u64) ((o * 32) % u64)
unfolding scan
scan_digit d s t o h = rw (digit_value-char_at d h, scan)

scan_end : (t o : ℕ) → scan [] t o ≡ (0, t)
unfolding scan
scan_end t o = refl

-- the product of a number and an offset, by its last digit
split_digit : (n o : ℕ) → n * o ≡ (n / 32) * (o * 32) + (n % 32) * o
split_digit n o =
    let parts : n ≡ 32 * (n / 32) + n % 32 = omega arith in
    ap (λ m. m * o) parts ∙ regroup (n / 32) (n % 32)
  where
    regroup : (q r : ℕ) → (32 * q + r) * o ≡ q * (o * 32) + r * o
    regroup q r = omega arith

-- an offset that is still used does not wrap
offset_fits : (q o m : ℕ) → 0 < q → q * (o * 32) < m → o * 32 < m
offset_fits q o m h k = grind arith

small_mod : (x : ℕ) → x < u64 → x % u64 ≡ x
small_mod x h = omega arith

no_wrap :
    (fuel n t o : ℕ)
    → t + n * o < u64
    → 0 < n / 32
    → scan (digits fuel (n / 32)) ((t + (n % 32) * o) % u64) ((o * 32) % u64)
      ≡ scan (digits fuel (n / 32)) (t + (n % 32) * o) (o * 32)
no_wrap fuel n t o k h =
    let offset : o * 32 < u64 = offset_fits (n / 32) o u64 h (omega (arith, split_digit n o)) in
    let total : t + (n % 32) * o < u64 = omega (arith, split_digit n o) in
    rw (small_mod (t + (n % 32) * o) total, small_mod (o * 32) offset)

-- neither the total nor an offset that is still used wraps
scan-digits :
    (fuel n t o : ℕ) → n < fuel → t + n * o < u64 → scan (digits fuel n) t o ≡ (0, t + n * o)
unfolding digits
scan-digits zero n t o h k = elim h [ ]
scan-digits (suc fuel) n t o h k = elim (Bool-cases (n == 0)) [
  | inl zero_left ↦
      rw zero_left (scan_end t o ∙ ap (λ x. (0, x)) (rw ((==_iff n 0).0 zero_left) (omega arith)))
  | inr some_left ↦ rw some_left (elim (Bool-cases (n / 32 == 0)) [
    | inl last ↦
        rw last (scan_digit n [] t o (ground arith) ∙ scan_end _ _ ∙ ap (λ x. (0, x)) (omega arith))
    | inr more ↦ rw more (
        scan_digit (n % 32) _ t o (omega arith)
        ∙ no_wrap fuel n t o k (ground arith)
        ∙ scan-digits fuel (n / 32) (t + (n % 32) * o) (o * 32) (ground arith)
            (omega (arith, split_digit n o))
        ∙ ap (λ x. (0, x)) (omega (arith, split_digit n o)))
  ])
]

-- Decoding undoes encoding: every 64-bit number, encoded into an empty text, is decoded with return
-- code 0 to itself.
pub decode_b32c-encode_b32c : (n : ℕ) → n < u64 → decode_b32c (encode_b32c n []) ≡ (0, n)
unfolding decode_b32c encode_b32c
decode_b32c-encode_b32c n h =
    ap (λ s. scan (reverse (reverse s)) 0 1) (emit-digits (suc n) n [])
    ∙ ap (λ s. scan s 0 1) (reverse-reverse (digits (suc n) n))
    ∙ scan-digits (suc n) n 0 1 (omega arith) (omega arith)
    ∙ ap (λ x. (0, x)) (omega arith)

-- Encoding into a text that is not empty reverses what the text held, behind the new digits.
pub encode_b32c_append : (n : ℕ) (s : Bytes) → encode_b32c n s ≡ encode_b32c n [] ++ reverse s
unfolding encode_b32c
encode_b32c_append n s =
    ap reverse (emit-digits (suc n) n s)
    ∙ reverse-append s (digits (suc n) n)
    ∙ ap (λ d. reverse d ++ reverse s) (sym (emit-digits (suc n) n []))

-- The text of a UUID is the encoding of the high half, then the digits of the low half with the
-- least significant digit first: the first half is not written the way a number is encoded.
pub uuid_b32c_lem :
    (low high : ℕ) → uuid_b32c low high [] ≡ encode_b32c high [] ++ reverse (encode_b32c low [])
unfolding uuid_b32c
uuid_b32c_lem low high = encode_b32c_append high (encode_b32c low [])
