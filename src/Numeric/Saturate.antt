-- ===== src/Numeric/Saturate.antt =====
-- `sg_to_i64` (src/sigma_match.c) against the unbounded decimal value of the leading digits.
use libsigma.Base.{
  ℕ, ◌+◌, ◌-◌, ◌*◌, ◌/◌, ◌%◌, ◌^◌, ◌≤◌, ◌<◌, ◌≡◌, refl, Bool, true, false, ◌||◌, Option, none, some,
  [], ◌∷◌, ltb, ◌==◌, if◌then◌else◌, Bool-cases, inl, inr, ap, sym, ◌∙◌, subst, ltb→lt, arith,
}
use libsigma.Base.Int.{ℤ, pos, neg_ℕ, clamp_i64}
use mathlib.Core.Option
use libsigma.Text.{Bytes}
use libsigma.Numeric.{is_digit, magnitude, signed, unsigned, sg_to_i64}

-- The value of the leading run of digits, read after digits of value `acc`, with no bound.
unfoldable pub decimal : Bytes → ℕ → ℕ
decimal [] acc = acc
decimal (c ∷ s) acc = if is_digit c then decimal s (acc * 10 + (c - b'0')) else acc

decimal-le : (s : Bytes) (acc : ℕ) → acc ≤ decimal s acc
unfolding decimal
decimal-le [] acc = omega arith
decimal-le (c ∷ s) acc = ground (arith, decimal-le s (acc * 10 + (c - b'0')))

-- Either the loop returns the exact value, or it saturates and the exact value is past `int64_t`.
abbrev Exact : Bytes → ℕ → ℕ × Bool → Type 0
Exact s acc (mag, true) = 2 ^ 63 < decimal s acc
Exact s acc (mag, false) = mag ≡ decimal s acc

digit-le : (c : ℕ) → is_digit c ≡ true → c - b'0' ≤ 9
unfolding is_digit
digit-le c d = ground arith

not_ltb : (a b : ℕ) → ltb a b ≡ false → b ≤ a
not_ltb a b h = ground arith

decimal_cons :
    (c : ℕ) (s : Bytes) (acc : ℕ)
    → is_digit c ≡ true
    → decimal (c ∷ s) acc ≡ decimal s (acc * 10 + (c - b'0'))
unfolding decimal
decimal_cons c s acc d = rw d refl

decimal_stop : (c : ℕ) (s : Bytes) (acc : ℕ) → is_digit c ≡ false → acc ≡ decimal (c ∷ s) acc
unfolding decimal
decimal_stop c s acc n = rw n refl

decimal-nil : (acc : ℕ) → decimal [] acc ≡ acc
unfolding decimal
decimal-nil acc = refl

Exact-cons :
    (c : ℕ) (s : Bytes) (acc : ℕ) (r : ℕ × Bool)
    → is_digit c ≡ true
    → Exact s (acc * 10 + (c - b'0')) r
    → Exact (c ∷ s) acc r
Exact-cons c s acc (mag, true) d e = rw (decimal_cons c s acc d) e
Exact-cons c s acc (mag, false) d e = e ∙ sym (decimal_cons c s acc d)

magnitude_cons :
    (c : ℕ) (s : Bytes) (mag : ℕ)
    → is_digit c ≡ true
    → ltb ((2 ^ 64 - 1 - 9) / 10) mag ≡ false
    → magnitude (c ∷ s) mag ≡ magnitude s (mag * 10 + (c - b'0'))
unfolding magnitude
magnitude_cons c s mag d fits =
    let e : (mag * 10 + (c - b'0')) % 2 ^ 64 ≡ mag * 10 + (c - b'0') =
      omega (arith, digit-le c d, not_ltb _ _ fits) in
    rw (d, fits) (ap (magnitude s) e)

magnitude-Exact : (s : Bytes) (acc : ℕ) → Exact s acc (magnitude s acc)
unfolding magnitude
magnitude-Exact [] acc = sym (decimal-nil acc)
magnitude-Exact (c ∷ s) acc = elim (Bool-cases (is_digit c)) [
  | inl d ↦ elim (Bool-cases (ltb ((2 ^ 64 - 1 - 9) / 10) acc)) [
    | inl big ↦
        rw (d, big)
          (omega
            (arith, decimal_cons c s acc d, decimal-le s (acc * 10 + (c - b'0')), ltb→lt _ _ big))
    | inr fits ↦
        subst (Exact (c ∷ s) acc) (sym (magnitude_cons c s acc d fits))
          (Exact-cons c s acc _ d (magnitude-Exact s (acc * 10 + (c - b'0'))))
  ]
  | inr n ↦ rw n (decimal_stop c s acc n)
]

-- The unbounded integer at the head of a text: an optional sign and at least one digit.
unfoldable pub unbounded : Bool → Bytes → Option ℤ
unbounded neg [] = none
unbounded neg (c ∷ s) =
    if is_digit c
    then some (if neg then neg_ℕ (decimal (c ∷ s) 0) else pos (decimal (c ∷ s) 0))
    else none

unfoldable pub integer_prefix : Bytes → Option ℤ
integer_prefix [] = none
integer_prefix (c ∷ s) =
    if c == b'-' || c == b'+' then unbounded (c == b'-') s else unbounded false (c ∷ s)

signed-clamp :
    (neg : Bool) (s : Bytes) (r : ℕ × Bool)
    → Exact s 0 r
    → signed neg r.0 r.1 ≡ clamp_i64 (if neg then neg_ℕ (decimal s 0) else pos (decimal s 0))
unfolding signed
signed-clamp true s (mag, true) e = ground arith
signed-clamp true s (mag, false) e = ground arith
signed-clamp false s (mag, true) e = ground arith
signed-clamp false s (mag, false) e = ground arith

unsigned-clamp : (neg : Bool) (s : Bytes) → unsigned neg s ≡ Option.map clamp_i64 (unbounded neg s)
unfolding unsigned unbounded
unsigned-clamp neg [] = refl
unsigned-clamp neg (c ∷ s) = elim (Bool-cases (is_digit c)) [
  | inl d ↦
      rw d (ap some (signed-clamp neg (c ∷ s) (magnitude (c ∷ s) 0) (magnitude-Exact (c ∷ s) 0)))
  | inr n ↦ rw n refl
]

-- `sg_to_i64` succeeds exactly when the text begins with an integer, and its result is that integer
-- with no bound on its digits, clamped to `int64_t`.
pub sg_to_i64-clamp : (s : Bytes) → sg_to_i64 s ≡ Option.map clamp_i64 (integer_prefix s)
unfolding sg_to_i64 integer_prefix
sg_to_i64-clamp [] = refl
sg_to_i64-clamp (c ∷ s) = ground (arith, unsigned-clamp (c == b'-') s, unsigned-clamp false (c ∷ s))
