-- ===== src/Numeric.antt =====
-- `sg_to_i64` of src/sigma_match.c: the leading signed integer of a field value, saturated to
-- `int64_t`.
pub mod Saturate
use libsigma.Base.{
  ℕ, ◌+◌, ◌-◌, ◌*◌, ◌/◌, ◌%◌, ◌^◌, Bool, true, false, ◌&&◌, ◌||◌, Option, none, some, [], ◌∷◌, ltb,
  leb, ◌==◌, if◌then◌else◌,
}
use libsigma.Base.Int.{ℤ, pos, neg_ℕ, int64_max, int64_min}
use libsigma.Text.{Bytes}

-- `c >= '0' && c <= '9'`
unfoldable pub is_digit : ℕ → Bool
is_digit c = leb b'0' c && leb c b'9'

-- The loop over the digits, with the magnitude so far. The result is `mag` and `sat`.
unfoldable pub magnitude : Bytes → ℕ → ℕ × Bool
magnitude [] mag = (mag, false)
magnitude (c ∷ s) mag =
    if is_digit c
    then (if ltb ((2 ^ 64 - 1 - 9) / 10) mag
        then (mag, true)
        else magnitude s ((mag * 10 + (c - b'0')) % 2 ^ 64))
    else (mag, false)

-- The value that `neg`, `mag` and `sat` stand for.
unfoldable pub signed : Bool → ℕ → Bool → ℤ
signed neg mag sat =
    if neg
    then (if sat || leb (2 ^ 63 - 1 + 1) mag then int64_min else neg_ℕ mag)
    else (if sat || ltb (2 ^ 63 - 1) mag then int64_max else pos mag)

-- From the first digit on.
unfoldable pub unsigned : Bool → Bytes → Option ℤ
unsigned neg [] = none
unsigned neg (c ∷ s) =
    if is_digit c then (let (mag, sat) = magnitude (c ∷ s) 0 in some (signed neg mag sat)) else none

-- `none` is the result `false`.
unfoldable pub sg_to_i64 : Bytes → Option ℤ
sg_to_i64 [] = none
sg_to_i64 (c ∷ s) =
    if c == b'-' || c == b'+' then unsigned (c == b'-') s else unsigned false (c ∷ s)
