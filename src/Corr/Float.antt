-- ===== src/Corr/Float.antt =====
-- What src/classify_corr.c does with a `double`: comparisons, four operations, and conversions.
use libsigma.Base.{ℕ, Bool, true, false, ◌≡◌}
use libsigma.Base.Int.{ℤ}

pub record Double (W : Type 0) : Type 0 where
  pub le : W → W → Bool
  pub lt : W → W → Bool
  pub add : W → W → W
  pub sub : W → W → W
  pub mul : W → W → W
  pub div : W → W → W
  -- `(double)n`, and the cast back to `int64_t` and to `uint32_t`
  pub of_int : ℤ → W
  pub to_int : W → ℤ
  pub to_u32 : W → ℕ
  -- `0.5`
  pub half : W

-- A time that is not after another one, and a time that is not NaN.
abbrev pub NotAfter : {W : Type 0} ⦃d : Double W⦄ → W → W → Type 0
NotAfter ⦃d⦄ a b = d.le a b ≡ true

abbrev pub IsNumber : {W : Type 0} ⦃d : Double W⦄ → W → Type 0
IsNumber a = NotAfter a a

-- What IEEE 754 says of `<` and `<=`: both are false with a NaN, and numbers are in one order.
pub record IsIeee (W : Type 0) ⦃d : Double W⦄ : Type 0 where
  pub before : (a b : W) → d.lt a b ≡ true → NotAfter a b
  pub numbers : (a b : W) → NotAfter a b → IsNumber a × IsNumber b
  pub not_before : (a b : W) → IsNumber a → IsNumber b → d.lt a b ≡ false → NotAfter b a
  pub chain : (a b c : W) → NotAfter a b → NotAfter b c → NotAfter a c
