-- ===== src/Corr/Ring/Rank.antt =====
-- The rank that `eval_value_percentile` of src/classify_corr.c reads.
use libsigma.Base.{
  ℕ, ◌+◌, ◌-◌, ◌*◌, ◌/◌, ◌%◌, ◌^◌, ◌≤◌, ◌<◌, ◌≡◌, refl, if◌then◌else◌, leb, false, ◌==◌, arith,
}
use native.Mathlib.Nat.{mod-eq_of_lt, mul-le-mul_right, mul-pos}
use libsigma.Corr.Ring.{rank}

gt→leb : (a b : ℕ) → b < a → leb a b ≡ false
gt→leb a b h = ground arith

rank_lem :
    (s n : ℕ)
    → 0 < s
    → s ≤ 100 * n
    → n < 2 ^ 32
    → (k : ℕ) × (k ≡ (s + 99) / 100 - 1)
      × (k < n)
      × ((let idx = (s + 99) / 100 % 2 ^ 32 in
            let from_one = if idx == 0 then 1 else idx in
            if leb n (from_one - 1) then n - 1 else from_one - 1)
          ≡ k)
rank_lem s n a b c =
    let q : (s + 99) / 100 % 2 ^ 32 ≡ (s + 99) / 100 = mod-eq_of_lt (omega arith) in
    let pos_k : 0 < (s + 99) / 100 = omega arith in
    let u : ((s + 99) / 100 == 0) ≡ false = ground arith in
    let v : leb n ((s + 99) / 100 - 1) ≡ false = gt→leb n ((s + 99) / 100 - 1) (omega arith) in
    ((s + 99) / 100 - 1, refl, omega arith, rw q (rw u (rw v refl)))

-- For a percentile from 1 to 100 and a window that is not empty, the rank is the nearest one: it is inside
-- the window, at least `p` percent of the values are up to it, and fewer than `p` percent are before it.
pub rank-nearest :
    (p n : ℕ)
    → 0 < p
    → p ≤ 100
    → 0 < n
    → n < 2 ^ 32
    → (rank p n < n) × (rank p n * 100 < p * n) × (p * n ≤ (rank p n + 1) * 100)
unfolding rank
rank-nearest p n a b c e =
    let m : p * n ≤ 100 * n = mul-le-mul_right n b in
    let l : 0 < p * n = mul-pos a c in
    let (k, f, g, r) = rank_lem (p * n) n l m e in rw r (g, omega arith, omega arith)
