-- ===== src/Corr/Table/Size.antt =====
-- The number of buckets of the hash tables of src/classify_corr.c: 16 at first, doubled at each growth. While
-- the nodes are at most three quarters of 2^30, the sizes stay within 32 bits and no growth wraps.
use libsigma.Base.{
  ℕ, zero, suc, ◌+◌, ◌*◌, ◌/◌, ◌%◌, ◌^◌, ◌≤◌, ◌<◌, ◌≡◌, refl, ap, ◌∙◌, dec_le, ℕ_discrete, arith,
}

-- 16, doubled `k` times.
unfoldable pub doubled : ℕ → ℕ
doubled zero = 16
doubled (suc k) = doubled k * 2

-- Three quarters of 2^30.
abbrev pub max_nodes : ℕ
max_nodes = 805306368

pub record IsSized (n count : ℕ) : Type 0 where
  pub bits : ℕ
  pub power : n ≡ doubled bits
  pub bits_le : bits ≤ 26
  pub count_le : count ≤ max_nodes

doubled_le : (m k : ℕ) → k ≤ m → doubled k ≤ doubled m
unfolding doubled
doubled_le zero zero h = omega arith
doubled_le zero (suc k) h = absurd (omega arith)
doubled_le (suc m) k h = elim (dec_le k m) [
  | yes p ↦ omega (arith, doubled_le m k p)
  | no p ↦
      let e : k ≡ suc m = omega arith in
      let q : doubled k ≡ doubled m * 2 = ap doubled e in omega (arith, q)
]

doubled_26 : doubled 26 ≡ 1073741824
unfolding doubled
doubled_26 = refl

pub IsSized-le : (n count : ℕ) → IsSized n count → n ≤ 1073741824
IsSized-le n count w = omega (arith, w.power, doubled_le 26 w.bits w.bits_le, doubled_26)

pub IsSized-other :
    (n m count count2 : ℕ) → m ≡ n → count2 ≤ max_nodes → IsSized n count → IsSized m count2
IsSized-other n m count count2 e h w = record {
  bits = w.bits;
  power = e ∙ w.power;
  bits_le = w.bits_le;
  count_le = h;
}

-- Below three quarters of 2^30 nodes, a table that is to grow has fewer than 2^30 buckets.
pub IsSized-grown :
    (n count : ℕ)
    → IsSized n count
    → count + 1 ≤ max_nodes
    → n * 3 % 2 ^ 32 / 4 < (count + 1) % 2 ^ 32
    → (n * 2 % 2 ^ 32 ≡ n * 2) × IsSized (n * 2) count
unfolding doubled
IsSized-grown n count w h t =
    let le = IsSized-le n count w in
    let lt : n < 1073741824 = omega arith in
    (
      omega arith,
      elim (ℕ_discrete w.bits 26) [
        | yes e ↦ absurd (omega (arith, w.power, ap doubled e, doubled_26))
        | no e ↦ record {
          bits = suc w.bits;
          power = ap (λ k. k * 2) w.power;
          bits_le = omega (arith, w.bits_le);
          count_le = w.count_le;
        }
      ],
    )

pub IsSized-start : IsSized 16 0
unfolding doubled
IsSized-start = record { bits = 0; power = refl; bits_le = omega arith; count_le = omega arith }
