-- ===== src/Eval/Stamps.antt =====
-- The generation stamps of the scratch (src/sigma_match.c): `bump_eval_gen` gives a generation that no
-- stamp has, also when the counter wraps.
use libsigma.Base.{
  ℕ, zero, suc, ◌+◌, ◌%◌, ◌^◌, ◌≤◌, ◌<◌, ◌≡◌, some, List, [], ◌∷◌, get_elem?, ◌==◌, Bool-cases, inl,
  inr, arith,
}
use libsigma.Db.Valid.{Each}
use libsigma.Eval.{Eval, zeros, bump_eval_gen}

-- No stamp is past the generation, which is a `uint32_t`.
pub record IsStamped (e : Eval) : Type 0 where
  pub done_le : Each (λ s. s ≤ e.gen) e.eval_done
  pub rule_le : Each (λ s. s ≤ e.gen) e.rule_gen
  pub gen_lt : e.gen < 2 ^ 32

-- Every stamp is from an earlier event.
pub record IsFresh (e : Eval) : Type 0 where
  pub done_lt : Each (λ s. s < e.gen) e.eval_done
  pub rule_lt : Each (λ s. s < e.gen) e.rule_gen
  pub gen_lt : e.gen < 2 ^ 32

zeros_lem : (xs : List ℕ) (i s : ℕ) → get_elem? (zeros xs) i ≡ some s → s ≡ 0
zeros_lem [] i s e = absurd (ground arith)
zeros_lem (x ∷ xs) zero s e = ground arith
zeros_lem (x ∷ xs) (suc i) s e = zeros_lem xs i s e

-- After `bump_eval_gen` no stamp is equal to the generation, at a wrap of the counter too.
pub bump_eval_gen-IsFresh : (e : Eval) → IsStamped e → IsFresh (bump_eval_gen e)
unfolding bump_eval_gen
bump_eval_gen-IsFresh e v = elim (Bool-cases ((e.gen + 1) % 2 ^ 32 == 0)) [
  | inl wrap ↦ simp wrap (record {
    done_lt = λ i s h. omega (arith, zeros_lem e.eval_done i s h);
    rule_lt = λ i s h. omega (arith, zeros_lem e.rule_gen i s h);
    gen_lt = omega arith;
  })
  | inr up ↦
      let g : (e.gen + 1) % 2 ^ 32 ≡ e.gen + 1 = ground arith in
      simp up (record {
        done_lt = λ i s h. omega (arith, v.done_le i s h, g);
        rule_lt = λ i s h. omega (arith, v.rule_le i s h, g);
        gen_lt = omega arith;
      })
]
