-- ===== src/Rules/Select.antt =====
-- `sel_match` (src/sigma_match.c): the loop with its short-circuit and its early return decides the
-- conjunction of the groups.
use libsigma.Base.{
  ℕ, zero, suc, ◌+◌, ◌≤◌, ◌<◌, ◌≡◌, refl, ap, subst, Bool, true, false, ◌||◌, some, List, ◌∷◌,
  length, get_elem?, get_elem?_of_lt, drop_cons_of_get_elem?, take, slice, ◌==◌, arith,
}
use libsigma.Db.{Pred, Sel, Db}
use libsigma.Match.{Host, FieldFn, Memo}
use libsigma.Match.Holds.{pred_holds}
use libsigma.Match.Memo.{
  Coherent, Returns, Returns-bind, Returns-some, Returns-read, Returns-elim, Returns-and, Usable,
  pred_match-Returns,
}
use libsigma.Rules.{group_step, sel_loop, sel_range, sel_match}
use libsigma.Rules.Holds.{groups_hold, truths, grouped, sel_holds}

pub slice_cons {ℓ} :
    {A : Type ℓ} (xs : List A) (i k : ℕ) {x : A}
    → get_elem? xs i ≡ some x
    → slice i (suc k) xs ≡ x ∷ slice (suc i) k xs
slice_cons xs i k e = ap (take (suc k)) (drop_cons_of_get_elem? xs i e)

module _ (host : Host) (db : Db) (fn : FieldFn) (ok : Usable host db) where
  group_step-Returns :
      (p : Pred) (idx : ℕ) (acc : Bool) (m : Memo)
      → idx < length db.preds
      → Coherent db fn m
      → Returns db fn (group_step host db fn p idx acc m) (acc || pred_holds host db fn p idx)
  unfolding group_step
  group_step-Returns p idx true m h c = Returns-some true m c
  group_step-Returns p idx false m h c = pred_match-Returns host db fn p idx ok h m c

  sel_loop-Returns :
      (k idx : ℕ) (acc : Bool) (cur : ℕ) (m : Memo)
      → idx + k ≤ length db.preds
      → Coherent db fn m
      → Returns db fn
          (sel_loop host db fn k idx acc cur m)
          (groups_hold acc cur (truths host db fn idx (slice idx k db.preds)))
  unfolding sel_loop groups_hold truths
  sel_loop-Returns zero idx acc cur m h c = Returns-some acc m c
  sel_loop-Returns (suc k) idx acc cur m h c =
      let (p, e) = get_elem?_of_lt db.preds idx (omega arith) in
      let ih = λ (a : Bool) (g : ℕ) (m1 : Memo) (c1 : Coherent db fn m1).
        sel_loop-Returns k (suc idx) a g m1 (omega arith) c1 in
      rw (slice_cons db.preds idx k e) (
        Returns-read _ e (
          Returns-elim (p.group_id == cur)
            (λ _.
              Returns-bind (group_step host db fn p idx acc m) _ _
                (group_step-Returns p idx acc m (omega arith) c) (ih _ cur))
            (λ _. Returns-and acc c (λ _.
              Returns-bind (group_step host db fn p idx false m) _ _
                (group_step-Returns p idx false m (omega arith) c) (ih _ p.group_id)))))

  grouped_cons :
      (idx : ℕ) (p : Pred) (ps : List Pred)
      → grouped (truths host db fn idx (p ∷ ps))
        ≡ groups_hold false p.group_id (truths host db fn idx (p ∷ ps))
  unfolding grouped truths
  grouped_cons idx p ps = refl

  sel_range-Returns :
      (count start : ℕ) (m : Memo)
      → start + count ≤ length db.preds
      → Coherent db fn m
      → Returns db fn
          (sel_range host db fn count start m)
          (grouped (truths host db fn start (slice start count db.preds)))
  unfolding sel_range grouped truths
  sel_range-Returns zero start m h c = Returns-some false m c
  sel_range-Returns (suc k) start m h c =
      let (p, e) = get_elem?_of_lt db.preds start (omega arith) in
      let nonzero : (suc k == 0) ≡ false = ground arith in
      let cons = slice_cons db.preds start k e in
      rw (nonzero, cons, grouped_cons)
        (Returns-read _ e (
          subst
            (λ l.
              Returns db fn (sel_loop host db fn (suc k) start false p.group_id m)
                (groups_hold false p.group_id (truths host db fn start l)))
            cons (sel_loop-Returns (suc k) start false p.group_id m h c)))

  -- `sel_match` does not fault, and returns whether each group has a predicate that holds; nothing
  -- that its short-circuits skip changes the result.
  pub sel_match-Returns :
      (s : Sel) (m : Memo)
      → s.pred_start + s.pred_count ≤ length db.preds
      → Coherent db fn m
      → Returns db fn (sel_match host db fn s m) (sel_holds host db fn s)
  unfolding sel_match sel_holds
  sel_match-Returns s m h c = sel_range-Returns s.pred_count s.pred_start m h c
