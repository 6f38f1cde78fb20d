-- ===== src/Eval/Scratch.antt =====
-- The scratch from event to event (src/sigma_match.c): what `sigma_eval_create` gives, what a new event
-- starts from, and what is left once a rule has been run.
use libsigma.Base.{
  ℕ, zero, suc, ◌+◌, ◌%◌, ◌^◌, ◌≤◌, ◌<◌, ◌≡◌, ◌≢◌, refl, sym, ap, subst, ◌∙◌, inl, inr, Bool, true,
  false, Option, none, some, List, [], ◌∷◌, map, length, length-set, length-replicate, replicate,
  get_elem?, lt_of_get_elem?, get_elem?-set_self, get_elem?-set_ne, set, ◌==◌, if◌then◌else◌,
  Bool-cases, ℕ_discrete, arith,
}
use libsigma.Db.{Db}
use libsigma.Db.Valid.{Each}
use libsigma.Match.{FieldFn, Slot, Memo}
use libsigma.Match.Memo.{Coherent}
use libsigma.Eval.{Eval, reset_memo, sigma_eval_create, bump_eval_gen, start_event}
use libsigma.Eval.Stamps.{IsStamped, bump_eval_gen-IsFresh}

pub length-map {ℓ κ} :
    {A : Type ℓ} {B : Type κ} (f : A → B) (xs : List A) → length (map f xs) ≡ length xs
length-map f [] = refl
length-map f (x ∷ xs) = ap suc (length-map f xs)

-- The scratch between two events: it is sized for the database, and no stamp is past its generation.
pub record IsScratch (db : Db) (e : Eval) : Type 0 where
  pub stamped : IsStamped e
  pub done_size : length e.eval_done ≡ length db.rules
  pub memo_size : length e.memo ≡ length db.fields

-- The scratch while the rules before `idx` have been run.
pub record Ready (db : Db) (fn : FieldFn) (idx : ℕ) (e : Eval) : Type 0 where
  pub stamped : IsStamped e
  pub done_size : length e.eval_done ≡ length db.rules
  pub coherent : Coherent db fn e.memo
  pub unseen : (j s : ℕ) → idx ≤ j → get_elem? e.eval_done j ≡ some s → s ≢ e.gen

Each-set : (p : ℕ → Type 0) (xs : List ℕ) (i v : ℕ) → Each p xs → p v → Each p (set xs i v)
Each-set p xs i v h hv = λ j s e. elim (ℕ_discrete i j) [
  | yes q ↦
      let e' : get_elem? (set xs i v) i ≡ some s =
        subst (λ k. get_elem? (set xs i v) k ≡ some s) (sym q) e in
      let lt : i < length xs =
        omega (arith, length-set xs i v, lt_of_get_elem? (set xs i v) i e') in
      let same : v ≡ s = cc (get_elem?-set_self xs i v lt) in subst p same hv
  | no n ↦ h j s (sym (get_elem?-set_ne xs i j v n) ∙ e)
]

reset_memo-unresolved :
    (m : Memo) (f : ℕ) (s : Slot) → get_elem? (reset_memo m) f ≡ some s → s.vstate ≡ false
unfolding reset_memo
reset_memo-unresolved [] f s e = absurd (ground arith)
reset_memo-unresolved (x ∷ m) zero s e =
    ap (λ (r : Option Slot). elim r [ some t ↦ t.vstate | none ↦ false ]) (sym e)
reset_memo-unresolved (x ∷ m) (suc f) s e = reset_memo-unresolved m f s e

length-reset_memo : (xs : Memo) → length (reset_memo xs) ≡ length xs
unfolding reset_memo
length-reset_memo [] = refl
length-reset_memo (x ∷ xs) = ap suc (length-reset_memo xs)

-- An emptied memo is coherent with any callback.
pub reset_memo-Coherent :
    (db : Db) (fn : FieldFn) (m : Memo)
    → length m ≡ length db.fields
    → Coherent db fn (reset_memo m)
reset_memo-Coherent db fn m n = record {
  size = length-reset_memo m ∙ n;
  resolved = λ f s e t. absurd (ground (arith, reset_memo-unresolved m f s e));
}

bump_eval_gen-keeps :
    (e : Eval)
    → ((bump_eval_gen e).memo ≡ e.memo) × (length (bump_eval_gen e).eval_done ≡ length e.eval_done)
unfolding bump_eval_gen
bump_eval_gen-keeps e = elim (Bool-cases ((e.gen + 1) % 2 ^ 32 == 0)) [
  | inl wrap ↦ simp wrap (refl, length-map (λ _. 0) e.eval_done)
  | inr up ↦ simp up (refl, refl)
]

pub start_event-Ready :
    (db : Db) (fn : FieldFn) (e : Eval) → IsScratch db e → Ready db fn 0 (start_event e).eval
unfolding start_event
start_event-Ready db fn e s =
    let e' : Eval = record e { memo = reset_memo e.memo } in
    let fresh = bump_eval_gen-IsFresh e' (record {
      done_le = s.stamped.done_le;
      rule_le = s.stamped.rule_le;
      gen_lt = s.stamped.gen_lt;
    }) in
    let (keeps, size) = bump_eval_gen-keeps e' in
    record {
      stamped = record {
        done_le = λ i t h. omega (arith, fresh.done_lt i t h);
        rule_le = λ i t h. omega (arith, fresh.rule_lt i t h);
        gen_lt = fresh.gen_lt;
      };
      done_size = size ∙ s.done_size;
      coherent = subst (Coherent db fn) (sym keeps) (reset_memo-Coherent db fn e.memo s.memo_size);
      unseen = λ j t _ h q. absurd (omega (arith, fresh.done_lt j t h, q));
    }

pub seen-Ready :
    (db : Db) (fn : FieldFn) (idx : ℕ) (e : Eval) (m : Memo)
    → Ready db fn idx e
    → Coherent db fn m
    → Ready db fn (suc idx) (record e { eval_done = set e.eval_done idx e.gen; memo = m })
seen-Ready db fn idx e m ready c = record {
  stamped = record {
    done_le = Each-set (λ s. s ≤ e.gen) e.eval_done idx e.gen ready.stamped.done_le (omega arith);
    rule_le = ready.stamped.rule_le;
    gen_lt = ready.stamped.gen_lt;
  };
  done_size = length-set e.eval_done idx e.gen ∙ ready.done_size;
  coherent = c;
  unseen = λ j s h q.
      ready.unseen j s (omega arith)
        (sym (get_elem?-set_ne e.eval_done idx j e.gen (λ w. absurd (omega arith))) ∙ q);
}

replicate_zero : (n i s : ℕ) → get_elem? (replicate n 0) i ≡ some s → s ≡ 0
replicate_zero zero i s e = absurd (ground arith)
replicate_zero (suc n) zero s e = ground arith
replicate_zero (suc n) (suc i) s e = replicate_zero n i s e

stamps_zero :
    (n : ℕ) (prefilter : Bool) (i s : ℕ)
    → get_elem? (if prefilter then replicate n 0 else []) i ≡ some s
    → s ≡ 0
stamps_zero n true i s h = replicate_zero n i s h
stamps_zero n false i s h = absurd (ground arith)

-- `sigma_eval_create` gives a scratch that serves the first event, with a prefilter or without.
pub sigma_eval_create-IsScratch :
    (db : Db) (prefilter : Bool) → IsScratch db (sigma_eval_create db prefilter)
unfolding sigma_eval_create
sigma_eval_create-IsScratch db prefilter = record {
  stamped = record {
    done_le = λ i s h. omega (arith, replicate_zero _ i s h);
    rule_le = λ i s h. omega (arith, stamps_zero _ prefilter i s h);
    gen_lt = omega arith;
  };
  done_size = length-replicate (length db.rules) 0;
  memo_size = length-replicate (length db.fields) _;
}
