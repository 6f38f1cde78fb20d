-- ===== src/Eval/Linear.antt =====
-- `eval_linear` (src/sigma_match.c) reports exactly the rules that hold, in table order.
use libsigma.Base.{
  ℕ, zero, suc, ◌+◌, ◌≤◌, ◌<◌, ◌≡◌, ◌≢◌, refl, sym, ap, subst, ◌∙◌, inl, inr, Bool, true, false,
  ◌||◌, Option, some, List, [], ◌∷◌, ◌++◌, ◌>>=◌, map, append-nil, append_assoc, length,
  length-append, get_elem?, get_elem?_of_lt, lt_of_get_elem?, set, take, slice, ltb, leb, ◌==◌,
  if◌then◌else◌, Bool-cases, dec_lt, arith,
}
use libsigma.Db.{no_value, Rule, Db}
use libsigma.Db.Valid.{Each}
use libsigma.Match.{Host, FieldFn}
use libsigma.Match.Memo.{Usable, pool_str-in}
use libsigma.Rules.Holds.{rule_holds}
use libsigma.Rules.Select.{slice_cons}
use libsigma.Rules.Lazy.{rule_match-Returns}
use libsigma.Eval.{
  Eval, Run, hit_mitre, hit_of, emit, settle, verify, eval_one_rule, linear_loop, start_event,
  eval_linear,
}
use libsigma.Eval.Holds.{technique, expected_hit, matching}
use libsigma.Eval.Scratch.{length-map, IsScratch, Ready, start_event-Ready, seen-Ready}

hit_mitre_lem :
    (db : Db) (r : Rule)
    → Each (λ s. s.off + s.len ≤ length db.strpool) db.values
    → hit_mitre db r ≡ some (technique db r)
unfolding hit_mitre technique
hit_mitre_lem db r v =
    elim (Bool-cases (r.mitre_id == no_value || leb (length db.values) r.mitre_id)) [
      | inl t ↦ simp t
      | inr t ↦
          let h : r.mitre_id < length db.values = ground arith in
          let (s, e) = get_elem?_of_lt db.values r.mitre_id h in
          simp (t, e, pool_str-in db s (v r.mitre_id s e))
    ]

-- The run has reported the rules `rs`, in this order, as far as `out` has room.
pub record Reported (db : Db) (max_hits : ℕ) (rs : List Rule) (run : Run) : Type 0 where
  pub fired : run.fired ≡ length rs
  pub out : run.out ≡ take max_hits (map (expected_hit db) rs)

==-false : (a b : ℕ) → a ≢ b → (a == b) ≡ false
==-false a b n = ground arith

-- The hit of one more rule, where there is room and where there is none.
take-snoc_room {ℓ} :
    {A : Type ℓ} (n : ℕ) (xs : List A) (x : A)
    → length xs < n
    → take n (xs ++ (x ∷ [])) ≡ take n xs ++ (x ∷ [])
take-snoc_room zero xs x h = absurd (omega arith)
take-snoc_room (suc zero) [] x h = refl
take-snoc_room (suc (suc n)) [] x h = refl
take-snoc_room (suc n) (y ∷ xs) x h = ap (λ t. y ∷ t) (take-snoc_room n xs x (omega arith))

take-snoc_full {ℓ} :
    {A : Type ℓ} (n : ℕ) (xs : List A) (x : A) → n ≤ length xs → take n (xs ++ (x ∷ [])) ≡ take n xs
take-snoc_full zero xs x h = refl
take-snoc_full (suc n) [] x h = absurd (omega arith)
take-snoc_full (suc n) (y ∷ xs) x h = ap (λ t. y ∷ t) (take-snoc_full n xs x (omega arith))

map-snoc {ℓ κ} :
    {A : Type ℓ} {B : Type κ} (f : A → B) (xs : List A) (x : A)
    → map f (xs ++ (x ∷ [])) ≡ map f xs ++ (f x ∷ [])
map-snoc f [] x = refl
map-snoc f (y ∷ xs) x = ap (λ t. f y ∷ t) (map-snoc f xs x)

module _ (db : Db) (max_hits : ℕ)
    (values_in : Each (λ s. s.off + s.len ≤ length db.strpool) db.values) where
  emit-Reported :
      (r : Rule) (rs : List Rule) (run : Run)
      → Reported db max_hits rs run
      → (run' : Run) × (emit db max_hits r run ≡ some run')
        × Reported db max_hits (rs ++ (r ∷ [])) run'
        × (run'.eval ≡ run.eval)
  unfolding emit expected_hit
  emit-Reported r rs run rep =
      let hits = map (expected_hit db) rs in
      let n : length hits ≡ run.fired = omega (arith, length-map (expected_hit db) rs, rep.fired) in
      let count : run.fired + 1 ≡ length (rs ++ (r ∷ [])) =
        omega (arith, rep.fired, length-append rs (r ∷ [])) in
      elim (dec_lt run.fired max_hits) [
        | yes h ↦
            let room : ltb run.fired max_hits ≡ true = ground arith in
            (
              record run {
                out = run.out ++ (hit_of r (technique db r) ∷ []);
                fired = run.fired + 1;
              },
              simp (room, hit_mitre_lem db r values_in),
              record {
                fired = count;
                out =
                    ap (λ l. l ++ (expected_hit db r ∷ [])) rep.out
                    ∙ sym (
                        ap (take max_hits) (map-snoc (expected_hit db) rs r)
                        ∙ take-snoc_room max_hits hits (expected_hit db r) (omega arith));
              },
              refl,
            )
        | no o ↦
            let full : ltb run.fired max_hits ≡ false = ground arith in
            (
              record run { fired = run.fired + 1 },
              simp full,
              record {
                fired = count;
                out =
                    rep.out
                    ∙ sym (
                        ap (take max_hits) (map-snoc (expected_hit db) rs r)
                        ∙ take-snoc_full max_hits hits (expected_hit db r) (omega arith));
              },
              refl,
            )
      ]

  settle-Reported :
      (r : Rule) (b : Bool) (rs : List Rule) (run : Run)
      → Reported db max_hits rs run
      → (run' : Run) × (settle db max_hits r b run ≡ some run')
        × Reported db max_hits (rs ++ (if b then r ∷ [] else [])) run'
        × (run'.eval ≡ run.eval)
  unfolding settle
  settle-Reported r true rs run rep = emit-Reported r rs run rep
  settle-Reported r false rs run rep =
      (run, refl, subst (λ l. Reported db max_hits l run) (sym (append-nil rs)) rep, refl)

run_read {ℓ} :
    {A : Type ℓ} {o : Option A} (k : A → Option Run) {x : A} {y : Option Run}
    → o ≡ some x
    → k x ≡ y
    → (o >>= k) ≡ y
run_read k e h = rw e h

run_false :
    {t : Bool} (x : Option Run) {y z : Option Run}
    → t ≡ false
    → y ≡ z
    → elim t [ true ↦ x | false ↦ y ] ≡ z
run_false x e h = rw e h

take_nil {ℓ} : {A : Type ℓ} (n : ℕ) → take {A = A} n [] ≡ []
take_nil zero = refl
take_nil (suc n) = refl

take-all {ℓ} : {A : Type ℓ} (xs : List A) → take (length xs) xs ≡ xs
take-all [] = refl
take-all (x ∷ xs) = ap (λ t. x ∷ t) (take-all xs)

matching_step :
    (host : Host) (db : Db) (fn : FieldFn) (r : Rule) (rules rs : List Rule)
    → (rs ++ (if rule_holds host db fn r then r ∷ [] else [])) ++ matching host db fn rules
      ≡ rs ++ matching host db fn (r ∷ rules)
unfolding matching
matching_step host db fn r rules rs = elim (Bool-cases (rule_holds host db fn r)) [
  | inl t ↦ rw t (append_assoc rs (r ∷ []) _)
  | inr t ↦ rw t (append_assoc rs [] _)
]

module _ (host : Host) (db : Db) (fn : FieldFn) (max_hits : ℕ) (ok : Usable host db) where
  -- One rule that this event has not seen.
  eval_one_rule-Reported :
      (idx : ℕ) (r : Rule) (rs : List Rule) (run : Run)
      → get_elem? db.rules idx ≡ some r
      → Ready db fn idx run.eval
      → Reported db max_hits rs run
      → (run' : Run) × (eval_one_rule host db fn max_hits idx run ≡ some run')
        × Reported db max_hits (rs ++ (if rule_holds host db fn r then r ∷ [] else [])) run'
        × Ready db fn (suc idx) run'.eval
  unfolding eval_one_rule verify
  eval_one_rule-Reported idx r rs run e ready rep =
      let (stamp, se) =
        get_elem?_of_lt run.eval.eval_done idx
          (omega (arith, ready.done_size, lt_of_get_elem? db.rules idx e)) in
      let new : (stamp == run.eval.gen) ≡ false =
        ==-false stamp run.eval.gen (ready.unseen idx stamp (omega arith) se) in
      let (m, me, mc) =
        rule_match-Returns host db fn ok r (ok.valid.rules_in idx r e) run.eval.memo
          ready.coherent in
      let (run', re, rr, ee) =
        settle-Reported db max_hits ok.valid.values_in r (rule_holds host db fn r) rs
          (record {
            eval = record run.eval {
              eval_done = set run.eval.eval_done idx run.eval.gen;
              memo = m;
            };
            out = run.out;
            fired = run.fired;
          })
          (record { fired = rep.fired; out = rep.out }) in
      (
        run',
        run_read _ se (run_false (some run) new (run_read _ e (run_read _ me re))),
        rr,
        subst (Ready db fn (suc idx)) (sym ee) (seen-Ready db fn idx run.eval m ready mc),
      )

  linear_loop-Reported :
      (k idx : ℕ) (rs : List Rule) (run : Run)
      → idx + k ≤ length db.rules
      → Ready db fn idx run.eval
      → Reported db max_hits rs run
      → (run' : Run) × (linear_loop host db fn max_hits k idx run ≡ some run')
        × Reported db max_hits (rs ++ matching host db fn (slice idx k db.rules)) run'
        × Ready db fn (idx + k) run'.eval
  unfolding linear_loop matching
  linear_loop-Reported zero idx rs run h ready rep = (
    run,
    refl,
    subst (λ l. Reported db max_hits l run) (sym (append-nil rs)) rep,
    subst (λ n. Ready db fn n run.eval) (omega arith) ready,
  )
  linear_loop-Reported (suc k) idx rs run h ready rep =
      let (r, e) = get_elem?_of_lt db.rules idx (omega arith) in
      let (run1, e1, rep1, ready1) = eval_one_rule-Reported idx r rs run e ready rep in
      let (run2, e2, rep2, ready2) =
        linear_loop-Reported k (suc idx) _ run1 (omega arith) ready1 rep1 in
      (
        run2,
        simp (e1, e2),
        subst (λ l. Reported db max_hits l run2)
            (matching_step host db fn r _ rs
              ∙ ap (λ l. rs ++ matching host db fn l) (sym (slice_cons db.rules idx k e)))
            rep2,
        subst (λ n. Ready db fn n run2.eval) (omega arith) ready2,
      )

  -- On a usable database, with a scratch that is sized for it, `eval_linear` never faults. It counts the rules that
  -- hold at the event, writes their hits in table order up to `max_hits`, and leaves a scratch that
  -- serves the next event.
  pub eval_linear-Reported :
      (e : Eval)
      → IsScratch db e
      → (run' : Run) × (eval_linear host db fn max_hits e ≡ some run')
        × (run'.fired ≡ length (matching host db fn db.rules))
        × (run'.out ≡ take max_hits (map (expected_hit db) (matching host db fn db.rules)))
        × IsScratch db run'.eval
  unfolding eval_linear start_event
  eval_linear-Reported e s =
      let (run', q, rep, ready) =
        linear_loop-Reported (length db.rules) 0 [] (start_event e) (omega arith)
          (start_event-Ready db fn e s) (record { fired = refl; out = sym (take_nil max_hits) }) in
      let every : slice 0 (length db.rules) db.rules ≡ db.rules = take-all db.rules in
      let rep' = subst (λ rs. Reported db max_hits (matching host db fn rs) run') every rep in
      (
        run',
        q,
        rep'.fired,
        rep'.out,
        record {
          stamped = ready.stamped;
          done_size = ready.done_size;
          memo_size = ready.coherent.size;
        },
      )
