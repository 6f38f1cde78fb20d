-- ===== src/Load/Index.antt =====
-- The checks of the loader (src/sigma_format.c) on the literal index and the field witnesses.
use libsigma.Base.{
  ℕ, zero, suc, ◌+◌, ◌≤◌, ◌<◌, ◌≡◌, refl, sym, ap, ◌∙◌, subst, inl, inr, Bool, true, false, not,
  ◌&&◌, ◌||◌, Option, none, some, List, [], ◌∷◌, length, get_elem?, get_elem?_of_lt,
  lt_of_get_elem?, ltb, leb, ltb→lt, leb→le, ◌==◌, ==_iff, if◌then◌else◌, ℕ_discrete, arith,
}
use mathlib.Core.Option.{some-injective}
use libsigma.Db.Op
use libsigma.Db.{any_field, max_clauses, Str, Postings, Litref, Fwit, Db}
use libsigma.Db.Valid.{Each, InPool}
use libsigma.Load.{
  every, as_uint64, rule_idx_ok, needle_ok, clause_ok, litref_ok, no_clause, litav_ok, clauses_ok,
  fwit_op_ok, fwit_ok, index_ok,
}
use libsigma.Load.Checks.{
  Checks, and_also-Checks, every-Checks, pure-Checks, guard-Checks, IsParsed,
}
use libsigma.Load.Refs.{
  ClauseIn, LitrefIn, AnyFieldIn, NoClauses, ClausesIn, WitnessFor, FwitIn, IsIndexed,
}

zero_plus : (i : ℕ) → 0 + i ≡ i
zero_plus i = omega arith

every_from :
    {A : Type 0} (P : ℕ → A → Type 0) (check : ℕ → A → Option Bool) (xs : List A) (k : ℕ)
    → ((i : ℕ) (x : A) → get_elem? xs i ≡ some x → Checks (check (k + i) x) (P (k + i) x))
    → Checks (every check k xs) ((i : ℕ) (x : A) → get_elem? xs i ≡ some x → P (k + i) x)
unfolding every
every_from P check [] k h = (true, refl, λ _ i x e. absurd (ground (arith, e)))
every_from P check (x ∷ xs) k h =
    let first : Checks (check k x) (P k x) =
      subst (λ j. Checks (check j x) (P j x)) (omega arith) (h 0 x refl) in
    let others =
      every_from P check xs (suc k)
        (λ i y e. subst (λ j. Checks (check j y) (P j y)) (omega arith) (h (suc i) y e)) in
    let (b, e, f) = and_also-Checks (check k x) (every check (suc k) xs) first others in
    (b, e, λ t i y g. let (p, ps) = f t in here P k x xs p ps i y g)
  where
    here :
        {A : Type 0} (P : ℕ → A → Type 0) (k : ℕ) (x : A) (xs : List A)
        → P k x
        → ((i : ℕ) (y : A) → get_elem? xs i ≡ some y → P (suc k + i) y)
        → (i : ℕ) (y : A) → get_elem? (x ∷ xs) i ≡ some y
        → P (k + i) y
    here P k x xs p ps zero y g =
        let z : k ≡ k + 0 = omega arith in
        subst (λ j. P j y) z (subst (P k) (some-injective x y g) p)
    here P k x xs p ps (suc i) y g =
        let z : suc k + i ≡ k + suc i = omega arith in subst (λ j. P j y) z (ps i y g)

-- The facts of every entry that name its index.
every_at-Checks :
    {A : Type 0} (P : ℕ → A → Type 0) (check : ℕ → A → Option Bool) (xs : List A)
    → ((i : ℕ) (x : A) → get_elem? xs i ≡ some x → Checks (check i x) (P i x))
    → Checks (every check 0 xs) ((i : ℕ) (x : A) → get_elem? xs i ≡ some x → P i x)
every_at-Checks P check xs h =
    let z = λ (i : ℕ). zero_plus i in
    let (b, e, f) =
      every_from P check xs 0
        (λ i x g. subst (λ j. Checks (check j x) (P j x)) (sym (z i)) (h i x g)) in
    (b, e, λ t i x g. subst (λ j. P j x) (z i) (f t i x g))

module _ (d : Db) (parsed : IsParsed d) where
  -- A needle and its slice, which is at the same index.
  abbrev NeedleIn : ℕ → Str → Type 0
  NeedleIn i n =
      (InPool d n × (0 < n.len))
      × ((p : Postings) × (get_elem? d.litpost i ≡ some p)
          × (p.idx_start + p.idx_count ≤ length d.litpost_ref))

  needle_ok-Checks :
      (i : ℕ) (n : Str) → get_elem? d.litndl i ≡ some n → Checks (needle_ok d i n) (NeedleIn i n)
  unfolding needle_ok
  needle_ok-Checks i n e =
      guard-Checks (ltb (length d.strpool) (n.off + n.len) || n.len == 0) _ λ t.
        let (p, f) =
          get_elem?_of_lt d.litpost i
            (omega (arith, parsed.litpost_size, lt_of_get_elem? d.litndl i e)) in
        (
          leb (p.idx_start + p.idx_count) (length d.litpost_ref),
          rw f refl,
          λ q. ((ground arith, ground arith), (p, f, leb→le _ _ q)),
        )

  litpost_slices :
      ((i : ℕ) (n : Str) → get_elem? d.litndl i ≡ some n → NeedleIn i n)
      → Each (λ p. p.idx_start + p.idx_count ≤ length d.litpost_ref) d.litpost
  litpost_slices h i p e =
      let (n, f) =
        get_elem?_of_lt d.litndl i
          (omega (arith, parsed.litpost_size, lt_of_get_elem? d.litpost i e)) in
      let (a, (q, g, l)) = h i n f in
      subst (λ (p : Postings). p.idx_start + p.idx_count ≤ length d.litpost_ref)
        (some-injective q p (sym g ∙ e)) l

  clause_ok-Checks :
      (o : Option (List ℕ)) (r clause : ℕ)
      → d.rule_clauses ≡ o
      → r < length d.rules
      → Checks (clause_ok d o r clause) (ClauseIn d r clause)
  unfolding clause_ok
  clause_ok-Checks none r clause e h = (false, refl, λ t. absurd (ground arith))
  clause_ok-Checks (some counts) r clause e h =
      let (n, g) = get_elem?_of_lt counts r (omega (arith, parsed.clauses_size counts e)) in
      (ltb clause n, rw g refl, λ t. (counts, n, e, g, ltb→lt _ _ t))

  any_field_in :
      (f : ℕ) → (not (f == any_field) && leb (length d.fields) f) ≡ false → AnyFieldIn d f
  any_field_in f t = elim (ℕ_discrete f any_field) [
    | yes e ↦ inl e
    | no e ↦ inr (ground (arith, t, e))
  ]

  litref_ok-Checks : (i : ℕ) (r : Litref) → Checks (litref_ok d i r) (LitrefIn d r)
  unfolding litref_ok
  litref_ok-Checks i r =
      guard-Checks
        (leb (length d.rules) r.rule_idx
          || ((not (r.field_id == any_field) && leb (length d.fields) r.field_id)
              || leb max_clauses r.clause_idx))
        _
        λ t.
          let h : r.rule_idx < length d.rules = ground arith in
          let u : (not (r.field_id == any_field) && leb (length d.fields) r.field_id) ≡ false =
            ground (arith, t) in
          let l : r.clause_idx < max_clauses = ground (arith, t) in
          let (b, e, f) = clause_ok-Checks d.rule_clauses r.rule_idx r.clause_idx refl h in
          (b, e, λ q. (h, (any_field_in r.field_id u, (l, f q))))

  no_clause-Checks :
      (o : Option (List ℕ)) (r : ℕ)
      → d.rule_clauses ≡ o
      → r < length d.rules
      → Checks (no_clause d o r) ((r < length d.rules) × NoClauses o r)
  unfolding no_clause
  no_clause-Checks none r e h = (true, refl, λ _. (h, tt))
  no_clause-Checks (some counts) r e h =
      let (n, g) = get_elem?_of_lt counts r (omega (arith, parsed.clauses_size counts e)) in
      (n == 0, rw g refl, λ q. (h, g ∙ ap some ((==_iff n 0).0 q)))

  litav_ok-Checks :
      (i r : ℕ) → Checks (litav_ok d i r) ((r < length d.rules) × NoClauses d.rule_clauses r)
  unfolding litav_ok
  litav_ok-Checks i r =
      guard-Checks (leb (length d.rules) r) _
        λ t. no_clause-Checks d.rule_clauses r refl (ground arith)

  clauses_ok-Checks : (o : Option (List ℕ)) → Checks (clauses_ok d o) (ClausesIn o)
  unfolding clauses_ok
  clauses_ok-Checks none = (true, refl, λ _. tt)
  clauses_ok-Checks (some counts) =
      every-Checks (λ n. n ≤ max_clauses) (λ i n. some (leb n max_clauses)) counts 0
        (λ i n _. pure-Checks _ (λ t. leb→le _ _ t))

  witness_for :
      (w : Fwit) (is_cidr : Bool)
      → (if is_cidr
          then ltb (as_uint64 w.ival) (length d.cidrs)
          else w.op == Op.gt
            || (w.op == Op.gte || (w.op == Op.lt || (w.op == Op.lte || w.op == Op.numeq))))
        ≡ true
      → WitnessFor d w.op w.ival is_cidr
  witness_for w true t = ltb→lt _ _ t
  witness_for w false t = elim (ℕ_discrete w.op Op.gt) [
    | yes e ↦ inl e
    | no e ↦ inr (elim (ℕ_discrete w.op Op.gte) [
      | yes f ↦ inl f
      | no f ↦ inr (elim (ℕ_discrete w.op Op.lt) [
        | yes g ↦ inl g
        | no g ↦ inr (elim (ℕ_discrete w.op Op.lte) [
          | yes h ↦ inl h
          | no h ↦ inr (ground (arith, t, e, f, g, h))
        ])
      ])
    ])
  ]

  fwit_ok-Checks : (i : ℕ) (w : Fwit) → Checks (fwit_ok d i w) (FwitIn d w)
  unfolding fwit_ok fwit_op_ok
  fwit_ok-Checks i w =
      guard-Checks
        (leb (length d.rules) w.rule_idx
          || (w.field_id == any_field
              || (leb (length d.fields) w.field_id || leb max_clauses w.clause_idx)))
        _
        λ t.
          let h : w.rule_idx < length d.rules = ground arith in
          let g : w.field_id < length d.fields = ground arith in
          let l : w.clause_idx < max_clauses = ground arith in
          let (b, e, f) =
            and_also-Checks _ _ (clause_ok-Checks d.rule_clauses w.rule_idx w.clause_idx refl h)
              (pure-Checks (fwit_op_ok d w) (witness_for w (w.op == Op.cidr))) in
          (b, e, λ q. (h, (g, (l, f q))))

  pub index_ok-Checks : Checks (index_ok d) (IsIndexed d)
  unfolding index_ok rule_idx_ok
  index_ok-Checks =
      let (n, e1, f1) =
        every_at-Checks NeedleIn (needle_ok d) d.litndl (λ i n g. needle_ok-Checks i n g) in
      let (b, e, f) =
        and_also-Checks _ _
          (every-Checks (λ r. r < length d.rules) (rule_idx_ok d) d.bucket_idx 0
            (λ i r _. pure-Checks _ (λ t. ltb→lt _ _ t)))
          (and_also-Checks _ _ (n, e1, f1)
            (and_also-Checks _ _
              (every-Checks (LitrefIn d) (litref_ok d) d.litpost_ref 0
                (λ i r _. litref_ok-Checks (0 + i) r))
              (and_also-Checks _ _
                (every-Checks (λ r. (r < length d.rules) × NoClauses d.rule_clauses r) (litav_ok d)
                  d.litav 0 (λ i r _. litav_ok-Checks (0 + i) r))
                (and_also-Checks _ _ (clauses_ok-Checks d.rule_clauses) (
                  every-Checks (FwitIn d) (fwit_ok d) d.fwit 0
                    (λ i w _. fwit_ok-Checks (0 + i) w)))))) in
      (
        b,
        e,
        λ t.
            let (p, (q, (r, (s, (c, w))))) = f t in
            record {
              bucket_idx_in = p;
              litndl_in = λ i x g. (q i x g).0;
              litpost_in = litpost_slices q;
              litref_in = r;
              litav_in = s;
              clauses_in = c;
              fwit_in = w;
            },
      )
