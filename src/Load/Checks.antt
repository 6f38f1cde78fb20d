-- ===== src/Load/Checks.antt =====
-- What the loops of the loader (src/sigma_format.c) establish: a check that does not fault, and the
-- fact that holds where it passes.
use libsigma.Base.{
  ℕ, suc, ◌+◌, ◌≤◌, ◌<◌, ◌≡◌, refl, ap, ◌∙◌, subst, ◌⊎◌, inl, inr, Bool, true, false, ◌||◌, &&_iff,
  Option, some, ◌>>=◌, List, [], ◌∷◌, length, get_elem?, get_elem?_of_lt, ltb, ltb→lt, leb, leb→le,
  ◌==◌, ==_iff, if◌then◌else◌, Bool-cases, ℕ_discrete, arith,
}
use mathlib.Core.Option.{some-injective}
use libsigma.Db.{no_value, Str, Pred, pf_fieldref, Rule, Db}
use libsigma.Db.Op
use libsigma.Db.Valid.{Each, Each-nil, Each-cons, InPool, RuleIn}
use libsigma.Load.{
  and_also, every, field_ok, value_ok, pred_ok, sel_ok, rule_ok, cond_ok, tables_ok,
}

-- The check returns, and where it is true `P` holds.
abbrev pub Checks : Option Bool → Type 0 → Type 0
Checks x P = (b : Bool) × (x ≡ some b) × (b ≡ true → P)

pub and_also-Checks :
    {P Q : Type 0} (x y : Option Bool) → Checks x P → Checks y Q → Checks (and_also x y) (P × Q)
unfolding and_also
and_also-Checks x y (true, e, p) (b, f, q) = (b, rw (e, f) refl, λ t. (p refl, q t))
and_also-Checks x y (false, e, p) (b, f, q) = (false, rw e refl, λ t. absurd (ground arith))

-- The facts of every entry, from those at each index.
pub every-Checks :
    {A : Type 0} (P : A → Type 0) (check : ℕ → A → Option Bool) (xs : List A) (k : ℕ)
    → ((i : ℕ) (x : A) → get_elem? xs i ≡ some x → Checks (check (k + i) x) (P x))
    → Checks (every check k xs) (Each P xs)
unfolding every
every-Checks P check [] k h = (true, refl, λ _. Each-nil P)
every-Checks P check (x ∷ xs) k h =
    let first : Checks (check k x) (P x) =
      subst (λ i. Checks (check i x) (P x)) (omega arith) (h 0 x refl) in
    let others =
      every-Checks P check xs (suc k)
        (λ i y e. subst (λ j. Checks (check j y) (P y)) (omega arith) (h (suc i) y e)) in
    let (b, e, f) = and_also-Checks (check k x) (every check (suc k) xs) first others in
    (b, e, λ t. let (p, ps) = f t in Each-cons P x xs p ps)

pub pure-Checks : {P : Type 0} (b : Bool) → (b ≡ true → P) → Checks (some b) P
pure-Checks b f = (b, refl, f)

-- A test before a read that it guards.
pub guard-Checks :
    {P : Type 0} (t : Bool) (x : Option Bool)
    → (t ≡ false → Checks x P)
    → Checks (if t then some false else x) P
guard-Checks true x f = (false, refl, λ t. absurd (ground arith))
guard-Checks false x f = f refl

pub read-Checks :
    {A P : Type 0} (xs : List A) (i : ℕ) (k : A → Bool)
    → i < length xs
    → ((a : A) → k a ≡ true → P)
    → Checks ((get_elem? xs i) >>= (λ a. some (k a))) P
read-Checks xs i k h f = let (a, e) = get_elem?_of_lt xs i h in (k a, rw e refl, f a)

-- The tables that the header's counts make parallel.
pub record IsParsed (d : Db) : Type 0 where
  pub buckets_size : length d.buckets ≡ length d.bucket_keys
  pub litpost_size : length d.litpost ≡ length d.litndl
  pub clauses_size :
      (counts : List ℕ) → d.rule_clauses ≡ some counts → length counts ≡ length d.rules

-- A field's name lies in the pool, with the NUL after it.
abbrev pub FieldIn : Db → Str → Type 0
FieldIn d s = InPool d s × (get_elem? d.strpool (s.off + s.len) ≡ some 0)

-- A reference to a value, where there is one.
abbrev pub NameIn : Db → ℕ → Type 0
NameIn d v = (v ≡ no_value) ⊎ (v < length d.values)

-- The table that an operand refers to: the fields for a field reference, the networks for `cidr`, else the
-- values.
abbrev pub OperandFor : Db → ℕ → Bool → Bool → Type 0
OperandFor d v true is_cidr = v < length d.fields
OperandFor d v false true = v < length d.cidrs
OperandFor d v false false = NameIn d v

-- The field and the operand of a predicate are there.
abbrev pub PredIn : Db → Pred → Type 0
PredIn d p =
    (p.field_id < length d.fields) × OperandFor d p.value_id (pf_fieldref p) (p.op == Op.cidr)

-- The slices of a rule, its name and its technique are there.
abbrev pub RuleRefs : Db → Rule → Type 0
RuleRefs d r = RuleIn d r × (NameIn d r.name_id × NameIn d r.mitre_id)

module _ (d : Db) where
  field_ok-Checks : (i : ℕ) (s : Str) → Checks (field_ok d i s) (FieldIn d s)
  unfolding field_ok
  field_ok-Checks i s = guard-Checks (ltb (length d.strpool) (s.off + s.len + 1)) _ λ t.
      let h : s.off + s.len < length d.strpool = ground arith in
      let (c, e) = get_elem?_of_lt d.strpool (s.off + s.len) h in
      (c == 0, rw e refl, λ q. (omega arith, e ∙ ap some ((==_iff c 0).0 q)))

  name_in : (v : ℕ) → (v == no_value || ltb v (length d.values)) ≡ true → NameIn d v
  name_in v t = elim (ℕ_discrete v no_value) [ yes e ↦ inl e | no e ↦ inr (ground (arith, t, e)) ]

  operand_in :
      (v : ℕ) (fieldref is_cidr : Bool)
      → (if fieldref
          then ltb v (length d.fields)
          else if is_cidr
          then ltb v (length d.cidrs)
          else v == no_value || ltb v (length d.values))
        ≡ true
      → OperandFor d v fieldref is_cidr
  operand_in v true is_cidr t = ltb→lt _ _ t
  operand_in v false true t = ltb→lt _ _ t
  operand_in v false false t = name_in v t

  pred_in : (p : Pred) → pred_ok d 0 p ≡ some true → PredIn d p
  unfolding pred_ok
  pred_in p t = elim (Bool-cases (leb (length d.fields) p.field_id)) [
    | inl u ↦ absurd (ground (arith, rw u at t))
    | inr u ↦ (
      ground (arith, u),
      operand_in p.value_id (pf_fieldref p) (p.op == Op.cidr) (some-injective _ _ (rw u at t)),
    )
  ]

  pred_ok-Checks : (i : ℕ) (p : Pred) → Checks (pred_ok d i p) (PredIn d p)
  unfolding pred_ok
  pred_ok-Checks i p = (_, refl, λ t. pred_in p (ap some t))

  rule_ok-Checks : (i : ℕ) (r : Rule) → Checks (rule_ok d i r) (RuleRefs d r)
  unfolding rule_ok
  rule_ok-Checks i r = pure-Checks _ λ t.
      let (a, t1) = (&&_iff (leb (r.sel_start + r.sel_count) (length d.sels)) _).0 t in
      let (b, t2) = (&&_iff (leb (r.cond_start + r.cond_count) (length d.cond)) _).0 t1 in
      let (n, m) = (&&_iff (r.name_id == no_value || ltb r.name_id (length d.values)) _).0 t2 in
      ((leb→le _ _ a, leb→le _ _ b), (name_in r.name_id n, name_in r.mitre_id m))

  pub tables_ok-Checks : Checks (tables_ok d) (
      Each (FieldIn d) d.fields
      × (Each (InPool d) d.values
          × (Each (PredIn d) d.preds
              × (Each (λ s. s.pred_start + s.pred_count ≤ length d.preds) d.sels
                  × (Each (RuleRefs d) d.rules × Each (λ t. t.kind ≤ 3) d.cond)))))
  unfolding tables_ok value_ok sel_ok cond_ok
  tables_ok-Checks =
      and_also-Checks _ _
        (every-Checks (FieldIn d) (field_ok d) d.fields 0 (λ i s _. field_ok-Checks (0 + i) s))
        (and_also-Checks _ _
          (every-Checks (InPool d) (value_ok d) d.values 0
            (λ i s _. pure-Checks _ (λ t. leb→le _ _ t)))
          (and_also-Checks _ _
            (every-Checks (PredIn d) (pred_ok d) d.preds 0 (λ i p _. pred_ok-Checks (0 + i) p))
            (and_also-Checks _ _
              (every-Checks (λ s. s.pred_start + s.pred_count ≤ length d.preds) (sel_ok d) d.sels 0
                (λ i s _. pure-Checks _ (λ t. leb→le _ _ t)))
              (and_also-Checks _ _
                (every-Checks (RuleRefs d) (rule_ok d) d.rules 0
                  (λ i r _. rule_ok-Checks (0 + i) r))
                (every-Checks (λ t. t.kind ≤ 3) (cond_ok d) d.cond 0
                  (λ i t _. pure-Checks _ (λ h. leb→le _ _ h)))))))
