-- ===== src/Match/Memo.antt =====
-- The memo of `resolve_field` (src/sigma_match.c) is transparent: at a coherent memo `pred_match`
-- returns what the predicate says of the event, and leaves a coherent memo.
use libsigma.Base.{
  ℕ, zero, suc, ◌≤◌, ◌<◌, ◌≡◌, refl, sym, ap, ◌∙◌, inl, inr, subst, Bool, true, false, ◌&&◌, Option,
  none, some, ◌>>=◌, List, [], ◌∷◌, length, length-set, get_elem?, get_elem?_of_lt, lt_of_get_elem?,
  get_elem?-set_self, get_elem?-set_ne, set, ltb, leb, lt→ltb, le→leb, ◌==◌, if◌then◌else◌,
  Bool-cases, Option-cases, ℕ_discrete, dec_lt, arith,
}
use libsigma.Text.{Bytes}
use libsigma.Cidr.{Cidr}
use libsigma.Cidr.Reads.{CidrFits, IsInet, ip_in_cidr_total}
use libsigma.Db.{Str, Pred, pf_fieldref, Db, Regex, pool_str}
use libsigma.Db.Op
use libsigma.Db.Valid.{Each, InPool, IsValid}
use libsigma.Match.{
  Host, FieldFn, Slot, Memo, is_numeric, call_field, resolve_slot, resolve_field, literal_operand,
  field_operand, re_match, cidr_match, fieldref_match, literal_match, value_match, present_match,
  keep, pred_test, pred_match,
}
use libsigma.Match.Holds.{
  text_of, value_of, field_value, literal_text, entry_holds, in_cidr, cidr_holds, re_holds,
  present_holds, fieldref_holds, literal_holds, value_holds, test_holds, pred_holds,
}

-- Every slot that is marked as resolved holds the field's value at this event.
pub record Coherent (db : Db) (fn : FieldFn) (m : Memo) : Type 0 where
  pub size : length m ≡ length db.fields
  pub resolved :
      (f : ℕ) (s : Slot) → get_elem? m f ≡ some s → s.vstate ≡ true → s.value ≡ field_value db fn f

-- The step returns `a`, and leaves a coherent memo.
abbrev pub Returns {ℓ} : {A : Type ℓ} → Db → FieldFn → Option (A × Memo) → A → Type ℓ
Returns db fn r a = (m : Memo) × (r ≡ some (a, m)) × Coherent db fn m

get_elem?-set_inv : (m : Memo) (f : ℕ) (v s : Slot) → get_elem? (set m f v) f ≡ some s → v ≡ s
get_elem?-set_inv m f v s e =
    let h : f < length m = omega (arith, length-set m f v, lt_of_get_elem? (set m f v) f e) in
    cc (get_elem?-set_self m f v h)

get_elem?_out {ℓ} : {A : Type ℓ} (xs : List A) (i : ℕ) → length xs ≤ i → get_elem? xs i ≡ none
get_elem?_out [] i h = refl
get_elem?_out (x ∷ xs) zero h = absurd (omega arith)
get_elem?_out (x ∷ xs) (suc i) h = get_elem?_out xs i (omega arith)

-- A slot that holds the value of field `f`.
abbrev filled : Db → FieldFn → ℕ → Slot
filled db fn f = record { vstate = true; value = field_value db fn f }

module _ {db : Db} {fn : FieldFn} where
  pub Returns-bind {ℓ κ} :
      {A : Type ℓ} {B : Type κ} (r : Option (A × Memo)) (k : A × Memo → Option (B × Memo)) {a : A}
      (b : B)
      → Returns db fn r a
      → ((m : Memo) → Coherent db fn m → Returns db fn (k (a, m)) b)
      → Returns db fn (r >>= k) b
  Returns-bind r k b (m, e, c) h = rw e (h m c)

  pub Returns-some {ℓ} :
      {A : Type ℓ} (a : A) (m : Memo) → Coherent db fn m → Returns db fn (some (a, m)) a
  Returns-some a m c = (m, refl, c)

  -- A read that succeeds.
  pub Returns-read {ℓ κ} :
      {A : Type ℓ} {B : Type κ} {o : Option A} (k : A → Option (B × Memo)) {x : A} {b : B}
      → o ≡ some x
      → Returns db fn (k x) b
      → Returns db fn (o >>= k) b
  Returns-read k e r = rw e r

  pub Returns-elim {ℓ} :
      {A : Type ℓ} (t : Bool) {x y : Option (A × Memo)} {a b : A}
      → (t ≡ true → Returns db fn x a)
      → (t ≡ false → Returns db fn y b)
      → Returns db fn (elim t [ true ↦ x | false ↦ y ]) (if t then a else b)
  Returns-elim true f g = f refl
  Returns-elim false f g = g refl

  -- An early return of false.
  pub Returns-and :
      (t : Bool) {x : Option (Bool × Memo)} {b : Bool} {m : Memo}
      → Coherent db fn m
      → (t ≡ true → Returns db fn x b)
      → Returns db fn (elim t [ false ↦ some (false, m) | true ↦ x ]) (t && b)
  Returns-and true c f = f refl
  Returns-and false c f = Returns-some false _ c

  pub Returns-keep :
      (m : Memo) {r : Option Bool} {b : Bool}
      → Coherent db fn m
      → r ≡ some b
      → Returns db fn (keep m r) b
  Returns-keep m c e = rw e (m, refl, c)

  pub Returns-if {ℓ} :
      {A : Type ℓ} (t : Bool) {x y : Option (A × Memo)} {a b : A}
      → (t ≡ true → Returns db fn x a)
      → (t ≡ false → Returns db fn y b)
      → Returns db fn (if t then x else y) (if t then a else b)
  Returns-if true f g = f refl
  Returns-if false f g = g refl

  Coherent-set : (m : Memo) (f : ℕ) → Coherent db fn m → Coherent db fn (set m f (filled db fn f))
  Coherent-set m f c = record {
    size = length-set m f _ ∙ c.size;
    resolved = λ g s e t. elim (ℕ_discrete f g) [
      | yes p ↦
          subst (λ h. s.value ≡ field_value db fn h) p
            (ap (λ (r : Slot). r.value)
              (sym (
                get_elem?-set_inv m f (filled db fn f) s
                  (subst (λ h. get_elem? (set m f (filled db fn f)) h ≡ some s) (sym p) e))))
      | no n ↦ c.resolved g s (sym (get_elem?-set_ne m f g (filled db fn f) n) ∙ e) t
    ];
  }

pub pool_str-in : (db : Db) (s : Str) → InPool db s → pool_str db s ≡ some (text_of db s)
unfolding pool_str
pool_str-in db s h = rw (le→leb _ _ h) refl

call_field_lem :
    (db : Db) (fn : FieldFn) (f : ℕ)
    → IsValid db
    → f < length db.fields
    → call_field db fn f ≡ some (field_value db fn f)
unfolding call_field field_value
call_field_lem db fn f v h =
    let (s, e) = get_elem?_of_lt db.fields f h in simp (e, pool_str-in db s (v.fields_in f s e))

field_value_out :
    (db : Db) (fn : FieldFn) (f : ℕ) → length db.fields ≤ f → field_value db fn f ≡ none
unfolding field_value
field_value_out db fn f h = ap (value_of db fn) (get_elem?_out db.fields f h)

module _ {db : Db} {fn : FieldFn} (valid : IsValid db) where
  resolve_slot-Returns :
      (f : ℕ) (m : Memo) (s : Slot) (b : Bool)
      → f < length db.fields
      → Coherent db fn m
      → get_elem? m f ≡ some s
      → s.vstate ≡ b
      → Returns db fn (resolve_slot db fn f m b s.value) (field_value db fn f)
  unfolding resolve_slot
  resolve_slot-Returns f m s true h c e t = (m, ap (λ v. some (v, m)) (c.resolved f s e t), c)
  resolve_slot-Returns f m s false h c e t =
      rw (call_field_lem db fn f valid h) (Returns-some _ _ (Coherent-set m f c))

  -- The memo answers with the value that the callback gives for the field's name.
  pub resolve_field-Returns :
      (f : ℕ) (m : Memo)
      → Coherent db fn m
      → Returns db fn (resolve_field db fn f m) (field_value db fn f)
  unfolding resolve_field
  resolve_field-Returns f m c = elim (dec_lt f (length db.fields)) [
    | yes h ↦
        let (s, e) = get_elem?_of_lt m f (omega (arith, c.size)) in
        simp (lt→ltb _ _ h, e) (resolve_slot-Returns f m s s.vstate h c e refl)
    | no n ↦
        let o : ltb f (length db.fields) ≡ false = ground arith in
        simp (o, field_value_out db fn f (omega arith)) (Returns-some none m c)
  ]

literal_match_lem :
    (db : Db) (p : Pred) (val : Bytes)
    → IsValid db
    → literal_match db p val ≡ some (literal_holds db p val)
unfolding literal_match literal_holds literal_operand literal_text
literal_match_lem db p val v = elim (Option-cases (get_elem? db.values p.value_id)) [
  | inl e ↦ simp e
  | inr (s, e) ↦ simp (e, pool_str-in db s (v.values_in p.value_id s e))
]

re_match_lem :
    (host : Host) (re : Option (List (Option Regex))) (n_preds idx : ℕ) (val : Bytes)
    → ((arr : List (Option Regex)) → re ≡ some arr → length arr ≡ n_preds)
    → idx < n_preds
    → re_match host re n_preds idx val ≡ some (re_holds host re idx val)
unfolding re_match re_holds entry_holds
re_match_lem host none n_preds idx val sized h = refl
re_match_lem host (some arr) n_preds idx val sized h =
    let (entry, e) = get_elem?_of_lt arr idx (omega (arith, sized arr refl)) in
    simp (lt→ltb _ _ h, e)

cidr_match_lem :
    (host : Host) (cidrs : List Cidr) (id : ℕ) (val : Bytes)
    → IsInet host.inet
    → Each CidrFits cidrs
    → cidr_match host cidrs id val ≡ some (cidr_holds host cidrs id val)
unfolding cidr_match cidr_holds in_cidr
cidr_match_lem host cidrs id val inet fits = elim (dec_lt id (length cidrs)) [
  | yes h ↦
      let (c, e) = get_elem?_of_lt cidrs id h in
      let (b, r) = ip_in_cidr_total host.inet val c inet (fits id c e) in simp (lt→ltb _ _ h, e, r)
  | no n ↦
      let o : ltb id (length cidrs) ≡ false = ground arith in
      simp (o, get_elem?_out cidrs id (omega arith))
]

-- The tables that the predicates read, and the parser of addresses, are as the matcher assumes.
pub record Usable (host : Host) (db : Db) : Type 0 where
  pub valid : IsValid db
  pub inet : IsInet host.inet
  pub cidrs_fit : Each CidrFits db.cidrs

module _ (host : Host) (db : Db) (fn : FieldFn) (p : Pred) (idx : ℕ) (ok : Usable host db)
    (in_table : idx < length db.preds) where
  fieldref_match-Returns :
      (val : Bytes) (m : Memo)
      → Coherent db fn m
      → Returns db fn (fieldref_match db fn p val m) (fieldref_holds db fn p val)
  unfolding fieldref_match fieldref_holds field_operand
  fieldref_match-Returns val m c = elim (dec_lt p.value_id (length db.fields)) [
    | yes h ↦
        let i : leb (length db.fields) p.value_id ≡ false = ground arith in
        simp i (
          Returns-if (ltb 0xFFFF p.value_id) (λ _. Returns-some false m c)
            (λ _.
              Returns-bind (resolve_field db fn p.value_id m)
                (λ (o, m1). some (field_operand db fn p val o, m1)) _
                (resolve_field-Returns ok.valid p.value_id m c) (λ m1 c1. Returns-some _ m1 c1)))
    | no n ↦
        let i : leb (length db.fields) p.value_id ≡ true = ground arith in
        let o : field_value db fn p.value_id ≡ none =
          field_value_out db fn p.value_id (omega arith) in
        simp (i, o)
          (elim (Bool-cases (ltb 0xFFFF p.value_id)) [
            | inl far ↦ rw far (Returns-some false m c)
            | inr near ↦ rw (near, field_operand) (Returns-some false m c)
          ])
  ]

  value_match-Returns :
      (val : Bytes) (m : Memo)
      → Coherent db fn m
      → Returns db fn (value_match host db fn p idx val m) (value_holds host db fn p idx val)
  unfolding value_match value_holds
  value_match-Returns val m c =
      Returns-if (is_numeric p.op) (λ _. Returns-some _ m c)
        λ _.
          Returns-if (p.op == Op.cidr)
            (λ _.
              Returns-keep m c (cidr_match_lem host db.cidrs p.value_id val ok.inet ok.cidrs_fit))
            λ _.
              Returns-if (p.op == Op.re)
                (λ _.
                  Returns-keep m c
                    (re_match_lem host db.re (length db.preds) idx val ok.valid.re_in in_table))
                λ _.
                  Returns-if (pf_fieldref p) (λ _. fieldref_match-Returns val m c)
                    λ _. Returns-keep m c (literal_match_lem db p val ok.valid)

  present_match-Returns :
      (val : Option Bytes) (m : Memo)
      → Coherent db fn m
      → Returns db fn (present_match host db fn p idx val m) (present_holds host db fn p idx val)
  unfolding present_match present_holds
  present_match-Returns none m c = Returns-some false m c
  present_match-Returns (some v) m c = value_match-Returns v m c

  pred_test-Returns :
      (val : Option Bytes) (m : Memo)
      → Coherent db fn m
      → Returns db fn (pred_test host db fn p idx val m) (test_holds host db fn p idx val)
  unfolding pred_test test_holds
  pred_test-Returns val m c =
      Returns-if (p.op == Op.exists) (λ _. Returns-some _ m c) (λ _. present_match-Returns val m c)

  -- On a usable database, at a coherent memo, a predicate of the table does not fault in `pred_match`,
  -- which returns what the predicate says of the event,
  -- whatever the memo holds already, and leaves a coherent memo.
  pub pred_match-Returns :
      (m : Memo)
      → Coherent db fn m
      → Returns db fn (pred_match host db fn p idx m) (pred_holds host db fn p idx)
  unfolding pred_match pred_holds
  pred_match-Returns m c =
      Returns-bind (resolve_field db fn p.field_id m) _ _
        (resolve_field-Returns ok.valid p.field_id m c)
        λ m1 c1.
          Returns-bind (pred_test host db fn p idx (field_value db fn p.field_id) m1) _ _
            (pred_test-Returns (field_value db fn p.field_id) m1 c1) λ m2 c2. Returns-some _ m2 c2
