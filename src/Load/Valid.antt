-- ===== src/Load/Valid.antt =====
-- What an artifact that the loader accepts (src/sigma_format.c, src/sigma_match.c) is: a database on
-- which the matcher stays inside its tables.
use libsigma.Base.{
  ℕ, suc, ◌+◌, ◌≤◌, ◌<◌, ◌≡◌, refl, subst, ap, ◌∙◌, ◌⊎◌, inl, inr, Bool, true, not, Option, none,
  some, List, [], ◌∷◌, length, get_elem?, lt_of_get_elem?, any, ◌==◌, Bool-cases, Option-cases,
  arith,
}
use libsigma.Text.{eq_from}
use libsigma.Db.{no_value, pf_case, Str, Pred, Regex, Db}
use libsigma.Db.Op
use libsigma.Db.Valid.{Each, InPool, IsValid}
use libsigma.Match.Holds.{text_of}
use libsigma.Match.Memo.{pool_str-in}
use libsigma.Load.{
  Outcome, range_error, regex_error, loaded, catf, cat_test, cat_loop, cat_field, Entry, bad_value,
  entry, compile, compile_operand, compile_pred, add_entry, compile_loop, with_patterns,
  compile_patterns, load_index, load_tables,
}
use libsigma.Load.Checks.{IsParsed, FieldIn, PredIn, RuleRefs, tables_ok-Checks}
use libsigma.Load.Refs.{IsIndexed}
use libsigma.Load.Index.{index_ok-Checks}
use libsigma.Load.Buckets.{KeysIn, bucket_loop-KeysIn}

-- The references that the matcher and the prefilter follow.
pub record IsSound (d : Db) : Type 0 where
  pub valid : IsValid d
  pub names_in : Each (FieldIn d) d.fields
  pub preds_in : Each (PredIn d) d.preds
  pub rule_refs_in : Each (RuleRefs d) d.rules
  pub cond_in : Each (λ t. t.kind ≤ 3) d.cond
  pub keys_in : Each (InPool d) d.bucket_keys
  pub buckets_in : Each (λ b. b.idx_start + b.idx_count ≤ length d.bucket_idx) d.buckets
  pub av_bucket_in : (d.av_bucket ≡ no_value) ⊎ (d.av_bucket < length d.buckets)
  pub cat_field_in : (d.cat_field_id ≡ no_value) ⊎ (d.cat_field_id < length d.fields)
  pub indexed : IsIndexed d

-- Only the patterns and the two cached numbers are new.
abbrev pub Keeps : Db → Db → Type 0
Keeps d d' =
    (av cat : ℕ) × (re : Option (List (Option Regex))) × (d'
      ≡ record d { av_bucket = av; cat_field_id = cat; re = re })

-- The outcome of loading `d` is an error, or a sound database with the tables of `d`.
abbrev pub Sound : Db → Outcome → Type 0
Sound d range_error = Unit
Sound d regex_error = Unit
Sound d (loaded d') = IsSound d' × Keeps d d'

cat_loop_total :
    (d : Db) (ss : List Str) (i : ℕ)
    → Each (InPool d) ss
    → (c : ℕ) × (cat_loop d ss i ≡ some c) × ((c ≡ no_value) ⊎ (c < i + length ss))
unfolding cat_loop cat_test
cat_loop_total d [] i h = (no_value, refl, inl refl)
cat_loop_total d (s ∷ ss) i h =
    let e = pool_str-in d s (h 0 s refl) in
    let (c, r, l) = cat_loop_total d ss (suc i) (λ j x g. h (suc j) x g) in
    let l' : (c ≡ no_value) ⊎ (c < i + length (s ∷ ss)) = elim l [
      | inl x ↦ inl x
      | inr x ↦ inr (omega arith)
    ] in
    elim (Bool-cases (s.len == 14)) [
      | inl t ↦ elim (Bool-cases (eq_from true (text_of d s) catf)) [
        | inl u ↦ (i, rw (t, e, u) refl, inr (omega arith))
        | inr u ↦ (c, rw (t, e, u) r, l')
      ]
      | inr t ↦ (c, rw t r, l')
    ]

cat_field_total :
    (d : Db)
    → Each (InPool d) d.fields
    → (c : ℕ) × (cat_field d ≡ some c) × ((c ≡ no_value) ⊎ (c < length d.fields))
unfolding cat_field
cat_field_total d h = elim (Bool-cases (length d.bucket_keys == 0)) [
  | inl t ↦ (no_value, rw t refl, inl refl)
  | inr t ↦
      let (c, e, l) = cat_loop_total d d.fields 0 h in
      (c, rw t e, elim l [ inl x ↦ inl x | inr x ↦ inr (omega arith) ])
]

-- A table of patterns has an entry for each predicate.
abbrev Sized : ℕ → Option (List (Option Regex)) → Type 0
Sized n none = Unit
Sized n (some es) = length es ≡ n

add_entry-Sized :
    (n : ℕ) (e : Entry) (o : Option (List (Option Regex)))
    → Sized n o
    → Sized (suc n) (add_entry e o)
unfolding add_entry
add_entry-Sized n bad_value o h = tt
add_entry-Sized n (entry e) none h = tt
add_entry-Sized n (entry e) (some es) h = ap suc h

module _ (compiles : Regex → Bool) (d : Db) (values_in : Each (InPool d) d.values) where
  compile_pred_total : (p : Pred) → (e : Entry) × (compile_pred compiles d p ≡ some e)
  unfolding compile_pred compile_operand
  compile_pred_total p = elim (Bool-cases (p.op == Op.re)) [
    | inl t ↦ elim (Option-cases (get_elem? d.values p.value_id)) [
      | inl e ↦ (bad_value, rw (t, e) refl)
      | inr (s, e) ↦ (
        entry (compile compiles (record { caseless = not (pf_case p); pattern = text_of d s })),
        rw (t, e, pool_str-in d s (values_in p.value_id s e)) refl,
      )
    ]
    | inr t ↦ (entry none, rw t refl)
  ]

  compile_loop-Sized :
      (ps : List Pred)
      → (o : Option (List (Option Regex))) × (compile_loop compiles d ps ≡ some o)
        × Sized (length ps) o
  unfolding compile_loop
  compile_loop-Sized [] = (some [], refl, refl)
  compile_loop-Sized (p ∷ ps) =
      let (e, q) = compile_pred_total p in
      let (o, r, n) = compile_loop-Sized ps in
      (add_entry e o, rw (q, r) refl, add_entry-Sized (length ps) e o n)

-- What the first group of checks establishes.
abbrev Tables : Db → Type 0
Tables d =
    Each (FieldIn d) d.fields
    × (Each (InPool d) d.values
        × (Each (PredIn d) d.preds
            × (Each (λ s. s.pred_start + s.pred_count ≤ length d.preds) d.sels
                × (Each (RuleRefs d) d.rules × Each (λ t. t.kind ≤ 3) d.cond))))

-- What the bucket loop and the checks of the index establish, with the two cached numbers.
pub record IsLinked (d : Db) : Type 0 where
  pub keys_in : Each (InPool d) d.bucket_keys
  pub buckets_in : Each (λ b. b.idx_start + b.idx_count ≤ length d.bucket_idx) d.buckets
  pub av_bucket_in : (d.av_bucket ≡ no_value) ⊎ (d.av_bucket < length d.buckets)
  pub cat_field_in : (d.cat_field_id ≡ no_value) ⊎ (d.cat_field_id < length d.fields)
  pub indexed : IsIndexed d

-- Neither the patterns nor the two cached numbers are looked at.
IsIndexed-with :
    (d : Db) (av cat : ℕ) (re : Option (List (Option Regex)))
    → IsIndexed d
    → IsIndexed (record d { av_bucket = av; cat_field_id = cat; re = re })
IsIndexed-with d av cat re x = record {
  bucket_idx_in = x.bucket_idx_in;
  litndl_in = x.litndl_in;
  litpost_in = x.litpost_in;
  litref_in = x.litref_in;
  litav_in = x.litav_in;
  clauses_in = x.clauses_in;
  fwit_in = x.fwit_in;
}

IsLinked-with :
    (d : Db) (av cat : ℕ)
    → IsParsed d
    → KeysIn d d.bucket_keys 0 (some av)
    → (cat ≡ no_value) ⊎ (cat < length d.fields)
    → IsIndexed d
    → IsLinked (record d { av_bucket = av; cat_field_id = cat })
IsLinked-with d av cat parsed (k, (b, a)) c x = record {
  keys_in = k;
  buckets_in = λ i p e.
      let z : 0 + i ≡ i = omega arith in
      b i p (omega (arith, parsed.buckets_size, lt_of_get_elem? d.buckets i e))
        (ap (get_elem? d.buckets) z ∙ e);
  av_bucket_in = elim a [ inl y ↦ inl y | inr y ↦ inr (omega (arith, parsed.buckets_size)) ];
  cat_field_in = c;
  indexed = IsIndexed-with d av cat d.re x;
}

IsSound-with :
    (d : Db) (re : Option (List (Option Regex)))
    → Tables d
    → IsLinked d
    → ((es : List (Option Regex)) → re ≡ some es → length es ≡ length d.preds)
    → IsSound (record d { re = re })
IsSound-with d re (f, (v, (p, (s, (r, c))))) x sized = record {
  valid = record {
    fields_in = λ i y e. (f i y e).0;
    values_in = v;
    sels_in = s;
    rules_in = λ i y e. (r i y e).0;
    re_in = sized;
  };
  names_in = f;
  preds_in = p;
  rule_refs_in = r;
  cond_in = c;
  keys_in = x.keys_in;
  buckets_in = x.buckets_in;
  av_bucket_in = x.av_bucket_in;
  cat_field_in = x.cat_field_in;
  indexed = IsIndexed-with d d.av_bucket d.cat_field_id re x.indexed;
}

with_patterns-Sound :
    (d : Db) (o : Option (List (Option Regex)))
    → Tables d
    → IsLinked d
    → Sized (length d.preds) o
    → Sound d (with_patterns d o)
unfolding with_patterns
with_patterns-Sound d none t x n = tt
with_patterns-Sound d (some es) t x n = (
  IsSound-with d (some es) t x (λ fs e. some_size e n),
  (d.av_bucket, d.cat_field_id, some es, refl),
)
  where
    some_size :
        {fs : List (Option Regex)}
        → some es ≡ some fs
        → length es ≡ length d.preds
        → length fs ≡ length d.preds
    some_size e n =
        subst
          (λ (r : Option (List (Option Regex))). elim r [
            | some gs ↦ length gs ≡ length d.preds
            | none ↦ Unit
          ])
          e n

Sound-with :
    (d : Db) (av cat : ℕ) (o : Outcome)
    → Sound (record d { av_bucket = av; cat_field_id = cat }) o
    → Sound d o
Sound-with d av cat range_error s = tt
Sound-with d av cat regex_error s = tt
Sound-with d av cat (loaded d') s = s

module _ (compiles : Regex → Bool) where
  compile_patterns-Sound :
      (d : Db)
      → Tables d
      → IsLinked d
      → (o : Outcome) × (compile_patterns compiles d ≡ some o) × Sound d o
  unfolding compile_patterns
  compile_patterns-Sound d t x = elim (Bool-cases (any (λ (p : Pred). p.op == Op.re) d.preds)) [
    | inl u ↦
        let (es, e, n) = compile_loop-Sized compiles d t.1.0 d.preds in
        (with_patterns d es, rw (u, e) refl, with_patterns-Sound d es t x n)
    | inr u ↦ (
      loaded (record d { re = none }),
      rw u refl,
      (
        IsSound-with d none t x (λ es e. absurd (ground arith)),
        (d.av_bucket, d.cat_field_id, none, refl),
      ),
    )
  ]

  load_index-Sound :
      (d : Db) (av : Option ℕ)
      → IsParsed d
      → KeysIn d d.bucket_keys 0 av
      → Tables d
      → (o : Outcome) × (load_index compiles d av ≡ some o) × Sound d o
  unfolding load_index
  load_index-Sound d none parsed k t = (range_error, refl, tt)
  load_index-Sound d (some av) parsed k t =
      let (ok, e, f) = index_ok-Checks d parsed in
      let (cat, c, l) = cat_field_total d (λ i y e. (t.0 i y e).0) in
      elim (Bool-cases ok) [
        | inl u ↦
            let d' : Db = record d { av_bucket = av; cat_field_id = cat } in
            let (o, q, s) = compile_patterns-Sound d' t (IsLinked-with d av cat parsed k l (f u)) in
            (o, rw (e, u, c) q, Sound-with d av cat o s)
        | inr u ↦ (range_error, rw (e, u) refl, tt)
      ]

  -- From tables that are parallel as the header says, the checks never read outside a table, and what they
  -- accept keeps the tables and has only references that are there: names and texts in the pool, operands of
  -- predicates in the table of their kind, slices and names of rules, slices of selections and of buckets,
  -- postings, clauses and networks of the prefilter, a pattern for each predicate, and the cached bucket and
  -- field.
  pub load_tables-Sound :
      (d : Db) → IsParsed d → (o : Outcome) × (load_tables compiles d ≡ some o) × Sound d o
  unfolding load_tables
  load_tables-Sound d parsed =
      let (ok, e, f) = tables_ok-Checks d in
      let (av, b, k) =
        bucket_loop-KeysIn d d.bucket_keys 0 no_value (inl refl)
          (omega (arith, parsed.buckets_size)) in
      let tail = load_index-Sound d av parsed k in
      elim (Bool-cases ok) [
        | inl u ↦ let (o, q, s) = tail (f u) in (o, rw (e, u, b) q, s)
        | inr u ↦ (range_error, rw (e, u) refl, tt)
      ]
