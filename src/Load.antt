-- ===== src/Load.antt =====
-- The checks of `sigma_db_load_buffer` (src/sigma_format.c) on the references inside an artifact, from
-- the tables that its header points to, and the patterns that `sigma_db_finalize`
-- (src/sigma_match.c) compiles. `none` is a read outside a table.
pub mod Checks
mod Refs
mod Index
mod Buckets
pub mod Valid
use libsigma.Base.{
  ℕ, zero, suc, ◌+◌, ◌-◌, ◌%◌, ◌^◌, Bool, true, false, not, ◌&&◌, ◌||◌, Option, none, some, ◌>>=◌,
  List, [], ◌∷◌, length, get_elem?, any, ltb, leb, ◌==◌, if◌then◌else◌,
}
use libsigma.Base.Int.{ℤ, pos, negsuc}
use libsigma.Text.{Bytes, eq_from}
use libsigma.Db.{
  no_value, any_field, max_clauses, Str, Pred, pf_case, pf_fieldref, Sel, Ctok, Rule, Litref, Fwit,
  Regex, Db, pool_str,
}
use libsigma.Db.Op
use libsigma.Db.Tok

-- `return SIGMA_ERR_RANGE`, `return SIGMA_ERR_REGEX`, or the database.
pub data Outcome : Type 0 where
  range_error : Outcome
  regex_error : Outcome
  loaded : Db → Outcome

-- The second test runs where the first is passed.
unfoldable pub and_also : Option Bool → Option Bool → Option Bool
and_also none y = none
and_also (some false) y = some false
and_also (some true) y = y

-- A `for` that returns the error at the first entry that fails its test, which may read the index.
unfoldable pub every {ℓ} : {A : Type ℓ} → (ℕ → A → Option Bool) → ℕ → List A → Option Bool
every check i [] = some true
every check i (x ∷ xs) = and_also (check i x) (every check (suc i) xs)

-- `(uint64_t)ival`
unfoldable pub as_uint64 : ℤ → ℕ
as_uint64 (pos n) = n % 2 ^ 64
as_uint64 (negsuc n) = (2 ^ 64 - 1 - n) % 2 ^ 64

module _ (d : Db) where
  -- A field's name and the NUL after it lie in the pool.
  unfoldable pub field_ok : ℕ → Str → Option Bool
  field_ok i s =
      if ltb (length d.strpool) (s.off + s.len + 1)
      then some false
      else (do c ← get_elem? d.strpool (s.off + s.len); some (c == 0))

  unfoldable pub value_ok : ℕ → Str → Option Bool
  value_ok i s = some (leb (s.off + s.len) (length d.strpool))

  unfoldable pub pred_ok : ℕ → Pred → Option Bool
  pred_ok i p = some (
      if leb (length d.fields) p.field_id
      then false
      else if pf_fieldref p
      then ltb p.value_id (length d.fields)
      else if p.op == Op.cidr
      then ltb p.value_id (length d.cidrs)
      else p.value_id == no_value || ltb p.value_id (length d.values))

  unfoldable pub sel_ok : ℕ → Sel → Option Bool
  sel_ok i s = some (leb (s.pred_start + s.pred_count) (length d.preds))

  unfoldable pub rule_ok : ℕ → Rule → Option Bool
  rule_ok i r = some (
      leb (r.sel_start + r.sel_count) (length d.sels)
      && (leb (r.cond_start + r.cond_count) (length d.cond)
          && ((r.name_id == no_value || ltb r.name_id (length d.values))
              && (r.mitre_id == no_value || ltb r.mitre_id (length d.values)))))

  unfoldable pub cond_ok : ℕ → Ctok → Option Bool
  cond_ok i t = some (leb t.kind Tok.not)

  unfoldable pub tables_ok : Option Bool
  tables_ok = and_also (every field_ok 0 d.fields) (
      and_also (every value_ok 0 d.values) (
        and_also (every pred_ok 0 d.preds) (
          and_also (every sel_ok 0 d.sels)
            (and_also (every rule_ok 0 d.rules) (every cond_ok 0 d.cond)))))

  -- The loop over the buckets, with `av_bucket`; the inner `none` is the error.
  unfoldable pub bucket_loop : List Str → ℕ → ℕ → Option (Option ℕ)
  bucket_loop [] i av = some (some av)
  bucket_loop (k ∷ ks) i av =
      let rest = bucket_loop ks (suc i) (if k.len == 0 then i else av) in
      if ltb (length d.strpool) (k.off + k.len) then some none else (do
        b ← get_elem? d.buckets i
        (if ltb (length d.bucket_idx) (b.idx_start + b.idx_count)
            then some none
            else if k.len == 0 && not (av == no_value)
            then some none
            else rest))

  -- An index below the number of rules.
  unfoldable pub rule_idx_ok : ℕ → ℕ → Option Bool
  rule_idx_ok i r = some (ltb r (length d.rules))

  unfoldable pub needle_ok : ℕ → Str → Option Bool
  needle_ok i n = if ltb (length d.strpool) (n.off + n.len) || n.len == 0 then some false else (do
    p ← get_elem? d.litpost i
    some (leb (p.idx_start + p.idx_count) (length d.litpost_ref)))

  -- `rule_clauses && clause_idx < rule_clauses[rule_idx]`
  unfoldable pub clause_ok : Option (List ℕ) → ℕ → ℕ → Option Bool
  clause_ok none r clause = some false
  clause_ok (some counts) r clause = do n ← get_elem? counts r; some (ltb clause n)

  unfoldable pub litref_ok : ℕ → Litref → Option Bool
  litref_ok i r =
      if leb (length d.rules) r.rule_idx
        || ((not (r.field_id == any_field) && leb (length d.fields) r.field_id)
            || leb max_clauses r.clause_idx)
      then some false
      else clause_ok d.rule_clauses r.rule_idx r.clause_idx

  -- `rule_clauses && rule_clauses[r] != 0`, denied.
  unfoldable pub no_clause : Option (List ℕ) → ℕ → Option Bool
  no_clause none r = some true
  no_clause (some counts) r = do n ← get_elem? counts r; some (n == 0)

  unfoldable pub litav_ok : ℕ → ℕ → Option Bool
  litav_ok i r = if leb (length d.rules) r then some false else no_clause d.rule_clauses r

  unfoldable pub clauses_ok : Option (List ℕ) → Option Bool
  clauses_ok none = some true
  clauses_ok (some counts) = every (λ i n. some (leb n max_clauses)) 0 counts

  unfoldable pub fwit_op_ok : Fwit → Bool
  fwit_op_ok w =
      if w.op == Op.cidr
      then ltb (as_uint64 w.ival) (length d.cidrs)
      else w.op == Op.gt
        || (w.op == Op.gte || (w.op == Op.lt || (w.op == Op.lte || w.op == Op.numeq)))

  unfoldable pub fwit_ok : ℕ → Fwit → Option Bool
  fwit_ok i w =
      if leb (length d.rules) w.rule_idx
        || (w.field_id == any_field
            || (leb (length d.fields) w.field_id || leb max_clauses w.clause_idx))
      then some false
      else and_also (clause_ok d.rule_clauses w.rule_idx w.clause_idx) (some (fwit_op_ok w))

  unfoldable pub index_ok : Option Bool
  index_ok = and_also (every rule_idx_ok 0 d.bucket_idx) (
      and_also (every needle_ok 0 d.litndl) (
        and_also (every litref_ok 0 d.litpost_ref) (
          and_also (every litav_ok 0 d.litav)
            (and_also (clauses_ok d.rule_clauses) (every fwit_ok 0 d.fwit)))))

-- The name `event.category`.
abbrev pub catf : Bytes
catf =
    b'e' ∷ b'v' ∷ b'e' ∷ b'n' ∷ b't' ∷ b'.' ∷ b'c' ∷ b'a' ∷ b't' ∷ b'e' ∷ b'g' ∷ b'o' ∷ b'r' ∷ b'y'
    ∷ []

unfoldable pub cat_test : Db → Str → Option Bool
cat_test d s =
    if s.len == 14 then (do name ← pool_str d s; some (eq_from true name catf)) else some false

-- The first field of that name.
unfoldable pub cat_loop : Db → List Str → ℕ → Option ℕ
cat_loop d [] i = some no_value
cat_loop d (s ∷ ss) i = do
  hit ← cat_test d s
  elim hit [ true ↦ some i | false ↦ cat_loop d ss (suc i) ]

unfoldable pub cat_field : Db → Option ℕ
cat_field d = if length d.bucket_keys == 0 then some no_value else cat_loop d d.fields 0

-- One entry of the pattern table; `bad_value` is the `goto fail`.
pub data Entry : Type 0 where
  bad_value : Entry
  entry : Option Regex → Entry

unfoldable pub add_entry : Entry → Option (List (Option Regex)) → Option (List (Option Regex))
add_entry bad_value rest = none
add_entry (entry e) none = none
add_entry (entry e) (some es) = some (e ∷ es)

unfoldable pub with_patterns : Db → Option (List (Option Regex)) → Outcome
with_patterns d none = regex_error
with_patterns d (some es) = loaded (record d { re = some es })

unfoldable pub compile : (Regex → Bool) → Regex → Option Regex
compile compiles r = if compiles r then some r else none

-- `compiles` is whether `pcre2_compile` takes the pattern.
module _ (compiles : Regex → Bool) (d : Db) where
  unfoldable pub compile_operand : Pred → Option Str → Option Entry
  compile_operand p none = some bad_value
  compile_operand p (some s) = do
    text ← pool_str d s
    some (entry (compile compiles (record { caseless = not (pf_case p); pattern = text })))

  unfoldable pub compile_pred : Pred → Option Entry
  compile_pred p =
      if p.op == Op.re then compile_operand p (get_elem? d.values p.value_id) else some (entry none)

  -- The loop over the predicates; the inner `none` is the failure.
  unfoldable pub compile_loop : List Pred → Option (Option (List (Option Regex)))
  compile_loop [] = some (some [])
  compile_loop (p ∷ ps) = do e ← compile_pred p; rest ← compile_loop ps; some (add_entry e rest)

  -- The pattern part of `sigma_db_finalize`: no table where no predicate needs one.
  unfoldable pub compile_patterns : Option Outcome
  compile_patterns =
      if any (λ (p : Pred). p.op == Op.re) d.preds
      then (do es ← compile_loop d.preds; some (with_patterns d es))
      else some (loaded (record d { re = none }))

module _ (compiles : Regex → Bool) where
  unfoldable pub load_index : Db → Option ℕ → Option Outcome
  load_index d none = some range_error
  load_index d (some av) = do
    ok ← index_ok d
    elim ok [
      | false ↦ some range_error
      | true ↦ do
        cat ← cat_field d
        compile_patterns compiles (record d { av_bucket = av; cat_field_id = cat })
    ]

  unfoldable pub load_tables : Db → Option Outcome
  load_tables d = do
    ok ← tables_ok d
    elim ok [
      | false ↦ some range_error
      | true ↦ do av ← bucket_loop d d.bucket_keys 0 no_value; load_index d av
    ]
