-- ===== src/Match.antt =====
-- The predicates of src/sigma_match.c: `resolve_field` with its memo, and `pred_match`. The outer
-- option is a fault, such as a read outside a table.
pub mod Holds
pub mod Memo
use libsigma.Base.{
  ℕ, ◌+◌, Bool, true, false, not, ◌&&◌, ◌||◌, Option, none, some, ◌>>=◌, List, [], ◌∷◌, length,
  get_elem?, set, ltb, leb, ◌==◌, if◌then◌else◌,
}
use libsigma.Base.Int.{ℤ, ltb_ℤ, leb_ℤ, eqb_ℤ}
use libsigma.Text.{Bytes, sg_eq, sg_contains, sg_starts, sg_ends}
use libsigma.Simd.{sigma_memmem_ci}
use libsigma.Numeric.{sg_to_i64}
use libsigma.Cidr.{Cidr, Inet, ip_in_cidr}
use libsigma.Db.{Str, Pred, pf_case, pf_negate, pf_fieldref, Db, Regex, pool_str}
use libsigma.Db.Op

-- What the matcher calls and this repository does not implement: `inet_pton`, the match of a
-- compiled pattern (`pcre2_match(..) >= 0` under the shared limits), and whether
-- `pcre2_match_data_create` gives a scratch block.
pub record Host : Type 0 where
  pub inet : Inet
  pub match_data : Bool
  pub pcre_match : Regex → Bytes → Bool

-- `sigma_field_fn` at one event: the value of a field, by its name.
abbrev pub FieldFn : Type 0
FieldFn = Bytes → Option Bytes

-- One field's `vstate`, and its `vptr` with `vlen`.
pub record Slot : Type 0 where
  pub vstate : Bool
  pub value : Option Bytes

abbrev pub Memo : Type 0
Memo = List Slot

unfoldable pub numeric_test : ℕ → ℤ → ℤ → Bool
numeric_test op iv ival =
    if op == Op.gt
    then ltb_ℤ ival iv
    else if op == Op.gte
    then leb_ℤ ival iv
    else if op == Op.lt
    then ltb_ℤ iv ival
    else if op == Op.lte
    then leb_ℤ iv ival
    else if op == Op.numeq
    then eqb_ℤ iv ival
    else false

unfoldable pub is_numeric : ℕ → Bool
is_numeric op = op == Op.gt || (op == Op.gte || (op == Op.lt || (op == Op.lte || op == Op.numeq)))

-- The numeric cases: a value with no leading integer does not match.
unfoldable pub numeric_match : ℕ → ℤ → Bytes → Bool
numeric_match op ival val = elim (sg_to_i64 val) [
  | none ↦ false
  | some iv ↦ numeric_test op iv ival
]

-- The inner `switch`, over the string operators.
unfoldable pub string_op : ℕ → Bool → Bytes → Bytes → Bool
string_op op cs val o =
    if op == Op.eq
    then sg_eq val o cs
    else if op == Op.contains
    then (if cs
        then sg_contains val o true
        else elim (sigma_memmem_ci val o) [ none ↦ false | some _ ↦ true ])
    else if op == Op.startswith
    then sg_starts val o cs
    else if op == Op.endswith
    then sg_ends val o cs
    else false

-- `val != NULL && vlen > 0`
abbrev pub present : Option Bytes → Bool
present none = false
present (some v) = ltb 0 (length v)

-- The two results of a test that leaves the memo alone.
abbrev pub keep : Memo → Option Bool → Option (Bool × Memo)
keep m r = do b ← r; some (b, m)

module _ (db : Db) where
  -- An operand of the `values` table; `none` is an index outside it.
  unfoldable pub literal_operand : Pred → Bytes → Option Str → Option Bool
  literal_operand p val none = some false
  literal_operand p val (some s) = do o ← pool_str db s; some (string_op p.op (pf_case p) val o)

  unfoldable pub literal_match : Pred → Bytes → Option Bool
  literal_match p val = literal_operand p val (get_elem? db.values p.value_id)

module _ (db : Db) (fn : FieldFn) where
  -- `fn(ctx, db->strpool + f->off, f->len, &vlen)`
  unfoldable pub call_field : ℕ → Option (Option Bytes)
  call_field f = do s ← get_elem? db.fields f; name ← pool_str db s; some (fn name)

  -- The answer from the memo, or the call that fills it.
  unfoldable pub resolve_slot : ℕ → Memo → Bool → Option Bytes → Option (Option Bytes × Memo)
  resolve_slot f m true value = some (value, m)
  resolve_slot f m false value = do
    v ← call_field f
    some (v, set m f (record { vstate = true; value = v }))

  unfoldable pub resolve_field : ℕ → Memo → Option (Option Bytes × Memo)
  resolve_field f m =
      if ltb f (length db.fields)
      then (do s ← get_elem? m f; resolve_slot f m s.vstate s.value)
      else some (none, m)

  -- The operand is another field's value, which may be absent.
  unfoldable pub field_operand : Pred → Bytes → Option Bytes → Bool
  field_operand p val none = false
  field_operand p val (some o) = string_op p.op (pf_case p) val o

  unfoldable pub fieldref_match : Pred → Bytes → Memo → Option (Bool × Memo)
  fieldref_match p val m =
      if leb (length db.fields) p.value_id || ltb 0xFFFF p.value_id
      then some (false, m)
      else (do (o, m1) ← resolve_field p.value_id m; some (field_operand p val o, m1))

module _ (host : Host) where
  -- An entry of the pattern table; `none` is one that is not valid.
  unfoldable pub re_entry : Bytes → Option Regex → Bool
  re_entry val none = false
  re_entry val (some code) = host.match_data && host.pcre_match code val

  -- The case `SIGMA_OP_RE`: the pattern table, `n_preds` and the predicate's index.
  unfoldable pub re_match : Option (List (Option Regex)) → ℕ → ℕ → Bytes → Option Bool
  re_match none n_preds idx val = some false
  re_match (some arr) n_preds idx val =
      if ltb idx n_preds
      then (do entry ← get_elem? arr idx; some (re_entry val entry))
      else some false

  unfoldable pub cidr_match : List Cidr → ℕ → Bytes → Option Bool
  cidr_match cidrs id val =
      if ltb id (length cidrs)
      then (do c ← get_elem? cidrs id; ip_in_cidr host.inet val c)
      else some false

module _ (host : Host) (db : Db) (fn : FieldFn) where
  -- The `switch`, at a field that is present.
  unfoldable pub value_match : Pred → ℕ → Bytes → Memo → Option (Bool × Memo)
  value_match p idx val m =
      if is_numeric p.op
      then some (numeric_match p.op p.ival val, m)
      else if p.op == Op.cidr
      then keep m (cidr_match host db.cidrs p.value_id val)
      else if p.op == Op.re
      then keep m (re_match host db.re (length db.preds) idx val)
      else if pf_fieldref p
      then fieldref_match db fn p val m
      else keep m (literal_match db p val)

  -- An absent field never matches a value predicate.
  unfoldable pub present_match : Pred → ℕ → Option Bytes → Memo → Option (Bool × Memo)
  present_match p idx none m = some (false, m)
  present_match p idx (some v) m = value_match p idx v m

  -- Up to the label `done`.
  unfoldable pub pred_test : Pred → ℕ → Option Bytes → Memo → Option (Bool × Memo)
  pred_test p idx val m =
      if p.op == Op.exists then some (present val, m) else present_match p idx val m

  unfoldable pub pred_match : Pred → ℕ → Memo → Option (Bool × Memo)
  pred_match p idx m = do
    (val, m1) ← resolve_field db fn p.field_id m
    (res, m2) ← pred_test p idx val m1
    some (if pf_negate p then not res else res, m2)
