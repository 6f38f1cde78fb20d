-- ===== src/Match/Holds.antt =====
-- What a predicate of src/sigma_match.c says of an event, with no memo and no fault.
use libsigma.Base.{
  ℕ, Bool, false, not, Option, none, some, List, get_elem?, slice, ltb, ◌==◌, if◌then◌else◌,
}
use libsigma.Text.{Bytes}
use libsigma.Cidr.{Cidr, ip_in_cidr}
use libsigma.Db.{Str, Pred, pf_case, pf_negate, pf_fieldref, Regex, Db}
use libsigma.Db.Op
use libsigma.Match.{
  Host, FieldFn, is_numeric, numeric_match, string_op, field_operand, re_entry, present,
}

abbrev pub text_of : Db → Str → Bytes
text_of db s = slice s.off s.len db.strpool

module _ (db : Db) (fn : FieldFn) where
  unfoldable pub value_of : Option Str → Option Bytes
  value_of none = none
  value_of (some s) = fn (text_of db s)

  -- The value of a field of the event, absent where the database has no such field.
  unfoldable pub field_value : ℕ → Option Bytes
  unfolding value_of
  field_value f = value_of (get_elem? db.fields f)

  unfoldable pub fieldref_holds : Pred → Bytes → Bool
  fieldref_holds p val =
      if ltb 0xFFFF p.value_id then false else field_operand db fn p val (field_value p.value_id)

module _ (db : Db) where
  unfoldable pub literal_text : Pred → Bytes → Option Str → Bool
  literal_text p val none = false
  literal_text p val (some s) = string_op p.op (pf_case p) val (text_of db s)

  unfoldable pub literal_holds : Pred → Bytes → Bool
  literal_holds p val = literal_text p val (get_elem? db.values p.value_id)

abbrev pub or_false : Option Bool → Bool
or_false none = false
or_false (some b) = b

module _ (host : Host) where
  unfoldable pub entry_holds : Bytes → Option (Option Regex) → Bool
  entry_holds val none = false
  entry_holds val (some entry) = re_entry host val entry

  -- The predicate's compiled pattern matches the value.
  unfoldable pub re_holds : Option (List (Option Regex)) → ℕ → Bytes → Bool
  re_holds none idx val = false
  re_holds (some arr) idx val = entry_holds val (get_elem? arr idx)

  unfoldable pub in_cidr : Bytes → Option Cidr → Bool
  in_cidr val none = false
  in_cidr val (some c) = or_false (ip_in_cidr host.inet val c)

  unfoldable pub cidr_holds : List Cidr → ℕ → Bytes → Bool
  cidr_holds cidrs id val = in_cidr val (get_elem? cidrs id)

module _ (host : Host) (db : Db) (fn : FieldFn) where
  unfoldable pub value_holds : Pred → ℕ → Bytes → Bool
  value_holds p idx val =
      if is_numeric p.op
      then numeric_match p.op p.ival val
      else if p.op == Op.cidr
      then cidr_holds host db.cidrs p.value_id val
      else if p.op == Op.re
      then re_holds host db.re idx val
      else if pf_fieldref p
      then fieldref_holds db fn p val
      else literal_holds db p val

  unfoldable pub present_holds : Pred → ℕ → Option Bytes → Bool
  present_holds p idx none = false
  present_holds p idx (some v) = value_holds p idx v

  unfoldable pub test_holds : Pred → ℕ → Option Bytes → Bool
  test_holds p idx val = if p.op == Op.exists then present val else present_holds p idx val

  -- The predicate at index `idx`, of this event.
  unfoldable pub pred_holds : Pred → ℕ → Bool
  pred_holds p idx =
      let res = test_holds p idx (field_value db fn p.field_id) in
      if pf_negate p then not res else res
