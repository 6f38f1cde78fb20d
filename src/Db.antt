-- ===== src/Db.antt =====
-- The compiled rule database of src/sigma_match.h: its tables as lists, so that `n_fields` is the
-- length of `fields` and so on. A string reference is an offset and a length in the string pool,
-- and a pointer that may be NULL is an option.
pub mod Op
pub mod Tok
pub mod Valid
use libsigma.Base.{
  ℕ, ◌+◌, ◌-◌, ◌/◌, ◌%◌, ◌^◌, Bool, Option, none, some, List, length, slice, leb, ◌==◌,
  if◌then◌else◌,
}
use libsigma.Base.Int.{ℤ}
use libsigma.Text.{Bytes}
use libsigma.Cidr.{Cidr}

-- `SIGMA_NO_VALUE` and `UINT32_MAX`
abbrev pub no_value : ℕ
no_value = 2 ^ 32 - 1

-- `SIGMA_LITREF_ANY_FIELD`
abbrev pub any_field : ℕ
any_field = 2 ^ 16 - 1

-- `SIGMA_MAX_CLAUSES`
abbrev pub max_clauses : ℕ
max_clauses = 32

-- `sigma_str_t`
pub record Str : Type 0 where
  pub off : ℕ
  pub len : ℕ

-- `sigma_pred_t`
pub record Pred : Type 0 where
  pub field_id : ℕ
  pub group_id : ℕ
  pub op : ℕ
  pub flags : ℕ
  pub value_id : ℕ
  pub ival : ℤ

-- `p->flags & SIGMA_PF_CASE`, and so on
abbrev pub pf_case : Pred → Bool
pf_case p = p.flags % 2 == 1

abbrev pub pf_negate : Pred → Bool
pf_negate p = p.flags / 2 % 2 == 1

abbrev pub pf_fieldref : Pred → Bool
pf_fieldref p = p.flags / 4 % 2 == 1

-- `sigma_sel_t`
pub record Sel : Type 0 where
  pub pred_start : ℕ
  pub pred_count : ℕ

-- `sigma_ctok_t`, with `sigma_ctok_kind_t` as numbers
pub record Ctok : Type 0 where
  pub kind : ℕ
  pub sel_idx : ℕ

-- `sigma_rule_t`
pub record Rule : Type 0 where
  pub rule_id : ℕ
  pub sel_start : ℕ
  pub sel_count : ℕ
  pub cond_start : ℕ
  pub cond_count : ℕ
  pub verdict : ℕ
  pub severity : ℕ
  pub score_x100 : ℕ
  pub name_id : ℕ
  pub mitre_id : ℕ

-- `sigma_bucket_t` and `sigma_litpost_t`
pub record Postings : Type 0 where
  pub idx_start : ℕ
  pub idx_count : ℕ

-- `sigma_litref_t`
pub record Litref : Type 0 where
  pub rule_idx : ℕ
  pub field_id : ℕ
  pub clause_idx : ℕ

-- `sigma_fwit_t`
pub record Fwit : Type 0 where
  pub rule_idx : ℕ
  pub field_id : ℕ
  pub clause_idx : ℕ
  pub op : ℕ
  pub ival : ℤ

-- A compiled pattern: the options and the text that `pcre2_compile` was given.
pub record Regex : Type 0 where
  pub caseless : Bool
  pub pattern : Bytes

-- `sigma_db_t`, without what `sigma_db_finalize` derives for the prefilter. An entry `none` of `re`
-- is one that is not valid.
pub record Db : Type 0 where
  pub fields : List Str
  pub values : List Str
  pub preds : List Pred
  pub sels : List Sel
  pub cond : List Ctok
  pub rules : List Rule
  pub cidrs : List Cidr
  pub strpool : Bytes
  pub bucket_keys : List Str
  pub buckets : List Postings
  pub bucket_idx : List ℕ
  pub av_bucket : ℕ
  pub cat_field_id : ℕ
  pub litndl : List Str
  pub litpost : List Postings
  pub litpost_ref : List Litref
  pub litav : List ℕ
  pub rule_clauses : Option (List ℕ)
  pub fwit : List Fwit
  pub re : Option (List (Option Regex))

-- `strpool + s->off` with `s->len`; `none` is a string that does not lie in the pool.
unfoldable pub pool_str : Db → Str → Option Bytes
pool_str db s =
    if leb (s.off + s.len) (length db.strpool) then some (slice s.off s.len db.strpool) else none
