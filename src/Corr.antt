-- ===== src/Corr.antt =====
-- The correlation engine of src/classify_corr.c and src/classify_corr.h: its compiled rules, its bounds
-- and counters, and the functions that need no window.
pub mod Float
pub mod Cond
pub mod Owner
pub mod Table
pub mod Group
pub mod Ring
pub mod Temporal
pub mod Index
pub mod Beacon
pub mod Watermark
pub mod Engine
pub mod Event
pub mod Dispatch
pub mod Contribution
use libsigma.Base.{
  ℕ, zero, suc, ◌+◌, ◌*◌, ◌%◌, ◌^◌, Bool, true, false, not, ◌&&◌, ◌||◌, Option, none, some, List,
  [], ◌∷◌, length, any, ltb, leb, ◌==◌, if◌then◌else◌,
}
use libsigma.Base.Int.{ℤ, pos, negsuc, ltb_ℤ, leb_ℤ, eqb_ℤ}
use libsigma.Text.{Bytes, sg_lower}
use libsigma.Corr.Float.{Double}

-- `corr_type_t`; `no_type` is a number outside the enumeration.
pub data CorrType : Type 0 where
  event_count : CorrType
  value_count : CorrType
  temporal : CorrType
  temporal_ordered : CorrType
  value_sum : CorrType
  value_avg : CorrType
  beaconing : CorrType
  value_percentile : CorrType
  value_median : CorrType
  no_type : CorrType

-- `corr_op_t`
pub data CorrOp : Type 0 where
  op_gte : CorrOp
  op_gt : CorrOp
  op_lte : CorrOp
  op_lt : CorrOp
  op_eq : CorrOp
  no_op : CorrOp

-- `corr_ctok_t`
pub data CorrTok : Type 0 where
  c_sel : ℕ → CorrTok
  c_and : CorrTok
  c_or : CorrTok
  c_not : CorrTok
  c_other : CorrTok

-- `corr_rule_t`. A pointer that may be NULL is an option, an array with its length a list; the names of an
-- alias are as many as those of `group_by`.
pub record CorrRule : Type 0 where
  pub id : Option Bytes
  pub title : Option Bytes
  pub kind : CorrType
  pub base_rule_ids : List ℕ
  pub ordered_rule_ids : List ℕ
  pub group_by : List Bytes
  pub alias_group_by : Option (List (Option (List Bytes)))
  pub n_alias_group_by : ℕ
  pub value_field : Option Bytes
  pub cond_op : CorrOp
  pub cond_count : ℤ
  pub timespan_s : ℤ
  pub level : Option Bytes
  pub mitre : Option Bytes
  pub cond : List CorrTok
  pub beacon_cv_permille : ℤ
  pub beacon_n_buckets : ℤ
  pub value_percentile : ℤ

-- `corr_caps_t`
pub record CorrCaps (W : Type 0) : Type 0 where
  pub max_groups : ℕ
  pub max_distinct : ℕ
  pub max_events_per_group : ℕ
  pub sweep_interval_s : W
  pub event_time_ordering : Bool
  pub watermark_s : W

abbrev pub corr_max_group_fields : ℕ
corr_max_group_fields = 8

abbrev pub corr_max_seen_rules : ℕ
corr_max_seen_rules = 64

abbrev pub corr_beacon_max_buckets : ℕ
corr_beacon_max_buckets = 1024

-- `corr_stats_t`
pub record CorrStats : Type 0 where
  pub groups_evicted : ℕ
  pub distinct_evicted : ℕ
  pub events_overwritten : ℕ
  pub fires_suppressed : ℕ
  pub fires_truncated : ℕ
  pub rules_rejected : ℕ
  pub event_skipped_missing_field : ℕ
  pub seen_truncated : ℕ
  pub hits_truncated : ℕ
  pub group_evidence_dropped : ℕ
  pub values_nonnumeric : ℕ
  pub cond_over_arity : ℕ
  pub watermark_late : ℕ
  pub hotkey_fallback : ℕ

-- `CS_INC` of a counter.
abbrev pub inc : ℕ → ℕ
inc n = (n + 1) % 2 ^ 64

-- `cmp_threshold`
unfoldable pub cmp_threshold : ℤ → CorrOp → ℤ → Bool
cmp_threshold observed op_gte n = leb_ℤ n observed
cmp_threshold observed op_gt n = ltb_ℤ n observed
cmp_threshold observed op_lte n = leb_ℤ observed n
cmp_threshold observed op_lt n = ltb_ℤ observed n
cmp_threshold observed op_eq n = eqb_ℤ observed n
cmp_threshold observed no_op n = leb_ℤ n observed

unfoldable pub cond_satisfied_f : {W : Type 0} ⦃d : Double W⦄ → CorrOp → W → W → Bool
cond_satisfied_f ⦃d⦄ op_gte val thr = d.le thr val
cond_satisfied_f ⦃d⦄ op_gt val thr = d.lt thr val
cond_satisfied_f ⦃d⦄ op_lte val thr = d.le val thr
cond_satisfied_f ⦃d⦄ op_lt val thr = d.lt val thr
cond_satisfied_f ⦃d⦄ op_eq val thr = d.le val thr && d.le thr val
cond_satisfied_f ⦃d⦄ no_op val thr = d.le thr val

-- `str_ieq`; its folding is that of `sg_lower`.
unfoldable pub str_ieq : Bytes → Bytes → Bool
str_ieq [] [] = true
str_ieq [] (b ∷ t) = false
str_ieq (a ∷ s) [] = false
str_ieq (a ∷ s) (b ∷ t) = if sg_lower a == sg_lower b then str_ieq s t else false

pub data CorrTier : Type 0 where
  weak : CorrTier
  strong : CorrTier

abbrev pub high : Bytes
high = b'h' ∷ b'i' ∷ b'g' ∷ b'h' ∷ []

abbrev pub critical : Bytes
critical = b'c' ∷ b'r' ∷ b'i' ∷ b't' ∷ b'i' ∷ b'c' ∷ b'a' ∷ b'l' ∷ []

abbrev pub medium : Bytes
medium = b'm' ∷ b'e' ∷ b'd' ∷ b'i' ∷ b'u' ∷ b'm' ∷ []

-- `(level && *level) ? level : "medium"`
unfoldable pub level_or_medium : Option Bytes → Bytes
level_or_medium none = medium
level_or_medium (some []) = medium
level_or_medium (some (c ∷ s)) = c ∷ s

unfoldable pub level_tier : Bytes → CorrTier
level_tier lvl = if str_ieq lvl high || str_ieq lvl critical then strong else weak

unfoldable pub corr_tier_for : CorrType → Option Bytes → CorrTier
corr_tier_for temporal level = strong
corr_tier_for temporal_ordered level = strong
corr_tier_for beaconing level = strong
corr_tier_for event_count level = level_tier (level_or_medium level)
corr_tier_for value_count level = level_tier (level_or_medium level)
corr_tier_for value_sum level = level_tier (level_or_medium level)
corr_tier_for value_avg level = level_tier (level_or_medium level)
corr_tier_for value_percentile level = level_tier (level_or_medium level)
corr_tier_for value_median level = level_tier (level_or_medium level)
corr_tier_for no_type level = level_tier (level_or_medium level)

-- `rids[k] == want` for some `k`
unfoldable pub mem_rid : ℕ → List ℕ → Bool
mem_rid want [] = false
mem_rid want (r ∷ rs) = if r == want then true else mem_rid want rs

unfoldable pub hits_loop : List ℕ → List ℕ → Bool
hits_loop [] rids = false
hits_loop (b ∷ bs) rids = if mem_rid b rids then true else hits_loop bs rids

unfoldable pub corr_rule_hits : CorrRule → List ℕ → Bool
corr_rule_hits r rids = if length rids == 0 then false else hits_loop r.base_rule_ids rids

-- The names of the group-by fields for an event that matched `rid`.
unfoldable pub alias_loop : ℕ → List ℕ → List (Option (List Bytes)) → Option (List Bytes)
alias_loop rid [] as' = none
alias_loop rid (b ∷ bs) [] = none
alias_loop rid (b ∷ bs) (none ∷ as') = alias_loop rid bs as'
alias_loop rid (b ∷ bs) (some names ∷ as') = if b == rid then some names else alias_loop rid bs as'

abbrev pub names_or : List Bytes → Option (List Bytes) → List Bytes
names_or names none = names
names_or names (some alias) = alias

unfoldable pub corr_group_fields : CorrRule → ℕ → List Bytes
corr_group_fields r rid = elim r.alias_group_by [
  | none ↦ r.group_by
  | some as' ↦
      if r.n_alias_group_by == length r.base_rule_ids
      then names_or r.group_by (alias_loop rid r.base_rule_ids as')
      else r.group_by
]
