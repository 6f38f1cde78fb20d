-- ===== src/Corr/Index.antt =====
-- The rule checks of the correlation engine and its index from base rules to the correlations that watch
-- them (src/classify_corr.c): `rule_valid`, `next_pow2`, `rid_index_add`, `rid_index_find`.
-- `none` of the index functions is a read outside the buckets.
pub mod Chain
pub mod Watch
use libsigma.Base.{
  ℕ, zero, suc, ◌+◌, ◌-◌, ◌*◌, ◌/◌, ◌%◌, ◌^◌, Bool, true, false, not, ◌&&◌, ◌||◌, Option, none,
  some, ◌>>=◌, List, [], ◌∷◌, ◌++◌, length, get_elem?, set, replicate, ltb, leb, ◌==◌,
  if◌then◌else◌,
}
use libsigma.Base.Int.{ℤ, pos, ltb_ℤ, leb_ℤ}
use libsigma.Text.{Bytes}
use Prim.Native.Nat.{bit_or}
use libsigma.Corr.{
  CorrType, event_count, value_count, temporal, temporal_ordered, value_sum, value_avg, beaconing,
  value_percentile, value_median, no_type, CorrRule, corr_max_group_fields, corr_beacon_max_buckets,
  mem_rid,
}

-- A string that is neither NULL nor empty.
unfoldable pub is_given : Option Bytes → Bool
is_given none = false
is_given (some []) = false
is_given (some (c ∷ s)) = true

unfoldable pub is_type : CorrType → Bool
is_type t = elim t [ no_type ↦ false | _ ↦ true ]

-- The types that read `value_field`.
unfoldable pub needs_value : CorrType → Bool
needs_value t = elim t [
  | value_count ↦ true
  | value_sum ↦ true
  | value_avg ↦ true
  | value_percentile ↦ true
  | value_median ↦ true
  | _ ↦ false
]

unfoldable pub percentile_ok : CorrRule → Bool
percentile_ok r = elim r.kind [
  | value_percentile ↦ leb_ℤ (pos 0) r.value_percentile && leb_ℤ r.value_percentile (pos 100)
  | _ ↦ true
]

unfoldable pub buckets_ok : CorrRule → Bool
buckets_ok r =
    if ltb_ℤ (pos 0) r.beacon_n_buckets
    then leb_ℤ (pos 2) r.beacon_n_buckets
      && leb_ℤ r.beacon_n_buckets (pos corr_beacon_max_buckets)
      && leb_ℤ r.beacon_n_buckets r.timespan_s
    else true

unfoldable pub beaconing_ok : CorrRule → Bool
beaconing_ok r = elim r.kind [
  | beaconing ↦
      ltb_ℤ (pos 0) r.beacon_cv_permille
      && leb_ℤ (pos 3) r.cond_count
      && leb_ℤ (pos 0) r.beacon_n_buckets
      && buckets_ok r
  | _ ↦ true
]

unfoldable pub rule_valid : CorrRule → Bool
rule_valid r =
    is_given r.id
    && is_type r.kind
    && ltb 0 (length r.base_rule_ids)
    && ltb_ℤ (pos 0) r.timespan_s
    && leb (length r.group_by) corr_max_group_fields
    && (r.n_alias_group_by == 0 || r.n_alias_group_by == length r.base_rule_ids)
    && (not (needs_value r.kind) || is_given r.value_field)
    && percentile_ok r
    && beaconing_ok r

unfoldable pub or_shifted : ℕ → ℕ → ℕ
or_shifted k v = bit_or v (v / 2 ^ k)

unfoldable pub next_pow2 : ℕ → ℕ
next_pow2 v =
    if ltb v 8
    then 8
    else (or_shifted 16 (or_shifted 8 (or_shifted 4 (or_shifted 2 (or_shifted 1 (v - 1))))) + 1)
      % 2 ^ 32

-- `rid_watch_t`
pub record RidWatch : Type 0 where
  pub rid : ℕ
  pub corr_idx : List ℕ

unfoldable pub watch_find : ℕ → List RidWatch → Option RidWatch
watch_find rid [] = none
watch_find rid (w ∷ c) = if w.rid == rid then some w else watch_find rid c

-- A correlation that lists a rule twice is noted once.
unfoldable pub note_corr : ℕ → RidWatch → RidWatch
note_corr ci w =
    if mem_rid ci w.corr_idx then w else record w { corr_idx = w.corr_idx ++ (ci ∷ []) }

-- The change of the entry of `rid` in its chain.
unfoldable pub chain_note : ℕ → ℕ → List RidWatch → List RidWatch
chain_note rid ci [] = []
chain_note rid ci (w ∷ c) =
    let rest = w ∷ chain_note rid ci c in if w.rid == rid then note_corr ci w ∷ c else rest

unfoldable pub chain_add : ℕ → ℕ → List RidWatch → List RidWatch
chain_add rid ci c = elim (watch_find rid c) [
  | some w ↦ chain_note rid ci c
  | none ↦ note_corr ci (record { rid = rid; corr_idx = [] }) ∷ c
]

-- `rid & (n_rid_buckets - 1)`, for a number of buckets that is a power of two.
unfoldable pub rid_index_add : List (List RidWatch) → ℕ → ℕ → Option (List (List RidWatch))
rid_index_add buckets rid ci = do
  c ← get_elem? buckets (rid % length buckets)
  some (set buckets (rid % length buckets) (chain_add rid ci c))

unfoldable pub rid_index_find : List (List RidWatch) → ℕ → Option (Option RidWatch)
rid_index_find buckets rid = do
  c ← get_elem? buckets (rid % length buckets)
  some (watch_find rid c)

-- The base rules of correlation number `ci`.
unfoldable pub index_rule : List ℕ → ℕ → List (List RidWatch) → Option (List (List RidWatch))
index_rule [] ci buckets = some buckets
index_rule (rid ∷ rids) ci buckets = do
  buckets' ← rid_index_add buckets rid ci
  index_rule rids ci buckets'

-- The correlations from number `i` on.
unfoldable pub index_rules :
    List CorrRule → ℕ → List (List RidWatch) → Option (List (List RidWatch))
index_rules [] i buckets = some buckets
index_rules (r ∷ rs) i buckets = do
  buckets' ← index_rule r.base_rule_ids i buckets
  index_rules rs (suc i) buckets'
