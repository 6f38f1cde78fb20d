-- ===== src/Corr/Engine.antt =====
-- The engine of src/classify_corr.c: its correlations with their groups, `corr_engine_new`,
-- `cstate_get_or_create`, `cstate_drop_expired` and `sweep_if_due`. One worker at a time: the locks are
-- not modelled. `none` is an access outside an array.
pub mod Groups
use libsigma.Base.{
  ℕ, zero, suc, ◌+◌, ◌*◌, ◌%◌, ◌^◌, Bool, true, false, not, ◌&&◌, ◌||◌, Option, none, some, ◌>>=◌,
  List, [], ◌∷◌, ◌++◌, length, get_elem?, replicate, ltb, leb, ◌==◌, if◌then◌else◌,
}
use libsigma.Base.Int.{ℤ, pos, ltb_ℤ}
use libsigma.Text.{Bytes, eq_from}
use libsigma.Corr.{CorrRule, CorrCaps, CorrStats, inc, corr_max_seen_rules}
use libsigma.Corr.Float.{Double}
use libsigma.Corr.Index.{rule_valid, next_pow2, RidWatch, index_rules}
use libsigma.Corr.Group.{hash_group_key, group_key_eq, Group, group_new}
use libsigma.Corr.Table.{
  Node, Table, table_init, table_find, table_touch, node_value, drop_stale, table_admit,
}

-- The groups of one correlation, by the values of its group-by fields.
abbrev pub Groups : Type 0 → Type 0
Groups W = Table (List Bytes) (Group W)

-- `corr_state_t`
pub record CorrState (W : Type 0) : Type 0 where
  pub rule : CorrRule
  pub groups : Groups W

-- `struct corr_engine`
pub record CorrEngine (W : Type 0) : Type 0 where
  pub states : List (CorrState W)
  pub caps : CorrCaps W
  pub last_sweep : W
  pub sweep_seen : Bool
  pub rid_buckets : List (List RidWatch)
  pub stats : CorrStats
  pub pct_scratch_cap : ℕ

abbrev pub no_corr_stats : CorrStats
no_corr_stats = record {
  groups_evicted = 0;
  distinct_evicted = 0;
  events_overwritten = 0;
  fires_suppressed = 0;
  fires_truncated = 0;
  rules_rejected = 0;
  event_skipped_missing_field = 0;
  seen_truncated = 0;
  hits_truncated = 0;
  group_evidence_dropped = 0;
  values_nonnumeric = 0;
  cond_over_arity = 0;
  watermark_late = 0;
  hotkey_fallback = 0;
}

abbrev pub or_default : ℕ → ℕ → ℕ
or_default default n = if n == 0 then default else n

-- A condition that could name a base rule outside the 64 bits of the mask.
unfoldable pub is_over_arity : CorrRule → Bool
is_over_arity r = ltb 0 (length r.cond) && ltb corr_max_seen_rules (length r.base_rule_ids)

-- `n` more groups and so on: the count of a correlation is `groups.count`.
unfoldable pub total_groups : {W : Type 0} → List (CorrState W) → ℕ
total_groups [] = 0
total_groups (st ∷ sts) = st.groups.count + total_groups sts

abbrev pub corr_engine_total_groups : {W : Type 0} → CorrEngine W → ℕ
corr_engine_total_groups e = total_groups e.states

-- `id && strcmp(..) == 0`
unfoldable pub has_id : Bytes → CorrRule → Bool
has_id id r = elim r.id [ none ↦ false | some s ↦ eq_from true s id ]

-- The number of the first correlation with the identifier, from `i` on.
unfoldable pub corr_state_by_id : {W : Type 0} → List (CorrState W) → Bytes → ℕ → Option ℕ
corr_state_by_id [] id i = none
corr_state_by_id (st ∷ sts) id i =
    let rest = corr_state_by_id sts id (suc i) in if has_id id st.rule then some i else rest

unfoldable pub groups_for : {W : Type 0} → List (CorrState W) → Bytes → ℕ
groups_for [] id = 0
groups_for (st ∷ sts) id =
    let rest = groups_for sts id in if has_id id st.rule then st.groups.count else rest

unfoldable pub corr_engine_groups_for : {W : Type 0} → CorrEngine W → Option Bytes → ℕ
corr_engine_groups_for e none = 0
corr_engine_groups_for e (some id) = groups_for e.states id

-- The rules that are taken, in their order, and the counters of the others.
unfoldable pub admit_rules :
    {W : Type 0} → List CorrRule → CorrStats → List (CorrState W) × CorrStats
admit_rules [] stats = ([], stats)
admit_rules (r ∷ rs) stats = elim (is_over_arity r) [
  | true ↦ admit_rules rs (record stats {
    cond_over_arity = inc stats.cond_over_arity;
    rules_rejected = inc stats.rules_rejected;
  })
  | false ↦ elim (rule_valid r) [
    | false ↦ admit_rules rs (record stats { rules_rejected = inc stats.rules_rejected })
    | true ↦
        let (sts, stats') = admit_rules rs stats in
        (record { rule = r; groups = table_init } ∷ sts, stats')
  ]
]

unfoldable pub rules_of : {W : Type 0} → List (CorrState W) → List CorrRule
rules_of [] = []
rules_of (st ∷ sts) = st.rule ∷ rules_of sts

abbrev pub group_node : List Bytes → Node (List Bytes)
group_node vals = record { h = hash_group_key vals; key = vals }

module _ {W : Type 0} ⦃d : Double W⦄ where
  unfoldable pub default_caps : CorrCaps W → CorrCaps W
  default_caps caps = record caps {
    max_groups = or_default 50000 caps.max_groups;
    max_distinct = or_default 10000 caps.max_distinct;
    max_events_per_group = or_default 4096 caps.max_events_per_group;
    sweep_interval_s =
        if d.le caps.sweep_interval_s (d.of_int (pos 0))
        then d.of_int (pos 30)
        else caps.sweep_interval_s;
  }

  -- `none` is no NULL of the source: its allocations succeed.
  unfoldable pub corr_engine_new : List CorrRule → CorrCaps W → Option (CorrEngine W)
  corr_engine_new rules caps = do
    let caps' = default_caps caps
    let (sts, stats) = admit_rules rules no_corr_stats
    idx ← index_rules (rules_of sts) 0 (replicate (next_pow2 ((length sts * 4 + 8) % 2 ^ 32)) [])
    some (record {
      states = sts;
      caps = caps';
      last_sweep = d.of_int (pos 0);
      sweep_seen = false;
      rid_buckets = idx;
      stats = stats;
      pct_scratch_cap = caps'.max_events_per_group;
    })

  -- The group of the values `vals`, the most recently used one now, with the node it is in.
  unfoldable pub cstate_get_or_create :
      Groups W
      → CorrCaps W
      → List Bytes
      → CorrStats
      → Option (Groups W × Node (List Bytes) × Group W × CorrStats)
  cstate_get_or_create gs caps vals stats = do
    hit ← table_find group_key_eq gs (hash_group_key vals) vals
    elim hit [
      | some n ↦ do
        g ← node_value group_key_eq n gs.lru
        some (table_touch group_key_eq gs n g, n, g, stats)
      | none ↦ do
        let n = group_node vals
        let g = group_new (d.of_int (pos 0)) caps.max_events_per_group
        (gs', evicted) ← table_admit group_key_eq caps.max_groups gs n g
        some (
          gs',
          n,
          g,
          if evicted then record stats { groups_evicted = inc stats.groups_evicted } else stats,
        )
    ]

  unfoldable pub cstate_drop_expired : Groups W → W → Option (Groups W)
  cstate_drop_expired gs horizon =
      drop_stale group_key_eq (λ g. d.lt g.last_update horizon) gs.lru gs

  unfoldable pub sweep_states : W → List (CorrState W) → Option (List (CorrState W))
  sweep_states now [] = some []
  sweep_states now (st ∷ sts) = elim (ltb_ℤ (pos 0) st.rule.timespan_s) [
    | true ↦ do
      gs ← cstate_drop_expired st.groups (d.sub now (d.of_int st.rule.timespan_s))
      sts' ← sweep_states now sts
      some (record st { groups = gs } ∷ sts')
    | false ↦ do sts' ← sweep_states now sts; some (st ∷ sts')
  ]

  unfoldable pub sweep_if_due : CorrEngine W → W → Option (CorrEngine W)
  sweep_if_due e now =
      if not e.sweep_seen
      then some (record e { last_sweep = now; sweep_seen = true })
      else if d.lt (d.sub now e.last_sweep) e.caps.sweep_interval_s
      then some e
      else (do sts ← sweep_states now e.states; some (record e { last_sweep = now; states = sts }))
