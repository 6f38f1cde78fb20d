-- ===== src/Corr/Contribution.antt =====
-- `corr_on_contribution` of src/classify_corr.c: what another peer has counted for a group is merged into
-- it. `none` is an access outside an array.
use libsigma.Base.{
  ℕ, ◌+◌, ◌%◌, ◌^◌, Bool, true, false, not, ◌&&◌, ◌||◌, Option, none, some, ◌>>=◌, List, [], ◌∷◌,
  length, get_elem?, set, ◌==◌, if◌then◌else◌,
}
use libsigma.Base.Int.{pos}
use libsigma.Text.{Bytes}
use libsigma.Corr.{
  CorrType, event_count, value_count, temporal, value_sum, value_avg, CorrRule, CorrCaps, CorrStats,
  inc, cmp_threshold,
}
use libsigma.Corr.Float.{Double}
use libsigma.Corr.Cond.{Mask}
use libsigma.Corr.Group.{Group}
use libsigma.Corr.Index.{is_given}
use libsigma.Corr.Ring.{ev_prune, eval_value_count, live_vals, add_all, aggregate}
use libsigma.Corr.Temporal.{eval_temporal}
use libsigma.Corr.Engine.{
  Groups, CorrState, CorrEngine, corr_state_by_id, cstate_get_or_create, sweep_if_due,
}
use libsigma.Corr.Event.{GroupEval, no_aggregate, observed_of, refire, write_value}
use libsigma.Corr.Dispatch.{Fires, no_fires, Room, Event, hand_out, corr_on_event}

-- `corr_contrib_kind_t`; `contrib_other` is a number outside the enumeration.
pub data ContribKind : Type 0 where
  contrib_event : ContribKind
  contrib_count : ContribKind
  contrib_sum : ContribKind
  contrib_distinct : ContribKind
  contrib_seen : ContribKind
  contrib_other : ContribKind

-- `corr_contrib_t`. A `group_vals` that is NULL is one of NULLs.
pub record Contrib (W : Type 0) : Type 0 where
  pub kind : ContribKind
  pub corr_id : Option Bytes
  pub rids : List ℕ
  pub group_vals : List (Option Bytes)
  pub ts : W
  pub value : Option Bytes
  pub numeric : W
  pub count : ℕ
  pub seen_mask : Mask

-- `none` is the result -1.
unfoldable pub corr_contrib_kind_for : CorrType → Option ContribKind
corr_contrib_kind_for t = elim t [
  | event_count ↦ some contrib_count
  | value_sum ↦ some contrib_sum
  | value_avg ↦ some contrib_sum
  | value_count ↦ some contrib_distinct
  | temporal ↦ some contrib_seen
  | _ ↦ none
]

unfoldable pub all_given : List (Option Bytes) → Option (List Bytes)
all_given [] = some []
all_given (v ∷ vs) = do s ← v; rest ← all_given vs; some (s ∷ rest)

-- `count ? count : 1`
abbrev pub count_or_one : ℕ → ℕ
count_or_one n = if n == 0 then 1 else n

-- The counts are in 32 bits.
abbrev pub merge_count : ℕ → ℕ → ℕ
merge_count n count = (n + count_or_one count) % 2 ^ 32

abbrev pub is_event_count : CorrType → Bool
is_event_count event_count = true
is_event_count _ = false

abbrev pub is_temporal : CorrType → Bool
is_temporal temporal = true
is_temporal _ = false

-- `return 0` with the counter of events that lack a field.
abbrev pub skipped : {W : Type 0} → CorrEngine W → CorrEngine W × Fires
skipped e = (
  record e {
    stats = record e.stats {
      event_skipped_missing_field = inc e.stats.event_skipped_missing_field;
    };
  },
  no_fires,
)

module _ {W : Type 0} ⦃d : Double W⦄ where
  -- Sums and averages are decided anew on the merged sum.
  unfoldable pub decide_as : CorrRule → Group W → Bool → CorrStats → GroupEval W
  decide_as r g is_avg stats = do
    vs ← live_vals g g.ev_val
    let (fired, vagg) =
        aggregate r is_avg (add_all g.merge_sum vs) ((g.ev_len + g.merge_n) % 2 ^ 32)
    some (g, stats, fired, vagg)

  unfoldable pub decide_sum : CorrRule → Group W → CorrStats → GroupEval W
  decide_sum r g stats = elim r.kind [
    | value_sum ↦ decide_as r g false stats
    | value_avg ↦ decide_as r g true stats
    | _ ↦ some (g, stats, false, d.of_int (pos 0))
  ]

  unfoldable pub merge_kind :
      CorrCaps W → Contrib W → CorrRule → Group W → W → CorrStats → ContribKind → GroupEval W
  merge_kind caps c r g window_start stats contrib_count = do
    g1 ← ev_prune (record g { merge_n = merge_count g.merge_n c.count }) window_start
    some (
      g1,
      stats,
      is_event_count r.kind && cmp_threshold (pos (g1.ev_len + g1.merge_n)) r.cond_op r.cond_count,
      d.of_int (pos 0),
    )
  merge_kind caps c r g window_start stats contrib_sum = do
    g1 ←
        ev_prune
          (record g {
            merge_sum = d.add g.merge_sum c.numeric;
            merge_n = merge_count g.merge_n c.count;
          })
          window_start
    decide_sum r g1 stats
  merge_kind caps c r g window_start stats contrib_distinct = elim r.kind [
    | value_count ↦
        no_aggregate (eval_value_count r g c.value caps.max_distinct c.ts window_start stats)
    | _ ↦ some (g, stats, false, d.of_int (pos 0))
  ]
  merge_kind caps c r g window_start stats contrib_seen =
      let g1 = record g { merge_seen = λ i. g.merge_seen i || c.seen_mask i } in
      if is_temporal r.kind
      then no_aggregate (eval_temporal r g1 [] c.ts window_start stats)
      else some (g1, stats, false, d.of_int (pos 0))
  merge_kind caps c r g window_start stats contrib_event = some (g, stats, false, d.of_int (pos 0))
  merge_kind caps c r g window_start stats contrib_other = some (g, stats, false, d.of_int (pos 0))

  -- The types that no contribution fires have the observed value of the events.
  unfoldable pub merge_group :
      CorrCaps W
      → Contrib W
      → CorrRule
      → Groups W
      → List Bytes
      → CorrStats
      → Option (Groups W × Group W × CorrStats × Bool × W)
  merge_group caps c r gs gvals stats = do
    (gs1, n, g, stats1) ← cstate_get_or_create gs caps gvals stats
    let timespan = d.of_int r.timespan_s
    (g1, stats2, fired, vagg) ←
        merge_kind caps c r (record g { last_update = c.ts; merge_remote = true })
          (d.sub c.ts timespan) stats1 c.kind
    let (g2, stats3, lit) = refire c.ts timespan g1 fired stats2
    some (record gs1 { lru = write_value n g2 gs1.lru }, g2, stats3, lit, vagg)

  unfoldable pub merge_into :
      CorrEngine W → Contrib W → Room → ℕ → CorrState W → List Bytes → Option (CorrEngine W × Fires)
  merge_into e c room ci st gvals = do
    (gs, g, stats1, lit, vagg) ← merge_group e.caps c st.rule st.groups gvals e.stats
    let (fs, stats2) =
        if lit
        then hand_out room st.rule gvals (observed_of st.rule g vagg) true no_fires stats1
        else (no_fires, stats1)
    some (record e { states = set e.states ci (record st { groups = gs }); stats = stats2 }, fs)

  -- The contribution to correlation number `ci`.
  unfoldable pub contribute : CorrEngine W → Contrib W → Room → ℕ → Option (CorrEngine W × Fires)
  contribute e c room ci = do
    st ← get_elem? e.states ci
    (if not (length c.group_vals == length st.rule.group_by)
        then some (skipped e)
        else elim (all_given c.group_vals) [
          | none ↦ some (skipped e)
          | some gvals ↦ merge_into e c room ci st gvals
        ])

  unfoldable pub merge_contribution :
      CorrEngine W → Contrib W → Room → Bytes → Option (CorrEngine W × Fires)
  merge_contribution e c room id = do
    e1 ← sweep_if_due e c.ts
    elim (corr_state_by_id e1.states id 0) [
      | none ↦ some (e1, no_fires)
      | some ci ↦ contribute e1 c room ci
    ]

  -- `field_fn` and `to_f64` are those of `ev`.
  unfoldable pub corr_on_contribution :
      CorrEngine W → Contrib W → Event W → Room → Option (CorrEngine W × Fires)
  corr_on_contribution e c ev room = elim c.kind [
    | contrib_event ↦ corr_on_event e (record ev { matched_rids = c.rids; ts = c.ts }) room
    | _ ↦
        if is_given c.corr_id
        then elim c.corr_id [ none ↦ some (e, no_fires) | some id ↦ merge_contribution e c room id ]
        else some (e, no_fires)
  ]
