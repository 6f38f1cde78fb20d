-- ===== src/Corr/Event.antt =====
-- What `corr_on_event_apply` of src/classify_corr.c does with one group: the values that name it, the
-- evaluation by the type of the correlation, and the suppression of repeated fires. A `field_fn` that
-- is NULL is one that answers `none`; `strtod` behind `sg_to_f64` is the parameter `to_f64`.
pub mod Stored
pub mod Slots
pub mod Beacons
pub mod Ordered
pub mod Total
use libsigma.Base.{
  ℕ, suc, ◌+◌, Bool, true, false, not, ◌&&◌, Option, some, ◌>>=◌, List, [], ◌∷◌, length, ltb,
  if◌then◌else◌,
}
use libsigma.Base.Int.{ℤ, pos}
use libsigma.Text.{Bytes}
use libsigma.Corr.{
  event_count, value_count, temporal, temporal_ordered, value_sum, value_avg, beaconing,
  value_percentile, value_median, no_type, CorrRule, CorrCaps, CorrStats, inc, corr_max_seen_rules,
  mem_rid,
}
use libsigma.Corr.Float.{Double}
use libsigma.Corr.Cond.{corr_cond_eval}
use libsigma.Corr.Group.{Group, group_key_eq}
use libsigma.Corr.Table.{Node, same_node}
use libsigma.Corr.Ring.{
  Fired, put_next, eval_event_count, eval_value_count, eval_value_sum_avg, eval_value_percentile,
}
use libsigma.Corr.Temporal.{
  temporal_record_seen, corr_seen_mask, eval_temporal, eval_temporal_ordered,
}
use libsigma.Corr.Watermark.{eval_temporal_ordered_wm}
use libsigma.Corr.Beacon.{eval_beaconing}

abbrev pub CorrFieldFn : Type 0
CorrFieldFn = Bytes → Option Bytes

-- The values of the fields, where each one has a value.
unfoldable pub group_values : CorrFieldFn → List Bytes → Option (List Bytes)
group_values field_fn [] = some []
group_values field_fn (f ∷ fs) = do v ← field_fn f; vs ← group_values field_fn fs; some (v ∷ vs)

-- A base rule that is among those of the event takes the next of the 64 places of `hit_buf`, where one is
-- left; `none` is a write past the array.
unfoldable pub take_hit : ℕ → List ℕ → List ℕ → CorrStats → Option (List ℕ × CorrStats)
take_hit want rids hits stats =
    if mem_rid want rids
    then (if ltb (length hits) corr_max_seen_rules
        then (do hits' ← put_next corr_max_seen_rules hits want; some (hits', stats))
        else some (hits, record stats { hits_truncated = inc stats.hits_truncated }))
    else some (hits, stats)

-- The base rules that are among those of the event, after `hits`.
unfoldable pub collect_hits : List ℕ → List ℕ → List ℕ → CorrStats → Option (List ℕ × CorrStats)
collect_hits [] rids hits stats = some (hits, stats)
collect_hits (want ∷ base) rids hits stats = do
  (hits', stats') ← take_hit want rids hits stats
  collect_hits base rids hits' stats'

-- A field that may be NULL is not looked up then.
unfoldable pub value_at : CorrFieldFn → Option Bytes → Option Bytes
value_at field_fn f = do name ← f; field_fn name

-- `value_val != NULL && sg_to_f64(..)`
unfoldable pub number_at : {W : Type 0} → (Bytes → Option W) → CorrFieldFn → Option Bytes → Option W
number_at to_f64 field_fn f = do v ← value_at field_fn f; to_f64 v

-- What one event does to one group: `none` where the code reads outside an array.
abbrev pub GroupEval : Type 0 → Type 0
GroupEval W = Option (Group W × CorrStats × Bool × W)

-- The contents of a node are changed in place.
unfoldable pub write_value :
    {W : Type 0}
    → Node (List Bytes)
    → Group W
    → List (Node (List Bytes) × Group W)
    → List (Node (List Bytes) × Group W)
write_value n g [] = []
write_value n g ((m, v) ∷ l) =
    if same_node group_key_eq m n then (m, g) ∷ l else (m, v) ∷ write_value n g l

module _ {W : Type 0} ⦃d : Double W⦄ where
  -- An evaluation without an aggregate.
  unfoldable pub no_aggregate : Option (Group W × CorrStats × Bool) → GroupEval W
  no_aggregate x = do (g, stats, fired) ← x; some (g, stats, fired, d.of_int (pos 0))

  -- The conditioned sequence keeps the table of the rules seen as well.
  unfoldable pub record_for_cond :
      CorrRule → Group W → List ℕ → W → W → CorrStats → Option (Group W × CorrStats)
  record_for_cond r g hits ts window_start stats =
      if ltb 0 (length r.cond)
      then temporal_record_seen g hits ts window_start stats
      else some (g, stats)

  unfoldable pub ordered_step :
      CorrCaps W → CorrRule → Group W → List ℕ → W → W → CorrStats → Fired W
  ordered_step caps r g hits ts window_start stats =
      if d.lt (d.of_int (pos 0)) caps.watermark_s && caps.event_time_ordering
      then eval_temporal_ordered_wm r g hits ts window_start caps.watermark_s stats
      else (let (g1, fired) =
            eval_temporal_ordered r g hits ts window_start caps.event_time_ordering in
          some (g1, stats, fired))

  unfoldable pub eval_ordered :
      CorrCaps W → CorrRule → Group W → List ℕ → W → W → CorrStats → Fired W
  eval_ordered caps r g hits ts window_start stats = do
    (g1, stats1) ← record_for_cond r g hits ts window_start stats
    (g2, stats2, fired) ← ordered_step caps r g1 hits ts window_start stats1
    some (
      g2,
      stats2,
      if fired && ltb 0 (length r.cond) then corr_cond_eval (corr_seen_mask r g2) r.cond else fired,
    )

  -- The `switch` on the type of the correlation.
  unfoldable pub eval_rule :
      (Bytes → Option W)
      → CorrFieldFn
      → CorrCaps W
      → ℕ
      → CorrRule
      → Group W
      → List ℕ
      → W
      → W
      → CorrStats
      → GroupEval W
  eval_rule to_f64 field_fn caps scratch_cap r g hits ts window_start stats = elim r.kind [
    | event_count ↦ no_aggregate (eval_event_count r g ts window_start stats)
    | value_count ↦ no_aggregate (
        eval_value_count r g (value_at field_fn r.value_field) caps.max_distinct ts window_start
          stats)
    | value_sum ↦
        eval_value_sum_avg r g (number_at to_f64 field_fn r.value_field) false ts window_start stats
    | value_avg ↦
        eval_value_sum_avg r g (number_at to_f64 field_fn r.value_field) true ts window_start stats
    | value_percentile ↦
        eval_value_percentile r g (number_at to_f64 field_fn r.value_field) scratch_cap ts
          window_start stats
    | value_median ↦
        eval_value_percentile r g (number_at to_f64 field_fn r.value_field) scratch_cap ts
          window_start stats
    | temporal ↦ no_aggregate (eval_temporal r g hits ts window_start stats)
    | temporal_ordered ↦ no_aggregate (eval_ordered caps r g hits ts window_start stats)
    | beaconing ↦ no_aggregate (eval_beaconing r g ts window_start stats)
    | no_type ↦ some (g, stats, false, d.of_int (pos 0))
  ]

  -- `observed_val`
  unfoldable pub observed_of : CorrRule → Group W → W → ℤ
  observed_of r g vagg = elim r.kind [
    | value_count ↦ pos g.distinct.count
    | value_sum ↦ d.to_int vagg
    | value_avg ↦ d.to_int vagg
    | value_percentile ↦ d.to_int vagg
    | value_median ↦ d.to_int vagg
    | event_count ↦ pos (g.ev_len + g.merge_n)
    | beaconing ↦ pos g.ev_len
    | temporal ↦ pos (length r.base_rule_ids)
    | temporal_ordered ↦ pos (length r.base_rule_ids)
    | no_type ↦ pos (length r.base_rule_ids)
  ]

  -- The group after the evaluation, and whether it fires: a group that has fired stays lit for a window.
  unfoldable pub refire : W → W → Group W → Bool → CorrStats → Group W × CorrStats × Bool
  refire ts timespan g fired stats =
      if not fired
      then (g, stats, false)
      else if d.lt ts g.fired_until
      then (g, record stats { fires_suppressed = inc stats.fires_suppressed }, false)
      else (record g { fired_until = d.add ts (d.mul timespan (d.of_int (pos 1))) }, stats, true)
