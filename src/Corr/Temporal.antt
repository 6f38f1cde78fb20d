-- ===== src/Corr/Temporal.antt =====
-- The temporal correlations of src/classify_corr.c: the table of the base rules seen, the ordered
-- sequence and its watermark buffer.
pub mod Seen
use libsigma.Base.{
  ℕ, zero, suc, ◌+◌, ◌-◌, ◌%◌, ◌^◌, Bool, true, false, not, ◌&&◌, ◌||◌, Option, none, some, ◌>>=◌,
  List, [], ◌∷◌, ◌++◌, length, get_elem?, take, any, ltb, leb, ◌==◌, if◌then◌else◌,
}
use libsigma.Base.Int.{ℤ, pos}
use libsigma.Corr.{CorrRule, CorrStats, inc, corr_max_seen_rules, mem_rid}
use libsigma.Corr.Float.{Double}
use libsigma.Corr.Cond.{Mask, corr_cond_eval}
use libsigma.Corr.Group.{Group}
use libsigma.Corr.Ring.{Fired, put_next}

-- Every bit from `i` on, for `n` of them.
unfoldable pub all_bits : Mask → ℕ → ℕ → Bool
all_bits mask i zero = true
all_bits mask i (suc n) = let rest = all_bits mask (suc i) n in if mask i then rest else false

-- The required order, and how a group stands at its start.
unfoldable pub order_of : CorrRule → List ℕ
order_of r = if length r.ordered_rule_ids == 0 then r.base_rule_ids else r.ordered_rule_ids

-- The steps after the first `n`.
unfoldable pub steps_from : ℕ → List ℕ → List ℕ
steps_from zero order = order
steps_from (suc n) [] = []
steps_from (suc n) (s ∷ order) = steps_from n order

module _ {W : Type 0} ⦃d : Double W⦄ where
  -- The search for `rid`: its time is renewed where it is there.
  unfoldable pub renew : ℕ → W → List (ℕ × W) → Option (List (ℕ × W))
  renew rid now [] = none
  renew rid now ((r, t) ∷ seen) =
      let rest = renew rid now seen in
      if r == rid then some ((r, now) ∷ seen) else (do seen' ← rest; some ((r, t) ∷ seen'))

  -- A rule that is new takes the next place, up to 64 of them; `none` is a write past the array.
  unfoldable pub place_seen :
      ℕ → W → List (ℕ × W) → CorrStats → Option (List (ℕ × W)) → Option (List (ℕ × W) × CorrStats)
  place_seen rid now seen stats (some seen') = some (seen', stats)
  place_seen rid now seen stats none =
      if ltb (length seen) corr_max_seen_rules
      then (do seen' ← put_next corr_max_seen_rules seen (rid, now); some (seen', stats))
      else some (seen, record stats { seen_truncated = inc stats.seen_truncated })

  unfoldable pub record_one : ℕ → W → List (ℕ × W) → CorrStats → Option (List (ℕ × W) × CorrStats)
  record_one rid now seen stats = place_seen rid now seen stats (renew rid now seen)

  unfoldable pub record_all :
      List ℕ → W → List (ℕ × W) → CorrStats → Option (List (ℕ × W) × CorrStats)
  record_all [] now seen stats = some (seen, stats)
  record_all (rid ∷ rids) now seen stats = do
    (seen', stats') ← record_one rid now seen stats
    record_all rids now seen' stats'

  -- The compaction: what is in the window stays, in its order.
  unfoldable pub expire_seen : W → List (ℕ × W) → List (ℕ × W)
  expire_seen window_start [] = []
  expire_seen window_start ((r, t) ∷ seen) =
      if d.le window_start t
      then (r, t) ∷ expire_seen window_start seen
      else expire_seen window_start seen

  unfoldable pub temporal_record_seen :
      Group W → List ℕ → W → W → CorrStats → Option (Group W × CorrStats)
  temporal_record_seen g hit_rids now window_start stats = do
    (seen, stats') ← record_all hit_rids now g.seen stats
    some (record g { seen = expire_seen window_start seen }, stats')

  unfoldable pub in_seen : ℕ → List (ℕ × W) → Bool
  in_seen want [] = false
  in_seen want ((r, t) ∷ seen) = if r == want then true else in_seen want seen

  -- The bits of the base rules from number `i` on.
  unfoldable pub mask_loop : ℕ → List ℕ → List (ℕ × W) → Mask → Mask
  mask_loop i [] seen mask = mask
  mask_loop i (want ∷ base) seen mask =
      mask_loop (suc i) base seen (λ j. mask j || (j == i && in_seen want seen))

  unfoldable pub corr_seen_mask : CorrRule → Group W → Mask
  corr_seen_mask r g = mask_loop 0 (take 64 r.base_rule_ids) g.seen g.merge_seen

  unfoldable pub eval_temporal : CorrRule → Group W → List ℕ → W → W → CorrStats → Fired W
  eval_temporal r g hit_rids now window_start stats = do
    (g1, stats1) ← temporal_record_seen g hit_rids now window_start stats
    some (
      g1,
      stats1,
      if ltb 0 (length r.cond)
          then corr_cond_eval (corr_seen_mask r g1) r.cond
          else all_bits (corr_seen_mask r g1) 0 (length (take 64 r.base_rule_ids)),
    )

  unfoldable pub reset_order : Group W → Group W
  reset_order g = record g {
    ordered_progress = 0;
    ordered_anchor_ts = d.of_int (pos 0);
    ordered_last_ts = d.of_int (pos 0);
  }

  -- One round of the loop; `none` is a step that is not taken.
  unfoldable pub advance_one : ℕ → List ℕ → W → Bool → Group W → Option (Group W)
  advance_one expected hit_rids now event_time g =
      if mem_rid expected hit_rids
      then (if g.ordered_progress == 0
          then some
              (record g { ordered_anchor_ts = now; ordered_last_ts = now; ordered_progress = 1 })
          else if not event_time || d.le g.ordered_last_ts now
          then some (record g { ordered_last_ts = now; ordered_progress = g.ordered_progress + 1 })
          else none)
      else none

  -- The `while`, over the steps of the order that are left.
  unfoldable pub advance : List ℕ → List ℕ → W → Bool → Group W → Group W
  advance [] hit_rids now event_time g = g
  advance (expected ∷ steps) hit_rids now event_time g =
      elim (advance_one expected hit_rids now event_time g) [
        | none ↦ g
        | some g' ↦ advance steps hit_rids now event_time g'
      ]

  -- A sequence whose first step has left the window starts anew.
  unfoldable pub age_order : W → Group W → Group W
  age_order window_start g =
      if ltb 0 g.ordered_progress && d.lt g.ordered_anchor_ts window_start then reset_order g else g

  unfoldable pub finish_order : ℕ → Group W → Group W × Bool
  finish_order n g = if leb n g.ordered_progress then (reset_order g, true) else (g, false)

  unfoldable pub eval_temporal_ordered : CorrRule → Group W → List ℕ → W → W → Bool → Group W × Bool
  eval_temporal_ordered r g hit_rids now window_start event_time =
      if length (order_of r) == 0
      then (g, false)
      else (let g1 = age_order window_start g in
          finish_order (length (order_of r))
            (advance (steps_from g1.ordered_progress (order_of r)) hit_rids now event_time g1))
