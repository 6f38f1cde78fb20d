-- ===== src/Corr/Event/Ordered.antt =====
-- The temporal types of src/classify_corr.c on the arrays of a group.
use libsigma.Base.{
  ℕ, ◌+◌, ◌≤◌, ◌≡◌, refl, sym, ap, subst, inl, inr, Bool, true, false, not, ◌&&◌, ◌||◌, Option,
  none, some, List, [], ◌∷◌, length, length-append, ltb, leb, ◌==◌, Bool-cases, Option-cases, arith,
}
use mathlib.Core.Option.{some-injective}
use libsigma.Base.Int.{pos}
use libsigma.Corr.{CorrRule, CorrCaps, CorrStats, mem_rid}
use libsigma.Corr.Float.{Double}
use libsigma.Corr.Group.{Group}
use libsigma.Corr.Temporal.{
  temporal_record_seen, eval_temporal, reset_order, advance_one, advance, steps_from, order_of,
  age_order, finish_order, eval_temporal_ordered,
}
use libsigma.Corr.Watermark.{
  raise_max, wm_insert_all, replay_step, wm_replay, is_late, eval_temporal_ordered_wm,
}
use libsigma.Corr.Event.{record_for_cond, ordered_step, eval_ordered}
use libsigma.Corr.Event.Stored.{Stored, Keeps, KeepsFired, kept_parts, fired_parts}
use libsigma.Corr.Event.Slots.{temporal_record_seen-Stored, wm_insert_all-Stored}

module _ {W : Type 0} ⦃d : Double W⦄ (nb : ℕ) where
  reset_order-Stored : (g : Group W) → Stored nb g → Stored nb (reset_order g)
  unfolding reset_order
  reset_order-Stored g k = k

  abbrev first_step : Group W → W → Group W
  first_step g now = record g {
    ordered_anchor_ts = now;
    ordered_last_ts = now;
    ordered_progress = 1;
  }

  abbrev next_step : Group W → W → Group W
  next_step g now = record g { ordered_last_ts = now; ordered_progress = g.ordered_progress + 1 }

  advance_one-Stored :
      (expected : ℕ) (hits : List ℕ) (now : W) (event_time : Bool) (g g' : Group W)
      → advance_one expected hits now event_time g ≡ some g'
      → Stored nb g
      → Stored nb g'
  unfolding advance_one
  advance_one-Stored expected hits now event_time g g' e k =
      elim (Bool-cases (mem_rid expected hits)) [
        | inl t ↦ elim (Bool-cases (g.ordered_progress == 0)) [
          | inl u ↦ subst (Stored nb) (some-injective (first_step g now) g' (rw (t, u) at e)) k
          | inr u ↦ elim (Bool-cases (not event_time || d.le g.ordered_last_ts now)) [
            | inl v ↦ subst (Stored nb) (some-injective (next_step g now) g' (rw (t, u, v) at e)) k
            | inr v ↦ absurd (ground (arith, rw (t, u, v) at e))
          ]
        ]
        | inr t ↦ absurd (ground (arith, rw t at e))
      ]

  advance-nil :
      (hits : List ℕ) (now : W) (event_time : Bool) (g : Group W)
      → advance [] hits now event_time g ≡ g
  unfolding advance
  advance-nil hits now event_time g = refl

  advance-some :
      (expected : ℕ) (steps hits : List ℕ) (now : W) (event_time : Bool) (g : Group W)
      (o : Option (Group W))
      → advance_one expected hits now event_time g ≡ o
      → advance (expected ∷ steps) hits now event_time g
        ≡ (elim o as (λ _. Group W) [ none ↦ g | some g' ↦ advance steps hits now event_time g' ])
  unfolding advance
  advance-some expected steps hits now event_time g o e =
      ap
        (λ (o : Option (Group W)). elim o as (λ _. Group W) [
          | none ↦ g
          | some g' ↦ advance steps hits now event_time g'
        ])
        e

  advance-Stored :
      (steps hits : List ℕ) (now : W) (event_time : Bool) (g : Group W)
      → Stored nb g
      → Stored nb (advance steps hits now event_time g)
  advance-Stored [] hits now event_time g k =
      subst (Stored nb) (sym (advance-nil hits now event_time g)) k
  advance-Stored (expected ∷ steps) hits now event_time g k =
      elim (Option-cases (advance_one expected hits now event_time g)) [
        | inl e ↦
            subst (Stored nb) (sym (advance-some expected steps hits now event_time g none e)) k
        | inr (g', e) ↦
            subst (Stored nb) (sym (advance-some expected steps hits now event_time g (some g') e))
              (advance-Stored steps hits now event_time g'
                (advance_one-Stored expected hits now event_time g g' e k))
      ]

  age_order-Stored :
      (window_start : W) (g : Group W) → Stored nb g → Stored nb (age_order window_start g)
  unfolding age_order
  age_order-Stored window_start g k =
      elim (Bool-cases (ltb 0 g.ordered_progress && d.lt g.ordered_anchor_ts window_start)) [
        | inl t ↦ rw t (reset_order-Stored g k)
        | inr t ↦ rw t k
      ]

  finish_order-Stored : (n : ℕ) (g : Group W) → Stored nb g → Stored nb (finish_order n g).0
  unfolding finish_order
  finish_order-Stored n g k = elim (Bool-cases (leb n g.ordered_progress)) [
    | inl t ↦ rw t (reset_order-Stored g k)
    | inr t ↦ rw t k
  ]

  pub eval_temporal_ordered-Stored :
      (r : CorrRule) (g : Group W) (hits : List ℕ) (now window_start : W) (event_time : Bool)
      → Stored nb g
      → Stored nb (eval_temporal_ordered r g hits now window_start event_time).0
  unfolding eval_temporal_ordered
  eval_temporal_ordered-Stored r g hits now window_start event_time k =
      let g1 = age_order window_start g in
      elim (Bool-cases (length (order_of r) == 0)) [
        | inl t ↦ rw t k
        | inr t ↦ rw t (
            finish_order-Stored (length (order_of r))
              (advance (steps_from g1.ordered_progress (order_of r)) hits now event_time g1)
              (advance-Stored (steps_from g1.ordered_progress (order_of r)) hits now event_time g1
                (age_order-Stored window_start g k)))
      ]

  replay_step-Stored :
      (r : CorrRule) (window_start t : W) (rid : ℕ) (b : Bool) (kept : List (W × ℕ)) (fired : Bool)
      (g : Group W)
      → Stored nb g
      → Stored nb (replay_step r window_start t rid b kept fired g).2
  unfolding replay_step
  replay_step-Stored r window_start t rid true kept fired g k =
      eval_temporal_ordered-Stored r g (rid ∷ []) t window_start true k
  replay_step-Stored r window_start t rid false kept fired g k = k

  replay_step-kept :
      (r : CorrRule) (window_start t : W) (rid : ℕ) (b : Bool) (kept : List (W × ℕ)) (fired : Bool)
      (g : Group W)
      → length (replay_step r window_start t rid b kept fired g).0 ≤ length kept + 1
  unfolding replay_step
  replay_step-kept r window_start t rid true kept fired g = omega arith
  replay_step-kept r window_start t rid false kept fired g =
      omega (arith, length-append kept ((t, rid) ∷ []))

  wm_replay-Stored :
      (r : CorrRule) (cutoff window_start : W) (wm kept : List (W × ℕ)) (fired : Bool) (g : Group W)
      → length kept + length wm ≤ 32
      → Stored nb g
      → Stored nb (wm_replay r cutoff window_start wm kept fired g).0
  unfolding wm_replay
  wm_replay-Stored r cutoff window_start [] kept fired g h (w, v, b, (s, (c, n, m))) =
      (w, v, b, (s, (c, n, omega arith)))
  wm_replay-Stored r cutoff window_start ((t, rid) ∷ wm) kept fired g h k =
      let l = replay_step-kept r window_start t rid (d.le t cutoff) kept fired g in
      let k1 = replay_step-Stored r window_start t rid (d.le t cutoff) kept fired g k in
      let (kept', fired', g') = replay_step r window_start t rid (d.le t cutoff) kept fired g in
      wm_replay-Stored r cutoff window_start wm kept' fired' g' (omega arith) k1

  eval_temporal_ordered_wm-Stored :
      (r : CorrRule) (g : Group W) (hits : List ℕ) (now window_start watermark_s : W)
      (stats : CorrStats)
      → Stored nb g
      → KeepsFired nb (eval_temporal_ordered_wm r g hits now window_start watermark_s stats)
  unfolding eval_temporal_ordered_wm raise_max
  eval_temporal_ordered_wm-Stored r g hits now window_start watermark_s stats k =
      elim (Bool-cases (is_late g now watermark_s)) [
        | inl t ↦ rw t (eval_temporal_ordered-Stored r g hits now window_start true k)
        | inr t ↦
            let (g1, stats1, e, k1) =
              kept_parts nb (wm_insert_all hits now g stats)
                (wm_insert_all-Stored nb hits now g stats k) in
            let g2 = raise_max now g1 in
            rw (t, e)
              (wm_replay-Stored r (d.sub g2.wm_max_ts watermark_s) window_start g2.wm [] false g2
                (omega (arith, k1.3.1.2)) k1)
      ]

  pub eval_temporal-Stored :
      (r : CorrRule) (g : Group W) (hits : List ℕ) (now window_start : W) (stats : CorrStats)
      → Stored nb g
      → KeepsFired nb (eval_temporal r g hits now window_start stats)
  unfolding eval_temporal
  eval_temporal-Stored r g hits now window_start stats k =
      let (g1, stats1, e, k1) =
        kept_parts nb (temporal_record_seen g hits now window_start stats)
          (temporal_record_seen-Stored nb g hits now window_start stats k) in
      rw e k1

  ordered_step-Stored :
      (caps : CorrCaps W) (r : CorrRule) (g : Group W) (hits : List ℕ) (ts window_start : W)
      (stats : CorrStats)
      → Stored nb g
      → KeepsFired nb (ordered_step caps r g hits ts window_start stats)
  unfolding ordered_step
  ordered_step-Stored caps r g hits ts window_start stats k =
      elim (Bool-cases (d.lt (d.of_int (pos 0)) caps.watermark_s && caps.event_time_ordering)) [
        | inl t ↦
            rw t (eval_temporal_ordered_wm-Stored r g hits ts window_start caps.watermark_s stats k)
        | inr t ↦
            rw t (eval_temporal_ordered-Stored r g hits ts window_start caps.event_time_ordering k)
      ]

  record_for_cond-Stored :
      (r : CorrRule) (g : Group W) (hits : List ℕ) (ts window_start : W) (stats : CorrStats)
      → Stored nb g
      → Keeps nb (record_for_cond r g hits ts window_start stats)
  unfolding record_for_cond
  record_for_cond-Stored r g hits ts window_start stats k =
      elim (Bool-cases (ltb 0 (length r.cond))) [
        | inl t ↦ rw t (temporal_record_seen-Stored nb g hits ts window_start stats k)
        | inr t ↦ rw t k
      ]

  pub eval_ordered-Stored :
      (caps : CorrCaps W) (r : CorrRule) (g : Group W) (hits : List ℕ) (ts window_start : W)
      (stats : CorrStats)
      → Stored nb g
      → KeepsFired nb (eval_ordered caps r g hits ts window_start stats)
  unfolding eval_ordered
  eval_ordered-Stored caps r g hits ts window_start stats k =
      let (g1, stats1, e, k1) =
        kept_parts nb (record_for_cond r g hits ts window_start stats)
          (record_for_cond-Stored r g hits ts window_start stats k) in
      let (g2, stats2, fired, f, k2) =
        fired_parts nb (ordered_step caps r g1 hits ts window_start stats1)
          (ordered_step-Stored caps r g1 hits ts window_start stats1 k1) in
      rw (e, f) k2
