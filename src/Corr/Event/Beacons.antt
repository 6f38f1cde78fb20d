-- ===== src/Corr/Event/Beacons.antt =====
-- The beaconing types of src/classify_corr.c on the arrays of a group.
use libsigma.Base.{
  ℕ, zero, suc, ◌+◌, ◌-◌, ◌%◌, ◌≤◌, ◌<◌, ◌≡◌, refl, sym, ◌∙◌, inl, inr, Bool, true, false, not,
  ◌||◌, Option, none, some, List, length, length-set, length-replicate, get_elem?_of_lt, set,
  replicate, ltb, leb, ◌==◌, if◌then◌else◌, Bool-cases, arith,
}
use native.Mathlib.Nat.{mod-lt}
use libsigma.Base.Int.{ℤ, pos, negsuc, ltb_ℤ, pos_part}
use libsigma.Corr.{CorrRule, CorrStats, inc}
use libsigma.Corr.Float.{Double}
use libsigma.Corr.Group.{BeaconBucket, Group}
use libsigma.Corr.Ring.Window.{live_entries-live, live_total}
use libsigma.Corr.Ring.Count.{put-in, put-tail, IsTimes, stamped}
use libsigma.Corr.Beacon.{
  ev_append_raw, eval_beaconing_raw, bump, Pass, is_active, pass_step, pass_1, pass_2_step, pass_2,
  no_pass, is_present, within_tolerance, beacon_decide, buckets_of, eval_beaconing_bucketed,
  eval_beaconing,
}
use libsigma.Corr.Event.Stored.{Stored, KeepsFired, BucketsSized, stamped-Stored, ev_prune-Stored}

pos_part_lt : (n : ℤ) → ltb_ℤ (pos 0) n ≡ true → 0 < pos_part n
pos_part_lt (pos n) h = ground (arith, h)
pos_part_lt (negsuc n) h = ground (arith, h)

length-buckets :
    (o : Option (List BeaconBucket)) (nb : ℕ)
    → BucketsSized nb o
    → length (elim o as (λ _. List BeaconBucket) [
      | none ↦ replicate nb (record { epoch = 0; count = 0 })
      | some bb ↦ bb
    ])
      ≡ nb
length-buckets none nb b = length-replicate nb (record { epoch = 0; count = 0 })
length-buckets (some bb) nb b = b

module _ {W : Type 0} ⦃d : Double W⦄ where
  ev_append_raw-stamped :
      (g : Group W) (now : W) (stats : CorrStats)
      → IsTimes g
      → g.ev_cap ≤ 2147483648
      → (stats' : CorrStats) × (ev_append_raw g now stats ≡ some (stamped g now, stats'))
  unfolding ev_append_raw
  ev_append_raw-stamped g now stats w fits = elim (Bool-cases (g.ev_len == g.ev_cap)) [
    | inl t ↦ (
      record stats { events_overwritten = inc stats.events_overwritten },
      rw (t, put-in g.ev_ts g.ev_head now (omega (arith, w.sized, w.head_in))) refl,
    )
    | inr t ↦ (stats, rw (t, put-tail g now w fits) refl)
  ]

  pub eval_beaconing_raw-Stored :
      (nb : ℕ) (r : CorrRule) (g : Group W) (now window_start : W) (stats : CorrStats)
      → Stored nb g
      → KeepsFired nb (eval_beaconing_raw r g now window_start stats)
  unfolding eval_beaconing_raw
  eval_beaconing_raw-Stored nb r g now window_start stats (w, v, b, s) =
      let (stats1, p) = ev_append_raw-stamped g now stats w s.1.0 in
      let (g2, q, (w2, v2, b2, s2)) =
        ev_prune-Stored nb (stamped g now) window_start (stamped-Stored nb g now (w, v, b, s)).0 in
      elim (Bool-cases (ltb_ℤ (pos g2.ev_len) r.cond_count || ltb g2.ev_len 3)) [
        | inl t ↦ rw (p, q, t) (w2, v2, b2, s2)
        | inr t ↦
            let (first, e) =
              get_elem?_of_lt g2.ev_ts g2.ev_head (omega (arith, w2.sized, w2.head_in)) in
            let (ts, f, l) =
              live_total g2.ev_ts g2.ev_cap g2.ev_head 1 (g2.ev_len - 1) w2.positive
                (sym w2.sized) in
            rw
              (
                p,
                q,
                t,
                e,
                live_entries-live g2.ev_ts g2.ev_cap g2.ev_head 1 (g2.ev_len - 1) w2.head_in
                      (ground (arith, t, w2.len_in)) s2.1.0
                    ∙ f,
              )
              (w2, v2, b2, s2)
      ]

  pass_1_total :
      (bb : List BeaconBucket) (nb e k : ℕ) (p : Pass W)
      → 0 < nb
      → length bb ≡ nb
      → (p' : Pass W) × (pass_1 bb nb e k p ≡ some p')
  unfolding pass_1
  pass_1_total bb nb e zero p a l = (p, refl)
  pass_1_total bb nb e (suc k) p a l =
      let (b, f) = get_elem?_of_lt bb (e % nb) (omega (arith, mod-lt e a)) in
      let (p', g) = pass_1_total bb nb (suc e) k (if is_active e b then pass_step e p else p) a l in
      (p', rw f g)

  pass_2_total :
      (bb : List BeaconBucket) (nb : ℕ) (gap_mean : W) (e k : ℕ) (prev : Option ℕ) (var : W)
      → 0 < nb
      → length bb ≡ nb
      → (v : W) × (pass_2 bb nb gap_mean e k prev var ≡ some v)
  unfolding pass_2
  pass_2_total bb nb gap_mean e zero prev var a l = (var, refl)
  pass_2_total bb nb gap_mean e (suc k) prev var a l =
      let (b, f) = get_elem?_of_lt bb (e % nb) (omega (arith, mod-lt e a)) in
      let (prev', var') = pass_2_step gap_mean e (is_active e b) prev var in
      let (v, g) = pass_2_total bb nb gap_mean (suc e) k prev' var' a l in (v, rw f g)

  beacon_decide_total :
      (r : CorrRule) (bb : List BeaconBucket) (nb win_start k : ℕ) (p : Pass W)
      → 0 < nb
      → length bb ≡ nb
      → (b : Bool) × (beacon_decide r bb nb win_start k p ≡ some b)
  unfolding beacon_decide
  beacon_decide_total r bb nb win_start k p a l =
      elim (Bool-cases (ltb_ℤ (pos p.active) r.cond_count || ltb p.active 3)) [
        | inl t ↦ (false, rw t refl)
        | inr t ↦ elim (Bool-cases (not (is_present p) || p.ngap == 0)) [
          | inl u ↦ (false, rw (t, u) refl)
          | inr u ↦
              elim (Bool-cases
                (d.le (d.div p.gap_sum (d.of_int (pos p.ngap))) (d.of_int (pos 0)))) [
                  | inl v ↦ (false, rw (t, u, v) refl)
                  | inr v ↦
                      let (w, e) =
                        pass_2_total bb nb (d.div p.gap_sum (d.of_int (pos p.ngap))) win_start k
                          none (d.of_int (pos 0)) a l in
                      (
                        within_tolerance r (d.div p.gap_sum (d.of_int (pos p.ngap)))
                            (d.div w (d.of_int (pos p.ngap))),
                        rw (t, u, v, e) refl,
                      )
                ]
        ]
      ]

  length-buckets_of :
      (g : Group W) (nb : ℕ) → BucketsSized nb g.bbuckets → length (buckets_of g nb) ≡ nb
  unfolding buckets_of
  length-buckets_of g nb b = length-buckets g.bbuckets nb b

  pub eval_beaconing_bucketed-Stored :
      (r : CorrRule) (g : Group W) (now : W) (stats : CorrStats)
      → 0 < pos_part r.beacon_n_buckets
      → Stored (pos_part r.beacon_n_buckets) g
      → KeepsFired (pos_part r.beacon_n_buckets) (eval_beaconing_bucketed r g now stats)
  unfolding eval_beaconing_bucketed
  eval_beaconing_bucketed-Stored r g now stats a (w, v, b, s) =
      let nb = pos_part r.beacon_n_buckets in
      let bb = buckets_of g nb in
      let l = length-buckets_of g nb b in
      let secs = d.div (d.of_int r.timespan_s) (d.of_int (pos nb)) in
      elim (Bool-cases (d.le secs (d.of_int (pos 0)) || d.lt now (d.of_int (pos 0)))) [
        | inl t ↦ rw t (w, v, l, s)
        | inr t ↦
            let now_e = d.to_u32 (d.div now secs) in
            let (x, e) = get_elem?_of_lt bb (now_e % nb) (omega (arith, mod-lt now_e a)) in
            let bb1 = set bb (now_e % nb) (bump now_e x) in
            let l1 = length-set bb (now_e % nb) (bump now_e x) ∙ l in
            let win_start = if leb (nb - 1) now_e then now_e - (nb - 1) else 0 in
            let (p, f) = pass_1_total bb1 nb win_start (now_e - win_start + 1) no_pass a l1 in
            let (c, h) = beacon_decide_total r bb1 nb win_start (now_e - win_start + 1) p a l1 in
            rw (t, e, f, h) (w, v, l1, s)
      ]

  pub eval_beaconing-Stored :
      (r : CorrRule) (g : Group W) (now window_start : W) (stats : CorrStats)
      → Stored (pos_part r.beacon_n_buckets) g
      → KeepsFired (pos_part r.beacon_n_buckets) (eval_beaconing r g now window_start stats)
  unfolding eval_beaconing
  eval_beaconing-Stored r g now window_start stats k =
      elim (Bool-cases (ltb_ℤ (pos 0) r.beacon_n_buckets)) [
        | inl t ↦
            rw t (eval_beaconing_bucketed-Stored r g now stats (pos_part_lt r.beacon_n_buckets t) k)
        | inr t ↦
            rw t
              (eval_beaconing_raw-Stored (pos_part r.beacon_n_buckets) r g now window_start stats k)
      ]
