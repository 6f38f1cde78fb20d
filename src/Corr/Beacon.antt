-- ===== src/Corr/Beacon.antt =====
-- The beaconing correlations of src/classify_corr.c: `eval_beaconing_raw`, on the ring of event times,
-- and `eval_beaconing_bucketed`, on a histogram of time buckets. `none` is an access outside an array.
use libsigma.Base.{
  ℕ, zero, suc, ◌+◌, ◌-◌, ◌*◌, ◌%◌, Bool, true, false, not, ◌&&◌, ◌||◌, Option, none, some, ◌>>=◌,
  List, [], ◌∷◌, get_elem?, set, replicate, ltb, leb, ◌==◌, if◌then◌else◌,
}
use libsigma.Base.Int.{pos, ltb_ℤ, pos_part}
use libsigma.Corr.{CorrRule, CorrStats, inc}
use libsigma.Corr.Float.{Double}
use libsigma.Corr.Group.{Group, BeaconBucket}
use libsigma.Corr.Ring.{Fired, put, live_entries, ring_index, ev_prune}

-- `BEACON_PRESENCE_MIN_PERMILLE`
abbrev pub beacon_presence_min_permille : ℕ
beacon_presence_min_permille = 700

-- A bucket that still held an older epoch is taken over.
unfoldable pub bump : ℕ → BeaconBucket → BeaconBucket
bump now_e b =
    let n = if b.epoch == now_e then b.count else 0 in
    record { epoch = now_e; count = if ltb n 4294967295 then n + 1 else n }

unfoldable pub is_active : ℕ → BeaconBucket → Bool
is_active e b = b.epoch == e && ltb 0 b.count

-- The first pass: what is known of the active buckets so far.
pub record Pass (W : Type 0) : Type 0 where
  pub active : ℕ
  pub first_e : ℕ
  pub last_e : ℕ
  pub prev_e : ℕ
  pub ngap : ℕ
  pub have_prev : Bool
  pub gap_sum : W

module _ {W : Type 0} ⦃d : Double W⦄ where
  unfoldable pub ev_append_raw : Group W → W → CorrStats → Option (Group W × CorrStats)
  ev_append_raw g now stats =
      if g.ev_len == g.ev_cap
      then (do
        ts ← put g.ev_ts g.ev_head now
        some (
          record g { ev_ts = ts; ev_head = (g.ev_head + 1) % g.ev_cap },
          record stats { events_overwritten = inc stats.events_overwritten },
        ))
      else (do
        ts ← put g.ev_ts (ring_index g.ev_cap g.ev_head g.ev_len) now
        some (record g { ev_ts = ts; ev_len = g.ev_len + 1 }, stats))

  -- `sum += t - prev`
  unfoldable pub gap_total : W → W → List W → W
  gap_total prev sum [] = sum
  gap_total prev sum (t ∷ ts) = gap_total t (d.add sum (d.sub t prev)) ts

  -- `var += d * d`
  unfoldable pub gap_var : W → W → W → List W → W
  gap_var mean prev var [] = var
  gap_var mean prev var (t ∷ ts) =
      let dev = d.sub (d.sub t prev) mean in gap_var mean t (d.add var (d.mul dev dev)) ts

  -- `var <= (tol * mean)^2`
  unfoldable pub within_tolerance : CorrRule → W → W → Bool
  within_tolerance r mean var =
      let bound = d.mul (d.div (d.of_int r.beacon_cv_permille) (d.of_int (pos 1000))) mean in
      d.le var (d.mul bound bound)

  -- The gaps after `first`, `ng` of them.
  unfoldable pub is_periodic : CorrRule → W → List W → ℕ → Bool
  is_periodic r first ts ng =
      let mean = d.div (gap_total first (d.of_int (pos 0)) ts) (d.of_int (pos ng)) in
      if d.le mean (d.of_int (pos 0))
      then false
      else within_tolerance r mean
          (d.div (gap_var mean first (d.of_int (pos 0)) ts) (d.of_int (pos ng)))

  unfoldable pub eval_beaconing_raw : CorrRule → Group W → W → W → CorrStats → Fired W
  eval_beaconing_raw r g now window_start stats = do
    (g1, stats1) ← ev_append_raw g now stats
    g2 ← ev_prune g1 window_start
    (if ltb_ℤ (pos g2.ev_len) r.cond_count || ltb g2.ev_len 3 then some (g2, stats1, false) else (do
      first ← get_elem? g2.ev_ts g2.ev_head
      ts ← live_entries g2.ev_ts g2.ev_cap g2.ev_head 1 (g2.ev_len - 1)
      some (g2, stats1, is_periodic r first ts (g2.ev_len - 1))))

  unfoldable pub pass_step : ℕ → Pass W → Pass W
  pass_step e p = record {
    active = p.active + 1;
    first_e = if p.active == 0 then e else p.first_e;
    last_e = e;
    prev_e = e;
    ngap = if p.have_prev then p.ngap + 1 else p.ngap;
    have_prev = true;
    gap_sum = if p.have_prev then d.add p.gap_sum (d.of_int (pos (e - p.prev_e))) else p.gap_sum;
  }

  -- The epochs from `e` on, `k` of them.
  unfoldable pub pass_1 : List BeaconBucket → ℕ → ℕ → ℕ → Pass W → Option (Pass W)
  pass_1 bb nb e zero p = some p
  pass_1 bb nb e (suc k) p = do
    b ← get_elem? bb (e % nb)
    pass_1 bb nb (suc e) k (if is_active e b then pass_step e p else p)

  -- An active bucket in the second pass: its epoch, and the variance so far.
  unfoldable pub pass_2_step : W → ℕ → Bool → Option ℕ → W → Option ℕ × W
  pass_2_step gap_mean e false prev var = (prev, var)
  pass_2_step gap_mean e true none var = (some e, var)
  pass_2_step gap_mean e true (some prev_e) var =
      let dev = d.sub (d.of_int (pos (e - prev_e))) gap_mean in (some e, d.add var (d.mul dev dev))

  unfoldable pub pass_2 : List BeaconBucket → ℕ → W → ℕ → ℕ → Option ℕ → W → Option W
  pass_2 bb nb gap_mean e zero prev var = some var
  pass_2 bb nb gap_mean e (suc k) prev var = do
    b ← get_elem? bb (e % nb)
    let (prev', var') = pass_2_step gap_mean e (is_active e b) prev var
    pass_2 bb nb gap_mean (suc e) k prev' var'

  abbrev pub no_pass : Pass W
  no_pass = record {
    active = 0;
    first_e = 0;
    last_e = 0;
    prev_e = 0;
    ngap = 0;
    have_prev = false;
    gap_sum = d.of_int (pos 0);
  }

  unfoldable pub is_present : Pass W → Bool
  is_present p = leb (beacon_presence_min_permille * (p.last_e - p.first_e + 1)) (p.active * 1000)

  -- What follows the first pass over the window from `win_start`, `k` epochs long.
  unfoldable pub beacon_decide : CorrRule → List BeaconBucket → ℕ → ℕ → ℕ → Pass W → Option Bool
  beacon_decide r bb nb win_start k p =
      let gap_mean = d.div p.gap_sum (d.of_int (pos p.ngap)) in
      if ltb_ℤ (pos p.active) r.cond_count || ltb p.active 3
      then some false
      else if not (is_present p) || p.ngap == 0
      then some false
      else if d.le gap_mean (d.of_int (pos 0))
      then some false
      else (do
        var ← pass_2 bb nb gap_mean win_start k none (d.of_int (pos 0))
        some (within_tolerance r gap_mean (d.div var (d.of_int (pos p.ngap)))))

  unfoldable pub buckets_of : Group W → ℕ → List BeaconBucket
  buckets_of g nb = elim g.bbuckets [
    | none ↦ replicate nb (record { epoch = 0; count = 0 })
    | some bb ↦ bb
  ]

  -- `beacon_n_buckets` is positive here, so its conversion keeps it.
  unfoldable pub eval_beaconing_bucketed : CorrRule → Group W → W → CorrStats → Fired W
  eval_beaconing_bucketed r g now stats = do
    let nb = pos_part r.beacon_n_buckets
    let bb = buckets_of g nb
    let bucket_secs = d.div (d.of_int r.timespan_s) (d.of_int (pos nb))
    (if d.le bucket_secs (d.of_int (pos 0)) || d.lt now (d.of_int (pos 0))
        then some (record g { bbuckets = some bb }, stats, false)
        else (do
          let now_e = d.to_u32 (d.div now bucket_secs)
          b ← get_elem? bb (now_e % nb)
          let bb1 = set bb (now_e % nb) (bump now_e b)
          let win_start = if leb (nb - 1) now_e then now_e - (nb - 1) else 0
          p ← pass_1 bb1 nb win_start (now_e - win_start + 1) no_pass
          fired ← beacon_decide r bb1 nb win_start (now_e - win_start + 1) p
          some (record g { bbuckets = some bb1 }, stats, fired)))

  unfoldable pub eval_beaconing : CorrRule → Group W → W → W → CorrStats → Fired W
  eval_beaconing r g now window_start stats =
      if ltb_ℤ (pos 0) r.beacon_n_buckets
      then eval_beaconing_bucketed r g now stats
      else eval_beaconing_raw r g now window_start stats
