-- ===== src/Corr/Watermark.antt =====
-- The reorder buffer of the ordered correlations (src/classify_corr.c): `wm_insert` and
-- `eval_temporal_ordered_wm`. The buffer is the list of its pending items, of `CORR_WM_CAP` at most.
pub mod Sorted
use libsigma.Base.{
  ℕ, zero, suc, Bool, true, false, ◌&&◌, Option, none, some, ◌>>=◌, ◌-◌, List, [], ◌∷◌, ◌++◌, ◌||◌,
  length, get_elem?, set, take, ltb, leb, if◌then◌else◌,
}
use libsigma.Base.Int.{pos}
use libsigma.Corr.{CorrRule, CorrStats, inc}
use libsigma.Corr.Float.{Double}
use libsigma.Corr.Group.{Group}
use libsigma.Corr.Ring.{Fired}
use libsigma.Corr.Temporal.{eval_temporal_ordered}

abbrev pub corr_wm_cap : ℕ
corr_wm_cap = 32

-- `wm[i] = wm[n - 1]; n--`
unfoldable pub drop_item : {A : Type 0} → ℕ → List A → Option (List A)
drop_item i wm = do z ← get_elem? wm (length wm - 1); some (take (length wm - 1) (set wm i z))

module _ {W : Type 0} ⦃d : Double W⦄ where
  -- The place of the least time, from number `i` on, where the least so far is `t` at `min_i`.
  unfoldable pub min_index : ℕ → W → ℕ → List (W × ℕ) → ℕ
  min_index min_i t i [] = min_i
  min_index min_i t i ((u, rid) ∷ wm) =
      if d.lt u t then min_index i u (suc i) wm else min_index min_i t (suc i) wm

  unfoldable pub oldest_item : List (W × ℕ) → ℕ
  oldest_item [] = 0
  oldest_item ((t, rid) ∷ wm) = min_index 0 t 1 wm

  unfoldable pub all_later : W → List (W × ℕ) → Bool
  all_later ts [] = true
  all_later ts ((t, r) ∷ wm) = d.lt ts t && all_later ts wm

  -- The walk from the end passes the items that are later: the item goes before the longest tail of such.
  unfoldable pub wm_place : W → ℕ → List (W × ℕ) → List (W × ℕ)
  wm_place ts rid [] = (ts, rid) ∷ []
  wm_place ts rid ((t, r) ∷ wm) =
      let rest = (t, r) ∷ wm_place ts rid wm in
      if all_later ts ((t, r) ∷ wm) then (ts, rid) ∷ (t, r) ∷ wm else rest

  -- The walk and the write use place `wm_n`, which is to be one of the 32 places.
  unfoldable pub wm_put : W → ℕ → List (W × ℕ) → Option (List (W × ℕ))
  wm_put ts rid wm = if ltb (length wm) corr_wm_cap then some (wm_place ts rid wm) else none

  unfoldable pub wm_room : Group W → CorrStats → Option (Group W × CorrStats)
  wm_room g stats =
      if leb corr_wm_cap (length g.wm)
      then (do
        wm ← drop_item (oldest_item g.wm) g.wm
        some (record g { wm = wm }, record stats { watermark_late = inc stats.watermark_late }))
      else some (g, stats)

  -- `if (ts > g->wm_max_ts) g->wm_max_ts = ts`
  unfoldable pub raise_max : W → Group W → Group W
  raise_max ts g = record g { wm_max_ts = if d.lt g.wm_max_ts ts then ts else g.wm_max_ts }

  unfoldable pub wm_insert : Group W → W → ℕ → CorrStats → Option (Group W × CorrStats)
  wm_insert g ts rid stats = do
    (g1, stats1) ← wm_room g stats
    wm ← wm_put ts rid g1.wm
    some (raise_max ts (record g1 { wm = wm }), stats1)

  unfoldable pub wm_insert_all : List ℕ → W → Group W → CorrStats → Option (Group W × CorrStats)
  wm_insert_all [] now g stats = some (g, stats)
  wm_insert_all (rid ∷ rids) now g stats = do
    (g1, stats1) ← wm_insert g now rid stats
    wm_insert_all rids now g1 stats1

  -- One pending item: it is replayed, or it stays among those that are kept.
  unfoldable pub replay_step :
      CorrRule → W → W → ℕ → Bool → List (W × ℕ) → Bool → Group W → List (W × ℕ) × Bool × Group W
  replay_step r window_start t rid true kept fired g =
      let (g1, f) = eval_temporal_ordered r g (rid ∷ []) t window_start true in
      (kept, fired || f, g1)
  replay_step r window_start t rid false kept fired g = (kept ++ ((t, rid) ∷ []), fired, g)

  -- The replay: `kept` has the items that stay.
  unfoldable pub wm_replay :
      CorrRule → W → W → List (W × ℕ) → List (W × ℕ) → Bool → Group W → Group W × Bool
  wm_replay r cutoff window_start [] kept fired g = (record g { wm = kept }, fired)
  wm_replay r cutoff window_start ((t, rid) ∷ wm) kept fired g =
      let (kept', fired', g') = replay_step r window_start t rid (d.le t cutoff) kept fired g in
      wm_replay r cutoff window_start wm kept' fired' g'

  unfoldable pub is_late : Group W → W → W → Bool
  is_late g now watermark_s =
      d.lt (d.of_int (pos 0)) g.wm_max_ts && d.lt (d.add now watermark_s) g.wm_max_ts

  unfoldable pub eval_temporal_ordered_wm :
      CorrRule → Group W → List ℕ → W → W → W → CorrStats → Fired W
  eval_temporal_ordered_wm r g hit_rids now window_start watermark_s stats =
      if is_late g now watermark_s
      then (let (g1, f) = eval_temporal_ordered r g hit_rids now window_start true in
          some (g1, record stats { watermark_late = inc stats.watermark_late }, f))
      else (do
        (g1, stats1) ← wm_insert_all hit_rids now g stats
        let g2 = raise_max now g1
        let (g3, f) = wm_replay r (d.sub g2.wm_max_ts watermark_s) window_start g2.wm [] false g2
        some (g3, stats1, f))
