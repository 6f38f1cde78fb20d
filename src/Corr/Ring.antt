-- ===== src/Corr/Ring.antt =====
-- The ring of a group's event times and the correlations that count or aggregate it
-- (src/classify_corr.c): `ev_prune`, `eval_event_count`, `ev_push_val`, `eval_value_sum_avg`,
-- `eval_value_percentile`, `eval_value_count`. `none` is an access outside an array.
pub mod Window
pub mod Count
pub mod Rank
use libsigma.Base.{
  ℕ, zero, suc, ◌+◌, ◌-◌, ◌*◌, ◌/◌, ◌%◌, ◌^◌, Bool, true, false, ◌&&◌, ◌||◌, Option, none, some,
  ◌>>=◌, List, [], ◌∷◌, ◌++◌, length, get_elem?, set, take, replicate, ltb, leb, ◌==◌,
  if◌then◌else◌,
}
use libsigma.Base.Int.{ℤ, pos, ltb_ℤ, leb_ℤ, pos_part}
use libsigma.Text.{Bytes}
use libsigma.Corr.{
  CorrType, value_median, CorrRule, CorrStats, inc, cmp_threshold, cond_satisfied_f,
}
use libsigma.Corr.Float.{Double}
use libsigma.Corr.Group.{Group, dset_observe}

-- A write, where it is inside the array.
unfoldable pub put : {A : Type 0} → List A → ℕ → A → Option (List A)
put xs i v = if ltb i (length xs) then some (set xs i v) else none

unfoldable pub overwritten : Bool → CorrStats → CorrStats
overwritten hot stats = record stats {
  events_overwritten = inc stats.events_overwritten;
  hotkey_fallback = if hot then inc stats.hotkey_fallback else stats.hotkey_fallback;
}

-- The result 0 or 1 beside the group and the counters.
abbrev pub Fired : Type 0 → Type 0
Fired W = Option (Group W × CorrStats × Bool)

-- `p`, between 1 and 100.
unfoldable pub percent : CorrRule → ℕ
percent r = elim r.kind [
  | value_median ↦ 50
  | _ ↦
      if leb_ℤ r.value_percentile (pos 0)
      then 95
      else if ltb_ℤ (pos 100) r.value_percentile
      then 100
      else pos_part r.value_percentile
]

-- The nearest rank, counted from 0.
unfoldable pub rank : ℕ → ℕ → ℕ
rank p n =
    let idx = (p * n + 99) / 100 % 2 ^ 32 in
    let from_one = if idx == 0 then 1 else idx in
    if leb n (from_one - 1) then n - 1 else from_one - 1

-- `(g->ev_head + i) % g->ev_cap`, in `uint32_t`.
unfoldable pub ring_index : ℕ → ℕ → ℕ → ℕ
ring_index cap head i = (head + i) % 2 ^ 32 % cap

-- The reads of `n` entries of a ring from index `i` of the window on.
unfoldable pub live_entries : {A : Type 0} → List A → ℕ → ℕ → ℕ → ℕ → Option (List A)
live_entries ring cap head i zero = some []
live_entries ring cap head i (suc n) = do
  v ← get_elem? ring (ring_index cap head i)
  vs ← live_entries ring cap head (suc i) n
  some (v ∷ vs)

-- The write after the last of the filled places of an array of `size` places.
unfoldable pub put_next : {A : Type 0} → ℕ → List A → A → Option (List A)
put_next size xs v = if ltb (length xs) size then some (xs ++ (v ∷ [])) else none

-- The copy into an array of `size` places, where the values so far are `xs`.
unfoldable pub copy_into : {A : Type 0} → ℕ → List A → List A → Option (List A)
copy_into size xs [] = some xs
copy_into size xs (v ∷ vs) = do xs' ← put_next size xs v; copy_into size xs' vs

module _ {W : Type 0} ⦃d : Double W⦄ where
  -- The loop of `ev_prune`, with `ev_len` as its bound.
  unfoldable pub prune_loop : ℕ → W → Group W → Option (Group W)
  prune_loop zero window_start g = some g
  prune_loop (suc k) window_start g = do
    t ← get_elem? g.ev_ts g.ev_head
    let rest =
        prune_loop k window_start
          (record g { ev_head = (g.ev_head + 1) % g.ev_cap; ev_len = g.ev_len - 1 })
    (if d.lt t window_start then rest else some g)

  unfoldable pub ev_prune : Group W → W → Option (Group W)
  ev_prune g window_start = prune_loop g.ev_len window_start g

  -- `oldest > window_start + (now - window_start) * 0.5`
  abbrev pub is_hot : W → W → W → Bool
  is_hot oldest now window_start =
      d.lt (d.add window_start (d.mul (d.sub now window_start) d.half)) oldest

  -- The time of an event goes over the oldest one in a full ring, and after the newest one otherwise.
  unfoldable pub ev_append : Group W → W → W → CorrStats → Option (Group W × CorrStats)
  ev_append g now window_start stats =
      if g.ev_len == g.ev_cap
      then (do
        oldest ← get_elem? g.ev_ts g.ev_head
        ts ← put g.ev_ts g.ev_head now
        some (
          record g { ev_ts = ts; ev_head = (g.ev_head + 1) % g.ev_cap },
          overwritten (is_hot oldest now window_start) stats,
        ))
      else (do
        ts ← put g.ev_ts (ring_index g.ev_cap g.ev_head g.ev_len) now
        some (record g { ev_ts = ts; ev_len = g.ev_len + 1 }, stats))

  unfoldable pub eval_event_count : CorrRule → Group W → W → W → CorrStats → Fired W
  eval_event_count r g now window_start stats = do
    (g1, stats1) ← ev_append g now window_start stats
    g2 ← ev_prune g1 window_start
    some (g2, stats1, cmp_threshold (pos (g2.ev_len + g2.merge_n)) r.cond_op r.cond_count)

  unfoldable pub eval_value_count :
      CorrRule → Group W → Option Bytes → ℕ → W → W → CorrStats → Fired W
  eval_value_count r g none max_distinct now window_start stats = some (g, stats, false)
  eval_value_count r g (some value) max_distinct now window_start stats = do
    (s, cnt, stats1) ← dset_observe g.distinct value now window_start max_distinct stats
    some (record g { distinct = s }, stats1, cmp_threshold (pos cnt) r.cond_op r.cond_count)

  -- `ev_val`, allocated at the first value; a fresh slot is given as the value itself.
  unfoldable pub val_ring : Group W → W → List W
  val_ring g val = elim g.ev_val [ none ↦ replicate g.ev_cap val | some vs ↦ vs ]

  -- The value goes where its time goes.
  unfoldable pub ev_push_val : Group W → W → W → W → CorrStats → Option (Group W × CorrStats)
  ev_push_val g now val window_start stats = do
    let slot = if g.ev_len == g.ev_cap then g.ev_head else ring_index g.ev_cap g.ev_head g.ev_len
    vs ← put (val_ring g val) slot val
    (g1, stats1) ← ev_append g now window_start stats
    g2 ← ev_prune (record g1 { ev_val = some vs }) window_start
    some (g2, stats1)

  unfoldable pub live_vals : Group W → Option (List W) → Option (List W)
  live_vals g none = some []
  live_vals g (some ring) = live_entries ring g.ev_cap g.ev_head 0 g.ev_len

  -- `sum += ..`, from the oldest on
  unfoldable pub add_all : W → List W → W
  add_all sum [] = sum
  add_all sum (v ∷ vs) = add_all (d.add sum v) vs

  -- The event's number is pushed, or counted as none and the window aged.
  unfoldable pub take_value : Option W → Group W → W → W → CorrStats → Option (Group W × CorrStats)
  take_value none g now window_start stats = do
    g1 ← ev_prune g window_start
    some (g1, record stats { values_nonnumeric = inc stats.values_nonnumeric })
  take_value (some v) g now window_start stats = ev_push_val g now v window_start stats

  -- The sum or the average of the live values and what peers have contributed; the result has the
  -- aggregate too.
  unfoldable pub aggregate : CorrRule → Bool → W → ℕ → Bool × W
  aggregate r is_avg sum n =
      if is_avg
      then (if n == 0 then (false, d.of_int (pos 0)) else (
        cond_satisfied_f r.cond_op (d.div sum (d.of_int (pos n))) (d.of_int r.cond_count),
        d.div sum (d.of_int (pos n)),
      ))
      else (cond_satisfied_f r.cond_op sum (d.of_int r.cond_count), sum)

  -- `parsed` is what `sg_to_f64` makes of the value.
  unfoldable pub eval_value_sum_avg :
      CorrRule
      → Group W
      → Option W
      → Bool
      → W
      → W
      → CorrStats
      → Option (Group W × CorrStats × Bool × W)
  eval_value_sum_avg r g parsed is_avg now window_start stats = do
    (g1, stats1) ← take_value parsed g now window_start stats
    vs ← live_vals g1 g1.ev_val
    let (fired, agg) =
        aggregate r is_avg (add_all g1.merge_sum vs) ((g1.ev_len + g1.merge_n) % 2 ^ 32)
    some (g1, stats1, fired, agg)

  -- `qsort` with `cmp_dbl_asc`, as the insertion of each value.
  unfoldable pub insert_asc : W → List W → List W
  insert_asc v [] = v ∷ []
  insert_asc v (w ∷ ws) = let rest = w ∷ insert_asc v ws in if d.lt w v then rest else v ∷ w ∷ ws

  unfoldable pub sort_asc : List W → List W
  sort_asc [] = []
  sort_asc (v ∷ vs) = insert_asc v (sort_asc vs)

  -- `scratch_cap` is the size of the buffer that the values are sorted in.
  unfoldable pub eval_value_percentile :
      CorrRule
      → Group W
      → Option W
      → ℕ
      → W
      → W
      → CorrStats
      → Option (Group W × CorrStats × Bool × W)
  eval_value_percentile r g parsed scratch_cap now window_start stats = do
    (g1, stats1) ← take_value parsed g now window_start stats
    vs ← live_vals g1 g1.ev_val
    (if length vs == 0 || ltb scratch_cap g1.ev_len
        then some (g1, stats1, false, d.of_int (pos 0))
        else (do
          scratch ← copy_into scratch_cap [] vs
          v ← get_elem? (sort_asc scratch) (rank (percent r) g1.ev_len)
          some (g1, stats1, cond_satisfied_f r.cond_op v (d.of_int r.cond_count), v)))
