-- ===== src/Corr/Event/Stored.antt =====
-- The arrays of a group (`group_t` of src/classify_corr.c) and the types of correlation that count or
-- aggregate.
use libsigma.Base.{
  ℕ, suc, ◌+◌, ◌≤◌, ◌<◌, ◌≡◌, refl, sym, ap, ◌∙◌, ◌⊎◌, inl, inr, Bool, ◌||◌, Option, none, some,
  List, [], ◌∷◌, ◌++◌, append-nil, append_assoc, length, length-append, lt→ltb, length-set,
  length-replicate, get_elem?_of_lt, set, replicate, ltb, ◌==◌, if◌then◌else◌, Bool-cases, arith,
}
use native.Mathlib.Nat.{mod-lt}
use libsigma.Text.{Bytes}
use libsigma.Corr.{CorrRule, CorrStats}
use libsigma.Corr.Float.{Double}
use libsigma.Corr.Group.{BeaconBucket, Group}
use libsigma.Corr.Group.Distinct.{IsDset, dset_observe-observed}
use libsigma.Corr.Event.{GroupEval}
use libsigma.Corr.Table.Size.{max_nodes}
use libsigma.Corr.Ring.{
  ring_index, put_next, copy_into, ev_prune, val_ring, ev_push_val, live_vals, take_value,
  insert_asc, sort_asc, percent, rank, eval_event_count, eval_value_count, eval_value_sum_avg,
  eval_value_percentile,
}
use libsigma.Corr.Ring.Window.{ring_index_lem, live_entries-live, live_total, behind}
use libsigma.Corr.Ring.Count.{
  put-in, IsTimes, stamped, ev_append-stamped, times-stamped, ev_prune-in_window,
}

-- The array of values and the histogram have their sizes, where they are there.
abbrev pub ValSized : {W : Type 0} → ℕ → Option (List W) → Type 0
ValSized size none = Unit
ValSized size (some vs) = length vs ≡ size

abbrev pub BucketsSized : ℕ → Option (List BeaconBucket) → Type 0
BucketsSized nb none = Unit
BucketsSized nb (some bb) = length bb ≡ nb

-- The ring has 2^31 entries at most, and the arrays of the rules seen and of the pending items are not
-- filled past their 64 and 32 places.
abbrev pub Fits : {W : Type 0} → Group W → Type 0
Fits g = (g.ev_cap ≤ 2147483648) × (length g.seen ≤ 64) × (length g.wm ≤ 32)

abbrev pub Held : {W : Type 0} → Group W → Type 0
Held g = IsDset g.distinct × Fits g

-- The arrays of a group of a correlation with `nb` time buckets.
abbrev pub Stored : {W : Type 0} → ℕ → Group W → Type 0
Stored nb g = IsTimes g × ValSized g.ev_cap g.ev_val × BucketsSized nb g.bbuckets × Held g

-- A result that is there, with the arrays kept: for a group, for an evaluation, and for one with an aggregate.
abbrev pub Keeps : {W : Type 0} → ℕ → Option (Group W × CorrStats) → Type 0
Keeps nb none = ⊥
Keeps nb (some (g, stats)) = Stored nb g

abbrev pub KeepsFired : {W : Type 0} → ℕ → Option (Group W × CorrStats × Bool) → Type 0
KeepsFired nb none = ⊥
KeepsFired nb (some (g, stats, fired)) = Stored nb g

abbrev pub KeepsEval : {W : Type 0} → ℕ → GroupEval W → Type 0
KeepsEval nb none = ⊥
KeepsEval nb (some (g, stats, fired, vagg)) = Stored nb g

rank_lt : (p n : ℕ) → 0 < n → rank p n < n
unfolding rank
rank_lt p n h = ground arith

-- A copy that has room.
copy_into_lem :
    {A : Type 0} (size : ℕ) (xs vs : List A)
    → length xs + length vs ≤ size
    → copy_into size xs vs ≡ some (xs ++ vs)
unfolding copy_into put_next
copy_into_lem size xs [] h = ap some (sym (append-nil xs))
copy_into_lem size xs (v ∷ vs) h =
    let q : length xs < size = omega arith in
    rw (lt→ltb (length xs) size q) (
      copy_into_lem size (xs ++ (v ∷ [])) vs (omega (arith, length-append xs (v ∷ [])))
      ∙ ap some (append_assoc xs (v ∷ []) vs))

length-ring :
    {W : Type 0} (o : Option (List W)) (size : ℕ) (val : W)
    → ValSized size o
    → length (elim o as (λ _. List W) [ none ↦ replicate size val | some vs ↦ vs ]) ≡ size
length-ring none size val v = length-replicate size val
length-ring (some vs) size val v = v

module _ {W : Type 0} ⦃d : Double W⦄ (nb : ℕ) where
  pub stamped-Stored :
      (g : Group W) (now : W)
      → Stored nb g
      → Stored nb (stamped g now) × ((stamped g now).ev_cap ≡ g.ev_cap)
  stamped-Stored g now (w, v, b, s) =
      let (xs, e, l) = live_total g.ev_ts g.ev_cap g.ev_head 0 g.ev_len w.positive (sym w.sized) in
      let (w', t) = times-stamped g now xs w e in
      elim (Bool-cases (g.ev_len == g.ev_cap)) [
        | inl u ↦ ((w', rw u v, rw u b, rw u s), rw u refl)
        | inr u ↦ ((w', rw u v, rw u b, rw u s), rw u refl)
      ]

  pub ev_prune-Stored :
      (g : Group W) (window_start : W)
      → Stored nb g
      → (g' : Group W) × (ev_prune g window_start ≡ some g') × Stored nb g'
  ev_prune-Stored g window_start (w, v, b, s) =
      let (xs, e, l) = live_total g.ev_ts g.ev_cap g.ev_head 0 g.ev_len w.positive (sym w.sized) in
      let (m, le, r, w', t) = ev_prune-in_window g window_start xs w e in
      (behind g m, r, (w', v, b, s))

  pub eval_event_count-Stored :
      (r : CorrRule) (g : Group W) (now window_start : W) (stats : CorrStats)
      → Stored nb g
      → KeepsFired nb (eval_event_count r g now window_start stats)
  unfolding eval_event_count
  eval_event_count-Stored r g now window_start stats (w, v, b, s) =
      let (stats1, p) = ev_append-stamped g now window_start stats w s.1.0 in
      let (g2, q, k) =
        ev_prune-Stored (stamped g now) window_start (stamped-Stored g now (w, v, b, s)).0 in
      rw (p, q) k

  pub eval_value_count-Stored :
      (r : CorrRule) (g : Group W) (value : Option Bytes) (n_max : ℕ) (now window_start : W)
      (stats : CorrStats)
      → n_max ≤ max_nodes
      → Stored nb g
      → KeepsFired nb (eval_value_count r g value n_max now window_start stats)
  unfolding eval_value_count
  eval_value_count-Stored r g none n_max now window_start stats h k = k
  eval_value_count-Stored r g (some value) n_max now window_start stats h (w, v, b, s) =
      let (s', stats', e, s2, l) =
        dset_observe-observed g.distinct value now window_start n_max stats s.0 h in
      rw e (w, v, b, (s2, s.1))

  length-val_ring :
      (g : Group W) (val : W) → ValSized g.ev_cap g.ev_val → length (val_ring g val) ≡ g.ev_cap
  unfolding val_ring
  length-val_ring g val v = length-ring g.ev_val g.ev_cap val v

  slot_in :
      (g : Group W)
      → IsTimes g
      → g.ev_cap ≤ 2147483648
      → (vs : List W) → length vs ≡ g.ev_cap
      → (if g.ev_len == g.ev_cap then g.ev_head else ring_index g.ev_cap g.ev_head g.ev_len)
        < length vs
  slot_in g w fits vs n = elim (Bool-cases (g.ev_len == g.ev_cap)) [
    | inl u ↦ rw u (omega (arith, w.head_in))
    | inr u ↦
        rw (u, ring_index_lem g.ev_cap g.ev_head g.ev_len w.head_in w.len_in fits)
          (omega (arith, mod-lt (g.ev_head + g.ev_len) w.positive))
  ]

  pub ev_push_val-Stored :
      (g : Group W) (now val window_start : W) (stats : CorrStats)
      → Stored nb g
      → Keeps nb (ev_push_val g now val window_start stats)
  unfolding ev_push_val
  ev_push_val-Stored g now val window_start stats (w, v, b, s) =
      let slot =
        if g.ev_len == g.ev_cap then g.ev_head else ring_index g.ev_cap g.ev_head g.ev_len in
      let n = length-val_ring g val v in
      let (stats1, p) = ev_append-stamped g now window_start stats w s.1.0 in
      let ((w1, v1, b1, s1), c) = stamped-Stored g now (w, v, b, s) in
      let vs = set (val_ring g val) slot val in
      let l : length vs ≡ (stamped g now).ev_cap =
        length-set (val_ring g val) slot val ∙ n ∙ sym c in
      let (g2, q, k) =
        ev_prune-Stored (record (stamped g now) { ev_val = some vs }) window_start
          (w1, l, b1, s1) in
      rw (put-in (val_ring g val) slot val (slot_in g w s.1.0 (val_ring g val) n), p, q) k

  take_value-Stored :
      (parsed : Option W) (g : Group W) (now window_start : W) (stats : CorrStats)
      → Stored nb g
      → Keeps nb (take_value parsed g now window_start stats)
  unfolding take_value
  take_value-Stored none g now window_start stats k =
      let (g1, e, k1) = ev_prune-Stored g window_start k in rw e k1
  take_value-Stored (some v) g now window_start stats k =
      ev_push_val-Stored g now v window_start stats k

  -- What a result that is there consists of.
  pub kept_parts :
      (x : Option (Group W × CorrStats))
      → Keeps nb x
      → (g : Group W) × (stats : CorrStats) × (x ≡ some (g, stats)) × Stored nb g
  kept_parts none k = absurd k
  kept_parts (some (g, stats)) k = (g, stats, refl, k)

  pub fired_parts :
      (x : Option (Group W × CorrStats × Bool))
      → KeepsFired nb x
      → (g : Group W) × (stats : CorrStats) × (fired : Bool) × (x ≡ some (g, stats, fired))
        × Stored nb g
  fired_parts none k = absurd k
  fired_parts (some (g, stats, fired)) k = (g, stats, fired, refl, k)

  live_vals_of :
      (g : Group W) (o : Option (List W))
      → Stored nb g
      → ValSized g.ev_cap o
      → (vs : List W) × (live_vals g o ≡ some vs) × ((length vs ≡ 0) ⊎ (length vs ≡ g.ev_len))
  unfolding live_vals
  live_vals_of g none k v = ([], refl, inl refl)
  live_vals_of g (some ring) (w, u, b, s) v =
      let (vs, e, l) = live_total ring g.ev_cap g.ev_head 0 g.ev_len w.positive (sym v) in
      (
        vs,
        live_entries-live ring g.ev_cap g.ev_head 0 g.ev_len w.head_in (omega (arith, w.len_in))
              s.1.0
            ∙ e,
        inr l,
      )

  pub live_vals_total :
      (g : Group W)
      → Stored nb g
      → (vs : List W) × (live_vals g g.ev_val ≡ some vs)
        × ((length vs ≡ 0) ⊎ (length vs ≡ g.ev_len))
  live_vals_total g (w, v, b, s) = live_vals_of g g.ev_val (w, v, b, s) v

  pub eval_value_sum_avg-Stored :
      (r : CorrRule) (g : Group W) (parsed : Option W) (is_avg : Bool) (now window_start : W)
      (stats : CorrStats)
      → Stored nb g
      → KeepsEval nb (eval_value_sum_avg r g parsed is_avg now window_start stats)
  unfolding eval_value_sum_avg
  eval_value_sum_avg-Stored r g parsed is_avg now window_start stats k =
      let (g1, stats1, e, k1) =
        kept_parts (take_value parsed g now window_start stats)
          (take_value-Stored parsed g now window_start stats k) in
      let (vs, f, l) = live_vals_total g1 k1 in rw (e, f) k1

  length-insert_asc : (v : W) (ws : List W) → length (insert_asc v ws) ≡ suc (length ws)
  unfolding insert_asc
  length-insert_asc v [] = refl
  length-insert_asc v (w ∷ ws) = elim (Bool-cases (d.lt w v)) [
    | inl t ↦ rw t (ap suc (length-insert_asc v ws))
    | inr t ↦ rw t refl
  ]

  length-sort_asc : (vs : List W) → length (sort_asc vs) ≡ length vs
  unfolding sort_asc
  length-sort_asc [] = refl
  length-sort_asc (v ∷ vs) = length-insert_asc v (sort_asc vs) ∙ ap suc (length-sort_asc vs)

  pub eval_value_percentile-Stored :
      (r : CorrRule) (g : Group W) (parsed : Option W) (scratch_cap : ℕ) (now window_start : W)
      (stats : CorrStats)
      → Stored nb g
      → KeepsEval nb (eval_value_percentile r g parsed scratch_cap now window_start stats)
  unfolding eval_value_percentile
  eval_value_percentile-Stored r g parsed scratch_cap now window_start stats k =
      let (g1, stats1, e, k1) =
        kept_parts (take_value parsed g now window_start stats)
          (take_value-Stored parsed g now window_start stats k) in
      let (vs, f, l) = live_vals_total g1 k1 in
      elim (Bool-cases (length vs == 0 || ltb scratch_cap g1.ev_len)) [
        | inl t ↦ rw (e, f, t) k1
        | inr t ↦
            let n : length vs ≡ g1.ev_len = elim l [
              | inl z ↦ absurd (ground (arith, z, t))
              | inr z ↦ z
            ] in
            let p : 0 < g1.ev_len = ground (arith, n, t) in
            let c = copy_into_lem scratch_cap [] vs (ground (arith, n, t)) in
            let (v, h) =
              get_elem?_of_lt (sort_asc vs) (rank (percent r) g1.ev_len)
                (omega (arith, rank_lt (percent r) g1.ev_len p, n, length-sort_asc vs)) in
            rw (e, f, t, c, h) k1
      ]
