-- ===== src/Corr/Event/Slots.antt =====
-- The arrays of a fixed size of src/classify_corr.c: `hit_buf` and the rules seen, of 64 places, and the
-- pending items, of 32, with their guards.
use libsigma.Base.{
  ℕ, suc, ◌-◌, ◌≤◌, ◌<◌, ◌≡◌, refl, sym, ap, ◌∙◌, inl, inr, some, List, [], ◌∷◌, ◌++◌, length,
  length-append, length-set, length-take, get_elem?_of_lt, set, take, ltb, lt→ltb, leb, leb→le,
  ◌==◌, Bool-cases, Option-cases, arith,
}
use mathlib.Core.Option.{some-injective}
use libsigma.Corr.{CorrStats, inc, mem_rid}
use libsigma.Corr.Float.{Double}
use libsigma.Corr.Group.{Group}
use libsigma.Corr.Ring.{put_next}
use libsigma.Corr.Temporal.{
  renew, place_seen, record_one, record_all, expire_seen, temporal_record_seen,
}
use libsigma.Corr.Watermark.{
  drop_item, oldest_item, all_later, wm_place, wm_put, wm_room, raise_max, wm_insert, wm_insert_all,
}
use libsigma.Corr.Event.{take_hit, collect_hits}
use libsigma.Corr.Event.Stored.{Stored, Keeps, kept_parts}

take_hit_total :
    (want : ℕ) (rids hits : List ℕ) (stats : CorrStats)
    → (hits' : List ℕ) × (stats' : CorrStats) × (take_hit want rids hits stats
        ≡ some (hits', stats'))
unfolding take_hit put_next
take_hit_total want rids hits stats = elim (Bool-cases (mem_rid want rids)) [
  | inl t ↦ elim (Bool-cases (ltb (length hits) 64)) [
    | inl u ↦ (hits ++ (want ∷ []), stats, rw (t, u) refl)
    | inr u ↦ (hits, record stats { hits_truncated = inc stats.hits_truncated }, rw (t, u) refl)
  ]
  | inr t ↦ (hits, stats, rw t refl)
]

pub collect_hits_total :
    (base rids hits : List ℕ) (stats : CorrStats)
    → (hits' : List ℕ) × (stats' : CorrStats) × (collect_hits base rids hits stats
        ≡ some (hits', stats'))
unfolding collect_hits
collect_hits_total [] rids hits stats = (hits, stats, refl)
collect_hits_total (want ∷ base) rids hits stats =
    let (hits1, stats1, e) = take_hit_total want rids hits stats in
    let (hits2, stats2, f) = collect_hits_total base rids hits1 stats1 in (hits2, stats2, rw e f)

module _ {W : Type 0} ⦃d : Double W⦄ where
  length-renew :
      (rid : ℕ) (now : W) (seen l : List (ℕ × W))
      → renew rid now seen ≡ some l
      → length l ≡ length seen
  unfolding renew
  length-renew rid now [] l e = absurd (ground (arith, e))
  length-renew rid now ((s, t) ∷ seen) l e = elim (Bool-cases (s == rid)) [
    | inl u ↦ sym (ap length (some-injective ((s, now) ∷ seen) l (rw u at e)))
    | inr u ↦ elim (Option-cases (renew rid now seen)) [
      | inl n ↦ absurd (ground (arith, rw (u, n) at e))
      | inr (k, n) ↦
          sym (ap length (some-injective ((s, t) ∷ k) l (rw (u, n) at e)))
          ∙ ap suc (length-renew rid now seen k n)
    ]
  ]

  record_one_total :
      (rid : ℕ) (now : W) (seen : List (ℕ × W)) (stats : CorrStats)
      → length seen ≤ 64
      → (seen' : List (ℕ × W)) × (stats' : CorrStats) × (record_one rid now seen stats
          ≡ some (seen', stats'))
        × (length seen' ≤ 64)
  unfolding record_one place_seen put_next
  record_one_total rid now seen stats h = elim (Option-cases (renew rid now seen)) [
    | inl e ↦ elim (Bool-cases (ltb (length seen) 64)) [
      | inl u ↦ (
        seen ++ ((rid, now) ∷ []),
        stats,
        rw (e, u) refl,
        ground (arith, u, length-append seen ((rid, now) ∷ [])),
      )
      | inr u ↦
          (seen, record stats { seen_truncated = inc stats.seen_truncated }, rw (e, u) refl, h)
    ]
    | inr (l, e) ↦ (l, stats, rw e refl, omega (arith, length-renew rid now seen l e))
  ]

  record_all_total :
      (rids : List ℕ) (now : W) (seen : List (ℕ × W)) (stats : CorrStats)
      → length seen ≤ 64
      → (seen' : List (ℕ × W)) × (stats' : CorrStats) × (record_all rids now seen stats
          ≡ some (seen', stats'))
        × (length seen' ≤ 64)
  unfolding record_all
  record_all_total [] now seen stats h = (seen, stats, refl, h)
  record_all_total (rid ∷ rids) now seen stats h =
      let (seen1, stats1, e, h1) = record_one_total rid now seen stats h in
      let (seen2, stats2, f, h2) = record_all_total rids now seen1 stats1 h1 in
      (seen2, stats2, rw e f, h2)

  expire_le :
      (window_start : W) (seen : List (ℕ × W))
      → length (expire_seen window_start seen) ≤ length seen
  unfolding expire_seen
  expire_le window_start [] = omega arith
  expire_le window_start ((r, t) ∷ seen) = elim (Bool-cases (d.le window_start t)) [
    | inl u ↦ rw u (omega (arith, expire_le window_start seen))
    | inr u ↦ rw u (omega (arith, expire_le window_start seen))
  ]

  pub temporal_record_seen-Stored :
      (nb : ℕ) (g : Group W) (hits : List ℕ) (now window_start : W) (stats : CorrStats)
      → Stored nb g
      → Keeps nb (temporal_record_seen g hits now window_start stats)
  unfolding temporal_record_seen
  temporal_record_seen-Stored nb g hits now window_start stats (w, v, b, (s, (c, n, m))) =
      let (seen, stats', e, h) = record_all_total hits now g.seen stats n in
      rw e (w, v, b, (s, (c, omega (arith, expire_le window_start seen), m)))

  length-wm_place :
      (ts : W) (rid : ℕ) (wm : List (W × ℕ)) → length (wm_place ts rid wm) ≡ suc (length wm)
  unfolding wm_place
  length-wm_place ts rid [] = refl
  length-wm_place ts rid ((t, r) ∷ wm) = elim (Bool-cases (all_later ts ((t, r) ∷ wm))) [
    | inl h ↦ rw h refl
    | inr h ↦ rw h (ap suc (length-wm_place ts rid wm))
  ]

  wm_room-Stored :
      (nb : ℕ) (g : Group W) (stats : CorrStats)
      → Stored nb g
      → (g' : Group W) × (stats' : CorrStats) × (wm_room g stats ≡ some (g', stats'))
        × Stored nb g'
        × (length g'.wm < 32)
  unfolding wm_room drop_item
  wm_room-Stored nb g stats (w, v, b, (s, (c, n, m))) = elim (Bool-cases (leb 32 (length g.wm))) [
    | inl t ↦
        let h = leb→le 32 (length g.wm) t in
        let (z, e) = get_elem?_of_lt g.wm (length g.wm - 1) (omega arith) in
        let wm = take (length g.wm - 1) (set g.wm (oldest_item g.wm) z) in
        let l : length wm < 32 = omega (
          arith,
          length-take (length g.wm - 1) (set g.wm (oldest_item g.wm) z),
          length-set g.wm (oldest_item g.wm) z,
        ) in
        (
          record g { wm = wm },
          record stats { watermark_late = inc stats.watermark_late },
          rw (t, e) refl,
          (w, v, b, (s, (c, n, omega arith))),
          l,
        )
    | inr t ↦ (g, stats, rw t refl, (w, v, b, (s, (c, n, m))), ground (arith, t))
  ]

  wm_insert-Stored :
      (nb : ℕ) (g : Group W) (ts : W) (rid : ℕ) (stats : CorrStats)
      → Stored nb g
      → Keeps nb (wm_insert g ts rid stats)
  unfolding wm_insert wm_put raise_max
  wm_insert-Stored nb g ts rid stats k =
      let (g1, stats1, e, (w, v, b, (s, (c, n, m))), l) = wm_room-Stored nb g stats k in
      rw (e, lt→ltb (length g1.wm) 32 l)
        (w, v, b, (s, (c, n, omega (arith, length-wm_place ts rid g1.wm))))

  pub wm_insert_all-Stored :
      (nb : ℕ) (rids : List ℕ) (now : W) (g : Group W) (stats : CorrStats)
      → Stored nb g
      → Keeps nb (wm_insert_all rids now g stats)
  unfolding wm_insert_all
  wm_insert_all-Stored nb [] now g stats k = k
  wm_insert_all-Stored nb (rid ∷ rids) now g stats k =
      let (g1, stats1, e, k1) =
        kept_parts nb (wm_insert g now rid stats) (wm_insert-Stored nb g now rid stats k) in
      rw e (wm_insert_all-Stored nb rids now g1 stats1 k1)
