-- ===== src/Corr/Group/Distinct.antt =====
-- The distinct values of a group (`dset_observe` of src/classify_corr.c), against the list of the values
-- with their times in the order of use.
use libsigma.Base.{
  ℕ, ◌≤◌, ◌<◌, ◌≡◌, refl, sym, ap, ◌∙◌, subst, inl, inr, Bool, true, false, Option, none, some,
  List, [], ◌∷◌, ◌++◌, length, length-append, if◌then◌else◌, Bool-cases, arith,
}
use libsigma.Text.{Bytes, eq_from}
use libsigma.Text.Occurs.{eq_from_iff}
use libsigma.Corr.{CorrStats, inc}
use libsigma.Corr.Float.{Double}
use libsigma.Corr.Table.{Node, unlink_lru, table_touch, table_find}
use libsigma.Corr.Table.Size.{max_nodes}
use libsigma.Corr.Table.Chains.{IsSame, node}
use libsigma.Corr.Table.Valid.{IsTable, table_find-none, table_find-some}
use libsigma.Corr.Table.Push.{table_touch-IsTable}
use libsigma.Corr.Table.Lru.{oldest_out, drop_stale-fresh, table_admit-IsTable}
use libsigma.Corr.Table.Map.{
  entries, Hashed, has_key, forget, kept, entries-snoc, Hashed-snoc, length-entries, entries-fresh,
  entries-oldest_out, Hashed-fresh, Hashed-oldest_out, Hashed-unlink, entries-unlink, occ-has_key,
  kept_le, forget_lt, oldest_out_lt,
}
use libsigma.Corr.Group.{fnv1a, Dset, dset_place, dset_observe}

-- The bytes of two values are compared exactly.
pub eq_from-IsSame : IsSame (eq_from true)
eq_from-IsSame a b = eq_from_iff true a b

-- A valid table whose hashes are those of its values.
abbrev pub IsDset : {W : Type 0} → Dset W → Type 0
IsDset s = IsTable (eq_from true) s × Hashed fnv1a s.lru

module _ {W : Type 0} ⦃d : Double W⦄ where
  -- What an observation leaves: the values in the window, the new one last; a value that is new takes the
  -- place of the least recently seen one at the cap.
  unfoldable pub observed : Bytes → W → W → ℕ → List (Bytes × W) → List (Bytes × W)
  observed val ts window_start cap l =
      let f = kept (λ t. d.lt t window_start) l in
      (if has_key (eq_from true) val f then forget (eq_from true) val f else oldest_out cap f)
      ++ ((val, ts) ∷ [])

  dset_place-observed :
      (s : Dset W) (val : Bytes) (ts : W) (cap : ℕ) (b : Bool)
      → IsDset s
      → cap ≤ max_nodes
      → has_key (eq_from true) val (entries s.lru) ≡ b
      → (hit : Option (Node Bytes)) × (s' : Dset W) × (ev : Bool) × (table_find
            (eq_from true)
            s
            (fnv1a val)
            val
          ≡ some hit)
        × (dset_place s hit val ts cap ≡ some (s', ev))
        × IsDset s'
        × (entries s'.lru
            ≡ (if b
                then forget (eq_from true) val (entries s.lru)
                else oldest_out cap (entries s.lru))
              ++ ((val, ts) ∷ []))
  unfolding dset_place table_touch
  dset_place-observed s val ts cap true (w, h) fits e =
      let n = node (fnv1a val) val in
      let p = (occ-has_key (eq_from true) eq_from-IsSame fnv1a val s.lru h).0 e in
      (
        some n,
        table_touch (eq_from true) s n ts,
        false,
        table_find-some (eq_from true) eq_from-IsSame s w (fnv1a val) val p,
        refl,
        (
          table_touch-IsTable (eq_from true) eq_from-IsSame s n ts w p,
          Hashed-snoc fnv1a val ts (unlink_lru (eq_from true) n s.lru)
              (Hashed-unlink fnv1a (eq_from true) n s.lru h),
        ),
        entries-snoc n ts (unlink_lru (eq_from true) n s.lru)
            ∙ ap (λ r. r ++ ((val, ts) ∷ []))
                (entries-unlink (eq_from true) eq_from-IsSame fnv1a val s.lru h),
      )
  dset_place-observed s val ts cap false (w, h) fits e =
      let n = node (fnv1a val) val in
      let z = (occ-has_key (eq_from true) eq_from-IsSame fnv1a val s.lru h).1 e in
      let (s', ev, r, w', l) =
        table_admit-IsTable (eq_from true) eq_from-IsSame cap s n ts w fits z in
      (
        none,
        s',
        ev,
        table_find-none (eq_from true) eq_from-IsSame s w (fnv1a val) val z,
        r,
        (
          w',
          subst (Hashed fnv1a) (sym l) (
              Hashed-snoc fnv1a val ts (oldest_out cap s.lru)
                (Hashed-oldest_out fnv1a cap s.lru h)),
        ),
        ap entries l
            ∙ entries-snoc n ts (oldest_out cap s.lru)
            ∙ ap (λ r. r ++ ((val, ts) ∷ [])) (entries-oldest_out cap s.lru),
      )

  -- On a valid set, with a cap of at most three quarters of 2^30 values, an observation never leaves the
  -- buckets and leaves a valid set: the values in the window, with the observed one last and one that is new
  -- in the place of the least recently seen one at the cap, and the count of them.
  pub dset_observe-observed :
      (s : Dset W) (val : Bytes) (ts window_start : W) (cap : ℕ) (stats : CorrStats)
      → IsDset s
      → cap ≤ max_nodes
      → (s' : Dset W) × (stats' : CorrStats) × (dset_observe s val ts window_start cap stats
          ≡ some (s', length (observed val ts window_start cap (entries s.lru)), stats'))
        × IsDset s'
        × (entries s'.lru ≡ observed val ts window_start cap (entries s.lru))
  unfolding dset_observe observed
  dset_observe-observed s val ts window_start cap stats (w, h) fits =
      let stale = λ (t : W). d.lt t window_start in
      let (s1, r1, w1, l1) = drop_stale-fresh (eq_from true) eq_from-IsSame stale s w in
      let q = ap entries l1 ∙ entries-fresh stale s.lru in
      let (hit, s2, ev, r2, r3, (w2, h2), l2) =
        dset_place-observed s1 val ts cap (has_key (eq_from true) val (entries s1.lru))
          (w1, subst (Hashed fnv1a) (sym l1) (Hashed-fresh fnv1a stale s.lru h)) fits refl in
      let spec =
        subst
          (λ f.
            entries s2.lru
            ≡ (if has_key (eq_from true) val f
                then forget (eq_from true) val f
                else oldest_out cap f)
              ++ ((val, ts) ∷ []))
          q l2 in
      let n = w2.counted ∙ sym (length-entries s2.lru) ∙ ap length spec in
      let stats2 : CorrStats =
        if ev then record stats { distinct_evicted = inc stats.distinct_evicted } else stats in
      (s2, stats2, rw (r1, r2, r3) (ap (λ k. some (s2, k, stats2)) n), (w2, h2), spec)

  -- With a positive cap, an observation keeps the number of values within it.
  pub observed_le :
      (val : Bytes) (ts window_start : W) (cap : ℕ) (l : List (Bytes × W))
      → 0 < cap
      → length l ≤ cap
      → length (observed val ts window_start cap l) ≤ cap
  unfolding observed
  observed_le val ts window_start cap l p h =
      let f = kept (λ t. d.lt t window_start) l in
      let q = kept_le (λ t. d.lt t window_start) l in
      elim (Bool-cases (has_key (eq_from true) val f)) [
        | inl e ↦ rw e (
            omega (
              arith,
              length-append (forget (eq_from true) val f) ((val, ts) ∷ []),
              forget_lt (eq_from true) val f e,
            ))
        | inr e ↦ rw e (
            omega (
              arith,
              length-append (oldest_out cap f) ((val, ts) ∷ []),
              oldest_out_lt cap f p (omega arith),
            ))
      ]

  -- With a positive cap of at most three quarters of 2^30, an observation of a valid set within the cap
  -- leaves at most that many values, and its result is their number.
  pub dset_observe-bounded :
      (s : Dset W) (val : Bytes) (ts window_start : W) (cap : ℕ) (stats : CorrStats)
      → IsDset s
      → 0 < cap
      → cap ≤ max_nodes
      → s.count ≤ cap
      → (s' : Dset W) × (stats' : CorrStats) × (dset_observe s val ts window_start cap stats
          ≡ some (s', s'.count, stats'))
        × (s'.count ≤ cap)
  dset_observe-bounded s val ts window_start cap stats (w, h) p fits q =
      let (s', stats', e, (w', h'), l) =
        dset_observe-observed s val ts window_start cap stats (w, h) fits in
      let n : length (observed val ts window_start cap (entries s.lru)) ≡ s'.count =
        sym (ap length l) ∙ length-entries s'.lru ∙ sym w'.counted in
      let b =
        observed_le val ts window_start cap (entries s.lru) p
          (omega (arith, length-entries s.lru, w.counted)) in
      (s', stats', e ∙ ap (λ k. some (s', k, stats')) n, omega (arith, n, b))
