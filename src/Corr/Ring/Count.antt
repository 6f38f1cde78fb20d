-- ===== src/Corr/Ring/Count.antt =====
-- `eval_event_count` of src/classify_corr.c against the list of the times in the window.
use libsigma.Base.{
  ℕ, zero, suc, ◌+◌, ◌-◌, ◌%◌, ◌≤◌, ◌<◌, ◌≡◌, ◌≢◌, refl, sym, ap, ap₂, ◌∙◌, subst, inl, inr, Option,
  some, List, [], ◌∷◌, ◌++◌, length, length-set, get_elem?, get_elem?_of_lt, get_elem?-set_self,
  set, drop, lt→ltb, ◌==◌, ==_iff, if◌then◌else◌, Bool-cases, arith,
}
use native.Mathlib.Nat.{mod-lt, mod-eq_of_lt}
use mathlib.Core.Option.{some-injective}
use libsigma.Base.Int.{pos}
use libsigma.Corr.{CorrRule, CorrStats, cmp_threshold}
use libsigma.Corr.Float.{Double}
use libsigma.Corr.Group.{Group}
use libsigma.Corr.Ring.{ring_index, ev_prune, put, is_hot, overwritten, ev_append, eval_event_count}
use libsigma.Corr.Ring.Window.{
  live, ring_index_lem, mod_wrap, mod_next, mod_apart, live-next, live-set, live-snoc, live-uncons,
  live-drop, in_window, IsRing, behind, prune_loop-behind,
}

-- The list with a new entry, where it holds `size` entries at most.
unfoldable pub pushed : {A : Type 0} → ℕ → List A → A → List A
pushed size xs v = (if length xs == size then drop 1 xs else xs) ++ (v ∷ [])

module _ {A : Type 0} where
  pub length-live :
      (ring : List A) (size head i n : ℕ) (xs : List A)
      → live ring size head i n ≡ some xs
      → length xs ≡ n
  unfolding live
  length-live ring size head i zero xs e = sym (ap length (some-injective [] xs e))
  length-live ring size head i (suc n) xs e =
      let (u, us, z, y, c) = live-uncons ring size head i n xs e in
      ap length c ∙ ap suc (length-live ring size head (suc i) n us y)

  pushed-full :
      (size : ℕ) (xs : List A) (v : A) → length xs ≡ size → pushed size xs v ≡ drop 1 xs ++ (v ∷ [])
  unfolding pushed
  pushed-full size xs v p = rw ((==_iff (length xs) size).1 p) refl

  pushed-room :
      (size : ℕ) (xs : List A) (v : A) → length xs ≢ size → pushed size xs v ≡ xs ++ (v ∷ [])
  unfolding pushed
  pushed-room size xs v p = elim (Bool-cases (length xs == size)) [
    | inl t ↦ absurd (p ((==_iff (length xs) size).0 t))
    | inr t ↦ rw t refl
  ]

  -- A full ring: the new entry goes over the oldest one.
  pub write_full :
      (ring : List A) (size head : ℕ) (v : A) (xs : List A)
      → IsRing ring size head size
      → live ring size head 0 size ≡ some xs
      → live (set ring head v) size ((head + 1) % size) 0 size ≡ some (pushed size xs v)
  write_full ring zero head v xs w e = absurd (ground (arith, w.positive))
  write_full ring (suc k) head v xs w e =
      let size = suc k in
      let (u, us, a, b, c) = live-uncons ring size head 0 k xs e in
      let one : 1 + 0 ≡ 1 = omega arith in
      let z : head + 0 ≡ head = omega arith in
      let here : (head + 0) % size ≡ head = ap (λ j. j % size) z ∙ mod-eq_of_lt w.head_in in
      let whole : (head + size) % size ≡ head =
        (mod_wrap (head + size) size (omega (arith, w.head_in))).1 (omega arith) ∙ omega arith in
      let last : 1 + (0 + k) ≡ size = omega arith in
      let rest : live (set ring head v) size ((head + 1) % size) 0 k ≡ some us =
        live-next (set ring head v) size head 1 0 k
        ∙ ap (λ i. live (set ring head v) size head i k) one
        ∙ live-set ring size head 1 k head v (λ q p r t.
          mod_apart head 0 q size w.head_in (omega arith) (omega arith) (omega arith) (here ∙ t))
        ∙ b in
      let at_end =
        ap (get_elem? (set ring head v))
          (mod_next head 1 (0 + k) size ∙ ap (λ j. (head + j) % size) last ∙ whole)
        ∙ get_elem?-set_self ring head v (omega (arith, w.sized, w.head_in)) in
      live-snoc (set ring head v) size ((head + 1) % size) 0 k us v rest at_end
      ∙ ap (λ ys. some (drop 1 ys ++ (v ∷ []))) (sym c)
      ∙ ap some (sym (pushed-full size xs v (length-live ring size head 0 size xs e)))

  -- A ring with room: the new entry goes after the newest one.
  pub write_room :
      (ring : List A) (size head len : ℕ) (v : A) (xs : List A)
      → IsRing ring size head len
      → len < size
      → live ring size head 0 len ≡ some xs
      → live (set ring ((head + len) % size) v) size head 0 (suc len) ≡ some (pushed size xs v)
  write_room ring size head len v xs w h e =
      let tail = (head + len) % size in
      let n = length-live ring size head 0 len xs e in
      let p : 0 + len ≡ len = omega arith in
      live-snoc (set ring tail v) size head 0 len xs v
        (live-set ring size head 0 len tail v (λ q a b t.
            mod_apart head q len size w.head_in (omega arith) (omega arith) (omega arith) (sym t))
          ∙ e)
        (ap (λ j. get_elem? (set ring tail v) ((head + j) % size)) p
          ∙ get_elem?-set_self ring tail v (omega (arith, w.sized, mod-lt (head + len) w.positive)))
      ∙ ap some (sym (pushed-room size xs v (λ q. absurd (omega arith))))

pub put-in :
    {A : Type 0} (xs : List A) (i : ℕ) (v : A) → i < length xs → put xs i v ≡ some (set xs i v)
unfolding put
put-in xs i v h = rw (lt→ltb i (length xs) h) refl

-- The ring of a group's times.
abbrev pub IsTimes : {W : Type 0} → Group W → Type 0
IsTimes g = IsRing g.ev_ts g.ev_cap g.ev_head g.ev_len

abbrev pub times : {W : Type 0} → Group W → Option (List W)
times g = live g.ev_ts g.ev_cap g.ev_head 0 g.ev_len

module _ {W : Type 0} ⦃d : Double W⦄ where
  -- The group with a new time.
  abbrev pub stamped : Group W → W → Group W
  stamped g now =
      if g.ev_len == g.ev_cap
      then record g { ev_ts = set g.ev_ts g.ev_head now; ev_head = (g.ev_head + 1) % g.ev_cap }
      else record g {
        ev_ts = set g.ev_ts ((g.ev_head + g.ev_len) % g.ev_cap) now;
        ev_len = g.ev_len + 1;
      }

  -- The place of the next entry is in the array, with the wrap of `uint32_t`.
  pub put-tail :
      (g : Group W) (now : W)
      → IsTimes g
      → g.ev_cap ≤ 2147483648
      → put g.ev_ts (ring_index g.ev_cap g.ev_head g.ev_len) now
        ≡ some (set g.ev_ts ((g.ev_head + g.ev_len) % g.ev_cap) now)
  put-tail g now w fits =
      ap (λ i. put g.ev_ts i now)
        (ring_index_lem g.ev_cap g.ev_head g.ev_len w.head_in w.len_in fits)
      ∙ put-in g.ev_ts ((g.ev_head + g.ev_len) % g.ev_cap) now
          (omega (arith, w.sized, mod-lt (g.ev_head + g.ev_len) w.positive))

  pub ev_append-stamped :
      (g : Group W) (now window_start : W) (stats : CorrStats)
      → IsTimes g
      → g.ev_cap ≤ 2147483648
      → (stats' : CorrStats) × (ev_append g now window_start stats ≡ some (stamped g now, stats'))
  unfolding ev_append
  ev_append-stamped g now window_start stats w fits = elim (Bool-cases (g.ev_len == g.ev_cap)) [
    | inl t ↦
        let (oldest, e) = get_elem?_of_lt g.ev_ts g.ev_head (omega (arith, w.sized, w.head_in)) in
        (
          overwritten (is_hot oldest now window_start) stats,
          rw (t, e, put-in g.ev_ts g.ev_head now (omega (arith, w.sized, w.head_in))) refl,
        )
    | inr t ↦ (stats, rw (t, put-tail g now w fits) refl)
  ]

  pub times-stamped :
      (g : Group W) (now : W) (xs : List W)
      → IsTimes g
      → times g ≡ some xs
      → IsTimes (stamped g now) × (times (stamped g now) ≡ some (pushed g.ev_cap xs now))
  times-stamped g now xs w e = elim (Bool-cases (g.ev_len == g.ev_cap)) [
    | inl t ↦
        let q = (==_iff g.ev_len g.ev_cap).0 t in
        let w' = subst (λ n. IsRing g.ev_ts g.ev_cap g.ev_head n) q w in
        let e' = subst (λ n. live g.ev_ts g.ev_cap g.ev_head 0 n ≡ some xs) q e in
        rw t (
          record {
            sized = length-set g.ev_ts g.ev_head now ∙ w.sized;
            positive = w.positive;
            head_in = mod-lt (g.ev_head + 1) w.positive;
            len_in = w.len_in;
          },
          ap (live (set g.ev_ts g.ev_head now) g.ev_cap ((g.ev_head + 1) % g.ev_cap) 0) q
              ∙ write_full g.ev_ts g.ev_cap g.ev_head now xs w' e',
        )
    | inr t ↦
        let lt : g.ev_len < g.ev_cap = ground (arith, t, w.len_in) in
        let tail = (g.ev_head + g.ev_len) % g.ev_cap in
        let q : g.ev_len + 1 ≡ suc g.ev_len = omega arith in
        rw t (
          record {
            sized = length-set g.ev_ts tail now ∙ w.sized;
            positive = w.positive;
            head_in = w.head_in;
            len_in = omega arith;
          },
          ap (live (set g.ev_ts tail now) g.ev_cap g.ev_head 0) q
              ∙ write_room g.ev_ts g.ev_cap g.ev_head g.ev_len now xs w lt e,
        )
  ]

  -- The aged window: the entries that are not older than its start, from the first such one on.
  pub ev_prune-in_window :
      (g : Group W) (window_start : W) (xs : List W)
      → IsTimes g
      → times g ≡ some xs
      → (m : ℕ) × (m ≤ g.ev_len)
        × (ev_prune g window_start ≡ some (behind g m))
        × IsTimes (behind g m)
        × (times (behind g m) ≡ some (in_window window_start xs))
  unfolding ev_prune
  ev_prune-in_window g window_start xs w e =
      let (m, le, r, f) = prune_loop-behind g.ev_len window_start g xs refl w.head_in e in
      (
        m,
        le,
        r,
        record {
          sized = w.sized;
          positive = w.positive;
          head_in = mod-lt (g.ev_head + m) w.positive;
          len_in = omega (arith, w.len_in);
        },
        live-next g.ev_ts g.ev_cap g.ev_head m 0 (g.ev_len - m)
            ∙ live-drop g.ev_ts g.ev_cap g.ev_head 0 g.ev_len m xs le e
            ∙ ap some f,
      )

  merge_n-stamped : (g : Group W) (now : W) → (stamped g now).merge_n ≡ g.merge_n
  merge_n-stamped g now = elim (Bool-cases (g.ev_len == g.ev_cap)) [
    | inl t ↦ rw t refl
    | inr t ↦ rw t refl
  ]

  -- On a ring within its array, of 2^31 entries at most, whose live times are `xs`, an event never leaves the
  -- array: it is appended, the oldest one giving way in a full ring, the window is aged, and the correlation
  -- fires by the number of times that are left and what peers have counted.
  pub eval_event_count-window :
      (r : CorrRule) (g : Group W) (now window_start : W) (stats : CorrStats) (xs : List W)
      → IsTimes g
      → g.ev_cap ≤ 2147483648
      → times g ≡ some xs
      → (g' : Group W) × (stats' : CorrStats) × (eval_event_count r g now window_start stats
          ≡ some (
            g',
            stats',
            cmp_threshold
                (pos (length (in_window window_start (pushed g.ev_cap xs now)) + g.merge_n))
                r.cond_op
                r.cond_count,
          ))
        × IsTimes g'
        × (times g' ≡ some (in_window window_start (pushed g.ev_cap xs now)))
  unfolding eval_event_count
  eval_event_count-window r g now window_start stats xs w fits e =
      let (stats', p) = ev_append-stamped g now window_start stats w fits in
      let (w1, e1) = times-stamped g now xs w e in
      let (m, le, q, w2, e2) =
        ev_prune-in_window (stamped g now) window_start (pushed g.ev_cap xs now) w1 e1 in
      let g2 = behind (stamped g now) m in
      let n : length (in_window window_start (pushed g.ev_cap xs now)) ≡ g2.ev_len =
        length-live g2.ev_ts g2.ev_cap g2.ev_head 0 g2.ev_len _ e2 in
      (
        g2,
        stats',
        rw (p, q)
            (ap₂ (λ a b. some (g2, stats', cmp_threshold (pos (a + b)) r.cond_op r.cond_count))
              (sym n) (merge_n-stamped g now)),
        w2,
        e2,
      )
