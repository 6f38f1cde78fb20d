-- ===== src/Corr/Ring/Window.antt =====
-- The ring of event times (src/classify_corr.c) as the list of its live entries, the oldest first: what a
-- write, a step of the head and the loop of `ev_prune` do to the list.
use libsigma.Base.{
  ℕ, zero, suc, ◌+◌, ◌-◌, ◌*◌, ◌%◌, ◌≤◌, ◌<◌, ◌≡◌, ◌≢◌, refl, sym, ap, ap₂, ◌∙◌, subst, inl, inr,
  Option, some, ◌>>=◌, List, [], ◌∷◌, ◌++◌, length, get_elem?, get_elem?_of_lt, get_elem?-set_ne,
  set, drop, if◌then◌else◌, Bool-cases, Option-cases, dec_lt, arith,
}
use native.Mathlib.Nat.{mod-lt, mod-eq_of_lt, mod-eq-sub-mod, mod-add-mod}
use mathlib.Core.Option.{some-injective}
use libsigma.Corr.Float.{Double}
use libsigma.Corr.Group.{Group}
use libsigma.Corr.Ring.{ring_index, live_entries, prune_loop}

-- The `n` entries of a ring from index `i` of the window on.
unfoldable pub live : {A : Type 0} → List A → ℕ → ℕ → ℕ → ℕ → Option (List A)
live ring cap head i zero = some []
live ring cap head i (suc n) = do
  v ← get_elem? ring ((head + i) % cap)
  vs ← live ring cap head (suc i) n
  some (v ∷ vs)

-- No sum of the head and an index wraps in a ring of 2^31 entries at most.
pub ring_index_lem :
    (size head i : ℕ)
    → head < size
    → i ≤ size
    → size ≤ 2147483648
    → ring_index size head i ≡ (head + i) % size
unfolding ring_index
ring_index_lem size head i p q r = ap (λ k. k % size) (mod-eq_of_lt (omega arith))

pub live_entries-live :
    {A : Type 0} (ring : List A) (size head i n : ℕ)
    → head < size
    → i + n ≤ size
    → size ≤ 2147483648
    → live_entries ring size head i n ≡ live ring size head i n
unfolding live_entries live
live_entries-live ring size head i zero p q r = refl
live_entries-live {A} ring size head i (suc n) p q r =
    ap₂ (λ (o : Option A) (r : Option (List A)). o >>= (λ v. r >>= (λ vs. some (v ∷ vs))))
      (ap (get_elem? ring) (ring_index_lem size head i p (omega arith) r))
      (live_entries-live ring size head (suc i) n p (omega arith) r)

-- A sum below twice the size of the ring.
pub mod_wrap :
    (a size : ℕ) → a < size * 2 → (a < size → a % size ≡ a) × (size ≤ a → a % size ≡ a - size)
mod_wrap a size h = (λ p. mod-eq_of_lt p, λ p. mod-eq-sub-mod p ∙ mod-eq_of_lt (omega arith))

-- The head moves on by `m`.
pub mod_next : (head m i size : ℕ) → ((head + m) % size + i) % size ≡ (head + (m + i)) % size
mod_next head m i size = mod-add-mod (head + m) size i ∙ ap (λ k. k % size) (omega arith)

-- Two places of the window, fewer than the size apart, are two places of the ring.
pub mod_apart :
    (head i j size : ℕ)
    → head < size
    → i < j
    → j < size + i
    → j ≤ size
    → (head + i) % size ≢ (head + j) % size
mod_apart head i j size p q r s e =
    let (a, b) = mod_wrap (head + i) size (omega arith) in
    let (c, f) = mod_wrap (head + j) size (omega arith) in
    elim (dec_lt (head + i) size) [
      | yes u ↦ elim (dec_lt (head + j) size) [
        | yes v ↦ absurd (omega (arith, a u, c v))
        | no v ↦ absurd (omega (arith, a u, f (omega arith)))
      ]
      | no u ↦ absurd (omega (arith, b (omega arith), f (omega arith)))
    ]

the_sum : (i n : ℕ) → i + suc n ≡ suc i + n
the_sum i n = omega arith

module _ {A : Type 0} where
  -- A ring read from a head further on.
  pub live-next :
      (ring : List A) (size head m i n : ℕ)
      → live ring size ((head + m) % size) i n ≡ live ring size head (m + i) n
  unfolding live
  live-next ring size head m i zero = refl
  live-next ring size head m i (suc n) =
      ap₂ (λ (o : Option A) (r : Option (List A)). o >>= (λ v. r >>= (λ vs. some (v ∷ vs))))
        (ap (get_elem? ring) (mod_next head m i size))
        (live-next ring size head m (suc i) n ∙ ap (λ k. live ring size head k n) (omega arith))

  pub live_total :
      (ring : List A) (size head i n : ℕ)
      → 0 < size
      → size ≡ length ring
      → (xs : List A) × (live ring size head i n ≡ some xs) × (length xs ≡ n)
  unfolding live
  live_total ring size head i zero p q = ([], refl, refl)
  live_total ring size head i (suc n) p q =
      let (v, e) = get_elem?_of_lt ring ((head + i) % size) (omega arith) in
      let (vs, f, l) = live_total ring size head (suc i) n p q in (v ∷ vs, rw (e, f) refl, ap suc l)

  -- A write outside the window.
  pub live-set :
      (ring : List A) (size head i n j : ℕ) (v : A)
      → ((q : ℕ) → i ≤ q → q < i + n → j ≢ (head + q) % size)
      → live (set ring j v) size head i n ≡ live ring size head i n
  unfolding live
  live-set ring size head i zero j v h = refl
  live-set ring size head i (suc n) j v h =
      ap₂ (λ (o : Option A) (r : Option (List A)). o >>= (λ v. r >>= (λ vs. some (v ∷ vs))))
        (get_elem?-set_ne ring j ((head + i) % size) v (h i (omega arith) (omega arith)))
        (live-set ring size head (suc i) n j v (λ q a b. h q (omega arith) (omega arith)))

  pub live-uncons :
      (ring : List A) (size head i n : ℕ) (xs : List A)
      → live ring size head i (suc n) ≡ some xs
      → (u : A) × (us : List A) × (get_elem? ring ((head + i) % size) ≡ some u)
        × (live ring size head (suc i) n ≡ some us)
        × (xs ≡ u ∷ us)
  unfolding live
  live-uncons ring size head i n xs e = elim (Option-cases (get_elem? ring ((head + i) % size))) [
    | inl z ↦ absurd (ground (arith, rw z at e))
    | inr (u, z) ↦ elim (Option-cases (live ring size head (suc i) n)) [
      | inl y ↦ absurd (ground (arith, rw (z, y) at e))
      | inr (us, y) ↦ (u, us, z, y, sym (some-injective (u ∷ us) xs (rw (z, y) at e)))
    ]
  ]

  -- One more entry at the end of the window.
  pub live-snoc :
      (ring : List A) (size head i n : ℕ) (xs : List A) (v : A)
      → live ring size head i n ≡ some xs
      → get_elem? ring ((head + (i + n)) % size) ≡ some v
      → live ring size head i (suc n) ≡ some (xs ++ (v ∷ []))
  unfolding live
  live-snoc ring size head i zero xs v e g =
      let q : i + 0 ≡ i = omega arith in
      rw (subst (λ k. get_elem? ring ((head + k) % size) ≡ some v) q g)
        (ap (λ ys. some (ys ++ (v ∷ []))) (some-injective [] xs e))
  live-snoc ring size head i (suc n) xs v e g =
      let (u, us, z, y, c) = live-uncons ring size head i n xs e in
      rw
        (
          z,
          live-snoc ring size head (suc i) n us v y
              (subst (λ k. get_elem? ring ((head + k) % size) ≡ some v) (the_sum i n) g),
        )
        (ap (λ ys. some (ys ++ (v ∷ []))) (sym c))

  -- The window without its first `m` entries.
  pub live-drop :
      (ring : List A) (size head i n m : ℕ) (xs : List A)
      → m ≤ n
      → live ring size head i n ≡ some xs
      → live ring size head (m + i) (n - m) ≡ some (drop m xs)
  unfolding live
  live-drop ring size head i n zero xs h e =
      let p : 0 + i ≡ i = omega arith in
      let q : n - 0 ≡ n = omega arith in ap₂ (λ a b. live ring size head a b) p q ∙ e
  live-drop ring size head i zero (suc m) xs h e = absurd (omega arith)
  live-drop ring size head i (suc n) (suc m) xs h e =
      let (u, us, z, y, c) = live-uncons ring size head i n xs e in
      let p : suc m + i ≡ m + suc i = omega arith in
      let q : suc n - suc m ≡ n - m = omega arith in
      ap₂ (λ a b. live ring size head a b) p q
      ∙ live-drop ring size head (suc i) n m us (omega arith) y
      ∙ ap (λ ys. some (drop (suc m) ys)) (sym c)

-- The entries from the first one on that is not older than the window.
unfoldable pub in_window : {W : Type 0} ⦃d : Double W⦄ → W → List W → List W
in_window window_start [] = []
in_window ⦃d⦄ window_start (t ∷ xs) =
    let rest = in_window window_start xs in if d.lt t window_start then rest else t ∷ xs

-- A ring whose head and length are within its size.
pub record IsRing {A : Type 0} (ring : List A) (size head len : ℕ) : Type 0 where
  pub sized : length ring ≡ size
  pub positive : 0 < size
  pub head_in : head < size
  pub len_in : len ≤ size

module _ {W : Type 0} ⦃d : Double W⦄ where
  abbrev pub behind : Group W → ℕ → Group W
  behind g m = record g { ev_head = (g.ev_head + m) % g.ev_cap; ev_len = g.ev_len - m }

  abbrev behind_at : Group W → ℕ → ℕ → Group W
  behind_at g head len = record g { ev_head = head; ev_len = len }

  behind-zero : (g : Group W) → g.ev_head < g.ev_cap → behind g 0 ≡ g
  behind-zero g q =
      let p : g.ev_head + 0 ≡ g.ev_head = omega arith in
      ap₂ (behind_at g) (ap (λ k. k % g.ev_cap) p ∙ mod-eq_of_lt q) (omega arith)

  behind-next : (g : Group W) (m : ℕ) → behind (behind g 1) m ≡ behind g (suc m)
  behind-next g m =
      ap₂ (behind_at g)
        (mod_next g.ev_head 1 m g.ev_cap ∙ ap (λ k. (g.ev_head + k) % g.ev_cap) (omega arith))
        (omega arith)

  pub prune_loop-behind :
      (k : ℕ) (window_start : W) (g : Group W) (xs : List W)
      → k ≡ g.ev_len
      → g.ev_head < g.ev_cap
      → live g.ev_ts g.ev_cap g.ev_head 0 k ≡ some xs
      → (m : ℕ) × (m ≤ k)
        × (prune_loop k window_start g ≡ some (behind g m))
        × (drop m xs ≡ in_window window_start xs)
  unfolding prune_loop live in_window
  prune_loop-behind zero window_start g xs p q e = (
    0,
    omega arith,
    ap some (sym (behind-zero g q)),
    subst (λ ys. ys ≡ in_window window_start ys) (some-injective [] xs e) refl,
  )
  prune_loop-behind (suc k) window_start g xs p q e =
      let (u, us, a, b, c) = live-uncons g.ev_ts g.ev_cap g.ev_head 0 k xs e in
      let z : g.ev_head + 0 ≡ g.ev_head = omega arith in
      let h =
        subst (λ j. get_elem? g.ev_ts j ≡ some u) (ap (λ k. k % g.ev_cap) z ∙ mod-eq_of_lt q) a in
      elim (Bool-cases (d.lt u window_start)) [
        | inl t ↦
            let one : 1 + 0 ≡ 1 = omega arith in
            let (m, le, r, f) =
              prune_loop-behind k window_start (behind g 1) us (omega arith)
                (mod-lt (g.ev_head + 1) (omega arith))
                (live-next g.ev_ts g.ev_cap g.ev_head 1 0 k
                  ∙ ap (λ i. live g.ev_ts g.ev_cap g.ev_head i k) one
                  ∙ b) in
            (
              suc m,
              omega arith,
              rw (h, t) (r ∙ ap some (behind-next g m)),
              subst (λ ys. drop (suc m) ys ≡ in_window window_start ys) (sym c) (rw t f),
            )
        | inr t ↦ (
          0,
          omega arith,
          rw (h, t) (ap some (sym (behind-zero g q))),
          subst (λ ys. drop 0 ys ≡ in_window window_start ys) (sym c) (rw t refl),
        )
      ]
