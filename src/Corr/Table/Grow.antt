-- ===== src/Corr/Table/Grow.antt =====
-- The growth of the buckets (src/classify_corr.c, `dset_grow` and `cstate_grow`): every node comes into
-- the chain of its hash among twice as many buckets.
use libsigma.Base.{
  ℕ, zero, suc, ◌+◌, ◌*◌, ◌/◌, ◌%◌, ◌^◌, ◌≤◌, ◌<◌, ◌≡◌, ◌≢◌, ◌⊎◌, refl, sym, ap, ◌∙◌, inl, inr,
  Bool, some, List, [], ◌∷◌, length, length-set, length-replicate, get_elem?, get_elem?_of_lt, set,
  replicate, ltb, ltb→lt, Bool-cases, ℕ_discrete, arith,
}
use mathlib.Core.Option.{some-injective}
use libsigma.Corr.Table.{
  Node, Table, n_buckets, table_init, move_chain, move_all, table_grow, grow_if_full,
}
use libsigma.Corr.Table.Size.{max_nodes, IsSized-start, IsSized-grown, IsSized-other}
use libsigma.Corr.Table.Chains.{IsSame, occ-append, occ, occ-nil, occ-cons_other, same_node_of_ne}
use libsigma.Corr.Table.Valid.{IsPlaced, IsTable, IsPlaced-set, keys}

module _ {K : Type 0} (same : K → K → Bool) where
  -- How often a node is in the chains together.
  unfoldable pub total : Node K → List (List (Node K)) → ℕ
  total n [] = 0
  total n (c ∷ cs) = occ same n c + total n cs

module _ {K : Type 0} (same : K → K → Bool) (is_same : IsSame same) where
  occ-one :
      (e n : Node K) (c : List (Node K)) → occ same n (e ∷ c) ≡ occ same n (e ∷ []) + occ same n c
  occ-one e n c = occ-append same is_same n (e ∷ []) c

  occ-one_of_ne : (e n : Node K) → e ≢ n → occ same n (e ∷ []) ≡ 0
  occ-one_of_ne e n h =
      occ-cons_other same n e [] (same_node_of_ne same is_same e n h) ∙ occ-nil same n

  move_one :
      (e : Node K) (bs : List (List (Node K))) (f : Node K → ℕ) (c : List (Node K))
      → IsPlaced same (length bs) bs f
      → get_elem? bs (e.h % length bs) ≡ some c
      → IsPlaced same
          (length (set bs (e.h % length bs) (e ∷ c)))
          (set bs (e.h % length bs) (e ∷ c))
          (λ n. occ same n (e ∷ []) + f n)
  move_one e bs f c w g =
      IsPlaced-set same bs f (λ n. occ same n (e ∷ []) + f n) (e.h % length bs) c (e ∷ c) w g
        (λ m p. occ-one e m c ∙ ap (λ k. occ same m (e ∷ []) + k) ((w (e.h % length bs) c g m).0 p))
        (λ m p.
          let z = occ-one_of_ne e m (λ u. p (ap (λ y. y.h % length bs) u)) in
          (omega (arith, occ-one e m c, (w (e.h % length bs) c g m).1 p), omega arith))

  move_chain-IsPlaced :
      (es : List (Node K)) (bs : List (List (Node K))) (f : Node K → ℕ)
      → 0 < length bs
      → IsPlaced same (length bs) bs f
      → (nb : List (List (Node K))) × (move_chain es bs ≡ some nb)
        × (length nb ≡ length bs)
        × IsPlaced same (length nb) nb (λ n. occ same n es + f n)
  unfolding move_chain
  move_chain-IsPlaced [] bs f p w = (
    bs,
    refl,
    refl,
    λ i c g n. let (a, b) = w i c g n in (λ q. omega (arith, a q, occ-nil same n), b),
  )
  move_chain-IsPlaced (e ∷ es) bs f p w =
      let (c, g) = get_elem?_of_lt bs (e.h % length bs) (omega arith) in
      let len = length-set bs (e.h % length bs) (e ∷ c) in
      let (nb, r, l, v) =
        move_chain-IsPlaced es (set bs (e.h % length bs) (e ∷ c)) (λ n. occ same n (e ∷ []) + f n)
          (omega arith) (move_one e bs f c w g) in
      (
        nb,
        rw g r,
        l ∙ len,
        λ i x y n. let (a, b) = v i x y n in (λ q. omega (arith, a q, occ-one e n es), b),
      )

  move_all-IsPlaced :
      (cs bs : List (List (Node K))) (f : Node K → ℕ)
      → 0 < length bs
      → IsPlaced same (length bs) bs f
      → (nb : List (List (Node K))) × (move_all cs bs ≡ some nb)
        × (length nb ≡ length bs)
        × IsPlaced same (length nb) nb (λ n. total same n cs + f n)
  unfolding move_all total
  move_all-IsPlaced [] bs f p w =
      (bs, refl, refl, λ i c g n. let (a, b) = w i c g n in (λ q. omega (arith, a q), b))
  move_all-IsPlaced (c ∷ cs) bs f p w =
      let (nb, r, l, v) = move_chain-IsPlaced c bs f p w in
      let (nb2, r2, l2, v2) = move_all-IsPlaced cs nb (λ n. occ same n c + f n) (omega arith) v in
      (nb2, rw r r2, l2 ∙ l, λ i x y n. let (a, b) = v2 i x y n in (λ q. omega (arith, a q), b))

  -- Buckets `k` and on, of which number `j` has the node `n`, `v` times.
  total_from :
      (n : Node K) (v j : ℕ) (cs : List (List (Node K))) (k : ℕ)
      → ((i : ℕ) (c : List (Node K))
          → get_elem? cs i ≡ some c
          → (k + i ≡ j → occ same n c ≡ v) × (k + i ≢ j → occ same n c ≡ 0))
      → ((j < k) ⊎ (k + length cs ≤ j) → total same n cs ≡ 0)
        × (k ≤ j → j < k + length cs → total same n cs ≡ v)
  unfolding total
  total_from n v j [] k w = (λ _. refl, λ p q. absurd (omega arith))
  total_from n v j (c ∷ cs) k w =
      let (out, into) = total_from n v j cs (suc k) (λ i x g.
        let (a, b) = w (suc i) x g in (λ p. a (omega arith), λ p. b (λ q. p (omega arith)))) in
      let (a, b) = w 0 c refl in
      (
        λ p. elim p [
          | inl q ↦ omega (arith, b (λ r. absurd (omega arith)), out (inl (omega arith)))
          | inr q ↦ omega (arith, b (λ r. absurd (omega arith)), out (inr (omega arith)))
        ],
        λ p q. elim (ℕ_discrete k j) [
          | yes t ↦ omega (arith, a (omega arith), out (inl (omega arith)))
          | no t ↦ omega (arith, b (λ r. t (omega arith)), into (ground arith) (omega arith))
        ],
      )

  replicate-occ :
      (k i : ℕ) (c : List (Node K))
      → get_elem? (replicate k []) i ≡ some c
      → (n : Node K) → occ same n c ≡ 0
  replicate-occ zero i c g n = absurd (ground (arith, g))
  replicate-occ (suc k) zero c g n = ap (occ same n) (sym (some-injective [] c g)) ∙ occ-nil same n
  replicate-occ (suc k) (suc i) c g n = replicate-occ k i c g n

  replicate-IsPlaced : (size k : ℕ) → IsPlaced same size (replicate k []) (λ n. 0)
  replicate-IsPlaced size k i c g n = (λ _. replicate-occ k i c g n, λ _. replicate-occ k i c g n)

module _ {K V : Type 0} (same : K → K → Bool) (is_same : IsSame same) where
  pub table_init-IsTable : IsTable same {V = V} table_init
  unfolding table_init
  table_init-IsTable = record {
    nonempty = omega arith;
    placed = λ i c g n.
        let (a, b) = replicate-IsPlaced same is_same 16 16 i c g n in
        (λ q. a q ∙ sym (occ-nil same n), b);
    once = λ n. omega (arith, occ-nil same n);
    counted = refl;
    sized = IsSized-start;
  }

  -- The nodes are all in their chains again.
  pub table_grow-IsTable :
      (t : Table K V)
      → IsTable same t
      → t.count + 1 ≤ max_nodes
      → n_buckets t * 3 % 2 ^ 32 / 4 < (t.count + 1) % 2 ^ 32
      → (t' : Table K V) × (table_grow t ≡ some t') × IsTable same t' × (t'.lru ≡ t.lru)
  unfolding table_grow
  table_grow-IsTable t w room h =
      let (fit, grown) = IsSized-grown (length t.buckets) t.count w.sized room h in
      let size = length t.buckets * 2 % 2 ^ 32 in
      let p = w.nonempty in
      let len = length-replicate {A = List (Node K)} size [] in
      let (nb, r, l, v) =
        move_all-IsPlaced same is_same t.buckets (replicate size []) (λ n. 0) (omega arith)
          (replicate-IsPlaced same is_same (length (replicate {A = List (Node K)} size [])) size) in
      let whole = λ (n : Node K).
        (total_from same is_same n (occ same n (keys t.lru)) (n.h % length t.buckets) t.buckets 0
            (λ i c g.
              let (a, b) = w.placed i c g n in
              (λ p. a (omega arith), λ q. b (λ x. q (omega arith))))).1
          (omega arith) (omega arith) in
      (
        record t { buckets = nb },
        rw r refl,
        record {
          nonempty = omega arith;
          placed = λ i c g n. let (a, b) = v i c g n in (λ q. omega (arith, a q, whole n), b);
          once = w.once;
          counted = w.counted;
          sized = IsSized-other _ _ _ _ (l ∙ len ∙ fit) w.sized.count_le grown;
        },
        refl,
      )

  pub grow_if_full-IsTable :
      (t : Table K V)
      → IsTable same t
      → t.count + 1 ≤ max_nodes
      → (t' : Table K V) × (grow_if_full t ≡ some t') × IsTable same t' × (t'.lru ≡ t.lru)
  unfolding grow_if_full
  grow_if_full-IsTable t w room =
      elim (Bool-cases (ltb (length t.buckets * 3 % 2 ^ 32 / 4) ((t.count + 1) % 2 ^ 32))) [
        | inl e ↦
            let (t', r, v, q) = table_grow-IsTable t w room (ltb→lt _ _ e) in (t', rw e r, v, q)
        | inr e ↦ (t, rw e refl, w, refl)
      ]
