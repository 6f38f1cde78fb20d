-- ===== src/Corr/Table/Valid.antt =====
-- The validity of the hash table with its list (src/classify_corr.c): a node is in one chain, that of its
-- hash, exactly where it is in the list, once. What lookups and removals do to it.
use libsigma.Base.{
  ℕ, suc, ◌-◌, ◌%◌, ◌≤◌, ◌<◌, ◌≡◌, ◌≢◌, refl, sym, ap, ◌∙◌, subst, inl, inr, Bool, none, some, List,
  [], ◌∷◌, ◌++◌, length, length-set, get_elem?, get_elem?_of_lt, get_elem?-set_self,
  get_elem?-set_ne, lt_of_get_elem?, set, Bool-cases, ℕ_discrete, arith,
}
use mathlib.Core.Option.{some-injective}
use libsigma.Corr.Table.{Node, Table, same_node, chain_remove, unlink_lru, table_remove, table_find}
use libsigma.Corr.Table.Size.{IsSized, IsSized-other}
use libsigma.Corr.Table.Chains.{
  IsSame, occ, node, occ-remove_ne, chain_find-none, chain_find-some, length-chain_remove,
  same_node_of_ne, occ-remove_cong, occ-remove_le,
}

-- The nodes of the list, in its order.
abbrev pub keys : {K V : Type 0} → List (Node K × V) → List (Node K)
keys [] = []
keys (e ∷ l) = e.0 ∷ keys l

module _ {K : Type 0} (same : K → K → Bool) where
  -- A bucket has the nodes of its hash, a node `n` of them `f n` times, and no others.
  abbrev pub IsPlaced : ℕ → List (List (Node K)) → (Node K → ℕ) → Type 0
  IsPlaced size bs f =
      (i : ℕ) (c : List (Node K))
      → get_elem? bs i ≡ some c
      → (n : Node K) → (i ≡ n.h % size → occ same n c ≡ f n) × (i ≢ n.h % size → occ same n c ≡ 0)

  pub record IsTable {V : Type 0} (t : Table K V) : Type 0 where
    pub nonempty : 0 < length t.buckets
    pub placed : IsPlaced (length t.buckets) t.buckets (λ n. occ same n (keys t.lru))
    pub once : (n : Node K) → occ same n (keys t.lru) ≤ 1
    pub counted : t.count ≡ length t.lru
    pub sized : IsSized (length t.buckets) t.count

  -- A change of one bucket, where it changes the counts as the list does.
  pub IsPlaced-set :
      (bs : List (List (Node K))) (f f' : Node K → ℕ) (j : ℕ) (c c' : List (Node K))
      → IsPlaced (length bs) bs f
      → get_elem? bs j ≡ some c
      → ((m : Node K) → j ≡ m.h % length bs → occ same m c' ≡ f' m)
      → ((m : Node K) → j ≢ m.h % length bs → (occ same m c' ≡ 0) × (f' m ≡ f m))
      → IsPlaced (length (set bs j c')) (set bs j c') f'
  IsPlaced-set bs f f' j c c' w e here there =
      subst (λ k. IsPlaced k (set bs j c') f') (sym (length-set bs j c'))
        λ i x g n. elim (ℕ_discrete i j) [
          | yes t ↦
              let q : c' ≡ x = some-injective c' x (
                sym (get_elem?-set_self bs j c' (lt_of_get_elem? bs j e))
                ∙ ap (λ k. get_elem? (set bs j c') k) (sym t)
                ∙ g) in
              (
                λ p. ap (occ same n) (sym q) ∙ here n (sym t ∙ p),
                λ p. ap (occ same n) (sym q) ∙ (there n (λ u. p (t ∙ u))).0,
              )
          | no t ↦
              let (a, b) = w i x (sym (get_elem?-set_ne bs j i c' (λ u. t (sym u))) ∙ g) n in
              (λ p. a p ∙ sym (there n (λ u. t (p ∙ sym u))).1, b)
        ]

module _ {K V : Type 0} (same : K → K → Bool) (is_same : IsSame same) where
  abbrev pub the_removed : Table K V → Node K → List (Node K) → Table K V
  the_removed t n c = record {
    buckets = set t.buckets (n.h % length t.buckets) (chain_remove same n c);
    count = t.count - 1;
    lru = unlink_lru same n t.lru;
  }

  pub length-keys : (l : List (Node K × V)) → length (keys l) ≡ length l
  length-keys [] = refl
  length-keys (e ∷ l) = ap suc (length-keys l)

  pub keys-unlink :
      (n : Node K) (l : List (Node K × V))
      → keys (unlink_lru same n l) ≡ chain_remove same n (keys l)
  unfolding unlink_lru chain_remove
  keys-unlink n [] = refl
  keys-unlink n ((m, v) ∷ l) = elim (Bool-cases (same_node same m n)) [
    | inl t ↦ rw t refl
    | inr t ↦ rw t (ap (λ ks. m ∷ ks) (keys-unlink n l))
  ]

  pub keys-append : (l m : List (Node K × V)) → keys (l ++ m) ≡ keys l ++ keys m
  keys-append [] m = refl
  keys-append (e ∷ l) m = ap (λ ks. e.0 ∷ ks) (keys-append l m)

  -- The bucket of a node, in a table.
  pub bucket_of :
      (t : Table K V)
      → IsTable same t
      → (n : Node K)
      → (c : List (Node K)) × (get_elem? t.buckets (n.h % length t.buckets) ≡ some c)
        × (occ same n c ≡ occ same n (keys t.lru))
  bucket_of t w n =
      let p = w.nonempty in
      let (c, e) = get_elem?_of_lt t.buckets (n.h % length t.buckets) (omega arith) in
      (c, e, (w.placed (n.h % length t.buckets) c e n).0 refl)

  -- Looking a node up tells whether it is in the list.
  pub table_find-none :
      (t : Table K V)
      → IsTable same t
      → (h : ℕ) (key : K) → occ same (node h key) (keys t.lru) ≡ 0
      → table_find same t h key ≡ some none
  unfolding table_find
  table_find-none t w h key z =
      let (c, e, o) = bucket_of t w (node h key) in
      rw e (ap some (chain_find-none same is_same h key c (o ∙ z)))

  pub table_find-some :
      (t : Table K V)
      → IsTable same t
      → (h : ℕ) (key : K) → 0 < occ same (node h key) (keys t.lru)
      → table_find same t h key ≡ some (some (node h key))
  unfolding table_find
  table_find-some t w h key p =
      let (c, e, o) = bucket_of t w (node h key) in
      rw e (ap some (chain_find-some same is_same h key c (omega (arith, o))))

  remove_valid :
      (t : Table K V) (n : Node K)
      → IsTable same t
      → 0 < occ same n (keys t.lru)
      → (c : List (Node K)) → get_elem? t.buckets (n.h % length t.buckets) ≡ some c
      → IsTable same (the_removed t n c)
  remove_valid t n w p c e = record {
    nonempty =
        subst (λ k. 0 < k) (sym (length-set t.buckets (n.h % length t.buckets) _)) w.nonempty;
    placed =
        IsPlaced-set same t.buckets (λ m. occ same m (keys t.lru))
          (λ m. occ same m (keys (unlink_lru same n t.lru))) (n.h % length t.buckets) c
          (chain_remove same n c) w.placed e
          (λ m q.
            occ-remove_cong same is_same n m c (keys t.lru)
              ((w.placed (n.h % length t.buckets) c e m).0 q)
            ∙ ap (occ same m) (sym (keys-unlink n t.lru)))
          (λ m q.
            let u =
              same_node_of_ne same is_same n m (λ r. q (ap (λ x. x.h % length t.buckets) r)) in
            (
              occ-remove_ne same is_same m n c u ∙ (w.placed (n.h % length t.buckets) c e m).1 q,
              ap (occ same m) (keys-unlink n t.lru) ∙ occ-remove_ne same is_same m n (keys t.lru) u,
            ));
    once = λ m. omega (
      arith,
      ap (occ same m) (keys-unlink n t.lru),
      occ-remove_le same is_same n m (keys t.lru),
      w.once m,
    );
    counted = omega (
      arith,
      w.counted,
      sym (length-keys (unlink_lru same n t.lru)),
      ap length (keys-unlink n t.lru),
      length-chain_remove same is_same n (keys t.lru) p,
      length-keys t.lru,
    );
    sized =
        let f = w.sized in
        IsSized-other _ _ _ _ (length-set t.buckets (n.h % length t.buckets) _)
          (omega (arith, f.count_le)) f;
  }

  -- The list and the buckets without a node that is there.
  pub table_remove-IsTable :
      (t : Table K V) (n : Node K)
      → IsTable same t
      → 0 < occ same n (keys t.lru)
      → (t' : Table K V) × (table_remove same t n ≡ some t')
        × IsTable same t'
        × (t'.lru ≡ unlink_lru same n t.lru)
  unfolding table_remove
  table_remove-IsTable t n w p =
      let (c, e, o) = bucket_of t w n in (_, rw e refl, remove_valid t n w p c e, refl)
