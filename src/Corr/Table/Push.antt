-- ===== src/Corr/Table/Push.antt =====
-- A new node in a valid table, and a node that becomes the most recently used one (src/classify_corr.c).
use libsigma.Base.{
  ◌+◌, ◌-◌, ◌%◌, ◌≤◌, ◌<◌, ◌≡◌, refl, sym, ap, ◌∙◌, subst, inl, inr, Bool, some, List, [], ◌∷◌,
  ◌++◌, length, length-append, length-set, get_elem?, set, Bool-cases, arith,
}
use libsigma.Corr.Table.{Node, Table, same_node, chain_remove, unlink_lru, table_touch, table_push}
use libsigma.Corr.Table.Size.{max_nodes, IsSized-other}
use libsigma.Corr.Table.Chains.{
  IsSame, occ, same_node→eq, occ-nil, occ-length, occ-cons_same, occ-cons_other, occ-remove_self,
  occ-remove_ne, occ-append, occ-cons_cong, occ-cons_once, length-chain_remove, same_node_of_ne,
}
use libsigma.Corr.Table.Valid.{
  IsTable, IsPlaced-set, keys, keys-append, keys-unlink, length-keys, bucket_of,
}

module _ {K V : Type 0} (same : K → K → Bool) (is_same : IsSame same) where
  abbrev the_pushed : Table K V → Node K → V → List (Node K) → Table K V
  the_pushed t n v c = record {
    buckets = set t.buckets (n.h % length t.buckets) (n ∷ c);
    count = t.count + 1;
    lru = t.lru ++ ((n, v) ∷ []);
  }

  -- One more node at the end of the list.
  pub occ-push :
      (n m : Node K) (v : V) (l : List (Node K × V))
      → occ same m (keys (l ++ ((n, v) ∷ []))) ≡ occ same m (n ∷ keys l)
  occ-push n m v l = elim (Bool-cases (same_node same n m)) [
    | inl t ↦ omega (
      arith,
      ap (occ same m) (keys-append same is_same l ((n, v) ∷ [])),
      occ-append same is_same m (keys l) (n ∷ []),
      occ-cons_same same m n [] t,
      occ-nil same m,
      occ-cons_same same m n (keys l) t,
    )
    | inr t ↦ omega (
      arith,
      ap (occ same m) (keys-append same is_same l ((n, v) ∷ [])),
      occ-append same is_same m (keys l) (n ∷ []),
      occ-cons_other same m n [] t,
      occ-nil same m,
      occ-cons_other same m n (keys l) t,
    )
  ]

  push_valid :
      (t : Table K V) (n : Node K) (v : V)
      → IsTable same t
      → t.count + 1 ≤ max_nodes
      → occ same n (keys t.lru) ≡ 0
      → (c : List (Node K)) → get_elem? t.buckets (n.h % length t.buckets) ≡ some c
      → IsTable same (the_pushed t n v c)
  push_valid t n v w room z c e = record {
    nonempty =
        subst (λ k. 0 < k) (sym (length-set t.buckets (n.h % length t.buckets) _)) w.nonempty;
    placed =
        IsPlaced-set same t.buckets (λ m. occ same m (keys t.lru))
          (λ m. occ same m (keys (t.lru ++ ((n, v) ∷ [])))) (n.h % length t.buckets) c (n ∷ c)
          w.placed e
          (λ m q.
            occ-cons_cong same is_same n m c (keys t.lru)
              ((w.placed (n.h % length t.buckets) c e m).0 q)
            ∙ sym (occ-push n m v t.lru))
          (λ m q.
            let u =
              same_node_of_ne same is_same n m (λ r. q (ap (λ x. x.h % length t.buckets) r)) in
            (
              occ-cons_other same m n c u ∙ (w.placed (n.h % length t.buckets) c e m).1 q,
              occ-push n m v t.lru ∙ occ-cons_other same m n (keys t.lru) u,
            ));
    once = λ m.
        omega
          (arith, occ-push n m v t.lru, occ-cons_once same is_same n m (keys t.lru) z (w.once m));
    counted = omega (arith, w.counted, length-append t.lru ((n, v) ∷ []));
    sized = IsSized-other _ _ _ _ (length-set t.buckets (n.h % length t.buckets) _) room w.sized;
  }

  -- A node that is new goes to the end of the list.
  pub table_push-IsTable :
      (t : Table K V) (n : Node K) (v : V)
      → IsTable same t
      → t.count + 1 ≤ max_nodes
      → occ same n (keys t.lru) ≡ 0
      → (t' : Table K V) × (table_push t n v ≡ some t')
        × IsTable same t'
        × (t'.lru ≡ t.lru ++ ((n, v) ∷ []))
  unfolding table_push
  table_push-IsTable t n v w room z =
      let (c, e, o) = bucket_of same is_same t w n in
      (_, rw e refl, push_valid t n v w room z c e, refl)

  -- A node that is taken out and put at the end.
  pub occ-touch :
      (n m : Node K) (v : V) (l : List (Node K × V))
      → 0 < occ same n (keys l)
      → occ same m (keys (unlink_lru same n l ++ ((n, v) ∷ []))) ≡ occ same m (keys l)
  occ-touch n m v l p = elim (Bool-cases (same_node same n m)) [
    | inl t ↦
        let q = ap (λ k. occ same k (keys l)) (same_node→eq same is_same n m t) in
        let r =
          ap (λ k. occ same m (chain_remove same k (keys l))) (same_node→eq same is_same n m t) in
        omega (
          arith,
          occ-push n m v (unlink_lru same n l),
          occ-cons_same same m n (keys (unlink_lru same n l)) t,
          ap (occ same m) (keys-unlink same is_same n l),
          occ-remove_self same is_same m (keys l),
        )
    | inr t ↦ omega (
      arith,
      occ-push n m v (unlink_lru same n l),
      occ-cons_other same m n (keys (unlink_lru same n l)) t,
      ap (occ same m) (keys-unlink same is_same n l),
      occ-remove_ne same is_same m n (keys l) t,
    )
  ]

  pub length-unlink :
      (n : Node K) (l : List (Node K × V))
      → 0 < occ same n (keys l)
      → length (unlink_lru same n l) ≡ length l - 1
  length-unlink n l p = omega (
    arith,
    length-keys same is_same (unlink_lru same n l),
    ap length (keys-unlink same is_same n l),
    length-chain_remove same is_same n (keys l) p,
    length-keys same is_same l,
  )

  -- The most recent node changes its place, and the buckets stay.
  pub table_touch-IsTable :
      (t : Table K V) (n : Node K) (v : V)
      → IsTable same t
      → 0 < occ same n (keys t.lru)
      → IsTable same (table_touch same t n v)
  unfolding table_touch
  table_touch-IsTable t n v w p = record {
    nonempty = w.nonempty;
    placed =
        λ i c e m. let (a, b) = w.placed i c e m in (λ q. a q ∙ sym (occ-touch n m v t.lru p), b);
    once = λ m. omega (arith, occ-touch n m v t.lru p, w.once m);
    counted = omega (
      arith,
      w.counted,
      length-append (unlink_lru same n t.lru) ((n, v) ∷ []),
      length-unlink n t.lru p,
      length-keys same is_same t.lru,
      occ-length same n (keys t.lru),
    );
    sized = w.sized;
  }
