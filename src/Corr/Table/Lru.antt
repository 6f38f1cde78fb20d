-- ===== src/Corr/Table/Lru.antt =====
-- What the table does to its list (src/classify_corr.c): the list alone says what an expiry, an eviction
-- and an admission leave.
use libsigma.Base.{
  ℕ, suc, ◌+◌, ◌≤◌, ◌<◌, ◌≡◌, refl, sym, ap, ◌∙◌, subst, inl, inr, Bool, true, false, Option, some,
  ◌>>=◌, List, [], ◌∷◌, ◌++◌, append_assoc, length, leb, if◌then◌else◌, Bool-cases, arith,
}
use libsigma.Corr.Table.{
  Node, Table, same_node, unlink_lru, table_remove, drop_stale, evict_oldest, make_room,
  table_admit,
}
use libsigma.Corr.Table.Size.{max_nodes}
use libsigma.Corr.Table.Chains.{
  IsSame, occ, same_node_refl, occ-nil, occ-cons_same, occ-cons_other, occ-append,
}
use libsigma.Corr.Table.Valid.{IsTable, keys, keys-append, table_remove-IsTable}
use libsigma.Corr.Table.Push.{table_push-IsTable}
use libsigma.Corr.Table.Grow.{grow_if_full-IsTable}

-- The entries that are not stale, in their order.
unfoldable pub fresh : {K V : Type 0} → (V → Bool) → List (Node K × V) → List (Node K × V)
fresh stale [] = []
fresh stale ((n, v) ∷ l) = let rest = fresh stale l in if stale v then rest else (n, v) ∷ rest

-- The list with room for one more, at most `cap` long.
abbrev pub oldest_out : {A : Type 0} → ℕ → List A → List A
oldest_out cap [] = []
oldest_out cap (e ∷ l) = if leb cap (length (e ∷ l)) then l else e ∷ l

oldest_out_room :
    {A : Type 0} (cap : ℕ) (l : List A)
    → cap ≤ max_nodes
    → length l ≤ max_nodes
    → length (oldest_out cap l) + 1 ≤ max_nodes
oldest_out_room cap [] h n = omega arith
oldest_out_room cap (e ∷ l) h n = elim (Bool-cases (leb cap (suc (length l)))) [
  | inl t ↦ rw t (omega arith)
  | inr t ↦ rw t (ground (arith, t))
]

module _ {K V : Type 0} (same : K → K → Bool) (is_same : IsSame same) where
  unlink_at :
      (n : Node K) (v : V) (k l : List (Node K × V))
      → occ same n (keys k) ≡ 0
      → unlink_lru same n (k ++ ((n, v) ∷ l)) ≡ k ++ l
  unfolding unlink_lru
  unlink_at n v [] l z = rw (same_node_refl same is_same n) refl
  unlink_at n v ((m, u) ∷ k) l z = elim (Bool-cases (same_node same m n)) [
    | inl t ↦ absurd (omega (arith, occ-cons_same same n m (keys k) t))
    | inr t ↦
        rw t
          (ap (λ r. (m, u) ∷ r) (unlink_at n v k l (sym (occ-cons_other same n m (keys k) t) ∙ z)))
  ]

  -- In a list without repetition, the entries before a node are others.
  once_before :
      (n : Node K) (v : V) (k l : List (Node K × V))
      → occ same n (keys (k ++ ((n, v) ∷ l))) ≤ 1
      → (occ same n (keys k) ≡ 0) × (0 < occ same n (keys (k ++ ((n, v) ∷ l))))
  once_before n v k l h =
      let a = ap (occ same n) (keys-append same is_same k ((n, v) ∷ l)) in
      let b = occ-append same is_same n (keys k) (n ∷ keys l) in
      let c = occ-cons_same same n n (keys l) (same_node_refl same is_same n) in
      (omega arith, omega arith)

  drop_stale-nil : (stale : V → Bool) (t : Table K V) → drop_stale same stale [] t ≡ some t
  unfolding drop_stale
  drop_stale-nil stale t = refl

  drop_stale-cons :
      (stale : V → Bool) (n : Node K) (v : V) (l : List (Node K × V)) (t : Table K V) (b : Bool)
      → stale v ≡ b
      → drop_stale same stale ((n, v) ∷ l) t ≡ (
          if b
          then table_remove same t n >>= (λ t'. drop_stale same stale l t')
          else drop_stale same stale l t)
  unfolding drop_stale
  drop_stale-cons stale n v l t true s =
      ap
        (λ (b : Bool). elim b as (λ _. Option (Table K V)) [
          | true ↦ table_remove same t n >>= (λ t'. drop_stale same stale l t')
          | false ↦ drop_stale same stale l t
        ])
        s
  drop_stale-cons stale n v l t false s =
      ap
        (λ (b : Bool). elim b as (λ _. Option (Table K V)) [
          | true ↦ table_remove same t n >>= (λ t'. drop_stale same stale l t')
          | false ↦ drop_stale same stale l t
        ])
        s

  drop_stale_from :
      (stale : V → Bool) (l k : List (Node K × V)) (t : Table K V)
      → IsTable same t
      → t.lru ≡ k ++ l
      → (t' : Table K V) × (drop_stale same stale l t ≡ some t')
        × IsTable same t'
        × (t'.lru ≡ k ++ fresh stale l)
  unfolding fresh
  drop_stale_from stale [] k t w e = (t, drop_stale-nil stale t, w, e)
  drop_stale_from stale ((n, v) ∷ l) k t w e = elim (Bool-cases (stale v)) [
    | inl s ↦
        let (z, p) = once_before n v k l (subst (λ r. occ same n (keys r) ≤ 1) e (w.once n)) in
        let (t1, r1, w1, e1) =
          table_remove-IsTable same is_same t n w
            (subst (λ r. 0 < occ same n (keys r)) (sym e) p) in
        let (t2, r2, w2, e2) =
          drop_stale_from stale l k t1 w1 (e1 ∙ ap (unlink_lru same n) e ∙ unlink_at n v k l z) in
        (
          t2,
          drop_stale-cons stale n v l t true s
              ∙ ap (λ o. o >>= (λ t'. drop_stale same stale l t')) r1
              ∙ r2,
          w2,
          rw s e2,
        )
    | inr s ↦
        let (t2, r2, w2, e2) =
          drop_stale_from stale l (k ++ ((n, v) ∷ [])) t w
            (e ∙ sym (append_assoc k ((n, v) ∷ []) l)) in
        (
          t2,
          drop_stale-cons stale n v l t false s ∙ r2,
          w2,
          rw s (e2 ∙ append_assoc k ((n, v) ∷ []) (fresh stale l)),
        )
  ]

  -- The expiry leaves the entries that are not stale, in their order.
  pub drop_stale-fresh :
      (stale : V → Bool) (t : Table K V)
      → IsTable same t
      → (t' : Table K V) × (drop_stale same stale t.lru t ≡ some t')
        × IsTable same t'
        × (t'.lru ≡ fresh stale t.lru)
  drop_stale-fresh stale t w = drop_stale_from stale t.lru [] t w refl

  pub oldest_in : (n : Node K) (v : V) (l : List (Node K × V)) → 0 < occ same n (keys ((n, v) ∷ l))
  oldest_in n v l = omega (arith, occ-cons_same same n n (keys l) (same_node_refl same is_same n))

  evict_oldest-nil : (t : Table K V) → evict_oldest same [] t ≡ some (t, false)
  unfolding evict_oldest
  evict_oldest-nil t = refl

  evict_oldest-IsTable :
      (t : Table K V) (e : Node K × V) (l : List (Node K × V))
      → IsTable same t
      → t.lru ≡ e ∷ l
      → (t' : Table K V) × (evict_oldest same t.lru t ≡ some (t', true))
        × IsTable same t'
        × (t'.lru ≡ l)
  unfolding evict_oldest
  evict_oldest-IsTable t (n, v) l w e =
      let (t1, r1, w1, e1) =
        table_remove-IsTable same is_same t n w
          (subst (λ r. 0 < occ same n (keys r)) (sym e) (oldest_in n v l)) in
      (
        t1,
        ap (λ r. evict_oldest same r t) e ∙ ap (λ o. o >>= (λ t'. some (t', true))) r1,
        w1,
        e1 ∙ ap (unlink_lru same n) e ∙ unlink_at n v [] l (occ-nil same n),
      )

  make_room_of :
      (cap : ℕ) (t : Table K V) (l : List (Node K × V))
      → IsTable same t
      → t.lru ≡ l
      → (t' : Table K V) × (b : Bool) × (make_room same cap t ≡ some (t', b))
        × IsTable same t'
        × (t'.lru ≡ oldest_out cap l)
  unfolding make_room
  make_room_of cap t [] w e = elim (Bool-cases (leb cap t.count)) [
    | inl h ↦ (t, false, rw h (ap (λ r. evict_oldest same r t) e ∙ evict_oldest-nil t), w, e)
    | inr h ↦ (t, false, rw h refl, w, e)
  ]
  make_room_of cap t (x ∷ l) w e =
      let q : t.count ≡ length (x ∷ l) = w.counted ∙ ap length e in
      elim (Bool-cases (leb cap t.count)) [
        | inl h ↦
            let (t', r, v, f) = evict_oldest-IsTable t x l w e in
            (t', true, rw h r, v, rw (sym (ap (leb cap) q) ∙ h) f)
        | inr h ↦ (t, false, rw h refl, w, rw (sym (ap (leb cap) q) ∙ h) e)
      ]

  -- At the cap the oldest entry goes.
  pub make_room-IsTable :
      (cap : ℕ) (t : Table K V)
      → IsTable same t
      → (t' : Table K V) × (b : Bool) × (make_room same cap t ≡ some (t', b))
        × IsTable same t'
        × (t'.lru ≡ oldest_out cap t.lru)
  make_room-IsTable cap t w = make_room_of cap t t.lru w refl

  oldest_out-occ :
      (cap : ℕ) (n : Node K) (l : List (Node K × V))
      → occ same n (keys l) ≡ 0
      → occ same n (keys (oldest_out cap l)) ≡ 0
  oldest_out-occ cap n [] z = z
  oldest_out-occ cap n ((m, v) ∷ l) z = elim (Bool-cases (leb cap (suc (length l)))) [
    | inl h ↦ rw h (elim (Bool-cases (same_node same m n)) [
      | inl t ↦ absurd (omega (arith, occ-cons_same same n m (keys l) t))
      | inr t ↦ sym (occ-cons_other same n m (keys l) t) ∙ z
    ])
    | inr h ↦ rw h z
  ]

  -- A new node is admitted: room is made, and it is the most recent one.
  pub table_admit-IsTable :
      (cap : ℕ) (t : Table K V) (n : Node K) (v : V)
      → IsTable same t
      → cap ≤ max_nodes
      → occ same n (keys t.lru) ≡ 0
      → (t' : Table K V) × (b : Bool) × (table_admit same cap t n v ≡ some (t', b))
        × IsTable same t'
        × (t'.lru ≡ oldest_out cap t.lru ++ ((n, v) ∷ []))
  unfolding table_admit
  table_admit-IsTable cap t n v w h z =
      let (t1, b, r1, w1, e1) = make_room-IsTable cap t w in
      let room : t1.count + 1 ≤ max_nodes = omega (
        arith,
        w1.counted,
        ap length e1,
        oldest_out_room cap t.lru h (omega (arith, w.counted, w.sized.count_le)),
      ) in
      let (t2, r2, w2, e2) = grow_if_full-IsTable same is_same t1 w1 room in
      let same_count : t2.count ≡ t1.count = omega (arith, w1.counted, w2.counted, ap length e2) in
      let (t3, r3, w3, e3) =
        table_push-IsTable same is_same t2 n v w2 (omega arith)
          (ap (λ r. occ same n (keys r)) (e2 ∙ e1) ∙ oldest_out-occ cap n t.lru z) in
      (t3, b, rw (r1, r2, r3) refl, w3, e3 ∙ ap (λ r. r ++ ((n, v) ∷ [])) (e2 ∙ e1))
