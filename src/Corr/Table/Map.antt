-- ===== src/Corr/Table/Map.antt =====
-- The table as an abstract map in the order of use (src/classify_corr.c): keys and contents, without the
-- hashes and the buckets.
use libsigma.Base.{
  ℕ, suc, ◌≤◌, ◌<◌, ◌≡◌, refl, ap, ◌∙◌, inl, inr, Bool, true, false, &&_iff, ==_iff, List, [], ◌∷◌,
  ◌++◌, length, leb, ◌==◌, if◌then◌else◌, Bool-cases, Bool_ext, arith,
}
use libsigma.Corr.Table.{Node, same_node, unlink_lru}
use libsigma.Corr.Table.Chains.{IsSame, occ, node, occ-nil, occ-cons_same, occ-cons_other}
use libsigma.Corr.Table.Valid.{keys}
use libsigma.Corr.Table.Lru.{fresh, oldest_out}

module _ {K V : Type 0} where
  -- The keys with their contents, the least recently used one first.
  unfoldable pub entries : List (Node K × V) → List (K × V)
  entries [] = []
  entries ((n, v) ∷ l) = (n.key, v) ∷ entries l

  -- Each node has the hash of its key.
  unfoldable pub Hashed : (K → ℕ) → List (Node K × V) → Type 0
  Hashed hash [] = Unit
  Hashed hash ((n, v) ∷ l) = (n.h ≡ hash n.key) × Hashed hash l

  unfoldable pub has_key : (K → K → Bool) → K → List (K × V) → Bool
  has_key same k [] = false
  has_key same k ((j, v) ∷ l) = if same j k then true else has_key same k l

  unfoldable pub forget : (K → K → Bool) → K → List (K × V) → List (K × V)
  forget same k [] = []
  forget same k ((j, v) ∷ l) = if same j k then l else (j, v) ∷ forget same k l

  unfoldable pub kept : (V → Bool) → List (K × V) → List (K × V)
  kept stale [] = []
  kept stale ((j, v) ∷ l) = let rest = kept stale l in if stale v then rest else (j, v) ∷ rest

  pub entries-append : (l m : List (Node K × V)) → entries (l ++ m) ≡ entries l ++ entries m
  unfolding entries
  entries-append [] m = refl
  entries-append ((n, v) ∷ l) m = ap (λ r. (n.key, v) ∷ r) (entries-append l m)

  pub entries-snoc :
      (n : Node K) (v : V) (l : List (Node K × V))
      → entries (l ++ ((n, v) ∷ [])) ≡ entries l ++ ((n.key, v) ∷ [])
  unfolding entries
  entries-snoc n v l = entries-append l ((n, v) ∷ [])

  pub length-entries : (l : List (Node K × V)) → length (entries l) ≡ length l
  unfolding entries
  length-entries [] = refl
  length-entries (e ∷ l) = ap suc (length-entries l)

  pub entries-fresh :
      (stale : V → Bool) (l : List (Node K × V)) → entries (fresh stale l) ≡ kept stale (entries l)
  unfolding entries fresh kept
  entries-fresh stale [] = refl
  entries-fresh stale ((n, v) ∷ l) = elim (Bool-cases (stale v)) [
    | inl s ↦ rw s (entries-fresh stale l)
    | inr s ↦ rw s (ap (λ r. (n.key, v) ∷ r) (entries-fresh stale l))
  ]

  pub entries-oldest_out :
      (n_max : ℕ) (l : List (Node K × V))
      → entries (oldest_out n_max l) ≡ oldest_out n_max (entries l)
  unfolding entries
  entries-oldest_out n_max [] = refl
  entries-oldest_out n_max ((n, v) ∷ l) =
      rw (length-entries l)
        (elim (Bool-cases (leb n_max (suc (length l)))) [ inl h ↦ rw h refl | inr h ↦ rw h refl ])

  module _ (hash : K → ℕ) where
    pub Hashed-append :
        (l m : List (Node K × V)) → Hashed hash l → Hashed hash m → Hashed hash (l ++ m)
    unfolding Hashed
    Hashed-append [] m a b = b
    Hashed-append ((n, v) ∷ l) m (e, a) b = (e, Hashed-append l m a b)

    pub Hashed-snoc :
        (k : K) (v : V) (l : List (Node K × V))
        → Hashed hash l
        → Hashed hash (l ++ ((node (hash k) k, v) ∷ []))
    unfolding Hashed
    Hashed-snoc k v l a = Hashed-append l ((node (hash k) k, v) ∷ []) a (refl, tt)

    pub Hashed-fresh :
        (stale : V → Bool) (l : List (Node K × V)) → Hashed hash l → Hashed hash (fresh stale l)
    unfolding Hashed fresh
    Hashed-fresh stale [] a = tt
    Hashed-fresh stale ((n, v) ∷ l) (e, a) = elim (Bool-cases (stale v)) [
      | inl s ↦ rw s (Hashed-fresh stale l a)
      | inr s ↦ rw s (e, Hashed-fresh stale l a)
    ]

    pub Hashed-oldest_out :
        (n_max : ℕ) (l : List (Node K × V)) → Hashed hash l → Hashed hash (oldest_out n_max l)
    unfolding Hashed
    Hashed-oldest_out n_max [] a = tt
    Hashed-oldest_out n_max ((n, v) ∷ l) (e, a) = elim (Bool-cases (leb n_max (suc (length l)))) [
      | inl h ↦ rw h a
      | inr h ↦ rw h (e, a)
    ]

    pub Hashed-unlink :
        (same : K → K → Bool) (n : Node K) (l : List (Node K × V))
        → Hashed hash l
        → Hashed hash (unlink_lru same n l)
    unfolding Hashed unlink_lru
    Hashed-unlink same n [] a = tt
    Hashed-unlink same n ((m, v) ∷ l) (e, a) = elim (Bool-cases (same_node same m n)) [
      | inl t ↦ rw t a
      | inr t ↦ rw t (e, Hashed-unlink same n l a)
    ]

module _ {K : Type 0} (same : K → K → Bool) (is_same : IsSame same) (hash : K → ℕ) where
  -- Among hashed nodes a key names its node.
  pub same_node-key :
      (m : Node K) (k : K) → m.h ≡ hash m.key → same_node same m (node (hash k) k) ≡ same m.key k
  same_node-key m k e =
      Bool_ext (same_node same m (node (hash k) k)) (same m.key k)
        (λ t. ((&&_iff (m.h == hash k) (same m.key k)).0 t).1)
        λ t.
          (&&_iff (m.h == hash k) (same m.key k)).1
            ((==_iff m.h (hash k)).1 (e ∙ ap hash ((is_same m.key k).0 t)), t)

module _ {K V : Type 0} (same : K → K → Bool) (is_same : IsSame same) (hash : K → ℕ) where
  pub entries-unlink :
      (k : K) (l : List (Node K × V))
      → Hashed hash l
      → entries (unlink_lru same (node (hash k) k) l) ≡ forget same k (entries l)
  unfolding Hashed unlink_lru entries forget
  entries-unlink k [] a = refl
  entries-unlink k ((m, v) ∷ l) (e, a) =
      rw (same_node-key same is_same hash m k e) (elim (Bool-cases (same m.key k)) [
        | inl t ↦ rw t refl
        | inr t ↦ rw t (ap (λ r. (m.key, v) ∷ r) (entries-unlink k l a))
      ])

  pub occ-has_key :
      (k : K) (l : List (Node K × V))
      → Hashed hash l
      → (has_key same k (entries l) ≡ true → 0 < occ same (node (hash k) k) (keys l))
        × (has_key same k (entries l) ≡ false → occ same (node (hash k) k) (keys l) ≡ 0)
  unfolding Hashed entries has_key
  occ-has_key k [] a = (λ t. absurd (ground (arith, t)), λ _. occ-nil same (node (hash k) k))
  occ-has_key k ((m, v) ∷ l) (e, a) =
      let (f, g) = occ-has_key k l a in
      elim (Bool-cases (same m.key k)) [
        | inl t ↦
            let q =
              occ-cons_same same (node (hash k) k) m (keys l)
                (same_node-key same is_same hash m k e ∙ t) in
            (λ _. omega arith, λ u. absurd (ground (arith, rw t at u)))
        | inr t ↦
            let q =
              occ-cons_other same (node (hash k) k) m (keys l)
                (same_node-key same is_same hash m k e ∙ t) in
            (λ u. omega (arith, f (rw t at u)), λ u. q ∙ g (rw t at u))
      ]

module _ {K V : Type 0} where
  -- The lengths of what is left.
  pub kept_le : (stale : V → Bool) (l : List (K × V)) → length (kept stale l) ≤ length l
  unfolding kept
  kept_le stale [] = omega arith
  kept_le stale ((j, v) ∷ l) = elim (Bool-cases (stale v)) [
    | inl s ↦ rw s (omega (arith, kept_le stale l))
    | inr s ↦ rw s (omega (arith, kept_le stale l))
  ]

  pub forget_lt :
      (same : K → K → Bool) (k : K) (l : List (K × V))
      → has_key same k l ≡ true
      → length (forget same k l) < length l
  unfolding has_key forget
  forget_lt same k [] e = absurd (ground (arith, e))
  forget_lt same k ((j, v) ∷ l) e = elim (Bool-cases (same j k)) [
    | inl t ↦ rw t (omega arith)
    | inr t ↦ rw t (omega (arith, forget_lt same k l (rw t at e)))
  ]

  pub oldest_out_lt :
      (n_max : ℕ) (l : List (K × V))
      → 0 < n_max
      → length l ≤ n_max
      → length (oldest_out n_max l) < n_max
  oldest_out_lt n_max [] p h = p
  oldest_out_lt n_max (e ∷ l) p h = elim (Bool-cases (leb n_max (suc (length l)))) [
    | inl t ↦ rw t h
    | inr t ↦ rw t (ground (arith, t))
  ]
