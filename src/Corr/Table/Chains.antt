-- ===== src/Corr/Table/Chains.antt =====
-- Chains of nodes counted by node (src/classify_corr.c): what the walks of the hash table do to the number of
-- times a node is in a chain.
use libsigma.Base.{
  ℕ, suc, ◌+◌, ◌-◌, ◌≤◌, ◌<◌, ◌≡◌, ◌≢◌, ◌↔◌, refl, sym, ap, ap₂, ◌∙◌, inl, inr, Bool, true, false,
  none, some, List, [], ◌∷◌, ◌++◌, length, ◌==◌, ==_iff, ==-refl, &&_iff, if◌then◌else◌, Bool-cases,
  arith,
}
use libsigma.Corr.Table.{Node, same_node, chain_remove, chain_find}

-- The test of keys that the table is given decides their equality.
abbrev pub IsSame : {K : Type 0} → (K → K → Bool) → Type 0
IsSame {K} same = (a b : K) → (same a b ≡ true) ↔ (a ≡ b)

abbrev pub node : {K : Type 0} → ℕ → K → Node K
node h key = record { h = h; key = key }

module _ {K : Type 0} (same : K → K → Bool) where
  unfoldable pub occ : Node K → List (Node K) → ℕ
  occ n [] = 0
  occ n (m ∷ c) = let rest = occ n c in if same_node same m n then suc rest else rest

  pub occ-nil : (n : Node K) → occ n [] ≡ 0
  unfolding occ
  occ-nil n = refl

  pub occ-length : (n : Node K) (c : List (Node K)) → occ n c ≤ length c
  unfolding occ
  occ-length n [] = omega arith
  occ-length n (m ∷ c) = elim (Bool-cases (same_node same m n)) [
    | inl t ↦ rw t (omega (arith, occ-length n c))
    | inr t ↦ rw t (omega (arith, occ-length n c))
  ]

  pub occ-cons_same :
      (n m : Node K) (c : List (Node K)) → same_node same m n ≡ true → occ n (m ∷ c) ≡ suc (occ n c)
  unfolding occ
  occ-cons_same n m c t = rw t refl

  pub occ-cons_other :
      (n m : Node K) (c : List (Node K)) → same_node same m n ≡ false → occ n (m ∷ c) ≡ occ n c
  unfolding occ
  occ-cons_other n m c t = rw t refl

module _ {K : Type 0} (same : K → K → Bool) (is_same : IsSame same) where
  pub same_node→eq : (a b : Node K) → same_node same a b ≡ true → a ≡ b
  same_node→eq a b e =
      let (eh, ek) = (&&_iff (a.h == b.h) (same a.key b.key)).0 e in
      let p = (==_iff a.h b.h).0 eh in let q = (is_same a.key b.key).0 ek in ap₂ node p q

  pub same_node_refl : (a : Node K) → same_node same a a ≡ true
  same_node_refl a =
      (&&_iff (a.h == a.h) (same a.key a.key)).1 (==-refl a.h, (is_same a.key a.key).1 refl)

  pub same_node-sym_false : (a b : Node K) → same_node same a b ≡ false → same_node same b a ≡ false
  same_node-sym_false a b e = elim (Bool-cases (same_node same b a)) [
    | inl t ↦ absurd (
        ground
          (arith, sym e ∙ ap (λ x. same_node same a x) (same_node→eq b a t) ∙ same_node_refl a))
    | inr t ↦ t
  ]

  pub occ-remove_self :
      (n : Node K) (c : List (Node K)) → occ same n (chain_remove same n c) ≡ occ same n c - 1
  unfolding occ chain_remove
  occ-remove_self n [] = refl
  occ-remove_self n (m ∷ c) = elim (Bool-cases (same_node same m n)) [
    | inl t ↦ rw t (omega arith)
    | inr t ↦ rw t (rw t (occ-remove_self n c))
  ]

  pub occ-remove_ne :
      (n m : Node K) (c : List (Node K))
      → same_node same m n ≡ false
      → occ same n (chain_remove same m c) ≡ occ same n c
  unfolding chain_remove
  occ-remove_ne n m [] h = refl
  occ-remove_ne n m (x ∷ c) h = elim (Bool-cases (same_node same x m)) [
    | inl t ↦
        rw t
          (sym (occ-cons_other same n x c (ap (λ y. same_node same y n) (same_node→eq x m t) ∙ h)))
    | inr t ↦ rw t (elim (Bool-cases (same_node same x n)) [
      | inl u ↦ omega (
        arith,
        occ-cons_same same n x c u,
        occ-cons_same same n x (chain_remove same m c) u,
        occ-remove_ne n m c h,
      )
      | inr u ↦ omega (
        arith,
        occ-cons_other same n x c u,
        occ-cons_other same n x (chain_remove same m c) u,
        occ-remove_ne n m c h,
      )
    ])
  ]

  -- A walk finds the node it looks for, and nothing where the node is not there.
  pub chain_find-none :
      (h : ℕ) (key : K) (c : List (Node K))
      → occ same (node h key) c ≡ 0
      → chain_find same h key c ≡ none
  unfolding chain_find
  chain_find-none h key [] p = refl
  chain_find-none h key (m ∷ c) p = elim (Bool-cases (same_node same m (node h key))) [
    | inl t ↦ absurd (omega (arith, occ-cons_same same (node h key) m c t))
    | inr t ↦ rw t (chain_find-none h key c (sym (occ-cons_other same (node h key) m c t) ∙ p))
  ]

  pub chain_find-some :
      (h : ℕ) (key : K) (c : List (Node K))
      → 0 < occ same (node h key) c
      → chain_find same h key c ≡ some (node h key)
  unfolding chain_find
  chain_find-some h key [] p = absurd (omega (arith, occ-nil same (node h key)))
  chain_find-some h key (m ∷ c) p = elim (Bool-cases (same_node same m (node h key))) [
    | inl t ↦ rw t (ap some (same_node→eq m (node h key) t))
    | inr t ↦ rw t (chain_find-some h key c (omega (arith, occ-cons_other same (node h key) m c t)))
  ]

  pub occ-append :
      (n : Node K) (c e : List (Node K)) → occ same n (c ++ e) ≡ occ same n c + occ same n e
  occ-append n [] e = omega (arith, occ-nil same n)
  occ-append n (m ∷ c) e = elim (Bool-cases (same_node same m n)) [
    | inl t ↦
        omega
          (arith, occ-cons_same same n m c t, occ-cons_same same n m (c ++ e) t, occ-append n c e)
    | inr t ↦
        omega
          (arith, occ-cons_other same n m c t, occ-cons_other same n m (c ++ e) t, occ-append n c e)
  ]

  pub length-chain_remove :
      (n : Node K) (c : List (Node K))
      → 0 < occ same n c
      → length (chain_remove same n c) ≡ length c - 1
  unfolding chain_remove
  length-chain_remove n [] p = refl
  length-chain_remove n (m ∷ c) p = elim (Bool-cases (same_node same m n)) [
    | inl t ↦ rw t (omega arith)
    | inr t ↦
        let q = occ-cons_other same n m c t in
        rw t (omega (arith, length-chain_remove n c (omega arith), occ-length same n c))
  ]

  pub same_node_of_ne : (n m : Node K) → n ≢ m → same_node same n m ≡ false
  same_node_of_ne n m h = elim (Bool-cases (same_node same n m)) [
    | inl t ↦ absurd (h (same_node→eq n m t))
    | inr t ↦ t
  ]

  -- Taking a node out depends on the counts alone.
  pub occ-remove_cong :
      (n m : Node K) (c e : List (Node K))
      → occ same m c ≡ occ same m e
      → occ same m (chain_remove same n c) ≡ occ same m (chain_remove same n e)
  occ-remove_cong n m c e h = elim (Bool-cases (same_node same n m)) [
    | inl t ↦
        let q = same_node→eq n m t in
        ap (λ k. occ same m (chain_remove same k c)) q
        ∙ occ-remove_self m c
        ∙ ap (λ k. k - 1) h
        ∙ sym (occ-remove_self m e)
        ∙ ap (λ k. occ same m (chain_remove same k e)) (sym q)
    | inr t ↦ occ-remove_ne m n c t ∙ h ∙ sym (occ-remove_ne m n e t)
  ]

  pub occ-remove_le :
      (n m : Node K) (c : List (Node K)) → occ same m (chain_remove same n c) ≤ occ same m c
  occ-remove_le n m c = elim (Bool-cases (same_node same n m)) [
    | inl t ↦ omega (
      arith,
      ap (λ k. occ same m (chain_remove same k c)) (same_node→eq n m t),
      occ-remove_self m c,
    )
    | inr t ↦ omega (arith, occ-remove_ne m n c t)
  ]

  pub occ-cons_cong :
      (n m : Node K) (c e : List (Node K))
      → occ same m c ≡ occ same m e
      → occ same m (n ∷ c) ≡ occ same m (n ∷ e)
  occ-cons_cong n m c e h = elim (Bool-cases (same_node same n m)) [
    | inl t ↦ occ-cons_same same m n c t ∙ ap suc h ∙ sym (occ-cons_same same m n e t)
    | inr t ↦ occ-cons_other same m n c t ∙ h ∙ sym (occ-cons_other same m n e t)
  ]

  pub occ-cons_once :
      (n m : Node K) (c : List (Node K))
      → occ same n c ≡ 0
      → occ same m c ≤ 1
      → occ same m (n ∷ c) ≤ 1
  occ-cons_once n m c z h = elim (Bool-cases (same_node same n m)) [
    | inl t ↦ omega (arith, occ-cons_same same m n c t, ap (λ k. occ same k c) (same_node→eq n m t))
    | inr t ↦ omega (arith, occ-cons_other same m n c t)
  ]
