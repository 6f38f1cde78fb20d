-- ===== src/Load/Buckets.antt =====
-- The loop of the loader (src/sigma_format.c) over the buckets.
use libsigma.Base.{
  ℕ, zero, suc, ◌+◌, ◌≤◌, ◌<◌, ◌≡◌, refl, sym, ap, ◌∙◌, subst, ◌⊎◌, inl, inr, not, ◌&&◌, Option,
  none, some, List, [], ◌∷◌, length, get_elem?, get_elem?_of_lt, ltb, ◌==◌, if◌then◌else◌,
  Bool-cases, arith,
}
use mathlib.Core.Option.{some-injective}
use libsigma.Db.{no_value, Str, Postings, Db}
use libsigma.Db.Valid.{Each, Each-nil, Each-cons, InPool}
use libsigma.Load.{bucket_loop}

-- From key `i` on: the keys in the pool, their buckets' slices in the table, and the bucket of the empty key,
-- where there is one.
abbrev pub KeysIn : Db → List Str → ℕ → Option ℕ → Type 0
KeysIn d ks i none = Unit
KeysIn d ks i (some av) =
    Each (InPool d) ks
    × (((j : ℕ) (b : Postings)
          → j < length ks
          → get_elem? d.buckets (i + j) ≡ some b
          → b.idx_start + b.idx_count ≤ length d.bucket_idx)
        × ((av ≡ no_value) ⊎ (av < i + length ks)))

module _ (d : Db) where
  next_in :
      (n i av : ℕ)
      → (av ≡ no_value) ⊎ (av < i)
      → ((if n == 0 then i else av) ≡ no_value) ⊎ ((if n == 0 then i else av) < suc i)
  next_in n i av h = elim (Bool-cases (n == 0)) [
    | inl t ↦ rw t (inr (omega arith))
    | inr t ↦ rw t (elim h [ inl e ↦ inl e | inr l ↦ inr (omega arith) ])
  ]

  slices_from :
      (i : ℕ) (b : Postings) (n : ℕ)
      → get_elem? d.buckets i ≡ some b
      → b.idx_start + b.idx_count ≤ length d.bucket_idx
      → ((j : ℕ) (c : Postings)
          → j < n
          → get_elem? d.buckets (suc i + j) ≡ some c
          → c.idx_start + c.idx_count ≤ length d.bucket_idx)
      → (j : ℕ) (c : Postings) → j < suc n
      → get_elem? d.buckets (i + j) ≡ some c
      → c.idx_start + c.idx_count ≤ length d.bucket_idx
  slices_from i b n e l g zero c h f =
      let z : i + 0 ≡ i = omega arith in
      subst (λ (p : Postings). p.idx_start + p.idx_count ≤ length d.bucket_idx)
        (some-injective b c (sym e ∙ ap (get_elem? d.buckets) (sym z) ∙ f)) l
  slices_from i b n e l g (suc j) c h f =
      let z : i + suc j ≡ suc i + j = omega arith in
      g j c (omega arith) (ap (get_elem? d.buckets) (sym z) ∙ f)

  KeysIn-cons :
      (k : Str) (ks : List Str) (i : ℕ) (b : Postings) (o : Option ℕ)
      → InPool d k
      → get_elem? d.buckets i ≡ some b
      → b.idx_start + b.idx_count ≤ length d.bucket_idx
      → KeysIn d ks (suc i) o
      → KeysIn d (k ∷ ks) i o
  KeysIn-cons k ks i b none p e l f = tt
  KeysIn-cons k ks i b (some av) p e l (f, (g, a)) = (
    Each-cons (InPool d) k ks p f,
    (slices_from i b (length ks) e l g, elim a [ inl x ↦ inl x | inr x ↦ inr (omega arith) ]),
  )

  -- The bucket loop returns, whatever the keys.
  pub bucket_loop-KeysIn :
      (ks : List Str) (i av : ℕ)
      → (av ≡ no_value) ⊎ (av < i)
      → i + length ks ≤ length d.buckets
      → (o : Option ℕ) × (bucket_loop d ks i av ≡ some o) × KeysIn d ks i o
  unfolding bucket_loop
  bucket_loop-KeysIn [] i av a h = (
    some av,
    refl,
    (
      Each-nil (InPool d),
      (λ j b l e. absurd (omega arith), elim a [ inl x ↦ inl x | inr x ↦ inr (omega arith) ]),
    ),
  )
  bucket_loop-KeysIn (k ∷ ks) i av a h =
      let (b, e) = get_elem?_of_lt d.buckets i (omega arith) in
      let (o, r, f) =
        bucket_loop-KeysIn ks (suc i) (if k.len == 0 then i else av) (next_in k.len i av a)
          (omega arith) in
      elim (Bool-cases (ltb (length d.strpool) (k.off + k.len))) [
        | inl t ↦ (none, rw t refl, tt)
        | inr t ↦ elim (Bool-cases (ltb (length d.bucket_idx) (b.idx_start + b.idx_count))) [
          | inl u ↦ (none, simp (t, e, u), tt)
          | inr u ↦ elim (Bool-cases (k.len == 0 && not (av == no_value))) [
            | inl v ↦ (none, simp (t, e, u, v), tt)
            | inr v ↦ (
              o,
              simp (t, e, u, v, r),
              KeysIn-cons k ks i b o (ground (arith, t)) e (ground (arith, u)) f,
            )
          ]
        ]
      ]
