-- ===== src/Simd/Search.antt =====
-- The three builds of `sigma_memmem_ci` (src/sigma_simd.h) return the first occurrence.
use libsigma.Base.{
  ℕ, zero, suc, ◌+◌, ◌-◌, ◌*◌, ◌/◌, ◌≤◌, ◌<◌, ◌≡◌, refl, sym, ap, ◌∙◌, inl, inr, true, false, ◌||◌,
  Option, none, some, [], ◌∷◌, length, length-drop, take, drop, any, ltb, leb, ◌==◌, ==_iff,
  if◌then◌else◌, Bool-cases, ltb→lt, leb→le, arith,
}
use libsigma.Text.{Bytes, sg_lower, byte_eq, common}
use libsigma.Text.Occurs.{Starts, Occurs, Occurs-nil, Occurs-cons_inv, common-le, common-Starts}
use libsigma.Simd.{
  scalar_loop, memmem_ci_scalar, Scan, found, stop, next, upper, sse_block, neon_positions,
  neon_block, block_loop, memmem_ci_blocks, memmem_ci_sse, memmem_ci_neon, sigma_memmem_ci,
}

-- The reference: try every offset from `i` on.
unfoldable pub first_from : ℕ → Bytes → Bytes → Option ℕ
first_from i [] ndl = if common false [] ndl == length ndl then some i else none
first_from i (x ∷ xs) ndl =
    if common false (x ∷ xs) ndl == length ndl then some i else first_from (suc i) xs ndl

first_from_short : (i : ℕ) (hay ndl : Bytes) → length hay < length ndl → first_from i hay ndl ≡ none
unfolding first_from
first_from_short i [] ndl h = ground (arith, common-le false [] ndl)
first_from_short i (x ∷ xs) ndl h =
    ground (arith, common-le false (x ∷ xs) ndl, first_from_short (suc i) xs ndl)

-- The first-byte test of a loop and its inner `while` make one comparison of the reference.
first_from_cons :
    (i x n : ℕ) (xs ns : Bytes)
    → first_from i (x ∷ xs) (n ∷ ns) ≡ (
        if sg_lower x == sg_lower n
        then (if common false xs ns == length ns then some i else first_from (suc i) xs (n ∷ ns))
        else first_from (suc i) xs (n ∷ ns))
unfolding first_from common byte_eq
first_from_cons i x n xs ns = ground arith

scalar_loop-first_from :
    (k i n : ℕ) (hay ns : Bytes)
    → length hay < k + length (n ∷ ns)
    → scalar_loop k i hay (sg_lower n) ns ≡ first_from i hay (n ∷ ns)
unfolding scalar_loop
scalar_loop-first_from zero i n hay ns h = sym (first_from_short i hay (n ∷ ns) (omega arith))
scalar_loop-first_from (suc k) i n [] ns h = sym (first_from_short i [] (n ∷ ns) (omega arith))
scalar_loop-first_from (suc k) i n (x ∷ xs) ns h =
    rw (first_from_cons, scalar_loop-first_from k (suc i) n xs ns (omega arith)) refl

first_from_nil : (i : ℕ) (hay : Bytes) → first_from i hay [] ≡ some i
unfolding first_from common
first_from_nil i [] = refl
first_from_nil i (x ∷ xs) = refl

memmem_ci_scalar-first_from :
    (i : ℕ) (hay ndl : Bytes) → memmem_ci_scalar i hay ndl ≡ first_from i hay ndl
unfolding memmem_ci_scalar
memmem_ci_scalar-first_from i hay [] = sym (first_from_nil i hay)
memmem_ci_scalar-first_from i hay (n ∷ ns) = ground (
  arith,
  first_from_short i hay (n ∷ ns),
  scalar_loop-first_from (suc (length hay - length (n ∷ ns))) i n hay ns,
)

-- What a block's scan says of the reference search from its first position on.
abbrev BlockOk : ℕ → ℕ → Bytes → Bytes → Scan → Type 0
BlockOk b pos hay ndl (found p) = first_from pos hay ndl ≡ some p
BlockOk b pos hay ndl stop = first_from pos hay ndl ≡ none
BlockOk b pos hay ndl next = first_from pos hay ndl ≡ first_from (pos + b) (drop b hay) ndl

BlockOk-later :
    (b pos x : ℕ) (xs ndl : Bytes) (v : Scan)
    → first_from pos (x ∷ xs) ndl ≡ first_from (suc pos) xs ndl
    → BlockOk b (suc pos) xs ndl v
    → BlockOk (suc b) pos (x ∷ xs) ndl v
BlockOk-later b pos x xs ndl (found p) e h = e ∙ h
BlockOk-later b pos x xs ndl stop e h = e ∙ h
BlockOk-later b pos x xs ndl next e h = e ∙ h ∙ ap (λ k. first_from k (drop b xs) ndl) (omega arith)

-- The two cases of the first byte are the bytes that fold to it.
case_test : (x n : ℕ) → (x == sg_lower n || x == upper (sg_lower n)) ≡ (sg_lower x == sg_lower n)
unfolding sg_lower upper
case_test x n = ground arith

module _ (b pos x n : ℕ) (xs ns : Bytes) (v : Scan) (rest : BlockOk b (suc pos) xs (n ∷ ns) v) where
  BlockOk-miss : (sg_lower x == sg_lower n) ≡ false → BlockOk (suc b) pos (x ∷ xs) (n ∷ ns) v
  BlockOk-miss m =
      BlockOk-later b pos x xs (n ∷ ns) v (first_from_cons pos x n xs ns ∙ rw m refl) rest

  BlockOk-hit :
      (sg_lower x == sg_lower n) ≡ true
      → BlockOk
          (suc b)
          pos
          (x ∷ xs)
          (n ∷ ns)
          (if common false xs ns == length ns then found pos else v)
  BlockOk-hit m = elim (Bool-cases (common false xs ns == length ns)) [
    | inl q ↦ rw q (rw (first_from_cons, m, q) refl)
    | inr q ↦ rw q (BlockOk-later b pos x xs (n ∷ ns) v (rw (first_from_cons, m, q) refl) rest)
  ]

-- `last` is the last offset at which the needle fits.
sse_block-BlockOk :
    (b pos last n : ℕ) (hay ns : Bytes)
    → b ≤ length hay
    → pos + length hay ≡ last + length (n ∷ ns)
    → BlockOk b pos hay (n ∷ ns) (sse_block b pos last hay (sg_lower n) ns)
unfolding sse_block
sse_block-BlockOk zero pos last n hay ns h e = ap (λ k. first_from k hay (n ∷ ns)) (omega arith)
sse_block-BlockOk (suc b) pos last n [] ns h e = absurd (omega arith)
sse_block-BlockOk (suc b) pos last n (x ∷ xs) ns h e =
    let v = sse_block b (suc pos) last xs (sg_lower n) ns in
    let rest = sse_block-BlockOk b (suc pos) last n xs ns (omega arith) (omega arith) in
    rw (case_test x n) (elim (Bool-cases (sg_lower x == sg_lower n)) [
      | inl m ↦ rw m (elim (Bool-cases (ltb last pos)) [
        | inl past ↦ rw past (first_from_short pos (x ∷ xs) (n ∷ ns) (ground arith))
        | inr fits ↦ rw fits (BlockOk-hit b pos x n xs ns v rest m)
      ])
      | inr m ↦ rw m (BlockOk-miss b pos x n xs ns v rest m)
    ])

neon_positions-BlockOk :
    (b pos last n : ℕ) (hay ns : Bytes)
    → b ≤ length hay
    → pos + length hay ≡ last + length (n ∷ ns)
    → BlockOk b pos hay (n ∷ ns) (neon_positions b pos last hay (sg_lower n) ns)
unfolding neon_positions
neon_positions-BlockOk zero pos last n hay ns h e =
    ap (λ k. first_from k hay (n ∷ ns)) (omega arith)
neon_positions-BlockOk (suc b) pos last n [] ns h e = absurd (omega arith)
neon_positions-BlockOk (suc b) pos last n (x ∷ xs) ns h e =
    let v = neon_positions b (suc pos) last xs (sg_lower n) ns in
    let rest = neon_positions-BlockOk b (suc pos) last n xs ns (omega arith) (omega arith) in
    elim (Bool-cases (ltb last pos)) [
      | inl past ↦ rw past (first_from_short pos (x ∷ xs) (n ∷ ns) (ground arith))
      | inr fits ↦ rw fits (elim (Bool-cases (sg_lower x == sg_lower n)) [
        | inl m ↦ rw m (BlockOk-hit b pos x n xs ns v rest m)
        | inr m ↦ rw m (BlockOk-miss b pos x n xs ns v rest m)
      ])
    ]

-- A block without either case of the first byte holds no start of a match.
quiet_block :
    (b pos n : ℕ) (hay ns : Bytes)
    → b ≤ length hay
    → any (λ x. x == sg_lower n || x == upper (sg_lower n)) (take b hay) ≡ false
    → BlockOk b pos hay (n ∷ ns) next
quiet_block zero pos n hay ns h q = ap (λ k. first_from k hay (n ∷ ns)) (omega arith)
quiet_block (suc b) pos n [] ns h q = absurd (omega arith)
quiet_block (suc b) pos n (x ∷ xs) ns h q =
    BlockOk-miss b pos x n xs ns next (quiet_block b (suc pos) n xs ns (omega arith) (ground arith))
      (sym (case_test x n) ∙ ground arith)

neon_block-BlockOk :
    (b pos last n : ℕ) (hay ns : Bytes)
    → b ≤ length hay
    → pos + length hay ≡ last + length (n ∷ ns)
    → BlockOk b pos hay (n ∷ ns) (neon_block b pos last hay (sg_lower n) ns)
unfolding neon_block
neon_block-BlockOk b pos last n hay ns h e =
    elim (Bool-cases (any (λ x. x == sg_lower n || x == upper (sg_lower n)) (take b hay))) [
      | inl loud ↦ rw loud (neon_positions-BlockOk b pos last n hay ns h e)
      | inr quiet ↦ rw quiet (quiet_block b pos n hay ns h quiet)
    ]

-- The end of a block's scan, given what the later blocks return.
after_block :
    (i n : ℕ) (hay ns : Bytes) (v : Scan) (later : Option ℕ)
    → BlockOk 16 i hay (n ∷ ns) v
    → later ≡ first_from (i + 16) (drop 16 hay) (n ∷ ns)
    → (elim v [ found pos ↦ some pos | stop ↦ none | next ↦ later ]) ≡ first_from i hay (n ∷ ns)
after_block i n hay ns (found p) later k ih = sym k
after_block i n hay ns stop later k ih = sym k
after_block i n hay ns next later k ih = ih ∙ sym k

module _ (block : ℕ → ℕ → ℕ → Bytes → ℕ → Bytes → Scan)
    (ok : (b pos last n : ℕ) (hay ns : Bytes)
      → b ≤ length hay
      → pos + length hay ≡ last + length (n ∷ ns)
      → BlockOk b pos hay (n ∷ ns) (block b pos last hay (sg_lower n) ns)) where
  block_loop-first_from :
      (fuel i hlen last n : ℕ) (hay ns : Bytes)
      → i + length hay ≡ hlen
      → hlen ≡ last + length (n ∷ ns)
      → length hay < fuel * 16
      → block_loop block fuel i hlen last hay n ns ≡ first_from i hay (n ∷ ns)
  unfolding block_loop
  block_loop-first_from zero i hlen last n hay ns e l f = absurd (omega arith)
  block_loop-first_from (suc fuel) i hlen last n hay ns e l f =
      let d : length (drop 16 hay) ≡ length hay - 16 = length-drop 16 hay in
      elim (Bool-cases (leb (i + 16) hlen)) [
        | inl more ↦
            let w : i + 16 ≤ hlen = leb→le _ _ more in
            rw (more, block_loop)
              (after_block i n hay ns (block 16 i last hay (sg_lower n) ns)
                (block_loop block fuel (i + 16) hlen last (drop 16 hay) n ns)
                (ok 16 i last n hay ns (omega arith) (omega arith))
                (block_loop-first_from fuel (i + 16) hlen last n (drop 16 hay) ns (omega arith) l
                  (omega arith)))
        | inr done ↦
            rw (done, block_loop)
              (ground (
                arith,
                memmem_ci_scalar-first_from i hay (n ∷ ns),
                first_from_short i hay (n ∷ ns),
              ))
      ]

  memmem_ci_blocks-first_from :
      (hay ndl : Bytes) → memmem_ci_blocks block hay ndl ≡ first_from 0 hay ndl
  unfolding memmem_ci_blocks
  memmem_ci_blocks-first_from hay [] = sym (first_from_nil 0 hay)
  memmem_ci_blocks-first_from hay (n ∷ ns) =
      elim (Bool-cases (ltb (length hay) (length (n ∷ ns)))) [
        | inl short ↦ rw short (sym (first_from_short 0 hay (n ∷ ns) (ltb→lt _ _ short)))
        | inr fits ↦
            let w : length (n ∷ ns) ≤ length hay = ground arith in
            rw fits (
              block_loop-first_from (suc (length hay / 16)) 0 (length hay)
                (length hay - length (n ∷ ns)) n hay ns (omega arith) (omega arith) (omega arith))
      ]

-- The SSE4.2 build, the NEON build and the portable build of `sigma_memmem_ci` return the same
-- offset, or none of them returns one.
pub memmem_ci_builds_agree :
    (hay ndl : Bytes)
    → (memmem_ci_sse hay ndl ≡ sigma_memmem_ci hay ndl)
      × (memmem_ci_neon hay ndl ≡ sigma_memmem_ci hay ndl)
unfolding memmem_ci_sse memmem_ci_neon sigma_memmem_ci
memmem_ci_builds_agree hay ndl = (
  memmem_ci_blocks-first_from sse_block sse_block-BlockOk hay ndl
      ∙ sym (memmem_ci_scalar-first_from 0 hay ndl),
  memmem_ci_blocks-first_from neon_block neon_block-BlockOk hay ndl
      ∙ sym (memmem_ci_scalar-first_from 0 hay ndl),
)

-- The first offset, counted from `i`, at which the needle starts up to case, or none.
abbrev pub IsFirst : ℕ → Bytes → Bytes → Option ℕ → Type 0
IsFirst i hay ndl none = ¬ Occurs false hay ndl
IsFirst i hay ndl (some p) =
    (d : ℕ) × (p ≡ i + d)
    × Starts false (drop d hay) ndl
    × ((j : ℕ) → j < d → ¬ Starts false (drop j hay) ndl)

IsFirst-here : (i : ℕ) (hay ndl : Bytes) → Starts false hay ndl → IsFirst i hay ndl (some i)
IsFirst-here i hay ndl w = (0, omega arith, w, λ j l. absurd (omega arith))

IsFirst-later :
    (i x : ℕ) (xs ndl : Bytes) (o : Option ℕ)
    → ¬ Starts false (x ∷ xs) ndl
    → IsFirst (suc i) xs ndl o
    → IsFirst i (x ∷ xs) ndl o
IsFirst-later i x xs ndl none n h =
    λ w. elim (Occurs-cons_inv false x xs ndl w) [ inl now ↦ n now | inr later ↦ h later ]
IsFirst-later i x xs ndl (some p) n (d, e, w, least) = (suc d, omega arith, w, below)
  where
    below : (j : ℕ) → j < suc d → ¬ Starts false (drop j (x ∷ xs)) ndl
    below zero l = n
    below (suc j) l = least j (omega arith)

first_from-IsFirst : (i : ℕ) (hay ndl : Bytes) → IsFirst i hay ndl (first_from i hay ndl)
unfolding first_from
first_from-IsFirst i [] ndl = elim (Bool-cases (common false [] ndl == length ndl)) [
  | inl q ↦ rw q (IsFirst-here i [] ndl ((common-Starts false [] ndl).0 ((==_iff _ _).0 q)))
  | inr q ↦ rw q (λ w. ground (arith, (common-Starts false [] ndl).1 (Occurs-nil false ndl w)))
]
first_from-IsFirst i (x ∷ xs) ndl = elim (Bool-cases (common false (x ∷ xs) ndl == length ndl)) [
  | inl q ↦
      rw q (IsFirst-here i (x ∷ xs) ndl ((common-Starts false (x ∷ xs) ndl).0 ((==_iff _ _).0 q)))
  | inr q ↦ rw q (
      IsFirst-later i x xs ndl (first_from (suc i) xs ndl)
        (λ w. ground (arith, (common-Starts false (x ∷ xs) ndl).1 w))
        (first_from-IsFirst (suc i) xs ndl))
]

-- `sigma_memmem_ci` returns the offset of the first occurrence of the needle up to case, and NULL
-- exactly when there is none.
pub sigma_memmem_ci-IsFirst : (hay ndl : Bytes) → IsFirst 0 hay ndl (sigma_memmem_ci hay ndl)
unfolding sigma_memmem_ci
sigma_memmem_ci-IsFirst hay ndl =
    rw (memmem_ci_scalar-first_from 0 hay ndl) (first_from-IsFirst 0 hay ndl)
