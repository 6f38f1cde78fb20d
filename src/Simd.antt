-- ===== src/Simd.antt =====
-- The case-insensitive substring search of src/sigma_simd.h: the scalar routine and the loops of
-- the SSE4.2 and the NEON builds. `sigma__lc` has the text of `sg_lower`. Of the intrinsics the
-- loops use what their comparisons give: the set of the positions of a block whose byte is one of two.
pub mod Search
use libsigma.Base.{
  ℕ, zero, suc, ◌+◌, ◌-◌, ◌/◌, Bool, true, false, ◌&&◌, ◌||◌, Option, none, some, List, [], ◌∷◌,
  length, take, drop, any, ltb, leb, ◌==◌, if◌then◌else◌,
}
use libsigma.Text.{Bytes, sg_lower, common}

-- The `for` of `sigma__memmem_ci_scalar`: the rounds left, the position, the text from there on, and
-- the needle's folded first byte and its other bytes. The result is the offset of the match.
unfoldable pub scalar_loop : ℕ → ℕ → Bytes → ℕ → Bytes → Option ℕ
scalar_loop zero i hay n0 ns = none
scalar_loop (suc k) i [] n0 ns = none
scalar_loop (suc k) i (x ∷ xs) n0 ns =
    let rest = scalar_loop k (suc i) xs n0 ns in
    if sg_lower x == n0 then (if common false xs ns == length ns then some i else rest) else rest

-- `sigma__memmem_ci_scalar`, for a text that begins at offset `i` of the caller's.
unfoldable pub memmem_ci_scalar : ℕ → Bytes → Bytes → Option ℕ
unfolding scalar_loop
memmem_ci_scalar i hay [] = some i
memmem_ci_scalar i hay (n ∷ ns) =
    if ltb (length hay) (length (n ∷ ns))
    then none
    else scalar_loop (suc (length hay - length (n ∷ ns))) i hay (sg_lower n) ns

-- How the scan of one block of sixteen bytes ends: a match, `return NULL`, or on to the next block.
pub data Scan : Type 0 where
  found : ℕ → Scan
  stop : Scan
  next : Scan

-- The other case of the folded first byte.
unfoldable pub upper : ℕ → ℕ
upper c = if leb b'a' c && leb c b'z' then c - 32 else c

-- The `while (mask)` of the SSE4.2 build: the positions whose byte is one of the two cases of the
-- needle's first byte, from the lowest on. The numbers are the positions left of the block, the
-- position and `last`.
unfoldable pub sse_block : ℕ → ℕ → ℕ → Bytes → ℕ → Bytes → Scan
sse_block zero pos last hay n0 ns = next
sse_block (suc b) pos last [] n0 ns = next
sse_block (suc b) pos last (x ∷ xs) n0 ns =
    let rest = sse_block b (suc pos) last xs n0 ns in
    if x == n0 || x == upper n0
    then (if ltb last pos
        then stop
        else if common false xs ns == length ns
        then found pos
        else rest)
    else rest

-- The `for` over the sixteen positions of the NEON build.
unfoldable pub neon_positions : ℕ → ℕ → ℕ → Bytes → ℕ → Bytes → Scan
neon_positions zero pos last hay n0 ns = next
neon_positions (suc b) pos last [] n0 ns = next
neon_positions (suc b) pos last (x ∷ xs) n0 ns =
    let rest = neon_positions b (suc pos) last xs n0 ns in
    if ltb last pos
    then stop
    else if sg_lower x == n0
    then (if common false xs ns == length ns then found pos else rest)
    else rest

-- A block with neither case of the first byte is passed over (`vmaxvq_u8(m) == 0`).
unfoldable pub neon_block : ℕ → ℕ → ℕ → Bytes → ℕ → Bytes → Scan
unfolding neon_positions
neon_block b pos last hay n0 ns =
    if any (λ x. x == n0 || x == upper n0) (take b hay)
    then neon_positions b pos last hay n0 ns
    else next

module _ (block : ℕ → ℕ → ℕ → Bytes → ℕ → Bytes → Scan) where
  -- The outer `for` of both builds and the scalar tail, on fuel: `i`, `hlen`, `last`, the text from
  -- `i` on, the needle.
  unfoldable pub block_loop : ℕ → ℕ → ℕ → ℕ → Bytes → ℕ → Bytes → Option ℕ
  unfolding memmem_ci_scalar
  block_loop zero i hlen last hay n ns = none
  block_loop (suc fuel) i hlen last hay n ns = elim (leb (i + 16) hlen) [
    | true ↦ elim (block 16 i last hay (sg_lower n) ns) [
      | found pos ↦ some pos
      | stop ↦ none
      | next ↦ block_loop fuel (i + 16) hlen last (drop 16 hay) n ns
    ]
    | false ↦ if leb i last then memmem_ci_scalar i hay (n ∷ ns) else none
  ]

  unfoldable pub memmem_ci_blocks : Bytes → Bytes → Option ℕ
  unfolding block_loop
  memmem_ci_blocks hay [] = some 0
  memmem_ci_blocks hay (n ∷ ns) =
      if ltb (length hay) (length (n ∷ ns))
      then none
      else block_loop (suc (length hay / 16)) 0 (length hay) (length hay - length (n ∷ ns)) hay n ns

-- `sigma_memmem_ci` of the SSE4.2 build, of the NEON build and of the portable build.
unfoldable pub memmem_ci_sse : Bytes → Bytes → Option ℕ
unfolding memmem_ci_blocks sse_block
memmem_ci_sse = memmem_ci_blocks sse_block

unfoldable pub memmem_ci_neon : Bytes → Bytes → Option ℕ
unfolding memmem_ci_blocks neon_block
memmem_ci_neon = memmem_ci_blocks neon_block

unfoldable pub sigma_memmem_ci : Bytes → Bytes → Option ℕ
unfolding memmem_ci_scalar
sigma_memmem_ci = memmem_ci_scalar 0
