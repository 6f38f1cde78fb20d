-- ===== src/Corr/Owner.antt =====
-- The owner of a group among the peers: `corr_owner_key` and `corr_owner_index` (src/classify_corr.c).
use libsigma.Base.{
  ℕ, ◌+◌, ◌*◌, ◌/◌, ◌%◌, ◌^◌, ◌<◌, ◌≡◌, refl, sym, ap, ◌∙◌, false, Option, none, some, List, [],
  ◌∷◌, ◌++◌, length, ltb, ◌==◌, if◌then◌else◌, arith,
}
use Prim.Native.Nat.{bit_xor}
use libsigma.Text.{Bytes}

-- `s ? s : ""`
abbrev pub or_empty : Option Bytes → Bytes
or_empty none = []
or_empty (some s) = s

-- `h = ((h << 5) + h) + c`, in 32 bits
unfoldable pub djb2_step : ℕ → ℕ → ℕ
djb2_step h c = (h * 2 ^ 5 % 2 ^ 32 + h + c) % 2 ^ 32

unfoldable pub corr_djb2_feed : ℕ → Bytes → ℕ
corr_djb2_feed h [] = h
corr_djb2_feed h (c ∷ s) = corr_djb2_feed (djb2_step h c) s

unfoldable pub corr_fmix32 : ℕ → ℕ
corr_fmix32 h =
    let h1 = bit_xor h (h / 2 ^ 16) in
    let h2 = h1 * 0x85ebca6b % 2 ^ 32 in
    let h3 = bit_xor h2 (h2 / 2 ^ 13) in
    let h4 = h3 * 0xc2b2ae35 % 2 ^ 32 in bit_xor h4 (h4 / 2 ^ 16)

-- The loop of `corr_owner_key`, with what is written so far; `none` is the result 0.
unfoldable pub key_loop : ℕ → Bytes → List (Option Bytes) → Option Bytes
key_loop cap buf [] = some buf
key_loop cap buf (v ∷ vs) =
    let rest = key_loop cap (buf ++ (b'\t' ∷ or_empty v)) vs in
    if ltb cap (length buf + 1 + length (or_empty v) + 1) then none else rest

-- The bytes before the NUL.
unfoldable pub corr_owner_key : ℕ → Option Bytes → List (Option Bytes) → Option Bytes
corr_owner_key cap corr_id group_vals =
    if cap == 0
    then none
    else if ltb cap (length (or_empty corr_id) + 1)
    then none
    else key_loop cap (or_empty corr_id) group_vals

unfoldable pub owner_loop : ℕ → List (Option Bytes) → ℕ
owner_loop h [] = h
owner_loop h (v ∷ vs) = owner_loop (corr_djb2_feed (djb2_step h b'\t') (or_empty v)) vs

-- `(unsigned)n_peers` is `n_peers % 2 ^ 32`; `none` is the division by zero where that is zero.
unfoldable pub corr_owner_index : Option Bytes → List (Option Bytes) → ℕ → Option ℕ
corr_owner_index corr_id group_vals n_peers =
    if n_peers == 0
    then some 0
    else if n_peers % 2 ^ 32 == 0
    then none
    else some (
        corr_fmix32 (owner_loop (corr_djb2_feed 5381 (or_empty corr_id)) group_vals)
        % (n_peers % 2 ^ 32))

corr_djb2_feed-append :
    (h : ℕ) (s t : Bytes) → corr_djb2_feed h (s ++ t) ≡ corr_djb2_feed (corr_djb2_feed h s) t
unfolding corr_djb2_feed
corr_djb2_feed-append h [] t = refl
corr_djb2_feed-append h (c ∷ s) t = corr_djb2_feed-append (djb2_step h c) s t

key_loop-owner_loop :
    (cap h : ℕ) (buf key : Bytes) (vs : List (Option Bytes))
    → key_loop cap buf vs ≡ some key
    → corr_djb2_feed h key ≡ owner_loop (corr_djb2_feed h buf) vs
unfolding key_loop owner_loop
key_loop-owner_loop cap h buf key [] e =
    ap (λ o. elim o [ some k ↦ corr_djb2_feed h k | none ↦ 0 ]) (sym e)
key_loop-owner_loop cap h buf key (v ∷ vs) e =
    let next = buf ++ (b'\t' ∷ or_empty v) in
    let go : key_loop cap next vs ≡ some key = ground arith in
    key_loop-owner_loop cap h next key vs go
    ∙ ap (λ k. owner_loop k vs)
        (corr_djb2_feed-append h buf (b'\t' ∷ or_empty v)
          ∙ feed (corr_djb2_feed h buf) (or_empty v))
  where
    feed : (k : ℕ) (s : Bytes) → corr_djb2_feed k (b'\t' ∷ s) ≡ corr_djb2_feed (djb2_step k b'\t') s
    feed k s = unfold corr_djb2_feed in refl

-- The owner is the finalized djb2 of the bytes of the routing key, modulo the number of peers, whenever
-- the key fits a buffer of any size; so it is one of the peers.
pub corr_owner_index-key :
    (cap : ℕ) (corr_id : Option Bytes) (vs : List (Option Bytes)) (key : Bytes) (n_peers : ℕ)
    → corr_owner_key cap corr_id vs ≡ some key
    → 0 < n_peers
    → n_peers < 2 ^ 32
    → (corr_owner_index corr_id vs n_peers ≡ some (corr_fmix32 (corr_djb2_feed 5381 key) % n_peers))
      × (corr_fmix32 (corr_djb2_feed 5381 key) % n_peers < n_peers)
unfolding corr_owner_key corr_owner_index
corr_owner_index-key cap corr_id vs key n_peers e p q =
    let loop : key_loop cap (or_empty corr_id) vs ≡ some key = ground arith in
    let same = key_loop-owner_loop cap 5381 (or_empty corr_id) key vs loop in
    let small : n_peers % 2 ^ 32 ≡ n_peers = omega arith in
    let t1 : (n_peers == 0) ≡ false = ground arith in (rw (small, t1, same) refl, omega arith)
