-- ===== src/Corr/Group.antt =====
-- The state of one group of a correlation (`group_t` of src/classify_corr.c), and the distinct values
-- of `value_count`.
pub mod Distinct
use libsigma.Base.{
  ℕ, zero, suc, ◌+◌, ◌*◌, ◌%◌, ◌^◌, Bool, true, false, ◌&&◌, Option, none, some, ◌>>=◌, List, [],
  ◌∷◌, length, replicate, ◌==◌, if◌then◌else◌,
}
use Prim.Native.Nat.{bit_xor}
use libsigma.Text.{Bytes, eq_from}
use libsigma.Corr.{CorrStats, inc}
use libsigma.Corr.Float.{Double}
use libsigma.Corr.Cond.{Mask}
use libsigma.Corr.Table.{Node, Table, table_init, table_find, table_touch, drop_stale, table_admit}

abbrev pub fnv_offset : ℕ
fnv_offset = 1469598103934665603

abbrev pub fnv_prime : ℕ
fnv_prime = 1099511628211

unfoldable pub fnv_loop : ℕ → Bytes → ℕ
fnv_loop h [] = h
fnv_loop h (c ∷ s) = fnv_loop (bit_xor h c * fnv_prime % 2 ^ 64) s

unfoldable pub fnv1a : Bytes → ℕ
fnv1a s = fnv_loop fnv_offset s

-- The values of a key, each with a separator.
unfoldable pub hash_keys : ℕ → List Bytes → ℕ
hash_keys h [] = h
hash_keys h (v ∷ vs) = hash_keys (fnv_loop h v * fnv_prime % 2 ^ 64) vs

unfoldable pub hash_group_key : List Bytes → ℕ
hash_group_key vs = hash_keys fnv_offset vs

-- `strcmp(..) == 0`, at every place, for keys of one length.
unfoldable pub group_key_eq : List Bytes → List Bytes → Bool
group_key_eq [] [] = true
group_key_eq [] (b ∷ bs) = false
group_key_eq (a ∷ as') [] = false
group_key_eq (a ∷ as') (b ∷ bs) = if eq_from true a b then group_key_eq as' bs else false

-- `dset_t`: each distinct value with its latest time.
abbrev pub Dset : Type 0 → Type 0
Dset W = Table Bytes W

-- `beacon_bucket_t`
pub record BeaconBucket : Type 0 where
  pub epoch : ℕ
  pub count : ℕ

-- `group_t`. An array with a fill count is the list of its filled entries; `ev_ts` and `ev_val` are rings,
-- kept whole.
pub record Group (W : Type 0) : Type 0 where
  pub ev_ts : List W
  pub ev_cap : ℕ
  pub ev_head : ℕ
  pub ev_len : ℕ
  pub bbuckets : Option (List BeaconBucket)
  pub ev_val : Option (List W)
  pub distinct : Dset W
  pub seen : List (ℕ × W)
  pub ordered_progress : ℕ
  pub ordered_anchor_ts : W
  pub ordered_last_ts : W
  pub last_update : W
  pub fired_until : W
  pub merge_sum : W
  pub merge_n : ℕ
  pub merge_seen : Mask
  pub merge_remote : Bool
  pub wm : List (W × ℕ)
  pub wm_max_ts : W

-- `group_new`, where every allocation succeeds; an unwritten slot of the ring is given as `0.0`. The key
-- stands in the node.
unfoldable pub group_new : {W : Type 0} → W → ℕ → Group W
group_new z ev_cap =
    let cap = if ev_cap == 0 then 1 else ev_cap in
    record {
      ev_ts = replicate cap z;
      ev_cap = cap;
      ev_head = 0;
      ev_len = 0;
      bbuckets = none;
      ev_val = none;
      distinct = table_init;
      seen = [];
      ordered_progress = 0;
      ordered_anchor_ts = z;
      ordered_last_ts = z;
      last_update = z;
      fired_until = z;
      merge_sum = z;
      merge_n = 0;
      merge_seen = λ _. false;
      merge_remote = false;
      wm = [];
      wm_max_ts = z;
    }

module _ {W : Type 0} ⦃d : Double W⦄ where
  -- The value after the expiry: a node that is there, or none.
  unfoldable pub dset_place : Dset W → Option (Node Bytes) → Bytes → W → ℕ → Option (Dset W × Bool)
  dset_place s (some n) val ts max_distinct = some (table_touch (eq_from true) s n ts, false)
  dset_place s none val ts max_distinct =
      table_admit (eq_from true) max_distinct s (record { h = fnv1a val; key = val }) ts

  -- `dset_observe`: the set, its count, and the counters.
  unfoldable pub dset_observe :
      Dset W → Bytes → W → W → ℕ → CorrStats → Option (Dset W × ℕ × CorrStats)
  dset_observe s val ts window_start max_distinct stats = do
    live ← drop_stale (eq_from true) (λ t. d.lt t window_start) s.lru s
    hit ← table_find (eq_from true) live (fnv1a val) val
    (s', evicted) ← dset_place live hit val ts max_distinct
    some (
      s',
      s'.count,
      if evicted then record stats { distinct_evicted = inc stats.distinct_evicted } else stats,
    )
