-- ===== src/Corr/Table.antt =====
-- The hash table with a least-recently-used list of src/classify_corr.c, which the file has twice: for
-- the distinct values of a group (`dset_t`) and for the groups of a correlation (`corr_state_t`). A node
-- is in a bucket's chain and in the list; its contents stand in the list, and the chains hold its hash and
-- its key. `h & (n_buckets - 1)` is `h % n_buckets`, since the number of buckets is a power of two.
-- `none` is a read outside the buckets.
pub mod Chains
pub mod Size
pub mod Valid
pub mod Push
pub mod Grow
pub mod Lru
pub mod Map
use libsigma.Base.{
  ℕ, zero, suc, ◌+◌, ◌-◌, ◌*◌, ◌/◌, ◌%◌, ◌^◌, ◌≤◌, ◌<◌, Bool, true, false, not, ◌&&◌, ◌||◌, Option,
  none, some, ◌>>=◌, List, [], ◌∷◌, ◌++◌, length, get_elem?, set, replicate, ltb, leb, ◌==◌,
  if◌then◌else◌,
}

pub record Node (K : Type 0) : Type 0 where
  pub h : ℕ
  pub key : K

-- `lru` has the oldest node first.
pub record Table (K V : Type 0) : Type 0 where
  pub buckets : List (List (Node K))
  pub count : ℕ
  pub lru : List (Node K × V)

abbrev pub n_buckets : {K V : Type 0} → Table K V → ℕ
n_buckets t = length t.buckets

unfoldable pub table_init : {K V : Type 0} → Table K V
table_init = record { buckets = replicate 16 []; count = 0; lru = [] }

module _ {K : Type 0} (same : K → K → Bool) where
  abbrev pub same_node : Node K → Node K → Bool
  same_node a b = a.h == b.h && same a.key b.key

  -- The walk along a chain to a node that is to be taken out.
  unfoldable pub chain_remove : Node K → List (Node K) → List (Node K)
  chain_remove n [] = []
  chain_remove n (m ∷ c) = if same_node m n then c else m ∷ chain_remove n c

  unfoldable pub chain_find : ℕ → K → List (Node K) → Option (Node K)
  chain_find h key [] = none
  chain_find h key (m ∷ c) = if m.h == h && same m.key key then some m else chain_find h key c

module _ {K V : Type 0} (same : K → K → Bool) where
  unfoldable pub unlink_lru : Node K → List (Node K × V) → List (Node K × V)
  unlink_lru n [] = []
  unlink_lru n ((m, v) ∷ l) = if same_node same m n then l else (m, v) ∷ unlink_lru n l

  -- The contents of a node.
  unfoldable pub node_value : Node K → List (Node K × V) → Option V
  node_value n [] = none
  node_value n ((m, v) ∷ l) = if same_node same m n then some v else node_value n l

  unfoldable pub table_remove : Table K V → Node K → Option (Table K V)
  table_remove t n = do
    c ← get_elem? t.buckets (n.h % n_buckets t)
    some (record {
      buckets = set t.buckets (n.h % n_buckets t) (chain_remove same n c);
      count = t.count - 1;
      lru = unlink_lru n t.lru;
    })

  unfoldable pub table_find : Table K V → ℕ → K → Option (Option (Node K))
  table_find t h key = do c ← get_elem? t.buckets (h % n_buckets t); some (chain_find same h key c)

  -- The node becomes the most recently used one, with new contents.
  unfoldable pub table_touch : Table K V → Node K → V → Table K V
  table_touch t n v = record t { lru = unlink_lru n t.lru ++ ((n, v) ∷ []) }

unfoldable pub move_chain :
    {K : Type 0} → List (Node K) → List (List (Node K)) → Option (List (List (Node K)))
move_chain [] nb = some nb
move_chain (e ∷ es) nb = do
  c ← get_elem? nb (e.h % length nb)
  move_chain es (set nb (e.h % length nb) (e ∷ c))

unfoldable pub move_all :
    {K : Type 0} → List (List (Node K)) → List (List (Node K)) → Option (List (List (Node K)))
move_all [] nb = some nb
move_all (c ∷ cs) nb = do nb' ← move_chain c nb; move_all cs nb'

unfoldable pub table_grow : {K V : Type 0} → Table K V → Option (Table K V)
table_grow t = do
  nb ← move_all t.buckets (replicate (n_buckets t * 2 % 2 ^ 32) [])
  some (record t { buckets = nb })

-- Growth at three quarters; the products and the sum are those of `uint32_t`.
unfoldable pub grow_if_full : {K V : Type 0} → Table K V → Option (Table K V)
grow_if_full t =
    if ltb (n_buckets t * 3 % 2 ^ 32 / 4) ((t.count + 1) % 2 ^ 32) then table_grow t else some t

-- A new node, at the front of its chain.
unfoldable pub table_push : {K V : Type 0} → Table K V → Node K → V → Option (Table K V)
table_push t n v = do
  c ← get_elem? t.buckets (n.h % n_buckets t)
  some (record {
    buckets = set t.buckets (n.h % n_buckets t) (n ∷ c);
    count = t.count + 1;
    lru = t.lru ++ ((n, v) ∷ []);
  })

-- The walk along the list that takes out every node whose contents are `stale`.
unfoldable pub drop_stale :
    {K V : Type 0}
    → (K → K → Bool)
    → (V → Bool)
    → List (Node K × V)
    → Table K V
    → Option (Table K V)
drop_stale same stale [] t = some t
drop_stale same stale ((n, v) ∷ l) t = elim (stale v) [
  | true ↦ do t' ← table_remove same t n; drop_stale same stale l t'
  | false ↦ drop_stale same stale l t
]

-- The oldest node makes room at the cap; the result tells whether one was taken out.
unfoldable pub evict_oldest :
    {K V : Type 0} → (K → K → Bool) → List (Node K × V) → Table K V → Option (Table K V × Bool)
evict_oldest same [] t = some (t, false)
evict_oldest same ((n, v) ∷ l) t = do t' ← table_remove same t n; some (t', true)

unfoldable pub make_room :
    {K V : Type 0} → (K → K → Bool) → ℕ → Table K V → Option (Table K V × Bool)
make_room same cap t = if leb cap t.count then evict_oldest same t.lru t else some (t, false)

-- A key that is not in the table: room for it, growth, and its node.
unfoldable pub table_admit :
    {K V : Type 0} → (K → K → Bool) → ℕ → Table K V → Node K → V → Option (Table K V × Bool)
table_admit same cap t n v = do
  (t1, evicted) ← make_room same cap t
  t2 ← grow_if_full t1
  t3 ← table_push t2 n v
  some (t3, evicted)
