-- ===== src/Tests/CorrWitness.antt =====
-- The theorems of the correlation engine at small rules, groups and tables; a time is a number of halves.
use libsigma.Base.{
  ℕ, ◌+◌, ◌-◌, ◌*◌, ◌/◌, ◌%◌, ◌^◌, ◌≤◌, ◌<◌, ◌≡◌, refl, sym, ap, ◌∙◌, subst, true, false, ◌==◌,
  none, some, List, [], ◌∷◌, ◌++◌, length, map, replicate, ltb, leb, arith,
}
use libsigma.Base.Int.{pos, negsuc}
use libsigma.Text.{Bytes, eq_from}
use libsigma.Corr.{
  event_count, CorrTok, c_sel, c_or, c_not, CorrOp, op_gte, CorrRule, CorrCaps, CorrStats,
  cmp_threshold,
}
use libsigma.Corr.Float.{Double, IsIeee}
use libsigma.Corr.Table.{Node, Table, table_init, table_admit}
use libsigma.Corr.Table.Lru.{oldest_out, table_admit-IsTable}
use libsigma.Corr.Table.Map.{
  entries, kept, has_key, Hashed, Hashed-snoc, Hashed-oldest_out, entries-snoc, entries-oldest_out,
  length-entries, occ-has_key,
}
use libsigma.Corr.Table.Grow.{table_init-IsTable}
use libsigma.Corr.Group.{hash_group_key, group_key_eq, Group, group_new, Dset, dset_observe}
use libsigma.Corr.Group.Distinct.{
  IsDset, eq_from-IsSame, observed, dset_observe-observed, dset_observe-bounded,
}
use libsigma.Corr.Engine.{
  Groups, group_node, no_corr_stats, cstate_get_or_create, cstate_drop_expired,
}
use libsigma.Corr.Engine.Groups.{
  IsGroups, group_key_eq-IsSame, group_used, cstate_get_or_create-used,
  cstate_get_or_create-bounded, cstate_drop_expired-kept,
}
use libsigma.Corr.Index.{RidWatch, index_rules}
use libsigma.Corr.Index.Watch.{watches, lists, index_rules-lists}
use libsigma.Corr.Ring.{ev_prune, eval_event_count, rank}
use libsigma.Corr.Ring.Window.{in_window, behind}
use libsigma.Corr.Ring.Count.{pushed, IsTimes, times, ev_prune-in_window, eval_event_count-window}
use libsigma.Corr.Ring.Rank.{rank-nearest}
use libsigma.Corr.Watermark.{all_later, wm_insert}
use libsigma.Corr.Watermark.Sorted.{IsSorted, wm_insert-IsSorted}
use libsigma.Corr.Cond.{Mask, as_ctok, corr_cond_eval, corr_cond_eval-eager, corr_cond_eval-postfix}
use libsigma.Corr.Event.Stored.{Stored}
use libsigma.Corr.Dispatch.{Event}
use libsigma.Corr.Owner.{
  corr_fmix32, corr_djb2_feed, corr_owner_key, corr_owner_index, corr_owner_index-key,
}
use libsigma.Rules.Holds.{eager}
use libsigma.Rules.Expr.{sel, neg, disj, value}

instance abbrev halves : Double ℕ
halves = record {
  le = leb;
  lt = ltb;
  add = λ a b. a + b;
  sub = λ a b. a - b;
  mul = λ a b. a * b / 2;
  div = λ a b. a * 2 / b;
  of_int = λ n. elim n [ pos k ↦ k * 2 | negsuc k ↦ 0 ];
  to_int = λ a. pos (a / 2);
  to_u32 = λ a. a / 2 % 2 ^ 32;
  half = 1;
}

halves-IsIeee : IsIeee ℕ
halves-IsIeee = record {
  before = λ a b h. ground arith;
  numbers = λ a b h. (ground arith, ground arith);
  not_before = λ a b h k l. ground arith;
  chain = λ a b c h k. ground arith;
}

abbrev key_a : Bytes
key_a = b'a' ∷ []

-- An `event_count` of two over ten seconds, on the base rules 7 and 8.
abbrev count_two : CorrRule
count_two = record {
  id = some key_a;
  title = none;
  kind = event_count;
  base_rule_ids = 7 ∷ 8 ∷ [];
  ordered_rule_ids = [];
  group_by = key_a ∷ [];
  alias_group_by = none;
  n_alias_group_by = 0;
  value_field = none;
  cond_op = op_gte;
  cond_count = pos 2;
  timespan_s = pos 10;
  level = none;
  mitre = none;
  cond = [];
  beacon_cv_permille = pos 0;
  beacon_n_buckets = pos 0;
  value_percentile = pos 0;
}

abbrev two_groups : CorrCaps ℕ
two_groups = record {
  max_groups = 2;
  max_distinct = 2;
  max_events_per_group = 2;
  sweep_interval_s = 60;
  event_time_ordering = false;
  watermark_s = 0;
}

abbrev no_values : Dset ℕ
no_values = table_init

no_values-IsDset : IsDset no_values
unfolding libsigma.Corr.Table.Map.Hashed table_init
no_values-IsDset = (table_init-IsTable (eq_from true) eq_from-IsSame, tt)

abbrev no_groups : Groups ℕ
no_groups = table_init

no_groups-IsGroups : IsGroups no_groups
unfolding libsigma.Corr.Table.Map.Hashed table_init
no_groups-IsGroups = (table_init-IsTable group_key_eq group_key_eq-IsSame, tt)

-- A full ring of two times, 10 at its head and 14 after it.
abbrev full_group : Group ℕ
full_group = record {
  ev_ts = 14 ∷ 10 ∷ [];
  ev_cap = 2;
  ev_head = 1;
  ev_len = 2;
  bbuckets = none;
  ev_val = none;
  distinct = table_init;
  seen = (7, 12) ∷ [];
  ordered_progress = 0;
  ordered_anchor_ts = 0;
  ordered_last_ts = 0;
  last_update = 14;
  fired_until = 0;
  merge_sum = 0;
  merge_n = 1;
  merge_seen = λ _. false;
  merge_remote = false;
  wm = (10, 7) ∷ (14, 8) ∷ [];
  wm_max_ts = 14;
}

full_group-IsTimes : IsTimes full_group
full_group-IsTimes = record {
  sized = refl;
  positive = omega arith;
  head_in = omega arith;
  len_in = omega arith;
}

full_group-times : times full_group ≡ some (10 ∷ 14 ∷ [])
unfolding libsigma.Corr.Ring.Window.live
full_group-times = refl

-- A table with one more group, by the code.
abbrev admitted : List Bytes → Group ℕ → Groups ℕ → Groups ℕ
admitted k g gs = elim (table_admit group_key_eq 2 gs (group_node k) g) [
  | none ↦ gs
  | some (gs', _) ↦ gs'
]

abbrev key_b : Bytes
key_b = b'b' ∷ []

-- The group of `a`, last updated at 0, and the group of `b`, last updated at 14.
abbrev aged_groups : Groups ℕ
aged_groups = admitted (key_b ∷ []) full_group (admitted (key_a ∷ []) (group_new 0 2) no_groups)

one_more :
    (k : List Bytes) (g : Group ℕ) (gs : Groups ℕ)
    → IsGroups gs
    → has_key group_key_eq k (entries gs.lru) ≡ false
    → IsGroups (admitted k g gs)
      × (entries (admitted k g gs).lru ≡ oldest_out 2 (entries gs.lru) ++ ((k, g) ∷ []))
one_more k g gs (w, h) e =
    let n = group_node k in
    let z = (occ-has_key group_key_eq group_key_eq-IsSame hash_group_key k gs.lru h).1 e in
    let (gs', b, r, w', l) =
      table_admit-IsTable group_key_eq group_key_eq-IsSame 2 gs n g w (omega arith) z in
    rw (r, admitted)
      (
        (
          w',
          subst (Hashed hash_group_key) (sym l) (
              Hashed-snoc hash_group_key k g (oldest_out 2 gs.lru)
                (Hashed-oldest_out hash_group_key 2 gs.lru h)),
        ),
        ap entries l
            ∙ entries-snoc n g (oldest_out 2 gs.lru)
            ∙ ap (λ r. r ++ ((k, g) ∷ [])) (entries-oldest_out 2 gs.lru),
      )

no_groups-entries : entries no_groups.lru ≡ []
unfolding entries table_init
no_groups-entries = refl

one_group-IsGroups :
    IsGroups (admitted (key_a ∷ []) (group_new 0 2) no_groups)
    × (entries (admitted (key_a ∷ []) (group_new 0 2) no_groups).lru
        ≡ ((key_a ∷ []), group_new 0 2) ∷ [])
unfolding has_key
one_group-IsGroups =
    let (w, e) =
      one_more (key_a ∷ []) (group_new 0 2) no_groups no_groups-IsGroups
        (rw no_groups-entries refl) in
    (w, e ∙ ap (λ l. oldest_out 2 l ++ (((key_a ∷ []), group_new 0 2) ∷ [])) no_groups-entries)

aged_groups-IsGroups :
    IsGroups aged_groups
    × (entries aged_groups.lru ≡ ((key_a ∷ []), group_new 0 2) ∷ ((key_b ∷ []), full_group) ∷ [])
unfolding has_key group_key_eq libsigma.Text.eq_from libsigma.Text.byte_eq
aged_groups-IsGroups =
    let (w1, e1) = one_group-IsGroups in
    let (w, e) =
      one_more (key_b ∷ []) full_group (admitted (key_a ∷ []) (group_new 0 2) no_groups) w1
        (rw e1 refl) in
    (w, e ∙ ap (λ l. oldest_out 2 l ++ (((key_b ∷ []), full_group) ∷ [])) e1)

aged_groups-count : aged_groups.count ≡ 2
aged_groups-count =
    let ((w, h), e) = aged_groups-IsGroups in
    w.counted ∙ sym (length-entries aged_groups.lru) ∙ ap length e

abbrev key_c : Bytes
key_c = b'c' ∷ []

-- A third group at the cap.
cstate_get_or_create-used_example :
    (gs' : Groups ℕ) × (stats' : CorrStats) × (cstate_get_or_create aged_groups two_groups
        (key_c ∷ [])
        no_corr_stats
      ≡ some (
        gs',
        group_node (key_c ∷ []),
        (group_used (key_c ∷ []) 2 (group_new 0 2) (entries aged_groups.lru)).0,
        stats',
      ))
    × IsGroups gs'
    × (entries gs'.lru ≡ (group_used (key_c ∷ []) 2 (group_new 0 2) (entries aged_groups.lru)).1)
cstate_get_or_create-used_example =
    cstate_get_or_create-used aged_groups two_groups (key_c ∷ []) no_corr_stats
      aged_groups-IsGroups.0 (omega arith)

cstate_get_or_create-bounded_example :
    (gs' : Groups ℕ) × (g : Group ℕ) × (stats' : CorrStats) × (cstate_get_or_create aged_groups
        two_groups
        (key_c ∷ [])
        no_corr_stats
      ≡ some (gs', group_node (key_c ∷ []), g, stats'))
    × (gs'.count ≤ 2)
cstate_get_or_create-bounded_example =
    cstate_get_or_create-bounded aged_groups two_groups (key_c ∷ []) no_corr_stats
      aged_groups-IsGroups.0 (omega arith) (omega arith) (omega (arith, aged_groups-count))

-- Of what the sweep keeps, the group of `a` is gone and the group of `b` is there.
swept_groups :
    kept (λ (g : Group ℕ). ltb g.last_update 10) (entries aged_groups.lru)
    ≡ ((key_b ∷ []), full_group) ∷ []
unfolding kept group_new
swept_groups = rw aged_groups-IsGroups.1 refl

cstate_drop_expired-kept_example :
    (gs' : Groups ℕ) × (cstate_drop_expired aged_groups 10 ≡ some gs')
    × IsGroups gs'
    × (entries gs'.lru ≡ kept (λ (g : Group ℕ). ltb g.last_update 10) (entries aged_groups.lru))
cstate_drop_expired-kept_example = cstate_drop_expired-kept aged_groups 10 aged_groups-IsGroups.0

dset_observe-observed_example :
    (s' : Dset ℕ) × (stats' : CorrStats) × (dset_observe no_values key_a 20 4 2 no_corr_stats
      ≡ some (s', length (observed key_a 20 4 2 (entries no_values.lru)), stats'))
    × IsDset s'
    × (entries s'.lru ≡ observed key_a 20 4 2 (entries no_values.lru))
dset_observe-observed_example =
    dset_observe-observed no_values key_a 20 4 2 no_corr_stats no_values-IsDset (omega arith)

dset_observe-bounded_example :
    (s' : Dset ℕ) × (stats' : CorrStats) × (dset_observe no_values key_a 20 4 2 no_corr_stats
      ≡ some (s', s'.count, stats'))
    × (s'.count ≤ 2)
unfolding table_init
dset_observe-bounded_example =
    dset_observe-bounded no_values key_a 20 4 2 no_corr_stats no_values-IsDset (omega arith)
      (omega arith) (omega arith)

eval_event_count-window_example :
    (g' : Group ℕ) × (stats' : CorrStats) × (eval_event_count count_two full_group 20 12
        no_corr_stats
      ≡ some (
        g',
        stats',
        cmp_threshold
            (pos (length {A = ℕ} (in_window 12 (pushed 2 (10 ∷ 14 ∷ []) 20)) + 1))
            op_gte
            (pos 2),
      ))
    × IsTimes g'
    × (times g' ≡ some (in_window 12 (pushed 2 (10 ∷ 14 ∷ []) 20)))
eval_event_count-window_example =
    eval_event_count-window count_two full_group 20 12 no_corr_stats (10 ∷ 14 ∷ [])
      full_group-IsTimes (omega arith) full_group-times

ev_prune-in_window_example :
    (m : ℕ) × (m ≤ 2)
    × (ev_prune full_group 12 ≡ some (behind full_group m))
    × IsTimes (behind full_group m)
    × (times (behind full_group m) ≡ some (in_window 12 (10 ∷ 14 ∷ [])))
ev_prune-in_window_example =
    ev_prune-in_window full_group 12 (10 ∷ 14 ∷ []) full_group-IsTimes full_group-times

rank-nearest_example :
    (rank 95 10 < 10) × (rank 95 10 * 100 < 95 * 10) × (95 * 10 ≤ (rank 95 10 + 1) * 100)
rank-nearest_example = rank-nearest 95 10 (omega arith) (omega arith) (omega arith) (omega arith)

full_group-IsSorted : IsSorted full_group.wm
unfolding IsSorted libsigma.Corr.Watermark.Sorted.From
full_group-IsSorted = (refl, (refl, tt), (refl, tt, tt))

wm_insert-IsSorted_example :
    (g' : Group ℕ) × (stats' : CorrStats) × (wm_insert full_group 12 7 no_corr_stats
      ≡ some (g', stats'))
    × IsSorted g'.wm
    × ((k l : List (ℕ × ℕ)) × (full_group.wm ≡ k ++ l)
        × (g'.wm ≡ k ++ ((12, 7) ∷ l))
        × (all_later 12 l ≡ true))
wm_insert-IsSorted_example =
    wm_insert-IsSorted halves-IsIeee full_group 12 7 no_corr_stats refl (omega arith)
      full_group-IsSorted

index_rules-lists_example :
    (b : List (List RidWatch)) × (index_rules (count_two ∷ []) 0 (replicate 16 []) ≡ some b)
    × ((rid ci : ℕ) → watches b rid ci ≡ lists (count_two ∷ []) ci rid)
index_rules-lists_example = index_rules-lists (count_two ∷ []) 16 (omega arith)

abbrev low_mask : Mask
low_mask = λ i. i == 1

abbrev one_or_not : List CorrTok
one_or_not = c_sel 0 ∷ c_sel 1 ∷ c_not ∷ c_or ∷ []

corr_cond_eval-eager_example :
    corr_cond_eval low_mask one_or_not ≡ eager low_mask 64 (map as_ctok one_or_not) []
corr_cond_eval-eager_example = corr_cond_eval-eager low_mask one_or_not

corr_cond_eval-postfix_example :
    corr_cond_eval low_mask one_or_not ≡ value low_mask (disj (sel 0) (neg (sel 1)))
corr_cond_eval-postfix_example =
    corr_cond_eval-postfix low_mask one_or_not (disj (sel 0) (neg (sel 1))) refl
      (omega arith, omega arith) (omega arith)

corr_owner_index-key_example :
    (corr_owner_index (some key_a) (some key_a ∷ none ∷ []) 3
      ≡ some (corr_fmix32 (corr_djb2_feed 5381 (b'a' ∷ b'\t' ∷ b'a' ∷ b'\t' ∷ [])) % 3))
    × (corr_fmix32 (corr_djb2_feed 5381 (b'a' ∷ b'\t' ∷ b'a' ∷ b'\t' ∷ [])) % 3 < 3)
unfolding corr_owner_key libsigma.Corr.Owner.key_loop
corr_owner_index-key_example =
    corr_owner_index-key 16 (some key_a) (some key_a ∷ none ∷ []) (b'a' ∷ b'\t' ∷ b'a' ∷ b'\t' ∷ [])
      3 refl (omega arith) (omega arith)

-- An event at ten seconds that matched the base rule 7.
abbrev seven : Event ℕ
seven = record {
  matched_rids = 7 ∷ [];
  field_fn = λ _. some key_a;
  ts = 20;
  apply = none;
  to_f64 = λ _. none;
}
