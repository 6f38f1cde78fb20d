-- ===== src/Corr/Dispatch.antt =====
-- The loops of `corr_on_event_apply` (src/classify_corr.c) over the correlations that watch a rule of the
-- event, each of them once, and the records that are handed out.
pub mod Bounded
pub mod Total
use libsigma.Base.{
  ℕ, ◌+◌, Bool, true, false, ◌&&◌, ◌||◌, Option, none, some, ◌>>=◌, List, [], ◌∷◌, ◌++◌, length,
  get_elem?, set, replicate, ltb, leb, ◌==◌, if◌then◌else◌,
}
use libsigma.Base.Int.{ℤ, pos}
use libsigma.Text.{Bytes}
use libsigma.Corr.{
  CorrType, value_count, value_sum, value_avg, value_percentile, value_median, CorrRule, CorrCaps,
  CorrStats, inc, CorrTier, corr_tier_for, corr_group_fields, medium,
}
use libsigma.Corr.Float.{Double}
use libsigma.Corr.Group.{Group}
use libsigma.Corr.Index.{RidWatch, rid_index_find}
use libsigma.Corr.Engine.{Groups, CorrState, CorrEngine, cstate_get_or_create, sweep_if_due}
use libsigma.Corr.Event.{
  CorrFieldFn, group_values, collect_hits, write_value, eval_rule, observed_of, refire,
}

-- `corr_fire_t`, without the weight, which the tier determines. The number of group values is that of
-- `group_by`.
pub record CorrFire : Type 0 where
  pub rule_id : Option Bytes
  pub title : Option Bytes
  pub kind : CorrType
  pub technique : Option Bytes
  pub level : Bytes
  pub tier : CorrTier
  pub group_by : List Bytes
  pub group : Option (List Bytes)
  pub threshold : ℤ
  pub base_rule_ids : List ℕ
  pub observed : ℤ
  pub value_field : Option Bytes
  pub remote : Bool

-- `r->level ? r->level : "medium"`
abbrev pub fire_level : Option Bytes → Bytes
fire_level none = medium
fire_level (some level) = level

unfoldable pub observed_field : CorrRule → Option Bytes
observed_field r = elim r.kind [
  | value_count ↦ r.value_field
  | value_sum ↦ r.value_field
  | value_avg ↦ r.value_field
  | value_percentile ↦ r.value_field
  | value_median ↦ r.value_field
  | _ ↦ none
]

unfoldable pub fire_of : CorrRule → ℤ → Bool → Option (List Bytes) → CorrFire
fire_of r observed remote group = record {
  rule_id = r.id;
  title = r.title;
  kind = r.kind;
  technique = r.mitre;
  level = fire_level r.level;
  tier = corr_tier_for r.kind r.level;
  group_by = r.group_by;
  group = group;
  threshold = r.cond_count;
  base_rule_ids = r.base_rule_ids;
  observed = observed;
  value_field = observed_field r;
  remote = remote;
}

-- What the caller's storage takes: `max_out` records, and `grp_cap` group values, where it has such (`none`
-- is NULL).
pub record Room : Type 0 where
  pub max_out : ℕ
  pub grp_cap : Option ℕ

-- What is handed out so far. `fired_count` counts the fires that found no room too.
pub record Fires : Type 0 where
  pub out : List CorrFire
  pub fired_count : ℕ
  pub scratch_used : ℕ

-- Whether `n` more group values have room.
unfoldable pub fits : Room → ℕ → ℕ → Bool
fits room used n = elim room.grp_cap [ none ↦ false | some cap ↦ ltb 0 n && leb (used + n) cap ]

-- A fire of the rule, in the group of the values `gvals`.
unfoldable pub hand_out :
    Room → CorrRule → List Bytes → ℤ → Bool → Fires → CorrStats → Fires × CorrStats
hand_out room r gvals observed remote fs stats =
    if ltb fs.fired_count room.max_out
    then (if fits room fs.scratch_used (length r.group_by)
        then (
          record {
            out = fs.out ++ (fire_of r observed remote (some gvals) ∷ []);
            fired_count = fs.fired_count + 1;
            scratch_used = fs.scratch_used + length r.group_by;
          },
          stats,
        )
        else (
          record {
            out = fs.out ++ (fire_of r observed remote none ∷ []);
            fired_count = fs.fired_count + 1;
            scratch_used = fs.scratch_used;
          },
          if ltb 0 (length r.group_by)
              then record stats { group_evidence_dropped = inc stats.group_evidence_dropped }
              else stats,
        ))
    else (
      record fs { fired_count = fs.fired_count + 1 },
      record stats { fires_truncated = inc stats.fires_truncated },
    )

-- Whether the caller lets this correlation take the event.
unfoldable pub applies : Option (CorrRule → List Bytes → Bool) → CorrRule → List Bytes → Bool
applies none r gvals = true
applies (some apply) r gvals = apply r gvals

-- The event as it is given.
pub record Event (W : Type 0) : Type 0 where
  pub matched_rids : List ℕ
  pub field_fn : CorrFieldFn
  pub ts : W
  pub apply : Option (CorrRule → List Bytes → Bool)
  pub to_f64 : Bytes → Option W

module _ {W : Type 0} ⦃d : Double W⦄ where
  -- The group of the values: it is found or made, evaluated, and written back.
  unfoldable pub eval_group :
      CorrCaps W
      → ℕ
      → Event W
      → CorrRule
      → Groups W
      → List Bytes
      → CorrStats
      → Option (Groups W × Group W × CorrStats × Bool × W)
  eval_group caps scratch_cap ev r gs gvals stats = do
    (gs1, n, g, stats1) ← cstate_get_or_create gs caps gvals stats
    let timespan = d.of_int r.timespan_s
    (hits, stats2) ← collect_hits r.base_rule_ids ev.matched_rids [] stats1
    let g1 = record g { last_update = ev.ts }
    (if length hits == 0
        then some
            (record gs1 { lru = write_value n g1 gs1.lru }, g1, stats2, false, d.of_int (pos 0))
        else (do
          (g2, stats3, fired, vagg) ←
              eval_rule ev.to_f64 ev.field_fn caps scratch_cap r g1 hits ev.ts
                (d.sub ev.ts timespan) stats2
          let (g3, stats4, lit) = refire ev.ts timespan g2 fired stats3
          some (record gs1 { lru = write_value n g3 gs1.lru }, g3, stats4, lit, vagg)))

  -- The evaluation of correlation `st`, which the rule `rid` of the event has led to.
  unfoldable pub eval_state :
      CorrCaps W
      → ℕ
      → Room
      → Event W
      → ℕ
      → CorrState W
      → Fires
      → CorrStats
      → Option (CorrState W × Fires × CorrStats)
  eval_state caps scratch_cap room ev rid st fs stats =
      elim (group_values ev.field_fn (corr_group_fields st.rule rid)) [
        | none ↦ some (
          st,
          fs,
          record stats { event_skipped_missing_field = inc stats.event_skipped_missing_field },
        )
        | some gvals ↦ elim (applies ev.apply st.rule gvals) [
          | false ↦ some (st, fs, stats)
          | true ↦ do
            (gs, g, stats1, lit, vagg) ←
                eval_group caps scratch_cap ev st.rule st.groups gvals stats
            let (fs1, stats2) =
                if lit
                then hand_out room st.rule gvals (observed_of st.rule g vagg) g.merge_remote fs
                    stats1
                else (fs, stats1)
            some (record st { groups = gs }, fs1, stats2)
        ]
      ]

-- The loop's state: the correlations, those already evaluated, the fires and the counters.
pub record EventRun (W : Type 0) : Type 0 where
  pub states : List (CorrState W)
  pub visited : List Bool
  pub fires : Fires
  pub stats : CorrStats

module _ {W : Type 0} ⦃d : Double W⦄ (caps : CorrCaps W) (scratch_cap : ℕ) (room : Room)
    (ev : Event W) where
  -- Correlation number `ci`, once.
  unfoldable pub visit_corr : ℕ → ℕ → EventRun W → Option (EventRun W)
  visit_corr rid ci run = do
    seen ← get_elem? run.visited ci
    elim seen [
      | true ↦ some run
      | false ↦ do
        st ← get_elem? run.states ci
        (st', fs, stats) ← eval_state caps scratch_cap room ev rid st run.fires run.stats
        some (record {
          states = set run.states ci st';
          visited = set run.visited ci true;
          fires = fs;
          stats = stats;
        })
    ]

  unfoldable pub visit_corrs : ℕ → List ℕ → EventRun W → Option (EventRun W)
  visit_corrs rid [] run = some run
  visit_corrs rid (ci ∷ cis) run = do run' ← visit_corr rid ci run; visit_corrs rid cis run'

  -- The correlations that watch a rule; none where the index has no entry.
  unfoldable pub visit_rid : List (List RidWatch) → ℕ → EventRun W → Option (EventRun W)
  visit_rid buckets rid run = do
    hit ← rid_index_find buckets rid
    elim hit [ none ↦ some run | some w ↦ visit_corrs rid w.corr_idx run ]

  unfoldable pub visit_rids : List (List RidWatch) → List ℕ → EventRun W → Option (EventRun W)
  visit_rids buckets [] run = some run
  visit_rids buckets (rid ∷ rids) run = do
    run' ← visit_rid buckets rid run
    visit_rids buckets rids run'

abbrev pub no_fires : Fires
no_fires = record { out = []; fired_count = 0; scratch_used = 0 }

-- The result is the engine after the event with the fires; `fires.fired_count` is the returned number.
unfoldable pub corr_on_event_apply :
    {W : Type 0} ⦃d : Double W⦄ → CorrEngine W → Event W → Room → Option (CorrEngine W × Fires)
corr_on_event_apply e ev room =
    if length e.states == 0 || length ev.matched_rids == 0 then some (e, no_fires) else (do
      e1 ← sweep_if_due e ev.ts
      run ← visit_rids e1.caps e1.pct_scratch_cap room ev e1.rid_buckets ev.matched_rids (record {
        states = e1.states;
        visited = replicate (length e1.states) false;
        fires = no_fires;
        stats = e1.stats;
      })
      some (record e1 { states = run.states; stats = run.stats }, run.fires))

unfoldable pub corr_on_event :
    {W : Type 0} ⦃d : Double W⦄ → CorrEngine W → Event W → Room → Option (CorrEngine W × Fires)
corr_on_event e ev room = corr_on_event_apply e (record ev { apply = none }) room
