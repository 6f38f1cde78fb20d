-- ===== src/Eval.antt =====
-- The evaluation scratch of src/sigma_match.c and the full linear scan: `sigma_eval_create`,
-- `bump_eval_gen`, `eval_one_rule`, `eval_linear`.
pub mod Holds
pub mod Stamps
pub mod Scratch
pub mod Linear
use libsigma.Base.{
  ℕ, zero, suc, ◌+◌, ◌%◌, ◌^◌, Bool, true, false, ◌||◌, Option, none, some, ◌>>=◌, List, [], ◌∷◌,
  ◌++◌, map, length, get_elem?, set, replicate, ltb, leb, ◌==◌, if◌then◌else◌,
}
use libsigma.Text.{Bytes}
use libsigma.Db.{no_value, Str, Rule, Db, pool_str}
use libsigma.Match.{Host, FieldFn, Slot, Memo}
use libsigma.Rules.{rule_match}

-- `sigma_eval_stats_t`
pub record Stats : Type 0 where
  pub events : ℕ
  pub rules_in_scope : ℕ
  pub rules_verified : ℕ
  pub prefilter_runs : ℕ
  pub needles_confirmed : ℕ
  pub chain_steps : ℕ
  pub haystack_bytes : ℕ

abbrev pub no_stats : Stats
no_stats = record {
  events = 0;
  rules_in_scope = 0;
  rules_verified = 0;
  prefilter_runs = 0;
  needles_confirmed = 0;
  chain_steps = 0;
  haystack_bytes = 0;
}

-- `struct sigma_eval`; `rule_mask` and `rule_gen` are empty where they are NULL.
pub record Eval : Type 0 where
  pub memo : Memo
  pub rule_mask : List ℕ
  pub rule_gen : List ℕ
  pub eval_done : List ℕ
  pub gen : ℕ
  pub st : Stats
  pub prefilter_on : ℕ

-- `sigma_eval_create`, where every allocation succeeds. `prefilter` tells whether the database has
-- needles or field witnesses.
unfoldable pub sigma_eval_create : Db → Bool → Eval
sigma_eval_create db prefilter =
    let stamps = replicate (length db.rules) 0 in
    record {
      memo = replicate (length db.fields) (record { vstate = false; value = none });
      rule_mask = if prefilter then stamps else [];
      rule_gen = if prefilter then stamps else [];
      eval_done = stamps;
      gen = 0;
      st = no_stats;
      prefilter_on = 1;
    }

unfoldable pub sigma_eval_set_prefilter : Eval → ℕ → Eval
sigma_eval_set_prefilter e enabled = record e {
  prefilter_on = if ltb 2 enabled then 2 else enabled;
}

-- `memset(.., 0, ..)` of an array of stamps.
abbrev pub zeros : List ℕ → List ℕ
zeros = map (λ _. 0)

unfoldable pub bump_eval_gen : Eval → Eval
bump_eval_gen e =
    let g = (e.gen + 1) % 2 ^ 32 in
    if g == 0
    then record e { rule_gen = zeros e.rule_gen; eval_done = zeros e.eval_done; gen = 1 }
    else record e { gen = g }

-- `memset(e->vstate, 0, ..)`
unfoldable pub reset_memo : Memo → Memo
reset_memo = map (λ s. record { vstate = false; value = s.value })

-- `sigma_hit_t`
pub record Hit : Type 0 where
  pub rule_id : ℕ
  pub verdict : ℕ
  pub severity : ℕ
  pub score_x100 : ℕ
  pub mitre : Option Bytes

-- The state of a run: the scratch, the prefix of `out` that is written, and `fired`.
pub record Run : Type 0 where
  pub eval : Eval
  pub out : List Hit
  pub fired : ℕ

-- The technique of a rule that has one; the outer option is a fault.
unfoldable pub hit_mitre : Db → Rule → Option (Option Bytes)
hit_mitre db r =
    if r.mitre_id == no_value || leb (length db.values) r.mitre_id
    then some none
    else (do s ← get_elem? db.values r.mitre_id; t ← pool_str db s; some (some t))

abbrev pub hit_of : Rule → Option Bytes → Hit
hit_of r technique = record {
  rule_id = r.rule_id;
  verdict = r.verdict;
  severity = r.severity;
  score_x100 = r.score_x100;
  mitre = technique;
}

-- A rule that matched: the hit is written where there is room, and counted.
unfoldable pub emit : Db → ℕ → Rule → Run → Option Run
emit db max_hits r run =
    if ltb run.fired max_hits
    then (do
      technique ← hit_mitre db r
      some (record run { out = run.out ++ (hit_of r technique ∷ []); fired = run.fired + 1 }))
    else some (record run { fired = run.fired + 1 })

-- After `rule_match`.
unfoldable pub settle : Db → ℕ → Rule → Bool → Run → Option Run
settle db max_hits r true run = emit db max_hits r run
settle db max_hits r false run = some run

-- A new event: an empty memo and a generation that no stamp has.
unfoldable pub start_event : Eval → Run
start_event e = record {
  eval = bump_eval_gen (record e { memo = reset_memo e.memo });
  out = [];
  fired = 0;
}

module _ (host : Host) (db : Db) (fn : FieldFn) (max_hits : ℕ) where
  -- `eval_one_rule` at a rule that this event has not seen yet.
  unfoldable pub verify : ℕ → Run → Option Run
  verify idx run = do
    r ← get_elem? db.rules idx
    (hit, m) ← rule_match host db fn r run.eval.memo
    settle db max_hits r hit (record {
      eval = record run.eval { eval_done = set run.eval.eval_done idx run.eval.gen; memo = m };
      out = run.out;
      fired = run.fired;
    })

  unfoldable pub eval_one_rule : ℕ → Run → Option Run
  eval_one_rule idx run = do
    stamp ← get_elem? run.eval.eval_done idx
    elim (stamp == run.eval.gen) [ true ↦ some run | false ↦ verify idx run ]

  -- The rules left, and the index of the next one.
  unfoldable pub linear_loop : ℕ → ℕ → Run → Option Run
  linear_loop zero idx run = some run
  linear_loop (suc k) idx run = do run' ← eval_one_rule idx run; linear_loop k (suc idx) run'

  unfoldable pub eval_linear : Eval → Option Run
  eval_linear e = linear_loop (length db.rules) 0 (start_event e)
