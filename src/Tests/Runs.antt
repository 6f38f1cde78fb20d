-- ===== src/Tests/Runs.antt =====
-- Runs of the operations.
use libsigma.Base.{ℕ, ◌≡◌, refl, true, false, Option, none, some, List, [], ◌∷◌, length}
use libsigma.Base.Int.{negsuc}
use libsigma.Text.{sg_eq, eq_from, sg_contains, contains_loop, common, byte_eq, sg_lower}
use libsigma.Simd.{sigma_memmem_ci, memmem_ci_scalar, scalar_loop}
use libsigma.Numeric.{sg_to_i64, unsigned, signed, magnitude, is_digit}
use libsigma.Db.{pool_str}
use libsigma.Match.{
  pred_match, pred_test, present_match, value_match, literal_match, literal_operand, string_op,
  numeric_match, numeric_test, is_numeric, resolve_field, resolve_slot, call_field,
}
use libsigma.Rules.{
  rule_match, rpn_loop, rpn_finish, rpn_token, token_sel, token_and, token_or, token_not, negate,
  rpn_force, force_sel, rpn_and, rpn_or, all_sels, sel_match, sel_range, sel_loop, group_step,
}
use libsigma.Eval.{
  Run, eval_linear, sigma_eval_create, start_event, reset_memo, bump_eval_gen, linear_loop,
  eval_one_rule, verify, settle, emit, hit_mitre,
}
use libsigma.Db.{no_value}
use libsigma.Load.{
  range_error, loaded, load_tables, load_index, tables_ok, index_ok, bucket_loop, every, and_also,
  field_ok, value_ok, pred_ok, sel_ok, rule_ok, cond_ok, clauses_ok, cat_field, compile_patterns,
}
use libsigma.Tests.{db, host, event, exe}

-- A leading integer is enough.
sg_to_i64_run : sg_to_i64 (b'-' ∷ b'4' ∷ b'2' ∷ b'k' ∷ []) ≡ some (negsuc 41)
unfolding sg_to_i64 unsigned signed magnitude is_digit
sg_to_i64_run = refl

sg_contains_run : sg_contains exe (b'D' ∷ b'.' ∷ []) false ≡ true
unfolding sg_contains contains_loop common byte_eq sg_lower
sg_contains_run = refl

-- Both rules match: two hits are counted, and one is written where there is room for one.
fired_of : Option Run → List ℕ
fired_of none = []
fired_of (some run) = run.fired ∷ length run.out ∷ []

eval_linear_run : fired_of (eval_linear host db event 1 (sigma_eval_create db false)) ≡ 2 ∷ 1 ∷ []
unfolding fired_of eval_linear sigma_eval_create start_event reset_memo bump_eval_gen linear_loop
    eval_one_rule verify settle emit hit_mitre rule_match rpn_loop rpn_finish rpn_token token_sel
    token_and token_or token_not negate rpn_force force_sel rpn_and rpn_or all_sels sel_match
    sel_range sel_loop group_step pred_match pred_test present_match value_match literal_match
    literal_operand string_op numeric_match numeric_test is_numeric resolve_field resolve_slot
    call_field pool_str sg_eq eq_from byte_eq sg_lower sigma_memmem_ci memmem_ci_scalar scalar_loop
    common sg_to_i64 unsigned signed magnitude is_digit
eval_linear_run = refl

-- The database is accepted as it is.
load_tables_run :
    load_tables (λ _. true) db
    ≡ some (loaded (record db { av_bucket = no_value; cat_field_id = no_value }))
unfolding load_tables load_index tables_ok index_ok bucket_loop every and_also field_ok value_ok
    pred_ok sel_ok rule_ok cond_ok clauses_ok cat_field compile_patterns
load_tables_run = refl

-- A selection that runs past the predicates is refused.
load_tables_refused :
    load_tables (λ _. true) (record db { sels = record { pred_start = 2; pred_count = 2 } ∷ [] })
    ≡ some range_error
unfolding load_tables tables_ok every and_also field_ok value_ok pred_ok sel_ok
load_tables_refused = refl
