-- ===== src/Tests/Witness.antt =====
-- The theorems at the small database and event of the parent.
use libsigma.Base.{
  ℕ, ◌≡◌, ◌≢◌, ◌↔◌, refl, Bool, true, false, none, some, [], ◌∷◌, ◌++◌, length, take, map, slice,
  arith,
}
use libsigma.Base.Int.{clamp_i64}
use mathlib.Core.Option
use libsigma.Text.{sg_eq, sg_contains, sg_starts, sg_ends}
use libsigma.Text.Occurs.{
  fold, Starts, Ends, Occurs, sg_eq_iff, sg_contains_iff, sg_starts_iff, sg_ends_iff,
}
use libsigma.Simd.{sigma_memmem_ci, memmem_ci_sse, memmem_ci_neon}
use libsigma.Simd.Search.{IsFirst, memmem_ci_builds_agree, sigma_memmem_ci-IsFirst}
use libsigma.Numeric.{sg_to_i64}
use libsigma.Numeric.Saturate.{integer_prefix, sg_to_i64-clamp}
use libsigma.Cidr.{prefix_match, ip_in_cidr}
use libsigma.Cidr.Prefix.{bits, prefix_match-bits}
use libsigma.Cidr.Reads.{prefix_match_overread, ip_in_cidr_total}
use libsigma.Match.{pred_match}
use libsigma.Match.Holds.{pred_holds}
use libsigma.Match.Memo.{Returns, pred_match-Returns}
use libsigma.Rules.{sel_match, rule_match}
use libsigma.Rules.Holds.{truths, nth_holds, rule_holds}
use libsigma.Rules.Groups.{Has, HasTrue, sel_match-groups}
use libsigma.Rules.Lazy.{rule_match-Returns}
use libsigma.Rules.Expr.{value, rule_match-postfix}
use libsigma.Eval.{Run, sigma_eval_create, bump_eval_gen, eval_linear}
use libsigma.Eval.Holds.{expected_hit, matching}
use libsigma.Eval.Stamps.{IsFresh, bump_eval_gen-IsFresh}
use libsigma.Eval.Scratch.{IsScratch, sigma_eval_create-IsScratch}
use libsigma.Eval.Linear.{eval_linear-Reported}
use libsigma.Layout.{total, header, check_header, accepted}
use libsigma.Layout.Accept.{check_header-header}
use libsigma.Tests.{db-small}
use libsigma.Load.{Outcome, load_tables}
use libsigma.Load.Valid.{Sound, load_tables-Sound}
use libsigma.Tests.{
  indexed_db, indexed_db-IsParsed, db, host, event, exe, address, net10, img_not, both, cond_rule,
  memo, expr, last_eval, db-Usable, host-IsInet, net10-CidrFits, memo-Coherent, both-IsGrouped,
  last_eval-IsStamped, last_eval-IsScratch,
}

eval_linear-Reported_example :
    (run' : Run) × (eval_linear host db event 1 last_eval ≡ some run')
    × (run'.fired ≡ length (matching host db event db.rules))
    × (run'.out ≡ take 1 (map (expected_hit db) (matching host db event db.rules)))
    × IsScratch db run'.eval
eval_linear-Reported_example =
    eval_linear-Reported host db event 1 db-Usable last_eval last_eval-IsScratch

rule_match-Returns_example :
    Returns db event (rule_match host db event cond_rule memo) (rule_holds host db event cond_rule)
rule_match-Returns_example =
    rule_match-Returns host db event db-Usable cond_rule (omega arith, omega arith) memo
      memo-Coherent

rule_match-postfix_example :
    Returns db event
      (rule_match host db event cond_rule memo)
      (value (nth_holds host db event cond_rule) expr)
rule_match-postfix_example =
    rule_match-postfix host db event cond_rule expr memo db-Usable (omega arith, omega arith)
      (λ e. omega arith) refl (omega arith, omega arith) (omega arith) memo-Coherent

pred_match-Returns_example :
    Returns db event (pred_match host db event img_not 2 memo) (pred_holds host db event img_not 2)
pred_match-Returns_example =
    pred_match-Returns host db event img_not 2 db-Usable (omega arith) memo memo-Coherent

sel_match-groups_example :
    (b : Bool) × Returns db event (sel_match host db event both memo) b
    × ((b ≡ true) ↔ (
        (truths host db event 0 (slice 0 2 db.preds) ≢ [])
        × ((g : ℕ)
            → Has g (truths host db event 0 (slice 0 2 db.preds))
            → HasTrue g (truths host db event 0 (slice 0 2 db.preds)))))
sel_match-groups_example =
    sel_match-groups host db event both memo db-Usable (omega arith) both-IsGrouped memo-Coherent

bump_eval_gen-IsFresh_example : IsFresh (bump_eval_gen last_eval)
bump_eval_gen-IsFresh_example = bump_eval_gen-IsFresh last_eval last_eval-IsStamped

sigma_memmem_ci-IsFirst_example : IsFirst 0 exe (b'E' ∷ []) (sigma_memmem_ci exe (b'E' ∷ []))
sigma_memmem_ci-IsFirst_example = sigma_memmem_ci-IsFirst exe (b'E' ∷ [])

memmem_ci_builds_agree_example :
    (memmem_ci_sse exe (b'E' ∷ []) ≡ sigma_memmem_ci exe (b'E' ∷ []))
    × (memmem_ci_neon exe (b'E' ∷ []) ≡ sigma_memmem_ci exe (b'E' ∷ []))
memmem_ci_builds_agree_example = memmem_ci_builds_agree exe (b'E' ∷ [])

sg_contains_iff_example : (sg_contains exe (b'D' ∷ []) false ≡ true) ↔ Occurs false exe (b'D' ∷ [])
sg_contains_iff_example = sg_contains_iff exe (b'D' ∷ []) false

sg_starts_iff_example : (sg_starts exe (b'c' ∷ []) true ≡ true) ↔ Starts true exe (b'c' ∷ [])
sg_starts_iff_example = sg_starts_iff exe (b'c' ∷ []) true

sg_ends_iff_example : (sg_ends exe (b'E' ∷ []) false ≡ true) ↔ Ends false exe (b'E' ∷ [])
sg_ends_iff_example = sg_ends_iff exe (b'E' ∷ []) false

sg_eq_iff_example :
    (sg_eq (b'A' ∷ []) (b'a' ∷ []) false ≡ true) ↔ (fold false (b'A' ∷ []) ≡ fold false (b'a' ∷ []))
sg_eq_iff_example = sg_eq_iff (b'A' ∷ []) (b'a' ∷ []) false

sg_to_i64-clamp_example :
    sg_to_i64 (b'-' ∷ b'4' ∷ b'2' ∷ b'k' ∷ [])
    ≡ Option.map clamp_i64 (integer_prefix (b'-' ∷ b'4' ∷ b'2' ∷ b'k' ∷ []))
sg_to_i64-clamp_example = sg_to_i64-clamp (b'-' ∷ b'4' ∷ b'2' ∷ b'k' ∷ [])

prefix_match-bits_example :
    (b : Bool) × (prefix_match address net10.net 12 4 ≡ some b)
    × ((b ≡ true) ↔ (take 12 (bits address) ≡ take 12 (bits net10.net)))
prefix_match-bits_example =
    prefix_match-bits address net10.net 12 4
      (omega arith, (omega arith, (omega arith, (omega arith, tt))))
      (
        omega arith,
        (
          omega arith,
          (
            omega arith,
            (
              omega arith,
              (
                omega arith,
                (
                  omega arith,
                  (
                    omega arith,
                    (
                      omega arith,
                      (
                        omega arith,
                        (
                          omega arith,
                          (
                            omega arith,
                            (
                              omega arith,
                              (omega arith, (omega arith, (omega arith, (omega arith, tt)))),
                            ),
                          ),
                        ),
                      ),
                    ),
                  ),
                ),
              ),
            ),
          ),
        ),
      )
      refl (omega arith) (omega arith)

prefix_match_overread_example : prefix_match address (address ++ (0 ∷ [])) 33 4 ≡ none
prefix_match_overread_example =
    prefix_match_overread address (0 ∷ []) 33 4 refl (omega arith) (omega arith)

ip_in_cidr_total_example : (b : Bool) × (ip_in_cidr host.inet (exe ++ (b'0' ∷ [])) net10 ≡ some b)
ip_in_cidr_total_example =
    ip_in_cidr_total host.inet (exe ++ (b'0' ∷ [])) net10 host-IsInet net10-CidrFits

sigma_eval_create-IsScratch_example : IsScratch db (sigma_eval_create db true)
sigma_eval_create-IsScratch_example = sigma_eval_create-IsScratch db true

load_tables-Sound_example :
    (o : Outcome) × (load_tables (λ _. true) indexed_db ≡ some o) × Sound indexed_db o
load_tables-Sound_example = load_tables-Sound (λ _. true) indexed_db indexed_db-IsParsed

check_header-header_example : check_header (header db) (total db) ≡ accepted
check_header-header_example = check_header-header db db-small
