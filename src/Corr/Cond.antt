-- ===== src/Corr/Cond.antt =====
-- `corr_cond_eval` (src/classify_corr.c), the Boolean conditions of the temporal correlations, against
-- the evaluation of the single-event conditions.
use libsigma.Base.{
  ℕ, ◌≤◌, ◌≡◌, refl, ap, ◌∙◌, Bool, false, not, ◌&&◌, ◌||◌, Option, none, some, List, [], ◌∷◌, map,
  length, leb, if◌then◌else◌, arith,
}
use libsigma.Db.{Ctok}
use libsigma.Db.Tok
use libsigma.Rules.Holds.{eager_not, eager_binary, eager_token, eager_finish, eager}
use libsigma.Rules.Expr.{Expr, value, cells, SelsBelow, postfix, eager-postfix_value}
use libsigma.Corr.{CorrTok, c_sel, c_and, c_or, c_not, c_other}

-- A `uint64_t` of flags, as the function of its bits.
abbrev pub Mask : Type 0
Mask = ℕ → Bool

-- The stack, its top first; `none` is `return 0`.
abbrev pub Stack : Type 0
Stack = Option (List Bool)

unfoldable pub cond_not : List Bool → Stack
cond_not [] = none
cond_not (a ∷ st) = some (not a ∷ st)

unfoldable pub cond_and : List Bool → Stack
cond_and [] = none
cond_and (b ∷ []) = none
cond_and (b ∷ a ∷ st) = some ((a && b) ∷ st)

unfoldable pub cond_or : List Bool → Stack
cond_or [] = none
cond_or (b ∷ []) = none
cond_or (b ∷ a ∷ st) = some ((a || b) ∷ st)

module _ (seen_mask : Mask) where
  -- The `switch`.
  unfoldable pub cond_step : CorrTok → List Bool → Stack
  cond_step (c_sel i) st = if leb 64 (length st) || leb 64 i then none else some (seen_mask i ∷ st)
  cond_step c_not st = cond_not st
  cond_step c_and st = cond_and st
  cond_step c_or st = cond_or st
  cond_step c_other st = none

  unfoldable pub cond_finish : List Bool → Bool
  cond_finish [] = false
  cond_finish (a ∷ []) = a
  cond_finish (a ∷ b ∷ st) = false

  unfoldable pub cond_loop : List CorrTok → List Bool → Bool
  cond_loop [] st = cond_finish st
  cond_loop (c ∷ cs) st = elim (cond_step c st) [ none ↦ false | some st' ↦ cond_loop cs st' ]

  unfoldable pub corr_cond_eval : List CorrTok → Bool
  corr_cond_eval cs = cond_loop cs []

-- The token of a single-event condition, and that of a correlation's for the same meaning.
abbrev pub as_ctok : CorrTok → Ctok
as_ctok (c_sel i) = record { kind = Tok.sel; sel_idx = i }
as_ctok c_and = record { kind = Tok.and; sel_idx = 0 }
as_ctok c_or = record { kind = Tok.or; sel_idx = 0 }
as_ctok c_not = record { kind = Tok.not; sel_idx = 0 }
as_ctok c_other = record { kind = 4; sel_idx = 0 }

cond_step_lem :
    (m : Mask) (c : CorrTok) (st : List Bool) → cond_step m c st ≡ eager_token m 64 (as_ctok c) st
unfolding cond_step eager_token cond_not cond_and cond_or eager_not eager_binary
cond_step_lem m (c_sel i) st = ground arith
cond_step_lem m c_not [] = refl
cond_step_lem m c_not (a ∷ st) = refl
cond_step_lem m c_and [] = refl
cond_step_lem m c_and (b ∷ []) = refl
cond_step_lem m c_and (b ∷ a ∷ st) = refl
cond_step_lem m c_or [] = refl
cond_step_lem m c_or (b ∷ []) = refl
cond_step_lem m c_or (b ∷ a ∷ st) = refl
cond_step_lem m c_other st = refl

cond_finish_lem : (m : Mask) (st : List Bool) → cond_finish m st ≡ eager_finish st
unfolding cond_finish
cond_finish_lem m [] = refl
cond_finish_lem m (a ∷ []) = refl
cond_finish_lem m (a ∷ b ∷ st) = refl

after_step :
    (m : Mask) (cs : List CorrTok) (o : Stack)
    → ((st : List Bool) → cond_loop m cs st ≡ eager m 64 (map as_ctok cs) st)
    → ◌≡◌ {A = Bool}
        (elim o [ none ↦ false | some st ↦ cond_loop m cs st ])
        (elim o [ none ↦ false | some st ↦ eager m 64 (map as_ctok cs) st ])
after_step m cs none h = refl
after_step m cs (some st) h = h st

cond_loop_lem :
    (m : Mask) (cs : List CorrTok) (st : List Bool)
    → cond_loop m cs st ≡ eager m 64 (map as_ctok cs) st
unfolding cond_loop eager
cond_loop_lem m [] st = cond_finish_lem m st
cond_loop_lem m (c ∷ cs) st =
    ap (λ (o : Stack). elim o as (λ _. Bool) [ none ↦ false | some st' ↦ cond_loop m cs st' ])
      (cond_step_lem m c st)
    ∙ (after_step m cs (eager_token m 64 (as_ctok c) st) (cond_loop_lem m cs))

-- The condition evaluator of the correlations returns on every token list, malformed ones included,
-- what the eager evaluation of the single-event conditions gives for 64 selections whose values are
-- the bits of the mask.
pub corr_cond_eval-eager :
    (m : Mask) (cs : List CorrTok) → corr_cond_eval m cs ≡ eager m 64 (map as_ctok cs) []
unfolding corr_cond_eval
corr_cond_eval-eager m cs = cond_loop_lem m cs []

-- A condition that is the postfix form of an expression over the first 64 base rules, within the 64
-- cells of the stack, has the value of the expression at the bits of the mask.
pub corr_cond_eval-postfix :
    (m : Mask) (cs : List CorrTok) (e : Expr)
    → map as_ctok cs ≡ postfix e
    → SelsBelow 64 e
    → cells e ≤ 64
    → corr_cond_eval m cs ≡ value m e
corr_cond_eval-postfix m cs e p below fits =
    corr_cond_eval-eager m cs
    ∙ ap (λ ts. eager m 64 ts []) p
    ∙ eager-postfix_value m 64 e below fits
