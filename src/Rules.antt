-- ===== src/Rules.antt =====
-- Selections and conditions of src/sigma_match.c: `sel_match`, the lazy cells of the condition's
-- stack, and `rule_match`.
pub mod Holds
pub mod Select
pub mod Groups
pub mod Lazy
pub mod Expr
use libsigma.Base.{
  ℕ, zero, suc, ◌+◌, Bool, true, false, not, ◌&&◌, Option, none, some, ◌>>=◌, List, [], ◌∷◌, length,
  get_elem?, leb, ◌==◌, if◌then◌else◌,
}
use libsigma.Db.{Pred, Sel, Ctok, Rule, Db}
use libsigma.Db.Tok
use libsigma.Match.{Host, FieldFn, Memo, pred_match}

-- `SIGMA_COND_STACK_MAX`
abbrev pub cond_stack_max : ℕ
cond_stack_max = 64

-- `rpn_cell_t`: a value, a selection that has not been run, or the negation of one.
pub data Cell : Type 0 where
  bool : Bool → Cell
  sel : ℕ → Cell
  notsel : ℕ → Cell

-- The case `SIGMA_C_NOT` at the top of the stack.
unfoldable pub negate : Cell → Cell
negate (bool b) = bool (not b)
negate (sel i) = notsel i
negate (notsel i) = sel i

-- What a token leaves: a stack, its top first, or `return false`.
abbrev pub Stacked : Type 0
Stacked = Option (Option (List Cell) × Memo)

module _ (host : Host) (db : Db) (fn : FieldFn) where
  -- The rest of a group that is already true is skipped.
  unfoldable pub group_step : Pred → ℕ → Bool → Memo → Option (Bool × Memo)
  group_step p idx true m = some (true, m)
  group_step p idx false m = pred_match host db fn p idx m

  -- The loop of `sel_match`: the predicates left, the index of the next one, `group_or` and
  -- `cur_group`.
  unfoldable pub sel_loop : ℕ → ℕ → Bool → ℕ → Memo → Option (Bool × Memo)
  sel_loop zero idx group_or cur m = some (group_or, m)
  sel_loop (suc k) idx group_or cur m = do
    p ← get_elem? db.preds idx
    elim (p.group_id == cur) [
      | true ↦ do (r, m1) ← group_step p idx group_or m; sel_loop k (suc idx) r cur m1
      | false ↦ elim group_or [
        | false ↦ some (false, m)
        | true ↦ do (r, m1) ← group_step p idx false m; sel_loop k (suc idx) r p.group_id m1
      ]
    ]

  -- `pred_count` and `pred_start`.
  unfoldable pub sel_range : ℕ → ℕ → Memo → Option (Bool × Memo)
  sel_range count start m =
      if count == 0
      then some (false, m)
      else (do p ← get_elem? db.preds start; sel_loop count start false p.group_id m)

  unfoldable pub sel_match : Sel → Memo → Option (Bool × Memo)
  sel_match s m = sel_range s.pred_count s.pred_start m

  -- The selection `i` of a rule; an index past the rule's selections is false.
  unfoldable pub force_sel : Rule → ℕ → Bool → Memo → Option (Bool × Memo)
  force_sel r i flip m = if leb r.sel_count i then some (false, m) else (do
    s ← get_elem? db.sels (r.sel_start + i)
    (hit, m1) ← sel_match s m
    some (if flip then not hit else hit, m1))

  unfoldable pub rpn_force : Rule → Cell → Memo → Option (Bool × Memo)
  rpn_force r (bool b) m = some (b, m)
  rpn_force r (sel i) m = force_sel r i false m
  rpn_force r (notsel i) m = force_sel r i true m

  -- The right operand is forced only if the left one does not decide.
  unfoldable pub rpn_and : Rule → Cell → Bool → Memo → Option (Bool × Memo)
  rpn_and r b false m = some (false, m)
  rpn_and r b true m = rpn_force r b m

  unfoldable pub rpn_or : Rule → Cell → Bool → Memo → Option (Bool × Memo)
  rpn_or r b true m = some (true, m)
  rpn_or r b false m = rpn_force r b m

  unfoldable pub token_and : Rule → List Cell → Memo → Stacked
  token_and r [] m = some (none, m)
  token_and r (b ∷ []) m = some (none, m)
  token_and r (b ∷ a ∷ st) m = do
    (av, m1) ← rpn_force r a m
    (v, m2) ← rpn_and r b av m1
    some (some (bool v ∷ st), m2)

  unfoldable pub token_or : Rule → List Cell → Memo → Stacked
  token_or r [] m = some (none, m)
  token_or r (b ∷ []) m = some (none, m)
  token_or r (b ∷ a ∷ st) m = do
    (av, m1) ← rpn_force r a m
    (v, m2) ← rpn_or r b av m1
    some (some (bool v ∷ st), m2)

  unfoldable pub token_not : List Cell → Memo → Stacked
  token_not [] m = some (none, m)
  token_not (c ∷ st) m = some (some (negate c ∷ st), m)

  unfoldable pub token_sel : Rule → ℕ → List Cell → Memo → Stacked
  token_sel r i st m =
      if leb cond_stack_max (length st)
      then some (none, m)
      else if leb r.sel_count i
      then some (none, m)
      else some (some (sel i ∷ st), m)

  -- The `switch` on the token's kind.
  unfoldable pub rpn_token : Rule → Ctok → List Cell → Memo → Stacked
  rpn_token r t st m =
      if t.kind == Tok.sel
      then token_sel r t.sel_idx st m
      else if t.kind == Tok.not
      then token_not st m
      else if t.kind == Tok.and
      then token_and r st m
      else if t.kind == Tok.or
      then token_or r st m
      else some (none, m)

  -- After the last token: `sp != 1`, or the cell that is left.
  unfoldable pub rpn_finish : Rule → List Cell → Memo → Option (Bool × Memo)
  rpn_finish r [] m = some (false, m)
  rpn_finish r (c ∷ []) m = rpn_force r c m
  rpn_finish r (c ∷ d ∷ st) m = some (false, m)

  -- The loop over the tokens: how many are left, the index of the next one, the stack.
  unfoldable pub rpn_loop : Rule → ℕ → ℕ → List Cell → Memo → Option (Bool × Memo)
  rpn_loop r zero pos st m = rpn_finish r st m
  rpn_loop r (suc k) pos st m = do
    t ← get_elem? db.cond pos
    (o, m1) ← rpn_token r t st m
    elim o [ none ↦ some (false, m1) | some st' ↦ rpn_loop r k (suc pos) st' m1 ]

  -- The conjunction of the selections from `idx` on.
  unfoldable pub all_sels : ℕ → ℕ → Memo → Option (Bool × Memo)
  all_sels zero idx m = some (true, m)
  all_sels (suc k) idx m = do
    s ← get_elem? db.sels idx
    (hit, m1) ← sel_match s m
    elim hit [ false ↦ some (false, m1) | true ↦ all_sels k (suc idx) m1 ]

  unfoldable pub rule_match : Rule → Memo → Option (Bool × Memo)
  rule_match r m =
      if r.cond_count == 0
      then (do
        (hit, m1) ← all_sels r.sel_count r.sel_start m
        some (hit && not (r.sel_count == 0), m1))
      else rpn_loop r r.cond_count r.cond_start [] m
