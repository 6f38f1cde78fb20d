-- ===== src/Rules/Holds.antt =====
-- What a selection and a rule of src/sigma_match.c say of an event: every selection is run, and
-- the condition is evaluated on their values.
use libsigma.Base.{
  ℕ, suc, ◌+◌, Bool, true, false, not, ◌&&◌, ◌||◌, Option, none, some, List, [], ◌∷◌, length,
  get_elem?, slice, leb, ◌==◌, if◌then◌else◌,
}
use libsigma.Db.{Pred, Sel, Ctok, Rule, Db}
use libsigma.Db.Tok
use libsigma.Match.{Host, FieldFn}
use libsigma.Match.Holds.{pred_holds}
use libsigma.Rules.{cond_stack_max}

-- The groups of consecutive predicates, each with its truth: the conjunction of the disjunctions,
-- after a group `cur` of value `acc`.
unfoldable pub groups_hold : Bool → ℕ → List (ℕ × Bool) → Bool
groups_hold acc cur [] = acc
groups_hold acc cur ((g, b) ∷ rest) =
    let same = groups_hold (acc || b) cur rest in
    let other = groups_hold b g rest in if g == cur then same else acc && other

unfoldable pub grouped : List (ℕ × Bool) → Bool
grouped [] = false
grouped ((g, b) ∷ rest) = groups_hold false g ((g, b) ∷ rest)

unfoldable pub eager_not : List Bool → Option (List Bool)
eager_not [] = none
eager_not (a ∷ st) = some (not a ∷ st)

-- A binary connective on the top two values, the right operand on top.
unfoldable pub eager_binary : (Bool → Bool → Bool) → List Bool → Option (List Bool)
eager_binary f [] = none
eager_binary f (b ∷ []) = none
eager_binary f (b ∷ a ∷ st) = some (f a b ∷ st)

abbrev pub eager_finish : List Bool → Bool
eager_finish [] = false
eager_finish (a ∷ []) = a
eager_finish (a ∷ b ∷ st) = false

-- A condition on values: the stack of values and the tokens left. `holds` gives the selections.
module _ (holds : ℕ → Bool) (sel_count : ℕ) where
  unfoldable pub eager_token : Ctok → List Bool → Option (List Bool)
  eager_token t st =
      if t.kind == Tok.sel
      then (if leb cond_stack_max (length st)
          then none
          else if leb sel_count t.sel_idx
          then none
          else some (holds t.sel_idx ∷ st))
      else if t.kind == Tok.not
      then eager_not st
      else if t.kind == Tok.and
      then eager_binary ◌&&◌ st
      else if t.kind == Tok.or
      then eager_binary ◌||◌ st
      else none

  unfoldable pub eager : List Ctok → List Bool → Bool
  eager [] st = eager_finish st
  eager (t ∷ ts) st = elim (eager_token t st) [ none ↦ false | some st' ↦ eager ts st' ]

module _ (host : Host) (db : Db) (fn : FieldFn) where
  -- Predicates from index `idx` on, each as its group and its truth.
  unfoldable pub truths : ℕ → List Pred → List (ℕ × Bool)
  truths idx [] = []
  truths idx (p ∷ ps) = (p.group_id, pred_holds host db fn p idx) ∷ truths (suc idx) ps

  unfoldable pub sel_holds : Sel → Bool
  sel_holds s = grouped (truths s.pred_start (slice s.pred_start s.pred_count db.preds))

  unfoldable pub opt_holds : Option Sel → Bool
  opt_holds none = false
  opt_holds (some s) = sel_holds s

  -- The selection `i` of a rule.
  unfoldable pub nth_holds : Rule → ℕ → Bool
  nth_holds r i = opt_holds (get_elem? db.sels (r.sel_start + i))

  unfoldable pub all_hold : List Sel → Bool
  all_hold [] = true
  all_hold (s ∷ ss) = sel_holds s && all_hold ss

  unfoldable pub rule_holds : Rule → Bool
  rule_holds r =
      if r.cond_count == 0
      then all_hold (slice r.sel_start r.sel_count db.sels) && not (r.sel_count == 0)
      else eager (nth_holds r) r.sel_count (slice r.cond_start r.cond_count db.cond) []
