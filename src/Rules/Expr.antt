-- ===== src/Rules/Expr.antt =====
-- Conditions as expressions, and the tokens that src/sigma_match.h writes for them in reverse Polish
-- order: `rule_match` (src/sigma_match.c) computes the value of the expression.
use libsigma.Base.{
  ℕ, suc, ◌+◌, ◌≤◌, ◌<◌, ◌≡◌, ◌≢◌, refl, sym, ◌∙◌, subst, ap, Bool, false, not, ◌&&◌, ◌||◌, some,
  List, [], ◌∷◌, ◌++◌, append_assoc, append-nil, length, slice, ◌==◌, arith,
}
use Prim.Native.Nat.{max}
use libsigma.Db.{Ctok, Rule, Db}
use libsigma.Db.Tok
use libsigma.Db.Valid.{RuleIn}
use libsigma.Match.{Host, FieldFn, Memo}
use libsigma.Match.Memo.{Coherent, Returns, Usable}
use libsigma.Rules.{cond_stack_max, rule_match}
use libsigma.Rules.Holds.{eager_not, eager_binary, eager_token, eager, nth_holds, rule_holds}
use libsigma.Rules.Lazy.{rule_match-Returns}

pub data Expr : Type 0 where
  sel : ℕ → Expr
  neg : Expr → Expr
  conj : Expr → Expr → Expr
  disj : Expr → Expr → Expr

abbrev token : ℕ → ℕ → Ctok
token k i = record { kind = k; sel_idx = i }

abbrev pub postfix : Expr → List Ctok
postfix (sel i) = token Tok.sel i ∷ []
postfix (neg a) = postfix a ++ (token Tok.not 0 ∷ [])
postfix (conj a b) = postfix a ++ (postfix b ++ (token Tok.and 0 ∷ []))
postfix (disj a b) = postfix a ++ (postfix b ++ (token Tok.or 0 ∷ []))

abbrev pub value : (ℕ → Bool) → Expr → Bool
value holds (sel i) = holds i
value holds (neg a) = not (value holds a)
value holds (conj a b) = value holds a && value holds b
value holds (disj a b) = value holds a || value holds b

-- How many cells the evaluation needs, and the bound on the selections that it names.
abbrev pub cells : Expr → ℕ
cells (sel i) = 1
cells (neg a) = cells a
cells (conj a b) = max (cells a) (suc (cells b))
cells (disj a b) = max (cells a) (suc (cells b))

abbrev pub SelsBelow : ℕ → Expr → Type 0
SelsBelow n (sel i) = i < n
SelsBelow n (neg a) = SelsBelow n a
SelsBelow n (conj a b) = SelsBelow n a × SelsBelow n b
SelsBelow n (disj a b) = SelsBelow n a × SelsBelow n b

module _ (holds : ℕ → Bool) (n : ℕ) where
  eager_cons :
      (t : Ctok) (ts : List Ctok) (st st' : List Bool)
      → eager_token holds n t st ≡ some st'
      → eager holds n (t ∷ ts) st ≡ eager holds n ts st'
  unfolding eager
  eager_cons t ts st st' e = rw (e, eager) refl

  token_sel_lem :
      (i : ℕ) (st : List Bool)
      → i < n
      → length st < 64
      → eager_token holds n (token Tok.sel i) st ≡ some (holds i ∷ st)
  unfolding eager_token
  token_sel_lem i st h k = ground arith

  token_not_lem :
      (a : Bool) (st : List Bool)
      → eager_token holds n (token Tok.not 0) (a ∷ st) ≡ some (not a ∷ st)
  unfolding eager_token eager_not
  token_not_lem a st = refl

  token_and_lem :
      (a b : Bool) (st : List Bool)
      → eager_token holds n (token Tok.and 0) (b ∷ a ∷ st) ≡ some ((a && b) ∷ st)
  unfolding eager_token eager_binary
  token_and_lem a b st = refl

  token_or_lem :
      (a b : Bool) (st : List Bool)
      → eager_token holds n (token Tok.or 0) (b ∷ a ∷ st) ≡ some ((a || b) ∷ st)
  unfolding eager_token eager_binary
  token_or_lem a b st = refl

  eager-postfix :
      (e : Expr) (ts : List Ctok) (st : List Bool)
      → SelsBelow n e
      → length st + cells e ≤ 64
      → eager holds n (postfix e ++ ts) st ≡ eager holds n ts (value holds e ∷ st)
  eager-postfix (sel i) ts st h k = eager_cons _ ts st _ (token_sel_lem i st h (omega arith))
  eager-postfix (neg a) ts st h k = rw append_assoc (
      eager-postfix a (token Tok.not 0 ∷ ts) st h k
      ∙ eager_cons _ ts _ _ (token_not_lem (value holds a) st))
  eager-postfix (conj a b) ts st (ha, hb) k =
      let last = token Tok.and 0 ∷ ts in
      simp append_assoc (
        eager-postfix a (postfix b ++ last) st ha (omega arith)
        ∙ eager-postfix b last (value holds a ∷ st) hb (omega arith)
        ∙ eager_cons _ ts _ _ (token_and_lem (value holds a) (value holds b) st))
  eager-postfix (disj a b) ts st (ha, hb) k =
      let last = token Tok.or 0 ∷ ts in
      simp append_assoc (
        eager-postfix a (postfix b ++ last) st ha (omega arith)
        ∙ eager-postfix b last (value holds a ∷ st) hb (omega arith)
        ∙ eager_cons _ ts _ _ (token_or_lem (value holds a) (value holds b) st))

  pub eager-postfix_value :
      (e : Expr) → SelsBelow n e → cells e ≤ 64 → eager holds n (postfix e) [] ≡ value holds e
  unfolding eager
  eager-postfix_value e h k =
      ap (λ ts. eager holds n ts []) (sym (append-nil (postfix e)))
      ∙ eager-postfix e [] [] h (omega arith)

-- A rule whose condition is the postfix form of an expression over its selections, needing at most
-- the 64 cells of the stack, matches exactly when the expression is true of the selections.
pub rule_match-postfix :
    (host : Host) (db : Db) (fn : FieldFn) (r : Rule) (e : Expr) (m : Memo)
    → Usable host db
    → RuleIn db r
    → r.cond_count ≢ 0
    → slice r.cond_start r.cond_count db.cond ≡ postfix e
    → SelsBelow r.sel_count e
    → cells e ≤ cond_stack_max
    → Coherent db fn m
    → Returns db fn (rule_match host db fn r m) (value (nth_holds host db fn r) e)
unfolding rule_holds
rule_match-postfix host db fn r e m ok inside ne tokens below fits c =
    let some_tokens : (r.cond_count == 0) ≡ false = ground arith in
    let by_value = eager-postfix_value (nth_holds host db fn r) r.sel_count e below fits in
    let holds : rule_holds host db fn r ≡ value (nth_holds host db fn r) e =
      simp (some_tokens, tokens, by_value) in
    subst (Returns db fn (rule_match host db fn r m)) holds
      (rule_match-Returns host db fn ok r inside m c)
