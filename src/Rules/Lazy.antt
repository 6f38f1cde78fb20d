-- ===== src/Rules/Lazy.antt =====
-- The lazy stack of `rule_match` (src/sigma_match.c) against the evaluation of every selection.
use libsigma.Base.{
  ℕ, zero, suc, ◌+◌, ◌≤◌, ◌<◌, ◌≡◌, refl, ap, Bool, true, false, not, ◌&&◌, ◌||◌, Option, none,
  some, List, [], ◌∷◌, map, length, get_elem?_of_lt, slice, leb, ◌==◌, if◌then◌else◌, arith,
}
use libsigma.Db.{Ctok, Rule, Db}
use libsigma.Db.Tok
use libsigma.Db.Valid.{RuleIn}
use libsigma.Match.{Host, FieldFn, Memo}
use libsigma.Match.Memo.{
  Coherent, Returns, Returns-bind, Returns-some, Returns-read, Returns-and, Returns-if, Usable,
}
use libsigma.Rules.{
  cond_stack_max, Cell, bool, sel, notsel, negate, sel_match, force_sel, rpn_force, rpn_and, rpn_or,
  Stacked, token_and, token_or, token_not, token_sel, rpn_token, rpn_finish, rpn_loop, all_sels,
  rule_match,
}
use libsigma.Rules.Holds.{
  eager_not, eager_binary, eager_token, eager_finish, eager, sel_holds, opt_holds, nth_holds,
  all_hold, rule_holds,
}
use libsigma.Rules.Select.{slice_cons, sel_match-Returns}

-- The value of a cell, and the bound on its selection.
cell_value : (ℕ → Bool) → Cell → Bool
cell_value holds (bool b) = b
cell_value holds (sel i) = holds i
cell_value holds (notsel i) = not (holds i)

abbrev CellIn : ℕ → Cell → Type 0
CellIn n (bool b) = Unit
CellIn n (sel i) = i < n
CellIn n (notsel i) = i < n

abbrev StackIn : ℕ → List Cell → Type 0
StackIn n [] = Unit
StackIn n (c ∷ st) = CellIn n c × StackIn n st

length-map-value :
    (holds : ℕ → Bool) (st : List Cell) → length (map (cell_value holds) st) ≡ length st
length-map-value holds [] = refl
length-map-value holds (c ∷ st) = ap suc (length-map-value holds st)

module _ (holds : ℕ → Bool) (n : ℕ) where
  -- A lazy stack stands for the stack of its values; both or neither `return false`.
  abbrev Agrees : Option (List Cell) → Option (List Bool) → Type 0
  Agrees none none = Unit
  Agrees none (some vs) = ⊥
  Agrees (some st) none = ⊥
  Agrees (some st) (some vs) = (map (cell_value holds) st ≡ vs) × StackIn n st

negate_value :
    (holds : ℕ → Bool) (c : Cell) → cell_value holds (negate c) ≡ not (cell_value holds c)
unfolding cell_value negate
negate_value holds (bool b) = refl
negate_value holds (sel i) = refl
negate_value holds (notsel i) = ground arith

negate-CellIn : (n : ℕ) (c : Cell) → CellIn n c → CellIn n (negate c)
unfolding negate
negate-CellIn n (bool b) h = h
negate-CellIn n (sel i) h = h
negate-CellIn n (notsel i) h = h

module _ (host : Host) (db : Db) (fn : FieldFn) (ok : Usable host db) (r : Rule)
    (inside : RuleIn db r) where
  abbrev holds : ℕ → Bool
  holds = nth_holds host db fn r

  force_sel-Returns :
      (i : ℕ) (flip : Bool) (m : Memo)
      → i < r.sel_count
      → Coherent db fn m
      → Returns db fn (force_sel host db fn r i flip m) (if flip then not (holds i) else holds i)
  unfolding force_sel nth_holds opt_holds
  force_sel-Returns i flip m h c =
      let o : leb r.sel_count i ≡ false = ground arith in
      let (s, e) = get_elem?_of_lt db.sels (r.sel_start + i) (omega arith) in
      rw (o, e)
        (Returns-bind (sel_match host db fn s m) _ _
          (sel_match-Returns host db fn ok s m (ok.valid.sels_in (r.sel_start + i) s e) c)
          (λ m1 c1. Returns-some _ m1 c1))

  rpn_force-Returns :
      (cell : Cell) (m : Memo)
      → CellIn r.sel_count cell
      → Coherent db fn m
      → Returns db fn (rpn_force host db fn r cell m) (cell_value holds cell)
  unfolding rpn_force cell_value
  rpn_force-Returns (bool b) m h c = Returns-some b m c
  rpn_force-Returns (sel i) m h c = force_sel-Returns i false m h c
  rpn_force-Returns (notsel i) m h c = force_sel-Returns i true m h c

  rpn_and-Returns :
      (b : Cell) (av : Bool) (m : Memo)
      → CellIn r.sel_count b
      → Coherent db fn m
      → Returns db fn (rpn_and host db fn r b av m) (av && cell_value holds b)
  unfolding rpn_and
  rpn_and-Returns b true m h c = rpn_force-Returns b m h c
  rpn_and-Returns b false m h c = Returns-some false m c

  rpn_or-Returns :
      (b : Cell) (av : Bool) (m : Memo)
      → CellIn r.sel_count b
      → Coherent db fn m
      → Returns db fn (rpn_or host db fn r b av m) (av || cell_value holds b)
  unfolding rpn_or
  rpn_or-Returns b true m h c = Returns-some true m c
  rpn_or-Returns b false m h c = rpn_force-Returns b m h c

  -- A token's outcome, with what the values make of it.
  abbrev TokenOk : Stacked → Option (List Bool) → Type 0
  TokenOk x vs = (o : Option (List Cell)) × Returns db fn x o × Agrees holds r.sel_count o vs

  token_and-Ok :
      (st : List Cell) (m : Memo)
      → StackIn r.sel_count st
      → Coherent db fn m
      → TokenOk (token_and host db fn r st m) (eager_binary ◌&&◌ (map (cell_value holds) st))
  unfolding token_and eager_binary cell_value
  token_and-Ok [] m h c = (none, Returns-some none m c, tt)
  token_and-Ok (b ∷ []) m h c = (none, Returns-some none m c, tt)
  token_and-Ok (b ∷ a ∷ st) m (hb, (ha, hs)) c =
      let v = cell_value holds a && cell_value holds b in
      (
        some (bool v ∷ st),
        Returns-bind (rpn_force host db fn r a m) _ _ (rpn_force-Returns a m ha c) λ m1 c1.
            Returns-bind (rpn_and host db fn r b (cell_value holds a) m1) _ _
              (rpn_and-Returns b (cell_value holds a) m1 hb c1) λ m2 c2. Returns-some _ m2 c2,
        (refl, (tt, hs)),
      )

  token_or-Ok :
      (st : List Cell) (m : Memo)
      → StackIn r.sel_count st
      → Coherent db fn m
      → TokenOk (token_or host db fn r st m) (eager_binary ◌||◌ (map (cell_value holds) st))
  unfolding token_or eager_binary cell_value
  token_or-Ok [] m h c = (none, Returns-some none m c, tt)
  token_or-Ok (b ∷ []) m h c = (none, Returns-some none m c, tt)
  token_or-Ok (b ∷ a ∷ st) m (hb, (ha, hs)) c =
      let v = cell_value holds a || cell_value holds b in
      (
        some (bool v ∷ st),
        Returns-bind (rpn_force host db fn r a m) _ _ (rpn_force-Returns a m ha c) λ m1 c1.
            Returns-bind (rpn_or host db fn r b (cell_value holds a) m1) _ _
              (rpn_or-Returns b (cell_value holds a) m1 hb c1) λ m2 c2. Returns-some _ m2 c2,
        (refl, (tt, hs)),
      )

  token_not-Ok :
      (st : List Cell) (m : Memo)
      → StackIn r.sel_count st
      → Coherent db fn m
      → TokenOk (token_not host db fn st m) (eager_not (map (cell_value holds) st))
  unfolding token_not eager_not
  token_not-Ok [] m h c = (none, Returns-some none m c, tt)
  token_not-Ok (a ∷ st) m (ha, hs) c = (
    some (negate a ∷ st),
    Returns-some _ m c,
    (
      ap (λ v. v ∷ map (cell_value holds) st) (negate_value holds a),
      (negate-CellIn r.sel_count a ha, hs),
    ),
  )

  TokenOk-if :
      (t : Bool) {x y : Stacked} {v w : Option (List Bool)}
      → (t ≡ true → TokenOk x v)
      → (t ≡ false → TokenOk y w)
      → TokenOk (if t then x else y) (if t then v else w)
  TokenOk-if true f g = f refl
  TokenOk-if false f g = g refl

  token_sel-Ok :
      (i : ℕ) (st : List Cell) (m : Memo)
      → StackIn r.sel_count st
      → Coherent db fn m
      → TokenOk (token_sel host db fn r i st m) (
          if leb cond_stack_max (length (map (cell_value holds) st))
          then none
          else if leb r.sel_count i
          then none
          else some (holds i ∷ map (cell_value holds) st))
  unfolding token_sel cell_value
  token_sel-Ok i st m h c = rw (length-map-value holds st) (
      TokenOk-if (leb cond_stack_max (length st)) (λ _. (none, Returns-some none m c, tt))
        λ _.
          TokenOk-if (leb r.sel_count i) (λ _. (none, Returns-some none m c, tt))
            λ fits. (some (sel i ∷ st), Returns-some _ m c, (refl, (ground arith, h))))

  rpn_token-Ok :
      (t : Ctok) (st : List Cell) (m : Memo)
      → StackIn r.sel_count st
      → Coherent db fn m
      → TokenOk
          (rpn_token host db fn r t st m)
          (eager_token holds r.sel_count t (map (cell_value holds) st))
  unfolding rpn_token eager_token
  rpn_token-Ok t st m h c =
      TokenOk-if (t.kind == Tok.sel) (λ _. token_sel-Ok t.sel_idx st m h c)
        λ _.
          TokenOk-if (t.kind == Tok.not) (λ _. token_not-Ok st m h c)
            λ _.
              TokenOk-if (t.kind == Tok.and) (λ _. token_and-Ok st m h c)
                λ _.
                  TokenOk-if (t.kind == Tok.or) (λ _. token_or-Ok st m h c)
                    λ _. (none, Returns-some none m c, tt)

  rpn_finish-Returns :
      (st : List Cell) (m : Memo)
      → StackIn r.sel_count st
      → Coherent db fn m
      → Returns db fn (rpn_finish host db fn r st m) (eager_finish (map (cell_value holds) st))
  unfolding rpn_finish
  rpn_finish-Returns [] m h c = Returns-some false m c
  rpn_finish-Returns (a ∷ []) m (ha, _) c = rpn_force-Returns a m ha c
  rpn_finish-Returns (a ∷ b ∷ st) m h c = Returns-some false m c

  after_token :
      (k pos : ℕ) (ts : List Ctok) (o : Option (List Cell)) (vs : Option (List Bool)) (m : Memo)
      → Agrees holds r.sel_count o vs
      → Coherent db fn m
      → ((st : List Cell)
          → StackIn r.sel_count st
          → Returns db fn
              (rpn_loop host db fn r k pos st m)
              (eager holds r.sel_count ts (map (cell_value holds) st)))
      → Returns db fn
          (elim o [ none ↦ some (false, m) | some st ↦ rpn_loop host db fn r k pos st m ])
          (elim vs [ none ↦ false | some st ↦ eager holds r.sel_count ts st ])
  after_token k pos ts none none m a c ih = Returns-some false m c
  after_token k pos ts none (some vs) m a c ih = absurd a
  after_token k pos ts (some st) none m a c ih = absurd a
  after_token k pos ts (some st) (some vs) m (e, h) c ih = rw (← e) (ih st h)

  rpn_loop-Returns :
      (k pos : ℕ) (st : List Cell) (m : Memo)
      → pos + k ≤ length db.cond
      → StackIn r.sel_count st
      → Coherent db fn m
      → Returns db fn
          (rpn_loop host db fn r k pos st m)
          (eager holds r.sel_count (slice pos k db.cond) (map (cell_value holds) st))
  unfolding rpn_loop eager
  rpn_loop-Returns zero pos st m h hs c = rpn_finish-Returns st m hs c
  rpn_loop-Returns (suc k) pos st m h hs c =
      let (t, e) = get_elem?_of_lt db.cond pos (omega arith) in
      let (o, ret, ag) = rpn_token-Ok t st m hs c in
      rw (slice_cons db.cond pos k e) (
        Returns-read _ e (
          Returns-bind (rpn_token host db fn r t st m) _ _ ret λ m1 c1.
            after_token k (suc pos) (slice (suc pos) k db.cond) o _ m1 ag c1
              λ st' h'. rpn_loop-Returns k (suc pos) st' m1 (omega arith) h' c1))

  all_sels-Returns :
      (k idx : ℕ) (m : Memo)
      → idx + k ≤ length db.sels
      → Coherent db fn m
      → Returns db fn (all_sels host db fn k idx m) (all_hold host db fn (slice idx k db.sels))
  unfolding all_sels all_hold
  all_sels-Returns zero idx m h c = Returns-some true m c
  all_sels-Returns (suc k) idx m h c =
      let (s, e) = get_elem?_of_lt db.sels idx (omega arith) in
      rw (slice_cons db.sels idx k e) (
        Returns-read _ e (
          Returns-bind (sel_match host db fn s m) _ _
            (sel_match-Returns host db fn ok s m (ok.valid.sels_in idx s e) c)
            λ m1 c1.
              Returns-and (sel_holds host db fn s) c1
                λ _. all_sels-Returns k (suc idx) m1 (omega arith) c1))

  -- On a usable database, for a rule inside its tables, `rule_match` never faults at a coherent memo. Its lazy stack, which runs a selection only where
  -- its value is needed, returns the value of the condition on all the rule's selections.
  pub rule_match-Returns :
      (m : Memo)
      → Coherent db fn m
      → Returns db fn (rule_match host db fn r m) (rule_holds host db fn r)
  unfolding rule_match rule_holds
  rule_match-Returns m c =
      Returns-if (r.cond_count == 0)
        (λ _.
          Returns-bind (all_sels host db fn r.sel_count r.sel_start m) _ _
            (all_sels-Returns r.sel_count r.sel_start m inside.0 c) λ m1 c1. Returns-some _ m1 c1)
        (λ _. rpn_loop-Returns r.cond_count r.cond_start [] m inside.1 tt c)
