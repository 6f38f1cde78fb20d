-- ===== src/Corr/Index/Watch.antt =====
-- The index of base rules (`rid_index_add`, `rid_index_find` of src/classify_corr.c): which correlations watch
-- a rule after the index is built.
use libsigma.Base.{
  ℕ, zero, suc, ◌+◌, ◌%◌, ◌<◌, ◌≡◌, refl, sym, ap, ap₂, ◌∙◌, subst, Bool, false, ◌&&◌, ◌||◌, Option,
  none, some, List, [], ◌∷◌, length, length-set, length-replicate, get_elem?, get_elem?_of_lt,
  get_elem?-set_self, get_elem?-set_ne, lt_of_get_elem?, set, replicate, ◌==◌, ==_iff, ℕ_discrete,
  arith,
}
use mathlib.Core.Option.{some-injective}
use libsigma.Corr.{CorrRule, mem_rid}
use libsigma.Corr.Index.{
  RidWatch, watch_find, chain_add, rid_index_add, rid_index_find, index_rule, index_rules,
}
use libsigma.Corr.Index.Chain.{
  entry_has, or_nothing, or_join, or_no_match, or_match, chain_add_self, chain_add-other,
}

-- Whether a chain and the index have the correlation `ci`.
unfoldable pub chain_has : ℕ → Option (Option RidWatch) → Bool
chain_has ci none = false
chain_has ci (some o) = entry_has ci o

unfoldable pub watches : List (List RidWatch) → ℕ → ℕ → Bool
watches buckets rid ci = chain_has ci (rid_index_find buckets rid)

watches-at :
    (buckets : List (List RidWatch)) (r x : ℕ) (c : List RidWatch)
    → get_elem? buckets (r % length buckets) ≡ some c
    → watches buckets r x ≡ entry_has x (watch_find r c)
unfolding watches chain_has rid_index_find
watches-at buckets r x c e = rw e refl

add_watches :
    (buckets : List (List RidWatch)) (rid ci : ℕ)
    → 0 < length buckets
    → (c : List RidWatch) → get_elem? buckets (rid % length buckets) ≡ some c
    → (r x : ℕ)
    → watches (set buckets (rid % length buckets) (chain_add rid ci c)) r x
      ≡ watches buckets r x || rid == r && ci == x
add_watches buckets rid ci p c e r x =
    let size = length buckets in
    let b = set buckets (rid % size) (chain_add rid ci c) in
    let len = length-set buckets (rid % size) (chain_add rid ci c) in
    let here =
      get_elem?-set_self buckets (rid % size) (chain_add rid ci c)
        (lt_of_get_elem? buckets (rid % size) e) in
    elim (ℕ_discrete rid r) [
      | yes q ↦
          let at_b : get_elem? b (r % length b) ≡ some (chain_add rid ci c) =
            ap (λ k. get_elem? b (r % k)) len ∙ ap (λ k. get_elem? b (k % size)) (sym q) ∙ here in
          let at_a : get_elem? buckets (r % size) ≡ some c =
            ap (λ k. get_elem? buckets (k % size)) (sym q) ∙ e in
          watches-at b r x (chain_add rid ci c) at_b
          ∙ ap (λ k. entry_has x (watch_find k (chain_add rid ci c))) (sym q)
          ∙ chain_add_self rid ci x c
          ∙ ap (λ k. entry_has x (watch_find k c) || ci == x) q
          ∙ ap₂ (λ u v. u || v && ci == x) (sym (watches-at buckets r x c at_a))
              (sym ((==_iff rid r).1 q))
      | no q ↦
          let (c', f) = get_elem?_of_lt buckets (r % size) (omega arith) in
          elim (ℕ_discrete (rid % size) (r % size)) [
            | yes t ↦
                let at_b : get_elem? b (r % length b) ≡ some (chain_add rid ci c) =
                  ap (λ k. get_elem? b (r % k)) len ∙ ap (get_elem? b) (sym t) ∙ here in
                watches-at b r x (chain_add rid ci c) at_b
                ∙ ap (entry_has x) (chain_add-other rid ci r c q)
                ∙ sym (watches-at buckets r x c (ap (get_elem? buckets) (sym t) ∙ e))
                ∙ or_nothing (watches buckets r x) (rid == r) (ci == x) (ground (arith, q))
            | no t ↦
                let at_b : get_elem? b (r % length b) ≡ some c' =
                  ap (λ k. get_elem? b (r % k)) len
                  ∙ get_elem?-set_ne buckets (rid % size) (r % size) (chain_add rid ci c) t
                  ∙ f in
                watches-at b r x c' at_b
                ∙ sym (watches-at buckets r x c' f)
                ∙ or_nothing (watches buckets r x) (rid == r) (ci == x) (ground (arith, q))
          ]
    ]

-- An addition never leaves the buckets, and adds one pair.
pub rid_index_add-watches :
    (buckets : List (List RidWatch)) (rid ci : ℕ)
    → 0 < length buckets
    → (b : List (List RidWatch)) × (rid_index_add buckets rid ci ≡ some b)
      × (length b ≡ length buckets)
      × ((r x : ℕ) → watches b r x ≡ watches buckets r x || rid == r && ci == x)
unfolding rid_index_add
rid_index_add-watches buckets rid ci p =
    let size = length buckets in
    let (c, e) = get_elem?_of_lt buckets (rid % size) (omega arith) in
    let b = set buckets (rid % size) (chain_add rid ci c) in
    let len = length-set buckets (rid % size) (chain_add rid ci c) in
    (b, rw e refl, len, add_watches buckets rid ci p c e)

index_rule-watches :
    (rids : List ℕ) (ci : ℕ) (buckets : List (List RidWatch))
    → 0 < length buckets
    → (b : List (List RidWatch)) × (index_rule rids ci buckets ≡ some b)
      × (length b ≡ length buckets)
      × ((r x : ℕ) → watches b r x ≡ watches buckets r x || mem_rid r rids && ci == x)
unfolding index_rule mem_rid
index_rule-watches [] ci buckets p =
    (buckets, refl, refl, λ r x. or_nothing (watches buckets r x) false (ci == x) refl)
index_rule-watches (rid ∷ rids) ci buckets p =
    let (b1, e1, l1, w1) = rid_index_add-watches buckets rid ci p in
    let (b2, e2, l2, w2) = index_rule-watches rids ci b1 (omega arith) in
    (
      b2,
      rw (e1, e2) refl,
      l2 ∙ l1,
      λ r x.
          w2 r x
          ∙ ap (λ k. k || mem_rid r rids && ci == x) (w1 r x)
          ∙ or_join (watches buckets r x) (rid == r) (mem_rid r rids) (ci == x),
    )

-- Whether rule number `ci` lists the base rule.
unfoldable pub lists : List CorrRule → ℕ → ℕ → Bool
lists [] ci rid = false
lists (r ∷ rs) zero rid = mem_rid rid r.base_rule_ids
lists (r ∷ rs) (suc ci) rid = lists rs ci rid

index_next :
    (rule : CorrRule) (rules : List CorrRule) (i : ℕ) (buckets b1 b2 : List (List RidWatch))
    → ((r x : ℕ) → watches b1 r x ≡ watches buckets r x || mem_rid r rule.base_rule_ids && i == x)
    → ((r x : ℕ) → x < suc i → watches b2 r x ≡ watches b1 r x)
    → ((r k : ℕ) → watches b2 r (suc i + k) ≡ watches b1 r (suc i + k) || lists rules k r)
    → (r k : ℕ) → watches b2 r (i + k) ≡ watches buckets r (i + k) || lists (rule ∷ rules) k r
unfolding lists
index_next rule rules i buckets b1 b2 w1 f2 w2 r zero =
    f2 r (i + 0) (omega arith)
    ∙ w1 r (i + 0)
    ∙ or_match (watches buckets r (i + 0)) (mem_rid r rule.base_rule_ids) (i == (i + 0))
        (ground arith)
index_next rule rules i buckets b1 b2 w1 f2 w2 r (suc k) =
    let q : suc i + k ≡ i + suc k = omega arith in
    subst (λ j. watches b2 r j ≡ watches b1 r j || lists rules k r) q (w2 r k)
    ∙ ap (λ u. u || lists rules k r)
        (w1 r (i + suc k)
          ∙ or_no_match (watches buckets r (i + suc k)) (mem_rid r rule.base_rule_ids)
              (i == (i + suc k)) (ground arith))

replicate_empty : (n i : ℕ) (c : List RidWatch) → get_elem? (replicate n []) i ≡ some c → c ≡ []
replicate_empty zero i c e = absurd (ground (arith, e))
replicate_empty (suc n) zero c e = sym (some-injective [] c e)
replicate_empty (suc n) (suc i) c e = replicate_empty n i c e

entry_nil : (ci rid : ℕ) → entry_has ci (watch_find rid []) ≡ false
unfolding entry_has watch_find
entry_nil ci rid = refl

none_watch : (n rid ci : ℕ) → 0 < n → watches (replicate n []) rid ci ≡ false
none_watch n rid ci p =
    let l = length-replicate {A = List RidWatch} n [] in
    let (c, e) =
      get_elem?_of_lt (replicate {A = List RidWatch} n [])
        (rid % length (replicate {A = List RidWatch} n [])) (omega arith) in
    watches-at (replicate n []) rid ci c e
    ∙ ap (λ k. entry_has ci (watch_find rid k))
        (replicate_empty n (rid % length (replicate {A = List RidWatch} n [])) c e)
    ∙ entry_nil ci rid

index_rules_from :
    (rules : List CorrRule) (i : ℕ) (buckets : List (List RidWatch))
    → 0 < length buckets
    → (b : List (List RidWatch)) × (index_rules rules i buckets ≡ some b)
      × ((r x : ℕ) → x < i → watches b r x ≡ watches buckets r x)
      × ((r k : ℕ) → watches b r (i + k) ≡ watches buckets r (i + k) || lists rules k r)
unfolding index_rules lists
index_rules_from [] i buckets p = (buckets, refl, λ r x h. refl, λ r k. ground arith)
index_rules_from (rule ∷ rules) i buckets p =
    let (b1, e1, l1, w1) = index_rule-watches rule.base_rule_ids i buckets p in
    let (b2, e2, f2, w2) = index_rules_from rules (suc i) b1 (omega arith) in
    (
      b2,
      rw (e1, e2) refl,
      λ r x h.
          f2 r x (omega arith)
          ∙ w1 r x
          ∙ or_no_match (watches buckets r x) (mem_rid r rule.base_rule_ids) (i == x)
              (ground arith),
      index_next rule rules i buckets b1 b2 w1 f2 w2,
    )

-- Among buckets that are empty at first, the index is built without leaving them, and a correlation watches
-- exactly the base rules that it lists.
pub index_rules-lists :
    (rules : List CorrRule) (n : ℕ)
    → 0 < n
    → (b : List (List RidWatch)) × (index_rules rules 0 (replicate n []) ≡ some b)
      × ((rid ci : ℕ) → watches b rid ci ≡ lists rules ci rid)
index_rules-lists rules n p =
    let l = length-replicate {A = List RidWatch} n [] in
    let (b, e, f, w) = index_rules_from rules 0 (replicate n []) (omega arith) in
    (
      b,
      e,
      λ rid ci.
          let q : 0 + ci ≡ ci = omega arith in
          subst (λ k. watches b rid k ≡ watches (replicate n []) rid k || lists rules ci rid) q
            (w rid ci)
          ∙ ap (λ u. u || lists rules ci rid) (none_watch n rid ci p),
    )
