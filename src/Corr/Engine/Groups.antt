-- ===== src/Corr/Engine/Groups.antt =====
-- The groups of a correlation (`cstate_get_or_create`, `cstate_drop_expired` of src/classify_corr.c) against
-- the list of groups in the order of use.
use libsigma.Base.{
  ℕ, ◌≤◌, ◌<◌, ◌≡◌, refl, sym, ap, ap₂, ◌∙◌, subst, inl, inr, Bool, true, false, Option, none, some,
  List, [], ◌∷◌, ◌++◌, length, length-append, get_elem?, if◌then◌else◌, Bool-cases, arith,
}
use mathlib.Core.Option.{some-injective}
use libsigma.Base.Int.{pos}
use libsigma.Text.{Bytes, eq_from}
use libsigma.Text.Occurs.{eq_from_iff}
use libsigma.Corr.{CorrStats, CorrCaps, inc}
use libsigma.Corr.Float.{Double}
use libsigma.Corr.Table.{Node, unlink_lru, node_value, table_touch}
use libsigma.Corr.Table.Size.{max_nodes}
use libsigma.Corr.Table.Chains.{IsSame}
use libsigma.Corr.Table.Valid.{IsTable, table_find-none, table_find-some}
use libsigma.Corr.Table.Push.{table_touch-IsTable}
use libsigma.Corr.Table.Lru.{oldest_out, drop_stale-fresh, table_admit-IsTable}
use libsigma.Corr.Table.Map.{
  entries, Hashed, has_key, forget, kept, entries-snoc, Hashed-snoc, same_node-key, length-entries,
  entries-fresh, entries-oldest_out, Hashed-fresh, Hashed-oldest_out, Hashed-unlink, entries-unlink,
  occ-has_key, forget_lt, oldest_out_lt,
}
use libsigma.Corr.Group.{hash_group_key, group_key_eq, Group, group_new}
use libsigma.Corr.Engine.{Groups, group_node, cstate_get_or_create, cstate_drop_expired}

abbrev tail : {A : Type 0} → List A → List A
tail [] = []
tail (x ∷ xs) = xs

pub group_key_eq-IsSame : IsSame group_key_eq
unfolding group_key_eq
group_key_eq-IsSame [] [] = (λ _. refl, λ _. refl)
group_key_eq-IsSame [] (b ∷ bs) = (λ e. absurd (ground (arith, e)), λ e. absurd (ground (arith, e)))
group_key_eq-IsSame (a ∷ as') [] =
    (λ e. absurd (ground (arith, e)), λ e. absurd (ground (arith, e)))
group_key_eq-IsSame (a ∷ as') (b ∷ bs) =
    let (f, g) = group_key_eq-IsSame as' bs in
    elim (Bool-cases (eq_from true a b)) [
      | inl t ↦ (
        λ e. ap₂ (λ x xs. x ∷ xs) ((eq_from_iff true a b).0 t) (f (rw t at e)),
        λ e. rw t (g (ap tail e)),
      )
      | inr t ↦ (
        λ e. absurd (ground (arith, rw t at e)),
        λ e. absurd (
            ground (
              arith,
              sym t ∙ (eq_from_iff true a b).1 (some-injective a b (ap (λ l. get_elem? l 0) e)),
            )),
      )
    ]

-- A valid table whose hashes are those of its keys.
abbrev pub IsGroups : {W : Type 0} → Groups W → Type 0
IsGroups gs = IsTable group_key_eq gs × Hashed hash_group_key gs.lru

-- The contents of a key.
unfoldable pub lookup : {V : Type 0} → List Bytes → List (List Bytes × V) → Option V
lookup k [] = none
lookup k ((j, v) ∷ l) = if group_key_eq j k then some v else lookup k l

module _ {W : Type 0} where
  node_value-lookup :
      (k : List Bytes) (l : List (Node (List Bytes) × Group W))
      → Hashed hash_group_key l
      → node_value group_key_eq (group_node k) l ≡ lookup k (entries l)
  unfolding Hashed entries lookup node_value
  node_value-lookup k [] h = refl
  node_value-lookup k ((m, v) ∷ l) (e, h) =
      rw (same_node-key group_key_eq group_key_eq-IsSame hash_group_key m k e)
        (elim (Bool-cases (group_key_eq m.key k)) [
          | inl t ↦ rw t refl
          | inr t ↦ rw t (node_value-lookup k l h)
        ])

  lookup-has_key :
      (k : List Bytes) (l : List (List Bytes × Group W))
      → has_key group_key_eq k l ≡ true
      → (g : Group W) × (lookup k l ≡ some g)
  unfolding lookup has_key
  lookup-has_key k [] e = absurd (ground (arith, e))
  lookup-has_key k ((j, v) ∷ l) e = elim (Bool-cases (group_key_eq j k)) [
    | inl t ↦ (v, rw t refl)
    | inr t ↦ let (g, q) = lookup-has_key k l (rw t at e) in (g, rw t q)
  ]

  lookup-none :
      (k : List Bytes) (l : List (List Bytes × Group W))
      → has_key group_key_eq k l ≡ false
      → lookup k l ≡ none
  unfolding lookup has_key
  lookup-none k [] e = refl
  lookup-none k ((j, v) ∷ l) e = elim (Bool-cases (group_key_eq j k)) [
    | inl t ↦ absurd (ground (arith, rw t at e))
    | inr t ↦ rw t (lookup-none k l (rw t at e))
  ]

-- The group of `vals` and the groups after its use: the one that is there, or a new one in the place of the
-- least recently used one at the cap.
unfoldable pub used_as :
    {W : Type 0}
    → List Bytes
    → ℕ
    → Group W
    → List (List Bytes × Group W)
    → Option (Group W)
    → Group W × List (List Bytes × Group W)
used_as vals n_max fresh_group l (some g) = (g, forget group_key_eq vals l ++ ((vals, g) ∷ []))
used_as vals n_max fresh_group l none =
    (fresh_group, oldest_out n_max l ++ ((vals, fresh_group) ∷ []))

unfoldable pub group_used :
    {W : Type 0}
    → List Bytes
    → ℕ
    → Group W
    → List (List Bytes × Group W)
    → Group W × List (List Bytes × Group W)
group_used vals n_max fresh_group l = used_as vals n_max fresh_group l (lookup vals l)

module _ {W : Type 0} ⦃d : Double W⦄ where
  -- On a valid table, with at most three quarters of 2^30 as `max_groups`, the group of `vals` is found or
  -- made without leaving the buckets, and the table stays valid, with the group last and a new one in the
  -- place of the least recently used one at the cap.
  pub cstate_get_or_create-used :
      (gs : Groups W) (caps : CorrCaps W) (vals : List Bytes) (stats : CorrStats)
      → IsGroups gs
      → caps.max_groups ≤ max_nodes
      → (gs' : Groups W) × (stats' : CorrStats) × (cstate_get_or_create gs caps vals stats
          ≡ some (
            gs',
            group_node vals,
            (group_used vals caps.max_groups
                (group_new (d.of_int (pos 0)) caps.max_events_per_group)
                (entries gs.lru)).0,
            stats',
          ))
        × IsGroups gs'
        × (entries gs'.lru
            ≡ (group_used vals caps.max_groups
                (group_new (d.of_int (pos 0)) caps.max_events_per_group)
                (entries gs.lru)).1)
  unfolding cstate_get_or_create group_used used_as table_touch
  cstate_get_or_create-used gs caps vals stats (w, h) fits =
      elim (Bool-cases (has_key group_key_eq vals (entries gs.lru))) [
        | inl e ↦
            let (g, q) = lookup-has_key vals (entries gs.lru) e in
            let p =
              (occ-has_key group_key_eq group_key_eq-IsSame hash_group_key vals gs.lru h).0 e in
            (
              table_touch group_key_eq gs (group_node vals) g,
              stats,
              rw
                  (
                    q,
                    table_find-some group_key_eq group_key_eq-IsSame gs w (hash_group_key vals) vals
                        p,
                    node_value-lookup vals gs.lru h ∙ q,
                  )
                  refl,
              (
                table_touch-IsTable group_key_eq group_key_eq-IsSame gs (group_node vals) g w p,
                Hashed-snoc hash_group_key vals g (unlink_lru group_key_eq (group_node vals) gs.lru)
                    (Hashed-unlink hash_group_key group_key_eq (group_node vals) gs.lru h),
              ),
              rw q (
                  entries-snoc (group_node vals) g
                    (unlink_lru group_key_eq (group_node vals) gs.lru)
                  ∙ ap (λ r. r ++ ((vals, g) ∷ []))
                      (entries-unlink group_key_eq group_key_eq-IsSame hash_group_key vals gs.lru
                        h)),
            )
        | inr e ↦
            let q = lookup-none vals (entries gs.lru) e in
            let z =
              (occ-has_key group_key_eq group_key_eq-IsSame hash_group_key vals gs.lru h).1 e in
            let g = group_new (d.of_int (pos 0)) caps.max_events_per_group in
            let (gs', ev, r, w', l) =
              table_admit-IsTable group_key_eq group_key_eq-IsSame caps.max_groups gs
                (group_node vals) g w fits z in
            (
              gs',
              if ev then record stats { groups_evicted = inc stats.groups_evicted } else stats,
              rw
                  (
                    q,
                    table_find-none group_key_eq group_key_eq-IsSame gs w (hash_group_key vals) vals
                        z,
                    r,
                  )
                  refl,
              (
                w',
                subst (Hashed hash_group_key) (sym l) (
                    Hashed-snoc hash_group_key vals g (oldest_out caps.max_groups gs.lru)
                      (Hashed-oldest_out hash_group_key caps.max_groups gs.lru h)),
              ),
              rw q (
                  ap entries l
                  ∙ entries-snoc (group_node vals) g (oldest_out caps.max_groups gs.lru)
                  ∙ ap (λ r. r ++ ((vals, g) ∷ [])) (entries-oldest_out caps.max_groups gs.lru)),
            )
      ]

  -- The sweep leaves the groups updated since the horizon, in their order.
  pub cstate_drop_expired-kept :
      (gs : Groups W) (horizon : W)
      → IsGroups gs
      → (gs' : Groups W) × (cstate_drop_expired gs horizon ≡ some gs')
        × IsGroups gs'
        × (entries gs'.lru ≡ kept (λ (g : Group W). d.lt g.last_update horizon) (entries gs.lru))
  unfolding cstate_drop_expired
  cstate_drop_expired-kept gs horizon (w, h) =
      let stale = λ (g : Group W). d.lt g.last_update horizon in
      let (gs', r, w', l) = drop_stale-fresh group_key_eq group_key_eq-IsSame stale gs w in
      (
        gs',
        r,
        (w', subst (Hashed hash_group_key) (sym l) (Hashed-fresh hash_group_key stale gs.lru h)),
        ap entries l ∙ entries-fresh stale gs.lru,
      )

module _ {W : Type 0} ⦃d : Double W⦄ where
  pub used_as-length :
      (vals : List Bytes) (n_max : ℕ) (g : Group W) (l : List (List Bytes × Group W)) (b : Bool)
      → has_key group_key_eq vals l ≡ b
      → 0 < n_max
      → length l ≤ n_max
      → length (group_used vals n_max g l).1 ≤ n_max
  unfolding group_used used_as
  used_as-length vals n_max g l true e p h =
      let (found, q) = lookup-has_key vals l e in
      rw q (
        omega (
          arith,
          length-append (forget group_key_eq vals l) ((vals, found) ∷ []),
          forget_lt group_key_eq vals l e,
        ))
  used_as-length vals n_max g l false e p h = rw (lookup-none vals l e) (
      omega (arith, length-append (oldest_out n_max l) ((vals, g) ∷ []), oldest_out_lt n_max l p h))

  -- With a positive cap of at most three quarters of 2^30, the group for an event is found or made, and a
  -- correlation within the cap is within it after that.
  pub cstate_get_or_create-bounded :
      (gs : Groups W) (caps : CorrCaps W) (vals : List Bytes) (stats : CorrStats)
      → IsGroups gs
      → 0 < caps.max_groups
      → caps.max_groups ≤ max_nodes
      → gs.count ≤ caps.max_groups
      → (gs' : Groups W) × (g : Group W) × (stats' : CorrStats) × (cstate_get_or_create gs caps vals
            stats
          ≡ some (gs', group_node vals, g, stats'))
        × (gs'.count ≤ caps.max_groups)
  cstate_get_or_create-bounded gs caps vals stats (w, h) p fits q =
      let (gs', stats', e, (w', h'), l) =
        cstate_get_or_create-used gs caps vals stats (w, h) fits in
      let b =
        used_as-length vals caps.max_groups (group_new (d.of_int (pos 0)) caps.max_events_per_group)
          (entries gs.lru) (has_key group_key_eq vals (entries gs.lru)) refl p
          (omega (arith, length-entries gs.lru, w.counted)) in
      (gs', _, stats', e, omega (arith, ap length l, length-entries gs'.lru, w'.counted))
