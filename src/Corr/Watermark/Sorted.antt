-- ===== src/Corr/Watermark/Sorted.antt =====
-- The order of the reorder buffer (`wm_insert` of src/classify_corr.c) while it has room.
use libsigma.Base.{
  ℕ, some, ◌<◌, ◌≡◌, refl, ap, inl, inr, true, false, &&_iff, List, [], ◌∷◌, ◌++◌, length, leb,
  lt→ltb, Bool-cases, arith,
}
use libsigma.Corr.{CorrStats}
use libsigma.Corr.Float.{Double, NotAfter, IsNumber, IsIeee}
use libsigma.Corr.Group.{Group}
use libsigma.Corr.Watermark.{all_later, wm_place, wm_room, wm_put, raise_max, wm_insert}

gt→leb : (a b : ℕ) → b < a → leb a b ≡ false
gt→leb a b h = ground arith

module _ {W : Type 0} ⦃d : Double W⦄ where
  -- Every item of the list is at `ts` or later.
  unfoldable pub From : W → List (W × ℕ) → Type 0
  From ts [] = Unit
  From ts ((t, r) ∷ wm) = (NotAfter ts t) × From ts wm

  -- The times do not go back.
  unfoldable pub IsSorted : List (W × ℕ) → Type 0
  IsSorted [] = Unit
  IsSorted ((t, r) ∷ wm) = (IsNumber t) × From t wm × IsSorted wm

  module _ (o : IsIeee W) where
    all_later-From : (ts : W) (wm : List (W × ℕ)) → all_later ts wm ≡ true → From ts wm
    unfolding all_later From
    all_later-From ts [] h = tt
    all_later-From ts ((t, r) ∷ wm) h =
        let (a, b) = (&&_iff (d.lt ts t) (all_later ts wm)).0 h in
        (o.before ts t a, all_later-From ts wm b)

    From-trans : (a b : W) (wm : List (W × ℕ)) → NotAfter a b → From b wm → From a wm
    unfolding From
    From-trans a b [] h f = tt
    From-trans a b ((t, r) ∷ wm) h (e, f) = (o.chain a b t h e, From-trans a b wm h f)

    -- An item before a tail that is not all later is not later itself.
    before_tail :
        (t ts : W) (wm : List (W × ℕ))
        → IsNumber ts
        → From t wm
        → all_later ts wm ≡ false
        → NotAfter t ts
    unfolding all_later From
    before_tail t ts [] a f h = absurd (ground (arith, h))
    before_tail t ts ((u, r) ∷ wm) a (e, f) h = elim (Bool-cases (d.lt ts u)) [
      | inl l ↦ before_tail t ts wm a f (rw l at h)
      | inr l ↦ o.chain t u ts e (o.not_before ts u a (o.numbers t u e).1 l)
    ]

    From-place :
        (a ts : W) (rid : ℕ) (wm : List (W × ℕ))
        → NotAfter a ts
        → From a wm
        → From a (wm_place ts rid wm)
    unfolding wm_place From
    From-place a ts rid [] h f = (h, tt)
    From-place a ts rid ((t, r) ∷ wm) h (e, f) = elim (Bool-cases (all_later ts ((t, r) ∷ wm))) [
      | inl l ↦ rw l (h, (e, f))
      | inr l ↦ rw l (e, From-place a ts rid wm h f)
    ]

    pub wm_place-IsSorted :
        (ts : W) (rid : ℕ) (wm : List (W × ℕ))
        → IsNumber ts
        → IsSorted wm
        → IsSorted (wm_place ts rid wm)
    unfolding wm_place IsSorted From
    wm_place-IsSorted ts rid [] a s = (a, tt, tt)
    wm_place-IsSorted ts rid ((t, r) ∷ wm) a (b, f, s) =
        elim (Bool-cases (all_later ts ((t, r) ∷ wm))) [
          | inl l ↦ rw l (a, all_later-From ts ((t, r) ∷ wm) l, (b, f, s))
          | inr l ↦ rw l (
            b,
            From-place t ts rid wm (before_tail t ts ((t, r) ∷ wm) a (b, f) l) f,
            wm_place-IsSorted ts rid wm a s,
          )
        ]

  -- The place splits the buffer before a tail that is all later.
  pub wm_place-splits :
      (ts : W) (rid : ℕ) (wm : List (W × ℕ))
      → (k l : List (W × ℕ)) × (wm ≡ k ++ l)
        × (wm_place ts rid wm ≡ k ++ ((ts, rid) ∷ l))
        × (all_later ts l ≡ true)
  unfolding wm_place all_later
  wm_place-splits ts rid [] = ([], [], refl, refl, refl)
  wm_place-splits ts rid ((t, r) ∷ wm) = elim (Bool-cases (all_later ts ((t, r) ∷ wm))) [
    | inl h ↦ ([], (t, r) ∷ wm, refl, rw h refl, h)
    | inr h ↦
        let (k, l, p, q, g) = wm_place-splits ts rid wm in
        ((t, r) ∷ k, l, ap (λ x. (t, r) ∷ x) p, rw h (ap (λ x. (t, r) ∷ x) q), g)
  ]

  -- With comparisons that order the times, a time that is a number, and room in a buffer in order, an
  -- insertion stays in the buffer, keeps every pending item, puts the new one before the items that are later
  -- and after the others, and leaves the buffer in the order of the times.
  pub wm_insert-IsSorted :
      IsIeee W
      → (g : Group W) (ts : W) (rid : ℕ) (stats : CorrStats) → IsNumber ts
      → length g.wm < 32
      → IsSorted g.wm
      → (g' : Group W) × (stats' : CorrStats) × (wm_insert g ts rid stats ≡ some (g', stats'))
        × IsSorted g'.wm
        × ((k l : List (W × ℕ)) × (g.wm ≡ k ++ l)
            × (g'.wm ≡ k ++ ((ts, rid) ∷ l))
            × (all_later ts l ≡ true))
  unfolding wm_insert wm_room wm_put raise_max
  wm_insert-IsSorted o g ts rid stats a h s =
      let e : leb 32 (length g.wm) ≡ false = gt→leb 32 (length g.wm) h in
      (
        raise_max ts (record g { wm = wm_place ts rid g.wm }),
        stats,
        rw (e, lt→ltb (length g.wm) 32 h) refl,
        wm_place-IsSorted o ts rid g.wm a s,
        wm_place-splits ts rid g.wm,
      )
