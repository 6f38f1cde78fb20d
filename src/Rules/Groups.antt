-- ===== src/Rules/Groups.antt =====
-- The selection semantics that src/sigma_match.h states, "AND across groups of OR within a group",
-- for predicates that the compiler has emitted group by group.
use libsigma.Base.{
  ℕ, ◌≡◌, ◌≢◌, ◌+◌, ◌≤◌, length, slice, refl, sym, ◌∙◌, subst, ◌↔◌, ◌⊎◌, inl, inr, Bool, true,
  false, ◌||◌, List, [], ◌∷◌, ◌==◌, &&_iff, ℕ_discrete, arith,
}
use libsigma.Db.{Sel, Db}
use libsigma.Match.{Host, FieldFn, Memo}
use libsigma.Match.Memo.{Coherent, Returns, Usable}
use libsigma.Rules.{sel_match}
use libsigma.Rules.Holds.{groups_hold, grouped, truths, sel_holds}
use libsigma.Rules.Select.{sel_match-Returns}

-- A predicate of group `g` is there, and one that holds.
abbrev pub Has : ℕ → List (ℕ × Bool) → Type 0
Has g [] = ⊥
Has g ((h, b) ∷ rest) = (g ≡ h) ⊎ Has g rest

abbrev pub HasTrue : ℕ → List (ℕ × Bool) → Type 0
HasTrue g [] = ⊥
HasTrue g ((h, b) ∷ rest) = ((g ≡ h) × (b ≡ true)) ⊎ HasTrue g rest

-- Once the groups have moved on from `cur`, it does not come back.
abbrev pub Contiguous : ℕ → List (ℕ × Bool) → Type 0
Contiguous cur [] = Unit
Contiguous cur ((g, b) ∷ rest) = ((g ≡ cur) ⊎ ¬ Has cur ((g, b) ∷ rest)) × Contiguous g rest

HasTrue-Has : (g : ℕ) (xs : List (ℕ × Bool)) → HasTrue g xs → Has g xs
HasTrue-Has g [] h = h
HasTrue-Has g ((k, b) ∷ xs) (inl (e, _)) = inl e
HasTrue-Has g ((k, b) ∷ xs) (inr h) = inr (HasTrue-Has g xs h)

abbrev AllGroups : Bool → ℕ → List (ℕ × Bool) → Type 0
AllGroups acc cur xs =
    ((acc ≡ true) ⊎ HasTrue cur xs) × ((g : ℕ) → Has g xs → g ≢ cur → HasTrue g xs)

-- The next predicate belongs to the current group.
same_group_first :
    (acc : Bool) (cur g : ℕ) (b : Bool) (xs : List (ℕ × Bool))
    → cur ≡ g
    → ((acc || b) ≡ true) ⊎ HasTrue cur xs
    → (acc ≡ true) ⊎ HasTrue cur ((g, b) ∷ xs)
same_group_first true cur g b xs e h = inl refl
same_group_first false cur g b xs e (inl h) = inr (inl (e, h))
same_group_first false cur g b xs e (inr h) = inr (inr h)

same_group_back :
    (acc : Bool) (cur g : ℕ) (b : Bool) (xs : List (ℕ × Bool))
    → (acc ≡ true) ⊎ HasTrue cur ((g, b) ∷ xs)
    → ((acc || b) ≡ true) ⊎ HasTrue cur xs
same_group_back acc cur g b xs (inl h) = inl (ground arith)
same_group_back acc cur g b xs (inr (inl (e, h))) = inl (ground arith)
same_group_back acc cur g b xs (inr (inr h)) = inr h

same_group :
    (acc : Bool) (cur g : ℕ) (b : Bool) (xs : List (ℕ × Bool))
    → cur ≡ g
    → AllGroups (acc || b) cur xs ↔ AllGroups acc cur ((g, b) ∷ xs)
same_group acc cur g b xs e = (
  λ h. (
    same_group_first acc cur g b xs e h.0,
    λ k has ne. elim has [ inl p ↦ absurd (ne (p ∙ sym e)) | inr r ↦ inr (h.1 k r ne) ],
  ),
  λ h. (
    same_group_back acc cur g b xs h.0,
    λ k has ne. elim (h.1 k (inr has) ne) [ inl p ↦ absurd (ne (p.0 ∙ sym e)) | inr r ↦ r ],
  ),
)

-- The next predicate opens a new group, and the current one does not come back.
next_group :
    (acc : Bool) (cur g : ℕ) (b : Bool) (xs : List (ℕ × Bool))
    → ¬ Has cur ((g, b) ∷ xs)
    → ((acc ≡ true) × AllGroups b g xs) ↔ AllGroups acc cur ((g, b) ∷ xs)
next_group acc cur g b xs gone = (
  λ (a, (now, others)). (
    inl a,
    λ k has ne. elim (ℕ_discrete k g) [
      | yes p ↦ elim now [ inl h ↦ inl (p, h) | inr h ↦ inr (subst (λ j. HasTrue j xs) (sym p) h) ]
      | no n ↦ elim has [ inl p ↦ absurd (n p) | inr h ↦ inr (others k h n) ]
    ],
  ),
  λ (now, others). (
    elim now [ inl h ↦ h | inr h ↦ absurd (gone (HasTrue-Has cur ((g, b) ∷ xs) h)) ],
    (
      elim (others g (inl refl) (λ e. gone (inl (sym e)))) [ inl h ↦ inl h.1 | inr h ↦ inr h ],
      λ k has ne. elim (others k (inr has) (λ e. gone (inr (subst (λ j. Has j xs) e has)))) [
        | inl h ↦ absurd (ne h.0)
        | inr h ↦ h
      ],
    ),
  ),
)

groups_hold_iff :
    (acc : Bool) (cur : ℕ) (xs : List (ℕ × Bool))
    → Contiguous cur xs
    → (groups_hold acc cur xs ≡ true) ↔ AllGroups acc cur xs
unfolding groups_hold
groups_hold_iff acc cur [] c =
    (λ h. (inl h, λ g has. absurd has), λ (now, _). elim now [ inl h ↦ h | inr h ↦ absurd h ])
groups_hold_iff acc cur ((g, b) ∷ xs) (way, c) = elim (ℕ_discrete g cur) [
  | yes p ↦
      let ih = groups_hold_iff (acc || b) cur xs (subst (λ j. Contiguous j xs) p c) in
      let t : (g == cur) ≡ true = ground arith in
      rw t (
        λ h. (same_group acc cur g b xs (sym p)).0 (ih.0 h),
        λ h. ih.1 ((same_group acc cur g b xs (sym p)).1 h),
      )
  | no n ↦
      let ih = groups_hold_iff b g xs c in
      let t : (g == cur) ≡ false = ground arith in
      let gone : ¬ Has cur ((g, b) ∷ xs) = elim way [ inl p ↦ absurd (n p) | inr q ↦ q ] in
      rw t (
        λ h. (next_group acc cur g b xs gone).0 (((&&_iff _ _).0 h).0, ih.0 ((&&_iff _ _).0 h).1),
        λ h. let w = (next_group acc cur g b xs gone).1 h in (&&_iff _ _).1 (w.0, ih.1 w.1),
      )
]

abbrev pub IsGrouped : List (ℕ × Bool) → Type 0
IsGrouped [] = Unit
IsGrouped ((g, b) ∷ xs) = Contiguous g xs

-- The selection's meaning, over the truths of its predicates.
grouped_iff :
    (xs : List (ℕ × Bool))
    → IsGrouped xs
    → (grouped xs ≡ true) ↔ ((xs ≢ []) × ((g : ℕ) → Has g xs → HasTrue g xs))
unfolding grouped
grouped_iff [] c = (λ h. absurd (ground arith), λ (ne, _). absurd (ne refl))
grouped_iff ((g, b) ∷ xs) c = (
  λ h.
      let (now, others) = (groups_hold_iff false g ((g, b) ∷ xs) (inl refl, c)).0 h in
      (
        λ e. absurd (ground arith),
        λ k has. elim (ℕ_discrete k g) [
          | yes p ↦
              subst (λ j. HasTrue j ((g, b) ∷ xs)) (sym p)
                (elim now [ inl e ↦ absurd (ground arith) | inr w ↦ w ])
          | no n ↦ others k has n
        ],
      ),
  λ (_, each).
      (groups_hold_iff false g ((g, b) ∷ xs) (inl refl, c)).1
        (inr (each g (inl refl)), λ k has _. each k has),
)

-- On a usable database `sel_match` never faults at a coherent memo. Where the predicates of the selection stand group by
-- group, it returns true exactly when there is a predicate and every group has one that holds.
pub sel_match-groups :
    (host : Host) (db : Db) (fn : FieldFn) (s : Sel) (m : Memo)
    → Usable host db
    → s.pred_start + s.pred_count ≤ length db.preds
    → IsGrouped (truths host db fn s.pred_start (slice s.pred_start s.pred_count db.preds))
    → Coherent db fn m
    → (b : Bool) × Returns db fn (sel_match host db fn s m) b
      × ((b ≡ true) ↔ (
          (truths host db fn s.pred_start (slice s.pred_start s.pred_count db.preds) ≢ [])
          × ((g : ℕ)
              → Has g (truths host db fn s.pred_start (slice s.pred_start s.pred_count db.preds))
              → HasTrue g
                  (truths host db fn s.pred_start (slice s.pred_start s.pred_count db.preds)))))
unfolding sel_holds
sel_match-groups host db fn s m ok h c coherent = (
  sel_holds host db fn s,
  sel_match-Returns host db fn ok s m h coherent,
  grouped_iff (truths host db fn s.pred_start (slice s.pred_start s.pred_count db.preds)) c,
)
