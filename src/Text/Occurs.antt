-- ===== src/Text/Occurs.antt =====
-- What the string tests of src/sigma_match.c decide: the operand occurs in the text, anywhere, at
-- the start or at the end, up to the ASCII case unless the test is case-sensitive.
use libsigma.Base.{
  ℕ, zero, suc, ◌+◌, ◌-◌, ◌≤◌, ◌<◌, ◌≡◌, refl, sym, ap, ◌∙◌, subst, ◌↔◌, ◌⊎◌, inl, inr, Bool, true,
  false, [], ◌∷◌, ◌++◌, map, length, length-append, take-append-drop, take-length_append,
  drop-length_append, take, drop, ◌==◌, ==_iff, Bool-cases, arith,
}
use libsigma.Text.{
  Bytes, sg_lower, byte_eq, eq_from, sg_eq, common, contains_loop, sg_contains, sg_starts, sg_ends,
}

-- A text as a test of the given case sensitivity sees it.
abbrev pub fold : Bool → Bytes → Bytes
fold true s = s
fold false s = map sg_lower s

fold_cons_eq :
    (cs : Bool) (a b : ℕ) (s t : Bytes)
    → byte_eq cs a b ≡ true
    → fold cs s ≡ fold cs t
    → fold cs (a ∷ s) ≡ fold cs (b ∷ t)
unfolding byte_eq
fold_cons_eq true a b s t h e = ground arith
fold_cons_eq false a b s t h e = ground arith

fold_cons_inv :
    (cs : Bool) (a b : ℕ) (s t : Bytes)
    → fold cs (a ∷ s) ≡ fold cs (b ∷ t)
    → (byte_eq cs a b ≡ true) × (fold cs s ≡ fold cs t)
unfolding byte_eq
fold_cons_inv true a b s t e = ground arith
fold_cons_inv false a b s t e = ground arith

length-fold : (cs : Bool) (s : Bytes) → length (fold cs s) ≡ length s
length-fold true s = refl
length-fold false [] = refl
length-fold false (c ∷ s) = ap suc (length-fold false s)

fold-nil_inv : (cs : Bool) (s : Bytes) → fold cs s ≡ fold cs [] → s ≡ []
fold-nil_inv cs [] e = refl
fold-nil_inv true (c ∷ s) e = e
fold-nil_inv false (c ∷ s) e = absurd (ground arith)

length_of_fold : (cs : Bool) (s t : Bytes) → fold cs s ≡ fold cs t → length s ≡ length t
length_of_fold cs s t e = omega (arith, ap length e, length-fold cs s, length-fold cs t)

pub eq_from_iff : (cs : Bool) (a b : Bytes) → (eq_from cs a b ≡ true) ↔ (fold cs a ≡ fold cs b)
unfolding eq_from
eq_from_iff cs [] [] = (λ _. refl, λ _. refl)
eq_from_iff cs [] (b ∷ t) =
    (λ h. absurd (ground arith), λ e. absurd (omega (arith, length_of_fold cs [] (b ∷ t) e)))
eq_from_iff cs (a ∷ s) [] =
    (λ h. absurd (ground arith), λ e. absurd (omega (arith, length_of_fold cs (a ∷ s) [] e)))
eq_from_iff cs (a ∷ s) (b ∷ t) = (
  λ h. ground (arith, fold_cons_eq cs a b s t, (eq_from_iff cs s t).0),
  λ e. ground (arith, fold_cons_inv cs a b s t e, (eq_from_iff cs s t).1),
)

-- `sg_eq` decides equality up to case.
pub sg_eq_iff : (a b : Bytes) (cs : Bool) → (sg_eq a b cs ≡ true) ↔ (fold cs a ≡ fold cs b)
unfolding sg_eq
sg_eq_iff a b cs = (
  λ h. ground (arith, (eq_from_iff cs a b).0),
  λ e. ground (arith, (eq_from_iff cs a b).1 e, length_of_fold cs a b e),
)

-- `mid` is the operand, up to case.
abbrev pub Starts : Bool → Bytes → Bytes → Type 0
Starts cs s p = (mid post : Bytes) × (s ≡ mid ++ post) × (fold cs mid ≡ fold cs p)

abbrev pub Ends : Bool → Bytes → Bytes → Type 0
Ends cs s p = (pre mid : Bytes) × (s ≡ pre ++ mid) × (fold cs mid ≡ fold cs p)

abbrev pub Occurs : Bool → Bytes → Bytes → Type 0
Occurs cs s p = (pre rest : Bytes) × (s ≡ pre ++ rest) × Starts cs rest p

pub length-Starts : (cs : Bool) (s p : Bytes) → Starts cs s p → length p ≤ length s
length-Starts cs s p (mid, post, e, f) =
    omega (arith, ap length e, length-append mid post, length_of_fold cs mid p f)

pub common-le : (cs : Bool) (s p : Bytes) → common cs s p ≤ length s
unfolding common
common-le cs [] p = omega arith
common-le cs (a ∷ s) [] = omega arith
common-le cs (a ∷ s) (b ∷ t) = ground (arith, common-le cs s t)

Starts-cons :
    (cs : Bool) (a b : ℕ) (s t : Bytes)
    → byte_eq cs a b ≡ true
    → Starts cs s t
    → Starts cs (a ∷ s) (b ∷ t)
Starts-cons cs a b s t q (mid, post, e, f) =
    (a ∷ mid, post, ap (λ r. a ∷ r) e, fold_cons_eq cs a b mid t q f)

Starts-cons_inv :
    (cs : Bool) (a b : ℕ) (s t : Bytes)
    → Starts cs (a ∷ s) (b ∷ t)
    → (byte_eq cs a b ≡ true) × Starts cs s t
Starts-cons_inv cs a b s t ([], post, e, f) = absurd (omega (arith, length_of_fold cs [] (b ∷ t) f))
Starts-cons_inv cs a b s t (m ∷ mid, post, e, f) =
    let (q, g) = fold_cons_inv cs m b mid t f in
    (subst (λ x. byte_eq cs x b ≡ true) (cc) q, (mid, post, cc, g))

common-Starts_cons :
    (cs : Bool) (a b : ℕ) (s t : Bytes)
    → (common cs s t ≡ length t) ↔ Starts cs s t
    → (common cs (a ∷ s) (b ∷ t) ≡ length (b ∷ t)) ↔ Starts cs (a ∷ s) (b ∷ t)
unfolding common
common-Starts_cons cs a b s t ih = elim (Bool-cases (byte_eq cs a b)) [
  | inl q ↦ (
    λ h. Starts-cons cs a b s t q (ih.0 (ground arith)),
    λ w. ground (arith, ih.1 (Starts-cons_inv cs a b s t w).1),
  )
  | inr q ↦
      (λ h. absurd (ground arith), λ w. absurd (ground (arith, (Starts-cons_inv cs a b s t w).0)))
]

-- The inner loop reaches the needle's end exactly when the needle starts here.
pub common-Starts : (cs : Bool) (s p : Bytes) → (common cs s p ≡ length p) ↔ Starts cs s p
unfolding common
common-Starts cs [] [] = (λ _. ([], [], refl, refl), λ _. refl)
common-Starts cs [] (b ∷ t) =
    (λ h. absurd (omega arith), λ w. absurd (omega (arith, length-Starts cs [] (b ∷ t) w)))
common-Starts cs (a ∷ s) [] = (λ h. ([], a ∷ s, refl, refl), λ _. refl)
common-Starts cs (a ∷ s) (b ∷ t) = common-Starts_cons cs a b s t (common-Starts cs s t)

Occurs-here : (cs : Bool) (s p : Bytes) → Starts cs s p → Occurs cs s p
Occurs-here cs s p w = ([], s, refl, w)

Occurs-later : (cs : Bool) (a : ℕ) (s p : Bytes) → Occurs cs s p → Occurs cs (a ∷ s) p
Occurs-later cs a s p (pre, rest, e, w) = (a ∷ pre, rest, ap (λ r. a ∷ r) e, w)

pub Occurs-cons_inv :
    (cs : Bool) (a : ℕ) (s p : Bytes) → Occurs cs (a ∷ s) p → Starts cs (a ∷ s) p ⊎ Occurs cs s p
Occurs-cons_inv cs a s p ([], rest, e, w) = inl (subst (λ r. Starts cs r p) (sym e) w)
Occurs-cons_inv cs a s p (b ∷ pre, rest, e, w) = inr (pre, rest, cc, w)

pub Occurs-nil : (cs : Bool) (p : Bytes) → Occurs cs [] p → Starts cs [] p
Occurs-nil cs p ([], rest, e, w) = subst (λ r. Starts cs r p) (sym e) w
Occurs-nil cs p (b ∷ pre, rest, e, w) = absurd (ground arith)

pub length-Occurs : (cs : Bool) (s p : Bytes) → Occurs cs s p → length p ≤ length s
length-Occurs cs s p (pre, rest, e, w) =
    omega (arith, ap length e, length-append pre rest, length-Starts cs rest p w)

contains_loop_sound :
    (cs : Bool) (k : ℕ) (s p : Bytes) → contains_loop cs k s p ≡ true → Occurs cs s p
unfolding contains_loop
contains_loop_sound cs zero s p h = absurd (ground arith)
contains_loop_sound cs (suc k) [] p h = elim (Bool-cases (common cs [] p == length p)) [
  | inl q ↦ Occurs-here cs [] p ((common-Starts cs [] p).0 ((==_iff _ _).0 q))
  | inr q ↦ contains_loop_sound cs k [] p (rw q at h)
]
contains_loop_sound cs (suc k) (a ∷ s) p h = elim (Bool-cases (common cs (a ∷ s) p == length p)) [
  | inl q ↦ Occurs-here cs (a ∷ s) p ((common-Starts cs (a ∷ s) p).0 ((==_iff _ _).0 q))
  | inr q ↦ Occurs-later cs a s p (contains_loop_sound cs k s p (rw q at h))
]

contains_loop_complete :
    (cs : Bool) (k : ℕ) (s p : Bytes)
    → length s < k + length p
    → Occurs cs s p
    → contains_loop cs k s p ≡ true
unfolding contains_loop
contains_loop_complete cs zero s p n w = absurd (omega (arith, length-Occurs cs s p w))
contains_loop_complete cs (suc k) [] p n w =
    rw ((==_iff _ _).1 ((common-Starts cs [] p).1 (Occurs-nil cs p w)))
contains_loop_complete cs (suc k) (a ∷ s) p n w =
    elim (Bool-cases (common cs (a ∷ s) p == length p)) [
      | inl q ↦ rw q
      | inr q ↦ rw q (elim (Occurs-cons_inv cs a s p w) [
        | inl now ↦ absurd (ground (arith, (common-Starts cs (a ∷ s) p).1 now))
        | inr later ↦ contains_loop_complete cs k s p (omega arith) later
      ])
    ]

-- `sg_contains` is true exactly when the operand occurs in the text up to case.
pub sg_contains_iff : (s p : Bytes) (cs : Bool) → (sg_contains s p cs ≡ true) ↔ Occurs cs s p
unfolding sg_contains
sg_contains_iff s [] cs = (λ _. ([], s, refl, ([], s, refl, refl)), λ _. refl)
sg_contains_iff s (c ∷ p) cs = (
  λ h. contains_loop_sound cs (suc (length s - length (c ∷ p))) s (c ∷ p) (ground arith),
  λ w. ground (
    arith,
    length-Occurs cs s (c ∷ p) w,
    contains_loop_complete cs (suc (length s - length (c ∷ p))) s (c ∷ p)
        (omega (arith, length-Occurs cs s (c ∷ p) w)) w,
  ),
)

Starts-complete : (s p : Bytes) (cs : Bool) → Starts cs s p → sg_starts s p cs ≡ true
unfolding sg_starts
Starts-complete s p cs (mid, post, e, f) = ground (
  arith,
  length-Starts cs s p (mid, post, e, f),
  length_of_fold cs mid p f,
  take-length_append mid post,
  (sg_eq_iff mid p cs).1 f,
)

Ends-complete : (s p : Bytes) (cs : Bool) → Ends cs s p → sg_ends s p cs ≡ true
unfolding sg_ends
Ends-complete s p cs (pre, mid, e, f) =
    let m : length p ≡ length mid = sym (length_of_fold cs mid p f) in
    let n : length s ≡ length pre + length mid = ap length e ∙ length-append pre mid in
    let k : length s - length p ≡ length pre = omega arith in
    let d : drop (length s - length p) s ≡ mid = rw (k, e) (drop-length_append pre mid) in
    let q : sg_eq mid p cs ≡ true = (sg_eq_iff mid p cs).1 f in ground (arith, m, n, d, q)

-- `sg_starts` is true exactly when the text begins with the operand up to case.
pub sg_starts_iff : (s p : Bytes) (cs : Bool) → (sg_starts s p cs ≡ true) ↔ Starts cs s p
unfolding sg_starts
sg_starts_iff s p cs = (
  λ h. (
    take (length p) s,
    drop (length p) s,
    sym (take-append-drop (length p) s),
    (sg_eq_iff (take (length p) s) p cs).0 (ground arith),
  ),
  λ w. Starts-complete s p cs w,
)

-- `sg_ends` is true exactly when the text ends with the operand up to case.
pub sg_ends_iff : (s p : Bytes) (cs : Bool) → (sg_ends s p cs ≡ true) ↔ Ends cs s p
unfolding sg_ends
sg_ends_iff s p cs = (
  λ h. (
    take (length s - length p) s,
    drop (length s - length p) s,
    sym (take-append-drop (length s - length p) s),
    (sg_eq_iff (drop (length s - length p) s) p cs).0 (ground arith),
  ),
  λ w. Ends-complete s p cs w,
)
