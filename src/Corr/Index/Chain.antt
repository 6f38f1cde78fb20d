-- ===== src/Corr/Index/Chain.antt =====
-- One chain of the index of base rules (`rid_index_add` of src/classify_corr.c): the entry of a rule gains a
-- correlation, and the others stay.
use libsigma.Base.{
  ℕ, ◌≡◌, ◌≢◌, refl, sym, ap, ◌∙◌, inl, inr, Bool, true, false, ◌&&◌, ◌||◌, Option, none, some,
  List, [], ◌∷◌, ◌++◌, ◌==◌, ==_iff, ==-refl, if◌then◌else◌, Bool-cases, Option-cases, arith,
}
use mathlib.Core.Option.{some-injective}
use libsigma.Corr.{mem_rid}
use libsigma.Corr.Index.{RidWatch, watch_find, note_corr, chain_note, chain_add}

-- Whether an entry has the correlation `ci`.
unfoldable pub entry_has : ℕ → Option RidWatch → Bool
entry_has ci none = false
entry_has ci (some w) = mem_rid ci w.corr_idx

mem_rid-snoc : (x y : ℕ) (l : List ℕ) → mem_rid x (l ++ (y ∷ [])) ≡ mem_rid x l || y == x
unfolding mem_rid
mem_rid-snoc x y [] = ground arith
mem_rid-snoc x y (z ∷ l) = elim (Bool-cases (z == x)) [
  | inl t ↦ rw t refl
  | inr t ↦ rw t (mem_rid-snoc x y l)
]

or_same : (a b : Bool) → (b ≡ true → a ≡ true) → a ≡ a || b
or_same a b h = ground (arith, h)

pub or_nothing : (a b c : Bool) → b ≡ false → a ≡ a || b && c
or_nothing a b c h = ground (arith, h)

pub or_join : (a b c e : Bool) → (a || b && e) || c && e ≡ a || (if b then true else c) && e
or_join a b c e = ground arith

pub or_no_match : (a b c : Bool) → c ≡ false → a || b && c ≡ a
or_no_match a b c h = ground (arith, h)

pub or_match : (a b c : Bool) → c ≡ true → a || b && c ≡ a || b
or_match a b c h = ground (arith, h)

note_corr-has :
    (ci x : ℕ) (w : RidWatch)
    → mem_rid x (note_corr ci w).corr_idx ≡ mem_rid x w.corr_idx || ci == x
unfolding note_corr
note_corr-has ci x w = elim (Bool-cases (mem_rid ci w.corr_idx)) [
  | inl t ↦ rw t (
      or_same (mem_rid x w.corr_idx) (ci == x)
        (λ q. ap (λ k. mem_rid k w.corr_idx) (sym ((==_iff ci x).0 q)) ∙ t))
  | inr t ↦ rw t (mem_rid-snoc x ci w.corr_idx)
]

note_corr-rid : (ci : ℕ) (w : RidWatch) → (note_corr ci w).rid ≡ w.rid
unfolding note_corr
note_corr-rid ci w = elim (Bool-cases (mem_rid ci w.corr_idx)) [
  | inl t ↦ rw t refl
  | inr t ↦ rw t refl
]

find_nil : (r : ℕ) → watch_find r [] ≡ none
unfolding watch_find
find_nil r = refl

find_here :
    (r : ℕ) (w : RidWatch) (c : List RidWatch) → (w.rid == r) ≡ true → watch_find r (w ∷ c) ≡ some w
unfolding watch_find
find_here r w c t = rw t refl

find_next :
    (r : ℕ) (w : RidWatch) (c : List RidWatch)
    → (w.rid == r) ≡ false
    → watch_find r (w ∷ c) ≡ watch_find r c
unfolding watch_find
find_next r w c t = rw t refl

-- The entry of `rid` gains the correlation.
chain_note_self :
    (rid ci : ℕ) (c : List RidWatch) (w : RidWatch)
    → watch_find rid c ≡ some w
    → watch_find rid (chain_note rid ci c) ≡ some (note_corr ci w)
unfolding chain_note
chain_note_self rid ci [] w e = absurd (ground (arith, sym e ∙ find_nil rid))
chain_note_self rid ci (v ∷ c) w e = elim (Bool-cases (v.rid == rid)) [
  | inl t ↦ rw t (
      find_here rid (note_corr ci v) c (ap (λ k. k == rid) (note_corr-rid ci v) ∙ t)
      ∙ ap (λ k. some (note_corr ci k)) (some-injective v w (sym (find_here rid v c t) ∙ e)))
  | inr t ↦ rw t (
      find_next rid v (chain_note rid ci c) t
      ∙ chain_note_self rid ci c w (sym (find_next rid v c t) ∙ e))
]

-- The other entries stay.
chain_note-other :
    (rid ci r : ℕ) (c : List RidWatch)
    → rid ≢ r
    → watch_find r (chain_note rid ci c) ≡ watch_find r c
unfolding chain_note
chain_note-other rid ci r [] h = refl
chain_note-other rid ci r (v ∷ c) h = elim (Bool-cases (v.rid == rid)) [
  | inl t ↦
      let q : (v.rid == r) ≡ false = ground (arith, (==_iff v.rid rid).0 t, h) in
      rw t (
        find_next r (note_corr ci v) c (ap (λ k. k == r) (note_corr-rid ci v) ∙ q)
        ∙ sym (find_next r v c q))
  | inr t ↦ rw t (elim (Bool-cases (v.rid == r)) [
    | inl u ↦ find_here r v (chain_note rid ci c) u ∙ sym (find_here r v c u)
    | inr u ↦
        find_next r v (chain_note rid ci c) u
        ∙ chain_note-other rid ci r c h
        ∙ sym (find_next r v c u)
  ])
]

chain_add-cases :
    (rid ci : ℕ) (c : List RidWatch) (o : Option RidWatch)
    → watch_find rid c ≡ o
    → chain_add rid ci c ≡ (elim o as (λ _. List RidWatch) [
      | some w ↦ chain_note rid ci c
      | none ↦ note_corr ci (record { rid = rid; corr_idx = [] }) ∷ c
    ])
unfolding chain_add
chain_add-cases rid ci c o e =
    ap
      (λ (o : Option RidWatch). elim o as (λ _. List RidWatch) [
        | some w ↦ chain_note rid ci c
        | none ↦ note_corr ci (record { rid = rid; corr_idx = [] }) ∷ c
      ])
      e

abbrev fresh_entry : ℕ → RidWatch
fresh_entry rid = record { rid = rid; corr_idx = [] }

pub chain_add_self :
    (rid ci x : ℕ) (c : List RidWatch)
    → entry_has x (watch_find rid (chain_add rid ci c)) ≡ entry_has x (watch_find rid c) || ci == x
unfolding entry_has mem_rid
chain_add_self rid ci x c = elim (Option-cases (watch_find rid c)) [
  | inl e ↦
      ap (λ k. entry_has x (watch_find rid k)) (chain_add-cases rid ci c none e)
      ∙ ap (entry_has x) (
          find_here rid (note_corr ci (fresh_entry rid)) c
            (ap (λ k. k == rid) (note_corr-rid ci (fresh_entry rid)) ∙ ==-refl rid))
      ∙ note_corr-has ci x (fresh_entry rid)
      ∙ ap (λ o. entry_has x o || ci == x) (sym e)
  | inr (w, e) ↦
      ap (λ k. entry_has x (watch_find rid k)) (chain_add-cases rid ci c (some w) e)
      ∙ ap (entry_has x) (chain_note_self rid ci c w e)
      ∙ note_corr-has ci x w
      ∙ ap (λ o. entry_has x o || ci == x) (sym e)
]

pub chain_add-other :
    (rid ci r : ℕ) (c : List RidWatch)
    → rid ≢ r
    → watch_find r (chain_add rid ci c) ≡ watch_find r c
chain_add-other rid ci r c h = elim (Option-cases (watch_find rid c)) [
  | inl e ↦
      ap (watch_find r) (chain_add-cases rid ci c none e)
      ∙ find_next r (note_corr ci (fresh_entry rid)) c
          (ground (arith, ap (λ k. k == r) (note_corr-rid ci (fresh_entry rid)), h))
  | inr (w, e) ↦
      ap (watch_find r) (chain_add-cases rid ci c (some w) e) ∙ chain_note-other rid ci r c h
]
