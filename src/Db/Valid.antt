-- ===== src/Db/Valid.antt =====
-- What the matcher of src/sigma_match.c relies on in the tables of a database.
use libsigma.Base.{
  ℕ, ◌+◌, ◌≤◌, ◌≡◌, Option, none, some, List, [], ◌∷◌, zero, suc, ap, subst, arith, length,
  get_elem?,
}
use libsigma.Db.{Str, Rule, Regex, Db}

abbrev pub InPool : Db → Str → Type 0
InPool db s = s.off + s.len ≤ length db.strpool

-- Every entry of a table.
abbrev pub Each {ℓ} : {A : Type ℓ} → (A → Type 0) → List A → Type ℓ
Each {A} P xs = (i : ℕ) (x : A) → get_elem? xs i ≡ some x → P x

pub Each-nil {ℓ} : {A : Type ℓ} (P : A → Type 0) → Each P []
Each-nil P i x e = absurd (ground arith)

pub Each-cons {ℓ} :
    {A : Type ℓ} (P : A → Type 0) (a : A) (xs : List A) → P a → Each P xs → Each P (a ∷ xs)
Each-cons P a xs h hs zero x e = subst P (ap (λ o. elim o [ some y ↦ y | none ↦ a ]) e) h
Each-cons P a xs h hs (suc i) x e = hs i x e

abbrev pub RuleIn : Db → Rule → Type 0
RuleIn db r =
    (r.sel_start + r.sel_count ≤ length db.sels) × (r.cond_start + r.cond_count ≤ length db.cond)

-- The references of the predicates, selections and rules stay inside the tables, and the table of
-- the patterns has an entry for each predicate.
pub record IsValid (db : Db) : Type 0 where
  pub fields_in : Each (InPool db) db.fields
  pub values_in : Each (InPool db) db.values
  pub sels_in : Each (λ s. s.pred_start + s.pred_count ≤ length db.preds) db.sels
  pub rules_in : Each (RuleIn db) db.rules
  pub re_in : (arr : List (Option Regex)) → db.re ≡ some arr → length arr ≡ length db.preds
