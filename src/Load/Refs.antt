-- ===== src/Load/Refs.antt =====
-- The references of the prefilter's tables that the loader (src/sigma_format.c) is to find in range: clauses,
-- fields, networks and the slices of the lists of literals.
use libsigma.Base.{
  ℕ, ◌+◌, ◌≤◌, ◌<◌, ◌≡◌, ◌⊎◌, Bool, true, false, Option, none, some, List, length, get_elem?, ◌==◌,
}
use libsigma.Base.Int.{ℤ}
use libsigma.Db.Op
use libsigma.Db.{any_field, max_clauses, Litref, Fwit, Db}
use libsigma.Db.Valid.{Each, InPool}
use libsigma.Load.{as_uint64}

-- The rule has a clause count, which is past the clause.
abbrev pub ClauseIn : Db → ℕ → ℕ → Type 0
ClauseIn d r clause =
    (counts : List ℕ) × (n : ℕ) × (d.rule_clauses ≡ some counts)
    × (get_elem? counts r ≡ some n)
    × (clause < n)

-- The field of a literal, or any field.
abbrev pub AnyFieldIn : Db → ℕ → Type 0
AnyFieldIn d f = (f ≡ any_field) ⊎ (f < length d.fields)

abbrev pub LitrefIn : Db → Litref → Type 0
LitrefIn d r =
    (r.rule_idx < length d.rules)
    × (AnyFieldIn d r.field_id
        × ((r.clause_idx < max_clauses) × ClauseIn d r.rule_idx r.clause_idx))

-- A rule that is always verified has no clauses.
abbrev pub NoClauses : Option (List ℕ) → ℕ → Type 0
NoClauses none r = Unit
NoClauses (some counts) r = get_elem? counts r ≡ some 0

abbrev pub ClausesIn : Option (List ℕ) → Type 0
ClausesIn none = Unit
ClausesIn (some counts) = Each (λ n. n ≤ max_clauses) counts

-- A network that is there, or an order on numbers.
abbrev pub WitnessFor : Db → ℕ → ℤ → Bool → Type 0
WitnessFor d op ival true = as_uint64 ival < length d.cidrs
WitnessFor d op ival false =
    (op ≡ Op.gt) ⊎ ((op ≡ Op.gte) ⊎ ((op ≡ Op.lt) ⊎ ((op ≡ Op.lte) ⊎ (op ≡ Op.numeq))))

abbrev pub FwitIn : Db → Fwit → Type 0
FwitIn d w =
    (w.rule_idx < length d.rules)
    × ((w.field_id < length d.fields)
        × ((w.clause_idx < max_clauses)
            × (ClauseIn d w.rule_idx w.clause_idx × WitnessFor d w.op w.ival (w.op == Op.cidr))))

-- The tables of the prefilter refer to rules, fields, clauses and networks that are there, and the lists of
-- the literals to slices of the list of references.
pub record IsIndexed (d : Db) : Type 0 where
  pub bucket_idx_in : Each (λ r. r < length d.rules) d.bucket_idx
  pub litndl_in : Each (λ n. InPool d n × (0 < n.len)) d.litndl
  pub litpost_in : Each (λ p. p.idx_start + p.idx_count ≤ length d.litpost_ref) d.litpost
  pub litref_in : Each (LitrefIn d) d.litpost_ref
  pub litav_in : Each (λ r. (r < length d.rules) × NoClauses d.rule_clauses r) d.litav
  pub clauses_in : ClausesIn d.rule_clauses
  pub fwit_in : Each (FwitIn d) d.fwit
