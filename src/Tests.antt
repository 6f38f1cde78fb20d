-- ===== src/Tests.antt =====
-- A small database and event, on which the theorems are applied and the operations are run.
mod Witness
mod Runs
mod CorrWitness
use libsigma.Base.{
  ℕ, zero, suc, ◌+◌, ◌≤◌, ◌<◌, ◌≡◌, ◌≢◌, refl, Bool, true, false, Option, none, some, List, [], ◌∷◌,
  length, get_elem?, replicate, ◌++◌, ◌==◌, if◌then◌else◌, arith, subst, sym, ap,
}
use libsigma.Base.Int.{ℤ, pos, negsuc}
use libsigma.Text.{Bytes}
use libsigma.Cidr.{Cidr, Inet}
use libsigma.Cidr.Reads.{CidrFits, IsInet}
use libsigma.Db.{no_value, Str, Pred, Sel, Ctok, Rule, Postings, Litref, Fwit, Regex, Db}
use libsigma.Db.Op
use libsigma.Db.Tok
use libsigma.Db.Valid.{Each, Each-nil, Each-cons, InPool, RuleIn, IsValid}
use libsigma.Match.{Host, FieldFn, Slot, Memo}
use libsigma.Match.Holds.{field_value, text_of}
use libsigma.Match.Memo.{Coherent, Usable}
use libsigma.Base.{slice, ◌^◌, ◌-◌, inl, inr}
use libsigma.Rules.Holds.{truths}
use libsigma.Rules.Groups.{IsGrouped}
use libsigma.Rules.Expr.{Expr, sel, neg, conj}
use mathlib.Core.Option.{some-injective}
use libsigma.Db.{pf_fieldref}
use libsigma.Load.{
  loaded, and_also, every, field_ok, value_ok, pred_ok, sel_ok, rule_ok, cond_ok, tables_ok,
  bucket_loop, rule_idx_ok, needle_ok, clause_ok, litref_ok, no_clause, litav_ok, clauses_ok,
  fwit_op_ok, fwit_ok, index_ok, cat_test, cat_loop, cat_field, compile_patterns, load_index,
  load_tables,
}
use libsigma.Load.Checks.{IsParsed}
use libsigma.Layout.{
  align8, clause_bytes, total, off_fields, off_values, off_preds, off_sels, off_cond, off_rules,
  off_cidrs, off_bkeys, off_buckets, off_bucket_idx, off_litndl, off_litpost, off_litpost_ref,
  off_litav, off_rule_clauses, off_fwit, off_strpool,
}
use libsigma.Base.{◌<◌}
use libsigma.Eval.{Eval, no_stats}
use libsigma.Eval.Stamps.{IsStamped}
use libsigma.Eval.Scratch.{IsScratch}

-- The pool holds the fields `img` and `n`, each ended by a NUL, the value `CMD` and the technique `T1`.
abbrev pub pool : Bytes
pool = b'i' ∷ b'm' ∷ b'g' ∷ 0 ∷ b'n' ∷ 0 ∷ b'C' ∷ b'M' ∷ b'D' ∷ b'T' ∷ b'1' ∷ []

abbrev pub img : Str
img = record { off = 0; len = 3 }

abbrev pub num : Str
num = record { off = 4; len = 1 }

abbrev pub cmd : Str
cmd = record { off = 6; len = 3 }

abbrev pub t1 : Str
t1 = record { off = 9; len = 2 }

-- `img|contains: CMD`, `n|gte: 5` and `not img: CMD`.
abbrev pub img_contains : Pred
img_contains = record {
  field_id = 0;
  group_id = 0;
  op = Op.contains;
  flags = 0;
  value_id = 0;
  ival = pos 0;
}

abbrev pub n_gte : Pred
n_gte = record { field_id = 1; group_id = 1; op = Op.gte; flags = 0; value_id = 0; ival = pos 5 }

abbrev pub img_not : Pred
img_not = record { field_id = 0; group_id = 0; op = Op.eq; flags = 2; value_id = 0; ival = pos 0 }

abbrev pub both : Sel
both = record { pred_start = 0; pred_count = 2 }

abbrev pub other : Sel
other = record { pred_start = 2; pred_count = 1 }

abbrev pub tok : ℕ → ℕ → Ctok
tok k i = record { kind = k; sel_idx = i }

-- The condition `both and not not other`, and no condition.
abbrev pub cond_rule : Rule
cond_rule = record {
  rule_id = 100;
  sel_start = 0;
  sel_count = 2;
  cond_start = 0;
  cond_count = 5;
  verdict = 1;
  severity = 3;
  score_x100 = 250;
  name_id = 0;
  mitre_id = 1;
}

abbrev pub plain_rule : Rule
plain_rule = record cond_rule { rule_id = 200; sel_count = 1; cond_count = 0; mitre_id = no_value }

abbrev pub net10 : Cidr
net10 = record { family = 4; prefix = 8; net = 10 ∷ replicate 15 0 }

abbrev pub db : Db
db = record {
  fields = img ∷ num ∷ [];
  values = cmd ∷ t1 ∷ [];
  preds = img_contains ∷ n_gte ∷ img_not ∷ [];
  sels = both ∷ other ∷ [];
  cond = tok Tok.sel 0 ∷ tok Tok.sel 1 ∷ tok Tok.not 0 ∷ tok Tok.not 0 ∷ tok Tok.and 0 ∷ [];
  rules = cond_rule ∷ plain_rule ∷ [];
  cidrs = net10 ∷ [];
  strpool = pool;
  bucket_keys = [];
  buckets = [];
  bucket_idx = [];
  av_bucket = 0;
  cat_field_id = no_value;
  litndl = [];
  litpost = [];
  litpost_ref = [];
  litav = [];
  rule_clauses = none;
  fwit = [];
  re = none;
}

-- The same database with a bucket index, a literal and a field witness: a bucket for `img` and one for every
-- event, the literal `CMD` for the first clause of the first rule, and `n >= 5` for its second.
abbrev pub indexed_db : Db
indexed_db = record db {
  bucket_keys = img ∷ record { off = 0; len = 0 } ∷ [];
  buckets = record { idx_start = 0; idx_count = 1 } ∷ record { idx_start = 1; idx_count = 1 } ∷ [];
  bucket_idx = 0 ∷ 1 ∷ [];
  litndl = cmd ∷ [];
  litpost = record { idx_start = 0; idx_count = 1 } ∷ [];
  litpost_ref = record { rule_idx = 0; field_id = 0; clause_idx = 0 } ∷ [];
  litav = 1 ∷ [];
  rule_clauses = some (2 ∷ 0 ∷ []);
  fwit = record { rule_idx = 0; field_id = 1; clause_idx = 1; op = Op.gte; ival = pos 5 } ∷ [];
}

-- The event `img = cmd.exe`, `n = 7`; the callback tells the two names by their lengths.
abbrev pub exe : Bytes
exe = b'c' ∷ b'm' ∷ b'd' ∷ b'.' ∷ b'e' ∷ b'x' ∷ b'e' ∷ []

abbrev pub event : FieldFn
event name =
    if length name == 3 then some exe else if length name == 1 then some (b'7' ∷ []) else none

abbrev pub address : Bytes
address = 10 ∷ 1 ∷ 2 ∷ 3 ∷ []

-- `inet_pton`, on the one text `10.1.2.3`, told by its length.
abbrev pub pton : Bytes → Option Bytes
pton s = if length s == 8 then some address else none

abbrev pub host : Host
host = record {
  inet = record { pton4 = pton; pton6 = λ _. none };
  match_data = true;
  pcre_match = λ _ _. false;
}

pub host-IsInet : IsInet host.inet
host-IsInet = record {
  four = λ s a e. pton_four (length s == 8) a e;
  sixteen = λ s a e. absurd (ground arith);
}
  where
    pton_four : (t : Bool) (a : Bytes) → (if t then some address else none) ≡ some a → length a ≡ 4
    pton_four true a e = ap (λ (o : Option Bytes). elim o [ some x ↦ length x | none ↦ 4 ]) (sym e)
    pton_four false a e = absurd (ground arith)

pub db-IsValid : IsValid db
db-IsValid = record {
  fields_in =
      Each-cons _ img (num ∷ []) (omega arith) (Each-cons _ num [] (omega arith) (Each-nil _));
  values_in =
      Each-cons _ cmd (t1 ∷ []) (omega arith) (Each-cons _ t1 [] (omega arith) (Each-nil _));
  sels_in =
      Each-cons _ both (other ∷ []) (omega arith) (Each-cons _ other [] (omega arith) (Each-nil _));
  rules_in =
      Each-cons _ cond_rule (plain_rule ∷ []) (omega arith, omega arith)
        (Each-cons _ plain_rule [] (omega arith, omega arith) (Each-nil _));
  re_in = λ arr e. absurd (ground arith);
}

pub net10-CidrFits : CidrFits net10
net10-CidrFits = (λ _. omega arith, λ e. absurd (omega arith), refl)

pub db-Usable : Usable host db
db-Usable = record {
  valid = db-IsValid;
  inet = host-IsInet;
  cidrs_fit = Each-cons _ net10 [] net10-CidrFits (Each-nil _);
}

-- The field `img` has been resolved already.
abbrev pub memo : Memo
memo = record { vstate = true; value = some exe } ∷ record { vstate = false; value = none } ∷ []

pub memo-Coherent : Coherent db event memo
unfolding field_value
memo-Coherent = record { size = refl; resolved = at }
  where
    at :
        (f : ℕ) (s : Slot)
        → get_elem? memo f ≡ some s
        → s.vstate ≡ true
        → s.value ≡ field_value db event f
    at zero s e t = ap (λ (o : Option Slot). elim o [ some x ↦ x.value | none ↦ none ]) (sym e)
    at (suc zero) s e t =
        absurd
          (ground (arith, ap (λ (o : Option Slot). elim o [ some x ↦ x.vstate | none ↦ false ]) e))
    at (suc (suc f)) s e t = absurd (ground arith)

-- The two predicates of `both` are of two groups.
pub both-IsGrouped : IsGrouped (truths host db event 0 (slice 0 2 db.preds))
unfolding truths
both-IsGrouped = (inr (λ h. elim h [ inl e ↦ omega arith | inr stale ↦ stale ]), tt)

-- `both and not not other`
abbrev pub expr : Expr
expr = conj (sel 0) (neg (neg (sel 1)))

-- A scratch at the end of the counter, with the stamps of earlier events.
abbrev pub last_eval : Eval
last_eval = record {
  memo = memo;
  rule_mask = [];
  rule_gen = [];
  eval_done = (2 ^ 32 - 1) ∷ 1 ∷ [];
  gen = 2 ^ 32 - 1;
  st = no_stats;
  prefilter_on = 1;
}

pub last_eval-IsStamped : IsStamped last_eval
last_eval-IsStamped = record {
  done_le =
      Each-cons _ (2 ^ 32 - 1) (1 ∷ []) (omega arith) (Each-cons _ 1 [] (omega arith) (Each-nil _));
  rule_le = Each-nil _;
  gen_lt = omega arith;
}

pub last_eval-IsScratch : IsScratch db last_eval
last_eval-IsScratch = record { stamped = last_eval-IsStamped; done_size = refl; memo_size = refl }

pub indexed_db-IsParsed : IsParsed indexed_db
indexed_db-IsParsed = record {
  buckets_size = refl;
  litpost_size = refl;
  clauses_size = λ counts e. sym (ap (length {A = ℕ}) (some-injective (2 ∷ 0 ∷ []) counts e));
}

-- The loader takes it: the bucket of every event is the second one, and no field is `event.category`.
indexed_db-loaded :
    load_tables (λ _. true) indexed_db
    ≡ some (loaded (record indexed_db { av_bucket = 1; cat_field_id = no_value; re = none }))
unfolding load_tables tables_ok every and_also field_ok value_ok pred_ok sel_ok rule_ok cond_ok
    bucket_loop load_index index_ok rule_idx_ok needle_ok clause_ok litref_ok no_clause litav_ok
    clauses_ok fwit_op_ok fwit_ok cat_test cat_loop cat_field compile_patterns
indexed_db-loaded = refl

pub db-small : total db < 2 ^ 32
unfolding total align8 clause_bytes off_fields off_values off_preds off_sels off_cond off_rules
    off_cidrs off_bkeys off_buckets off_bucket_idx off_litndl off_litpost off_litpost_ref off_litav
    off_rule_clauses off_fwit off_strpool
db-small = omega arith
