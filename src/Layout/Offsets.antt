-- ===== src/Layout/Offsets.antt =====
-- The offsets of `sigma_db_serialize` (src/sigma_format.c): each is aligned and follows the section
-- before it.
use libsigma.Base.{ℕ, ◌+◌, ◌*◌, ◌%◌, ◌≤◌, ◌≡◌, refl, length, arith}
use libsigma.Db.{Db}
use libsigma.Layout.{
  align8, clause_bytes, total, off_fields, off_values, off_preds, off_sels, off_cond, off_rules,
  off_cidrs, off_bkeys, off_buckets, off_bucket_idx, off_litndl, off_litpost, off_litpost_ref,
  off_litav, off_rule_clauses, off_fwit, off_strpool,
}

align8-le : (x : ℕ) → x ≤ align8 x
unfolding align8
align8-le x = omega arith

align8-mod : (x : ℕ) → align8 x % 8 ≡ 0
unfolding align8
align8-mod x = omega arith

-- A section with the next offset inside the file lies inside it, with its own offset.
pub step : (off bytes len : ℕ) → align8 (off + bytes) ≤ len → (off + bytes ≤ len) × (off ≤ len)
step off bytes len h =
    (omega (arith, align8-le (off + bytes)), omega (arith, align8-le (off + bytes)))

pub total_lem : (d : Db) → off_strpool d + length d.strpool + 4 ≡ total d
unfolding total
total_lem d = refl

pub next_fields :
    (d : Db) (len : ℕ) → off_values d ≤ len → align8 (off_fields d + length d.fields * 8) ≤ len
unfolding off_values
next_fields d len h = h

pub mod_fields : (d : Db) → off_fields d % 8 ≡ 0
unfolding off_fields
mod_fields d = align8-mod _

pub next_values :
    (d : Db) (len : ℕ) → off_preds d ≤ len → align8 (off_values d + length d.values * 8) ≤ len
unfolding off_preds
next_values d len h = h

pub mod_values : (d : Db) → off_values d % 8 ≡ 0
unfolding off_values
mod_values d = align8-mod _

pub next_preds :
    (d : Db) (len : ℕ) → off_sels d ≤ len → align8 (off_preds d + length d.preds * 24) ≤ len
unfolding off_sels
next_preds d len h = h

pub mod_preds : (d : Db) → off_preds d % 8 ≡ 0
unfolding off_preds
mod_preds d = align8-mod _

pub next_sels :
    (d : Db) (len : ℕ) → off_cond d ≤ len → align8 (off_sels d + length d.sels * 8) ≤ len
unfolding off_cond
next_sels d len h = h

pub mod_sels : (d : Db) → off_sels d % 8 ≡ 0
unfolding off_sels
mod_sels d = align8-mod _

pub next_cond :
    (d : Db) (len : ℕ) → off_rules d ≤ len → align8 (off_cond d + length d.cond * 8) ≤ len
unfolding off_rules
next_cond d len h = h

pub mod_cond : (d : Db) → off_cond d % 8 ≡ 0
unfolding off_cond
mod_cond d = align8-mod _

pub next_rules :
    (d : Db) (len : ℕ) → off_cidrs d ≤ len → align8 (off_rules d + length d.rules * 32) ≤ len
unfolding off_cidrs
next_rules d len h = h

pub mod_rules : (d : Db) → off_rules d % 8 ≡ 0
unfolding off_rules
mod_rules d = align8-mod _

pub next_cidrs :
    (d : Db) (len : ℕ) → off_bkeys d ≤ len → align8 (off_cidrs d + length d.cidrs * 20) ≤ len
unfolding off_bkeys
next_cidrs d len h = h

pub mod_cidrs : (d : Db) → off_cidrs d % 8 ≡ 0
unfolding off_cidrs
mod_cidrs d = align8-mod _

pub next_bkeys :
    (d : Db) (len : ℕ) → off_buckets d ≤ len → align8 (off_bkeys d + length d.bucket_keys * 8) ≤ len
unfolding off_buckets
next_bkeys d len h = h

pub mod_bkeys : (d : Db) → off_bkeys d % 8 ≡ 0
unfolding off_bkeys
mod_bkeys d = align8-mod _

pub next_buckets :
    (d : Db) (len : ℕ)
    → off_bucket_idx d ≤ len
    → align8 (off_buckets d + length d.bucket_keys * 8) ≤ len
unfolding off_bucket_idx
next_buckets d len h = h

pub mod_buckets : (d : Db) → off_buckets d % 8 ≡ 0
unfolding off_buckets
mod_buckets d = align8-mod _

pub next_bucket_idx :
    (d : Db) (len : ℕ)
    → off_litndl d ≤ len
    → align8 (off_bucket_idx d + length d.bucket_idx * 4) ≤ len
unfolding off_litndl
next_bucket_idx d len h = h

pub mod_bucket_idx : (d : Db) → off_bucket_idx d % 8 ≡ 0
unfolding off_bucket_idx
mod_bucket_idx d = align8-mod _

pub next_litndl :
    (d : Db) (len : ℕ) → off_litpost d ≤ len → align8 (off_litndl d + length d.litndl * 8) ≤ len
unfolding off_litpost
next_litndl d len h = h

pub mod_litndl : (d : Db) → off_litndl d % 8 ≡ 0
unfolding off_litndl
mod_litndl d = align8-mod _

pub next_litpost :
    (d : Db) (len : ℕ)
    → off_litpost_ref d ≤ len
    → align8 (off_litpost d + length d.litndl * 8) ≤ len
unfolding off_litpost_ref
next_litpost d len h = h

pub mod_litpost : (d : Db) → off_litpost d % 8 ≡ 0
unfolding off_litpost
mod_litpost d = align8-mod _

pub next_litpost_ref :
    (d : Db) (len : ℕ)
    → off_litav d ≤ len
    → align8 (off_litpost_ref d + length d.litpost_ref * 8) ≤ len
unfolding off_litav
next_litpost_ref d len h = h

pub mod_litpost_ref : (d : Db) → off_litpost_ref d % 8 ≡ 0
unfolding off_litpost_ref
mod_litpost_ref d = align8-mod _

pub next_litav :
    (d : Db) (len : ℕ) → off_rule_clauses d ≤ len → align8 (off_litav d + length d.litav * 4) ≤ len
unfolding off_rule_clauses
next_litav d len h = h

pub mod_litav : (d : Db) → off_litav d % 8 ≡ 0
unfolding off_litav
mod_litav d = align8-mod _

pub next_rule_clauses :
    (d : Db) (len : ℕ) → off_fwit d ≤ len → align8 (off_rule_clauses d + clause_bytes d * 1) ≤ len
unfolding off_fwit
next_rule_clauses d len h = h

pub mod_rule_clauses : (d : Db) → off_rule_clauses d % 8 ≡ 0
unfolding off_rule_clauses
mod_rule_clauses d = align8-mod _

pub next_fwit :
    (d : Db) (len : ℕ) → off_strpool d ≤ len → align8 (off_fwit d + length d.fwit * 16) ≤ len
unfolding off_strpool
next_fwit d len h = h

pub mod_fwit : (d : Db) → off_fwit d % 8 ≡ 0
unfolding off_fwit
mod_fwit d = align8-mod _
