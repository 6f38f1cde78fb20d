-- ===== src/Layout.antt =====
-- The layout of an artifact: the offsets and the header that `sigma_db_serialize` writes, and the checks
-- of the header in `sigma_db_load_buffer` (src/sigma_format.c, src/sigma_format.h).
pub mod Offsets
pub mod Accept
use libsigma.Base.{
  ℕ, zero, suc, ◌+◌, ◌-◌, ◌*◌, ◌/◌, ◌%◌, ◌^◌, Bool, true, false, ◌&&◌, ◌||◌, not, Option, none,
  some, List, [], ◌∷◌, length, ltb, leb, ◌==◌, if◌then◌else◌,
}
use libsigma.Db.{Db}

-- `sigma_hdr_t`
pub record Header : Type 0 where
  pub magic : ℕ
  pub version : ℕ
  pub total_size : ℕ
  pub n_fields : ℕ
  pub off_fields : ℕ
  pub n_values : ℕ
  pub off_values : ℕ
  pub n_preds : ℕ
  pub off_preds : ℕ
  pub n_sels : ℕ
  pub off_sels : ℕ
  pub n_cond : ℕ
  pub off_cond : ℕ
  pub n_rules : ℕ
  pub off_rules : ℕ
  pub strpool_len : ℕ
  pub off_strpool : ℕ
  pub n_cidrs : ℕ
  pub off_cidrs : ℕ
  pub flags : ℕ
  pub n_buckets : ℕ
  pub off_bkeys : ℕ
  pub off_buckets : ℕ
  pub n_bucket_idx : ℕ
  pub off_bucket_idx : ℕ
  pub n_litndl : ℕ
  pub off_litndl : ℕ
  pub off_litpost : ℕ
  pub n_litpost_ref : ℕ
  pub off_litpost_ref : ℕ
  pub n_litav : ℕ
  pub off_litav : ℕ
  pub off_rule_clauses : ℕ
  pub n_fwit : ℕ
  pub off_fwit : ℕ

abbrev pub sigma_magic : ℕ
sigma_magic = 0x53474D41

abbrev pub format_version : ℕ
format_version = 5

-- `sizeof(sigma_hdr_t)`, and that of a file of version 4.
abbrev pub hdr_size : ℕ
hdr_size = 144

abbrev pub hdr_v4_size : ℕ
hdr_v4_size = 136

-- `(x + 7) & ~7`
unfoldable pub align8 : ℕ → ℕ
align8 x = (x + 7) / 8 * 8

-- `rule_clauses ? n_rules : 0`
unfoldable pub clause_bytes : Db → ℕ
clause_bytes d = elim d.rule_clauses [ none ↦ 0 | some _ ↦ length d.rules ]

-- The offsets of the sections, in the order of the file.
module _ (d : Db) where
  unfoldable pub off_fields : ℕ
  off_fields = align8 hdr_size

  unfoldable pub off_values : ℕ
  off_values = align8 (off_fields + length d.fields * 8)

  unfoldable pub off_preds : ℕ
  off_preds = align8 (off_values + length d.values * 8)

  unfoldable pub off_sels : ℕ
  off_sels = align8 (off_preds + length d.preds * 24)

  unfoldable pub off_cond : ℕ
  off_cond = align8 (off_sels + length d.sels * 8)

  unfoldable pub off_rules : ℕ
  off_rules = align8 (off_cond + length d.cond * 8)

  unfoldable pub off_cidrs : ℕ
  off_cidrs = align8 (off_rules + length d.rules * 32)

  unfoldable pub off_bkeys : ℕ
  off_bkeys = align8 (off_cidrs + length d.cidrs * 20)

  unfoldable pub off_buckets : ℕ
  off_buckets = align8 (off_bkeys + length d.bucket_keys * 8)

  unfoldable pub off_bucket_idx : ℕ
  off_bucket_idx = align8 (off_buckets + length d.bucket_keys * 8)

  unfoldable pub off_litndl : ℕ
  off_litndl = align8 (off_bucket_idx + length d.bucket_idx * 4)

  unfoldable pub off_litpost : ℕ
  off_litpost = align8 (off_litndl + length d.litndl * 8)

  unfoldable pub off_litpost_ref : ℕ
  off_litpost_ref = align8 (off_litpost + length d.litndl * 8)

  unfoldable pub off_litav : ℕ
  off_litav = align8 (off_litpost_ref + length d.litpost_ref * 8)

  unfoldable pub off_rule_clauses : ℕ
  off_rule_clauses = align8 (off_litav + length d.litav * 4)

  unfoldable pub off_fwit : ℕ
  off_fwit = align8 (off_rule_clauses + clause_bytes d * 1)

  unfoldable pub off_strpool : ℕ
  off_strpool = align8 (off_fwit + length d.fwit * 16)

  -- With the checksum at the end.
  unfoldable pub total : ℕ
  total = off_strpool + length d.strpool + 4

  -- `n ? (uint32_t)off : 0`
  abbrev pub optional : ℕ → ℕ → ℕ
  optional n off = if n == 0 then 0 else off % 2 ^ 32

  -- The header that is written.
  unfoldable pub header : Header
  header = record {
    magic = sigma_magic;
    version = format_version;
    total_size = total;
    n_fields = length d.fields;
    off_fields = off_fields % 2 ^ 32;
    n_values = length d.values;
    off_values = off_values % 2 ^ 32;
    n_preds = length d.preds;
    off_preds = off_preds % 2 ^ 32;
    n_sels = length d.sels;
    off_sels = off_sels % 2 ^ 32;
    n_cond = length d.cond;
    off_cond = off_cond % 2 ^ 32;
    n_rules = length d.rules;
    off_rules = off_rules % 2 ^ 32;
    n_cidrs = length d.cidrs;
    off_cidrs = off_cidrs % 2 ^ 32;
    strpool_len = length d.strpool;
    off_strpool = off_strpool % 2 ^ 32;
    flags = 0;
    n_buckets = length d.bucket_keys;
    off_bkeys = optional (length d.bucket_keys) off_bkeys;
    off_buckets = optional (length d.bucket_keys) off_buckets;
    n_bucket_idx = length d.bucket_idx;
    off_bucket_idx = optional (length d.bucket_idx) off_bucket_idx;
    n_litndl = length d.litndl;
    off_litndl = optional (length d.litndl) off_litndl;
    off_litpost = optional (length d.litndl) off_litpost;
    n_litpost_ref = length d.litpost_ref;
    off_litpost_ref = optional (length d.litpost_ref) off_litpost_ref;
    n_litav = length d.litav;
    off_litav = optional (length d.litav) off_litav;
    off_rule_clauses = optional (clause_bytes d) off_rule_clauses;
    n_fwit = length d.fwit;
    off_fwit = optional (length d.fwit) off_fwit;
  }

-- `sect_ok`
unfoldable pub sect_ok : ℕ → ℕ → ℕ → ℕ → Bool
sect_ok off n esz len =
    if not (off % 8 == 0) then false else if ltb len off then false else leb (n * esz) (len - off)

-- Every section lies in the file.
unfoldable pub sections_ok : Header → ℕ → Bool
sections_ok h len =
    sect_ok h.off_fields h.n_fields 8 len
    && (sect_ok h.off_values h.n_values 8 len
        && (sect_ok h.off_preds h.n_preds 24 len
            && (sect_ok h.off_sels h.n_sels 8 len
                && (sect_ok h.off_cond h.n_cond 8 len
                    && (sect_ok h.off_rules h.n_rules 32 len
                        && (sect_ok h.off_cidrs h.n_cidrs 20 len
                            && (sect_ok h.off_bkeys h.n_buckets 8 len
                                && (sect_ok h.off_buckets h.n_buckets 8 len
                                    && (sect_ok h.off_bucket_idx h.n_bucket_idx 4 len
                                        && (sect_ok h.off_litndl h.n_litndl 8 len
                                            && (sect_ok h.off_litpost h.n_litndl 8 len
                                                && (sect_ok h.off_litpost_ref h.n_litpost_ref 8 len
                                                    && (sect_ok h.off_litav h.n_litav 4 len
                                                        && (sect_ok h.off_rule_clauses
                                                            (if h.off_rule_clauses == 0
                                                            then 0
                                                            else h.n_rules)
                                                            1 len
                                                            && (sect_ok h.off_fwit h.n_fwit 16 len
                                                            && (leb h.off_strpool len
                                                            && leb h.strpool_len
                                                            (len - h.off_strpool)))))))))))))))))

-- The checks of the header, up to the checksum.
pub data HeaderCheck : Type 0 where
  size_error : HeaderCheck
  magic_error : HeaderCheck
  version_error : HeaderCheck
  range_error : HeaderCheck
  accepted : HeaderCheck

unfoldable pub check_header : Header → ℕ → HeaderCheck
check_header h len =
    if ltb len (8 + 4)
    then size_error
    else if not (h.magic == sigma_magic)
    then magic_error
    else if ltb h.version 4 || ltb format_version h.version
    then version_error
    else if ltb len ((if h.version == 4 then hdr_v4_size else hdr_size) + 4)
    then size_error
    else if not (h.total_size == len)
    then size_error
    else if sections_ok h len
    then accepted
    else range_error
