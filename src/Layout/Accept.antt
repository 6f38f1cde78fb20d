-- ===== src/Layout/Accept.antt =====
-- What `sigma_db_serialize` writes passes the loader's checks of the header (src/sigma_format.c).
use libsigma.Base.{
  ℕ, zero, suc, ◌+◌, ◌-◌, ◌*◌, ◌%◌, ◌^◌, ◌≤◌, ◌<◌, ◌≡◌, refl, Bool, true, false, ◌&&◌, length, ltb,
  le→leb, ◌==◌, if◌then◌else◌, Bool-cases, Option-cases, ◌⊎◌, inl, inr, &&_iff, arith,
}
use libsigma.Db.{Db}
use libsigma.Layout.{
  align8, clause_bytes, total, header, sect_ok, sections_ok, check_header, accepted, optional,
  hdr_size, off_fields, off_values, off_preds, off_sels, off_cond, off_rules, off_cidrs, off_bkeys,
  off_buckets, off_bucket_idx, off_litndl, off_litpost, off_litpost_ref, off_litav,
  off_rule_clauses, off_fwit, off_strpool,
}
use libsigma.Layout.Offsets.{
  step, total_lem, next_fields, mod_fields, next_values, mod_values, next_preds, mod_preds,
  next_sels, mod_sels, next_cond, mod_cond, next_rules, mod_rules, next_cidrs, mod_cidrs,
  next_bkeys, mod_bkeys, next_buckets, mod_buckets, next_bucket_idx, mod_bucket_idx, next_litndl,
  mod_litndl, next_litpost, mod_litpost, next_litpost_ref, mod_litpost_ref, next_litav, mod_litav,
  next_rule_clauses, mod_rule_clauses, next_fwit, mod_fwit,
}

sect_ok_lem : (off n esz len : ℕ) → off % 8 ≡ 0 → off + n * esz ≤ len → sect_ok off n esz len ≡ true
unfolding sect_ok
sect_ok_lem off n esz len a h =
    let t : (off % 8 == 0) ≡ true = ground arith in
    let u : ltb len off ≡ false = ground arith in
    rw (t, u) (le→leb (n * esz) (len - off) (omega arith))

-- A required section, whose offset is written in 32 bits.
section_lem :
    (off n esz len : ℕ)
    → off % 8 ≡ 0
    → off + n * esz ≤ len
    → len < 2 ^ 32
    → sect_ok (off % 2 ^ 32) n esz len ≡ true
section_lem off n esz len a h l =
    let e : off % 2 ^ 32 ≡ off = omega arith in rw e (sect_ok_lem off n esz len a h)

-- A section that is there only where it has entries.
optional_lem :
    (d : Db) (off n esz len : ℕ)
    → off % 8 ≡ 0
    → off + n * esz ≤ len
    → len < 2 ^ 32
    → sect_ok (optional d n off) n esz len ≡ true
optional_lem d off zero esz len a h l = sect_ok_lem 0 0 esz len (omega arith) (omega arith)
optional_lem d off (suc n) esz len a h l =
    let t : (suc n == 0) ≡ false = ground arith in rw t (section_lem off (suc n) esz len a h l)

both_true : {a b : Bool} → a ≡ true → b ≡ true → (a && b) ≡ true
both_true p q = (&&_iff _ _).1 (p, q)

clause_bytes_cases : (d : Db) → (clause_bytes d ≡ 0) ⊎ (clause_bytes d ≡ length d.rules)
unfolding clause_bytes
clause_bytes_cases d = elim (Option-cases d.rule_clauses) [
  | inl e ↦ inl (rw e refl)
  | inr (counts, e) ↦ inr (rw e refl)
]

-- Entries are counted only at an offset that is not zero.
counted_lem :
    (off n len : ℕ)
    → off % 8 ≡ 0
    → off + n * 1 ≤ len
    → sect_ok off (if off == 0 then 0 else n) 1 len ≡ true
counted_lem off n len a h = elim (Bool-cases (off == 0)) [
  | inl t ↦ rw t (sect_ok_lem off 0 1 len a (omega arith))
  | inr t ↦ rw t (sect_ok_lem off n 1 len a h)
]

clauses_lem :
    (d : Db) (len : ℕ)
    → off_rule_clauses d % 8 ≡ 0
    → off_rule_clauses d + clause_bytes d * 1 ≤ len
    → len < 2 ^ 32
    → sect_ok
        (optional d (clause_bytes d) (off_rule_clauses d))
        (if optional d (clause_bytes d) (off_rule_clauses d) == 0 then 0 else length d.rules)
        1
        len
      ≡ true
clauses_lem d len a h l = elim (clause_bytes_cases d) [
  | inl z ↦ rw z (sect_ok_lem 0 0 1 len (omega arith) (omega arith))
  | inr n ↦ elim (Bool-cases (length d.rules == 0)) [
    | inl t ↦ rw (n, t) (sect_ok_lem 0 0 1 len (omega arith) (omega arith))
    | inr t ↦
        let e : off_rule_clauses d % 2 ^ 32 ≡ off_rule_clauses d = omega arith in
        rw (n, t, e) (counted_lem (off_rule_clauses d) (length d.rules) len a (omega arith))
  ]
]

off_fields_le : (d : Db) → off_fields d ≤ off_strpool d
off_fields_le d =
    let i17 : off_strpool d ≤ off_strpool d = omega arith in
    let (_, i16) =
      step (off_fwit d) (length d.fwit * 16) (off_strpool d) (next_fwit d (off_strpool d) i17) in
    let (_, i15) =
      step (off_rule_clauses d) (clause_bytes d * 1) (off_strpool d)
        (next_rule_clauses d (off_strpool d) i16) in
    let (_, i14) =
      step (off_litav d) (length d.litav * 4) (off_strpool d) (next_litav d (off_strpool d) i15) in
    let (_, i13) =
      step (off_litpost_ref d) (length d.litpost_ref * 8) (off_strpool d)
        (next_litpost_ref d (off_strpool d) i14) in
    let (_, i12) =
      step (off_litpost d) (length d.litndl * 8) (off_strpool d)
        (next_litpost d (off_strpool d) i13) in
    let (_, i11) =
      step (off_litndl d) (length d.litndl * 8) (off_strpool d)
        (next_litndl d (off_strpool d) i12) in
    let (_, i10) =
      step (off_bucket_idx d) (length d.bucket_idx * 4) (off_strpool d)
        (next_bucket_idx d (off_strpool d) i11) in
    let (_, i9) =
      step (off_buckets d) (length d.bucket_keys * 8) (off_strpool d)
        (next_buckets d (off_strpool d) i10) in
    let (_, i8) =
      step (off_bkeys d) (length d.bucket_keys * 8) (off_strpool d)
        (next_bkeys d (off_strpool d) i9) in
    let (_, i7) =
      step (off_cidrs d) (length d.cidrs * 20) (off_strpool d) (next_cidrs d (off_strpool d) i8) in
    let (_, i6) =
      step (off_rules d) (length d.rules * 32) (off_strpool d) (next_rules d (off_strpool d) i7) in
    let (_, i5) =
      step (off_cond d) (length d.cond * 8) (off_strpool d) (next_cond d (off_strpool d) i6) in
    let (_, i4) =
      step (off_sels d) (length d.sels * 8) (off_strpool d) (next_sels d (off_strpool d) i5) in
    let (_, i3) =
      step (off_preds d) (length d.preds * 24) (off_strpool d) (next_preds d (off_strpool d) i4) in
    let (_, i2) =
      step (off_values d) (length d.values * 8) (off_strpool d)
        (next_values d (off_strpool d) i3) in
    let (_, i1) =
      step (off_fields d) (length d.fields * 8) (off_strpool d)
        (next_fields d (off_strpool d) i2) in
    i1

off_fields_lem : (d : Db) → off_fields d ≡ 144
unfolding off_fields align8
off_fields_lem d = refl

module _ (d : Db) (small : total d < 2 ^ 32) where
  sections_ok-header : sections_ok (header d) (total d) ≡ true
  unfolding sections_ok header
  sections_ok-header =
      let end : off_strpool d + length d.strpool + 4 ≡ total d = total_lem d in
      let i17 : off_strpool d ≤ total d = omega arith in
      let (b16, i16) =
        step (off_fwit d) (length d.fwit * 16) (total d) (next_fwit d (total d) i17) in
      let (b15, i15) =
        step (off_rule_clauses d) (clause_bytes d * 1) (total d)
          (next_rule_clauses d (total d) i16) in
      let (b14, i14) =
        step (off_litav d) (length d.litav * 4) (total d) (next_litav d (total d) i15) in
      let (b13, i13) =
        step (off_litpost_ref d) (length d.litpost_ref * 8) (total d)
          (next_litpost_ref d (total d) i14) in
      let (b12, i12) =
        step (off_litpost d) (length d.litndl * 8) (total d) (next_litpost d (total d) i13) in
      let (b11, i11) =
        step (off_litndl d) (length d.litndl * 8) (total d) (next_litndl d (total d) i12) in
      let (b10, i10) =
        step (off_bucket_idx d) (length d.bucket_idx * 4) (total d)
          (next_bucket_idx d (total d) i11) in
      let (b9, i9) =
        step (off_buckets d) (length d.bucket_keys * 8) (total d) (next_buckets d (total d) i10) in
      let (b8, i8) =
        step (off_bkeys d) (length d.bucket_keys * 8) (total d) (next_bkeys d (total d) i9) in
      let (b7, i7) =
        step (off_cidrs d) (length d.cidrs * 20) (total d) (next_cidrs d (total d) i8) in
      let (b6, i6) =
        step (off_rules d) (length d.rules * 32) (total d) (next_rules d (total d) i7) in
      let (b5, i5) = step (off_cond d) (length d.cond * 8) (total d) (next_cond d (total d) i6) in
      let (b4, i4) = step (off_sels d) (length d.sels * 8) (total d) (next_sels d (total d) i5) in
      let (b3, i3) =
        step (off_preds d) (length d.preds * 24) (total d) (next_preds d (total d) i4) in
      let (b2, i2) =
        step (off_values d) (length d.values * 8) (total d) (next_values d (total d) i3) in
      let (b1, i1) =
        step (off_fields d) (length d.fields * 8) (total d) (next_fields d (total d) i2) in
      let same : off_strpool d % 2 ^ 32 ≡ off_strpool d = omega arith in
      both_true (section_lem (off_fields d) (length d.fields) 8 (total d) (mod_fields d) b1 small) (
        both_true (section_lem (off_values d) (length d.values) 8 (total d) (mod_values d) b2 small)
          (both_true
            (section_lem (off_preds d) (length d.preds) 24 (total d) (mod_preds d) b3 small)
            (both_true (section_lem (off_sels d) (length d.sels) 8 (total d) (mod_sels d) b4 small)
              (both_true
                (section_lem (off_cond d) (length d.cond) 8 (total d) (mod_cond d) b5 small)
                (both_true
                  (section_lem (off_rules d) (length d.rules) 32 (total d) (mod_rules d) b6 small)
                  (both_true
                    (section_lem (off_cidrs d) (length d.cidrs) 20 (total d) (mod_cidrs d) b7 small)
                    (both_true
                      (optional_lem d (off_bkeys d) (length d.bucket_keys) 8 (total d) (mod_bkeys d)
                        b8 small)
                      (both_true
                        (optional_lem d (off_buckets d) (length d.bucket_keys) 8 (total d)
                          (mod_buckets d) b9 small)
                        (both_true
                          (optional_lem d (off_bucket_idx d) (length d.bucket_idx) 4 (total d)
                            (mod_bucket_idx d) b10 small)
                          (both_true
                            (optional_lem d (off_litndl d) (length d.litndl) 8 (total d)
                              (mod_litndl d) b11 small)
                            (both_true
                              (optional_lem d (off_litpost d) (length d.litndl) 8 (total d)
                                (mod_litpost d) b12 small)
                              (both_true
                                (optional_lem d (off_litpost_ref d) (length d.litpost_ref) 8
                                  (total d) (mod_litpost_ref d) b13 small)
                                (both_true
                                  (optional_lem d (off_litav d) (length d.litav) 4 (total d)
                                    (mod_litav d) b14 small)
                                  (both_true
                                    (clauses_lem d (total d) (mod_rule_clauses d) b15 small)
                                    (both_true
                                      (optional_lem d (off_fwit d) (length d.fwit) 16 (total d)
                                        (mod_fwit d) b16 small)
                                      ((rw same (
                                        both_true (le→leb _ _ i17)
                                          (le→leb _ _ (omega arith))))))))))))))))))))

  hdr_size_le : hdr_size + 4 ≤ total d
  hdr_size_le = omega (arith, total_lem d, off_fields_le d, off_fields_lem d)

  -- The header that the serializer writes for a database whose artifact is below 4 GiB passes every
  -- check that the loader makes on a header, at the artifact's length: each section is aligned and lies
  -- in the file.
  pub check_header-header : check_header (header d) (total d) ≡ accepted
  unfolding check_header header
  check_header-header =
      let ok = sections_ok-header in
      let le = hdr_size_le in
      let t1 : ltb (total d) (8 + 4) ≡ false = ground arith in
      let t2 : ltb (total d) (144 + 4) ≡ false = ground arith in
      let t3 : (total d == total d) ≡ true = ground arith in rw (t1, t2, t3, ok) refl
