-- ===== src/Db/Tok.antt =====
-- `sigma_ctok_kind_t` of src/sigma_match.h, a byte of the artifact.
use libsigma.Base.{ℕ}

abbrev pub sel : ℕ
sel = 0

abbrev pub and : ℕ
and = 1

abbrev pub or : ℕ
or = 2

abbrev pub not : ℕ
not = 3
