-- ===== src/Db/Op.antt =====
-- `sigma_op_t` of src/sigma_match.h, a byte of the artifact: any other value takes the `default` of
-- a `switch`.
use libsigma.Base.{ℕ}

abbrev pub eq : ℕ
eq = 0

abbrev pub contains : ℕ
contains = 1

abbrev pub startswith : ℕ
startswith = 2

abbrev pub endswith : ℕ
endswith = 3

abbrev pub exists : ℕ
exists = 4

abbrev pub gt : ℕ
gt = 5

abbrev pub gte : ℕ
gte = 6

abbrev pub lt : ℕ
lt = 7

abbrev pub lte : ℕ
lte = 8

abbrev pub re : ℕ
re = 9

abbrev pub cidr : ℕ
cidr = 10

abbrev pub numeq : ℕ
numeq = 11
