-- ===== src/Cidr/Reads.antt =====
-- The reads of `prefix_match` and `ip_in_cidr` (src/sigma_match.c): inside an address, or past its end.
use libsigma.Base.{
  ℕ, ◌+◌, ◌*◌, ◌/◌, ◌%◌, ◌≤◌, ◌<◌, ◌≡◌, ◌≢◌, refl, ◌∙◌, Bool, true, false, ◌&&◌, ◌||◌, Option, none,
  some, [], ◌∷◌, ◌++◌, length, take, get_elem?_of_lt, ltb, leb, ◌==◌, ==_iff, ==-refl,
  if◌then◌else◌, ℕ_discrete, arith,
}
use Prim.Native.Nat.{bit_and}
use libsigma.Text.{Bytes, eq_from}
use libsigma.Cidr.{
  Cidr, Inet, c_string, inet6_addrstrlen, ip_in_cidr, mask, last_byte, compare_prefix, prefix_match,
}
use libsigma.Cidr.Prefix.{compare_prefix_cons}

compare_prefix_overread :
    (addr rest : Bytes) (rem : ℕ)
    → rem ≢ 0
    → compare_prefix addr (addr ++ rest) (length addr) rem ≡ none
unfolding compare_prefix last_byte eq_from
compare_prefix_overread [] rest rem h = ground arith
compare_prefix_overread (a ∷ addr) rest rem h =
    compare_prefix_cons a a (length addr) rem addr (addr ++ rest)
    ∙ rw (==-refl a) (compare_prefix_overread addr rest rem h)

-- A prefix of one to seven bits more than the address has, which the test `full > nbytes` lets
-- through, reads the byte behind the address whenever the address equals the network.
pub prefix_match_overread :
    (addr rest : Bytes) (prefix nbytes : ℕ)
    → length addr ≡ nbytes
    → nbytes * 8 < prefix
    → prefix < nbytes * 8 + 8
    → prefix_match addr (addr ++ rest) prefix nbytes ≡ none
unfolding prefix_match
prefix_match_overread addr rest prefix nbytes l p q =
    let e : prefix / 8 ≡ length addr = omega arith in
    let r : prefix % 8 ≢ 0 = omega arith in
    let k : ltb nbytes (prefix / 8) ≡ false = ground arith in
    rw (k, e) (compare_prefix_overread addr rest (prefix % 8) r)

last_byte_total :
    (addr net : Bytes) (full rem : ℕ)
    → full < length addr
    → full < length net
    → (b : Bool) × (last_byte addr net full rem ≡ some b)
unfolding last_byte
last_byte_total addr net full rem h k =
    let (a, e) = get_elem?_of_lt addr full h in
    let (n, f) = get_elem?_of_lt net full k in
    (bit_and a (mask rem) == bit_and n (mask rem), simp (e, f))

-- Within the address `prefix_match` returns.
pub prefix_match_total :
    (addr net : Bytes) (prefix nbytes : ℕ)
    → length addr ≡ nbytes
    → nbytes ≤ length net
    → prefix ≤ nbytes * 8
    → (b : Bool) × (prefix_match addr net prefix nbytes ≡ some b)
unfolding prefix_match compare_prefix
prefix_match_total addr net prefix nbytes l k h = elim (ℕ_discrete (prefix % 8) 0) [
  | yes z ↦
      let whole : (prefix % 8 == 0) ≡ true = ground arith in
      (eq_from true (take (prefix / 8) addr) (take (prefix / 8) net), ground arith)
  | no nz ↦
      let (b, e) = last_byte_total addr net (prefix / 8) (prefix % 8) (omega arith) (omega arith) in
      (eq_from true (take (prefix / 8) addr) (take (prefix / 8) net) && b, ground arith)
]

-- A prefix that fits its family, and the sixteen bytes of `net`.
abbrev pub CidrFits : Cidr → Type 0
CidrFits c =
    (c.family ≡ 4 → c.prefix ≤ 4 * 8) × (c.family ≡ 6 → c.prefix ≤ 16 * 8) × (length c.net ≡ 16)

-- `inet_pton` writes four bytes, or sixteen.
pub record IsInet (inet : Inet) : Type 0 where
  pub four : (s a : Bytes) → inet.pton4 s ≡ some a → length a ≡ 4
  pub sixteen : (s a : Bytes) → inet.pton6 s ≡ some a → length a ≡ 16

pton_total :
    (o : Option Bytes) (net : Bytes) (prefix nbytes : ℕ)
    → ((a : Bytes) → o ≡ some a → length a ≡ nbytes)
    → nbytes ≤ length net
    → prefix ≤ nbytes * 8
    → (b : Bool) × ((elim o [ none ↦ some false | some addr ↦ prefix_match addr net prefix nbytes ])
        ≡ some b)
pton_total none net prefix nbytes l k h = (false, refl)
pton_total (some addr) net prefix nbytes l k h =
    prefix_match_total addr net prefix nbytes (l addr refl) k h

total-if :
    (t : Bool) {x y : Option Bool}
    → (t ≡ true → (b : Bool) × (x ≡ some b))
    → (t ≡ false → (b : Bool) × (y ≡ some b))
    → (b : Bool) × ((if t then x else y) ≡ some b)
total-if true f g = f refl
total-if false f g = g refl

-- A network whose prefix fits its family never makes `ip_in_cidr` read outside its arrays.
pub ip_in_cidr_total :
    (inet : Inet) (val : Bytes) (c : Cidr)
    → IsInet inet
    → CidrFits c
    → (b : Bool) × (ip_in_cidr inet val c ≡ some b)
unfolding ip_in_cidr
ip_in_cidr_total inet val c i (f4, f6, l) =
    total-if (length val == 0 || leb inet6_addrstrlen (length val)) (λ _. (false, refl))
      λ _.
        total-if (c.family == 4)
          (λ h.
            pton_total (inet.pton4 (c_string val)) c.net c.prefix 4 (i.four (c_string val))
              (omega arith) (f4 ((==_iff _ _).0 h)))
          λ _.
            total-if (c.family == 6)
              (λ h.
                pton_total (inet.pton6 (c_string val)) c.net c.prefix 16 (i.sixteen (c_string val))
                  (omega arith) (f6 ((==_iff _ _).0 h)))
              (λ _. (false, refl))
