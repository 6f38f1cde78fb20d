-- ===== src/Cidr.antt =====
-- Membership of an address in a network: `prefix_match` and `ip_in_cidr` of src/sigma_match.c.
-- `none` is a read past the end of an array.
pub mod Prefix
pub mod Reads
use libsigma.Base.{
  ℕ, zero, suc, ◌+◌, ◌-◌, ◌*◌, ◌/◌, ◌%◌, ◌^◌, Bool, true, false, ◌||◌, Option, none, some, ◌>>=◌,
  List, [], ◌∷◌, length, take, get_elem?, ltb, leb, ◌==◌, if◌then◌else◌,
}
use Prim.Native.Nat.{bit_and}
use libsigma.Text.{Bytes, eq_from}

-- `sigma_cidr_t`
pub record Cidr : Type 0 where
  pub family : ℕ
  pub prefix : ℕ
  pub net : Bytes

-- `inet_pton` on a text, for each of the two families: the address in network byte order.
pub record Inet : Type 0 where
  pub pton4 : Bytes → Option Bytes
  pub pton6 : Bytes → Option Bytes

-- `(uint8_t)(0xFFu << (8u - rem))`
unfoldable pub mask : ℕ → ℕ
mask rem = (255 * 2 ^ (8 - rem)) % 256

-- The comparison of the byte that the prefix ends in.
unfoldable pub last_byte : Bytes → Bytes → ℕ → ℕ → Option Bool
last_byte addr net full rem = do
  a ← get_elem? addr full
  n ← get_elem? net full
  some (bit_and a (mask rem) == bit_and n (mask rem))

-- The `memcmp` of the whole bytes, then the byte that the prefix ends in.
unfoldable pub compare_prefix : Bytes → Bytes → ℕ → ℕ → Option Bool
compare_prefix addr net full rem =
    if eq_from true (take full addr) (take full net)
    then (if rem == 0 then some true else last_byte addr net full rem)
    else some false

unfoldable pub prefix_match : Bytes → Bytes → ℕ → ℕ → Option Bool
prefix_match addr net prefix nbytes =
    if ltb nbytes (prefix / 8)
    then some false
    else compare_prefix addr net (prefix / 8) (prefix % 8)

-- A C string ends at its first NUL.
unfoldable pub c_string : Bytes → Bytes
c_string [] = []
c_string (c ∷ s) = if c == 0 then [] else c ∷ c_string s

abbrev pub inet6_addrstrlen : ℕ
inet6_addrstrlen = 46

-- `ip_in_cidr`; `inet_pton(..) != 1` is `none` of the two parsers.
unfoldable pub ip_in_cidr : Inet → Bytes → Cidr → Option Bool
ip_in_cidr inet val c =
    if length val == 0 || leb inet6_addrstrlen (length val)
    then some false
    else if c.family == 4
    then elim (inet.pton4 (c_string val)) [
      | none ↦ some false
      | some addr ↦ prefix_match addr c.net c.prefix 4
    ]
    else if c.family == 6
    then elim (inet.pton6 (c_string val)) [
      | none ↦ some false
      | some addr ↦ prefix_match addr c.net c.prefix 16
    ]
    else some false
