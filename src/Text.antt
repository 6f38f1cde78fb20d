-- ===== src/Text.antt =====
-- The ASCII string tests of src/sigma_match.c (sg_lower to sg_ends). A C string with its length is
-- the list of its bytes.
pub mod Occurs
use libsigma.Base.{
  ℕ, zero, suc, ◌+◌, ◌-◌, Bool, true, false, ◌&&◌, List, [], ◌∷◌, map, length, take, drop, ltb, leb,
  ◌==◌, if◌then◌else◌,
}

abbrev pub Bytes : Type 0
Bytes = List ℕ

unfoldable pub sg_lower : ℕ → ℕ
sg_lower c = if leb b'A' c && leb c b'Z' then c + 32 else c

-- The comparison of one byte, exact when `cs`.
unfoldable pub byte_eq : Bool → ℕ → ℕ → Bool
byte_eq cs a b = if cs then a == b else sg_lower a == sg_lower b

-- `memcmp(a, b, n) == 0`, or the loop over `sg_lower`, at equal lengths.
unfoldable pub eq_from : Bool → Bytes → Bytes → Bool
eq_from cs [] [] = true
eq_from cs [] (b ∷ bs) = false
eq_from cs (a ∷ as') [] = false
eq_from cs (a ∷ as') (b ∷ bs) = if byte_eq cs a b then eq_from cs as' bs else false

unfoldable pub sg_eq : Bytes → Bytes → Bool → Bool
sg_eq a b cs = if length a == length b then eq_from cs a b else false

-- The inner `while`: how far the needle agrees with the text from here on.
unfoldable pub common : Bool → Bytes → Bytes → ℕ
common cs [] ndl = 0
common cs (h ∷ hs) [] = 0
common cs (h ∷ hs) (n ∷ ns) = if byte_eq cs h n then suc (common cs hs ns) else 0

-- The outer `for`, with the rounds that are left and the text from `hay + i` on.
unfoldable pub contains_loop : Bool → ℕ → Bytes → Bytes → Bool
contains_loop cs zero hay ndl = false
contains_loop cs (suc k) hay ndl =
    if common cs hay ndl == length ndl then true else contains_loop cs k (drop 1 hay) ndl

unfoldable pub sg_contains : Bytes → Bytes → Bool → Bool
sg_contains hay ndl cs =
    if length ndl == 0
    then true
    else if ltb (length hay) (length ndl)
    then false
    else contains_loop cs (suc (length hay - length ndl)) hay ndl

unfoldable pub sg_starts : Bytes → Bytes → Bool → Bool
sg_starts s p cs = if ltb (length s) (length p) then false else sg_eq (take (length p) s) p cs

unfoldable pub sg_ends : Bytes → Bytes → Bool → Bool
sg_ends s p cs =
    if ltb (length s) (length p) then false else sg_eq (drop (length s - length p) s) p cs
