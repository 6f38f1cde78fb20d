-- ===== src/Cidr/Prefix.antt =====
-- `prefix_match` (src/sigma_match.c) compares the leading bits of two addresses.
use libsigma.Base.{
  ℕ, zero, suc, ◌+◌, ◌-◌, ◌*◌, ◌/◌, ◌%◌, ◌^◌, ◌≤◌, ◌<◌, ◌≡◌, refl, sym, ap, ap₂, ◌∙◌, ◌↔◌, inl, inr,
  Bool, true, false, ◌&&◌, Option, some, List, [], ◌∷◌, ◌++◌, length, take, ◌==◌, ==_iff,
  if◌then◌else◌, Bool-cases, &&_iff, ℕ_discrete, arith,
}
use Prim.Native.Nat.{bit_and}
use native.Mathlib.Nat.{one-le-pow}
use libsigma.Text.{Bytes, byte_eq, eq_from}
use libsigma.Cidr.{mask, last_byte, compare_prefix, prefix_match}

-- The bits of a byte and of an address, the highest first.
abbrev pub byte_bits : ℕ → List ℕ
byte_bits a =
    a / 128 % 2
    ∷ a / 64 % 2
    ∷ a / 32 % 2
    ∷ a / 16 % 2
    ∷ a / 8 % 2
    ∷ a / 4 % 2
    ∷ a / 2 % 2
    ∷ a % 2
    ∷ []

abbrev pub bits : Bytes → List ℕ
bits [] = []
bits (a ∷ s) = byte_bits a ++ bits s

abbrev pub AllBytes : Bytes → Type 0
AllBytes [] = Unit
AllBytes (a ∷ s) = (a < 256) × AllBytes s

-- The masked byte, over every byte and every length.
mask_row : ℕ → ℕ → Bool
mask_row rem zero = true
mask_row rem (suc a) = (bit_and a (mask rem) == a / 2 ^ (8 - rem) * 2 ^ (8 - rem)) && mask_row rem a

mask_row_sound :
    (rem n a : ℕ)
    → mask_row rem n ≡ true
    → a < n
    → bit_and a (mask rem) ≡ a / 2 ^ (8 - rem) * 2 ^ (8 - rem)
unfolding mask_row
mask_row_sound rem zero a h l = absurd (omega arith)
mask_row_sound rem (suc n) a h l = ground (arith, mask_row_sound rem n a)

mask_rows : ℕ → Bool
mask_rows zero = true
mask_rows (suc r) = mask_row (suc r) 256 && mask_rows r

mask_table : mask_rows 7 ≡ true
unfolding mask_rows mask_row mask
mask_table = refl

mask_rows_sound : (r rem : ℕ) → mask_rows r ≡ true → 0 < rem → rem ≤ r → mask_row rem 256 ≡ true
unfolding mask_rows
mask_rows_sound zero rem h p q = absurd (omega arith)
mask_rows_sound (suc r) rem h p q = elim (ℕ_discrete rem (suc r)) [
  | yes e ↦ rw e ((&&_iff _ _).0 h).0
  | no n ↦ mask_rows_sound r rem ((&&_iff _ _).0 h).1 p (omega arith)
]

bit_and-mask :
    (rem a : ℕ)
    → 0 < rem
    → rem < 8
    → a < 256
    → bit_and a (mask rem) ≡ a / 2 ^ (8 - rem) * 2 ^ (8 - rem)
bit_and-mask rem a p q h =
    mask_row_sound rem 256 a (mask_rows_sound 7 rem mask_table p (omega arith)) h

-- The first `rem` bits are those of the quotient.
quotient_bits :
    (rem a b : ℕ)
    → rem < 8
    → a < 256
    → b < 256
    → (a / 2 ^ (8 - rem) ≡ b / 2 ^ (8 - rem)) ↔ (take rem (byte_bits a) ≡ take rem (byte_bits b))
quotient_bits zero a b q ha hb = (λ _. refl, λ _. omega arith)
quotient_bits (suc zero) a b q ha hb = (λ e. ground arith, λ e. ground arith)
quotient_bits (suc (suc zero)) a b q ha hb = (λ e. ground arith, λ e. ground arith)
quotient_bits (suc (suc (suc (suc (suc (suc (suc zero))))))) a b q ha hb =
    (λ e. ground arith, λ e. ground arith)
quotient_bits _ a b q ha hb = (λ e. ground arith, λ e. ground arith)

mul_cancel : (k a b : ℕ) → 0 < k → a * k ≡ b * k → a ≡ b
mul_cancel k a b p e = grind arith

pow_pos : (k : ℕ) → 0 < 2 ^ k
pow_pos k = one-le-pow k 2 (omega arith)

masked_iff :
    (rem a b : ℕ)
    → 0 < rem
    → rem < 8
    → a < 256
    → b < 256
    → ((bit_and a (mask rem) == bit_and b (mask rem)) ≡ true)
      ↔ (take rem (byte_bits a) ≡ take rem (byte_bits b))
masked_iff rem a b p q ha hb = (
  λ h. (quotient_bits rem a b q ha hb).0 (
      mul_cancel (2 ^ (8 - rem)) _ _ (pow_pos (8 - rem))
        (sym (bit_and-mask rem a p q ha) ∙ (==_iff _ _).0 h ∙ bit_and-mask rem b p q hb)),
  λ h. (==_iff _ _).1 (
      bit_and-mask rem a p q ha
      ∙ ap (λ (t : ℕ). t * 2 ^ (8 - rem)) ((quotient_bits rem a b q ha hb).1 h)
      ∙ sym (bit_and-mask rem b p q hb)),
)

take-byte_bits :
    (rem a : ℕ) (s : Bytes) → rem < 8 → take rem (byte_bits a ++ bits s) ≡ take rem (byte_bits a)
take-byte_bits zero a s h = refl
take-byte_bits (suc zero) a s h = refl
take-byte_bits (suc (suc zero)) a s h = refl
take-byte_bits (suc (suc (suc zero))) a s h = refl
take-byte_bits (suc (suc (suc (suc zero)))) a s h = refl
take-byte_bits (suc (suc (suc (suc (suc zero))))) a s h = refl
take-byte_bits (suc (suc (suc (suc (suc (suc zero)))))) a s h = refl
take-byte_bits (suc (suc (suc (suc (suc (suc (suc zero))))))) a s h = refl
take-byte_bits (suc (suc (suc (suc (suc (suc (suc (suc k)))))))) a s h = absurd (omega arith)

take-bits_cons :
    (f rem a : ℕ) (s : Bytes)
    → take (suc f * 8 + rem) (bits (a ∷ s)) ≡ byte_bits a ++ take (f * 8 + rem) (bits s)
take-bits_cons f rem a s = ap (λ k. take k (bits (a ∷ s))) (split f rem)
  where
    split :
        (f rem : ℕ) → suc f * 8 + rem ≡ suc (suc (suc (suc (suc (suc (suc (suc (f * 8 + rem))))))))
    split f rem = omega arith

byte_bits_injective : (a b : ℕ) → a < 256 → b < 256 → byte_bits a ≡ byte_bits b → a ≡ b
byte_bits_injective a b ha hb e = ground arith

-- The comparison returns, and says whether the leading bits agree.
abbrev Compares : List ℕ → List ℕ → Option Bool → Type 0
Compares xs ys r = (b : Bool) × (r ≡ some b) × ((b ≡ true) ↔ (xs ≡ ys))

last_byte-Compares :
    (rem a n : ℕ) (addr net : Bytes)
    → 0 < rem
    → rem < 8
    → AllBytes (a ∷ addr)
    → AllBytes (n ∷ net)
    → Compares
        (take rem (bits (a ∷ addr)))
        (take rem (bits (n ∷ net)))
        (last_byte (a ∷ addr) (n ∷ net) 0 rem)
unfolding last_byte
last_byte-Compares rem a n addr net p q (ha, _) (hn, _) =
    rw (take-byte_bits rem a addr q, take-byte_bits rem n net q)
      (bit_and a (mask rem) == bit_and n (mask rem), refl, masked_iff rem a n p q ha hn)

compare_prefix-zero :
    (rem : ℕ) (addr net : Bytes)
    → rem < 8
    → AllBytes addr
    → AllBytes net
    → rem ≤ length addr * 8
    → rem ≤ length net * 8
    → Compares (take rem (bits addr)) (take rem (bits net)) (compare_prefix addr net 0 rem)
unfolding compare_prefix eq_from
compare_prefix-zero zero addr net q ha hn la ln = (true, refl, (λ _. refl, λ _. refl))
compare_prefix-zero (suc r) [] net q ha hn la ln = absurd (omega arith)
compare_prefix-zero (suc r) (a ∷ addr) [] q ha hn la ln = absurd (omega arith)
compare_prefix-zero (suc r) (a ∷ addr) (n ∷ net) q ha hn la ln =
    let positive : (suc r == 0) ≡ false = ground arith in
    rw positive (last_byte-Compares (suc r) a n addr net (omega arith) q ha hn)

append_injective_bits :
    (a n : ℕ) (xs ys : List ℕ)
    → byte_bits a ++ xs ≡ byte_bits n ++ ys
    → (byte_bits a ≡ byte_bits n) × (xs ≡ ys)
append_injective_bits a n xs ys e = (cc, cc)

Compares-cons :
    (a n : ℕ) (xs ys : List ℕ) (r : Option Bool)
    → a < 256
    → n < 256
    → Compares xs ys r
    → Compares (byte_bits a ++ xs) (byte_bits n ++ ys) (if a == n then r else some false)
Compares-cons a n xs ys r ha hn (b, e, i) = elim (Bool-cases (a == n)) [
  | inl q ↦ rw q (
    b,
    e,
    (
      λ h. ap₂ (λ k l. byte_bits k ++ l) ((==_iff a n).0 q) (i.0 h),
      λ h. i.1 (append_injective_bits a n xs ys h).1,
    ),
  )
  | inr q ↦ rw q (
    false,
    refl,
    (
      λ h. absurd (ground arith),
      λ h.
          absurd
            (ground (arith, byte_bits_injective a n ha hn (append_injective_bits a n xs ys h).0)),
    ),
  )
]

pub compare_prefix_cons :
    (a n f rem : ℕ) (addr net : Bytes)
    → compare_prefix (a ∷ addr) (n ∷ net) (suc f) rem
      ≡ (if a == n then compare_prefix addr net f rem else some false)
unfolding compare_prefix eq_from byte_eq last_byte
compare_prefix_cons a n f rem addr net = elim (Bool-cases (a == n)) [
  | inl q ↦ rw q refl
  | inr q ↦ rw q refl
]

compare_prefix-Compares :
    (full rem : ℕ) (addr net : Bytes)
    → rem < 8
    → AllBytes addr
    → AllBytes net
    → full * 8 + rem ≤ length addr * 8
    → full * 8 + rem ≤ length net * 8
    → Compares
        (take (full * 8 + rem) (bits addr))
        (take (full * 8 + rem) (bits net))
        (compare_prefix addr net full rem)
compare_prefix-Compares zero rem addr net q ha hn la ln =
    let e : 0 * 8 + rem ≡ rem = omega arith in
    rw e (compare_prefix-zero rem addr net q ha hn (omega arith) (omega arith))
compare_prefix-Compares (suc f) rem [] net q ha hn la ln = absurd (omega arith)
compare_prefix-Compares (suc f) rem (a ∷ addr) [] q ha hn la ln = absurd (omega arith)
compare_prefix-Compares (suc f) rem (a ∷ addr) (n ∷ net) q (ha, has) (hn, hns) la ln =
    rw
      (
        take-bits_cons f rem a addr,
        take-bits_cons f rem n net,
        compare_prefix_cons a n f rem addr net,
      )
      (Compares-cons a n _ _ _ ha hn
        (compare_prefix-Compares f rem addr net q has hns (omega arith) (omega arith)))

-- Where the prefix is no longer than the address, `prefix_match` stays inside both arrays, and is
-- true exactly when the first `prefix` bits of the address are those of the network.
pub prefix_match-bits :
    (addr net : Bytes) (prefix nbytes : ℕ)
    → AllBytes addr
    → AllBytes net
    → length addr ≡ nbytes
    → nbytes ≤ length net
    → prefix ≤ nbytes * 8
    → (b : Bool) × (prefix_match addr net prefix nbytes ≡ some b)
      × ((b ≡ true) ↔ (take prefix (bits addr) ≡ take prefix (bits net)))
unfolding prefix_match
prefix_match-bits addr net prefix nbytes ha hn la ln hp =
    let e : prefix / 8 * 8 + prefix % 8 ≡ prefix = omega arith in
    let (b, q, i) =
      compare_prefix-Compares (prefix / 8) (prefix % 8) addr net (omega arith) ha hn (omega arith)
        (omega arith) in
    (b, ground (arith, q), rw e at i)
