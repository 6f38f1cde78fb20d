-- ===== src/Corr/Dispatch/Bounded.antt =====
-- One correlation's part in an event (`corr_on_event_apply` of src/classify_corr.c): its groups stay valid and
-- within the cap, and no array is left.
use libsigma.Base.{
  ℕ, suc, ◌≤◌, ◌<◌, ◌≡◌, refl, sym, ap, ◌∙◌, subst, inl, inr, true, Option, none, some, List, [],
  ◌∷◌, ◌++◌, length, length-replicate, leb, ◌==◌, if◌then◌else◌, Bool-cases, arith,
}
use mathlib.Core.Option.{some-injective}
use libsigma.Text.{Bytes, eq_from}
use libsigma.Corr.Table.{Node, same_node, table_init}
use libsigma.Corr.Table.Chains.{occ}
use libsigma.Corr.Table.Valid.{keys}
use libsigma.Corr.Table.Grow.{table_init-IsTable}
use libsigma.Corr.Table.Lru.{oldest_out}
use libsigma.Corr.Table.Map.{entries, Hashed, forget}
use libsigma.Corr.Group.{hash_group_key, group_key_eq, Group, group_new}
use libsigma.Corr.Group.Distinct.{eq_from-IsSame}
use libsigma.Corr.Engine.{Groups}
use libsigma.Corr.Engine.Groups.{IsGroups, lookup, used_as}
use libsigma.Corr.Event.{write_value}
use libsigma.Corr.Event.Stored.{Stored}

positive_or_one : (size : ℕ) → 0 < (if size == 0 then 1 else size)
positive_or_one size = ground arith

small_or_one : (size : ℕ) → size ≤ 2147483648 → (if size == 0 then 1 else size) ≤ 2147483648
small_or_one size h = ground arith

module _ {W : Type 0} (nb : ℕ) where
  -- Every group has its arrays.
  unfoldable pub AllStored : List (List Bytes × Group W) → Type 0
  AllStored [] = Unit
  AllStored ((k, g) ∷ l) = Stored nb g × AllStored l

  AllStored-append :
      (l m : List (List Bytes × Group W)) → AllStored l → AllStored m → AllStored (l ++ m)
  unfolding AllStored
  AllStored-append [] m a b = b
  AllStored-append ((k, g) ∷ l) m (s, a) b = (s, AllStored-append l m a b)

  AllStored-forget :
      (k : List Bytes) (l : List (List Bytes × Group W))
      → AllStored l
      → AllStored (forget group_key_eq k l)
  unfolding AllStored forget
  AllStored-forget k [] a = tt
  AllStored-forget k ((j, g) ∷ l) (s, a) = elim (Bool-cases (group_key_eq j k)) [
    | inl t ↦ rw t a
    | inr t ↦ rw t (s, AllStored-forget k l a)
  ]

  AllStored-oldest_out :
      (n_max : ℕ) (l : List (List Bytes × Group W)) → AllStored l → AllStored (oldest_out n_max l)
  unfolding AllStored
  AllStored-oldest_out n_max [] a = tt
  AllStored-oldest_out n_max ((j, g) ∷ l) (s, a) = elim (Bool-cases (leb n_max (suc (length l)))) [
    | inl t ↦ rw t a
    | inr t ↦ rw t (s, a)
  ]

  lookup-Stored :
      (k : List Bytes) (l : List (List Bytes × Group W)) (g : Group W)
      → lookup k l ≡ some g
      → AllStored l
      → Stored nb g
  unfolding AllStored lookup
  lookup-Stored k [] g e a = absurd (ground (arith, e))
  lookup-Stored k ((j, v) ∷ l) g e (s, a) = elim (Bool-cases (group_key_eq j k)) [
    | inl t ↦ subst (Stored nb) (some-injective v g (rw t at e)) s
    | inr t ↦ lookup-Stored k l g (rw t at e) a
  ]

  pub used_as-AllStored :
      (k : List Bytes) (n_max : ℕ) (fresh_group : Group W) (l : List (List Bytes × Group W))
      (o : Option (Group W))
      → lookup k l ≡ o
      → Stored nb fresh_group
      → AllStored l
      → Stored nb (used_as k n_max fresh_group l o).0
        × AllStored (used_as k n_max fresh_group l o).1
  unfolding used_as AllStored
  used_as-AllStored k n_max f l (some g) e s a =
      let u = lookup-Stored k l g e a in
      (u, AllStored-append (forget group_key_eq k l) ((k, g) ∷ []) (AllStored-forget k l a) (u, tt))
  used_as-AllStored k n_max f l none e s a = (
    s,
    AllStored-append (oldest_out n_max l) ((k, f) ∷ []) (AllStored-oldest_out n_max l a) (s, tt),
  )

  pub group_new-Stored : (z : W) (size : ℕ) → size ≤ 2147483648 → Stored nb (group_new z size)
  unfolding group_new Hashed table_init
  group_new-Stored z size h =
      let n = if size == 0 then 1 else size in
      (
        record {
          sized = length-replicate n z;
          positive = positive_or_one size;
          head_in = positive_or_one size;
          len_in = omega arith;
        },
        tt,
        tt,
        (
          (table_init-IsTable (eq_from true) eq_from-IsSame, tt),
          (small_or_one size h, omega arith, omega arith),
        ),
      )

module _ {W : Type 0} where
  keys-write_value :
      (n : Node (List Bytes)) (g : Group W) (l : List (Node (List Bytes) × Group W))
      → keys (write_value n g l) ≡ keys l
  unfolding write_value
  keys-write_value n g [] = refl
  keys-write_value n g ((m, v) ∷ l) = elim (Bool-cases (same_node group_key_eq m n)) [
    | inl t ↦ rw t refl
    | inr t ↦ rw t (ap (λ k. m ∷ k) (keys-write_value n g l))
  ]

  Hashed-write_value :
      (n : Node (List Bytes)) (g : Group W) (l : List (Node (List Bytes) × Group W))
      → Hashed hash_group_key l
      → Hashed hash_group_key (write_value n g l)
  unfolding write_value Hashed
  Hashed-write_value n g [] h = tt
  Hashed-write_value n g ((m, v) ∷ l) (e, h) = elim (Bool-cases (same_node group_key_eq m n)) [
    | inl t ↦ rw t (e, h)
    | inr t ↦ rw t (e, Hashed-write_value n g l h)
  ]

  pub length-write_value :
      (n : Node (List Bytes)) (g : Group W) (l : List (Node (List Bytes) × Group W))
      → length (write_value n g l) ≡ length l
  unfolding write_value
  length-write_value n g [] = refl
  length-write_value n g ((m, v) ∷ l) = elim (Bool-cases (same_node group_key_eq m n)) [
    | inl t ↦ rw t refl
    | inr t ↦ rw t (ap suc (length-write_value n g l))
  ]

  pub AllStored-write_value :
      (nb : ℕ) (n : Node (List Bytes)) (g : Group W) (l : List (Node (List Bytes) × Group W))
      → Stored nb g
      → AllStored nb (entries l)
      → AllStored nb (entries (write_value n g l))
  unfolding write_value AllStored entries
  AllStored-write_value nb n g [] s a = tt
  AllStored-write_value nb n g ((m, v) ∷ l) s (u, a) =
      elim (Bool-cases (same_node group_key_eq m n)) [
        | inl t ↦ rw t (s, a)
        | inr t ↦ rw t (u, AllStored-write_value nb n g l s a)
      ]

  pub IsGroups-write_value :
      (gs : Groups W) (n : Node (List Bytes)) (g : Group W)
      → IsGroups gs
      → IsGroups (record gs { lru = write_value n g gs.lru })
  IsGroups-write_value gs n g (w, h) =
      let q = keys-write_value n g gs.lru in
      (
        record {
          nonempty = w.nonempty;
          placed = λ i c e m.
              let (a, b) = w.placed i c e m in (λ p. a p ∙ ap (occ group_key_eq m) (sym q), b);
          once = λ m. omega (arith, ap (occ group_key_eq m) q, w.once m);
          counted = w.counted ∙ sym (length-write_value n g gs.lru);
          sized = w.sized;
        },
        Hashed-write_value n g gs.lru h,
      )
