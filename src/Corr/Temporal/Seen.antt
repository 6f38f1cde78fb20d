-- ===== src/Corr/Temporal/Seen.antt =====
-- `eval_temporal` of src/classify_corr.c, against the rules seen in the window.
use libsigma.Base.{ℕ, suc, ◌≡◌, refl, Bool, true, false, ◌||◌, List, [], ◌∷◌, if◌then◌else◌}
use libsigma.Corr.Float.{Double}
use libsigma.Corr.Cond.{Mask}
use libsigma.Corr.Group.{Group}
use libsigma.Corr.Temporal.{expire_seen, in_seen}

module _ {W : Type 0} ⦃d : Double W⦄ where
  -- Whether a rule was seen in the window.
  abbrev pub seen_in : W → List (ℕ × W) → ℕ → Bool
  seen_in window_start seen rid = in_seen rid (expire_seen window_start seen)

  seen_in-nil : (window_start : W) (r : ℕ) → seen_in window_start [] r ≡ false
  unfolding expire_seen in_seen
  seen_in-nil window_start r = refl

-- Every base rule from number `i` on is one that a peer has seen or that the test finds.
unfoldable pub every_seen : Mask → (ℕ → Bool) → ℕ → List ℕ → Bool
every_seen merged sees i [] = true
every_seen merged sees i (b ∷ base) =
    let rest = every_seen merged sees (suc i) base in if merged i || sees b then rest else false
