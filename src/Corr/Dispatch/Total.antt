-- ===== src/Corr/Dispatch/Total.antt =====
-- The evaluation of one group for an event (`corr_on_event_apply` of src/classify_corr.c, from
-- `cstate_get_or_create` to the deadline of the next fire), on the groups of its correlation.
use libsigma.Base.{ℕ, ◌≤◌, ◌<◌, Bool, Option, none, some}
use libsigma.Corr.{CorrCaps, CorrStats}
use libsigma.Corr.Table.Size.{max_nodes}
use libsigma.Corr.Table.Map.{entries}
use libsigma.Corr.Group.{Group}
use libsigma.Corr.Engine.{Groups}
use libsigma.Corr.Engine.Groups.{IsGroups}
use libsigma.Corr.Event.Stored.{Stored}
use libsigma.Corr.Dispatch.{Event}
use libsigma.Corr.Dispatch.Bounded.{AllStored}

-- The groups of a correlation: a valid table, each group with its arrays, within the cap.
abbrev pub IsState : {W : Type 0} → ℕ → ℕ → Groups W → Type 0
IsState nb n_max gs = IsGroups gs × AllStored nb (entries gs.lru) × (gs.count ≤ n_max)

-- The caps of an engine that stay clear of the wrap of `uint32_t`.
pub record IsCaps {W : Type 0} (caps : CorrCaps W) : Type 0 where
  pub groups_positive : 0 < caps.max_groups
  pub groups_le : caps.max_groups ≤ max_nodes
  pub distinct_le : caps.max_distinct ≤ max_nodes
  pub events_le : caps.max_events_per_group ≤ 2147483648

-- A result that is there, with such groups.
abbrev pub KeepsState :
    {W : Type 0} → ℕ → ℕ → Option (Groups W × Group W × CorrStats × Bool × W) → Type 0
KeepsState nb n_max none = ⊥
KeepsState nb n_max (some (gs, g, stats, lit, vagg)) = IsState nb n_max gs
