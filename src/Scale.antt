-- ===== src/Scale.antt =====
-- internal/scale/scale.go: from the backlog of the queue to a number of instances. A duration is a
-- number of nanoseconds.
pub mod Bounds
pub mod Scaler
pub mod Waker
mod Tests
use kibitz.Prelude.{ℕ, ◌+◌, ◌-◌, ◌*◌, ◌/◌, ◌^◌, Bool, true, false, not, if◌then◌else◌}
use kibitz.Prelude.Int.{ℤ, pos, negsuc, pos_part, ltb_ℤ, leb_ℤ, max_ℤ, min_ℤ}

pub record Backlog : Type 0 where
  pub undelivered : ℤ
  pub empty_for : ℤ
  pub oldest : ℤ
  pub known : Bool

pub data Reason : Type 0 where
  backlogged cooling idle unknown settling : Reason

pub record Policy : Type 0 where
  pub min : ℤ
  pub max : ℤ
  pub per_instance : ℤ
  pub idle_after : ℤ

abbrev pub second : ℕ
second = 10 ^ 9

abbrev pub default_policy : Policy
default_policy = record {
  min = pos 0;
  max = pos 3;
  per_instance = pos 2;
  idle_after = pos (15 * 60 * second);
}

-- The statements of `Normalize`, in their order.
abbrev raise_min : Policy → Policy
raise_min p = if ltb_ℤ p.min (pos 0) then record p { min = pos 0 } else p

abbrev raise_max : Policy → Policy
raise_max p = if ltb_ℤ p.max (pos 1) then record p { max = pos 1 } else p

abbrev fit_max : Policy → Policy
fit_max p = if ltb_ℤ p.max p.min then record p { max = p.min } else p

abbrev raise_per_instance : Policy → Policy
raise_per_instance p = if ltb_ℤ p.per_instance (pos 1) then record p { per_instance = pos 1 } else p

abbrev default_idle : Policy → Policy
default_idle p =
    if leb_ℤ p.idle_after (pos 0) then record p { idle_after = default_policy.idle_after } else p

unfoldable pub normalize : Policy → Policy
normalize p = default_idle (raise_per_instance (fit_max (raise_max (raise_min p))))

-- `int((Undelivered + PerInstance - 1) / PerInstance)`, where both are positive and the sum fits.
unfoldable pub wanted : ℤ → ℤ → ℤ
wanted undelivered per_instance =
    pos ((pos_part undelivered + pos_part per_instance - 1) / pos_part per_instance)

abbrev pub decide : Policy → Backlog → ℤ × Reason
decide p b =
    if not b.known
    then (max_ℤ p.min (pos 1), unknown)
    else if ltb_ℤ (pos 0) b.undelivered
    then (
      min_ℤ (max_ℤ (wanted b.undelivered p.per_instance) (max_ℤ p.min (pos 1))) p.max,
      backlogged,
    )
    else if ltb_ℤ b.empty_for p.idle_after
    then (max_ℤ p.min (pos 1), cooling)
    else (p.min, idle)

unfoldable pub desired : Policy → Backlog → ℤ × Reason
unfolding normalize
desired p b = decide (normalize p) b
