-- ===== src/Scale/Scaler.antt =====
-- internal/scale/scaler.go: one reconciliation of a target with its queue. What the source and the
-- target answer is an input; the call of `SetInstances`, if there is one, is part of the outcome.
pub mod Holds
use kibitz.Prelude.{
  ℕ, ◌+◌, Bool, true, false, not, ◌&&◌, Option, none, some, if◌then◌else◌, Result, ok, err,
}
use kibitz.Prelude.Int.{ℤ, pos, negsuc, pos_part, neg_part, ltb_ℤ, leb_ℤ, ◌-ℤ◌}
use kibitz.Scale.{Backlog, Policy, Reason, normalize, desired, settling}

-- What the outside answers during one call. `last_changed` is none for a target that is no
-- `ChangeTracker`; `set_fails` is the error of `SetInstances`.
pub record World (E : Type 0) : Type 0 where
  pub backlog : Result E Backlog
  pub instances : Result E ℤ
  pub last_changed : Option (Result E ℤ)
  pub now : ℤ
  pub set_fails : Option E

-- `Result`
pub record Report : Type 0 where
  pub backlog : Backlog
  pub current : ℤ
  pub desired : ℤ
  pub reason : Reason
  pub changed : Bool

-- What `Reconcile` returns, and the count that it asked the target for.
pub record Outcome (E : Type 0) : Type 0 where
  pub report : Report
  pub error : Option E
  pub asked : Option ℤ

abbrev no_backlog : Backlog
no_backlog = record { undelivered = pos 0; empty_for = pos 0; oldest = pos 0; known = false }

abbrev report : Backlog → ℤ → ℤ × Reason → Bool → Report
report b current (want, reason) changed = record {
  backlog = b;
  current = current;
  desired = want;
  reason = reason;
  changed = changed;
}

abbrev equal_ℤ : ℤ → ℤ → Bool
equal_ℤ a b = leb_ℤ a b && leb_ℤ b a

module _ {E : Type 0} where
  abbrev pub observed : Result E Backlog → Backlog
  observed (ok b) = b
  observed (err e) = no_backlog

  abbrev settling_since : Policy → ℤ → Option (Result E ℤ) → Bool
  settling_since p now none = false
  settling_since p now (some (err e)) = true
  settling_since p now (some (ok changed)) = ltb_ℤ (now -ℤ changed) p.idle_after

  unfoldable pub is_settling : Policy → World E → Bool
  unfolding ◌-ℤ◌
  is_settling p w = settling_since p w.now w.last_changed

  -- The decision that the settling rule leaves.
  abbrev held : Policy → World E → ℤ → ℤ × Reason → ℤ × Reason
  held p w current (want, reason) =
      if ltb_ℤ want current && is_settling p w then (current, settling) else (want, reason)

  abbrev set_instances : World E → Backlog → ℤ → ℤ × Reason → Option E → Outcome E
  set_instances w b current d (some e) = record {
    report = report b current d false;
    error = some e;
    asked = some d.0;
  }
  set_instances w b current d none = record {
    report = report b current d true;
    error = none;
    asked = some d.0;
  }

  abbrev apply : World E → Backlog → ℤ → ℤ × Reason → Outcome E
  apply w b current d =
      if equal_ℤ current d.0
      then record { report = report b current d false; error = none; asked = none }
      else set_instances w b current d w.set_fails

  abbrev with_count : Policy → World E → Backlog → Result E ℤ → Outcome E
  with_count p w b (err e) = record {
    report = report b (pos 0) (desired p b) false;
    error = some e;
    asked = none;
  }
  with_count p w b (ok current) = apply w b current (held p w current (desired p b))

  unfoldable pub reconcile : Policy → World E → Outcome E
  reconcile policy w = let p = normalize policy in with_count p w (observed w.backlog) w.instances
