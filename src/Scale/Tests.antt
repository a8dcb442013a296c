-- ===== src/Scale/Tests.antt =====
-- The scaler and the waker run on concrete answers.
use kibitz.Prelude.{ℕ, ◌≡◌, ◌≢◌, ◌↔◌, ◌⊎◌, refl, none, some, [], ◌∷◌, true, false, ok, err}
use kibitz.Prelude.Int.{pos, negsuc, ◌≤ℤ◌, ◌-ℤ◌}
use kibitz.Scale
use kibitz.Scale.{Backlog, Policy, normalize, desired, default_policy, second}
use kibitz.Scale.Bounds.{desired_bounds}
use kibitz.Scale.Scaler
use kibitz.Scale.Scaler.{reconcile, observed}
use kibitz.Scale.Scaler.Holds.{IsSettled, reconcile_asks}
use kibitz.Scale.Waker
use kibitz.Scale.Waker.{new_waker, wake, calls}

abbrev five_waiting : Backlog
five_waiting = record { undelivered = pos 5; empty_for = pos 0; oldest = pos 60; known = true }

-- Two at a time: five messages call for three instances.
five-desired : desired default_policy five_waiting ≡ (pos 3, Scale.backlogged)
unfolding desired Scale.wanted
five-desired = refl

desired_bounds_example :
    ((normalize default_policy).min ≤ℤ (desired default_policy five_waiting).0)
    × ((desired default_policy five_waiting).0 ≤ℤ (normalize default_policy).max)
    × (((desired default_policy five_waiting).0 ≡ pos 0) ↔ (
        ((normalize default_policy).min ≡ pos 0)
        × (five_waiting.known ≡ true)
        × (five_waiting.undelivered ≤ℤ pos 0)
        × ((normalize default_policy).idle_after ≤ℤ five_waiting.empty_for)))
desired_bounds_example = desired_bounds default_policy five_waiting

abbrev crooked : Policy
crooked = record { min = pos 4; max = negsuc 2; per_instance = pos 0; idle_after = pos 0 }

abbrev first_look : Scaler.World Unit
first_look = record {
  backlog = ok five_waiting;
  instances = ok (pos 0);
  last_changed = none;
  now = pos 0;
  set_fails = none;
}

abbrev second_look : Scaler.World Unit
second_look = record first_look { instances = ok (pos 3); last_changed = some (err tt) }

reconcile_asks_example :
    (pos 3 ≢ pos 0)
    × (pos 3 ≡ (desired default_policy (observed first_look.backlog)).0)
    × ((normalize default_policy).min ≤ℤ pos 3)
    × (pos 3 ≤ℤ (normalize default_policy).max)
    × ((pos 0 ≤ℤ pos 3) ⊎ IsSettled (normalize default_policy) first_look)
    × ((pos 3 ≢ pos 0)
        ⊎ (((observed first_look.backlog).known ≡ true)
            × ((observed first_look.backlog).undelivered ≤ℤ pos 0)
            × ((normalize default_policy).idle_after ≤ℤ (observed first_look.backlog).empty_for)))
unfolding reconcile desired Scale.wanted
reconcile_asks_example = reconcile_asks default_policy first_look (pos 0) (pos 3) refl refl

abbrev waker : Waker.Waker
waker = new_waker (pos 1) (pos 30)

abbrev at_time : ℕ → Waker.World
at_time n = record { now = pos n; instances = ok (pos 0); set_fails = false }

-- The second of three wake-ups comes within the cooldown of the first.
three_wakes : calls waker (at_time 5 ∷ at_time 9 ∷ at_time 40 ∷ []) ≡ pos 5 ∷ pos 40 ∷ []
unfolding wake new_waker ◌-ℤ◌
three_wakes = refl
