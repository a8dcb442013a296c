-- ===== src/Scale/Bounds.antt =====
-- The bounds of the desired count, and when it is zero.
use kibitz.Prelude.{ℕ, ◌+◌, ◌-◌, ◌*◌, ◌/◌, ◌≤◌, ◌<◌, ◌≡◌, ◌⊎◌, ◌↔◌, true, arith}
use kibitz.Prelude.Int.{ℤ, pos, pos_part, ◌≤ℤ◌, max_ℤ}
use kibitz.Scale.{Backlog, Policy, normalize, desired, wanted, decide}

pub record IsNormal (p : Policy) : Type 0 where
  pub min_nonneg : pos 0 ≤ℤ p.min
  pub max_pos : pos 1 ≤ℤ p.max
  pub ordered : p.min ≤ℤ p.max
  pub per_pos : pos 1 ≤ℤ p.per_instance
  pub idle_pos : pos 1 ≤ℤ p.idle_after

pub normalize-IsNormal : (p : Policy) → IsNormal (normalize p)
unfolding normalize
normalize-IsNormal p = ground arith

pub normalize-normal : (p : Policy) → IsNormal p → normalize p ≡ p
unfolding normalize
normalize-normal p n = ground arith

-- Whatever was configured, normalizing gives a policy with 0 <= Min <= Max, 1 <= Max, one message per
-- instance or more and a positive idle time, and normalizing once more changes nothing.
pub normalize_idempotent :
    (p : Policy) → IsNormal (normalize p) × (normalize (normalize p) ≡ normalize p)
normalize_idempotent p =
    (normalize-IsNormal p, normalize-normal (normalize p) (normalize-IsNormal p))

decide_bounds :
    (p : Policy) (b : Backlog) → IsNormal p → (p.min ≤ℤ (decide p b).0) × ((decide p b).0 ≤ℤ p.max)
decide_bounds p b n = ground arith

decide_zero :
    (p : Policy) (b : Backlog)
    → IsNormal p
    → ((decide p b).0 ≡ pos 0) ↔ (
        (p.min ≡ pos 0)
        × (b.known ≡ true)
        × (b.undelivered ≤ℤ pos 0)
        × (p.idle_after ≤ℤ b.empty_for))
decide_zero p b n = ground arith

-- The desired count is never outside the normalized bounds, and it is zero exactly when the operator
-- allows zero and the queue is known to be empty and has been for the whole idle time. So a monitoring
-- outage, or a queue that has only just become empty, cannot stop the worker.
pub desired_bounds :
    (p : Policy) (b : Backlog)
    → ((normalize p).min ≤ℤ (desired p b).0)
      × ((desired p b).0 ≤ℤ (normalize p).max)
      × (((desired p b).0 ≡ pos 0) ↔ (
          ((normalize p).min ≡ pos 0)
          × (b.known ≡ true)
          × (b.undelivered ≤ℤ pos 0)
          × ((normalize p).idle_after ≤ℤ b.empty_for)))
unfolding desired
desired_bounds p b =
    let n = normalize-IsNormal p in
    let (low, high) = decide_bounds (normalize p) b n in (low, high, decide_zero (normalize p) b n)

ceil_div : (u p : ℕ) → 1 ≤ u → 1 ≤ p → (u ≤ (u + p - 1) / p * p) × ((u + p - 1) / p * p < u + p)
ceil_div u p hu hp = grind arith

wanted_lem :
    (u p : ℕ)
    → 1 ≤ u
    → 1 ≤ p
    → (u ≤ pos_part (wanted (pos u) (pos p)) * p) × (pos_part (wanted (pos u) (pos p)) * p < u + p)
unfolding wanted
wanted_lem u p hu hp = ceil_div u p hu hp

decide_choice :
    (q : Policy) (b : Backlog) (u : ℕ)
    → IsNormal q
    → b.known ≡ true
    → b.undelivered ≡ pos u
    → 1 ≤ u
    → ((pos_part (wanted b.undelivered q.per_instance) ≤ pos_part (decide q b).0)
        ⊎ ((decide q b).0 ≡ q.max))
      × ((pos_part (decide q b).0 ≤ pos_part (wanted b.undelivered q.per_instance))
          ⊎ ((decide q b).0 ≤ℤ max_ℤ q.min (pos 1)))
decide_choice q b u n k e h = ground arith

mul_mono : (a b p : ℕ) → a ≤ b → a * p ≤ b * p
mul_mono a b p h = grind arith

decide_capacity :
    (q : Policy) (b : Backlog) (u p : ℕ)
    → IsNormal q
    → q.per_instance ≡ pos p
    → b.known ≡ true
    → b.undelivered ≡ pos u
    → 1 ≤ u
    → ((u ≤ pos_part (decide q b).0 * p) ⊎ ((decide q b).0 ≡ q.max))
      × ((pos_part (decide q b).0 * p < u + p) ⊎ ((decide q b).0 ≤ℤ max_ℤ q.min (pos 1)))
decide_capacity q b u p n per k e h = ground (
  arith,
  wanted_lem u p,
  decide_choice q b u n k e h,
  mul_mono (pos_part (wanted (pos u) (pos p))) (pos_part (decide q b).0) p,
  mul_mono (pos_part (decide q b).0) (pos_part (wanted (pos u) (pos p))) p,
)

pos-pos_part : (z : ℤ) → pos 1 ≤ℤ z → z ≡ pos (pos_part z)
pos-pos_part z h = ground arith

-- A queue that is known to hold `u` messages gets enough instances for them at `PerInstance` each,
-- unless the cap is reached; and it gets no instance more than that, beyond the one that a queue with
-- work always has and the configured minimum.
pub desired_capacity :
    (p : Policy) (b : Backlog) (u : ℕ)
    → b.known ≡ true
    → b.undelivered ≡ pos u
    → 1 ≤ u
    → ((u ≤ pos_part (desired p b).0 * pos_part (normalize p).per_instance)
        ⊎ ((desired p b).0 ≡ (normalize p).max))
      × ((pos_part (desired p b).0 * pos_part (normalize p).per_instance
            < u + pos_part (normalize p).per_instance)
          ⊎ ((desired p b).0 ≤ℤ max_ℤ (normalize p).min (pos 1)))
unfolding desired
desired_capacity p b u k e h =
    let n = normalize-IsNormal p in
    decide_capacity (normalize p) b u (pos_part (normalize p).per_instance) n
      (pos-pos_part (normalize p).per_instance n.per_pos) k e h
