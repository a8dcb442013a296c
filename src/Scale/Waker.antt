-- ===== src/Scale/Waker.antt =====
-- internal/scale/scaler.go: the waker, which the server calls when it has published.
pub mod Rate
use kibitz.Prelude.{
  ℕ, ◌+◌, ◌*◌, ◌≡◌, ◌≤◌, Bool, true, false, not, ◌&&◌, Option, none, some, List, [], ◌∷◌,
  if◌then◌else◌, Result, ok, err, arith,
}
use kibitz.Prelude.Int.{ℤ, pos, negsuc, pos_part, neg_part, ltb_ℤ, leb_ℤ, ◌-ℤ◌, ◌≤ℤ◌, ◌<ℤ◌}
use kibitz.Scale.{second}

-- `last` is none for the zero time.
pub record Waker : Type 0 where
  pub floor : ℤ
  pub cooldown : ℤ
  pub last : Option ℤ

unfoldable pub new_waker : ℤ → ℤ → Waker
new_waker floor cooldown = record {
  floor = if ltb_ℤ floor (pos 1) then pos 1 else floor;
  cooldown = if leb_ℤ cooldown (pos 0) then pos (30 * second) else cooldown;
  last = none;
}

abbrev pub too_soon : Waker → ℤ → Option ℤ → Bool
too_soon w now none = false
too_soon w now (some t) = ltb_ℤ (now -ℤ t) w.cooldown

unfoldable pub due : Waker → ℤ → Bool × Waker
due w now = if too_soon w now w.last then (false, w) else (true, record w { last = some now })

unfoldable pub forget : Waker → Waker
forget w = record w { last = none }

-- What the target answers to one wake-up.
pub record World : Type 0 where
  pub now : ℤ
  pub instances : Result Unit ℤ
  pub set_fails : Bool

-- The waker afterwards, whether the platform was called, and the count that it was asked for.
pub record Outcome : Type 0 where
  pub waker : Waker
  pub called : Bool
  pub asked : Option ℤ
  pub failed : Bool

abbrev raise : Waker → World → Result Unit ℤ → Outcome
raise w o (err e) = record { waker = w; called = true; asked = none; failed = false }
raise w o (ok current) =
    if leb_ℤ w.floor current
    then record { waker = w; called = true; asked = none; failed = false }
    else if o.set_fails
    then record { waker = forget w; called = true; asked = some w.floor; failed = true }
    else record { waker = w; called = true; asked = some w.floor; failed = false }

abbrev when_due : World → Bool × Waker → Outcome
when_due o (false, w) = record { waker = w; called = false; asked = none; failed = false }
when_due o (true, w) = raise w o o.instances

unfoldable pub wake : Waker → World → Outcome
unfolding due forget
wake w o = when_due o (due w o.now)

-- The times at which a run of wake-ups called the platform and did not fail to set the count.
abbrev pub calls : Waker → List World → List ℤ
calls w [] = []
calls w (o ∷ os) =
    let rest = calls (wake w o).waker os in
    if (wake w o).called && not (wake w o).failed then o.now ∷ rest else rest
