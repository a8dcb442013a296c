-- ===== src/Scale/Waker/Rate.antt =====
-- The calls of the platform over a run of wake-ups.
use kibitz.Prelude.{
  ◌≡◌, ◌⊎◌, true, false, not, ◌&&◌, Option, none, some, List, [], ◌∷◌, if◌then◌else◌, Result, ok,
  err, arith, refl,
}
use kibitz.Prelude.Int.{ℤ, ◌-ℤ◌, ◌≤ℤ◌, ◌<ℤ◌}
use kibitz.Scale.Waker.{Waker, World, Outcome, too_soon, wake}

-- A wake-up that asks for a count has read a lower one, and asks for the floor.
pub wake_raises :
    (w : Waker) (o : World) (n : ℤ)
    → (wake w o).asked ≡ some n
    → (current : ℤ) × (o.instances ≡ ok current) × (current <ℤ n) × (n ≡ w.floor)
unfolding wake
wake_raises w o n h = go o.instances refl
  where
    go :
        (r : Result Unit ℤ)
        → o.instances ≡ r
        → (current : ℤ) × (o.instances ≡ ok current) × (current <ℤ n) × (n ≡ w.floor)
    go (ok current) e = (current, e, ground arith, ground arith)
    go (err x) e = ground arith

-- At least the gap after the time before, if there is one.
abbrev pub Fits : ℤ → Option ℤ → ℤ → Type 0
Fits gap none t = Unit
Fits gap (some s) t = gap ≤ℤ t -ℤ s

abbrev pub Spaced : ℤ → Option ℤ → List ℤ → Type 0
Spaced gap before [] = Unit
Spaced gap before (t ∷ ts) = Fits gap before t × Spaced gap (some t) ts

-- The readings of the clock do not fall below `low`, nor from one wake-up to the next.
abbrev pub InOrder : ℤ → List World → Type 0
InOrder low [] = Unit
InOrder low (o ∷ os) = (low ≤ℤ o.now) × InOrder o.now os

-- `before` is the last call that did not fail. The waker remembers it, or it is long enough ago.
abbrev Remembers : Waker → Option ℤ → ℤ → Type 0
Remembers w before low = (w.last ≡ before) ⊎ ((w.last ≡ none) × Fits w.cooldown before low)

-- One wake-up: a call that did not fail is recorded as the last one, a failed one forgets it, and
-- none changes nothing.
record Woken (w : Waker) (o : World) (out : Outcome) : Type 0 where
  cooldown : out.waker.cooldown ≡ w.cooldown
  skipped : out.called ≡ false → out.waker ≡ w
  done : out.called ≡ true → out.failed ≡ false → out.waker.last ≡ some o.now
  failed : out.failed ≡ true → out.waker.last ≡ none
  was_due : out.called ≡ true → too_soon w o.now w.last ≡ false

call_times : World → Outcome → List ℤ → List ℤ
call_times o out rest = if out.called && not out.failed then o.now ∷ rest else rest
