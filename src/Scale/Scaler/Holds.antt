-- ===== src/Scale/Scaler/Holds.antt =====
-- What a reconciliation may ask the target for.
use kibitz.Prelude.{
  zero, suc, ◌≡◌, ◌≢◌, ◌⊎◌, inl, inr, true, false, Option, none, some, Result, ok, err, arith, refl,
  sym, ap, ◌∙◌, subst,
}
use kibitz.Prelude.Int.{ℤ, pos, negsuc, ◌-ℤ◌, ◌≤ℤ◌, ◌<ℤ◌}
use kibitz.Scale.{Backlog, Policy, normalize, desired}
use kibitz.Scale.Bounds.{normalize-IsNormal, normalize-normal, desired_bounds}
use kibitz.Scale.Scaler.{World, observed, is_settling, settling_since, reconcile}

desired-normalize : (p : Policy) (b : Backlog) → desired (normalize p) b ≡ desired p b
unfolding desired
desired-normalize p b = rw (normalize-normal (normalize p) (normalize-IsNormal p))

module _ {E : Type 0} (policy : Policy) (w : World E) (current asked : ℤ)
    (read : w.instances ≡ ok current) (h : (reconcile policy w).asked ≡ some asked) where
  asked_facts :
      (asked ≢ current)
      × (asked ≡ (desired (normalize policy) (observed w.backlog)).0)
      × ((asked <ℤ current) → is_settling (normalize policy) w ≡ false)
  unfolding reconcile
  asked_facts = ground arith

-- The target does not say when it was changed, or was changed at least the idle time ago.
abbrev pub IsSettled : {E : Type 0} → Policy → World E → Type 0
IsSettled p w =
    (w.last_changed ≡ none)
    ⊎ ((changed : ℤ) × (w.last_changed ≡ some (ok changed)) × (p.idle_after ≤ℤ w.now -ℤ changed))

not_settling : {E : Type 0} (p : Policy) (w : World E) → is_settling p w ≡ false → IsSettled p w
unfolding is_settling
not_settling p w h = go w.last_changed refl h
  where
    go :
        (o : Option (Result _ ℤ))
        → w.last_changed ≡ o
        → settling_since p w.now o ≡ false
        → IsSettled p w
    go none e h = inl e
    go (some (err x)) e h = cc
    go (some (ok changed)) e h = inr (changed, e, ground arith)

order-cases : (a b : ℤ) → (a <ℤ b) ⊎ (b ≤ℤ a)
order-cases a b = ground arith

zero-cases : (a : ℤ) → (a ≡ pos 0) ⊎ (a ≢ pos 0)
zero-cases (pos zero) = inl refl
zero-cases (pos (suc n)) = inr (λ h. ground arith)
zero-cases (negsuc n) = inr (λ h. ground arith)

lower_or : {A B C : Type 0} → A ⊎ B → (A → C) → B ⊎ C
lower_or (inl a) f = inr (f a)
lower_or (inr b) f = inl b

-- If a reconciliation that read `current` asks the target for a count at all, then for another one than
-- it has, the one that the policy calls for, within the policy's bounds; for a lower one only where
-- the target is settled; and for none only where the source answered that the queue is known to be
-- empty and has been for the idle time.
pub reconcile_asks :
    {E : Type 0} (policy : Policy) (w : World E) (current asked : ℤ)
    → w.instances ≡ ok current
    → (reconcile policy w).asked ≡ some asked
    → (asked ≢ current)
      × (asked ≡ (desired policy (observed w.backlog)).0)
      × ((normalize policy).min ≤ℤ asked)
      × (asked ≤ℤ (normalize policy).max)
      × ((current ≤ℤ asked) ⊎ IsSettled (normalize policy) w)
      × ((asked ≢ pos 0)
          ⊎ (((observed w.backlog).known ≡ true)
              × ((observed w.backlog).undelivered ≤ℤ pos 0)
              × ((normalize policy).idle_after ≤ℤ (observed w.backlog).empty_for)))
reconcile_asks policy w current asked read h =
    let (differs, same, down) = asked_facts policy w current asked read h in
    let same' = same ∙ ap (λ d. d.0) (desired-normalize policy (observed w.backlog)) in
    let (low, high, none_left) = desired_bounds policy (observed w.backlog) in
    (
      differs,
      same',
      subst (λ n. (normalize policy).min ≤ℤ n) (sym same') low,
      subst (λ n. n ≤ℤ (normalize policy).max) (sym same') high,
      lower_or (order-cases asked current)
          (λ lower. not_settling (normalize policy) w (down lower)),
      lower_or (zero-cases asked)
          (λ e. let (_, known, empty, long) = none_left.0 (sym same' ∙ e) in (known, empty, long)),
    )

changed_is_desired :
    {E : Type 0} (policy : Policy) (w : World E)
    → (reconcile policy w).report.changed ≡ true
    → (reconcile policy w).report.desired ≡ (desired (normalize policy) (observed w.backlog)).0
unfolding reconcile
changed_is_desired policy w h = ground arith

desired_asks_nothing :
    {E : Type 0} (policy : Policy) (w : World E)
    → w.instances ≡ ok (desired (normalize policy) (observed w.backlog)).0
    → ((reconcile policy w).asked ≡ none) × ((reconcile policy w).error ≡ none)
unfolding reconcile
desired_asks_nothing policy w h = ground arith

-- What a reconciliation has changed stays: as long as the source answers the same, the next one asks for
-- nothing, whatever the clock, the target's change time and its errors are by then.
pub reconcile_stable :
    {E : Type 0} (policy : Policy) (w later : World E)
    → (reconcile policy w).report.changed ≡ true
    → later.backlog ≡ w.backlog
    → later.instances ≡ ok (reconcile policy w).report.desired
    → ((reconcile policy later).asked ≡ none) × ((reconcile policy later).error ≡ none)
reconcile_stable policy w later h same_backlog count =
    desired_asks_nothing policy later (cc (changed_is_desired policy w h))
