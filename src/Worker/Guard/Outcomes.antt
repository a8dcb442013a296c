-- ===== src/Worker/Guard/Outcomes.antt =====
-- What each answer of the guard means for the job and for the delivery record.
use kibitz.Prelude.{
  ◌≡◌, ◌⊎◌, inl, inr, refl, ap, ◌∙◌, Bool, true, false, Option, none, some, List, [], ◌∷◌,
  if◌then◌else◌, Bytes, str_eq, str_eq→eq, Result, ok, err, Bool-cases,
}
use kibitz.Store.{
  StoreError, locked, not_found, lease_lost, backend, marker_done, delivery_key, lock_key,
}
use kibitz.Store.Interface.{Backend}
use kibitz.Worker.Errors.{JobError}
use kibitz.Worker.Guard

abbrev pub did_run : List Guard.Effect → Bool
did_run [] = false
did_run (Guard.ran ∷ es) = true
did_run (Guard.notified e ∷ es) = did_run es

module _ (b : Backend) (g : Guard.Config) (next : Guard.Next b g) (job : Guard.Job) where
  open b use {State, Lease}

  abbrev pub key : Bytes
  key = delivery_key job.event

  -- The job ran under a lock that was taken for it, on the store that taking it left.
  abbrev pub Ran : State → Type 0
  Ran s = (l : Lease) × ((b.acquire_lock (lock_key job.event) (Guard.lock_ttl g) s).0 ≡ ok l)

  -- What is left when the delivery is acknowledged after the job.
  abbrev pub Remembered : State → Type 0
  Remembered t = (s : State) × (t ≡ (b.put key marker_done (Guard.done_ttl g) s).1)

  abbrev pub Released : State → Type 0
  Released t = (s : State) × (t ≡ (b.delete key s).1)

  -- The job succeeded, or it was given up and the pull request was told, if there is a way to.
  abbrev pub Told : List Guard.Effect → Type 0
  Told es =
      (es ≡ Guard.ran ∷ [])
      ⊎ ((e : JobError) × (Guard.give_up b g job e ≡ true)
          × (es ≡ Guard.ran ∷ (if g.has_notifier then Guard.notified e ∷ [] else [])))

  -- How a call of `lock_and_run` may end, by the error it returns.
  abbrev pub Ends : State → Guard.Outcome State → Option Guard.GuardError → Type 0
  Ends s out none = Told out.effects × Ran s × Remembered out.state
  Ends s out (some (Guard.failed e)) =
      (did_run out.effects ≡ true) × Ran s × Released out.state × (Guard.give_up b g job e ≡ false)
  Ends s out (some e) = did_run out.effects ≡ false

  fail-Ends :
      (s t : State) (e : JobError)
      → Ran s
      → Ends s (Guard.fail b g job key e t) (Guard.fail b g job key e t).error
  unfolding Guard.fail
  fail-Ends s t e r = elim (Bool-cases (Guard.give_up b g job e)) [
    | inl up ↦ rw up (inr (e, up, refl), r, (t, refl))
    | inr again ↦ rw again (refl, r, (t, refl), again)
  ]

  settle-Ends :
      (s t : State) (o : Option JobError)
      → Ran s
      → Ends s (Guard.settle b g job key o t) (Guard.settle b g job key o t).error
  settle-Ends s t none r = (inl refl, r, (t, refl))
  settle-Ends s t (some e) r = fail-Ends s t e r

  with_lock-Ends :
      (s : State) (claimed : Bool) (r : Result StoreError Lease × State)
      → b.acquire_lock (lock_key job.event) (Guard.lock_ttl g) s ≡ r
      → Ends s
          (Guard.with_lock b g next job key claimed r)
          (Guard.with_lock b g next job key claimed r).error
  with_lock-Ends s claimed (ok l, t) e =
      settle-Ends s (b.release l (next job t).1).1 (next job t).0 (l, ap (λ x. x.0) e)
  with_lock-Ends s claimed (err locked, t) e = refl
  with_lock-Ends s claimed (err not_found, t) e = refl
  with_lock-Ends s claimed (err lease_lost, t) e = refl
  with_lock-Ends s claimed (err (backend x), t) e = refl

  lock_and_run-Ends :
      (claimed : Bool) (s : State)
      → Ends s
          (Guard.lock_and_run b g next job key claimed s)
          (Guard.lock_and_run b g next job key claimed s).error
  unfolding Guard.lock_and_run
  lock_and_run-Ends claimed s = with_lock-Ends s claimed _ refl

  -- The record was read as finished.
  abbrev pub ReadDone : Type 0
  ReadDone = (s : State) × ((b.get key s).0 ≡ ok marker_done)

  -- What an answer of `Handle` means: acknowledged without running only for an event of kibitz's own or
  -- one whose record reads "done"; acknowledged after running only when "done" was recorded; failed by
  -- the job only when it ran under the lock, is not given up, and the claim was given back; any other
  -- error only without running.
  abbrev pub Explains : Guard.Outcome State → Option Guard.GuardError → Type 0
  Explains out none =
      ((Guard.is_self g.bot_logins job.event.actor.login ≡ true) × (out.effects ≡ []))
      ⊎ (ReadDone × (out.effects ≡ []))
      ⊎ ((s : State) × Told out.effects × Ran s × Remembered out.state)
  Explains out (some (Guard.failed e)) =
      (s : State) × Ran s
      × Released out.state
      × (did_run out.effects ≡ true)
      × (Guard.give_up b g job e ≡ false)
  Explains out (some e) = did_run out.effects ≡ false

  Ends→Explains :
      (s : State) (out : Guard.Outcome State) (o : Option Guard.GuardError)
      → Ends s out o
      → Explains out o
  Ends→Explains s out none (told, r, kept) = inr (inr (s, told, r, kept))
  Ends→Explains s out (some (Guard.failed e)) (d, r, rel, g') = (s, r, rel, d, g')
  Ends→Explains s out (some Guard.already_reviewed) h = h
  Ends→Explains s out (some (Guard.claiming e)) h = h
  Ends→Explains s out (some (Guard.reading e)) h = h
  Ends→Explains s out (some (Guard.locking e)) h = h

  run_explained :
      (claimed : Bool) (s : State)
      → Explains
          (Guard.lock_and_run b g next job key claimed s)
          (Guard.lock_and_run b g next job key claimed s).error
  run_explained claimed s =
      Ends→Explains s (Guard.lock_and_run b g next job key claimed s)
        (Guard.lock_and_run b g next job key claimed s).error (lock_and_run-Ends claimed s)

  finished_explained :
      (s : State) (r : Result StoreError Bytes × State)
      → b.get key s ≡ r
      → Explains
          (Guard.unless_finished b g next job key r)
          (Guard.unless_finished b g next job key r).error
  finished_explained s (ok v, t) e = elim (Bool-cases (str_eq v marker_done)) [
    | inl done ↦
        rw done (inr (inl ((s, ap (λ x. x.0) e ∙ ap ok (str_eq→eq v marker_done done)), refl)))
    | inr open_ ↦ rw open_ (run_explained false t)
  ]
  finished_explained s (err not_found, t) e = run_explained false t
  finished_explained s (err locked, t) e = refl
  finished_explained s (err lease_lost, t) e = refl
  finished_explained s (err (backend x), t) e = refl

  claimed_explained :
      (r : Result StoreError Bool × State)
      → Explains (Guard.claimed_by b g next job key r) (Guard.claimed_by b g next job key r).error
  claimed_explained (err e, s) = refl
  claimed_explained (ok true, s) = run_explained true s
  claimed_explained (ok false, s) = finished_explained s (b.get key s) refl

pub handle-Explains :
    (b : Backend) (g : Guard.Config) (next : Guard.Next b g) (job : Guard.Job) (s : b.State)
    → Explains b g next job (Guard.handle b g next job s) (Guard.handle b g next job s).error
unfolding Guard.handle
handle-Explains b g next job s =
    elim (Bool-cases (Guard.is_self g.bot_logins job.event.actor.login)) [
      | inl self ↦ rw self (inl (self, refl))
      | inr other ↦ rw other (
          claimed_explained b g next job
            (b.mark_processed (delivery_key job.event) (Guard.claim_ttl g) s))
    ]
