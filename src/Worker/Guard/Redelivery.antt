-- ===== src/Worker/Guard/Redelivery.antt =====
-- A job delivered again: after it was done, and after it failed.
use kibitz.Prelude.{
  ℕ, ◌<◌, ◌≡◌, inl, inr, refl, Bool, true, false, Option, none, some, List, [], Result, ok, Bytes,
  arith, Bool-cases,
}
use kibitz.Prelude.Int.{ℤ, pos, ◌<ℤ◌}
use kibitz.Store.{StoreError, marker_done, delivery_key, lock_key}
use kibitz.Store.Interface.{Backend, Laws}
use kibitz.Worker.Errors.{JobError}
use kibitz.Worker.Guard
use kibitz.Worker.Guard.Outcomes.{did_run, Explains, Remembered, Released, handle-Explains}

or_default-positive : (ttl : ℤ) (d : ℕ) → 0 < d → pos 0 <ℤ Guard.or_default ttl d
or_default-positive ttl d h = ground arith

done_ttl-positive : (g : Guard.Config) → pos 0 <ℤ Guard.done_ttl g
unfolding Guard.done_ttl
done_ttl-positive g = or_default-positive g.done_ttl _ (omega arith)

-- The same event with another count of deliveries.
abbrev pub redelivered : Guard.Job → ℕ → Guard.Job
redelivered job n = record job { deliveries = n }

-- Writes and deletes of a store never fail.
abbrev pub Writes : Backend → Type 0
Writes b = (k v : Bytes) (ttl : ℤ) (s : b.State) → (b.put k v ttl s).0 ≡ ok tt

abbrev pub Deletes : Backend → Type 0
Deletes b = (k : Bytes) (s : b.State) → (b.delete k s).0 ≡ ok tt

not_run : (es : List Guard.Effect) → es ≡ [] → did_run es ≡ false
not_run es h = rw h refl

module _ (b : Backend) (g : Guard.Config) (next : Guard.Next b g) (job : Guard.Job) where
  open b use {State, Lease}

  abbrev Skips : Guard.Outcome State → Type 0
  Skips out = (out.error ≡ none) × (out.effects ≡ [])

  finished-Skips :
      (r : Result StoreError Bytes × State)
      → r.0 ≡ ok marker_done
      → Skips (Guard.unless_finished b g next job (delivery_key job.event) r)
  finished-Skips (r, t) e = rw e (refl, refl)

  claimed-Skips :
      (r : Result StoreError Bool × State)
      → r.0 ≡ ok false
      → (b.get (delivery_key job.event) r.1).0 ≡ ok marker_done
      → Skips (Guard.claimed_by b g next job (delivery_key job.event) r)
  claimed-Skips (r, t) e read = rw e (finished-Skips (b.get (delivery_key job.event) t) read)

  first_runs :
      (r : Result StoreError Bool × State)
      → r.0 ≡ ok true
      → Guard.claimed_by b g next job (delivery_key job.event) r
        ≡ Guard.lock_and_run b g next job (delivery_key job.event) true r.1
  first_runs (r, t) e = rw e refl

  after_run_runs :
      (key : Bytes) (l : Lease) (r : Option JobError × State)
      → did_run (Guard.after_run b g job key l r).effects ≡ true
  unfolding Guard.fail
  after_run_runs key l (none, t) = refl
  after_run_runs key l (some e, t) = elim (Bool-cases (Guard.give_up b g job e)) [
    | inl up ↦ rw up refl
    | inr again ↦ rw again refl
  ]

  locked_runs :
      (key : Bytes) (claimed : Bool) (r : Result StoreError Lease × State) (l : Lease)
      → r.0 ≡ ok l
      → did_run (Guard.with_lock b g next job key claimed r).effects ≡ true
  locked_runs key claimed (r, t) l e = rw e (after_run_runs key l (next job t))

module _ (b : Backend) (g : Guard.Config) (next : Guard.Next b g) (job : Guard.Job)
    (laws : Laws b) where
  open b use {State, Lease}

  -- The record put by `remember` makes the next delivery a skip.
  Remembered-Skips :
      (n : ℕ) (t : State)
      → Writes b
      → Guard.is_self g.bot_logins job.event.actor.login ≡ false
      → Remembered b g next job t
      → Skips b g next (redelivered job n) (Guard.handle b g next (redelivered job n) t)
  unfolding Guard.handle
  Remembered-Skips n t writes other (s, e) =
      rw (other, e)
        (claimed-Skips b g next (redelivered job n) _
          (laws.put_claimed _ _ _ _ s (done_ttl-positive g) (writes _ _ _ s))
          (laws.put_read _ _ _ _ s (done_ttl-positive g) (writes _ _ _ s)))

  Released-lock_and_run :
      (n : ℕ) (t : State)
      → Deletes b
      → Guard.is_self g.bot_logins job.event.actor.login ≡ false
      → Released b g next job t
      → Guard.handle b g next (redelivered job n) t
        ≡ Guard.lock_and_run b g next
            (redelivered job n)
            (delivery_key job.event)
            true
            (b.mark_processed (delivery_key job.event) (Guard.claim_ttl g) t).1
  unfolding Guard.handle
  Released-lock_and_run n t deletes other (s, e) =
      rw other
        (first_runs b g next (redelivered job n) _ (rw e (laws.delete_claimed _ _ s (deletes _ s))))

  explained-Remembered :
      (out : Guard.Outcome State) (o : Option Guard.GuardError)
      → Explains b g next job out o
      → o ≡ none
      → did_run out.effects ≡ true
      → Guard.is_self g.bot_logins job.event.actor.login ≡ false
      → Remembered b g next job out.state
  explained-Remembered out none (inl (self, h)) _ _ other = ground arith
  explained-Remembered out none (inr (inl (_, h))) _ d _ = ground (arith, not_run out.effects h)
  explained-Remembered out none (inr (inr (s, told, r, kept))) _ _ _ = kept
  explained-Remembered out (some e) x h _ _ = ground arith

  explained-Released :
      (out : Guard.Outcome State) (o : Option Guard.GuardError) (cause : JobError)
      → Explains b g next job out o
      → o ≡ some (Guard.failed cause)
      → Released b g next job out.state
  explained-Released out none cause x h = ground arith
  explained-Released out (some (Guard.failed e)) cause (s, r, rel, d, u) h = rel
  explained-Released out (some Guard.already_reviewed) cause x h = ground arith
  explained-Released out (some (Guard.claiming e)) cause x h = ground arith
  explained-Released out (some (Guard.reading e)) cause x h = ground arith
  explained-Released out (some (Guard.locking e)) cause x h = ground arith

-- On a store that keeps its contract and whose writes do not fail: when `Handle` ran a job of somebody
-- else's event and acknowledged it, the same delivery handled next, on the store this left, is
-- acknowledged without effect.
pub handle-once :
    (b : Backend) (g : Guard.Config) (next : Guard.Next b g) (job : Guard.Job) (s : b.State) (n : ℕ)
    → Laws b
    → Writes b
    → Guard.is_self g.bot_logins job.event.actor.login ≡ false
    → (Guard.handle b g next job s).error ≡ none
    → did_run (Guard.handle b g next job s).effects ≡ true
    → ((Guard.handle b g next (redelivered job n) (Guard.handle b g next job s).state).error ≡ none)
      × ((Guard.handle b g next (redelivered job n) (Guard.handle b g next job s).state).effects
          ≡ [])
handle-once b g next job s n laws writes other e d =
    Remembered-Skips b g next job laws n (Guard.handle b g next job s).state writes other (
      explained-Remembered b g next job laws (Guard.handle b g next job s)
        (Guard.handle b g next job s).error (handle-Explains b g next job s) e d other)

-- On a store that keeps its contract and whose deletes do not fail: when `Handle` answers with the error
-- of a job that ran, the same delivery handled next, on the store this left, runs the job again,
-- unless the lock of the pull request is not to be had then.
pub handle-retried :
    (b : Backend) (g : Guard.Config) (next : Guard.Next b g) (job : Guard.Job) (s : b.State) (n : ℕ)
    (cause : JobError) (l : b.Lease)
    → Laws b
    → Deletes b
    → Guard.is_self g.bot_logins job.event.actor.login ≡ false
    → (Guard.handle b g next job s).error ≡ some (Guard.failed cause)
    → (b.acquire_lock
        (lock_key job.event)
        (Guard.lock_ttl g)
        (b.mark_processed
          (delivery_key job.event)
          (Guard.claim_ttl g)
          (Guard.handle b g next job s).state).1).0
      ≡ ok l
    → did_run
        (Guard.handle b g next (redelivered job n) (Guard.handle b g next job s).state).effects
      ≡ true
unfolding Guard.lock_and_run
handle-retried b g next job s n cause l laws deletes other e free =
    rw
      (Released-lock_and_run b g next job laws n (Guard.handle b g next job s).state deletes other (
        explained-Released b g next job laws (Guard.handle b g next job s)
          (Guard.handle b g next job s).error cause (handle-Explains b g next job s) e))
      (locked_runs b g next (redelivered job n) (delivery_key job.event) true _ l free)
