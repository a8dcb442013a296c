-- ===== src/Worker/Guard/Tests.antt =====
-- The guard on the in-process store, with jobs that succeed and jobs that fail.
use kibitz.Prelude.{
  ℕ, ◌≤◌, ◌≡◌, ◌≢◌, refl, arith, Option, none, some, List, [], ◌∷◌, Bool, true, false, Bytes, codes,
  Result, ok, err,
}
use kibitz.Prelude.Int.{pos}
use kibitz.Event.Samples.{pushed}
use kibitz.Store.{delivery_key, lock_key}
use kibitz.Store.Memory
use kibitz.Store.Interface.{Clocked, memory, memory-Laws}
use kibitz.Worker.Errors
use kibitz.Worker.Errors.{JobError}
use kibitz.Worker.Guard
use kibitz.Worker.Guard.Outcomes.{did_run}
use kibitz.Worker.Guard.Redelivery.{redelivered, handle-once, handle-retried}

abbrev config : Guard.Config
config = record {
  claim_ttl = pos 0;
  done_ttl = pos 0;
  lock_ttl = pos 0;
  max_deliveries = pos 3;
  bot_logins = codes "kibitz[bot]" ∷ [];
  has_notifier = true;
}

abbrev job : Guard.Job
job = record { event = pushed; deliveries = 1 }

abbrev succeeds : Guard.Next memory config
succeeds j s = (none, s)

abbrev trouble : JobError
trouble = Errors.plain (codes "no route")

abbrev fails : Guard.Next memory config
fails j s = (some trouble, s)

abbrev at_start : Clocked
at_start = record { now = 5; store = Memory.new }

handle-once_example :
    ((Guard.handle memory config succeeds
        (redelivered job 2)
        (Guard.handle memory config succeeds job at_start).state).error
      ≡ none)
    × ((Guard.handle memory config succeeds
          (redelivered job 2)
          (Guard.handle memory config succeeds job at_start).state).effects
        ≡ [])
unfolding Guard.handle Guard.is_self Memory.mark_processed kibitz.Prelude.Table.get
    Memory.acquire_lock kibitz.Prelude.Table.put kibitz.Prelude.Table.remove delivery_key lock_key
handle-once_example =
    handle-once memory config succeeds job at_start 2 memory-Laws (λ k v ttl s. refl) refl refl refl

handle-retried_example :
    did_run
      (Guard.handle memory config fails
        (redelivered job 2)
        (Guard.handle memory config fails job at_start).state).effects
    ≡ true
unfolding Guard.handle Guard.is_self Memory.mark_processed kibitz.Prelude.Table.get
    Memory.acquire_lock kibitz.Prelude.Table.put kibitz.Prelude.Table.remove delivery_key lock_key
    Errors.is_permanent Memory.delete Memory.release kibitz.Event.key
    kibitz.Prelude.Decimal.format_int Guard.lock_ttl
handle-retried_example =
    handle-retried memory config fails job at_start 2 trouble
      (record { key = lock_key pushed; owner = codes "2" }) memory-Laws (λ k s. refl) refl refl refl

-- The third delivery that fails is given up, and the pull request is told.
third-told :
    (Guard.handle memory config fails (redelivered job 3) at_start).effects
    ≡ Guard.ran ∷ Guard.notified trouble ∷ []
unfolding Guard.handle Guard.is_self Memory.mark_processed kibitz.Prelude.Table.get
    Memory.acquire_lock kibitz.Prelude.Table.put kibitz.Prelude.Table.remove delivery_key lock_key
    Errors.is_permanent
third-told = refl
