-- ===== src/Worker/Guard.antt =====
-- internal/worker/guard.go: what stands around a job: the claim of its delivery, the lock on its pull
-- request, retries and giving up. The job and the notifier are parameters. What keepalive and the other
-- workers do to the store while the job runs is part of what the job does to it. Log lines are left out.
pub mod Outcomes
pub mod Redelivery
mod Tests
use kibitz.Prelude.{
  ℕ, ◌+◌, ◌*◌, Bool, true, false, not, ◌&&◌, ◌||◌, Option, none, some, List, [], ◌∷◌, is_empty,
  if◌then◌else◌, Bytes, equal_fold, str_eq, Result, ok, err,
}
use kibitz.Prelude.Int.{ℤ, pos, negsuc, ltb_ℤ, leb_ℤ}
use kibitz.Event.{ReviewEvent}
use kibitz.Scale.{second}
use kibitz.Store.{StoreError, locked, not_found, marker_done, delivery_key, lock_key}
use kibitz.Store.Interface.{Backend}
use kibitz.Worker.Errors.{JobError, is_permanent}

pub record Job : Type 0 where
  pub event : ReviewEvent
  pub deliveries : ℕ

pub record Config : Type 0 where
  pub claim_ttl : ℤ
  pub done_ttl : ℤ
  pub lock_ttl : ℤ
  pub max_deliveries : ℤ
  pub bot_logins : List Bytes
  pub has_notifier : Bool

abbrev pub or_default : ℤ → ℕ → ℤ
or_default ttl d = if ltb_ℤ (pos 0) ttl then ttl else pos d

unfoldable pub claim_ttl : Config → ℤ
claim_ttl g = or_default g.claim_ttl (30 * 60 * second)

unfoldable pub done_ttl : Config → ℤ
done_ttl g = or_default g.done_ttl (7 * 24 * 60 * 60 * second)

unfoldable pub lock_ttl : Config → ℤ
lock_ttl g = or_default g.lock_ttl (15 * 60 * second)

unfoldable pub is_self : List Bytes → Bytes → Bool
is_self [] login = false
is_self (bot ∷ bots) login = equal_fold bot login && not (is_empty login) || is_self bots login

-- What a handled job returns to the queue. `already_reviewed` asks for a retry after 30 seconds.
pub data GuardError : Type 0 where
  claiming reading locking : StoreError → GuardError
  already_reviewed : GuardError
  failed : JobError → GuardError

pub data Effect : Type 0 where
  ran : Effect
  notified : JobError → Effect

pub record Outcome (S : Type 0) : Type 0 where
  pub error : Option GuardError
  pub effects : List Effect
  pub state : S

module _ (b : Backend) (g : Config) where
  open b use {State, Lease, mark_processed, acquire_lock, get, put, delete, release}

  -- `Next`: the error of the job, if any, and the store that it leaves.
  abbrev pub Next : Type 0
  Next = Job → State → Option JobError × State

  abbrev gives : List Effect → Option GuardError → State → Outcome State
  gives done e s = record { error = e; effects = done; state = s }

  -- `remember` and `release`; their errors are only logged.
  abbrev pub remember : Bytes → State → State
  remember key s = (put key marker_done (done_ttl g) s).1

  abbrev pub release_claim : Bytes → State → State
  release_claim key s = (delete key s).1

  unfoldable pub give_up : Job → JobError → Bool
  give_up job cause =
      is_permanent cause
      || ltb_ℤ (pos 0) g.max_deliveries && leb_ℤ g.max_deliveries (pos job.deliveries)

  abbrev told : JobError → List Effect
  told cause = if g.has_notifier then notified cause ∷ [] else []

  unfoldable pub fail : Job → Bytes → JobError → State → Outcome State
  unfolding give_up
  fail job key cause s =
      if not (give_up job cause)
      then gives (ran ∷ []) (some (failed cause)) (release_claim key s)
      else gives (ran ∷ told cause) none (remember key s)

  -- After the job, with the lease given back.
  abbrev settle : Job → Bytes → Option JobError → State → Outcome State
  settle job key none s = gives (ran ∷ []) none (remember key s)
  settle job key (some cause) s = fail job key cause s

  abbrev after_run : Job → Bytes → Lease → Option JobError × State → Outcome State
  after_run job key l (e, s) = settle job key e (release l s).1

  abbrev give_back : Bool → Bytes → State → State
  give_back claimed key s = if claimed then release_claim key s else s

  abbrev with_lock : Next → Job → Bytes → Bool → Result StoreError Lease × State → Outcome State
  with_lock next job key claimed (ok l, s) = after_run job key l (next job s)
  with_lock next job key claimed (err locked, s) =
      gives [] (some already_reviewed) (give_back claimed key s)
  with_lock next job key claimed (err e, s) = gives [] (some (locking e)) (give_back claimed key s)

  unfoldable pub lock_and_run : Next → Job → Bytes → Bool → State → Outcome State
  unfolding fail
  lock_and_run next job key claimed s =
      with_lock next job key claimed (acquire_lock (lock_key job.event) (lock_ttl g) s)

  -- `finished`, for a claim that somebody made before.
  abbrev unless_finished : Next → Job → Bytes → Result StoreError Bytes × State → Outcome State
  unless_finished next job key (ok v, s) =
      if str_eq v marker_done then gives [] none s else lock_and_run next job key false s
  unless_finished next job key (err not_found, s) = lock_and_run next job key false s
  unless_finished next job key (err e, s) = gives [] (some (reading e)) s

  abbrev claimed_by : Next → Job → Bytes → Result StoreError Bool × State → Outcome State
  claimed_by next job key (err e, s) = gives [] (some (claiming e)) s
  claimed_by next job key (ok true, s) = lock_and_run next job key true s
  claimed_by next job key (ok false, s) = unless_finished next job key (get key s)

  -- `Handle`
  unfoldable pub handle : Next → Job → State → Outcome State
  unfolding lock_and_run
  handle next job s =
      if is_self g.bot_logins job.event.actor.login
      then gives [] none s
      else let key = delivery_key job.event in
        claimed_by next job key (mark_processed key (claim_ttl g) s)
