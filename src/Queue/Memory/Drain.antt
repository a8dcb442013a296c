-- ===== src/Queue/Memory/Drain.antt =====
-- `Receive` with one receiver and a handler that may fail on any message.
use kibitz.Prelude.{
  ℕ, zero, suc, ◌+◌, ◌-◌, ◌≤◌, ◌≡◌, refl, sym, subst, Bool, List, [], ◌∷◌, ◌++◌, arith,
}
use kibitz.Queue.{Message}
use kibitz.Queue.Memory.{Envelope, Queue, receive_one, receive, limit_of}
use kibitz.Queue.Memory.Delivery.{AllWaiting, AllWaiting-append}

-- The deliveries that are left to the waiting messages.
abbrev pub budget : ℕ → List Envelope → ℕ
budget k [] = 0
budget k (d ∷ ds) = (k - d.deliveries) + budget k ds

budget-append :
    (k : ℕ) (xs : List Envelope) (d : Envelope)
    → budget k (xs ++ d ∷ []) ≡ budget k xs + (k - d.deliveries)
budget-append k [] d = omega arith
budget-append k (x ∷ xs) d = omega (arith, budget-append k xs d)

-- One round keeps the bound on deliveries, and uses one up if there was a message.
record Progress (k : ℕ) (q q' : Queue) : Type 0 where
  same_limit : limit_of q'.max_deliveries ≡ k
  waiting : AllWaiting k q'.messages
  shorter : budget k q'.messages ≤ budget k q.messages - 1

round :
    (k : ℕ) (failed : Message → Bool) (ds : List Envelope) (q : Queue)
    → q.messages ≡ ds
    → limit_of q.max_deliveries ≡ k
    → AllWaiting k ds
    → Progress k q (receive_one failed q)
unfolding receive_one
round k failed [] q e l w = ground arith
round k failed (d ∷ ds) q e l w = record {
  same_limit = ground arith;
  waiting = grind (arith, AllWaiting-append);
  shorter = grind (arith, budget-append);
}

budget-zero : (k : ℕ) (ds : List Envelope) → AllWaiting k ds → budget k ds ≤ 0 → ds ≡ []
budget-zero k [] w h = refl
budget-zero k (d ∷ ds) w h = absurd (omega arith)

-- Where every waiting message has been delivered fewer times than the limit: a handler that fails on any
-- messages, even on all, cannot keep the queue busy. Once there have been as many rounds as deliveries
-- were left to the waiting messages, nothing waits.
pub receive-drains :
    (rounds : ℕ) (failed : Message → Bool) (q : Queue)
    → AllWaiting (limit_of q.max_deliveries) q.messages
    → budget (limit_of q.max_deliveries) q.messages ≤ rounds
    → (receive rounds failed q).messages ≡ []
unfolding receive
receive-drains zero failed q w h = budget-zero (limit_of q.max_deliveries) q.messages w h
receive-drains (suc rounds) failed q w h =
    let p = round (limit_of q.max_deliveries) failed q.messages q refl refl w in
    receive-drains rounds failed (receive_one failed q)
      (subst (λ k. AllWaiting k (receive_one failed q).messages) (sym p.same_limit) p.waiting)
      (subst (λ k. budget k (receive_one failed q).messages ≤ rounds) (sym p.same_limit)
        (omega (arith, p.shorter)))
