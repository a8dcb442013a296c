-- ===== src/Queue/Memory/Delivery.antt =====
-- The queue with its receivers, as a step relation: publishers, receivers and `Close` interleave
-- freely, and any message that is being handled may be the next to be settled.
use kibitz.Prelude.{
  ℕ, zero, suc, ◌+◌, ◌<◌, ◌≤◌, ◌^◌, ◌≡◌, refl, some, List, [], ◌∷◌, ◌++◌, true, arith,
  if◌then◌else◌, leb, ◌==◌, Bytes, codes, str_eq, str_eq→eq, str_eq_refl, Bool-cases, inl, inr,
  subst,
}
use mathlib.Core.List.{append_cancel_left}
use kibitz.Prelude.Int.{ℤ, pos, negsuc}
use kibitz.Prelude.Decimal.{format_uint-injective}
use kibitz.Event.{ReviewEvent}
use kibitz.Queue.{Message}
use kibitz.Queue.Memory.{
  Envelope, Queue, new, message_id, publish, pop, delivered, requeue, limit_of, close,
}

-- `in_flight` is what receivers have taken and not settled, `acked` what handlers finished.
pub record System : Type 0 where
  pub queue : Queue
  pub in_flight : List Envelope
  pub acked : List Envelope

abbrev pub start : ℤ → System
start limit = record { queue = new limit; in_flight = []; acked = [] }

pub data Step : System → System → Type 0 where
  published : (e : ReviewEvent) (s : System) → Step s (record s { queue = (publish e s.queue).1 })
  taken :
      (d : Envelope) (s : System)
      → (pop s.queue).0 ≡ some d
      → Step s (record s { queue = (pop s.queue).1; in_flight = delivered d ∷ s.in_flight })
  acknowledged :
      (xs ys : List Envelope) (d : Envelope) (s : System)
      → s.in_flight ≡ xs ++ (d ∷ ys)
      → Step s (record s { in_flight = xs ++ ys; acked = d ∷ s.acked })
  refused :
      (xs ys : List Envelope) (d : Envelope) (s : System)
      → s.in_flight ≡ xs ++ (d ∷ ys)
      → Step s (record s { in_flight = xs ++ ys; queue = requeue d s.queue })
  closed_by : (s : System) → Step s (record s { queue = close s.queue })

pub data Reach (limit : ℤ) : System → Type 0 where
  here : Reach limit (start limit)
  next : {s t : System} → Reach limit s → Step s t → Reach limit t

-- How many of the envelopes carry the message.
abbrev pub occurrences : Bytes → List Envelope → ℕ
occurrences i [] = 0
occurrences i (d ∷ ds) = (if str_eq d.msg.id i then 1 else 0) + occurrences i ds

abbrev pub occurrences_dead : Bytes → List Message → ℕ
occurrences_dead i [] = 0
occurrences_dead i (m ∷ ms) = (if str_eq m.id i then 1 else 0) + occurrences_dead i ms

-- Over all the places where a message may be.
abbrev pub places : Bytes → System → ℕ
places i s =
    occurrences i s.queue.messages
    + occurrences i s.in_flight
    + occurrences i s.acked
    + occurrences_dead i s.queue.dead

occurrences-append :
    (i : Bytes) (xs ys : List Envelope)
    → occurrences i (xs ++ ys) ≡ occurrences i xs + occurrences i ys
occurrences-append i [] ys = omega arith
occurrences-append i (d ∷ xs) ys = omega (arith, occurrences-append i xs ys)

occurrences_dead-append :
    (i : Bytes) (xs ys : List Message)
    → occurrences_dead i (xs ++ ys) ≡ occurrences_dead i xs + occurrences_dead i ys
occurrences_dead-append i [] ys = omega arith
occurrences_dead-append i (d ∷ xs) ys = omega (arith, occurrences_dead-append i xs ys)

-- Whether the number was given to a message.
abbrev pub issued : ℕ → ℕ → ℕ
issued n last = if leb 1 n then (if leb n last then 1 else 0) else 0

message_id_test :
    (m n : ℕ) → m ≤ 2 ^ 63 → n ≤ 2 ^ 63 → str_eq (message_id m) (message_id n) ≡ true → m ≡ n
unfolding message_id
message_id_test m n hm hn h =
    format_uint-injective m n (omega arith) (omega arith)
      (append_cancel_left (codes "mem-") _ _ (str_eq→eq (message_id m) (message_id n) h))

str_eq-message_id :
    (m n : ℕ) → m ≤ 2 ^ 63 → n ≤ 2 ^ 63 → str_eq (message_id m) (message_id n) ≡ (m == n)
str_eq-message_id m n hm hn = elim (Bool-cases (str_eq (message_id m) (message_id n))) [
  | inl same ↦ rw same (ground (arith, message_id_test m n hm hn same))
  | inr differ ↦ rw differ (ground (arith, str_eq_refl (message_id n)))
]

step_next_id : {s t : System} → Step s t → s.queue.next_id ≤ t.queue.next_id
unfolding publish pop requeue close
step_next_id (published e s) = ground arith
step_next_id (taken d s h) = ground arith
step_next_id (acknowledged xs ys d s h) = ground arith
step_next_id (refused xs ys d s h) = ground arith
step_next_id (closed_by s) = ground arith

module _ (n : ℕ) where
  abbrev Counted : System → Type 0
  Counted s = places (message_id n) s ≡ issued n s.queue.next_id

  Step-Counted :
      {s t : System} → Step s t → n ≤ 2 ^ 63 → t.queue.next_id ≤ 2 ^ 63 → Counted s → Counted t
  unfolding publish pop requeue close delivered
  Step-Counted (published e s) hn ht c =
      grind (arith, occurrences-append, str_eq-message_id (s.queue.next_id + 1) n)
  Step-Counted (taken d s h) hn ht c = ground arith
  Step-Counted (acknowledged xs ys d s h) hn ht c = ground (
    arith,
    occurrences-append (message_id n) xs ys,
    occurrences-append (message_id n) xs (d ∷ ys),
  )
  Step-Counted (refused xs ys d s h) hn ht c = ground (
    arith,
    occurrences-append (message_id n) xs ys,
    occurrences-append (message_id n) xs (d ∷ ys),
    occurrences-append (message_id n) s.queue.messages (d ∷ []),
    occurrences_dead-append (message_id n) s.queue.dead (d.msg ∷ []),
  )
  Step-Counted (closed_by s) hn ht c = c

-- Nothing is lost and nothing is doubled: whatever publishers, receivers and handlers do, each message
-- that was published is in exactly one place, waiting, in flight, acknowledged or dead, and no other
-- message is in any (for fewer than 2^63 messages).
pub exactly_one_place :
    (limit : ℤ) (s : System) (n : ℕ)
    → Reach limit s
    → s.queue.next_id ≤ 2 ^ 63
    → n ≤ 2 ^ 63
    → places (message_id n) s ≡ issued n s.queue.next_id
exactly_one_place limit s n here b hn = ground arith
exactly_one_place limit s n (next {s = t} r st) b hn =
    Step-Counted n st hn b (exactly_one_place limit t n r (omega (arith, step_next_id st)) hn)

-- How often the messages of each place have been delivered.
abbrev pub AllWaiting : ℕ → List Envelope → Type 0
AllWaiting k [] = Unit
AllWaiting k (d ∷ ds) = (d.deliveries < k) × AllWaiting k ds

abbrev pub AllInFlight : ℕ → List Envelope → Type 0
AllInFlight k [] = Unit
AllInFlight k (d ∷ ds) =
    (1 ≤ d.deliveries) × (d.deliveries ≤ k) × (d.msg.deliveries ≡ d.deliveries) × AllInFlight k ds

abbrev pub AllDead : ℕ → List Message → Type 0
AllDead k [] = Unit
AllDead k (m ∷ ms) = (m.deliveries ≡ k) × AllDead k ms

pub record IsBounded (k : ℕ) (s : System) : Type 0 where
  pub same_limit : limit_of s.queue.max_deliveries ≡ k
  pub waiting : AllWaiting k s.queue.messages
  pub in_flight : AllInFlight k s.in_flight
  pub dead : AllDead k s.queue.dead

limit_of-pos : (limit : ℤ) → 1 ≤ limit_of limit
unfolding limit_of
limit_of-pos (pos zero) = omega arith
limit_of-pos (pos (suc n)) = omega arith
limit_of-pos (negsuc n) = omega arith

module _ (k : ℕ) where
  pub AllWaiting-append :
      (xs : List Envelope) (d : Envelope)
      → AllWaiting k xs
      → d.deliveries < k
      → AllWaiting k (xs ++ d ∷ [])
  AllWaiting-append [] d h lt = (lt, tt)
  AllWaiting-append (x ∷ xs) d h lt = (h.0, AllWaiting-append xs d h.1 lt)

  AllDead-append :
      (ms : List Message) (m : Message) → AllDead k ms → m.deliveries ≡ k → AllDead k (ms ++ m ∷ [])
  AllDead-append [] m h e = (e, tt)
  AllDead-append (x ∷ ms) m h e = (h.0, AllDead-append ms m h.1 e)

  AllInFlight-remove :
      (xs ys : List Envelope) (d : Envelope)
      → AllInFlight k (xs ++ (d ∷ ys))
      → AllInFlight k (d ∷ []) × AllInFlight k (xs ++ ys)
  AllInFlight-remove [] ys d h = ((h.0, h.1, h.2, tt), h.3)
  AllInFlight-remove (x ∷ xs) ys d h =
      let (at_d, rest) = AllInFlight-remove xs ys d h.3 in (at_d, (h.0, h.1, h.2, rest))

  Step-IsBounded : {s t : System} → 1 ≤ k → Step s t → IsBounded k s → IsBounded k t
  unfolding publish pop requeue close delivered
  Step-IsBounded pos_k (published e s) v = grind (arith, AllWaiting-append)
  Step-IsBounded pos_k (taken d s h) v = ground arith
  Step-IsBounded pos_k (acknowledged xs ys d s h) v = record {
    same_limit = v.same_limit;
    waiting = v.waiting;
    in_flight = (AllInFlight-remove xs ys d (subst (AllInFlight k) h v.in_flight)).1;
    dead = v.dead;
  }
  Step-IsBounded pos_k (refused xs ys d s h) v =
      let (at_d, rest) = AllInFlight-remove xs ys d (subst (AllInFlight k) h v.in_flight) in
      record {
        same_limit = ground arith;
        waiting = ground (arith, AllWaiting-append s.queue.messages d);
        in_flight = rest;
        dead = ground (arith, AllDead-append s.queue.dead d.msg);
      }
  Step-IsBounded pos_k (closed_by s) v = ground arith

-- With `limit` the configured one (five if that is not positive): a waiting message has been delivered
-- fewer than `limit` times, one in flight at least once and at most `limit` times, and a message is
-- dead only after exactly `limit` deliveries.
pub Reach-IsBounded : (limit : ℤ) (s : System) → Reach limit s → IsBounded (limit_of limit) s
Reach-IsBounded limit s here = record { same_limit = refl; waiting = tt; in_flight = tt; dead = tt }
Reach-IsBounded limit s (next {s = t} r st) =
    Step-IsBounded (limit_of limit) (limit_of-pos limit) st (Reach-IsBounded limit t r)
