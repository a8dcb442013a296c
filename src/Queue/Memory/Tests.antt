-- ===== src/Queue/Memory/Tests.antt =====
-- A queue with one message run through a delivery.
use kibitz.Prelude.{◌^◌, ◌≤◌, ◌≡◌, refl, arith, some, [], ◌∷◌, true, length}
use kibitz.Prelude.Int.{pos}
use kibitz.Event.Samples.{pushed}
use kibitz.Queue.{attributes}
use kibitz.Queue.Memory
use kibitz.Queue.Memory.{
  Envelope, Queue, message_id, publish, pop, receive, requeue, delivered, dead_letters, limit_of,
}
use kibitz.Queue.Memory.Delivery
use kibitz.Queue.Memory.Delivery.{
  System, start, Reach, places, issued, IsBounded, exactly_one_place, Reach-IsBounded,
}
use kibitz.Queue.Memory.Drain.{receive-drains}

abbrev published_once : System
published_once = record (start (pos 2)) { queue = (publish pushed (start (pos 2)).queue).1 }

abbrev envelope : Envelope
envelope = record {
  msg = record {
    id = message_id 1;
    event = pushed;
    attributes = attributes pushed;
    deliveries = 0;
  };
  deliveries = 0;
}

abbrev being_handled : System
being_handled = record published_once {
  queue = (pop published_once.queue).1;
  in_flight = delivered envelope ∷ [];
}

first_taken : (pop published_once.queue).0 ≡ some envelope
unfolding publish pop kibitz.Event.validate
first_taken = refl

reached : Reach (pos 2) being_handled
reached =
    Delivery.next (Delivery.next Delivery.here (Delivery.published pushed (start (pos 2))))
      (Delivery.taken envelope published_once first_taken)

last_small : being_handled.queue.next_id ≤ 2 ^ 63
unfolding publish pop kibitz.Event.validate message_id limit_of
last_small = omega arith

exactly_one_place_example :
    places (message_id 1) being_handled ≡ issued 1 being_handled.queue.next_id
unfolding publish
exactly_one_place_example =
    exactly_one_place (pos 2) being_handled 1 reached last_small (omega arith)

Reach-IsBounded_example : IsBounded (limit_of (pos 2)) being_handled
Reach-IsBounded_example = Reach-IsBounded (pos 2) being_handled reached

-- A handler that always fails: the message ends among the dead ones after two deliveries.
dead_after_two : length (dead_letters (receive 2 (λ m. true) published_once.queue)) ≡ 1
unfolding receive dead_letters Memory.receive_one publish kibitz.Event.validate
dead_after_two = refl

receive-drains_example : (receive 2 (λ m. true) published_once.queue).messages ≡ []
unfolding publish kibitz.Event.validate limit_of
receive-drains_example =
    receive-drains 2 (λ m. true) published_once.queue (omega arith, tt) (omega arith)
