-- ===== src/Queue/Memory.antt =====
-- internal/queue/memory/memory.go: the in-process queue. Each method holds the mutex for its whole
-- length, so it is one step on the state; the handler runs between `pop` and `requeue`.
pub mod Delivery
pub mod Drain
mod Tests
use kibitz.Prelude.{
  ℕ, zero, suc, ◌+◌, Option, none, some, List, [], ◌∷◌, ◌++◌, Bool, true, false, leb, if◌then◌else◌,
  Bytes, codes, length, Result, ok, err,
}
use kibitz.Prelude.Int.{ℤ, pos, negsuc}
use kibitz.Prelude.Decimal.{format_uint}
use kibitz.Event.{ReviewEvent, Invalid, validate}
use kibitz.Queue.{Message, attributes}

pub data QueueError : Type 0 where
  closed_queue : QueueError
  invalid_event : Invalid → QueueError

-- `delivery`, its counter beside the message's own.
pub record Envelope : Type 0 where
  pub msg : Message
  pub deliveries : ℕ

pub record Queue : Type 0 where
  pub max_deliveries : ℤ
  pub closed : Bool
  pub next_id : ℕ
  pub messages : List Envelope
  pub dead : List Message
  -- A wake-up waits in the channel of capacity one.
  pub waiting : Bool

abbrev pub new : ℤ → Queue
new limit = record {
  max_deliveries = limit;
  closed = false;
  next_id = 0;
  messages = [];
  dead = [];
  waiting = false;
}

unfoldable pub message_id : ℕ → Bytes
message_id n = codes "mem-" ++ format_uint n

unfoldable pub notify : Queue → Queue
notify q = record q { waiting = true }

-- The event is copied by encoding and decoding it, which gives the same value; the decoder's check
-- of the schema version has been made by `validate` already.
abbrev pub enqueue : ReviewEvent → Queue → Queue
enqueue e q =
    let m : Message = record {
      id = message_id (q.next_id + 1);
      event = e;
      attributes = attributes e;
      deliveries = 0;
    } in
    notify (record q {
      next_id = q.next_id + 1;
      messages = q.messages ++ record { msg = m; deliveries = 0 } ∷ [];
    })

abbrev pub publish_valid :
    ReviewEvent → Result Invalid Unit → Queue → Result QueueError Bytes × Queue
publish_valid e (err problem) q = (err (invalid_event problem), q)
publish_valid e (ok _) q =
    if q.closed then (err closed_queue, q) else (ok (message_id (q.next_id + 1)), enqueue e q)

unfoldable pub publish : ReviewEvent → Queue → Result QueueError Bytes × Queue
unfolding notify
publish e q = publish_valid e (validate (some e)) q

abbrev pub take_first : List Envelope → Queue → Option Envelope × Queue
take_first [] q = (none, q)
take_first (d ∷ ds) q = (some d, record q { messages = ds })

unfoldable pub pop : Queue → Option Envelope × Queue
pop q = take_first q.messages q

-- What `Receive` counts before it calls the handler.
unfoldable pub delivered : Envelope → Envelope
delivered d = record {
  msg = record d.msg { deliveries = d.deliveries + 1 };
  deliveries = d.deliveries + 1;
}

-- `MaxDeliveries`, five when it is not positive.
unfoldable pub limit_of : ℤ → ℕ
limit_of (pos zero) = 5
limit_of (pos (suc n)) = suc n
limit_of (negsuc n) = 5

unfoldable pub requeue : Envelope → Queue → Queue
unfolding limit_of notify
requeue d q =
    if leb (limit_of q.max_deliveries) d.deliveries
    then record q { dead = q.dead ++ d.msg ∷ [] }
    else notify (record q { messages = q.messages ++ d ∷ [] })

unfoldable pub len : Queue → ℕ
len q = length q.messages

unfoldable pub dead_letters : Queue → List Message
dead_letters q = q.dead

unfoldable pub close : Queue → Queue
close q = record q { closed = true }

-- One round of `Receive` with nothing else between its parts: `failed` says whether the handler
-- returned an error for the message it was given.
abbrev pub settle : (Message → Bool) → Option Envelope × Queue → Queue
settle failed (none, q) = q
settle failed (some d, q) = if failed (delivered d).msg then requeue (delivered d) q else q

unfoldable pub receive_one : (Message → Bool) → Queue → Queue
unfolding pop delivered requeue
receive_one failed q = settle failed (pop q)

-- `Receive` while the context lives and there is something to take.
unfoldable pub receive : ℕ → (Message → Bool) → Queue → Queue
receive zero failed q = q
receive (suc rounds) failed q = receive rounds failed (receive_one failed q)
