-- ===== src/Store/Memory/Tests.antt =====
-- The in-process store run on a lock, a claim and a counter.
use kibitz.Prelude.{
  ℕ, ◌≤◌, ◌<◌, ◌≡◌, ◌≢◌, ◌⊎◌, inl, inr, refl, arith, Option, none, some, List, [], ◌∷◌, Bool, true,
  false, Bytes, codes, str_eq, Result, ok, err,
}
use kibitz.Prelude.Int.{pos}
use kibitz.Prelude.Decimal.{add_i64}
use kibitz.Store.{locked}
use kibitz.Store.Memory
use kibitz.Store.Memory.{
  Store, Lease, acquire_lock, extend, release, mark_processed, get, put, incr, lookup, expiry,
  expired,
}
use kibitz.Store.Memory.Exclusion
use kibitz.Store.Memory.Exclusion.{mutual_exclusion}
use kibitz.Store.Memory.Leases
use kibitz.Store.Memory.Leases.{IsOver, Issued, extend-IsOver, release-IsOver}

abbrev a_lock : Bytes
a_lock = codes "lock:a"

abbrev first_lease : Lease
first_lease = record { key = a_lock; owner = codes "1" }

abbrev taken : Store
taken = (acquire_lock a_lock (pos 10) 1 1 Memory.new).1

-- Somebody else has tried to take it.
abbrev tried : Store
tried = (acquire_lock a_lock (pos 10) 5 5 taken).1

mutual_exclusion_example :
    ((acquire_lock a_lock (pos 10) 9 9 tried).0 ≡ err locked)
    × ((extend first_lease (pos 10) 9 9 tried).0 ≡ ok tt)
    × ((release first_lease 9 tried).0 ≡ ok tt)
unfolding acquire_lock Memory.Table.get kibitz.Prelude.Decimal.format_uint
mutual_exclusion_example =
    mutual_exclusion a_lock (pos 10) 1 1 11 first_lease Memory.new tried refl (ground arith)
      (Exclusion.next Exclusion.here (Exclusion.acquire a_lock (pos 10) 5 5 taken (omega arith))) 9
      9 (pos 10) (omega arith)

-- The lease has run out and another caller has the lock.
abbrev retaken : Store
retaken = (acquire_lock a_lock (pos 10) 50 50 (extend first_lease (pos 10) 40 40 taken).1).1

retaken-next_id : retaken.next_id ≡ 2
unfolding acquire_lock extend Memory.Table.get Memory.Table.put Memory.Table.remove
retaken-next_id = refl

extend-IsOver_example : IsOver first_lease retaken
unfolding acquire_lock extend Memory.Table.get kibitz.Prelude.Decimal.format_uint Memory.Table.put
    Memory.Table.remove
extend-IsOver_example =
    extend-IsOver first_lease (pos 10) 40 40 taken retaken (1, omega arith, refl) refl
      (Leases.next Leases.here
        (Leases.acquire a_lock (pos 10) 50 50 (extend first_lease (pos 10) 40 40 taken).1))
      (omega arith)

abbrev given_back : Store
given_back = (acquire_lock a_lock (pos 10) 6 6 (release first_lease 5 taken).1).1
