-- ===== src/Store/Memory.antt =====
-- internal/store/memory/memory.go: the in-process store. Each operation holds the mutex from its
-- first statement to its return, so it is one step on the state. A time is a number of
-- nanoseconds, of which 0 is the zero `time.Time`. The clock is read once by `lookup` and once by
-- `expiry`; an operation that makes both calls takes both readings.
pub mod Leases
pub mod Records
pub mod Exclusion
mod Tests
use kibitz.Prelude.{
  ℕ, zero, suc, ◌+◌, ◌≡◌, Option, none, some, List, [], ◌∷◌, arith, Bool, true, false, not, ◌&&◌,
  ltb, ◌==◌, if◌then◌else◌, Bytes, str_eq, Result, ok, err, is_some,
}
use kibitz.Prelude.Int.{ℤ, pos, negsuc}
use kibitz.Prelude.Decimal.{format_int, format_uint, parse_int, add_i64}
use kibitz.Prelude.Table
use kibitz.Prelude.Table.{Table}
use kibitz.Store.{StoreError, locked, not_found, lease_lost, marker_claim}

pub record Entry : Type 0 where
  pub value : Bytes
  pub expires : ℕ
  pub owner : Bytes

unfoldable pub expired : Entry → ℕ → Bool
expired e now = not (e.expires == 0) && ltb e.expires now

pub record Store : Type 0 where
  pub entries : Table Entry
  pub next_id : ℕ

abbrev pub new : Store
new = record { entries = []; next_id = 0 }

-- The entry that `lookup` finds: one that is there and has not expired.
abbrev pub live : ℕ → Option Entry → Option Entry
live now none = none
live now (some e) = if expired e now then none else some e

abbrev pub found : Bytes → Store → Option Entry → Option Entry × Store
found key s none = (none, record s { entries = Table.remove key s.entries })
found key s (some e) = (some e, s)

unfoldable pub lookup : Bytes → ℕ → Store → Option Entry × Store
unfolding expired
lookup key now s = found key s (live now (Table.get key s.entries))

-- When something kept for `ttl` from `now` expires. A duration that is not positive never does.
unfoldable pub expiry : ℤ → ℕ → ℕ
expiry (pos zero) now = 0
expiry (pos (suc n)) now = now + suc n
expiry (negsuc n) now = 0

abbrev store_entry : Bytes → Entry → Store → Store
store_entry key e s = record s { entries = Table.put key e s.entries }

abbrev pub claim : Bytes → ℕ → Option Entry × Store → Bool × Store
claim key expires (some e, s) = (false, s)
claim key expires (none, s) =
    (true, store_entry key (record { value = marker_claim; expires = expires; owner = [] }) s)

unfoldable pub mark_processed : Bytes → ℤ → ℕ → ℕ → Store → Bool × Store
unfolding lookup expiry
mark_processed key ttl now now' s = claim key (expiry ttl now') (lookup key now s)

pub record Lease : Type 0 where
  pub key : Bytes
  pub owner : Bytes

abbrev pub grant : Bytes → ℕ → Option Entry × Store → Result StoreError Lease × Store
grant key expires (some e, s) = (err locked, s)
grant key expires (none, s) =
    let owner = format_uint (s.next_id + 1) in
    (
      ok (record { key = key; owner = owner }),
      record {
        entries = Table.put key (record { value = []; expires = expires; owner = owner }) s.entries;
        next_id = s.next_id + 1;
      },
    )

unfoldable pub acquire_lock : Bytes → ℤ → ℕ → ℕ → Store → Result StoreError Lease × Store
unfolding lookup expiry
acquire_lock key ttl now now' s = grant key (expiry ttl now') (lookup key now s)

abbrev pub value_of : Option Entry × Store → Result StoreError Bytes × Store
value_of (some e, s) = (ok e.value, s)
value_of (none, s) = (err not_found, s)

unfoldable pub get : Bytes → ℕ → Store → Result StoreError Bytes × Store
unfolding lookup
get key now s = value_of (lookup key now s)

unfoldable pub put : Bytes → Bytes → ℤ → ℕ → Store → Store
unfolding expiry
put key value ttl now' s =
    store_entry key (record { value = value; expires = expiry ttl now'; owner = [] }) s

unfoldable pub delete : Bytes → Store → Store
delete key s = record s { entries = Table.remove key s.entries }

-- The counter keeps the expiry that it was made with, and is made with one.
abbrev pub add_to : Bytes → ℤ → ℕ → Option Entry × Store → ℤ × Store
add_to key delta expires (some e, s) =
    let total = add_i64 (parse_int e.value) delta in
    (
      total,
      store_entry key (record { value = format_int total; expires = e.expires; owner = [] }) s,
    )
add_to key delta expires (none, s) =
    let total = add_i64 (pos 0) delta in
    (total, store_entry key (record { value = format_int total; expires = expires; owner = [] }) s)

unfoldable pub incr : Bytes → ℤ → ℤ → ℕ → ℕ → Store → ℤ × Store
unfolding lookup expiry
incr key delta ttl now now' s = add_to key delta (expiry ttl now') (lookup key now s)

-- A lease is held while its key has a live entry with its owner.
abbrev pub renew : Lease → ℕ → Option Entry × Store → Result StoreError Unit × Store
renew l expires (none, s) = (err lease_lost, s)
renew l expires (some e, s) =
    if str_eq e.owner l.owner
    then (ok tt, store_entry l.key (record e { expires = expires }) s)
    else (err lease_lost, s)

unfoldable pub extend : Lease → ℤ → ℕ → ℕ → Store → Result StoreError Unit × Store
unfolding lookup expiry
extend l ttl now now' s = renew l (expiry ttl now') (lookup l.key now s)

abbrev pub give_up : Lease → Option Entry × Store → Result StoreError Unit × Store
give_up l (none, s) = (err lease_lost, s)
give_up l (some e, s) =
    if str_eq e.owner l.owner
    then (ok tt, record s { entries = Table.remove l.key s.entries })
    else (err lease_lost, s)

unfoldable pub release : Lease → ℕ → Store → Result StoreError Unit × Store
unfolding lookup
release l now s = give_up l (lookup l.key now s)

-- `Len` looks every key up, which drops what has expired.
keys : Table Entry → List Bytes
keys [] = []
keys ((k, e) ∷ m) = k ∷ keys m

count_live : ℕ → List Bytes → ℕ → Store → ℕ × Store
unfolding lookup
count_live now [] n s = (n, s)
count_live now (k ∷ ks) n s =
    let (o, s') = lookup k now s in count_live now ks (if is_some o then n + 1 else n) s'

unfoldable pub len : ℕ → Store → ℕ × Store
unfolding count_live keys
len now s = count_live now (keys s.entries) 0 s
