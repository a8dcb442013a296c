-- ===== src/Store/Interface.antt =====
-- The interface `Store` of internal/store/store.go as its clients see it, and the in-process store as an
-- implementation. Any call may fail; the state carries whatever the store keeps, its clock too.
use kibitz.Prelude.{ℕ, ◌≡◌, ap, Bool, true, false, Bytes, Result, ok}
use kibitz.Prelude.Int.{ℤ, pos, ◌<ℤ◌}
use kibitz.Store.{StoreError}
use kibitz.Store.Memory
use kibitz.Store.Memory.Records

pub record Backend : Type 1 where
  pub State : Type 0
  pub Lease : Type 0
  pub mark_processed : Bytes → ℤ → State → Result StoreError Bool × State
  pub acquire_lock : Bytes → ℤ → State → Result StoreError Lease × State
  pub get : Bytes → State → Result StoreError Bytes × State
  pub put : Bytes → Bytes → ℤ → State → Result StoreError Unit × State
  pub delete : Bytes → State → Result StoreError Unit × State
  pub release : Lease → State → Result StoreError Unit × State

-- What a client relies on: a value that was put with a positive duration is there for the call that
-- follows, so that marking its key is no first claim and changes nothing that is read; a deleted key
-- can be claimed.
pub record Laws (b : Backend) : Type 0 where
  pub put_claimed :
      (k v : Bytes) (ttl ttl2 : ℤ) (s : b.State)
      → pos 0 <ℤ ttl
      → (b.put k v ttl s).0 ≡ ok tt
      → (b.mark_processed k ttl2 (b.put k v ttl s).1).0 ≡ ok false
  pub put_read :
      (k v : Bytes) (ttl ttl2 : ℤ) (s : b.State)
      → pos 0 <ℤ ttl
      → (b.put k v ttl s).0 ≡ ok tt
      → (b.get k (b.mark_processed k ttl2 (b.put k v ttl s).1).1).0 ≡ ok v
  pub delete_claimed :
      (k : Bytes) (ttl2 : ℤ) (s : b.State)
      → (b.delete k s).0 ≡ ok tt
      → (b.mark_processed k ttl2 (b.delete k s).1).0 ≡ ok true

-- The in-process store with its clock, which stands still during a call.
pub record Clocked : Type 0 where
  pub now : ℕ
  pub store : Memory.Store

abbrev pub with_clock : {A : Type 0} → ℕ → A × Memory.Store → Result StoreError A × Clocked
with_clock now (a, s) = (ok a, record { now = now; store = s })

abbrev pub keep_clock :
    {A : Type 0} → ℕ → Result StoreError A × Memory.Store → Result StoreError A × Clocked
keep_clock now (r, s) = (r, record { now = now; store = s })

abbrev pub memory : Backend
memory = record {
  State = Clocked;
  Lease = Memory.Lease;
  mark_processed = λ k ttl c. with_clock c.now (Memory.mark_processed k ttl c.now c.now c.store);
  acquire_lock = λ k ttl c. keep_clock c.now (Memory.acquire_lock k ttl c.now c.now c.store);
  get = λ k c. keep_clock c.now (Memory.get k c.now c.store);
  put = λ k v ttl c. (ok tt, record c { store = Memory.put k v ttl c.now c.store });
  delete = λ k c. (ok tt, record c { store = Memory.delete k c.store });
  release = λ l c. keep_clock c.now (Memory.release l c.now c.store);
}

-- The in-process store keeps the contract of its clients, for a clock that stands still between two calls:
-- a value put with a positive duration makes the next claim of its key no first one and is read after it,
-- and a deleted key can be claimed.
pub memory-Laws : Laws memory
memory-Laws = record {
  put_claimed = λ k v ttl ttl2 c h _. ap ok (Records.put-claimed k v ttl ttl2 c.now c.store h);
  put_read = λ k v ttl ttl2 c h _. Records.put-read k v ttl ttl2 c.now c.store h;
  delete_claimed = λ k ttl2 c _. ap ok (Records.delete-claimed k ttl2 c.now c.store);
}
