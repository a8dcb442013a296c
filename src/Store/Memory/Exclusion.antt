-- ===== src/Store/Memory/Exclusion.antt =====
-- Mutual exclusion: what the other callers cannot do while a lease runs.
use kibitz.Prelude.{
  ℕ, ◌+◌, ◌≤◌, ◌≡◌, ◌≢◌, some, List, [], ◌∷◌, is_some, arith, if◌then◌else◌, Bytes, str_eq_iff,
  subst, ok, err,
}
use kibitz.Prelude.Int.{ℤ}
use kibitz.Prelude.Table
use kibitz.Prelude.Table.{Table, get-put, get-remove}
use kibitz.Store.{locked}
use kibitz.Store.Memory.{
  Entry, Store, Lease, lookup, expiry, mark_processed, acquire_lock, get, put, delete, incr, extend,
  release, len, keys, count_live,
}

-- One call by a caller that is not the holder: plain writes go to other keys (locks have a prefix of
-- their own), lease calls are made with another owner, and no reading is past `limit`.
pub data Others (l : Lease) (limit : ℕ) : Store → Store → Type 0 where
  mark :
      (k : Bytes) (ttl : ℤ) (t t' : ℕ) (s : Store)
      → t ≤ limit
      → Others l limit s (mark_processed k ttl t t' s).1
  acquire :
      (k : Bytes) (ttl : ℤ) (t t' : ℕ) (s : Store)
      → t ≤ limit
      → Others l limit s (acquire_lock k ttl t t' s).1
  read : (k : Bytes) (t : ℕ) (s : Store) → t ≤ limit → Others l limit s (get k t s).1
  write :
      (k v : Bytes) (ttl : ℤ) (t' : ℕ) (s : Store) → k ≢ l.key → Others l limit s (put k v ttl t' s)
  drop_key : (k : Bytes) (s : Store) → k ≢ l.key → Others l limit s (delete k s)
  count :
      (k : Bytes) (d ttl : ℤ) (t t' : ℕ) (s : Store)
      → k ≢ l.key
      → Others l limit s (incr k d ttl t t' s).1
  renewed :
      (l' : Lease) (ttl : ℤ) (t t' : ℕ) (s : Store)
      → l'.owner ≢ l.owner
      → t ≤ limit
      → Others l limit s (extend l' ttl t t' s).1
  released :
      (l' : Lease) (t : ℕ) (s : Store)
      → l'.owner ≢ l.owner
      → t ≤ limit
      → Others l limit s (release l' t s).1
  measured : (t : ℕ) (s : Store) → t ≤ limit → Others l limit s (len t s).1

pub data Run (l : Lease) (limit : ℕ) (s : Store) : Store → Type 0 where
  here : Run l limit s s
  next : {t u : Store} → Run l limit s t → Others l limit t u → Run l limit s u

-- The entry of a running lease.
pub record Held (l : Lease) (limit : ℕ) (e : Entry) (s : Store) : Type 0 where
  pub stored : Table.get l.key s.entries ≡ some e
  pub owner : e.owner ≡ l.owner
  pub runs : limit ≤ e.expires

module _ (l : Lease) (limit : ℕ) (e : Entry) where
  lookup-Held :
      (k : Bytes) (t : ℕ) (s : Store)
      → t ≤ limit
      → Held l limit e s
      → Held l limit e (lookup k t s).1
  unfolding lookup
  lookup-Held k t s le h = ground (arith, get-remove k l.key s.entries, str_eq_iff k l.key)

  count_live-Held :
      (t : ℕ) (ks : List Bytes) (n : ℕ) (s : Store)
      → t ≤ limit
      → Held l limit e s
      → Held l limit e (count_live t ks n s).1
  unfolding count_live
  count_live-Held t [] n s le h = h
  count_live-Held t (k ∷ ks) n s le h =
      count_live-Held t ks (if is_some (lookup k t s).0 then n + 1 else n) (lookup k t s).1 le
        (lookup-Held k t s le h)

  Others-Held : {s u : Store} → Others l limit s u → Held l limit e s → Held l limit e u
  unfolding mark_processed acquire_lock get put delete incr extend release
  Others-Held (mark k ttl t t' s le) h = grind (arith, get-remove, get-put, str_eq_iff k l.key)
  Others-Held (acquire k ttl t t' s le) h = grind (arith, get-remove, get-put, str_eq_iff k l.key)
  Others-Held (read k t s le) h = grind (arith, get-remove, get-put, str_eq_iff k l.key)
  Others-Held (write k v ttl t' s ne) h = grind (arith, get-put, str_eq_iff k l.key)
  Others-Held (drop_key k s ne) h = grind (arith, get-remove, str_eq_iff k l.key)
  Others-Held (count k d ttl t t' s ne) h = grind (arith, get-remove, get-put, str_eq_iff k l.key)
  Others-Held (renewed l' ttl t t' s ne le) h =
      grind (arith, get-remove, get-put, str_eq_iff l'.key l.key, str_eq_iff e.owner l'.owner)
  Others-Held (released l' t s ne le) h =
      grind (arith, get-remove, get-put, str_eq_iff l'.key l.key, str_eq_iff e.owner l'.owner)
  Others-Held (measured t s le) h = unfold len in count_live-Held t (keys s.entries) 0 s le h

  Run-Held : {s u : Store} → Held l limit e s → Run l limit s u → Held l limit e u
  Run-Held h here = h
  Run-Held h (next r o) = Others-Held o (Run-Held h r)

-- What acquiring leaves in the store.
acquired : Lease → ℕ → Entry
acquired l x = record { value = []; expires = x; owner = l.owner }

acquire_lock-Held :
    (k : Bytes) (ttl : ℤ) (t t' limit : ℕ) (l : Lease) (s : Store)
    → (acquire_lock k ttl t t' s).0 ≡ ok l
    → limit ≤ expiry ttl t'
    → (l.key ≡ k) × Held l limit (acquired l (expiry ttl t')) (acquire_lock k ttl t t' s).1
unfolding acquire_lock acquired
acquire_lock-Held k ttl t t' limit l s got fits =
    grind (arith, get-put, get-remove, str_eq_iff k k, str_eq_iff k l.key)

Held-calls :
    (l : Lease) (limit : ℕ) (e : Entry) (u : Store) (t t' : ℕ) (ttl : ℤ)
    → Held l limit e u
    → t ≤ limit
    → ((acquire_lock l.key ttl t t' u).0 ≡ err locked)
      × ((extend l ttl t t' u).0 ≡ ok tt)
      × ((release l t u).0 ≡ ok tt)
unfolding acquire_lock extend release
Held-calls l limit e u t t' ttl h le = ground (arith, str_eq_iff e.owner l.owner)

-- From the moment a lock is taken until its lease runs out, whatever calls the other callers make in the
-- meantime, as long as they put, delete and count under other keys than the lock's and extend and release
-- leases of other owners only: every attempt to take the lock again is answered "already locked", and the
-- holder can still extend and release its lease.
pub mutual_exclusion :
    (k : Bytes) (ttl : ℤ) (t t' limit : ℕ) (l : Lease) (s u : Store)
    → (acquire_lock k ttl t t' s).0 ≡ ok l
    → limit ≤ expiry ttl t'
    → Run l limit (acquire_lock k ttl t t' s).1 u
    → (t2 t2' : ℕ) (ttl2 : ℤ) → t2 ≤ limit
    → ((acquire_lock k ttl2 t2 t2' u).0 ≡ err locked)
      × ((extend l ttl2 t2 t2' u).0 ≡ ok tt)
      × ((release l t2 u).0 ≡ ok tt)
mutual_exclusion k ttl t t' limit l s u got fits r t2 t2' ttl2 le =
    let (same, held) = acquire_lock-Held k ttl t t' limit l s got fits in
    subst
      (λ k'.
        ((acquire_lock k' ttl2 t2 t2' u).0 ≡ err locked)
        × ((extend l ttl2 t2 t2' u).0 ≡ ok tt)
        × ((release l t2 u).0 ≡ ok tt))
      same (Held-calls l limit _ u t2 t2' ttl2 (Run-Held l limit _ held r) le)
