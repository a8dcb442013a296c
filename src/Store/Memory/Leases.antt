-- ===== src/Store/Memory/Leases.antt =====
-- Leases of the in-process store: who holds a key, over any run of operations by any callers.
use kibitz.Prelude.{
  ℕ, ◌+◌, ◌≤◌, ◌<◌, ◌^◌, ◌≡◌, refl, Option, none, some, List, [], ◌∷◌, is_some, arith, Bool, false,
  if◌then◌else◌, Bytes, str_eq, str_eq_iff, str_eq→eq, err, Bool-cases, inl, inr,
}
use kibitz.Prelude.Int.{ℤ}
use kibitz.Prelude.Decimal.{format_uint, format_uint-injective, format_uint-ne-nil}
use kibitz.Prelude.Table
use kibitz.Prelude.Table.{Table, get-put, get-remove}
use kibitz.Store.{lease_lost}
use kibitz.Store.Memory.{
  Entry, Store, Lease, lookup, mark_processed, acquire_lock, get, put, delete, incr, extend,
  release, len, keys, count_live,
}

-- One call of one operation, by any caller, at any readings of the clock.
pub data Step : Store → Store → Type 0 where
  mark : (k : Bytes) (ttl : ℤ) (t t' : ℕ) (s : Store) → Step s (mark_processed k ttl t t' s).1
  acquire : (k : Bytes) (ttl : ℤ) (t t' : ℕ) (s : Store) → Step s (acquire_lock k ttl t t' s).1
  read : (k : Bytes) (t : ℕ) (s : Store) → Step s (get k t s).1
  write : (k v : Bytes) (ttl : ℤ) (t' : ℕ) (s : Store) → Step s (put k v ttl t' s)
  drop_key : (k : Bytes) (s : Store) → Step s (delete k s)
  count : (k : Bytes) (d ttl : ℤ) (t t' : ℕ) (s : Store) → Step s (incr k d ttl t t' s).1
  renewed : (l : Lease) (ttl : ℤ) (t t' : ℕ) (s : Store) → Step s (extend l ttl t t' s).1
  released : (l : Lease) (t : ℕ) (s : Store) → Step s (release l t s).1
  measured : (t : ℕ) (s : Store) → Step s (len t s).1

pub data Reach (s : Store) : Store → Type 0 where
  here : Reach s s
  next : {t u : Store} → Reach s t → Step t u → Reach s u

abbrev owned_by : Bytes → Option Entry → Bool
owned_by o none = false
owned_by o (some e) = str_eq e.owner o

-- Whether the lease's key has an entry with its owner, expired or not.
abbrev pub holds : Lease → Store → Bool
holds l s = owned_by l.owner (Table.get l.key s.entries)

-- The lease was handed out by this store.
abbrev pub Issued : Lease → Store → Type 0
Issued l s = (n : ℕ) × (n ≤ s.next_id) × (l.owner ≡ format_uint n)

count_live_next_id :
    (t : ℕ) (ks : List Bytes) (n : ℕ) (s : Store) → s.next_id ≡ (count_live t ks n s).1.next_id
unfolding count_live
count_live_next_id t [] n s = refl
count_live_next_id t (k ∷ ks) n s = ground (
  arith,
  count_live_next_id t ks (if is_some (lookup k t s).0 then n + 1 else n) (lookup k t s).1,
)

Step_next_id : {s u : Store} → Step s u → s.next_id ≤ u.next_id
unfolding mark_processed acquire_lock get put delete incr extend release len
Step_next_id (mark k ttl t t' s) = ground arith
Step_next_id (acquire k ttl t t' s) = ground arith
Step_next_id (read k t s) = ground arith
Step_next_id (write k v ttl t' s) = ground arith
Step_next_id (drop_key k s) = ground arith
Step_next_id (count k d ttl t t' s) = ground arith
Step_next_id (renewed l' ttl t t' s) = ground arith
Step_next_id (released l' t s) = ground arith
Step_next_id (measured t s) = omega (arith, count_live_next_id t (keys s.entries) 0 s)

format_uint-fresh : (n m : ℕ) → n < m → m ≤ 2 ^ 63 → str_eq (format_uint m) (format_uint n) ≡ false
format_uint-fresh n m lt b = elim (Bool-cases (str_eq (format_uint m) (format_uint n))) [
  | inl e ↦
      absurd
        (omega (arith, format_uint-injective m n (omega arith) (omega arith) (str_eq→eq _ _ e)))
  | inr e ↦ e
]

module _ (l : Lease) where
  Lost : Table Entry → Type 0
  Lost m = owned_by l.owner (Table.get l.key m) ≡ false

  Lost-put :
      (k : Bytes) (e : Entry) (m : Table Entry)
      → Lost m
      → str_eq e.owner l.owner ≡ false
      → Lost (Table.put k e m)
  unfolding Lost
  Lost-put k e m h ne = ground (arith, get-put k l.key e m)

  Lost-remove : (k : Bytes) (m : Table Entry) → Lost m → Lost (Table.remove k m)
  unfolding Lost
  Lost-remove k m h = ground (arith, get-remove k l.key m)

  Lost-renew :
      (k : Bytes) (e : Entry) (x : ℕ) (m : Table Entry)
      → Lost m
      → Table.get k m ≡ some e
      → Lost (Table.put k (record e { expires = x }) m)
  unfolding Lost
  Lost-renew k e x m h found =
      ground (arith, get-put k l.key (record e { expires = x }) m, str_eq_iff k l.key)

  lookup-Lost : (k : Bytes) (t : ℕ) (s : Store) → Lost s.entries → Lost (lookup k t s).1.entries
  unfolding lookup
  lookup-Lost k t s h = grind (arith, Lost-remove)

  count_live-Lost :
      (t : ℕ) (ks : List Bytes) (n : ℕ) (s : Store)
      → Lost s.entries
      → Lost (count_live t ks n s).1.entries
  unfolding count_live
  count_live-Lost t [] n s h = h
  count_live-Lost t (k ∷ ks) n s h =
      count_live-Lost t ks (if is_some (lookup k t s).0 then n + 1 else n) (lookup k t s).1
        (lookup-Lost k t s h)

  -- No operation makes a lost lease held again: new owners are new numbers.
  Step-Lost :
      {s u : Store} → Step s u → Issued l s → u.next_id ≤ 2 ^ 63 → Lost s.entries → Lost u.entries
  unfolding mark_processed acquire_lock get put delete incr extend release
  Step-Lost (mark k ttl t t' s) (n, le, e) b h =
      grind (arith, Lost-put, Lost-remove, format_uint-ne-nil n)
  Step-Lost (acquire k ttl t t' s) (n, le, e) b h =
      grind (arith, Lost-put, Lost-remove, format_uint-fresh n (s.next_id + 1))
  Step-Lost (read k t s) i b h = grind (arith, Lost-remove)
  Step-Lost (write k v ttl t' s) (n, le, e) b h = grind (arith, Lost-put, format_uint-ne-nil n)
  Step-Lost (drop_key k s) i b h = Lost-remove k s.entries h
  Step-Lost (count k d ttl t t' s) (n, le, e) b h =
      grind (arith, Lost-put, Lost-remove, format_uint-ne-nil n)
  Step-Lost (renewed l' ttl t t' s) i b h = grind (arith, Lost-renew, Lost-remove)
  Step-Lost (released l' t s) i b h = grind (arith, Lost-remove)
  Step-Lost (measured t s) i b h = unfold len in count_live-Lost t (keys s.entries) 0 s h

Reach-next_id : {s u : Store} → Reach s u → s.next_id ≤ u.next_id
Reach-next_id here = omega arith
Reach-next_id (next r st) = omega (arith, Reach-next_id r, Step_next_id st)

Reach-Lost :
    (l : Lease) {s u : Store}
    → Issued l s
    → Lost l s.entries
    → Reach s u
    → u.next_id ≤ 2 ^ 63
    → Lost l u.entries
Reach-Lost l i h here b = h
Reach-Lost l (n, le, e) h (next r st) b =
    Step-Lost l st (n, omega (arith, Reach-next_id r), e) b
      (Reach-Lost l (n, le, e) h r (omega (arith, Step_next_id st)))

-- Neither extending nor releasing the lease succeeds, at any reading of the clock.
abbrev pub IsOver : Lease → Store → Type 0
IsOver l u =
    (ttl : ℤ) (t t' : ℕ)
    → ((extend l ttl t t' u).0 ≡ err lease_lost) × ((release l t u).0 ≡ err lease_lost)

Lost-IsOver : (l : Lease) (u : Store) → Lost l u.entries → IsOver l u
unfolding Lost extend release
Lost-IsOver l u h ttl t t' = ground arith

-- Once a lease that the store handed out was released, whatever that call returned, every later Extend and
-- Release of it reports it lost, for any operations of any callers in between (fewer than 2^63 locks being
-- handed out).
pub release-IsOver :
    (l : Lease) (t : ℕ) (s u : Store)
    → Issued l s
    → Reach (release l t s).1 u
    → u.next_id ≤ 2 ^ 63
    → IsOver l u
unfolding release Lost
release-IsOver l t s u (n, le, e) r b = Lost-IsOver l u (
    Reach-Lost l (n, ground arith, e)
      (ground (arith, get-remove l.key l.key s.entries, str_eq_iff l.key l.key)) r b)

-- Once Extend has reported a lease lost that the store handed out, every later Extend and Release of it
-- reports the same, for any operations of any callers in between (fewer than 2^63 locks being handed out).
pub extend-IsOver :
    (l : Lease) (ttl : ℤ) (t t' : ℕ) (s u : Store)
    → Issued l s
    → (extend l ttl t t' s).0 ≡ err lease_lost
    → Reach (extend l ttl t t' s).1 u
    → u.next_id ≤ 2 ^ 63
    → IsOver l u
unfolding extend Lost
extend-IsOver l ttl t t' s u (n, le, e) failed r b = Lost-IsOver l u (
    Reach-Lost l (n, ground arith, e)
      (ground (arith, get-remove l.key l.key s.entries, str_eq_iff l.key l.key)) r b)
