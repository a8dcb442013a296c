-- ===== src/Worker/Budget/Counter.antt =====
-- The counters in which internal/worker/budget.go keeps what a month has cost, on the in-process store.
use kibitz.Prelude.{
  ℕ, ◌+◌, ◌≤◌, ◌≡◌, ◌⊎◌, inl, inr, refl, sym, ap, ◌∙◌, arith, Bool, true, false, Option, none, some,
  List, [], ◌∷◌, ◌++◌, subst, Bytes, codes, str_eq, str_eq_iff, Each, if◌then◌else◌, Result, ok,
  err, Bool-cases,
}
use mathlib.Core.List.{append_cancel_left, append_cancel_right}
use kibitz.Prelude.Int.{ℤ, pos, negsuc}
use kibitz.Prelude.Decimal.{parse_int, format_int, add_i64, IsI64, add_i64-IsI64, parse-format_int}
use kibitz.Prelude.Table
use kibitz.Prelude.Table.{get-put, get-remove}
use kibitz.Store.{StoreError, spend_key}
use kibitz.Store.Memory.{Entry, Store, incr, expiry, expired}
use kibitz.Worker.Budget.{spend_ttl}

abbrev ttl : ℕ
ttl = 6048000000000000

-- The moment lies in the month that ends at `last`, which began no longer ago than the counters are kept.
abbrev pub InMonth : ℕ → ℕ → Type 0
InMonth last t = (t ≤ last) × (last ≤ t + ttl)

-- The store's `Incr` at one reading of the clock; the in-process store never fails.
abbrev pub incr_at : ℕ → Bytes → ℤ → ℤ → Store → Result StoreError ℤ × Store
incr_at t key delta kept s = (ok (incr key delta kept t t s).0, (incr key delta kept t t s).1)

-- The counter of a key stands at a total, and is kept until the month is over.
abbrev pub Standing : ℕ → ℤ → Option Entry → Type 0
Standing last total none = total ≡ pos 0
Standing last total (some e) =
    (parse_int e.value ≡ total) × (IsI64 total × ((e.expires ≡ 0) ⊎ (last ≤ e.expires)))

abbrev pub Stands : Bytes → ℕ → ℤ → Store → Type 0
Stands k last total s = Standing last total (Table.get k s.entries)

add_i64-parsed : (a b : ℤ) → parse_int (format_int (add_i64 a b)) ≡ add_i64 a b
add_i64-parsed a b = parse-format_int (add_i64 a b) (add_i64-IsI64 a b)

pub incr-Stands :
    (k : Bytes) (d total : ℤ) (t last : ℕ) (s : Store)
    → InMonth last t
    → Stands k last total s
    → ((incr k d spend_ttl t t s).0 ≡ add_i64 total d)
      × Stands k last (add_i64 total d) (incr k d spend_ttl t t s).1
unfolding incr expiry expired
incr-Stands k d total t last s m h =
    grind (arith, get-put, str_eq_iff k k, add_i64-parsed, add_i64-IsI64 total d)

pub incr-other_Stands :
    (k j : Bytes) (d total : ℤ) (t last : ℕ) (s : Store)
    → str_eq j k ≡ false
    → Stands k last total s
    → Stands k last total (incr j d spend_ttl t t s).1
unfolding incr
incr-other_Stands k j d total t last s ne h = grind (arith, get-put, get-remove)

pub Standing-IsI64 : (last : ℕ) (total : ℤ) (o : Option Entry) → Standing last total o → IsI64 total
Standing-IsI64 last total none h = ground (arith, h)
Standing-IsI64 last total (some e) h = h.1.0

pub add_i64-zero : (a : ℤ) → IsI64 a → add_i64 a (pos 0) ≡ a
unfolding add_i64 kibitz.Prelude.Int.◌+ℤ◌
add_i64-zero (pos n) h = ground arith
add_i64-zero (negsuc n) h = ground arith

pub peek-Stands :
    (k : Bytes) (total : ℤ) (t last : ℕ) (s : Store)
    → InMonth last t
    → Stands k last total s
    → ((incr k (pos 0) spend_ttl t t s).0 ≡ total)
      × Stands k last total (incr k (pos 0) spend_ttl t t s).1
peek-Stands k total t last s m h =
    subst
      (λ z.
        ((incr k (pos 0) spend_ttl t t s).0 ≡ z)
        × Stands k last z (incr k (pos 0) spend_ttl t t s).1)
      (add_i64-zero total (Standing-IsI64 last total (Table.get k s.entries) h))
      (incr-Stands k (pos 0) total t last s m h)

spend_key-injective : (r repo month : Bytes) → spend_key r month ≡ spend_key repo month → r ≡ repo
unfolding spend_key
spend_key-injective r repo month e =
    append_cancel_right r repo (b':' ∷ month)
      (append_cancel_left (codes "spend:") (r ++ (b':' ∷ month)) (repo ++ (b':' ∷ month)) e)

pub spend_key-distinct :
    (r repo month : Bytes)
    → str_eq r repo ≡ false
    → str_eq (spend_key r month) (spend_key repo month) ≡ false
spend_key-distinct r repo month h = ground (
  arith,
  str_eq_iff r repo,
  str_eq_iff (spend_key r month) (spend_key repo month),
  spend_key-injective r repo month,
)
