-- ===== src/Store/Memory/Records.antt =====
-- What the in-process store keeps: values, claims and counters.
use kibitz.Prelude.{
  ℕ, zero, suc, ◌≤◌, ◌≡◌, ◌⊎◌, inl, inr, refl, ap, ◌∙◌, Option, none, some, List, [], ◌∷◌, arith,
  true, false, if◌then◌else◌, Bytes, str_eq, str_eq_iff, ok, err,
}
use mathlib.Core.List.{foldl}
use kibitz.Prelude.Int.{ℤ, pos, negsuc, ◌<ℤ◌}
use kibitz.Prelude.Decimal.{format_int, parse_int, add_i64, parse-format_int, add_i64-IsI64}
use kibitz.Prelude.Table
use kibitz.Prelude.Table.{get-put, get-remove}
use kibitz.Store.{not_found, marker_claim}
use kibitz.Store.Memory.{
  Entry, Store, live, expiry, expired, mark_processed, get, put, delete, incr,
}

-- A key is read as what was last put there, until it expires; other keys are read as before.
pub get-put_exact :
    (k j v : Bytes) (ttl : ℤ) (t t' : ℕ) (s : Store)
    → (get j t (put k v ttl t' s)).0 ≡ (
        if str_eq k j
        then (if expired (record { value = v; expires = expiry ttl t'; owner = [] }) t
            then err not_found
            else ok v)
        else (get j t s).0)
unfolding get put
get-put_exact k j v ttl t t' s =
    ground
      (arith, get-put k j (record { value = v; expires = expiry ttl t'; owner = [] }) s.entries)

-- The first of two claims of a key is told so and the second is not, as long as the first has not
-- expired; the second claim changes nothing, and the record reads "claim".
pub mark_processed-once :
    (k : Bytes) (ttl ttl2 : ℤ) (t t' t2 t2' : ℕ) (s : Store)
    → (mark_processed k ttl t t' s).0 ≡ true
    → (expiry ttl t' ≡ 0) ⊎ (t2 ≤ expiry ttl t')
    → (mark_processed k ttl2 t2 t2' (mark_processed k ttl t t' s).1
        ≡ (false, (mark_processed k ttl t t' s).1))
      × ((get k t2 (mark_processed k ttl t t' s).1).0 ≡ ok marker_claim)
unfolding mark_processed get
mark_processed-once k ttl ttl2 t t' t2 t2' s first h = grind (arith, get-put, str_eq_iff k k)

-- The number that a counter stands at: 0 where there is no live entry.
abbrev pub count_of : Option Entry → ℤ
count_of none = pos 0
count_of (some e) = parse_int e.value

abbrev pub counter : Bytes → ℕ → Store → ℤ
counter k t s = count_of (live t (Table.get k s.entries))

incr-result :
    (k : Bytes) (d ttl : ℤ) (t t' : ℕ) (s : Store)
    → (incr k d ttl t t' s).0 ≡ add_i64 (counter k t s) d
unfolding incr
incr-result k d ttl t t' s = ground arith

expiry_later : (ttl : ℤ) (t : ℕ) → (expiry ttl t ≡ 0) ⊎ (t ≤ expiry ttl t)
unfolding expiry
expiry_later (pos zero) t = inl refl
expiry_later (pos (suc n)) t = inr (omega arith)
expiry_later (negsuc n) t = inl refl

parse-add_i64 : (a b : ℤ) → parse_int (format_int (add_i64 a b)) ≡ add_i64 a b
parse-add_i64 a b = parse-format_int (add_i64 a b) (add_i64-IsI64 a b)

incr-counter :
    (k : Bytes) (d ttl : ℤ) (t : ℕ) (s : Store)
    → counter k t (incr k d ttl t t s).1 ≡ add_i64 (counter k t s) d
unfolding incr
incr-counter k d ttl t s = grind (arith, get-put, parse-add_i64, str_eq_iff k k, expiry_later ttl t)

incr-other_counter :
    (k j : Bytes) (d ttl : ℤ) (t : ℕ) (s : Store)
    → str_eq k j ≡ false
    → counter j t (incr k d ttl t t s).1 ≡ counter j t s
unfolding incr
incr-other_counter k j d ttl t s h = grind (arith, get-put, get-remove)

-- Calls of `Incr` on one key at one reading of the clock, one after the other.
abbrev pub incr_all : Bytes → ℤ → ℕ → List ℤ → Store → Store
incr_all k ttl t [] s = s
incr_all k ttl t (d ∷ ds) s = incr_all k ttl t ds (incr k d ttl t t s).1

-- A counter stands at the int64 sum of all that was added to it, whatever its entry was and however
-- long it is kept; the counters of other keys do not move.
pub incr_all-counter :
    (k j : Bytes) (ttl : ℤ) (t : ℕ) (ds : List ℤ) (s : Store)
    → str_eq k j ≡ false
    → (counter k t (incr_all k ttl t ds s) ≡ foldl add_i64 (counter k t s) ds)
      × (counter j t (incr_all k ttl t ds s) ≡ counter j t s)
incr_all-counter k j ttl t [] s h = (refl, refl)
incr_all-counter k j ttl t (d ∷ ds) s h =
    let (mine, theirs) = incr_all-counter k j ttl t ds (incr k d ttl t t s).1 h in
    (
      mine ∙ ap (λ c. foldl add_i64 c ds) (incr-counter k d ttl t s),
      theirs ∙ incr-other_counter k j d ttl t s h,
    )

-- At one reading of the clock a positive duration has not passed.
put_fresh : (ttl : ℤ) (t : ℕ) → pos 0 <ℤ ttl → t ≤ expiry ttl t
unfolding expiry
put_fresh (pos zero) t h = absurd (omega arith)
put_fresh (pos (suc n)) t h = omega arith
put_fresh (negsuc n) t h = absurd (omega arith)

module _ (k v : Bytes) (ttl ttl2 : ℤ) (t : ℕ) (s : Store) (kept : pos 0 <ℤ ttl) where
  pub put-claimed : (mark_processed k ttl2 t t (put k v ttl t s)).0 ≡ false
  unfolding mark_processed put
  put-claimed = grind (arith, get-put, str_eq_iff k k, put_fresh ttl t kept)

  pub put-read : (get k t (mark_processed k ttl2 t t (put k v ttl t s)).1).0 ≡ ok v
  unfolding mark_processed put get
  put-read = grind (arith, get-put, str_eq_iff k k, put_fresh ttl t kept)

pub delete-claimed :
    (k : Bytes) (ttl2 : ℤ) (t : ℕ) (s : Store) → (mark_processed k ttl2 t t (delete k s)).0 ≡ true
unfolding mark_processed delete
delete-claimed k ttl2 t s = grind (arith, get-remove, str_eq_iff k k)
