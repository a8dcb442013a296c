-- ===== src/TextDiff/Script/Walks.antt =====
-- What an edit script is to be: a way through two texts, from a point to their ends.
use kibitz.Prelude.{
  ℕ, zero, suc, ◌+◌, ◌≤◌, ◌<◌, ◌≡◌, refl, arith, List, [], ◌∷◌, ◌++◌, Bytes, length, drop,
  get_elem?, str_eq→eq,
}
use native.Mathlib.Numerals.{unary_clauses}
use kibitz.TextDiff.Lines.{common_prefix}
use kibitz.TextDiff.Script.{
  Op, equal, delete, insert, EditStep, snake, run, insert_from, delete_from,
}

-- The lines gone past.
abbrev pub old_on : Op → ℕ → ℕ
old_on equal i = suc i
old_on delete i = suc i
old_on insert i = i

abbrev pub cur_on : Op → ℕ → ℕ
cur_on equal j = suc j
cur_on delete j = j
cur_on insert j = suc j

module _ (old cur : List Bytes) where
  -- What a step at (i, j) may be. The other index of a removal or of an addition is not looked at.
  abbrev pub Fits : Op → EditStep → ℕ → ℕ → Type 0
  Fits equal s i j =
      (s.old ≡ i)
      × (s.cur ≡ j)
      × (i < length old)
      × (j < length cur)
      × (get_elem? old i ≡ get_elem? cur j)
  Fits delete s i j = (s.old ≡ i) × (i < length old)
  Fits insert s i j = (s.cur ≡ j) × (j < length cur)

  abbrev pub Walk : List EditStep → ℕ → ℕ → Type 0
  Walk [] i j = (i ≡ length old) × (j ≡ length cur)
  Walk (s ∷ r) i j = Fits s.kind s i j × Walk r (old_on s.kind i) (cur_on s.kind j)

pub get_elem?-drop : (x k : ℕ) (l : List Bytes) → get_elem? (drop x l) k ≡ get_elem? l (x + k)
get_elem?-drop zero k l = ground arith
get_elem?-drop (suc x) k [] = refl
get_elem?-drop (suc x) k (a ∷ l) = ground (arith, get_elem?-drop x k l)

pub common_prefix-le :
    (a b : List Bytes) → (common_prefix a b ≤ length a) × (common_prefix a b ≤ length b)
unfolding common_prefix
common_prefix-le [] b = (omega arith, omega arith)
common_prefix-le (x ∷ a) [] = (omega arith, omega arith)
common_prefix-le (x ∷ a) (y ∷ b) = ground (arith, common_prefix-le a b)

pub common_prefix-get_elem? :
    (a b : List Bytes) (k : ℕ) → k < common_prefix a b → get_elem? a k ≡ get_elem? b k
unfolding common_prefix
common_prefix-get_elem? [] b k h = absurd (omega arith)
common_prefix-get_elem? (x ∷ a) [] k h = absurd (omega arith)
common_prefix-get_elem? (x ∷ a) (y ∷ b) zero h = ground (arith, str_eq→eq x y)
common_prefix-get_elem? (x ∷ a) (y ∷ b) (suc k) h = ground (arith, common_prefix-get_elem? a b k)

module _ (old cur : List Bytes) where
  -- Lines that the two texts share from (x, y) on.
  abbrev pub Alike : ℕ → ℕ → ℕ → Type 0
  Alike t x y = (k : ℕ) → k < t → get_elem? old (x + k) ≡ get_elem? cur (y + k)

  pub snake-Alike : (x y : ℕ) → Alike (snake old cur x y) x y
  unfolding snake
  snake-Alike x y k h = ground (
    arith,
    get_elem?-drop x k old,
    get_elem?-drop y k cur,
    common_prefix-get_elem? (drop x old) (drop y cur) k h,
  )

  pub run-Walk :
      (t x y ex ey : ℕ) (after : List EditStep)
      → Alike t x y
      → ex ≡ x + t
      → ey ≡ y + t
      → ex ≤ length old
      → ey ≤ length cur
      → Walk old cur after ex ey
      → Walk old cur (run t x y ++ after) x y
  run-Walk zero x y ex ey after same u v right below w = ground arith
  run-Walk (suc t) x y ex ey after same u v right below w = (
    (refl, refl, omega arith, omega arith, simp unary_clauses at (same 0 (omega arith))),
    run-Walk t (suc x) (suc y) ex ey after (λ k h. ground (arith, same (suc k))) (omega arith)
        (omega arith) right below w,
  )

  pub insert_from-Walk :
      (i j : ℕ) (l : List Bytes)
      → i ≡ length old
      → j + length l ≡ length cur
      → Walk old cur (insert_from j l) i j
  unfolding insert_from
  insert_from-Walk i j [] e h = omega arith
  insert_from-Walk i j (x ∷ l) e h =
      ((refl, omega arith), insert_from-Walk i (suc j) l e (omega arith))

  pub delete_from-Walk :
      (i j : ℕ) (l : List Bytes) (after : List EditStep)
      → i + length l ≡ length old
      → Walk old cur after (length old) j
      → Walk old cur (delete_from i l ++ after) i j
  unfolding delete_from
  delete_from-Walk i j [] after h w = ground arith
  delete_from-Walk i j (x ∷ l) after h w =
      ((refl, omega arith), delete_from-Walk (suc i) j l after (omega arith) w)
