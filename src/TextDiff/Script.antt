-- ===== src/TextDiff/Script.antt =====
-- `diffLines` of internal/textdiff/textdiff.go: Myers' greedy search, and the walk back along its trace.
-- A slice of numbers is a function of its index. A diagonal k is written as the index that it has in the
-- slice that is read, `offset + k` in `v` and `k + d` in a trace entry, so that no number is negative.
pub mod Walks
pub mod Furthest
pub mod Search
pub mod Backtrack
pub mod Sound
pub mod Edits
pub mod Shortest
use kibitz.Prelude.{
  ℕ, zero, suc, ◌+◌, ◌-◌, ◌*◌, ◌==◌, ltb, leb, min, Bool, true, false, not, ◌&&◌, ◌||◌, Option,
  none, some, List, [], ◌∷◌, ◌++◌, if◌then◌else◌, Bytes, length, drop,
}
use kibitz.TextDiff.Lines.{common_prefix}

pub data Op : Type 0 where
  equal delete insert : Op

pub record EditStep : Type 0 where
  pub kind : Op
  pub old : ℕ
  pub cur : ℕ

abbrev pub step : Op → ℕ → ℕ → EditStep
step kind old cur = record { kind = kind; old = old; cur = cur }

-- `insertAll`, from an index on
unfoldable pub insert_from : ℕ → List Bytes → List EditStep
insert_from i [] = []
insert_from i (l ∷ ls) = step insert 0 i ∷ insert_from (suc i) ls

-- `deleteAll`, from an index on
unfoldable pub delete_from : ℕ → List Bytes → List EditStep
delete_from i [] = []
delete_from i (l ∷ ls) = step delete i 0 ∷ delete_from (suc i) ls

-- A trace entry with its length.
pub record TraceEntry : Type 0 where
  pub size : ℕ
  pub cell : ℕ → ℕ

-- `trim`
unfoldable pub trim_row : (ℕ → ℕ) → ℕ → ℕ → TraceEntry
trim_row v offset d =
    let lo = offset - d in
    let hi = min (offset + d + 1) (2 * offset + 1) in
    record { size = hi - lo; cell = λ i. v (lo + i) }

-- `at`, by `k + d`
unfoldable pub at : TraceEntry → ℕ → ℕ
at e i = if ltb i e.size then e.cell i else 0

abbrev pub update : (ℕ → ℕ) → ℕ → ℕ → ℕ → ℕ
update v i x j = if i == j then x else v j

-- Equal steps from (x, y) on.
abbrev pub run : ℕ → ℕ → ℕ → List EditStep
run zero x y = []
run (suc t) x y = step equal x y ∷ run t (suc x) (suc y)

-- The choice that the search makes at distance d on the j-th diagonal, between the two neighbours.
abbrev pub goes_down : ℕ → ℕ → ℕ → ℕ → Bool
goes_down d j left right = j == 0 || not (j == d) && ltb left right

-- One round of the loop of `backtrack`: from (x, y), at distance d ≥ 1, to the point before it.
pub record Back : Type 0 where
  pub x : ℕ
  pub y : ℕ
  pub steps : List EditStep

abbrev pub back_edit : Bool → ℕ → ℕ → EditStep
back_edit true x y = step insert x (y - 1)
back_edit false x y = step delete (x - 1) y

-- From (px, py) by one edit and then along equal lines to (x, y).
abbrev pub back_by : Bool → ℕ → ℕ → ℕ → ℕ → List EditStep → Back
back_by down px py x y steps =
    let t = min (x - px) (y - py) in
    record {
      x = px;
      y = py;
      steps = back_edit down (x - t) (y - t) ∷ run t (x - t) (y - t) ++ steps;
    }

abbrev pub came_down : TraceEntry → ℕ → ℕ → Bool
came_down e d i = i == 0 || not (i == 2 * d) && ltb (at e (i - 1)) (at e (i + 1))

unfoldable pub back_one : TraceEntry → ℕ → ℕ → ℕ → List EditStep → Back
back_one e d x y steps =
    let i = x + d - y in
    let down = came_down e d i in
    let p = if down then i + 1 else i - 1 in back_by down (at e p) (at e p + d - p) x y steps

-- `backtrack`: the trace has its latest entry first, and the steps found so far are in file order.
unfoldable pub backtrack : List TraceEntry → ℕ → ℕ → List EditStep → List EditStep
unfolding back_one
backtrack [] x y steps = steps
backtrack (e ∷ []) x y steps = let t = min x y in run t (x - t) (y - t) ++ steps
backtrack (e ∷ f ∷ older) x y steps =
    let b = back_one e (suc (length older)) x y steps in backtrack (f ∷ older) b.x b.y b.steps

module _ (old cur : List Bytes) where
  -- How far the equal lines reach from (x, y).
  unfoldable pub snake : ℕ → ℕ → ℕ
  snake x y = common_prefix (drop x old) (drop y cur)

  -- Where the search goes on from at the slice's index i.
  abbrev pub came_from : ℕ → ℕ → (ℕ → ℕ) → ℕ → ℕ
  came_from d j v i = if goes_down d j (v (i - 1)) (v (i + 1)) then v (i + 1) else v (i - 1) + 1

  abbrev pub at_corner : ℕ → ℕ → Bool
  at_corner x y = leb (length old) x && leb (length cur) y

  -- The inner loop at distance d, from its j-th diagonal on. The slice is none when the far corner was
  -- reached.
  unfoldable pub diagonals : ℕ → ℕ → ℕ → ℕ → (ℕ → ℕ) → Option (ℕ → ℕ)
  diagonals offset d zero j v = some v
  diagonals offset d (suc left) j v =
      let i = offset + 2 * j - d in
      let x0 = came_from d j v i in
      let y0 = x0 + offset - i in
      let t = snake x0 y0 in
      let onward = diagonals offset d left (suc j) (update v i (x0 + t)) in
      if at_corner (x0 + t) (y0 + t) then none else onward

  -- A round that reached the corner ends the search; another is followed by the next.
  abbrev pub next_round :
      Option (ℕ → ℕ)
      → List TraceEntry
      → ((ℕ → ℕ) → Option (List TraceEntry))
      → Option (List TraceEntry)
  next_round none trace onward = some trace
  next_round (some v) trace onward = onward v

  -- The outer loop, with the rounds left; the trace where the corner was reached.
  unfoldable pub search : ℕ → ℕ → ℕ → (ℕ → ℕ) → List TraceEntry → Option (List TraceEntry)
  search offset zero d v trace = none
  search offset (suc left) d v trace =
      let trace' = trim_row v offset d ∷ trace in
      next_round (diagonals offset d (suc d) 0 v) trace'
        (λ v'. search offset left (suc d) v' trace')

  abbrev outcome_of : Option (List TraceEntry) → List EditStep × Bool
  outcome_of (some trace) = (backtrack trace (length old) (length cur) [], true)
  outcome_of none = (delete_from 0 old ++ insert_from 0 cur, false)

  abbrev both_sides : ℕ → List EditStep × Bool
  both_sides max_edits =
      let limit = min (length old + length cur) max_edits in
      outcome_of (search (limit + 1) (limit + 1) 0 (λ i. 0) [])

-- `diffLines`: the script, and whether the search came to its end.
unfoldable pub diff_lines : List Bytes → List Bytes → ℕ → List EditStep × Bool
unfolding search backtrack
diff_lines [] [] max_edits = ([], true)
diff_lines [] (l ∷ ls) max_edits = (insert_from 0 (l ∷ ls), true)
diff_lines (l ∷ ls) [] max_edits = (delete_from 0 (l ∷ ls), true)
diff_lines (l ∷ ls) (m ∷ ms) max_edits = both_sides (l ∷ ls) (m ∷ ms) max_edits
