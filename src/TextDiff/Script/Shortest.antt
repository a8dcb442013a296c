-- ===== src/TextDiff/Script/Shortest.antt =====
-- The script of a finished search is a shortest one.
use kibitz.Prelude.{
  ℕ, zero, suc, ◌+◌, ◌-◌, ◌*◌, ◌≤◌, ◌<◌, ◌≡◌, refl, sym, subst, ◌∙◌, arith, min, Bool, true, false,
  Option, none, some, List, [], ◌∷◌, ◌++◌, Bytes, length, drop, get_elem?, str_eq_refl, dec_lt,
}
use native.Mathlib.Decide.{ℕ_discrete}
use kibitz.TextDiff.Lines.{common_prefix}
use kibitz.TextDiff.Script.{
  Op, equal, delete, insert, EditStep, snake, TraceEntry, insert_from, delete_from, outcome_of,
  diff_lines,
}
use kibitz.TextDiff.Script.Walks.{
  Fits, Walk, old_on, cur_on, get_elem?-drop, insert_from-Walk, delete_from-Walk,
}
use kibitz.TextDiff.Script.Search.{Done}
use kibitz.TextDiff.Script.Sound.{whole_search-Done}
use kibitz.TextDiff.Compact.Rebuilt.{drop-suc}
use kibitz.TextDiff.Script.Edits.{
  cost, edits, edits-append, edits-backtrack, edits-insert_from, edits-delete_from,
}
use kibitz.TextDiff.Script.Furthest.{
  furthest, first, furthest-first, furthest-natural, greedy, Past,
}

abbrev spend : Op → ℕ → ℕ
spend equal e = e
spend delete e = suc e
spend insert e = suc e

common_prefix-end :
    (a b : List Bytes) (x : Bytes)
    → get_elem? a (common_prefix a b) ≡ some x
    → get_elem? b (common_prefix a b) ≡ some x
    → ⊥
unfolding common_prefix
common_prefix-end [] b x e f = absurd (ground (arith, e))
common_prefix-end (c ∷ a) [] x e f = absurd (ground (arith, f))
common_prefix-end (c ∷ a) (d ∷ b) x e f =
    ground (arith, e, f, common_prefix-end a b x, str_eq_refl c)

module _ (old cur : List Bytes) where
  -- A point that the furthest one of its diagonal is no nearer than.
  abbrev pub Reachable : ℕ → ℕ → ℕ → Type 0
  Reachable e i j = (k : ℕ) × (k ≤ e) × (j + 2 * k ≡ i + e) × (i ≤ furthest old cur e k)

  -- The equal lines of a furthest point end there.
  furthest-end :
      (e k : ℕ)
      → k ≤ e
      → (j : ℕ) → j + 2 * k ≡ furthest old cur e k + e
      → furthest old cur e k < length old
      → get_elem? old (furthest old cur e k) ≡ get_elem? cur j
      → ⊥
  furthest-end e k h j place inside alike =
      let x0 = first old cur e k in
      let y0 = x0 + e - 2 * k in
      let t = snake old cur x0 y0 in
      let whole = furthest-first old cur e k h in
      let (a, d, here) = drop-suc (furthest old cur e k) old inside in
      let there : y0 + t ≡ j = omega (arith, furthest-natural old cur e k h) in
      unfold snake in
      common_prefix-end (drop x0 old) (drop y0 cur) a
        (get_elem?-drop x0 t old ∙ subst (λ n. get_elem? old n ≡ some a) whole here)
        (get_elem?-drop y0 t cur
          ∙ subst (λ n. get_elem? cur n ≡ some a) (sym there) (sym alike ∙ here))

  Reachable-step :
      (o : Op) (s : EditStep) (e i j : ℕ)
      → Fits old cur o s i j
      → Reachable e i j
      → Reachable (spend o e) (old_on o i) (cur_on o j)
  Reachable-step equal s e i j (so, sc, lt_i, lt_j, alike) (k, h, place, le) =
      elim (ℕ_discrete i (furthest old cur e k)) [
        | yes here ↦ absurd (
            furthest-end e k h j (omega arith) (omega arith)
              (subst (λ n. get_elem? old n ≡ get_elem? cur j) here alike))
        | no before ↦ (k, h, omega arith, omega arith)
      ]
  Reachable-step delete s e i j fits (k, h, place, le) =
      (suc k, omega arith, omega arith, omega (arith, greedy old cur e k h))
  Reachable-step insert s e i j fits (k, h, place, le) =
      (k, omega arith, omega arith, omega (arith, greedy old cur e k h))

  Walk-Past :
      (s : List EditStep) (e i j t : ℕ)
      → t ≡ edits s + e
      → Walk old cur s i j
      → Reachable e i j
      → (k : ℕ) × (k ≤ t) × Past old cur t k
  Walk-Past [] e i j t et (ei, ej) (k, h, place, le) =
      let same : e ≡ t = omega arith in
      subst (λ n. (k' : ℕ) × (k' ≤ n) × Past old cur n k') same (k, h, (omega arith, omega arith))
  Walk-Past (s ∷ r) e i j t et (fits, w) at =
      Walk-Past r (spend s.kind e) (old_on s.kind i) (cur_on s.kind j) t (spent s.kind et) w
        (Reachable-step s.kind s e i j fits at)
    where
      spent : (o : Op) → t ≡ cost o + edits r + e → t ≡ edits r + spend o e
      spent equal et' = omega arith
      spent delete et' = omega arith
      spent insert et' = omega arith

  Past-mono : (k d e : ℕ) → k ≤ d → d ≤ e → Past old cur d k → Past old cur e k
  Past-mono k d zero h le past =
      let same : d ≡ 0 = omega arith in subst (λ n. Past old cur n k) same past
  Past-mono k d (suc e) h le past = elim (ℕ_discrete d (suc e)) [
    | yes same ↦ subst (λ n. Past old cur n k) same past
    | no less ↦
        let before = Past-mono k d e h (omega arith) past in
        (
          omega (arith, greedy old cur e k (omega arith)),
          omega (arith, greedy old cur e k (omega arith)),
        )
  ]

  -- No way to the ends has so few edits that the search was past their number.
  Walk-edits :
      (s : List EditStep) (d : ℕ)
      → Walk old cur s 0 0
      → ((k : ℕ) → k ≤ d → ¬ Past old cur d k)
      → d < edits s
  Walk-edits s d w fresh = elim (dec_lt d (edits s)) [
    | yes more ↦ more
    | no few ↦
        let (k, h, past) =
          Walk-Past s 0 0 0 (edits s) (omega arith) w (0, omega arith, omega arith, omega arith) in
        absurd (fresh k (omega arith) (Past-mono k (edits s) d h (omega arith) past))
  ]

-- A way has as many edits as the texts differ in length, or more.
Walk-lengths :
    (old cur : List Bytes) (s : List EditStep) (i j : ℕ)
    → Walk old cur s i j
    → (length old + j ≤ length cur + i + edits s) × (length cur + i ≤ length old + j + edits s)
Walk-lengths old cur [] i j (ei, ej) = (omega arith, omega arith)
Walk-lengths old cur (s ∷ r) i j (fits, w) = go s.kind (Walk-lengths old cur r _ _ w)
  where
    go :
        (o : Op)
        → (length old + cur_on o j ≤ length cur + old_on o i + edits r)
          × (length cur + old_on o i ≤ length old + cur_on o j + edits r)
        → (length old + j ≤ length cur + i + (cost o + edits r))
          × (length cur + i ≤ length old + j + (cost o + edits r))
    go equal (a, b) = (omega arith, omega arith)
    go delete (a, b) = (omega arith, omega arith)
    go insert (a, b) = (omega arith, omega arith)

-- What a search says of the edits of any other way.
abbrev pub IsShortest : List EditStep × Bool → ℕ → List EditStep → Type 0
IsShortest (script, true) cap s = edits script ≤ edits s
IsShortest (script, false) cap s = cap < edits s

module _ (old cur : List Bytes) where
  replaced-Walk : Walk old cur (delete_from 0 old ++ insert_from 0 cur) 0 0
  replaced-Walk =
      delete_from-Walk old cur 0 0 old (insert_from 0 cur) (omega arith)
        (insert_from-Walk old cur (length old) 0 cur refl (omega arith))

  found-IsShortest :
      (cap limit : ℕ) (s : List EditStep) (r : Option (List TraceEntry))
      → limit ≡ min (length old + length cur) cap
      → Done old cur (suc limit) r
      → Walk old cur s 0 0
      → IsShortest (outcome_of old cur r) cap s
  found-IsShortest cap limit s none e h w =
      let this = Walk-edits old cur s limit w (λ k le. h limit k refl le) in
      let all =
        Walk-edits old cur (delete_from 0 old ++ insert_from 0 cur) limit replaced-Walk
          (λ k le. h limit k refl le) in
      omega (
        arith,
        edits-append (delete_from 0 old) (insert_from 0 cur),
        edits-delete_from 0 old,
        edits-insert_from 0 cur,
      )
  found-IsShortest cap limit s (some []) e h w = absurd h
  found-IsShortest cap limit s (some (f ∷ [])) e h w =
      omega (arith, edits-backtrack f [] (length old) (length cur) [])
  found-IsShortest cap limit s (some (f ∷ g ∷ older)) e (t, early, k, h, right, below) w = omega (
    arith,
    edits-backtrack f (g ∷ older) (length old) (length cur) [],
    Walk-edits old cur s (length older) w (λ i le. early (length older) i refl le),
  )

-- The search is right about its result. Where it came to its end, no way through the two texts has fewer edits
-- than the script; where it did not, every way has more edits than the cap.
pub diff_lines-IsShortest :
    (old cur : List Bytes) (max_edits : ℕ) (s : List EditStep)
    → Walk old cur s 0 0
    → IsShortest (diff_lines old cur max_edits) max_edits s
unfolding diff_lines
diff_lines-IsShortest [] [] max_edits s w = omega arith
diff_lines-IsShortest [] (l ∷ ls) max_edits s w =
    omega (arith, edits-insert_from 0 (l ∷ ls), Walk-lengths [] (l ∷ ls) s 0 0 w)
diff_lines-IsShortest (l ∷ ls) [] max_edits s w =
    omega (arith, edits-delete_from 0 (l ∷ ls), Walk-lengths (l ∷ ls) [] s 0 0 w)
diff_lines-IsShortest (l ∷ ls) (m ∷ ms) max_edits s w =
    let limit = min (length (l ∷ ls) + length (m ∷ ms)) max_edits in
    let one : limit + 1 ≡ suc limit = omega arith in
    rw one (
      found-IsShortest (l ∷ ls) (m ∷ ms) max_edits limit s _ refl
        (whole_search-Done (l ∷ ls) (m ∷ ms) limit) w)
