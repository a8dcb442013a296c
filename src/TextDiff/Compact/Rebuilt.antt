-- ===== src/TextDiff/Compact/Rebuilt.antt =====
-- Compacting a script leaves a way through the two texts.
use kibitz.Prelude.{
  ℕ, zero, suc, ◌≤◌, ◌<◌, ◌≡◌, refl, sym, ◌∙◌, arith, Bool, true, false, any, ◌||◌, some, List, [],
  ◌∷◌, if◌then◌else◌, Bytes, length, drop, get_elem?,
}
use kibitz.TextDiff.Script.{Op, equal, delete, insert, EditStep}
use kibitz.TextDiff.Script.Walks.{Fits, Walk, old_on, cur_on}
use kibitz.TextDiff.Slide.{Marked, same, changed}
use kibitz.TextDiff.Slide.Kept.{lines, unchanged, slide-same_change}
use kibitz.TextDiff.Compact.{removes, adds, removed, added, mark_by, rebuild, compact}

drop-∷ :
    (i : ℕ) (l : List Bytes) (a : Bytes) (r : List Bytes)
    → drop i l ≡ a ∷ r
    → (drop (suc i) l ≡ r) × (get_elem? l i ≡ some a) × (i < length l)
drop-∷ zero [] a r e = ground (arith, e)
drop-∷ zero (b ∷ l) a r e = ground (arith, e)
drop-∷ (suc i) [] a r e = ground (arith, e)
drop-∷ (suc i) (b ∷ l) a r e = ground (arith, drop-∷ i l a r e)

drop-nil : (i : ℕ) (l : List Bytes) → drop i l ≡ [] → length l ≤ i
drop-nil zero [] e = omega arith
drop-nil zero (b ∷ l) e = ground (arith, e)
drop-nil (suc i) [] e = omega arith
drop-nil (suc i) (b ∷ l) e = omega (arith, drop-nil i l e)

module _ (old cur : List Bytes) where
  rebuild-Walk :
      (os cs : List Marked) (i j : ℕ)
      → lines os ≡ drop i old
      → lines cs ≡ drop j cur
      → i ≤ length old
      → j ≤ length cur
      → unchanged os ≡ unchanged cs
      → Walk old cur (rebuild i j os cs) i j
  unfolding rebuild
  rebuild-Walk [] [] i j eo ec hi hj u =
      (omega (arith, drop-nil i old (sym eo)), omega (arith, drop-nil j cur (sym ec)))
  rebuild-Walk (changed l ∷ os) cs i j eo ec hi hj u =
      let (tail, at_i, lt) = drop-∷ i old l (lines os) (sym eo) in
      ((refl, lt), rebuild-Walk os cs (suc i) j (sym tail) ec (omega arith) hj u)
  rebuild-Walk [] (changed l ∷ cs) i j eo ec hi hj u =
      let (tail, at_j, lt) = drop-∷ j cur l (lines cs) (sym ec) in
      ((refl, lt), rebuild-Walk [] cs i (suc j) eo (sym tail) hi (omega arith) u)
  rebuild-Walk (same k ∷ os) (changed l ∷ cs) i j eo ec hi hj u =
      let (tail, at_j, lt) = drop-∷ j cur l (lines cs) (sym ec) in
      ((refl, lt), rebuild-Walk (same k ∷ os) cs i (suc j) eo (sym tail) hi (omega arith) u)
  rebuild-Walk (same k ∷ os) (same l ∷ cs) i j eo ec hi hj u =
      let (tail_o, at_i, lt_i) = drop-∷ i old k (lines os) (sym eo) in
      let (tail_c, at_j, lt_j) = drop-∷ j cur l (lines cs) (sym ec) in
      (
        (refl, refl, lt_i, lt_j, ground (arith, at_i, at_j, u)),
        rebuild-Walk os cs (suc i) (suc j) (sym tail_o) (sym tail_c) lt_i lt_j (ground (arith, u)),
      )
  rebuild-Walk (same k ∷ os) [] i j eo ec hi hj u = absurd (ground (arith, u))
  rebuild-Walk [] (same l ∷ cs) i j eo ec hi hj u = absurd (ground (arith, u))

  -- No step that is still to come is about a line gone past.
  removed-later :
      (script : List EditStep) (i j k : ℕ)
      → Walk old cur script i j
      → k < i
      → any (removed k) script ≡ false
  removed-later [] i j k w h = refl
  removed-later (s ∷ r) i j k (fits, w) h = go s.kind fits (removed-later r _ _ k w)
    where
      go :
          (o : Op)
          → Fits old cur o s i j
          → (k < old_on o i → any (removed k) r ≡ false)
          → (removes k o s || any (removed k) r) ≡ false
      go equal f ih = ground (arith, f, ih)
      go delete f ih = ground (arith, f, ih)
      go insert f ih = ground (arith, f, ih)

  added-later :
      (script : List EditStep) (i j k : ℕ)
      → Walk old cur script i j
      → k < j
      → any (added k) script ≡ false
  added-later [] i j k w h = refl
  added-later (s ∷ r) i j k (fits, w) h = go s.kind fits (added-later r _ _ k w)
    where
      go :
          (o : Op)
          → Fits old cur o s i j
          → (k < cur_on o j → any (added k) r ≡ false)
          → (adds k o s || any (added k) r) ≡ false
      go equal f ih = ground (arith, f, ih)
      go delete f ih = ground (arith, f, ih)
      go insert f ih = ground (arith, f, ih)

pub drop-all : (i : ℕ) (l : List Bytes) → length l ≤ i → drop i l ≡ []
drop-all zero [] h = refl
drop-all zero (a ∷ l) h = absurd (omega arith)
drop-all (suc i) [] h = refl
drop-all (suc i) (a ∷ l) h = drop-all i l (omega arith)

pub drop-suc :
    (i : ℕ) (l : List Bytes)
    → i < length l
    → (a : Bytes) × (drop i l ≡ a ∷ drop (suc i) l) × (get_elem? l i ≡ some a)
drop-suc i [] h = absurd (omega arith)
drop-suc zero (a ∷ l) h = (a, refl, refl)
drop-suc (suc i) (b ∷ l) h = drop-suc i l (omega arith)

module _ (changes : ℕ → EditStep → Bool) where
  lines-mark_by :
      (script : List EditStep) (i : ℕ) (ls : List Bytes) → lines (mark_by changes script i ls) ≡ ls
  unfolding mark_by
  lines-mark_by script i [] = refl
  lines-mark_by script i (l ∷ ls) = ground (arith, lines-mark_by script (suc i) ls)

  -- A step that is about no line from an index on makes no mark there.
  mark_by-skip :
      (s : EditStep) (r : List EditStep) (i : ℕ) (ls : List Bytes)
      → ((k : ℕ) → i ≤ k → changes k s ≡ false)
      → mark_by changes (s ∷ r) i ls ≡ mark_by changes r i ls
  unfolding mark_by
  mark_by-skip s r i [] h = refl
  mark_by-skip s r i (l ∷ ls) h =
      rw (h i (omega arith)) (rw (mark_by-skip s r (suc i) ls (λ k le. h k (omega arith))) refl)

  mark_by-∷ :
      (s : EditStep) (r : List EditStep) (i : ℕ) (l : Bytes) (ls ls' : List Bytes) (b : Bool)
      → ls' ≡ l ∷ ls
      → changes i s ≡ b
      → any (changes i) r ≡ false
      → ((k : ℕ) → suc i ≤ k → changes k s ≡ false)
      → mark_by changes (s ∷ r) i ls'
        ≡ (if b then changed l else same l) ∷ mark_by changes r (suc i) ls
  unfolding mark_by
  mark_by-∷ s r i l ls ls' b e at later h =
      rw e (rw at (rw later (rw (mark_by-skip s r (suc i) ls h) (ground arith))))

module _ (old cur : List Bytes) where
  -- What is left unmarked on either side of a way is the same.
  unchanged-mark_by :
      (script : List EditStep) (i j : ℕ)
      → Walk old cur script i j
      → unchanged (mark_by removed script i (drop i old))
        ≡ unchanged (mark_by added script j (drop j cur))
  unfolding mark_by
  unchanged-mark_by [] i j (ei, ej) =
      rw (drop-all i old (omega arith)) (rw (drop-all j cur (omega arith)) refl)
  unchanged-mark_by (s ∷ r) i j (fits, w) = go s.kind refl fits w (unchanged-mark_by r _ _ w)
    where
      go :
          (o : Op)
          → s.kind ≡ o
          → Fits old cur o s i j
          → Walk old cur r (old_on o i) (cur_on o j)
          → unchanged (mark_by removed r (old_on o i) (drop (old_on o i) old))
            ≡ unchanged (mark_by added r (cur_on o j) (drop (cur_on o j) cur))
          → unchanged (mark_by removed (s ∷ r) i (drop i old))
            ≡ unchanged (mark_by added (s ∷ r) j (drop j cur))
      go equal e (so, sc, lt_i, lt_j, alike) rest ih =
          let (a, da, ga) = drop-suc i old lt_i in
          let (b, db, gb) = drop-suc j cur lt_j in
          rw
            (mark_by-∷ removed s r i a (drop (suc i) old) (drop i old) false da (rw e refl)
              (removed-later old cur r (suc i) (suc j) i rest (omega arith)) (λ k h. rw e refl))
            (rw
              (mark_by-∷ added s r j b (drop (suc j) cur) (drop j cur) false db (rw e refl)
                (added-later old cur r (suc i) (suc j) j rest (omega arith)) (λ k h. rw e refl))
              (ground (arith, alike, ga, gb, ih)))
      go delete e (so, lt_i) rest ih =
          let (a, da, ga) = drop-suc i old lt_i in
          rw
            (mark_by-∷ removed s r i a (drop (suc i) old) (drop i old) true da
              (rw e (ground (arith, so))) (removed-later old cur r (suc i) j i rest (omega arith))
              (λ k h. rw e (ground (arith, so))))
            (rw (mark_by-skip added s r j (drop j cur) (λ k h. rw e refl)) ih)
      go insert e (sc, lt_j) rest ih =
          let (b, db, gb) = drop-suc j cur lt_j in
          rw
            (mark_by-∷ added s r j b (drop (suc j) cur) (drop j cur) true db
              (rw e (ground (arith, sc))) (added-later old cur r i (suc j) j rest (omega arith))
              (λ k h. rw e (ground (arith, sc))))
            (rw (mark_by-skip removed s r i (drop i old) (λ k h. rw e refl)) ih)

-- Compacting keeps a way through the two texts one: after the runs of changes are slid down and the script
-- is rebuilt, it still leads from the starts of both texts to their ends.
pub compact-Walk :
    (script : List EditStep) (old cur : List Bytes)
    → Walk old cur script 0 0
    → Walk old cur (compact script old cur) 0 0
unfolding compact
compact-Walk script old cur w =
    let (text_old, kept_old, n) = slide-same_change (mark_by removed script 0 old) in
    let (text_cur, kept_cur, m) = slide-same_change (mark_by added script 0 cur) in
    rebuild-Walk old cur _ _ 0 0 (text_old ∙ lines-mark_by removed script 0 old)
      (text_cur ∙ lines-mark_by added script 0 cur) (omega arith) (omega arith)
      (kept_old ∙ unchanged-mark_by old cur script 0 0 w ∙ sym kept_cur)
