-- ===== src/TextDiff/Rebase/Whole.antt =====
-- The script of the whole file is a way through both versions of it.
use kibitz.Prelude.{
  ℕ, zero, suc, ◌+◌, ◌-◌, ◌≤◌, ◌<◌, ◌≡◌, refl, sym, subst, ◌∙◌, arith, some, List, [], ◌∷◌, ◌++◌,
  map, reverse, reverse-cons, append-nil, Bytes, length, take, drop, get_elem?, length-append,
  length-take, length-drop,
}
use kibitz.TextDiff.Lines.{common_prefix, common_suffix}
use kibitz.TextDiff.Script.{Op, equal, delete, insert, EditStep, run, diff_lines}
use kibitz.TextDiff.Script.Walks.{
  Fits, Walk, old_on, cur_on, Alike, run-Walk, common_prefix-get_elem?, common_prefix-le,
  get_elem?-drop,
}
use kibitz.TextDiff.Script.Sound.{diff_lines-Walk}
use kibitz.TextDiff.Compact.Rebuilt.{compact-Walk}
use kibitz.TextDiff.Rebase.{shift, rebase, slice, suffix_of, edit_script}

length-reverse : (l : List Bytes) → length (reverse l) ≡ length l
length-reverse [] = refl
length-reverse (x ∷ l) =
    rw (reverse-cons x l) (omega (arith, length-append (reverse l) (x ∷ []), length-reverse l))

get_elem?-append_left :
    (k : ℕ) (xs ys : List Bytes) → k < length xs → get_elem? (xs ++ ys) k ≡ get_elem? xs k
get_elem?-append_left k [] ys h = absurd (omega arith)
get_elem?-append_left zero (x ∷ xs) ys h = refl
get_elem?-append_left (suc k) (x ∷ xs) ys h = get_elem?-append_left k xs ys (omega arith)

get_elem?-append_last :
    (k : ℕ) (xs : List Bytes) (y : Bytes) → k ≡ length xs → get_elem? (xs ++ y ∷ []) k ≡ some y
get_elem?-append_last zero [] y h = refl
get_elem?-append_last (suc k) [] y h = absurd (omega arith)
get_elem?-append_last zero (x ∷ xs) y h = absurd (omega arith)
get_elem?-append_last (suc k) (x ∷ xs) y h = get_elem?-append_last k xs y (omega arith)

-- The line at an index from the end.
get_elem?-reverse :
    (l : List Bytes) (i k : ℕ) → i + suc k ≡ length l → get_elem? (reverse l) k ≡ get_elem? l i
get_elem?-reverse [] i k h = absurd (omega arith)
get_elem?-reverse (x ∷ l) zero k h =
    rw (reverse-cons x l) (get_elem?-append_last k (reverse l) x (omega (arith, length-reverse l)))
get_elem?-reverse (x ∷ l) (suc i) k h = rw (reverse-cons x l) (
    get_elem?-append_left k (reverse l) (x ∷ []) (omega (arith, length-reverse l))
    ∙ get_elem?-reverse l i k (omega arith))

common_suffix-le :
    (a b : List Bytes) → (common_suffix a b ≤ length a) × (common_suffix a b ≤ length b)
unfolding common_suffix
common_suffix-le a b =
    omega (arith, common_prefix-le (reverse a) (reverse b), length-reverse a, length-reverse b)

common_suffix-get_elem? :
    (a b : List Bytes) (k i j : ℕ)
    → k < common_suffix a b
    → i + suc k ≡ length a
    → j + suc k ≡ length b
    → get_elem? a i ≡ get_elem? b j
unfolding common_suffix
common_suffix-get_elem? a b k i j h ei ej =
    sym (get_elem?-reverse a i k ei)
    ∙ common_prefix-get_elem? (reverse a) (reverse b) k h
    ∙ get_elem?-reverse b j k ej

get_elem?-take : (n k : ℕ) (l : List Bytes) → k < n → get_elem? (take n l) k ≡ get_elem? l k
get_elem?-take zero k l h = absurd (omega arith)
get_elem?-take (suc n) k [] h = refl
get_elem?-take (suc n) zero (x ∷ l) h = refl
get_elem?-take (suc n) (suc k) (x ∷ l) h = get_elem?-take n k l (omega arith)

-- A part of a text, and where it stands in it.
abbrev Within : List Bytes → ℕ → List Bytes → Type 0
Within part p l =
    (p + length part ≤ length l)
    × ((k : ℕ) → k < length part → get_elem? part k ≡ get_elem? l (p + k))

slice-Within : (l : List Bytes) (p to : ℕ) → p ≤ to → to ≤ length l → Within (slice l p to) p l
slice-Within l p to h le = (
  omega (arith, length-take (to - p) (drop p l), length-drop p l),
  λ k lt.
      get_elem?-take (to - p) k (drop p l) (omega (arith, length-take (to - p) (drop p l)))
      ∙ get_elem?-drop p k l,
)

module _ (mid_old mid_cur old cur : List Bytes) (p : ℕ) (in_old : Within mid_old p old)
    (in_cur : Within mid_cur p cur) where
  shift-Walk :
      (script after : List EditStep) (i j i' j' : ℕ)
      → Walk mid_old mid_cur script i j
      → i' ≡ p + i
      → j' ≡ p + j
      → Walk old cur after (p + length mid_old) (p + length mid_cur)
      → Walk old cur (map (shift p) script ++ after) i' j'
  shift-Walk [] after i j i' j' (ei, ej) fi fj w = rw fi (rw fj (rw ei (rw ej w)))
  shift-Walk (s ∷ r) after i j i' j' (fits, rest) fi fj w =
      go s.kind fits
        (λ x y ex ey. shift-Walk r after (old_on s.kind i) (cur_on s.kind j) x y rest ex ey w)
    where
      go :
          (o : Op)
          → Fits mid_old mid_cur o s i j
          → ((x y : ℕ)
              → x ≡ p + old_on o i
              → y ≡ p + cur_on o j
              → Walk old cur (map (shift p) r ++ after) x y)
          → Fits old cur o (shift p s) i' j'
            × Walk old cur (map (shift p) r ++ after) (old_on o i') (cur_on o j')
      go equal (so, sc, lt_i, lt_j, alike) ih = (
        (
          omega arith,
          omega arith,
          omega (arith, in_old.0),
          omega (arith, in_cur.0),
          rw fi (rw fj (sym (in_old.1 i lt_i) ∙ alike ∙ in_cur.1 j lt_j)),
        ),
        ih _ _ (omega arith) (omega arith),
      )
      go delete (so, lt_i) ih =
          ((omega arith, omega (arith, in_old.0)), ih _ _ (omega arith) (omega arith))
      go insert (sc, lt_j) ih =
          ((omega arith, omega (arith, in_cur.0)), ih _ _ (omega arith) (omega arith))

module _ (old cur : List Bytes) (max_edits : ℕ) where
  suffix_of-le :
      (suffix_of old cur + common_prefix old cur ≤ length old)
      × (suffix_of old cur + common_prefix old cur ≤ length cur)
  unfolding suffix_of
  suffix_of-le =
      let p = common_prefix old cur in
      omega (
        arith,
        common_prefix-le old cur,
        common_suffix-le (drop p old) (drop p cur),
        length-drop p old,
        length-drop p cur,
      )

  suffix_of-Alike :
      Alike old cur
        (suffix_of old cur)
        (length old - suffix_of old cur)
        (length cur - suffix_of old cur)
  unfolding suffix_of
  suffix_of-Alike k h =
      let p = common_prefix old cur in
      let s = suffix_of old cur in
      let i = length old - p - s + k in
      let j = length cur - p - s + k in
      let place_i : p + i ≡ length old - s + k = omega (arith, suffix_of-le) in
      let place_j : p + j ≡ length cur - s + k = omega (arith, suffix_of-le) in
      subst (λ x. get_elem? old x ≡ get_elem? cur (length cur - s + k)) place_i
        (subst (λ y. get_elem? old (p + i) ≡ get_elem? cur y) place_j
          (sym (get_elem?-drop p i old)
            ∙ common_suffix-get_elem? (drop p old) (drop p cur) (s - suc k) i j
                (omega (arith, suffix_of-le)) (omega (arith, suffix_of-le, length-drop p old))
                (omega (arith, suffix_of-le, length-drop p cur))
            ∙ get_elem?-drop p j cur))

  -- The whole edit script, searched for between the ends that the two versions share, put back among them and
  -- compacted, leads from the starts of both versions to their ends.
  pub edit_script-Walk : Walk old cur (edit_script old cur max_edits) 0 0
  unfolding edit_script rebase
  edit_script-Walk =
      let p = common_prefix old cur in
      let s = suffix_of old cur in
      let n = length old in
      let m = length cur in
      let mid_old = slice old p (n - s) in
      let mid_cur = slice cur p (m - s) in
      let in_old = slice-Within old p (n - s) (omega (arith, suffix_of-le)) (omega arith) in
      let in_cur = slice-Within cur p (m - s) (omega (arith, suffix_of-le)) (omega arith) in
      let tail = run s (n - s) (m - s) in
      let last : Walk old cur (tail ++ []) (n - s) (m - s) =
        run-Walk old cur s (n - s) (m - s) n m [] suffix_of-Alike (omega (arith, suffix_of-le))
          (omega (arith, suffix_of-le)) (omega arith) (omega arith) (refl, refl) in
      let end_old : p + length mid_old ≡ n - s =
        omega (arith, suffix_of-le, length-take (n - s - p) (drop p old), length-drop p old) in
      let end_cur : p + length mid_cur ≡ m - s =
        omega (arith, suffix_of-le, length-take (m - s - p) (drop p cur), length-drop p cur) in
      compact-Walk _ old cur (
        run-Walk old cur p 0 0 p p _ (λ k h. ground (arith, common_prefix-get_elem? old cur k))
          (omega arith) (omega arith) (omega (arith, suffix_of-le)) (omega (arith, suffix_of-le))
          (shift-Walk mid_old mid_cur old cur p in_old in_cur
            (diff_lines mid_old mid_cur max_edits).0 tail 0 0 p p
            (diff_lines-Walk mid_old mid_cur max_edits) (omega arith) (omega arith)
            (rw end_old
              (rw end_cur (subst (λ t. Walk old cur t (n - s) (m - s)) (append-nil tail) last)))))
