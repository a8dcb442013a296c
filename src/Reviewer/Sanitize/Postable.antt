-- ===== src/Reviewer/Sanitize/Postable.antt =====
-- What survives can be posted.
use kibitz.Prelude.{
  ℕ, ◌-◌, ◌≤◌, ◌≡◌, refl, arith, leb, true, false, not, ◌&&◌, List, [], ◌∷◌, any, take, length,
  length-take, length-append, if◌then◌else◌, Bytes, str_eq, is_empty, Each, Each-take, Each-append,
  Option-cases, Bool-cases, inl, inr,
}
use kibitz.Prelude.Int.{ℤ, pos, negsuc, ltb_ℤ, pos_part}
use kibitz.Prelude.Table.{get}
use kibitz.Reviewer.{at_least, OutputComment, Finding}
use kibitz.Reviewer.Positions.{Positions, allows_line}
use kibitz.Reviewer.Sanitize.{
  Limits, Tally, truncate, notice, body_limit, finding_key, finding, too_minor, consider,
  consider_all, no_tally, rank, insert, sort_stable, sanitize,
}

module _ (p : Positions) (limits : Limits) where
  -- A finding on a line of the diff, ending on one where it covers several, serious enough and of a size to post.
  pub record IsPostable (f : Finding) : Type 0 where
    pub in_diff : allows_line p f.path f.line ≡ true
    pub end_in_diff : ltb_ℤ f.line f.end_line ≡ true → allows_line p f.path f.end_line ≡ true
    pub serious :
        is_empty limits.min_severity ≡ false → at_least f.severity limits.min_severity ≡ true
    pub short : length f.body ≤ body_limit limits.max_body_bytes

  truncate-le : (s : Bytes) (limit : ℕ) → length (truncate s limit) ≤ limit
  unfolding truncate
  truncate-le s limit = ground (
    arith,
    length-take limit s,
    length-take (limit - length notice) s,
    length-append (take (limit - length notice) s) notice,
  )

  not_below_zero : (path : Bytes) (n : ℕ) → allows_line p path (negsuc n) ≡ false
  unfolding allows_line
  not_below_zero path n = elim (Option-cases (get path p)) [
    | inl e ↦ rw e refl
    | inr (lines, e) ↦ rw e refl
  ]

  anchor_kept :
      (path : Bytes) (line end : ℤ)
      → allows_line p path line ≡ true
      → ltb_ℤ line (if ltb_ℤ line end && not (allows_line p path end) then pos 0 else end) ≡ true
      → allows_line p path (if ltb_ℤ line end && not (allows_line p path end) then pos 0 else end)
        ≡ true
  anchor_kept path (pos n) end inside beyond = ground arith
  anchor_kept path (negsuc n) end inside beyond =
      absurd (ground (arith, not_below_zero path n, inside))

  finding-IsPostable :
      (c : OutputComment)
      → too_minor limits c ≡ false
      → allows_line p c.path c.line ≡ true
      → IsPostable (finding p limits c)
  finding-IsPostable c minor inside = record {
    in_diff = inside;
    end_in_diff = anchor_kept c.path c.line c.end_line inside;
    serious = ground (arith, minor);
    short = truncate-le _ _;
  }

  consider-IsPostable :
      (c : OutputComment) (t : Tally)
      → Each IsPostable t.candidates
      → Each IsPostable (consider p limits c t).candidates
  unfolding consider
  consider-IsPostable c t h = elim (Bool-cases (too_minor limits c)) [
    | inl minor ↦ rw minor h
    | inr major ↦ rw major (elim (Bool-cases (allows_line p c.path c.line)) [
      | inr outside ↦ rw outside h
      | inl inside ↦
          rw inside (elim (Bool-cases (any (str_eq (finding_key c.path c.line c.title)) t.seen)) [
            | inl again ↦ rw again h
            | inr fresh ↦
                rw fresh
                  (Each-append IsPostable t.candidates _ h (finding-IsPostable c major inside, tt))
          ])
    ])
  ]

  consider_all-IsPostable :
      (cs : List OutputComment) (t : Tally)
      → Each IsPostable t.candidates
      → Each IsPostable (consider_all p limits cs t).candidates
  unfolding consider_all
  consider_all-IsPostable [] t h = h
  consider_all-IsPostable (c ∷ cs) t h =
      consider_all-IsPostable cs (consider p limits c t) (consider-IsPostable c t h)

pub Each-insert :
    (P : Finding → Type 0) (f : Finding) (fs : List Finding)
    → P f
    → Each P fs
    → Each P (insert f fs)
unfolding insert
Each-insert P f [] x h = (x, tt)
Each-insert P f (g ∷ gs) x (y, h) = elim (Bool-cases (leb (rank f) (rank g))) [
  | inl le ↦ rw le (x, (y, h))
  | inr gt ↦ rw gt (y, Each-insert P f gs x h)
]

pub Each-sort_stable :
    (P : Finding → Type 0) (fs : List Finding) → Each P fs → Each P (sort_stable fs)
unfolding sort_stable
Each-sort_stable P [] h = tt
Each-sort_stable P (f ∷ fs) (x, h) = Each-insert P f (sort_stable fs) x (Each-sort_stable P fs h)

-- Every finding that survives can be posted: its line is one of the diff, the last of the lines that it covers
-- too, it is at least as serious as the limit where one is set, and its body is within its size.
pub sanitize-IsPostable :
    (comments : List OutputComment) (p : Positions) (limits : Limits)
    → Each (IsPostable p limits) (sanitize comments p limits).findings
unfolding sanitize
sanitize-IsPostable comments p limits =
    Each-take (IsPostable p limits) (pos_part limits.max_comments) _ (
      Each-sort_stable (IsPostable p limits) _
        (consider_all-IsPostable p limits comments no_tally tt))
