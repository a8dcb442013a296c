-- ===== src/Reviewer/Tests.antt =====
-- An agent's output checked and made postable, and the lines of a patch that take a comment.
use kibitz.Prelude.{
  ◌⊎◌, ℕ, ◌+◌, ◌≤◌, ◌==◌, ◌≡◌, ◌↔◌, refl, true, false, any, some, List, [], ◌∷◌, ◌++◌, drop, take,
  length, get_elem?, Bytes, codes, split, ok, err, Each, arith,
}
use kibitz.Prelude.Int.{pos, pos_part}
use kibitz.TextDiff.Lines.{newline}
use kibitz.Reviewer.{OutputComment, Document, Finding}
use kibitz.Reviewer.Positions.{
  Raw, new_side, old_side, classify, Positions, commentable_lines, add_files, FileDiff, FileDiff,
  add_files, allows_line, parse_hunk_start,
}
use kibitz.Reviewer.Positions.Hunks.{PatchHunk}
use kibitz.Reviewer.Output.{parse_output}
use kibitz.Reviewer.Output.Accepted.{MeetsContract, parse_output_iff}
use kibitz.Reviewer.Sanitize.{
  Limits, no_tally, consider_all, rank, sort_stable, total_dropped, sanitize,
}
use kibitz.Reviewer.Sanitize.Postable.{IsPostable, sanitize-IsPostable}
use kibitz.Reviewer.Sanitize.Ranked.{AllRanked, AllDistinct, sanitize-AllRanked}

abbrev line : Bytes → Bytes
line s = s ++ newline ∷ []

-- One line replaced, as the forges send a patch: with no newline at its end.
abbrev patch : Bytes
patch = line (codes "@@ -1,2 +1,2 @@") ++ line (codes " a") ++ line (codes "-b") ++ codes "+c"

patch_lines : commentable_lines patch ≡ 1 ∷ 2 ∷ []
unfolding commentable_lines
patch_lines = refl

-- A patch that ends with a newline, as internal/textdiff writes it, has one more line, which is empty and reads as
-- a line of context: the line after the last is taken for one of the diff.
past_the_end : commentable_lines (line patch) ≡ 1 ∷ 2 ∷ 3 ∷ []
unfolding commentable_lines
past_the_end = refl

abbrev hunks : List PatchHunk
hunks = record { start = 1; body = new_side ∷ old_side ∷ new_side ∷ [] } ∷ []

abbrev positions : Positions
positions = (codes "a.go", 1 ∷ 2 ∷ []) ∷ []

abbrev comment : Bytes → ℕ → Bytes → Bytes → OutputComment
comment path n severity title = record {
  path = path;
  line = pos n;
  end_line = pos 0;
  severity = severity;
  category = [];
  title = title;
  body = codes "why";
  suggestion = [];
}

-- A minor one, one twice, one off the diff and a serious one.
abbrev comments : List OutputComment
comments =
    comment (codes "a.go") 1 (codes "low") (codes "Leak")
    ∷ comment (codes "a.go") 1 (codes "high") (codes " leak")
    ∷ comment (codes "a.go") 7 (codes "high") (codes "Race")
    ∷ comment (codes "a.go") 2 (codes "Critical") (codes "Crash")
    ∷ comment (codes "a.go") 2 (codes "info") (codes "Name")
    ∷ []

abbrev limits : Limits
limits = record { max_comments = pos 1; min_severity = codes "low"; max_body_bytes = pos 0 }

dropped_run : total_dropped (sanitize comments positions limits) ≡ 4
unfolding sanitize consider_all kibitz.Reviewer.Sanitize.consider kibitz.Reviewer.severity_rank
    kibitz.Reviewer.Positions.allows_line kibitz.Prelude.Table.get
    kibitz.Reviewer.Sanitize.finding_key kibitz.Prelude.Decimal.format_int sort_stable
dropped_run = refl

sanitize-IsPostable_example :
    Each (IsPostable positions limits) (sanitize comments positions limits).findings
sanitize-IsPostable_example = sanitize-IsPostable comments positions limits

sanitize-AllRanked_example :
    AllRanked (sanitize comments positions limits).findings
    × AllDistinct (sanitize comments positions limits).findings
    × Each
        (λ f.
          Each
            (λ g. rank f ≤ rank g)
            (drop
              (pos_part limits.max_comments)
              (sort_stable (consider_all positions limits comments no_tally).candidates)))
        (sanitize comments positions limits).findings
sanitize-AllRanked_example = sanitize-AllRanked comments positions limits

abbrev written : Document
written = record {
  schema_version = pos 1;
  summary = codes "two things";
  comments =
      comment (codes "a.go") 1 (codes "high") (codes "Leak")
      ∷ comment (codes "a.go") 2 (codes "fatal") (codes "Crash")
      ∷ [];
}

parse_output_iff_example : (parse_output written ≡ ok written) ↔ MeetsContract written
parse_output_iff_example = parse_output_iff written

abbrev changed_files : List FileDiff
changed_files =
    record { path = codes "a.go"; patch = patch }
    ∷ record { path = codes "logo.png"; patch = [] }
    ∷ []

-- A file with no patch has no lines.
allows_run :
    (allows_line (add_files [] changed_files) (codes "a.go") (pos 2) ≡ true)
    × (allows_line (add_files [] changed_files) (codes "a.go") (pos 3) ≡ false)
    × (allows_line (add_files [] changed_files) (codes "logo.png") (pos 1) ≡ false)
unfolding add_files allows_line kibitz.Prelude.Table.get kibitz.Prelude.Table.put
allows_run = (refl, refl, refl)
