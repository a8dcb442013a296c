-- ===== src/Reviewer/Sanitize.antt =====
-- `Sanitize` and `truncate` of internal/reviewer/output.go. sort.SliceStable is insertion from the right, which is
-- stable. A set of keys is the list of those seen.
pub mod Postable
pub mod Counted
pub mod Ranked
use kibitz.Prelude.{
  ℕ, zero, suc, ◌+◌, ◌-◌, ◌==◌, ltb, leb, Bool, true, false, not, ◌&&◌, Option, none, some, List,
  [], ◌∷◌, ◌++◌, any, take, drop, length, if◌then◌else◌, Bytes, codes, str_eq, to_lower, trim_space,
  is_empty,
}
use kibitz.Prelude.Int.{ℤ, pos, negsuc, pos_part, ltb_ℤ}
use kibitz.Prelude.Decimal.{format_int}
use kibitz.Reviewer.{severity_rank, at_least, OutputComment, Finding}
use kibitz.Reviewer.Positions.{Positions, allows_line}

pub record Limits : Type 0 where
  pub max_comments : ℤ
  pub min_severity : Bytes
  pub max_body_bytes : ℤ

pub record Tally : Type 0 where
  pub seen : List Bytes
  pub candidates : List Finding
  pub out_of_diff : ℕ
  pub below_severity : ℕ
  pub duplicate : ℕ

-- "\n\n…(truncated)", in bytes
abbrev pub notice : Bytes
notice = 10 ∷ 10 ∷ 226 ∷ 128 ∷ 166 ∷ codes "(truncated)"

unfoldable pub truncate : Bytes → ℕ → Bytes
truncate s limit =
    if leb (length s) limit
    then s
    else if leb limit (length notice)
    then take limit s
    else take (limit - length notice) s ++ notice

abbrev pub body_limit : ℤ → ℕ
body_limit n = if pos_part n == 0 then 4000 else pos_part n

-- `fmt.Sprintf("%s:%d:%s", …)`
unfoldable pub finding_key : Bytes → ℤ → Bytes → Bytes
finding_key path line title = path ++ b':' ∷ format_int line ++ b':' ∷ to_lower (trim_space title)

abbrev pub anchored : Positions → OutputComment → ℤ
anchored p c =
    if ltb_ℤ c.line c.end_line && not (allows_line p c.path c.end_line) then pos 0 else c.end_line

abbrev pub finding : Positions → Limits → OutputComment → Finding
finding p limits c = record {
  path = c.path;
  line = c.line;
  end_line = anchored p c;
  severity = to_lower c.severity;
  category = c.category;
  title = trim_space c.title;
  body = truncate (trim_space c.body) (body_limit limits.max_body_bytes);
  suggestion = c.suggestion;
}

abbrev pub too_minor : Limits → OutputComment → Bool
too_minor limits c =
    not (is_empty limits.min_severity) && not (at_least (to_lower c.severity) limits.min_severity)

-- One round of the loop over the comments.
unfoldable pub consider : Positions → Limits → OutputComment → Tally → Tally
consider p limits c t =
    if too_minor limits c
    then record {
      seen = t.seen;
      candidates = t.candidates;
      out_of_diff = t.out_of_diff;
      below_severity = suc t.below_severity;
      duplicate = t.duplicate;
    }
    else if not (allows_line p c.path c.line)
    then record {
      seen = t.seen;
      candidates = t.candidates;
      out_of_diff = suc t.out_of_diff;
      below_severity = t.below_severity;
      duplicate = t.duplicate;
    }
    else if any (str_eq (finding_key c.path c.line c.title)) t.seen
    then record {
      seen = t.seen;
      candidates = t.candidates;
      out_of_diff = t.out_of_diff;
      below_severity = t.below_severity;
      duplicate = suc t.duplicate;
    }
    else record {
      seen = finding_key c.path c.line c.title ∷ t.seen;
      candidates = t.candidates ++ finding p limits c ∷ [];
      out_of_diff = t.out_of_diff;
      below_severity = t.below_severity;
      duplicate = t.duplicate;
    }

unfoldable pub consider_all : Positions → Limits → List OutputComment → Tally → Tally
consider_all p limits [] t = t
consider_all p limits (c ∷ cs) t = consider_all p limits cs (consider p limits c t)

abbrev pub no_tally : Tally
no_tally = record { seen = []; candidates = []; out_of_diff = 0; below_severity = 0; duplicate = 0 }

-- A severity that the map does not hold reads as 0.
abbrev pub rank_or_zero : Option ℕ → ℕ
rank_or_zero none = 0
rank_or_zero (some r) = r

abbrev pub rank : Finding → ℕ
rank f = rank_or_zero (severity_rank f.severity)

unfoldable pub insert : Finding → List Finding → List Finding
insert f [] = f ∷ []
insert f (g ∷ gs) =
    let later = insert f gs in if leb (rank f) (rank g) then f ∷ g ∷ gs else g ∷ later

unfoldable pub sort_stable : List Finding → List Finding
unfolding insert
sort_stable [] = []
sort_stable (f ∷ fs) = insert f (sort_stable fs)

pub record Sanitized : Type 0 where
  pub findings : List Finding
  pub out_of_diff : ℕ
  pub below_severity : ℕ
  pub duplicate : ℕ
  pub excess : ℕ

-- `Dropped`
abbrev pub total_dropped : Sanitized → ℕ
total_dropped s = s.out_of_diff + s.below_severity + s.duplicate + s.excess

abbrev pub capped : ℕ → Tally → Sanitized
capped cap t =
    let sorted = sort_stable t.candidates in
    record {
      findings = take cap sorted;
      out_of_diff = t.out_of_diff;
      below_severity = t.below_severity;
      duplicate = t.duplicate;
      excess = length sorted - cap;
    }

-- `Sanitize`: a cap below zero is one of zero, and a missing output has no comments.
unfoldable pub sanitize : List OutputComment → Positions → Limits → Sanitized
sanitize comments p limits =
    capped (pos_part limits.max_comments) (consider_all p limits comments no_tally)
