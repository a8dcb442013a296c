-- ===== src/Reviewer/Output.antt =====
-- `ParseOutput` of internal/reviewer/output.go, on the struct that json.Unmarshal fills. An error is the case of
-- its message, with the comment's index.
pub mod Accepted
use kibitz.Prelude.{
  ℕ, suc, ◌==◌, Bool, true, false, not, ◌&&◌, Option, none, some, List, [], ◌∷◌, if◌then◌else◌,
  Bytes, Result, ok, err, is_empty, to_lower, trim_space,
}
use kibitz.Prelude.Int.{ℤ, pos, ltb_ℤ, leb_ℤ}
use kibitz.Reviewer.{known_severity, OutputComment, Document}

pub data CommentFault : Type 0 where
  empty_path line_not_positive end_before_line empty_body unknown_severity : CommentFault

pub data OutputFault : Type 0 where
  wrong_version empty_summary : OutputFault
  in_comment : ℕ → CommentFault → OutputFault

abbrev pub is_zero : ℤ → Bool
is_zero z = leb_ℤ z (pos 0) && leb_ℤ (pos 0) z

unfoldable pub comment_fault : OutputComment → Option CommentFault
comment_fault c =
    if is_empty (trim_space c.path)
    then some empty_path
    else if leb_ℤ c.line (pos 0)
    then some line_not_positive
    else if not (is_zero c.end_line) && ltb_ℤ c.end_line c.line
    then some end_before_line
    else if is_empty (trim_space c.body)
    then some empty_body
    else if not (known_severity (to_lower c.severity))
    then some unknown_severity
    else none

abbrev pub fault_at : ℕ → Option CommentFault → Option OutputFault → Option OutputFault
fault_at i none later = later
fault_at i (some fault) later = some (in_comment i fault)

unfoldable pub comments_fault : ℕ → List OutputComment → Option OutputFault
comments_fault i [] = none
comments_fault i (c ∷ cs) = fault_at i (comment_fault c) (comments_fault (suc i) cs)

abbrev pub checked : Document → Option OutputFault → Result OutputFault Document
checked out none = ok out
checked out (some fault) = err fault

unfoldable pub parse_output : Document → Result OutputFault Document
parse_output out =
    if not (leb_ℤ out.schema_version (pos 1) && leb_ℤ (pos 1) out.schema_version)
    then err wrong_version
    else if is_empty (trim_space out.summary)
    then err empty_summary
    else checked out (comments_fault 0 out.comments)
