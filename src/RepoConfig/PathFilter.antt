-- ===== src/RepoConfig/PathFilter.antt =====
-- internal/repoconfig/match.go. The regular expression that the source compiles is the list of its fragments, and
-- matching is that of package regexp on paths in UTF-8: "." is no newline, and "[^/]" is one character.
pub mod Literal
use kibitz.Prelude.{
  ℕ, zero, suc, ◌+◌, ◌-◌, ◌/◌, ◌%◌, ◌==◌, ltb, leb, Bool, true, false, not, ◌&&◌, ◌||◌, Option,
  none, some, List, [], ◌∷◌, ◌++◌, map, any, drop, if◌then◌else◌, Bytes, codes, Result, ok, err,
  is_empty, has_prefix, trim_prefix, trim_suffix, trim_space,
}

-- "(?:.*/)?", ".*", "[^/]*", "[^/]" and a quoted text
pub data Token : Type 0 where
  any_dirs any_run segment one : Token
  literal : Bytes → Token

-- `string(c)` of a byte: the character of that number, in UTF-8
abbrev pub string_of_byte : ℕ → Bytes
string_of_byte c = if ltb c 128 then c ∷ [] else (192 + c / 64) ∷ (128 + c % 64) ∷ []

-- The fragment at a byte, and how many bytes after it belong to it.
abbrev pub token_at : ℕ → Bytes → Token × ℕ
token_at c s =
    if c == b'*'
    then (if has_prefix s (codes "*/")
        then (any_dirs, 2)
        else if has_prefix s (codes "*")
        then (any_run, 1)
        else (segment, 0))
    else if c == b'?'
    then (one, 0)
    else (literal (string_of_byte c), 0)

-- The loop of `translate`, with the bytes that are still to be passed over.
unfoldable pub tokens : ℕ → Bytes → List Token
tokens skip [] = []
tokens zero (c ∷ s) = (token_at c s).0 ∷ tokens (token_at c s).1 s
tokens (suc skip) (c ∷ s) = tokens skip s

unfoldable pub translate : Bytes → List Token
unfolding tokens
translate pattern =
    if has_prefix pattern (codes "**/")
    then any_dirs ∷ tokens 0 (drop 3 pattern)
    else tokens 0 pattern

-- "(?:/.*)?$"
abbrev pub without_newline : Bytes → Bool
without_newline s = not (any (λ c. c == 10) s)

abbrev pub ends : Bytes → Bool
ends [] = true
ends (c ∷ s) = c == b'/' && without_newline s

abbrev pub star : (ℕ → Bool) → (Bytes → Bool) → Bytes → Bool
star in_class rest [] = rest []
star in_class rest (c ∷ s) = rest (c ∷ s) || in_class c && star in_class rest s

abbrev pub dirs : (Bytes → Bool) → Bytes → Bool
dirs rest [] = false
dirs rest (c ∷ s) = c == b'/' && rest s || not (c == 10) && dirs rest s

-- What is left of a character after its first byte
abbrev pub rest_of_char : Bytes → Bytes
rest_of_char [] = []
rest_of_char (c ∷ s) = if leb 128 c && ltb c 192 then rest_of_char s else c ∷ s

abbrev pub match_text : Bytes → (Bytes → Bool) → Bytes → Bool
match_text [] rest s = rest s
match_text (b ∷ bs) rest [] = false
match_text (b ∷ bs) rest (c ∷ s) = b == c && match_text bs rest s

abbrev pub match_one : (Bytes → Bool) → Bytes → Bool
match_one rest [] = false
match_one rest (c ∷ s) = not (c == b'/') && rest (rest_of_char s)

abbrev pub match_token : Token → (Bytes → Bool) → Bytes → Bool
match_token any_dirs rest s = rest s || dirs rest s
match_token any_run rest s = star (λ c. not (c == 10)) rest s
match_token segment rest s = star (λ c. not (c == b'/')) rest s
match_token one rest s = match_one rest s
match_token (literal bs) rest s = match_text bs rest s

unfoldable pub tokens_match : List Token → Bytes → Bool
tokens_match [] s = ends s
tokens_match (t ∷ ts) s = match_token t (tokens_match ts) s

pub data PatternFault : Type 0 where
  empty_pattern absolute only_separators : PatternFault

unfoldable pub valid_pattern : Bytes → Option PatternFault
valid_pattern pattern =
    if is_empty (trim_space pattern)
    then some empty_pattern
    else if has_prefix pattern (codes "/")
    then some absolute
    else if is_empty (trim_suffix pattern (codes "/"))
    then some only_separators
    else none

-- A filter of no patterns is the source's nil.
pub record Filter : Type 0 where
  pub patterns : List Bytes
  pub branches : List (List Token)

abbrev pub no_filter : Filter
no_filter = record { patterns = []; branches = [] }

abbrev pub add_pattern :
    Bytes → Option PatternFault → Result PatternFault Filter → Result PatternFault Filter
add_pattern pattern (some fault) rest = err fault
add_pattern pattern none (err fault) = err fault
add_pattern pattern none (ok f) = ok (record {
  patterns = pattern ∷ f.patterns;
  branches = translate (trim_suffix pattern (codes "/")) ∷ f.branches;
})

-- `NewPathFilter`
unfoldable pub new_path_filter : List Bytes → Result PatternFault Filter
new_path_filter [] = ok no_filter
new_path_filter (p ∷ ps) =
    let rest = new_path_filter ps in
    let pattern = trim_space p in
    if is_empty pattern then rest else add_pattern pattern (valid_pattern pattern) rest

-- `PathFilter.Match`
unfoldable pub covers : Filter → Bytes → Bool
covers f path = any (λ ts. tokens_match ts (trim_prefix path (codes "./"))) f.branches
