-- ===== src/TextDiff/Lines.antt =====
-- `splitLines`, `commonPrefix`, `commonSuffix` and `isBinary` of internal/textdiff/hunks.go.
use kibitz.Prelude.{
  ℕ, suc, ◌==◌, Bool, List, [], ◌∷◌, reverse, any, take, if◌then◌else◌, Bytes, push_byte, str_eq,
}

abbrev pub newline : ℕ
newline = 10

-- `splitLines`: every line keeps its newline.
unfoldable pub split_lines : Bytes → List Bytes
split_lines [] = []
split_lines (c ∷ s) =
    let rest = split_lines s in if c == newline then (c ∷ []) ∷ rest else push_byte c rest

-- `commonPrefix`
unfoldable pub common_prefix : List Bytes → List Bytes → ℕ
common_prefix [] b = 0
common_prefix (x ∷ a) [] = 0
common_prefix (x ∷ a) (y ∷ b) = let n = common_prefix a b in if str_eq x y then suc n else 0

-- `commonSuffix`
unfoldable pub common_suffix : List Bytes → List Bytes → ℕ
unfolding common_prefix
common_suffix a b = common_prefix (reverse a) (reverse b)

-- `isBinary`: a NUL byte among the first `sniffBytes`.
unfoldable pub is_binary : Bytes → Bool
is_binary content = any (λ b. b == 0) (take 8000 content)
