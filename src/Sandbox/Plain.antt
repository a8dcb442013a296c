-- ===== src/Sandbox/Plain.antt =====
-- What the words of parsed commands hold.
use kibitz.Prelude.{
  ℕ, ◌≤◌, ◌≡◌, refl, Bool, true, false, not, List, [], ◌∷◌, length, is_empty, any, Bytes, contains,
  is_space, fields_from, Each,
}
use kibitz.Sandbox.{shell_tokens}

abbrev pub head_part : List Bytes → Bytes
head_part [] = []
head_part (p ∷ ps) = p

abbrev pub tail_parts : List Bytes → List Bytes
tail_parts [] = []
tail_parts (p ∷ ps) = ps

abbrev pub Lacks : Bytes → Bytes → Type 0
Lacks t s = contains s t ≡ false

fields_from-blank :
    (c : ℕ) (s : Bytes) → is_space c ≡ true → fields_from (c ∷ s) ≡ [] ∷ fields_from s
fields_from-blank c s h = rw h refl

-- A word that holds none of the tokens.
abbrev pub LacksAll : List Bytes → Bytes → Type 0
LacksAll ts w = Each (λ t. Lacks t w) ts

abbrev pub IsWord : List Bytes → Bytes → Type 0
IsWord ts w = (is_empty w ≡ false) × LacksAll ts w

-- Blank or not
abbrev solid : Bytes → Bool
solid s = any (λ c. not (is_space c)) s

-- A command as it is run: at least one word, and each word has no token in it that only a shell would read.
abbrev pub IsPlain : List Bytes → Type 0
IsPlain argv = (is_empty argv ≡ false) × Each (IsWord shell_tokens) argv

-- What a list of commands comes to, of at most as many as were written.
abbrev PlainUpTo : ℕ → List (List Bytes) → Type 0
PlainUpTo n out = Each IsPlain out × (length out ≤ n)
