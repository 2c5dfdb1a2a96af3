-- ===== src/Path.antt =====
-- Paths as texts of non-zero bytes, and their tokens: `strtok` with the delimiter "/", and
-- `tokenise` of fs5600.c.
pub mod Tokens
pub mod Trailing
use unix_like_file_system.Base.{
  ℕ, zero, suc, ◌+◌, Option, none, some, List, [], ◌∷◌, ◌==◌, length, if◌then◌else◌,
}

abbrev pub Text : Type 0
Text = List ℕ

abbrev pub slash : ℕ
slash = b'/'

-- What is left behind the delimiters that a text begins with.
unfoldable pub skip : Text → Text
skip [] = []
skip (c ∷ s) = if c == slash then skip s else c ∷ s

-- The bytes in front of the next delimiter, and what follows that delimiter.
unfoldable pub word : Text → Text × Text
word [] = ([], [])
word (c ∷ s) = let (w, r) = word s in if c == slash then ([], s) else (c ∷ w, r)

-- One call of `strtok`: a token and the text at which the next call goes on.
unfoldable pub strtok : Text → Option (Text × Text)
strtok s = elim (skip s) [ [] ↦ none | c ∷ t ↦ some (word (c ∷ t)) ]

-- The loop of `tokenise`. A token takes at least one byte, so `length s + 1` rounds are enough.
unfoldable pub tokens : ℕ → Text → List Text
tokens zero s = []
tokens (suc fuel) s = elim (strtok s) [ none ↦ [] | some (w, r) ↦ w ∷ tokens fuel r ]

unfoldable pub tokenise : Text → List Text
tokenise s = tokens (length s + 1) s
