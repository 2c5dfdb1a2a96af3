-- ===== src/Path/Tokens.antt =====
-- What `strtok` and `tokenise` return, and the text that a list of names is written as.
use unix_like_file_system.Base.{
  ℕ, zero, suc, ◌+◌, ◌≤◌, ◌<◌, ◌≡◌, refl, sym, ap, ◌∙◌, inl, inr, true, false, Option, none, some,
  List, [], ◌∷◌, ◌++◌, ◌==◌, length, length-append, arith, Bool-cases, Option-cases,
}
use mathlib.Core.Path.{subst}
use unix_like_file_system.Path.{Text, slash, skip, word, strtok, tokens, tokenise}

abbrev pub NoSlash : Text → Type 0
NoSlash [] = Unit
NoSlash (c ∷ s) = ((c == slash) ≡ false) × NoSlash s

-- A component of a path: not empty, and without a slash.
abbrev pub IsName : Text → Type 0
IsName [] = ⊥
IsName (c ∷ s) = NoSlash (c ∷ s)

abbrev pub AllNames : List Text → Type 0
AllNames [] = Unit
AllNames (t ∷ ts) = IsName t × AllNames ts

-- The names with a slash in front of each, and the same without the first slash.
abbrev pub slashed : List Text → Text
slashed [] = []
slashed (t ∷ ts) = slash ∷ (t ++ slashed ts)

abbrev pub joined : List Text → Text
joined [] = []
joined (t ∷ ts) = t ++ slashed ts

abbrev pub behind : Text → Text
behind [] = []
behind (c ∷ s) = s

word-append :
    (t : Text) (ts : List Text) → NoSlash t → word (t ++ slashed ts) ≡ (t, behind (slashed ts))
unfolding word
word-append [] [] h = refl
word-append [] (u ∷ us) h = refl
word-append (c ∷ t) ts h = rw (h.0, word-append t ts h.1)

behind-slashed : (ts : List Text) → behind (slashed ts) ≡ joined ts
behind-slashed [] = refl
behind-slashed (t ∷ ts) = refl

pub skip-name : (c : ℕ) (s : Text) → (c == slash) ≡ false → skip (c ∷ s) ≡ c ∷ s
unfolding skip
skip-name c s h = rw h

pub strtok-skip : (c : ℕ) (s t : Text) → skip s ≡ c ∷ t → strtok s ≡ some (word (c ∷ t))
unfolding strtok
strtok-skip c s t e = rw (e, strtok)

-- One call of `strtok` takes the first name off.
strtok-append :
    (t : Text) (ts : List Text) → IsName t → strtok (t ++ slashed ts) ≡ some (t, joined ts)
strtok-append [] ts h = absurd h
strtok-append (c ∷ t) ts h =
    strtok-skip c _ (t ++ slashed ts) (skip-name c _ h.0)
    ∙ ap some (word-append (c ∷ t) ts h ∙ ap (λ s. (c ∷ t, s)) (behind-slashed ts))

pub tokens-some :
    (fuel : ℕ) (s w r : Text) → strtok s ≡ some (w, r) → tokens (suc fuel) s ≡ w ∷ tokens fuel r
unfolding tokens
tokens-some fuel s w r e = rw (e, tokens)

joined-le : (ts : List Text) → length (joined ts) ≤ length (slashed ts)
joined-le [] = omega arith
joined-le (t ∷ ts) = omega arith

-- Any number of rounds above the length of the text takes it apart.
tokens-joined :
    (fuel : ℕ) (ts : List Text)
    → AllNames ts
    → length (joined ts) < fuel
    → tokens fuel (joined ts) ≡ ts
tokens-joined zero ts h lt = absurd (omega arith)
tokens-joined (suc fuel) [] h lt = unfold tokens strtok skip in refl
tokens-joined (suc fuel) ([] ∷ ts) h lt = absurd h.0
tokens-joined (suc fuel) ((c ∷ t) ∷ ts) h lt =
    tokens-some fuel _ (c ∷ t) (joined ts) (strtok-append (c ∷ t) ts h.0)
    ∙ ap (λ us. (c ∷ t) ∷ us)
        (tokens-joined fuel ts h.1 (omega (arith, length-append t (slashed ts), joined-le ts)))

-- Writing names with a slash between them and cutting the text by `tokenise` gives them back.
pub tokenise-joined : (ts : List Text) → AllNames ts → tokenise (joined ts) ≡ ts
unfolding tokenise
tokenise-joined ts h = tokens-joined (length (joined ts) + 1) ts h (omega arith)

NoSlash-word : (s : Text) → NoSlash (word s).0
unfolding word
NoSlash-word [] = tt
NoSlash-word (c ∷ s) = ground (arith, NoSlash-word s)

length-word : (s : Text) → length (word s).1 ≤ length s
unfolding word
length-word [] = omega arith
length-word (c ∷ s) = ground (arith, length-word s)

-- How a call of `strtok` can end.
abbrev TakesName : Text → Option (Text × Text) → Type 0
TakesName s none = Unit
TakesName s (some (w, r)) = IsName w × (length r < length s)

word-TakesName : (c : ℕ) (s : Text) → (c == slash) ≡ false → TakesName (c ∷ s) (some (word (c ∷ s)))
unfolding word
word-TakesName c s h = rw h ((h, NoSlash-word s), omega (arith, length-word s))

TakesName-cons : (c : ℕ) (s : Text) (r : Option (Text × Text)) → TakesName s r → TakesName (c ∷ s) r
TakesName-cons c s none h = tt
TakesName-cons c s (some (w, r)) h = (h.0, omega arith)

strtok-slash : (c : ℕ) (s : Text) → (c == slash) ≡ true → strtok (c ∷ s) ≡ strtok s
unfolding strtok skip
strtok-slash c s h = rw (h, strtok)

strtok-TakesName : (s : Text) → TakesName s (strtok s)
strtok-TakesName [] = unfold strtok skip in tt
strtok-TakesName (c ∷ s) = elim (Bool-cases (c == slash)) [
  | inl h ↦ rw (strtok-slash c s h) (TakesName-cons c s _ (strtok-TakesName s))
  | inr h ↦ rw (strtok-skip c (c ∷ s) s (skip-name c s h)) (word-TakesName c s h)
]

tokens-none : (fuel : ℕ) (s : Text) → strtok s ≡ none → tokens (suc fuel) s ≡ []
unfolding tokens
tokens-none fuel s e = rw (e, tokens)

tokens-AllNames : (fuel : ℕ) (s : Text) → AllNames (tokens fuel s)
tokens-AllNames zero s = unfold tokens in tt
tokens-AllNames (suc fuel) s = elim (Option-cases (strtok s)) [
  | inl e ↦ rw (tokens-none fuel s e) tt
  | inr ((w, r), e) ↦
      rw (tokens-some fuel s w r e)
        ((subst (TakesName s) e (strtok-TakesName s)).0, tokens-AllNames fuel r)
]

-- More rounds than the text has bytes change nothing.
tokens_enough : (m n : ℕ) (s : Text) → length s < m → length s < n → tokens m s ≡ tokens n s
tokens_enough zero n s p q = absurd (omega arith)
tokens_enough (suc m) zero s p q = absurd (omega arith)
tokens_enough (suc m) (suc n) s p q = elim (Option-cases (strtok s)) [
  | inl e ↦ tokens-none m s e ∙ sym (tokens-none n s e)
  | inr ((w, r), e) ↦
      let shorter = (subst (TakesName s) e (strtok-TakesName s)).1 in
      tokens-some m s w r e
      ∙ ap (λ us. w ∷ us) (tokens_enough m n r (omega arith) (omega arith))
      ∙ sym (tokens-some n s w r e)
]

-- Every token is a name, and any number of rounds above the length of the text gives the tokens
-- that `tokenise` gives.
pub tokenise-AllNames :
    (s : Text) (n : ℕ) → length s < n → AllNames (tokenise s) × (tokens n s ≡ tokenise s)
unfolding tokenise
tokenise-AllNames s n lt =
    (tokens-AllNames (length s + 1) s, tokens_enough n (length s + 1) s lt (omega arith))
