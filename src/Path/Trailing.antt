-- ===== src/Path/Trailing.antt =====
-- The tokens of a path that ends in a slash, as the parent's path does.
use unix_like_file_system.Base.{
  ℕ, zero, suc, ◌+◌, ◌<◌, ◌≡◌, refl, sym, ap, ◌∙◌, List, [], ◌∷◌, ◌++◌, length, length-append, take,
  arith, some,
}
use mathlib.Core.List.{append_assoc}
use unix_like_file_system.Path.{Text, slash, skip, word, strtok, tokens, tokenise}
use unix_like_file_system.Path.Tokens.{
  NoSlash, AllNames, slashed, strtok-skip, skip-name, tokens-some,
}

-- The names with a slash behind each.
abbrev pub trailing : List Text → Text
trailing [] = []
trailing (t ∷ ts) = t ++ slash ∷ trailing ts

word-slash : (t r : Text) → NoSlash t → word (t ++ slash ∷ r) ≡ (t, r)
unfolding word
word-slash [] r h = refl
word-slash (c ∷ t) r h = rw (h.0, word-slash t r h.1)

tokens-trailing :
    (fuel : ℕ) (ts : List Text)
    → AllNames ts
    → length (trailing ts) < fuel
    → tokens fuel (trailing ts) ≡ ts
tokens-trailing zero ts h lt = absurd (omega arith)
tokens-trailing (suc fuel) [] h lt = unfold tokens strtok skip in refl
tokens-trailing (suc fuel) ([] ∷ ts) h lt = absurd h.0
tokens-trailing (suc fuel) ((c ∷ t) ∷ ts) h lt =
    tokens-some fuel _ (c ∷ t) (trailing ts) (
      strtok-skip c _ (t ++ slash ∷ trailing ts) (skip-name c _ h.0.0)
      ∙ ap some (word-slash (c ∷ t) (trailing ts) h.0))
    ∙ ap (λ us. (c ∷ t) ∷ us)
        (tokens-trailing fuel ts h.1 (omega (arith, length-append t (slash ∷ trailing ts))))

pub tokenise-trailing : (ts : List Text) → AllNames ts → tokenise (trailing ts) ≡ ts
unfolding tokenise
tokenise-trailing ts h = tokens-trailing (length (trailing ts) + 1) ts h (omega arith)

pub slashed-trailing : (ts : List Text) → slashed ts ++ slash ∷ [] ≡ slash ∷ trailing ts
slashed-trailing [] = refl
slashed-trailing (t ∷ ts) =
    ap (λ s. slash ∷ s)
      (append_assoc t (slashed ts) (slash ∷ []) ∙ ap (λ s. t ++ s) (slashed-trailing ts))

pub slashed-append : (ts us : List Text) → slashed (ts ++ us) ≡ slashed ts ++ slashed us
slashed-append [] us = refl
slashed-append (t ∷ ts) us =
    ap (λ s. slash ∷ s)
      (ap (λ s. t ++ s) (slashed-append ts us) ∙ sym (append_assoc t (slashed ts) (slashed us)))

pub take-append {ℓ} :
    {A : Type ℓ} (n : ℕ) (xs : List A) (y : A) (ys : List A)
    → n ≡ length xs
    → take (suc n) (xs ++ y ∷ ys) ≡ xs ++ y ∷ []
take-append zero [] y ys e = refl
take-append zero (x ∷ xs) y ys e = absurd (omega arith)
take-append (suc n) [] y ys e = absurd (omega arith)
take-append (suc n) (x ∷ xs) y ys e = ap (λ zs. x ∷ zs) (take-append n xs y ys (omega arith))
