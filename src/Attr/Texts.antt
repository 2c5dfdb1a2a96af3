-- ===== src/Attr/Texts.antt =====
-- The NUL-terminated texts in a block: reading them and comparing them.
use unix_like_file_system.Base.{
  ℕ, zero, suc, ◌+◌, ◌<◌, ◌≡◌, ◌≢◌, refl, sym, ap, ◌∙◌, true, false, some, [], ◌∷◌, length, arith,
  ==-refl, ne→==, Bool-cases, inl, inr,
}
use unix_like_file_system.Block.{Block, byte}
use unix_like_file_system.Inode.{same_text}
use unix_like_file_system.Inode.Entries.{IsText}
use unix_like_file_system.Path.{Text}
use unix_like_file_system.Attr.{text_at}

-- The bytes of the text, none of them zero, are at `o`, with a NUL behind them.
abbrev pub IsTextAt : Text → Block → ℕ → Type 0
IsTextAt [] b o = byte b o ≡ 0
IsTextAt (c ∷ t) b o = (byte b o ≡ c) × (c ≢ 0) × IsTextAt t b (o + 1)

pub text_at-IsTextAt :
    (room : ℕ) (t : Text) (b : Block) (o : ℕ)
    → length t < room
    → IsTextAt t b o
    → text_at room o b ≡ some t
unfolding text_at
text_at-IsTextAt zero t b o lt h = absurd (omega arith)
text_at-IsTextAt (suc room) [] b o lt h = rw h refl
text_at-IsTextAt (suc room) (c ∷ t) b o lt (first, nonzero, rest) =
    rw (first, ne→== c 0 nonzero, text_at-IsTextAt room t b (o + 1) (omega arith) rest)
      (ap (λ x. some (x ∷ t)) first)

pub same_text-IsTextAt : (t : Text) (b : Block) (o : ℕ) → IsTextAt t b o → same_text t b o ≡ true
unfolding same_text
same_text-IsTextAt [] b o h = rw h refl
same_text-IsTextAt (c ∷ t) b o (first, nonzero, rest) =
    rw (first, ==-refl c, same_text-IsTextAt t b (o + 1) rest) refl

-- `strcmp` tells two different texts apart.
pub same_text-eq :
    (t u : Text) (b c : Block) (o p : ℕ)
    → IsTextAt t b o
    → IsTextAt u c p
    → same_text u b o ≡ true
    → t ≡ u
unfolding same_text
same_text-eq [] [] b c o p h k same = refl
same_text-eq [] (y ∷ u) b c o p h (at, nonzero, rest) same =
    absurd (nonzero (ground (arith, h, same)))
same_text-eq (x ∷ t) [] b c o p (at, nonzero, rest) k same =
    absurd (nonzero (ground (arith, at, same)))
same_text-eq (x ∷ t) (y ∷ u) b c o p (at, nonzero, rest) (at', nonzero', rest') same =
    let both : (byte b o ≡ y) × (same_text u b (o + 1) ≡ true) = ground (arith, same) in
    ap (λ z. z ∷ t) (sym at ∙ both.0)
    ∙ ap (λ v. y ∷ v) (same_text-eq t u b c (o + 1) (p + 1) rest rest' both.1)

-- A text that `strcmp` finds is there.
pub IsTextAt-same_text :
    (t : Text) (b : Block) (o : ℕ) → IsText t → same_text t b o ≡ true → IsTextAt t b o
unfolding same_text
IsTextAt-same_text [] b o text same = ground (arith, same)
IsTextAt-same_text (c ∷ t) b o text same =
    let both : (byte b o ≡ c) × (same_text t b (o + 1) ≡ true) = ground (arith, same) in
    (both.0, (λ e. absurd (omega (arith, text.0))), IsTextAt-same_text t b (o + 1) text.2 both.1)

-- A place that holds one text does not hold another.
pub same_text-other :
    (t u : Text) (b : Block) (o : ℕ)
    → IsText t
    → IsText u
    → same_text u b o ≡ true
    → t ≢ u
    → same_text t b o ≡ false
same_text-other t u b o text text' there ne = elim (Bool-cases (same_text t b o)) [
  | inl same ↦ absurd (
      ne (
        same_text-eq t u b b o o (IsTextAt-same_text t b o text same)
          (IsTextAt-same_text u b o text' there) there))
  | inr other ↦ other
]
