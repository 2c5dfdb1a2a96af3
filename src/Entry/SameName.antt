-- ===== src/Entry/SameName.antt =====
-- `strcmp` of two texts.
use unix_like_file_system.Base.{
  ◌≡◌, refl, ap, ◌∙◌, inl, inr, true, [], ◌∷◌, ◌==◌, arith, Bool-cases, ==→eq,
}
use unix_like_file_system.Path.{Text}
use unix_like_file_system.Entry.{same_name}

pub same_name_refl : (t : Text) → same_name t t ≡ true
same_name_refl [] = refl
same_name_refl (c ∷ t) = ground (arith, same_name_refl t)

pub same_name→eq : (s t : Text) → same_name s t ≡ true → s ≡ t
same_name→eq [] [] e = refl
same_name→eq [] (d ∷ t) e = cc
same_name→eq (c ∷ s) [] e = cc
same_name→eq (c ∷ s) (d ∷ t) e = elim (Bool-cases (c == d)) [
  | inl same ↦ elim (Bool-cases (same_name s t)) [
    | inl rest ↦ ap (λ h. h ∷ s) (==→eq c d same) ∙ ap (λ u. d ∷ u) (same_name→eq s t rest)
    | inr differ ↦ ground arith
  ]
  | inr differ ↦ ground arith
]
