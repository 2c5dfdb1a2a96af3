-- ===== src/Entry/Unused.antt =====
-- The loop that looks for an entry that is not in use.
use unix_like_file_system.Base.{
  ℕ, zero, suc, ◌+◌, ◌≤◌, ◌<◌, ◌≡◌, inl, inr, true, false, ◌==◌, Option, none, some, arith,
  Bool-cases,
}
use unix_like_file_system.Block.{Block}
use unix_like_file_system.Inode.{valid}
use unix_like_file_system.Entry.{find_unused}

-- The first entry that is not in use.
abbrev pub IsUnused : ℕ → ℕ → Block → Option ℕ → Type 0
IsUnused lo hi dirs none = (j : ℕ) → lo ≤ j → j < hi → valid dirs j ≡ true
IsUnused lo hi dirs (some k) =
    (lo ≤ k) × (k < hi) × (valid dirs k ≡ false) × ((j : ℕ) → lo ≤ j → j < k → valid dirs j ≡ true)

IsUnused-cons :
    (lo hi : ℕ) (dirs : Block) (r : Option ℕ)
    → valid dirs lo ≡ true
    → IsUnused (lo + 1) hi dirs r
    → IsUnused lo hi dirs r
IsUnused-cons lo hi dirs none used rest =
    λ j p q. elim (Bool-cases (j == lo)) [ inl e ↦ ground arith | inr e ↦ rest j (ground arith) q ]
IsUnused-cons lo hi dirs (some i) used (p, q, clear, rest) = (
  omega arith,
  q,
  clear,
  λ j below above. elim (Bool-cases (j == lo)) [
    | inl e ↦ ground arith
    | inr e ↦ rest j (ground arith) above
  ],
)

pub find_unused-IsUnused :
    (rounds lo hi : ℕ) (dirs : Block)
    → lo + rounds ≡ hi
    → IsUnused lo hi dirs (find_unused rounds lo dirs)
unfolding find_unused
find_unused-IsUnused zero lo hi dirs e = λ j p q. absurd (omega arith)
find_unused-IsUnused (suc rounds) lo hi dirs e = elim (Bool-cases (valid dirs lo)) [
  | inl used ↦
      rw used (
        IsUnused-cons lo hi dirs _ used
          (find_unused-IsUnused rounds (lo + 1) hi dirs (omega arith)))
  | inr clear ↦ rw clear (omega arith, omega arith, clear, λ j p q. absurd (omega arith))
]
