-- ===== src/Remove/Searches.antt =====
-- What the loops of `fs_unlink` and `fs_rmdir` over the entries of a directory look for.
use unix_like_file_system.Base.{
  ℕ, zero, suc, ◌+◌, ◌≤◌, ◌<◌, ◌≡◌, ◌≢◌, ◌⊎◌, inl, inr, refl, sym, ap, ◌∙◌, true, false, ◌&&◌, ◌==◌,
  ==→eq, none, some, arith, Bool-cases,
}
use mathlib.Core.Path.{subst}
use mathlib.Core.Bool.{false≢true}
use unix_like_file_system.Block.{Block}
use unix_like_file_system.Inode.{num_dirents, valid, entry_inode}
use unix_like_file_system.Remove.{find_inode, any_valid}

-- Entry `k` is the first valid one with the inode number `n`.
pub record IsFirstWith (dirs : Block) (n k : ℕ) : Type 0 where
  pub below : k < num_dirents
  pub used : valid dirs k ≡ true
  pub number : entry_inode dirs k ≡ n
  pub earlier : (j : ℕ) → j < k → valid dirs j ≡ true → entry_inode dirs j ≢ n

-- No entry is valid.
abbrev pub IsEmpty : Block → Type 0
IsEmpty dirs = (k : ℕ) → k < num_dirents → valid dirs k ≡ false

module _ (dirs : Block) (n : ℕ) where
  find_inode-from :
      (rounds lo : ℕ) {k : ℕ}
      → lo + rounds ≡ num_dirents
      → lo ≤ k
      → IsFirstWith dirs n k
      → find_inode rounds lo n dirs ≡ some k
  unfolding find_inode
  find_inode-from zero lo {k} e low f = absurd (omega (arith, f.below))
  find_inode-from (suc rounds) lo {k} e low f = elim (Bool-cases (lo == k)) [
    | inl at ↦
        let same : lo ≡ k = ==→eq lo k at in
        let hit : (valid dirs lo && (entry_inode dirs lo == n)) ≡ true =
          ground (arith, ap (valid dirs) same ∙ f.used, ap (entry_inode dirs) same ∙ f.number) in
        rw hit (ap some same)
    | inr other ↦
        let lt : lo < k = ground (arith, low, other) in
        let miss : (valid dirs lo && (entry_inode dirs lo == n)) ≡ false =
          elim (Bool-cases (valid dirs lo)) [
            | inl used ↦ elim (Bool-cases (entry_inode dirs lo == n)) [
              | inl same ↦ absurd (f.earlier lo lt used (==→eq (entry_inode dirs lo) n same))
              | inr differs ↦ rw (used, differs) refl
            ]
            | inr unused ↦ rw unused refl
          ] in
        rw miss (find_inode-from rounds (lo + 1) (omega arith) (omega arith) f)
  ]

  pub find_inode-some : {k : ℕ} → IsFirstWith dirs n k → find_inode num_dirents 0 n dirs ≡ some k
  find_inode-some f = find_inode-from num_dirents 0 refl (omega arith) f

  find_inode-nowhere :
      (rounds lo : ℕ)
      → lo + rounds ≡ num_dirents
      → IsEmpty dirs
      → find_inode rounds lo n dirs ≡ none
  unfolding find_inode
  find_inode-nowhere zero lo e empty = refl
  find_inode-nowhere (suc rounds) lo e empty =
      rw (empty lo (omega arith)) (find_inode-nowhere rounds (lo + 1) (omega arith) empty)

  pub find_inode-none : IsEmpty dirs → find_inode num_dirents 0 n dirs ≡ none
  find_inode-none empty = find_inode-nowhere num_dirents 0 refl empty

  -- Where an entry has the number, there is a first one.
  lowest_from :
      (rounds lo : ℕ)
      → lo + rounds ≡ num_dirents
      → ((j : ℕ) → j < lo → valid dirs j ≡ true → entry_inode dirs j ≢ n)
      → (k : ℕ) → lo ≤ k
      → k < num_dirents
      → valid dirs k ≡ true
      → entry_inode dirs k ≡ n
      → (j : ℕ) × IsFirstWith dirs n j
  lowest_from zero lo e none_yet k low lt used number = absurd (omega arith)
  lowest_from (suc rounds) lo e none_yet k low lt used number =
      elim (Bool-cases (valid dirs lo && (entry_inode dirs lo == n))) [
        | inl hit ↦ (
          lo,
          record {
            below = omega arith;
            used = ground (arith, hit);
            number = ground (arith, hit);
            earlier = none_yet;
          },
        )
        | inr miss ↦
            let here : valid dirs lo ≡ true → entry_inode dirs lo ≢ n =
              λ u same. ground (arith, miss, u, same) in
            let further : lo ≢ k =
              λ h. here (ap (valid dirs) h ∙ used) (ap (entry_inode dirs) h ∙ number) in
            lowest_from rounds (lo + 1) (omega arith)
              (λ j j_lt. elim (Bool-cases (j == lo)) [
                | inl at ↦
                    subst (λ i. valid dirs i ≡ true → entry_inode dirs i ≢ n) (sym (==→eq j lo at))
                      here
                | inr ne ↦ none_yet j (ground (arith, j_lt, ne))
              ])
              k (omega arith) lt used number
      ]

  pub lowest_entry :
      (k : ℕ)
      → k < num_dirents
      → valid dirs k ≡ true
      → entry_inode dirs k ≡ n
      → (j : ℕ) × IsFirstWith dirs n j
  lowest_entry k lt used number =
      lowest_from num_dirents 0 refl (λ j j_lt. absurd (omega arith)) k (omega arith) lt used number

module _ (dirs : Block) where
  any_valid-nowhere :
      (rounds lo : ℕ) → lo + rounds ≡ num_dirents → IsEmpty dirs → any_valid rounds lo dirs ≡ false
  unfolding any_valid
  any_valid-nowhere zero lo e empty = refl
  any_valid-nowhere (suc rounds) lo e empty =
      rw (empty lo (omega arith)) (any_valid-nowhere rounds (lo + 1) (omega arith) empty)

  pub any_valid-none : IsEmpty dirs → any_valid num_dirents 0 dirs ≡ false
  any_valid-none empty = any_valid-nowhere num_dirents 0 refl empty

  any_valid-from :
      (rounds lo k : ℕ)
      → lo ≤ k
      → k < lo + rounds
      → valid dirs k ≡ true
      → any_valid rounds lo dirs ≡ true
  unfolding any_valid
  any_valid-from zero lo k low lt used = absurd (omega arith)
  any_valid-from (suc rounds) lo k low lt used = elim (Bool-cases (valid dirs lo)) [
    | inl here ↦ rw here refl
    | inr unused ↦
        let further : lo ≢ k = λ h. false≢true (sym unused ∙ ap (valid dirs) h ∙ used) in
        rw unused (any_valid-from rounds (lo + 1) k (omega (arith, further)) (omega arith) used)
  ]

  pub any_valid-some :
      (k : ℕ) → k < num_dirents → valid dirs k ≡ true → any_valid num_dirents 0 dirs ≡ true
  any_valid-some k lt used = any_valid-from num_dirents 0 k (omega arith) (omega arith) used

  -- No entry is valid, or some entry is.
  cases_from :
      (rounds lo : ℕ)
      → lo + rounds ≡ num_dirents
      → ((j : ℕ) → j < lo → valid dirs j ≡ false)
      → IsEmpty dirs ⊎ ((k : ℕ) × (k < num_dirents) × (valid dirs k ≡ true))
  cases_from zero lo e unused = inl (λ j lt. unused j (omega arith))
  cases_from (suc rounds) lo e unused = elim (Bool-cases (valid dirs lo)) [
    | inl here ↦ inr (lo, omega arith, here)
    | inr free ↦ cases_from rounds (lo + 1) (omega arith) (λ j lt. elim (Bool-cases (j == lo)) [
      | inl at ↦ ap (valid dirs) (==→eq j lo at) ∙ free
      | inr ne ↦ unused j (ground (arith, lt, ne))
    ])
  ]

  pub entries-cases : IsEmpty dirs ⊎ ((k : ℕ) × (k < num_dirents) × (valid dirs k ≡ true))
  entries-cases = cases_from num_dirents 0 refl (λ j lt. absurd (omega arith))
