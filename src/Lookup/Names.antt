-- ===== src/Lookup/Names.antt =====
-- A block of directory entries as a map from names to inode numbers.
use unix_like_file_system.Base.{
  ℕ, zero, suc, ◌+◌, ◌/◌, ◌==◌, ==→eq, ==-refl, ◌≤◌, ◌<◌, ◌≡◌, ◌≢◌, refl, sym, ap, ◌∙◌, inl, inr,
  true, false, Option, none, some, arith, Bool-cases, length,
}
use mathlib.Core.Bool.{false≢true}
use unix_like_file_system.Block.{Block}
use unix_like_file_system.Disk.{Disk}
use unix_like_file_system.Inode.{num_dirents, entry_inode}
use unix_like_file_system.Inode.Entries.{SameEntry, SameEntry-word, SameEntry-text}
use unix_like_file_system.Path.{Text}
use unix_like_file_system.Lookup.{find_entry, find}
use unix_like_file_system.Lookup.Resolves.{entry_matches, HasEntry, find_entry-Found}
use unix_like_file_system.Lookup.Missing.{find-HasEntry, find-missing}

abbrev pub number_at : Block → Option ℕ → Option ℕ
number_at dirs none = none
number_at dirs (some k) = some (entry_inode dirs k)

-- The inode number of a name, if there is a valid entry with the name.
abbrev pub number_of : Block → Text → Option ℕ
number_of dirs t = number_at dirs (find t dirs)

find_entry-first :
    (rounds k : ℕ) (t : Text) (b : Block)
    → entry_matches t b k ≡ true
    → find_entry (suc rounds) k t b ≡ some k
unfolding find_entry
find_entry-first rounds k t b hit = rw hit refl

find_entry-next :
    (rounds k : ℕ) (t : Text) (b : Block)
    → entry_matches t b k ≡ false
    → find_entry (suc rounds) k t b ≡ find_entry rounds (k + 1) t b
unfolding find_entry
find_entry-next rounds k t b miss = rw miss refl

-- Two blocks in which the same entries carry the name, with the same numbers, agree on the name.
module _ (b c : Block) (t : Text)
    (same : (j : ℕ) → j < num_dirents → entry_matches t b j ≡ entry_matches t c j)
    (numbers : (j : ℕ)
      → j < num_dirents
      → entry_matches t c j ≡ true
      → entry_inode b j ≡ entry_inode c j) where
  number_from :
      (rounds lo : ℕ)
      → lo + rounds ≡ num_dirents
      → number_at b (find_entry rounds lo t b) ≡ number_at c (find_entry rounds lo t c)
  number_from zero lo at = unfold find_entry in refl
  number_from (suc rounds) lo at =
      let lt : lo < num_dirents = omega arith in
      elim (Bool-cases (entry_matches t c lo)) [
        | inl hit ↦
            ap (number_at b) (find_entry-first rounds lo t b (same lo lt ∙ hit))
            ∙ ap some (numbers lo lt hit)
            ∙ ap (number_at c) (sym (find_entry-first rounds lo t c hit))
        | inr miss ↦
            ap (number_at b) (find_entry-next rounds lo t b (same lo lt ∙ miss))
            ∙ number_from rounds (lo + 1) (omega arith)
            ∙ ap (number_at c) (sym (find_entry-next rounds lo t c miss))
      ]

  number_of_cong : number_of b t ≡ number_of c t
  number_of_cong = number_from num_dirents 0 refl

pub number_of-HasEntry :
    (d : Disk) {dirs : Block} {t : Text} {n : ℕ} → HasEntry dirs t n → number_of dirs t ≡ some n
number_of-HasEntry d {dirs} h =
    let (k, found, number) = find-HasEntry d h in ap (number_at dirs) found ∙ ap some number

pub number_of-absent :
    (d : Disk) (dirs : Block) (t : Text)
    → ((k : ℕ) → k < num_dirents → entry_matches t dirs k ≡ false)
    → number_of dirs t ≡ none
number_of-absent d dirs t absent =
    ap (number_at dirs)
      (find-missing d t dirs _ absent (find_entry-Found t dirs num_dirents 0 num_dirents refl))

-- A block that differs in entry `k` only, which does not carry the name in either of the two.
module _ {new dirs : Block} (k : ℕ) (others : (j : ℕ) → j ≢ k → SameEntry new dirs j) (t : Text)
    (short : length t ≤ 27) where
  pub entry_matches-other : (j : ℕ) → j ≢ k → entry_matches t new j ≡ entry_matches t dirs j
  entry_matches-other j ne =
      rw (SameEntry-word j (others j ne), SameEntry-text j t short (others j ne)) refl

  pub number_of-other :
      entry_matches t new k ≡ false
      → entry_matches t dirs k ≡ false
      → number_of new t ≡ number_of dirs t
  number_of-other miss miss' = number_of_cong new dirs t same numbers
    where
      same : (j : ℕ) → j < num_dirents → entry_matches t new j ≡ entry_matches t dirs j
      same j lt = elim (Bool-cases (j == k)) [
        | inl at ↦
            let e = ==→eq j k at in
            ap (entry_matches t new) e ∙ miss ∙ sym miss' ∙ ap (entry_matches t dirs) (sym e)
        | inr ne ↦ entry_matches-other j (λ e. false≢true (sym ne ∙ rw (e, ==-refl k) refl))
      ]

      numbers :
          (j : ℕ)
          → j < num_dirents
          → entry_matches t dirs j ≡ true
          → entry_inode new j ≡ entry_inode dirs j
      numbers j lt hit =
          let ne : j ≢ k = λ e. false≢true (sym miss' ∙ ap (entry_matches t dirs) (sym e) ∙ hit) in
          ap (λ w. w / 2) (SameEntry-word j (others j ne))
