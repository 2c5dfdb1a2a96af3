-- ===== src/Lookup/Resolves.antt =====
-- What it means that a path leads to an inode, and that `path2inum` finds exactly that.
use unix_like_file_system.Base.{
  ℕ, zero, suc, ◌+◌, ◌≤◌, ◌<◌, ◌≡◌, ◌≢◌, refl, inl, inr, Bool, true, false, not, ◌&&◌, Option, none,
  some, List, [], ◌∷◌, ltb, ◌==◌, length, arith, Bool-cases,
}
use mathlib.Core.Path.{subst}
use mathlib.Core.Logic.{◌⊎◌}
use unix_like_file_system.Block.{Block}
use unix_like_file_system.Disk.{Disk, Errno}
use unix_like_file_system.Disk.Reads
use unix_like_file_system.Disk.Reads.{
  Reads, gives, fails, faults, fail_if-Reads, block_read-Reads, Holds, IsRead, block_read-Holds,
}
use unix_like_file_system.Inode.{
  num_dirents, is_dir, size, ptr, valid, entry_inode, name_at, same_text,
}
use unix_like_file_system.Path.{Text}
use unix_like_file_system.Lookup.{
  find_entry, find, or_fail, enter, lookup_entry, descend, walk, is_last,
}

-- Entry `k` is in use and carries the name.
abbrev pub entry_matches : Text → Block → ℕ → Bool
entry_matches name dirs k = valid dirs k && same_text name dirs (name_at k)

-- The first entry with the name has the inode number `n`.
pub record HasEntry (dirs : Block) (name : Text) (n : ℕ) : Type 0 where
  pub index : ℕ
  pub in_range : index < num_dirents
  pub matches : entry_matches name dirs index ≡ true
  pub earlier : (j : ℕ) → j < index → entry_matches name dirs j ≡ false
  pub number : entry_inode dirs index ≡ n

-- `dirs` is the entry block of the inode `current`, in which `name` can be looked up.
pub record Lists (d : Disk) (current : Block) (name : Text) (dirs : Block) : Type 0 where
  pub short : length name ≤ 27
  pub nonempty : size current ≢ 0
  pub entries : Holds d (ptr current 0) dirs

-- From the directory `current` the names lead to inode `n`: each but the last to a directory.
pub data Resolves (d : Disk) : Block → List Text → ℕ → Type 0 where
  here :
      {current dirs : Block} {name : Text} {n : ℕ}
      → Lists d current name dirs
      → HasEntry dirs name n
      → Resolves d current (name ∷ []) n
  into :
      {current dirs dir : Block} {name next : Text} {rest : List Text} {m n : ℕ}
      → is_dir current ≡ true
      → Lists d current name dirs
      → HasEntry dirs name m
      → Holds d m dir
      → is_dir dir ≡ true
      → Resolves d dir (next ∷ rest) n
      → Resolves d current (name ∷ next ∷ rest) n

-- What `find_entry` may return, from entry `lo` on.
abbrev pub Found : ℕ → ℕ → Text → Block → Option ℕ → Type 0
Found lo hi name dirs none = (j : ℕ) → lo ≤ j → j < hi → entry_matches name dirs j ≡ false
Found lo hi name dirs (some k) =
    (lo ≤ k)
    × (k < hi)
    × (entry_matches name dirs k ≡ true)
    × ((j : ℕ) → lo ≤ j → j < k → entry_matches name dirs j ≡ false)

module _ (name : Text) (dirs : Block) where
  Found-cons :
      (lo hi : ℕ) (r : Option ℕ)
      → entry_matches name dirs lo ≡ false
      → Found (lo + 1) hi name dirs r
      → Found lo hi name dirs r
  Found-cons lo hi none miss rest = λ j p q. elim (Bool-cases (j == lo)) [
    | inl e ↦ ground arith
    | inr e ↦ rest j (ground arith) q
  ]
  Found-cons lo hi (some i) miss (p, q, hit, rest) = (
    omega arith,
    q,
    hit,
    λ j below above. elim (Bool-cases (j == lo)) [
      | inl e ↦ ground arith
      | inr e ↦ rest j (ground arith) above
    ],
  )

  pub find_entry-Found :
      (rounds lo hi : ℕ) → lo + rounds ≡ hi → Found lo hi name dirs (find_entry rounds lo name dirs)
  unfolding find_entry
  find_entry-Found zero lo hi e = λ j p q. absurd (omega arith)
  find_entry-Found (suc rounds) lo hi e = elim (Bool-cases (entry_matches name dirs lo)) [
    | inl hit ↦ rw hit (omega arith, omega arith, hit, λ j p q. absurd (omega arith))
    | inr miss ↦
        rw miss (Found-cons lo hi _ miss (find_entry-Found rounds (lo + 1) hi (omega arith)))
  ]

Found-HasEntry :
    (name : Text) (dirs : Block) (r : Option ℕ) (k : ℕ)
    → Found 0 num_dirents name dirs r
    → r ≡ some k
    → HasEntry dirs name (entry_inode dirs k)
Found-HasEntry name dirs none k h e = cc
Found-HasEntry name dirs (some i) k (p, q, hit, least) e = record {
  index = k;
  in_range = ground arith;
  matches = ground arith;
  earlier = λ j below. least j (omega arith) (ground arith);
  number = refl;
}

module _ (d : Disk) where
  pub or_fail-Reads :
      {A : Type 0} (e : Errno) (o : Option A) → Reads d (λ a. o ≡ some a) (or_fail e o d)
  or_fail-Reads e none = fails
  or_fail-Reads e (some a) = gives refl

  enter-Lists :
      (name : Text) (rest : List Text) (current : Block)
      → Reads d
          (λ dirs. Lists d current name dirs × ((is_dir current ≡ true) ⊎ (is_last rest ≡ true)))
          (enter name rest current d)
  unfolding enter
  enter-Lists name rest current = Reads.bind _ (fail_if-Reads d (ltb 27 (length name)) _) λ _ short.
      Reads.bind _ (fail_if-Reads d (not (is_dir current) && not (is_last rest)) _) λ _ dir.
        Reads.bind _ (fail_if-Reads d (size current == 0) _) λ _ full.
          Reads.bind _ (block_read-Reads d _) λ read is.
            Reads.weaken (or_fail-Reads _ read) λ dirs e. (
              record {
                short = ground arith;
                nonempty = ground arith;
                entries = subst (IsRead d (ptr current 0)) e is;
              },
              ground arith,
            )

  lookup_entry-HasEntry :
      (several : Bool) (name : Text) (rest : List Text) (current : Block)
      → Reads d
          (λ n.
            (dirs : Block) × Lists d current name dirs
            × HasEntry dirs name n
            × ((is_dir current ≡ true) ⊎ (is_last rest ≡ true)))
          (lookup_entry several name rest current d)
  unfolding lookup_entry
  lookup_entry-HasEntry several name rest current =
      Reads.bind _ (enter-Lists name rest current) λ dirs (lists, dir).
        Reads.bind _ (or_fail-Reads _ (find name dirs)) λ k e. gives (
          dirs,
          lists,
          Found-HasEntry name dirs _ k (find_entry-Found name dirs num_dirents 0 num_dirents refl)
              e,
          dir,
        )

  descend-Holds : (m : ℕ) → Reads d (λ dir. Holds d m dir × (is_dir dir ≡ true)) (descend m d)
  unfolding descend
  descend-Holds m = Reads.bind _ (block_read-Reads d m) λ read is.
      Reads.bind _ (or_fail-Reads _ read) λ dir e.
        Reads.bind _ (fail_if-Reads d (not (is_dir dir)) _)
          λ _ yes_dir. gives (subst (IsRead d m) e is, ground arith)

  pub walk-Resolves :
      (several : Bool) (names : List Text) (current : Block)
      → Reads d (Resolves d current names) (walk several names current d)
  unfolding walk
  walk-Resolves several [] current = fails
  walk-Resolves several (name ∷ []) current =
      Reads.weaken (lookup_entry-HasEntry several name [] current)
        λ n (dirs, lists, entry, dir). here lists entry
  walk-Resolves several (name ∷ next ∷ rest) current =
      Reads.bind _ (lookup_entry-HasEntry several name (next ∷ rest) current)
        λ m (dirs, lists, entry, dir). Reads.bind _ (descend-Holds m) λ inode (holds, is).
          Reads.weaken (walk-Resolves several (next ∷ rest) inode)
            λ n r. into (ground arith) lists entry holds is r
