-- ===== src/Tree/Reading.antt =====
-- What the calls that change a directory read before they write.
use unix_like_file_system.Base.{
  ℕ, zero, suc, ◌<◌, ◌≤◌, ◌≡◌, refl, sym, not, true, inl, inr, List, [], ◌∷◌, ◌++◌, ltb, length,
  arith, Bool-cases,
}
use unix_like_file_system.Block.{Block}
use unix_like_file_system.Disk.{
  Disk, Outcome, Errno, enoent, enotdir, done, failed, aborted, fault, nat, and_then, as_int, M,
  ◌>>=◌, pure,
}
use unix_like_file_system.Disk.Finds
use unix_like_file_system.Disk.Finds.{Finds, gets, lacks, fail_if-Finds, read_unchecked-Finds}
use unix_like_file_system.Inode.{is_dir}
use unix_like_file_system.Path.{Text}
use unix_like_file_system.Path.Tokens.{slashed}
use unix_like_file_system.Lookup.{path2inum, from_root}
use unix_like_file_system.Lookup.Missing.{not_last}
use unix_like_file_system.Lookup.Paths.{Fits}
use unix_like_file_system.Attr.{nonnegative}
use unix_like_file_system.Entry.{parent_inode, before_new, starts_with_slash, is_positive}
use unix_like_file_system.Entry.Parent.{path2inum-parent_of, split_path-slashed, last_token-append}
use unix_like_file_system.Remove.{before_removal}
use unix_like_file_system.Tree.{Role, IsInode, IsTree, Keeps}
use unix_like_file_system.Tree.Find.{inode-Marked, Marked-Holds}
use unix_like_file_system.Tree.Walk.{from_root-Finds}
use unix_like_file_system.Tree.Looks.{below, leads, misses, path-Looks}
use unix_like_file_system.Tree.Change.{unchanged}

-- A call that begins by reading, and goes on with what it read.
pub reading-Keeps :
    {d : Disk} {A : Type 0} {B : Type 0} {P : A → Type 0} {role : ℕ → Role} (r : Outcome A)
    (k : A → M B)
    → IsTree d role
    → Finds d P r
    → ((a : A) → P a → Keeps (k a d))
    → Keeps (and_then r k)
reading-Keeps r k t (gets p) next = next _ p
reading-Keeps r k t lacks next = unchanged t

-- What goes on with the number that a call got, and that it is what the call returned.
nonnegative-Finds :
    {A : Type 0} {d : Disk} {P : ℕ → Type 0} {Q : A → Type 0} (e : Errno) (r : Outcome ℕ)
    (k : ℕ → M A)
    → Finds d P r
    → ((n : ℕ) → P n → r ≡ done n d → Finds d Q (k n d))
    → Finds d Q (and_then (as_int r) (λ c. nonnegative e c >>= k))
nonnegative-Finds e (done n g) k (gets p) next = next n p refl
nonnegative-Finds e (failed f g) k lacks next = lacks
nonnegative-Finds e (aborted g) k h next = elim h [ ]
nonnegative-Finds e fault k h next = elim h [ ]

pub is_positive-pos : (n : ℕ) → 0 < n → is_positive (nat n) ≡ true
is_positive-pos zero pos = absurd (omega arith)
is_positive-pos (suc n) pos = refl

starts : (names : List Text) (name : Text) → starts_with_slash (slashed (names ++ name ∷ [])) ≡ true
starts [] name = refl
starts (t ∷ ts) name = refl

-- The parent is a directory, and the names but the last lead to it.
abbrev pub IsParent : Disk → (ℕ → Role) → List Text → ℕ × Block → Type 0
IsParent d role names (inum, parent) =
    (from_root names d ≡ done inum d)
    × IsInode (role inum)
    × (d.block inum ≡ parent)
    × (is_dir parent ≡ true)

-- What `before_new` gives: the last name, and the parent.
abbrev pub IsHome : Disk → (ℕ → Role) → List Text → Text → Text × ℕ × Block → Type 0
IsHome d role names name (nm, inum, parent) =
    (nm ≡ name) × (length name ≤ 27) × IsParent d role names (inum, parent)

module _ {d : Disk} {role : ℕ → Role} (t : IsTree d role) (names : List Text) (name : Text)
    (fits : Fits (names ++ name ∷ [])) where
  abbrev tokens : List Text
  tokens = names ++ name ∷ []

  parent_inode-Finds : Finds d (IsParent d role names) (parent_inode (slashed tokens) tokens d)
  unfolding parent_inode
  parent_inode-Finds = rw (path2inum-parent_of d names name fits) (
      nonnegative-Finds enoent (from_root names d) _ (from_root-Finds d t names) λ inum is found.
        Finds.bind _ (read_unchecked-Finds (Marked-Holds t (inode-Marked t inum is))) λ inode same.
          Finds.bind (λ _. pure (inum, inode)) (fail_if-Finds d (not (is_dir inode)) enotdir)
            λ _ dir. gets (found, is, sym same, ground arith))

  -- Where the path leads nowhere, there is nothing to be removed.
  pub before_removal-missing :
      {e : Errno}
      → path2inum (slashed tokens) d ≡ failed e d
      → Finds d (λ r. ⊥) (before_removal (slashed tokens) d)
  unfolding before_removal
  before_removal-missing found =
      rw (split_path-slashed d tokens fits (not_last names name))
        (Finds.bind _ parent_inode-Finds λ p h. rw found lacks)

  pub before_new-Finds : Finds d (IsHome d role names name) (before_new (slashed tokens) d)
  unfolding before_new
  before_new-Finds = elim (path-Looks t (below names name fits)) [
    | leads n named is m ↦
        rw (starts names name, named.found, is_positive-pos n named.positive) lacks
    | misses e found ↦ elim (Bool-cases (ltb 27 (length name))) [
      | inl long ↦
          rw
            (
              starts names name,
              found,
              split_path-slashed d tokens fits (not_last names name),
              last_token-append d names name,
              long,
            )
            lacks
      | inr short ↦
          rw
            (
              starts names name,
              found,
              split_path-slashed d tokens fits (not_last names name),
              last_token-append d names name,
              short,
            )
            (Finds.bind _ parent_inode-Finds
              λ (inum, parent) home. gets (refl, ground (arith, short), home))
    ]
  ]
