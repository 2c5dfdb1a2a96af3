-- ===== src/Tree/Find.antt =====
-- What looking up a path says of the roles.
use unix_like_file_system.Base.{
  ℕ, ◌<◌, ◌≡◌, refl, sym, ap, ◌∙◌, inl, inr, true, List, [], ◌∷◌, ◌++◌, arith, false,
}
use mathlib.Core.Path.{subst}
use unix_like_file_system.Block.{Block}
use unix_like_file_system.Disk.{Disk, done}
use unix_like_file_system.Disk.Reads.{Holds}
use unix_like_file_system.Inode.{num_dirents, ptr, is_dir, valid, entry_inode, rounds_up}
use unix_like_file_system.Path.{Text}
use unix_like_file_system.Path.Tokens.{slashed}
use unix_like_file_system.Lookup.{path2inum, from_root, root_inum}
use unix_like_file_system.Lookup.Resolves.{Resolves, here, into, Lists, HasEntry, entry_matches}
use unix_like_file_system.Lookup.Missing.{walk-done, not_last}
use unix_like_file_system.Lookup.Paths.{Fits, from_root-walk, path2inum-Resolves}
use unix_like_file_system.Content.Free.{InMap}
use unix_like_file_system.Tree.Apart.{listing≢unowned, content≢unowned}
use unix_like_file_system.Tree.{Role, child, listing, content, IsInode, Marked, IsTree}

-- A name in the directory `dir`.
abbrev IsIn : Disk → Block → Text → ℕ → Type 0
IsIn d dir name n = (dirs : Block) × Lists d dir name dirs × HasEntry dirs name n

-- The last name, in the directory that the names in front of it lead to.
abbrev Splits : Disk → Block → List Text → Text → ℕ → Type 0
Splits d current [] name n = IsIn d current name n
Splits d current (t ∷ ts) name n =
    (m : ℕ) × (dir : Block) × Resolves d current (t ∷ ts) m
    × Holds d m dir
    × (is_dir dir ≡ true)
    × IsIn d dir name n

Resolves-Splits :
    {d : Disk} {current : Block} (names : List Text) (name : Text) {n : ℕ}
    → Resolves d current (names ++ name ∷ []) n
    → Splits d current names name n
Resolves-Splits [] name (here {dirs} lists entry) = (dirs, lists, entry)
Resolves-Splits (t ∷ []) name (into {dir} {m} is lists entry holds is' r) =
    (m, dir, here lists entry, holds, is', Resolves-Splits [] name r)
Resolves-Splits (t ∷ u ∷ us) name (into is lists entry holds is' r) =
    let (m, dir, r', holds', is'', last) = Resolves-Splits (u ∷ us) name r in
    (m, dir, into is lists entry holds is' r', holds', is'', last)

valid_of :
    (name : Text) (dirs : Block) (k : ℕ) → entry_matches name dirs k ≡ true → valid dirs k ≡ true
valid_of name dirs k h = ground (arith, h)

-- Block `n` is the inode that entry `k` of the directory `m` names.
pub record Entry (d : Disk) (role : ℕ → Role) (m k n : ℕ) : Type 0 where
  pub is_inode : IsInode (role m)
  pub directory : is_dir (d.block m) ≡ true
  pub below : k < num_dirents
  pub used : valid (d.block (ptr (d.block m) 0)) k ≡ true
  pub number : entry_inode (d.block (ptr (d.block m) 0)) k ≡ n

module _ {d : Disk} {role : ℕ → Role} (t : IsTree d role) where
  pub entries_of :
      (m : ℕ) → IsInode (role m) → is_dir (d.block m) ≡ true → role (ptr (d.block m) 0) ≡ listing m
  entries_of m is directory = (t.node m is).directory directory

  pub Entry-child : {m k n : ℕ} → Entry d role m k n → role n ≡ child (ptr (d.block m) 0) k
  Entry-child {m} {k} e =
      ap role (sym e.number)
      ∙ t.entry (ptr (d.block m) 0) m k (entries_of m e.is_inode e.directory) e.below e.used

  pub IsIn-Entry :
      (m : ℕ) {current : Block} (name : Text) {n : ℕ}
      → d.block m ≡ current
      → IsInode (role m)
      → is_dir current ≡ true
      → IsIn d current name n
      → (k : ℕ) × Entry d role m k n
  IsIn-Entry m {current} name at is directory (dirs, lists, entry) =
      let same : d.block (ptr (d.block m) 0) ≡ dirs =
        ap (λ b. d.block (ptr b 0)) at ∙ lists.entries.content in
      (
        entry.index,
        record {
          is_inode = is;
          directory = ap is_dir at ∙ directory;
          below = entry.in_range;
          used = ap (λ b. valid b entry.index) same ∙ valid_of name dirs entry.index entry.matches;
          number = ap (λ b. entry_inode b entry.index) same ∙ entry.number;
        },
      )

  pub Entry-IsInode : {m k n : ℕ} → Entry d role m k n → IsInode (role n)
  Entry-IsInode e = subst IsInode (sym (Entry-child e)) tt

  Resolves-IsInode :
      (m : ℕ) {current : Block} {names : List Text} {n : ℕ}
      → d.block m ≡ current
      → IsInode (role m)
      → is_dir current ≡ true
      → Resolves d current names n
      → IsInode (role n)
  Resolves-IsInode m at is directory (here {dirs} {name} lists entry) =
      Entry-IsInode (IsIn-Entry m name at is directory (dirs, lists, entry)).1
  Resolves-IsInode m at is directory (into {dirs} {name} {m = next} is' lists entry holds is'' r) =
      let (k, e) = IsIn-Entry m name at is directory (dirs, lists, entry) in
      Resolves-IsInode next holds.content (Entry-IsInode e) is'' r

  pub root-IsInode : IsInode (role root_inum)
  root-IsInode = subst IsInode (sym t.root_there) tt

  -- What owns a role can be read.
  pub Marked-Holds : {l : ℕ} → Marked d l → Holds d l (d.block l)
  Marked-Holds m = record { inside = m.inside; reachable = omega (arith, m.range); content = refl }

  pub inode-Marked : (n : ℕ) → IsInode (role n) → Marked d n
  inode-Marked n is = elim (t.owned n) [ inl none ↦ absurd (subst IsInode none is) | inr m ↦ m ]

  pub root_holds : Holds d root_inum (d.block root_inum)
  root_holds = Marked-Holds (inode-Marked root_inum root-IsInode)

  -- The directory in which a path's last name is found is the one that the other names lead to.
  pub record Place (names : List Text) (n : ℕ) : Type 0 where
    pub parent : ℕ
    pub found : from_root names d ≡ done parent d
    pub slot : ℕ
    pub entry : Entry d role parent slot n

  Splits-Place :
      (names : List Text) (name : Text) {n : ℕ}
      → Splits d (d.block root_inum) names name n
      → Place names n
  unfolding from_root
  Splits-Place [] name last =
      let (k, e) = IsIn-Entry root_inum name refl root-IsInode t.root_dir last in
      record { parent = root_inum; found = refl; slot = k; entry = e }
  Splits-Place (u ∷ us) name (m, dir, r, holds, is, last) =
      let (several, walks) = from_root-walk d root_holds (u ∷ us) refl in
      let (k, e) =
        IsIn-Entry m name holds.content (Resolves-IsInode root_inum refl root-IsInode t.root_dir r)
          is last in
      record { parent = m; found = walks ∙ walk-done d several r; slot = k; entry = e }

  pub path-Place :
      (names : List Text) (name : Text) {n : ℕ}
      → Fits (names ++ name ∷ [])
      → path2inum (slashed (names ++ name ∷ [])) d ≡ done n d
      → Place names n
  path-Place names name {n} fits found =
      let (r, same) =
        (path2inum-Resolves d root_holds (names ++ name ∷ []) n d fits (not_last names name)).0
          found in
      Splits-Place names name (Resolves-Splits names name r)

pub listing-Marked :
    {d : Disk} {role : ℕ → Role} (t : IsTree d role) {e n : ℕ} → role e ≡ listing n → Marked d e
listing-Marked t {e} {n} is = elim (t.owned e) [
  | inl nothing ↦ absurd (listing≢unowned (sym is ∙ nothing))
  | inr m ↦ m
]

pub content-Marked :
    {d : Disk} {role : ℕ → Role} (t : IsTree d role) {l n i : ℕ} → role l ≡ content n i → Marked d l
content-Marked t {l} {n} {i} is = elim (t.owned l) [
  | inl nothing ↦ absurd (content≢unowned (sym is ∙ nothing))
  | inr m ↦ m
]

-- The blocks of a file have bits in the map.
pub file-InMap :
    {d : Disk} {role : ℕ → Role} (t : IsTree d role) (n : ℕ)
    → IsInode (role n)
    → is_dir (d.block n) ≡ false
    → InMap (d.block n)
unfolding rounds_up
file-InMap {d} t n is file i lt =
    let node = t.node n is in
    (content-Marked t (node.contents file i (ground (arith, lt, node.fits file)))).range.1
