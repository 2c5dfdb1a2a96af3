-- ===== src/Tree.antt =====
-- What it means that an image holds a file system: each block has at most one role, and the inodes and
-- entries say the same as the roles.
pub mod Apart
pub mod Shrink
pub mod Grow
pub mod Find
pub mod Walk
pub mod Looks
pub mod Change
pub mod Fields
pub mod Rename
pub mod Reading
pub mod Dropped
pub mod Remove
pub mod Truncate
pub mod Written
pub mod Write
pub mod Added
pub mod NewFile
pub mod NewDir
pub mod Home
pub mod Create
pub mod MakeDir
pub mod Query
pub mod Requests
pub mod Visited
pub mod Files
pub mod Carried
pub mod Spares
pub mod Spared
pub mod Untouched
pub mod Others
use unix_like_file_system.Base.{ℕ, ◌+◌, ◌*◌, ◌≤◌, ◌<◌, ◌≡◌, ◌⊎◌, Bool, true, false, if◌then◌else◌}
use unix_like_file_system.Block.{Block, block_size, byte}
use unix_like_file_system.Disk.{Disk, Outcome, done, failed, aborted, fault}
use unix_like_file_system.Bitmap.{map_bits}
use unix_like_file_system.Bitmap.Alloc.{in_use, AllUsed}
use unix_like_file_system.Inode.{
  num_ptrs, num_dirents, name_size, name_at, size, ptr, is_dir, rounds_up, valid, entry_inode,
}
use unix_like_file_system.Lookup.{root_inum}

-- What a block is to the file system: nothing; the root's inode; the inode that entry `k` of the
-- entry block `e` names; the entry block of the directory `n`; block `b` of the file `n`.
pub data Role : Type 0 where
  unowned root : Role
  child : ℕ → ℕ → Role
  listing : ℕ → Role
  content : ℕ → ℕ → Role

abbrev pub IsInode : Role → Type 0
IsInode root = Unit
IsInode (child e k) = Unit
IsInode _ = ⊥

-- The block is in the image, behind the map, and marked as used.
pub record Marked (d : Disk) (l : ℕ) : Type 0 where
  pub used : in_use d l ≡ true
  pub range : (1 < l) × (l < map_bits)
  pub inside : l < d.blocks

-- The blocks that inode `n` points to are those that have the roles.
pub record Node (role : ℕ → Role) (n : ℕ) (b : Block) : Type 0 where
  pub directory : is_dir b ≡ true → role (ptr b 0) ≡ listing n
  pub fits : is_dir b ≡ false → size b ≤ block_size * num_ptrs
  pub contents : is_dir b ≡ false → (i : ℕ) → i < rounds_up (size b) → role (ptr b i) ≡ content n i

-- The name in entry `k` ends with a NUL inside its array.
abbrev pub IsNamed : Block → ℕ → Type 0
IsNamed dirs k = (j : ℕ) × (j < name_size) × (byte dirs (name_at k + j) ≡ 0)

-- The image holds a file system with these roles: all of its blocks are marked as used, a valid entry
-- names an inode that no other entry names, and no block belongs to two inodes.
pub record IsTree (d : Disk) (role : ℕ → Role) : Type 0 where
  pub map_there : 1 < d.blocks
  pub owned : (l : ℕ) → (role l ≡ unowned) ⊎ Marked d l
  pub root_there : role root_inum ≡ root
  pub root_dir : is_dir (d.block root_inum) ≡ true
  pub node : (n : ℕ) → IsInode (role n) → Node role n (d.block n)
  pub entry :
      (e n k : ℕ)
      → role e ≡ listing n
      → k < num_dirents
      → valid (d.block e) k ≡ true
      → role (entry_inode (d.block e) k) ≡ child e k
  pub named :
      (e n k : ℕ)
      → role e ≡ listing n
      → k < num_dirents
      → valid (d.block e) k ≡ true
      → IsNamed (d.block e) k

pub record Consistent (d : Disk) : Type 0 where
  pub role : ℕ → Role
  pub is_tree : IsTree d role

-- A call returns, with or without an error, or it is stopped by an assertion because no block is free;
-- the image that it leaves is consistent.
abbrev pub Keeps : {A : Type 0} → Outcome A → Type 0
Keeps (done a g) = Consistent g
Keeps (failed e g) = Consistent g
Keeps (aborted g) = AllUsed g × Consistent g
Keeps fault = ⊥
