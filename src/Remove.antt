-- ===== src/Remove.antt =====
-- fs5600.c, the calls that remove directory entries: `fs_unlink` and `fs_rmdir`.
pub mod Searches
pub mod Dropped
pub mod Unlink
pub mod Rmdir
pub mod NameMap
pub mod Root
use unix_like_file_system.Base.{
  ℕ, zero, suc, ◌+◌, Bool, true, false, not, ◌&&◌, Option, none, some, ◌==◌, if◌then◌else◌,
}
use unix_like_file_system.Block.{Block, set_u32}
use unix_like_file_system.Disk.{
  M, enoent, enotdir, eisdir, enotempty, pure, ◌>>=◌, ◌>>◌, call, fail_if, block_write,
  read_unchecked, block_read, keep_or,
}
use unix_like_file_system.Bitmap.{free_blk}
use unix_like_file_system.Inode.{
  size, ptr, is_dir, rounds_up, num_dirents, valid, entry_inode, set_valid,
}
use unix_like_file_system.Path.{Text}
use unix_like_file_system.Lookup.{path2inum}
use unix_like_file_system.Attr.{nonnegative}
use unix_like_file_system.Content.{free_ptrs}
use unix_like_file_system.Entry.{split_path, parent_inode}

-- What both calls begin with: the parent with its number, and the inode to be removed with its own.
unfoldable pub before_removal : Text → M (ℕ × Block × ℕ × Block)
before_removal path = do
  tokens ← split_path path
  (parent_inum, parent) ← parent_inode path tokens
  found ← call (path2inum path)
  inum ← nonnegative enoent found
  inode ← read_unchecked inum
  pure (parent_inum, parent, inum, inode)

-- The loop that looks for the entry with an inode number.
unfoldable pub find_inode : ℕ → ℕ → ℕ → Block → Option ℕ
find_inode zero k inum dirs = none
find_inode (suc rounds) k inum dirs =
    let rest = find_inode rounds (k + 1) inum dirs in
    if valid dirs k && (entry_inode dirs k == inum) then some k else rest

unfoldable pub clear_entry : Option ℕ → Block → Block
clear_entry none dirs = dirs
clear_entry (some k) dirs = set_valid dirs k 0

-- What both calls end with, after the parent's entries have been read into `dirs`: the entry is
-- cleared, and the parent's `mtime` set.
unfoldable pub drop_entry : ℕ → ℕ → ℕ → Block → Block → M (Unit {0})
drop_entry now inum parent_inum parent dirs = do
  block_write (ptr parent 0) (clear_entry (find_inode num_dirents 0 inum dirs) dirs)
  block_write parent_inum (set_u32 parent 12 now)

unfoldable pub fs_unlink : ℕ → Text → M (Unit {0})
fs_unlink now path = do
  (parent_inum, parent, inum, inode) ← before_removal path
  fail_if (is_dir inode) eisdir
  free_ptrs (rounds_up (size inode)) 0 inode
  free_blk inum
  dirs ← read_unchecked (ptr parent 0)
  drop_entry now inum parent_inum parent dirs

-- Whether some entry from `k` on is valid.
unfoldable pub any_valid : ℕ → ℕ → Block → Bool
any_valid zero k dirs = false
any_valid (suc rounds) k dirs =
    let rest = any_valid rounds (k + 1) dirs in if valid dirs k then true else rest

-- The parent's entries are read into the array that the directory's own are in.
unfoldable pub fs_rmdir : ℕ → Text → M (Unit {0})
fs_rmdir now path = do
  (parent_inum, parent, inum, inode) ← before_removal path
  fail_if (not (is_dir inode)) enotdir
  dirs ← read_unchecked (ptr inode 0)
  fail_if (any_valid num_dirents 0 dirs) enotempty
  free_blk (ptr inode 0)
  free_blk inum
  read ← block_read (ptr parent 0)
  drop_entry now inum parent_inum parent (keep_or dirs read)
