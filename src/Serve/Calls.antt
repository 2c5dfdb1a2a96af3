-- ===== src/Serve/Calls.antt =====
-- The calls that write keep every invariant that survives writes to other blocks than the superblock.
use unix_like_file_system.Base.{ℕ, zero, suc, Bool, Option, none, some, List}
use unix_like_file_system.Block.{Block}
use unix_like_file_system.Disk.{Disk, Outcome, Errno}
use unix_like_file_system.Bitmap.{take_block, alloc_blk, free_blk}
use unix_like_file_system.Path.{Text}
use unix_like_file_system.Attr.{fs_chmod, fs_utime}
use unix_like_file_system.Content.{Buffer, extend, write_loop, fs_write, free_ptrs, fs_truncate}
use unix_like_file_system.Entry.{
  Context, add_entry, fs_create, fs_mkdir, rename_in, fs_rename, unless_written, checked_write,
}
use unix_like_file_system.Remove.{drop_entry, fs_unlink, fs_rmdir}
use unix_like_file_system.Serve.{
  Request, statfs, getattr, readdir, read, rename, chmod, create, mkdir, unlink, rmdir, write,
  truncate, utime, serve,
}
use unix_like_file_system.Serve.Preserves.{
  Leaves, returned, refused, stopped, undone, Preserves, IsKept, steps, block_write-Preserves,
}
use unix_like_file_system.Serve.Reading.{
  parts, fs_statfs-Preserves, fs_getattr-Preserves, fs_readdir-Preserves, fs_read-Preserves,
}

module _ {I : Disk → Type 0} (kept : IsKept I) where
  take_block-Preserves : (map : Block) (r : Option ℕ) → Preserves I (take_block map r)
  unfolding take_block
  take_block-Preserves map none = search steps
  take_block-Preserves map (some i) = search (steps, block_write-Preserves, kept)

  alloc_blk-Preserves : Preserves I alloc_blk
  unfolding alloc_blk
  alloc_blk-Preserves = search (steps, take_block-Preserves)

  free_blk-Preserves : (i : ℕ) → Preserves I (free_blk i)
  unfolding free_blk
  free_blk-Preserves i = search (steps, block_write-Preserves, kept)

  fs_chmod-Preserves : (path : Text) (permissions : ℕ) → Preserves I (fs_chmod path permissions)
  unfolding fs_chmod
  fs_chmod-Preserves path permissions = search (parts, block_write-Preserves, kept) depth 12

  fs_utime-Preserves :
      (now : ℕ) (path : Text) (modtime : Option ℕ) → Preserves I (fs_utime now path modtime)
  unfolding fs_utime
  fs_utime-Preserves now path modtime = search (parts, block_write-Preserves, kept) depth 12

  extend-Preserves : (inode : Block) (block_num : ℕ) → Preserves I (extend inode block_num)
  unfolding extend
  extend-Preserves inode block_num = search (steps, alloc_blk-Preserves) depth 12

  write_loop-Preserves :
      (fuel : ℕ) (inode : Block) (len offset nread block_num block_offset : ℕ) (buffer : Block)
      (buf : Buffer)
      → Preserves I (write_loop fuel inode len offset nread block_num block_offset buffer buf)
  unfolding write_loop
  write_loop-Preserves zero inode len offset nread block_num block_offset buffer buf = search steps
  write_loop-Preserves (suc fuel) inode len offset nread block_num block_offset buffer buf =
      search (steps, extend-Preserves, block_write-Preserves, kept, write_loop-Preserves fuel) depth
        12

  fs_write-Preserves :
      (now : ℕ) (stack : Block) (path : Text) (buf : Buffer) (len offset : ℕ)
      → Preserves I (fs_write now stack path buf len offset)
  unfolding fs_write
  fs_write-Preserves now stack path buf len offset =
      search (parts, write_loop-Preserves, block_write-Preserves, kept) depth 12

  free_ptrs-Preserves : (rounds i : ℕ) (inode : Block) → Preserves I (free_ptrs rounds i inode)
  unfolding free_ptrs
  free_ptrs-Preserves zero i inode = search steps
  free_ptrs-Preserves (suc rounds) i inode =
      search (steps, free_blk-Preserves, free_ptrs-Preserves rounds)

  fs_truncate-Preserves :
      (path : Text) (len_is_zero : Bool) → Preserves I (fs_truncate path len_is_zero)
  unfolding fs_truncate
  fs_truncate-Preserves path len_is_zero =
      search (parts, free_ptrs-Preserves, block_write-Preserves, kept) depth 12

  add_entry-Preserves :
      (name : Text) (n inum : ℕ) (parent : Block) → Preserves I (add_entry name n inum parent)
  unfolding add_entry
  add_entry-Preserves name n inum parent = search (parts, block_write-Preserves, kept) depth 12

  fs_create-Preserves :
      (stack : Block) (ctx : Context) (path : Text) (permissions : ℕ)
      → Preserves I (fs_create stack ctx path permissions)
  unfolding fs_create
  fs_create-Preserves stack ctx path permissions =
      search (parts, alloc_blk-Preserves, add_entry-Preserves, block_write-Preserves, kept) depth 12

  fs_mkdir-Preserves :
      (stack : Block) (ctx : Context) (path : Text) (permissions : ℕ)
      → Preserves I (fs_mkdir stack ctx path permissions)
  unfolding fs_mkdir
  fs_mkdir-Preserves stack ctx path permissions =
      search (parts, alloc_blk-Preserves, add_entry-Preserves, block_write-Preserves, kept) depth 12

  unless_written-Leaves :
      (e : Errno) {r : Outcome (Unit {0})} → Leaves I r → Leaves I (unless_written e r)
  unless_written-Leaves e (returned h) = returned h
  unless_written-Leaves e (refused h) = refused h
  unless_written-Leaves e (stopped h) = stopped h
  unless_written-Leaves e undone = undone

  checked_write-Preserves : (e : Errno) (l : ℕ) (b : Block) → Preserves I (checked_write e l b)
  checked_write-Preserves e l b d h = unless_written-Leaves e (block_write-Preserves kept l b d h)

  rename_in-Preserves : (path : Text) (src dst : List Text) → Preserves I (rename_in path src dst)
  unfolding rename_in
  rename_in-Preserves path src dst = search (parts, checked_write-Preserves) depth 14

  fs_rename-Preserves : (src dst : Text) → Preserves I (fs_rename src dst)
  unfolding fs_rename
  fs_rename-Preserves src dst = search (parts, rename_in-Preserves) depth 14

  drop_entry-Preserves :
      (now n inum : ℕ) (parent dirs : Block) → Preserves I (drop_entry now n inum parent dirs)
  unfolding drop_entry
  drop_entry-Preserves now n inum parent dirs = search (steps, block_write-Preserves, kept)

  fs_unlink-Preserves : (now : ℕ) (path : Text) → Preserves I (fs_unlink now path)
  unfolding fs_unlink
  fs_unlink-Preserves now path =
      search (parts, free_ptrs-Preserves, free_blk-Preserves, drop_entry-Preserves) depth 12

  fs_rmdir-Preserves : (now : ℕ) (path : Text) → Preserves I (fs_rmdir now path)
  unfolding fs_rmdir
  fs_rmdir-Preserves now path = search (parts, free_blk-Preserves, drop_entry-Preserves) depth 14

  -- Whatever the request, an invariant that survives writes to the blocks behind the superblock
  -- holds of the image that the call leaves.
  pub serve-Preserves :
      (stack : Block) (ctx : Context) (q : Request) → Preserves I (serve stack ctx q)
  unfolding serve
  serve-Preserves stack ctx statfs = search (steps, fs_statfs-Preserves)
  serve-Preserves stack ctx (getattr path) = search (steps, fs_getattr-Preserves)
  serve-Preserves stack ctx (readdir path) = search (steps, fs_readdir-Preserves)
  serve-Preserves stack ctx (read path buf len offset) = search (steps, fs_read-Preserves)
  serve-Preserves stack ctx (rename src dst) = search (steps, fs_rename-Preserves)
  serve-Preserves stack ctx (chmod path mode) = search (steps, fs_chmod-Preserves)
  serve-Preserves stack ctx (create path mode) = search (steps, fs_create-Preserves)
  serve-Preserves stack ctx (mkdir path mode) = search (steps, fs_mkdir-Preserves)
  serve-Preserves stack ctx (unlink path) = search (steps, fs_unlink-Preserves)
  serve-Preserves stack ctx (rmdir path) = search (steps, fs_rmdir-Preserves)
  serve-Preserves stack ctx (write path buf len offset) = search (steps, fs_write-Preserves)
  serve-Preserves stack ctx (truncate path b) = search (steps, fs_truncate-Preserves)
  serve-Preserves stack ctx (utime path modtime) = search (steps, fs_utime-Preserves)
