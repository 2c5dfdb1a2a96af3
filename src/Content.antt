-- ===== src/Content.antt =====
-- fs5600.c, the contents of files: `fs_read`, `fs_write` and `fs_truncate`.
pub mod Copy
pub mod Read
pub mod Limits
pub mod Refused
pub mod Free
pub mod Owns
pub mod Put
pub mod Extend
pub mod Round
pub mod Write
pub mod Saved
pub mod Save
pub mod Back
use unix_like_file_system.Base.{
  ℕ, zero, suc, ◌+◌, ◌-◌, ◌*◌, ◌/◌, ◌%◌, ◌^◌, Bool, not, ◌&&◌, ◌||◌, ltb, leb, ◌==◌, if◌then◌else◌,
}
use unix_like_file_system.Block.{Block, block_size, byte, set_byte, set_u32}
use unix_like_file_system.Disk.{
  M, eisdir, einval, enospc, eopnotsupp, pure, ◌>>=◌, ◌>>◌, call, fail_if, undefined, undefined_if,
  block_read, block_write, keep_or, pattern_of,
}
use unix_like_file_system.Bitmap.{alloc_blk, free_blk}
use unix_like_file_system.Inode.{
  num_ptrs, size, ptr, set_ptr, is_dir, rounds_up, size_overflows, is_negative,
}
use unix_like_file_system.Path.{Text}
use unix_like_file_system.Attr.{inode_of}

-- A caller's buffer: the bytes at its indices, as in a block but of any length.
abbrev pub Buffer : Type 0
Buffer = ℕ → ℕ

-- `for (i = 0; i < n; i++) to[t + i] = from[f + i];`, from index `i` with `rounds` left.
unfoldable pub copy_bytes : ℕ → ℕ → Buffer → ℕ → Buffer → ℕ → Buffer
copy_bytes zero i from f to t = to
copy_bytes (suc rounds) i from f to t =
    copy_bytes rounds (i + 1) from f (set_byte to (t + i) (byte from (f + i))) t

-- `readlength` of `fs_read`: to the end of the block, cut at `len` and at the end of the file.
-- None of the sums can wrap: `nread + offset` stays below the file's size.
unfoldable pub read_length : ℕ → ℕ → ℕ → ℕ → ℕ → ℕ
read_length total len offset nread block_offset =
    let to_end = block_size - block_offset in
    let cut = if ltb len (nread + to_end) then len - nread else to_end in
    if ltb total (nread + offset + cut) then total - offset - nread else cut

-- The loop of `fs_read`. `buffer` is the local array. `len + 1` rounds are enough, since each one
-- copies at least a byte; without rounds the loop is said to be undefined.
unfoldable pub read_loop : ℕ → Block → ℕ → ℕ → ℕ → ℕ → ℕ → Block → Buffer → M (ℕ × Buffer)
read_loop zero inode len offset nread block_num block_offset buffer buf = undefined
read_loop (suc fuel) inode len offset nread block_num block_offset buffer buf =
    if ltb nread len && ltb (nread + offset) (size inode)
    then (do
      undefined_if (leb num_ptrs block_num)
      read ← block_read (ptr inode block_num)
      let filled = keep_or buffer read
      let n = read_length (size inode) len offset nread block_offset
      read_loop fuel inode len offset (nread + n) (block_num + 1) 0 filled
          (copy_bytes n 0 filled block_offset buf nread))
    else pure (nread, buf)

-- The bytes read and the buffer. `stack` is what the local array holds before.
unfoldable pub fs_read : Block → Text → Buffer → ℕ → ℕ → M (ℕ × Buffer)
fs_read stack path buf len offset = do
  (inum, inode) ← inode_of path eopnotsupp
  fail_if (is_dir inode) eisdir
  if is_negative inode || leb (size inode) offset
      then pure (0, buf)
      else read_loop (len + 1) inode len offset 0 (offset / block_size) (offset % block_size) stack
          buf

-- `if (block_num >= DIV_ROUND_UP(in.size, FS_BLOCK_SIZE)) { ptrs[block_num] = alloc_blk(); … }`: the
-- test for an error compares an unsigned number with 0, so -ENOSPC passes it as a block number.
unfoldable pub extend : Block → ℕ → M Block
extend inode block_num = do
  undefined_if (size_overflows inode || leb num_ptrs block_num)
  if leb (rounds_up (size inode)) block_num
      then (do
        found ← call alloc_blk
        fail_if (pattern_of found == 0) enospc
        pure (set_ptr inode block_num (pattern_of found)))
      else pure inode

-- `readlength` of `fs_write`.
unfoldable pub write_length : ℕ → ℕ → ℕ → ℕ
write_length len nread block_offset =
    let to_end = block_size - block_offset in
    if ltb len (nread + to_end) then len - nread else to_end

-- The loop of `fs_write`, with the inode and the local array that it changes.
unfoldable pub write_loop : ℕ → Block → ℕ → ℕ → ℕ → ℕ → ℕ → Block → Buffer → M (ℕ × Block)
write_loop zero inode len offset nread block_num block_offset buffer buf = undefined
write_loop (suc fuel) inode len offset nread block_num block_offset buffer buf =
    if ltb nread len && ltb (nread + offset) ((offset + len) % 2 ^ 64)
    then (do
      inode ← extend inode block_num
      read ← block_read (ptr inode block_num)
      let n = write_length len nread block_offset
      let filled = copy_bytes n 0 buf nread (keep_or buffer read) block_offset
      block_write (ptr inode block_num) filled
      write_loop fuel inode len offset (nread + n) (block_num + 1) 0 filled buf)
    else pure (nread, inode)

-- What follows the loop: the new size and time.
unfoldable pub resized : ℕ → ℕ → Block → Block
resized now new_size inode =
    let grown = if ltb (size inode) new_size then set_u32 inode 16 new_size else inode in
    set_u32 grown 12 now

-- `offset` is not negative, as FUSE passes it.
unfoldable pub fs_write : ℕ → Block → Text → Buffer → ℕ → ℕ → M ℕ
fs_write now stack path buf len offset = do
  (inum, inode) ← inode_of path eopnotsupp
  fail_if (is_dir inode) eisdir
  if is_negative inode || ltb (size inode) offset then pure 0 else (do
    fail_if (ltb (block_size * num_ptrs) ((offset + len) % 2 ^ 64)) enospc
    (nread, inode) ←
        write_loop (len + 1) inode len offset 0 (offset / block_size) (offset % block_size) stack
          buf
    block_write inum (resized now ((offset + len) % 2 ^ 64) inode)
    pure nread)

-- `for (i = 0; i < DIV_ROUND_UP(in.size, FS_BLOCK_SIZE); i++) free_blk(in.ptrs[i]);`, from `i` on. A
-- size whose rounding overflows would take the index past `ptrs`.
unfoldable pub free_ptrs : ℕ → ℕ → Block → M (Unit {0})
free_ptrs zero i inode = pure tt
free_ptrs (suc rounds) i inode = do
  undefined_if (leb num_ptrs i)
  free_blk (ptr inode i)
  free_ptrs rounds (i + 1) inode

-- `len_is_zero` is the test of the length, an off_t.
unfoldable pub fs_truncate : Text → Bool → M (Unit {0})
fs_truncate path len_is_zero = do
  fail_if (not len_is_zero) einval
  (inum, inode) ← inode_of path eopnotsupp
  fail_if (is_dir inode) eisdir
  free_ptrs (rounds_up (size inode)) 0 inode
  block_write inum (set_u32 inode 16 0)
