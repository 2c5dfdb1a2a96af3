-- ===== src/Content/Limits.antt =====
-- `fs_write` at its limits: an offset behind the end, and a disk with no free block.
use unix_like_file_system.Base.{
  ℕ, suc, ◌+◌, ◌-◌, ◌*◌, ◌/◌, ◌%◌, ◌^◌, ◌≤◌, ◌<◌, ◌≡◌, true, false, ltb, leb, ◌&&◌, ◌||◌, arith,
}
use native.Mathlib.Numerals.{add-one}
use unix_like_file_system.Block.{Block, block_size}
use unix_like_file_system.Block.Words.{get_u32-set_u32}
use unix_like_file_system.Disk.{
  Disk, done, failed, aborted, enospc, eopnotsupp, block_read, block_write, pattern_of, number,
}
use unix_like_file_system.Bitmap.Alloc.{AllUsed, alloc_blk-full}
use unix_like_file_system.Inode.{
  num_ptrs, size, set_ptr, is_dir, is_negative, rounds_up, size_overflows,
}
use unix_like_file_system.Path.{Text}
use unix_like_file_system.Attr.Named.{Named, inode_of-done}
use unix_like_file_system.Content.{Buffer, extend, write_loop, fs_write}

module _ (d : Disk) (path : Text) (n : ℕ) (inode stack : Block) (buf : Buffer) (now len offset : ℕ)
    (named : Named d path n inode) (is_file : is_dir inode ≡ false) where
  -- Writing behind the end of a file returns 0 and changes nothing.
  pub fs_write_behind : size inode < offset → fs_write now stack path buf len offset d ≡ done 0 d
  unfolding fs_write
  fs_write_behind behind =
      let past : (is_negative inode || ltb (size inode) offset) ≡ true = ground arith in
      rw (inode_of-done eopnotsupp named, is_file, past)

  -- Writing past the largest size of a file is refused with -ENOSPC, and changes nothing.
  pub fs_write_too_large :
      offset ≤ size inode
      → size inode < 2 ^ 31
      → block_size * num_ptrs < offset + len
      → offset + len < 2 ^ 64
      → fs_write now stack path buf len offset d ≡ failed enospc d
  unfolding fs_write
  fs_write_too_large in_file small large sane =
      let past : (is_negative inode || ltb (size inode) offset) ≡ false = ground arith in
      let over : ltb (block_size * num_ptrs) ((offset + len) % 2 ^ 64) ≡ true = ground arith in
      rw (inode_of-done eopnotsupp named, is_file, past, over)

  extend-full :
      1 < d.blocks
      → AllUsed d
      → size inode ≤ block_size * num_ptrs
      → (block_num : ℕ) → block_num < num_ptrs
      → size inode ≤ block_num * block_size
      → extend inode block_num d ≡ done (set_ptr inode block_num (2 ^ 32 - 28)) d
  unfolding extend pattern_of number rounds_up
  extend-full there full fits block_num in_ptrs beyond =
      let sane : (size_overflows inode || leb num_ptrs block_num) ≡ false = ground arith in
      let past : leb (rounds_up (size inode)) block_num ≡ true = ground arith in
      rw (sane, past, alloc_blk-full d there full)

  write_loop-full :
      1 < d.blocks
      → AllUsed d
      → size inode ≤ block_size * num_ptrs
      → (fuel block_num block_offset : ℕ) → block_num < num_ptrs
      → size inode ≤ block_num * block_size
      → (ltb 0 len && ltb (0 + offset) ((offset + len) % 2 ^ 64)) ≡ true
      → write_loop (suc fuel) inode len offset 0 block_num block_offset stack buf d ≡ aborted d
  unfolding write_loop block_read block_write
  write_loop-full there full fits fuel block_num block_offset in_ptrs beyond go = rw (
    go,
    extend-full there full fits block_num in_ptrs beyond,
    get_u32-set_u32 inode (20 + 4 * block_num) (2 ^ 32 - 28),
  )

  -- With every block in use, appending some bytes, within the largest size of a file, to a file that
  -- ends at a block's end does not return -ENOSPC: the error number is taken for a block, and the
  -- assertion in `block_write` stops the program.
  pub fs_write_full :
      1 < d.blocks
      → AllUsed d
      → offset ≡ size inode
      → size inode % block_size ≡ 0
      → 0 < len
      → offset + len ≤ block_size * num_ptrs
      → fs_write now stack path buf len offset d ≡ aborted d
  unfolding fs_write
  fs_write_full there full at_end aligned some_bytes fits =
      let past : (is_negative inode || ltb (size inode) offset) ≡ false = ground arith in
      let under : ltb (block_size * num_ptrs) ((offset + len) % 2 ^ 64) ≡ false = ground arith in
      rw (
        inode_of-done eopnotsupp named,
        is_file,
        past,
        under,
        add-one,
        write_loop-full there full (omega arith) len (offset / block_size) (offset % block_size)
            (omega arith) (omega arith) (ground arith),
      )
