-- ===== src/Entry/Full.antt =====
-- The calls that need a block, on a disk with no free one.
use unix_like_file_system.Base.{ℕ, ◌<◌, ◌≡◌, List, [], ◌∷◌, ◌++◌}
use unix_like_file_system.Block.{Block}
use unix_like_file_system.Disk.{Disk, aborted, block_write, pattern_of}
use unix_like_file_system.Bitmap.Alloc.{AllUsed, alloc_blk-full}
use unix_like_file_system.Path.{Text}
use unix_like_file_system.Path.Tokens.{slashed}
use unix_like_file_system.Entry.{Context, fs_create, fs_mkdir}
use unix_like_file_system.Entry.Vacant.{Vacant, before_new-done}

module _ {d : Disk} {names : List Text} {name : Text} {inum : ℕ} {parent : Block}
    (v : Vacant d names name inum parent) (there : 1 < d.blocks) (full : AllUsed d) (stack : Block)
    (ctx : Context) (permissions : ℕ) where
  -- With every block in use, `fs_create` and `fs_mkdir` at a vacant path do not return -ENOSPC: the
  -- assertion in `block_write` stops the program, with the image as it was.
  pub create_full :
      (fs_create stack ctx (slashed (names ++ name ∷ [])) permissions d ≡ aborted d)
      × (fs_mkdir stack ctx (slashed (names ++ name ∷ [])) permissions d ≡ aborted d)
  unfolding fs_create fs_mkdir block_write pattern_of
  create_full = (
    rw (before_new-done v, alloc_blk-full d there full),
    rw (before_new-done v, alloc_blk-full d there full, alloc_blk-full d there full),
  )
