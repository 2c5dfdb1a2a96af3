-- ===== src/Content/Refused.antt =====
-- When `fs_write` refuses a write.
use unix_like_file_system.Base.{
  ℕ, ◌+◌, ◌*◌, ◌^◌, ◌≤◌, ◌<◌, ◌≡◌, ◌≢◌, sym, ◌∙◌, inl, inr, false, leb, arith, Bool-cases,
}
use mathlib.Core.Path.{subst}
use unix_like_file_system.Block.{Block, block_size}
use unix_like_file_system.Disk.{Disk, Errno, done, failed, enospc}
use unix_like_file_system.Inode.{num_ptrs, size, is_dir}
use unix_like_file_system.Path.{Text}
use unix_like_file_system.Attr.Named.{Named}
use unix_like_file_system.Content.{Buffer, fs_write}
use unix_like_file_system.Content.Saved.{IsStored}
use unix_like_file_system.Content.Save.{Saves, fs_write-Saves}
use unix_like_file_system.Content.Limits.{fs_write_behind, fs_write_too_large}

module _ {d : Disk} {n : ℕ} {inode : Block} (stored : IsStored d n inode) {path : Text}
    (stack : Block) (buf : Buffer) (now len offset : ℕ) (named : Named d path n inode)
    (file : is_dir inode ≡ false) where
  done≢failed : {m : ℕ} {e : Errno} {g : Disk} → done m d ≢ failed e g
  done≢failed h = cc

  -- For a path to a file that is well stored, and an offset and a length whose sum fits a size_t:
  -- `fs_write` returns -ENOSPC, and leaves the image as it was, if the offset is not behind the end of
  -- the file and the write ends past the largest size of a file; and in no other case does it return
  -- an error.
  pub fs_write_refused :
      offset + len < 2 ^ 64
      → ((offset ≤ size inode) × (block_size * num_ptrs < offset + len)
          → fs_write now stack path buf len offset d ≡ failed enospc d)
        × ((e : Errno) (g : Disk)
            → fs_write now stack path buf len offset d ≡ failed e g
            → (offset ≤ size inode) × (block_size * num_ptrs < offset + len))
  fs_write_refused sane = (
    λ (in_file, large).
        fs_write_too_large d path n inode stack buf now len offset named file in_file
          (omega (arith, stored.file.fits)) large sane,
    λ e g run. elim (Bool-cases (leb offset (size inode))) [
      | inr behind ↦ absurd (
          done≢failed (
            sym (
              fs_write_behind d path n inode stack buf now len offset named file
                (ground (arith, behind)))
            ∙ run))
      | inl in_file ↦ elim (Bool-cases (leb (offset + len) (block_size * num_ptrs))) [
        | inr large ↦ (ground (arith, in_file), ground (arith, large))
        | inl room ↦ absurd (
            subst (Saves d n inode buf offset len now) run (
              fs_write-Saves stored buf offset len now (ground (arith, room)) stack named file
                (ground (arith, in_file))))
      ]
    ],
  )
