-- ===== src/Content/Saved.antt =====
-- The inode that `fs_write` leaves, and what it asks for and promises of the file.
use unix_like_file_system.Base.{
  ℕ, ◌+◌, ◌*◌, ◌%◌, ◌^◌, ◌≤◌, ◌<◌, ◌≡◌, ◌≢◌, ◌∙◌, inl, inr, true, false, ltb, arith, Bool-cases,
  max,
}
use unix_like_file_system.Block.{Block, set_u32}
use unix_like_file_system.Block.Words.{get_u32-set_u32, get_u32-set_u32_ne, set_u32-outside}
use unix_like_file_system.Disk.{Disk}
use unix_like_file_system.Disk.Reads.{Holds}
use unix_like_file_system.Bitmap.{map_bits}
use unix_like_file_system.Bitmap.Alloc.{in_use}
use unix_like_file_system.Inode.{size, mtime, ptr, rounds_up}
use unix_like_file_system.Content.{Buffer, resized}
use unix_like_file_system.Content.Read.{file_byte, IsFile}
use unix_like_file_system.Content.Owns.{Owns, expected}

module _ (now v : ℕ) (node : Block) (small : v < 2 ^ 31) where
  pub size-resized : size (resized now v node) ≡ max (size node) v
  unfolding resized
  size-resized = elim (Bool-cases (ltb (size node) v)) [
    | inl grows ↦
        rw
          (
            grows,
            get_u32-set_u32_ne (set_u32 node 16 v) 12 16 now (inr (omega arith)),
            get_u32-set_u32 node 16 v,
          )
          (ground arith)
    | inr keeps ↦ rw (keeps, get_u32-set_u32_ne node 12 16 now (inr (omega arith))) (ground arith)
  ]

  pub resized-ptr : (b : ℕ) → ptr (resized now v node) b ≡ ptr node b
  unfolding resized
  resized-ptr b = elim (Bool-cases (ltb (size node) v)) [
    | inl grows ↦ rw (
      grows,
      get_u32-set_u32_ne (set_u32 node 16 v) 12 (20 + 4 * b) now (inr (omega arith)),
      get_u32-set_u32_ne node 16 (20 + 4 * b) v (inr (omega arith)),
    )
    | inr keeps ↦ rw (keeps, get_u32-set_u32_ne node 12 (20 + 4 * b) now (inr (omega arith)))
  ]

  pub mtime-resized : mtime (resized now v node) ≡ now % 2 ^ 32
  unfolding resized
  mtime-resized = get_u32-set_u32 _ 12 now

  pub resized_outside : (i : ℕ) → i < 12 → resized now v node i ≡ node i
  unfolding resized
  resized_outside i lt = elim (Bool-cases (ltb (size node) v)) [
    | inl grows ↦ rw grows (
        set_u32-outside (set_u32 node 16 v) 12 now i (omega arith)
        ∙ set_u32-outside node 16 v i (omega arith))
    | inr keeps ↦ rw keeps (set_u32-outside node 12 now i (omega arith))
  ]

-- The file is well stored: its blocks are in the image, and are its own.
pub record IsStored (d : Disk) (n : ℕ) (inode : Block) : Type 0 where
  pub file : IsFile d inode
  pub owns : Owns d n inode (rounds_up (size inode))
  pub inode_used : in_use d n ≡ true
  pub place : (1 < n) × (n < map_bits)
  pub map_there : 1 < d.blocks

-- The file after `len` bytes of `buf` have been written to it from `offset` on.
pub record Saved (d g : Disk) (n : ℕ) (inode : Block) (buf : Buffer) (offset len now : ℕ)
    : Type 0 where
  pub new : Block
  pub there : Holds g n new
  pub new_size : size new ≡ max (size inode) (offset + len)
  pub stamped : mtime new ≡ now % 2 ^ 32
  pub same_fields : (i : ℕ) → i < 12 → new i ≡ inode i
  pub file : IsFile g new
  pub owns : Owns g n new (rounds_up (size new))
  pub same_ptrs : (b : ℕ) → b < rounds_up (size inode) → ptr new b ≡ ptr inode b
  pub fresh :
      (b : ℕ) → rounds_up (size inode) ≤ b → b < rounds_up (size new) → in_use d (ptr new b) ≡ false
  pub content :
      (o : ℕ) → o < size new → file_byte g new o ≡ expected d inode buf offset (offset + len) o
  pub not_smaller : d.blocks ≤ g.blocks
  pub still_used : (l : ℕ) → in_use d l ≡ true → in_use g l ≡ true
  pub same_files :
      (l : ℕ)
      → l ≢ 1
      → l ≢ n
      → in_use d l ≡ true
      → ((b : ℕ) → b < rounds_up (size inode) → ptr inode b ≢ l)
      → l < d.blocks
      → g.block l ≡ d.block l
