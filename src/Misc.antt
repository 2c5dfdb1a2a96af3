-- ===== src/Misc.antt =====
-- misc.c: `block_read` and `block_write` over the system calls `lseek`, `read` and `write`, which are
-- parameters with what POSIX says of them for a regular file. Both callers pass one block.
pub mod Refines
use unix_like_file_system.Base.{
  ℕ, suc, ◌+◌, ◌-◌, ◌*◌, ◌^◌, ◌≤◌, ◌<◌, ◌≡◌, ◌≢◌, ◌⊎◌, Bool, true, false, Option, none, some, ltb,
  leb, ◌==◌, ◌||◌, if◌then◌else◌, not,
}
use unix_like_file_system.Base.Int.{ℤ, pos, negsuc, int32}
use unix_like_file_system.Block.{Block, block_size}
use unix_like_file_system.Disk.{Disk, write_at}

-- Every block but `l` is as it was.
pub record KeepsOthers (l : ℕ) (d g : Disk) : Type 0 where
  pub not_smaller : d.blocks ≤ g.blocks
  pub same_block : (j : ℕ) → j ≢ l → j < d.blocks → g.block j ≡ d.block j

-- An open regular file that is a whole number of blocks long. A seek may be refused beyond the end of
-- the file, as where it passes the largest size that the device allows; a block inside the file can be
-- read; a write may fail or fall short, and then touches no block but the one it was for.
pub record Posix : Type 1 where
  pub File : Type 0
  -- `lseek(fd, offset, SEEK_SET)`, and whether its result is not negative
  pub lseek : ℤ → File → Bool × File
  -- `read(fd, buf, len)`: its result if it is not negative, and what it put into the buffer
  pub read : ℕ → File → Option ℕ × Block × File
  -- `write(fd, buf, len)`
  pub write : Block → ℕ → File → Option ℕ × File
  -- the blocks of the file, and the file offset
  pub image : File → Disk
  pub place : File → ℕ
  pub lseek_negative :
      (n : ℕ) (f : File)
      → ((lseek (negsuc n) f).0 ≡ false) × (image (lseek (negsuc n) f).1 ≡ image f)
  pub lseek_sets :
      (n : ℕ) (f : File)
      → (image (lseek (pos n) f).1 ≡ image f)
        × ((((lseek (pos n) f).0 ≡ true) × (place (lseek (pos n) f).1 ≡ n))
            ⊎ (((lseek (pos n) f).0 ≡ false) × ((image f).blocks * block_size < n)))
  pub read_inside :
      (l : ℕ) (f : File)
      → place f ≡ l * block_size
      → l < (image f).blocks
      → ((read block_size f).0 ≡ some block_size)
        × ((read block_size f).1 ≡ (image f).block l)
        × (image (read block_size f).2 ≡ image f)
  pub read_at_end :
      (l : ℕ) (f : File)
      → place f ≡ l * block_size
      → (image f).blocks ≤ l
      → ((read block_size f).0 ≡ some 0) × (image (read block_size f).2 ≡ image f)
  pub write_ends :
      (l : ℕ) (b : Block) (f : File)
      → place f ≡ l * block_size
      → (((write b block_size f).0 ≡ some block_size)
          × (image (write b block_size f).1 ≡ write_at l b (image f)))
        ⊎ (((write b block_size f).0 ≢ some block_size)
            × KeepsOthers l (image f) (image (write b block_size f).1))

-- How one of the two functions ends.
pub data Io (F A : Type 0) : Type 0 where
  returns : A → F → Io F A
  io_error : F → Io F A
  stopped : F → Io F A
  overflows : Io F A

-- `lba * FS_BLOCK_SIZE` as an int, none if it overflows; an lba is given by its bit pattern.
unfoldable pub times_block : ℤ → Option ℤ
times_block (pos n) = if ltb (n * block_size) (2 ^ 31) then some (pos (n * block_size)) else none
times_block (negsuc n) =
    if leb (suc n * block_size) (2 ^ 31) then some (negsuc (suc n * block_size - 1)) else none

abbrev pub is_whole : Option ℕ → Bool
is_whole none = false
is_whole (some n) = n == block_size

-- The end `start + len` of the region, as an int, and whether it overflows.
unfoldable pub end_overflows : ℤ → Bool
end_overflows (pos n) = leb (2 ^ 31) (n + block_size)
end_overflows (negsuc n) = false

-- Whether `assert(lba > 0)` holds.
unfoldable pub is_positive : ℤ → Bool
is_positive (pos n) = ltb 0 n
is_positive (negsuc n) = false

module _ (p : Posix) where
  open p use {File, lseek, read, write}

  read_here : Bool × File → Io File Block
  read_here (false, f) = io_error f
  read_here (true, f) =
      let (got, b, g) = read block_size f in if is_whole got then returns b g else io_error g

  read_from : Option ℤ → File → Io File Block
  read_from none f = overflows
  read_from (some start) f = read_here (lseek start f)

  -- `block_read(buf, lba, 1)`
  pub block_read : ℕ → File → Io File Block
  block_read lba f = read_from (times_block (int32 lba)) f

  write_here : Block → Bool × File → Io File (Unit {0})
  write_here b (false, f) = io_error f
  write_here b (true, f) =
      let (put, g) = write b block_size f in if is_whole put then returns tt g else io_error g

  -- The two seeks of `block_write`: to the end of the region and, if that went well, to its start.
  seek_twice : Block → ℤ → Bool × File → Io File (Unit {0})
  seek_twice b start (false, f) = io_error f
  seek_twice b start (true, f) = write_here b (lseek start f)

  abbrev add_block : ℤ → ℤ
  add_block (pos n) = pos (n + block_size)
  add_block (negsuc n) =
      if ltb n block_size then pos (block_size - suc n) else negsuc (n - block_size)

  write_from : ℤ → Block → Option ℤ → File → Io File (Unit {0})
  write_from lba b none f = overflows
  write_from lba b (some start) f =
      if not (is_positive lba)
      then stopped f
      else if end_overflows start
      then overflows
      else seek_twice b start (lseek (add_block start) f)

  -- `block_write(buf, lba, 1)`
  pub block_write : ℕ → Block → File → Io File (Unit {0})
  block_write lba b f = write_from (int32 lba) b (times_block (int32 lba)) f
