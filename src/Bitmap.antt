-- ===== src/Bitmap.antt =====
-- fs5600.c, the block bitmap in block 1: `bit_set`, `bit_clear`, `bit_test`, `alloc_blk` and
-- `free_blk`. A map has `block_size` bytes, one bit for each of 32768 blocks.
pub mod Bits
pub mod Alloc
pub mod Undo
use unix_like_file_system.Base.{
  ℕ, zero, suc, ◌+◌, ◌-◌, ◌*◌, ◌/◌, ◌%◌, ◌^◌, bit_and, bit_or, Bool, true, false, not, Option, none,
  some, leb, ◌==◌, if◌then◌else◌,
}
use unix_like_file_system.Block.{Block, block_size, byte, set_byte}
use unix_like_file_system.Disk.{
  M, done, failed, enospc, pure, fail, ◌>>=◌, ◌>>◌, undefined_if, block_write, read_unchecked,
}

abbrev pub map_bits : ℕ
map_bits = block_size * 8

-- `1 << (i % 8)`
abbrev mask : ℕ → ℕ
mask i = 2 ^ (i % 8)

unfoldable pub bit_set : Block → ℕ → Block
bit_set map i = set_byte map (i / 8) (bit_or (byte map (i / 8)) (mask i))

-- `~(1 << (i % 8))`, cut to the byte that is stored
unfoldable pub bit_clear : Block → ℕ → Block
bit_clear map i = set_byte map (i / 8) (bit_and (byte map (i / 8)) (255 - mask i))

unfoldable pub bit_test : Block → ℕ → Bool
bit_test map i = not (bit_and (byte map (i / 8)) (mask i) == 0)

-- The loop of `alloc_blk` from bit `i`, with `rounds` left: the first bit that is not set.
unfoldable pub first_free : ℕ → ℕ → Block → Option ℕ
first_free zero i map = none
first_free (suc rounds) i map = elim (bit_test map i) [
  | true ↦ first_free rounds (i + 1) map
  | false ↦ some i
]

-- What `alloc_blk` does with the bit that the loop found: set it, write the map, return it.
unfoldable pub take_block : Block → Option ℕ → M ℕ
take_block map none = fail enospc
take_block map (some i) = do block_write 1 (bit_set map i); pure i

unfoldable pub alloc_blk : M ℕ
alloc_blk = do map ← read_unchecked 1; take_block map (first_free (map_bits - 3) 3 map)

-- A block number that the map has no bit for is a write out of the array's bounds; a negative
-- one, a pattern from 2 ^ 31 on, is too.
unfoldable pub free_blk : ℕ → M (Unit {0})
free_blk i = do
  map ← read_unchecked 1
  undefined_if (leb map_bits i)
  block_write 1 (bit_clear map i)
