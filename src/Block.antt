-- ===== src/Block.antt =====
-- A block of the image (FS_BLOCK_SIZE bytes, fs5600.h) and the little-endian integers that the
-- structures of fs5600.h keep in it. A `struct fs_inode`, an array of 128 `struct fs_dirent`, the
-- superblock and the bitmap are each one such block: the C code casts between them.
pub mod Words
use unix_like_file_system.Base.{ℕ, ◌+◌, ◌*◌, ◌/◌, ◌%◌, ◌^◌, ◌==◌, if◌then◌else◌}

abbrev pub block_size : ℕ
block_size = 4096

-- The byte at each offset: the low eight bits of the number there. Only offsets below
-- `block_size` are meaningful.
abbrev pub Block : Type 0
Block = ℕ → ℕ

abbrev pub byte : Block → ℕ → ℕ
byte b o = b o % 2 ^ 8

-- `b[o] = v` for an unsigned char.
unfoldable pub set_byte : Block → ℕ → ℕ → Block
set_byte b o v i = if i == o then v % 2 ^ 8 else b i

-- `uint16_t` and `uint32_t` at an offset.
unfoldable pub get_u16 : Block → ℕ → ℕ
get_u16 b o = byte b o + byte b (o + 1) * 2 ^ 8

unfoldable pub get_u32 : Block → ℕ → ℕ
get_u32 b o = byte b o + byte b (o + 1) * 2 ^ 8 + byte b (o + 2) * 2 ^ 16 + byte b (o + 3) * 2 ^ 24

unfoldable pub set_u16 : Block → ℕ → ℕ → Block
set_u16 b o v i = if i == o then v % 2 ^ 8 else if i == o + 1 then v / 2 ^ 8 % 2 ^ 8 else b i

unfoldable pub set_u32 : Block → ℕ → ℕ → Block
set_u32 b o v i =
    if i == o
    then v % 2 ^ 8
    else if i == o + 1
    then v / 2 ^ 8 % 2 ^ 8
    else if i == o + 2
    then v / 2 ^ 16 % 2 ^ 8
    else if i == o + 3
    then v / 2 ^ 24 % 2 ^ 8
    else b i
