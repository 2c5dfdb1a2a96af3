-- ===== src/Inode.antt =====
-- fs5600.h: `struct fs_inode` and `struct fs_dirent` inside a block, field by field at the offsets
-- of the x86-64 layout (little-endian, no padding; the bit-field `valid` is the lowest bit).
pub mod Entries
pub mod Pointers
use unix_like_file_system.Base.{
  ℕ, ◌+◌, ◌-◌, ◌*◌, ◌/◌, ◌%◌, ◌^◌, Bool, ◌&&◌, List, [], ◌∷◌, leb, ltb, ◌==◌, if◌then◌else◌,
}
use unix_like_file_system.Block.{Block, block_size, byte, set_byte, get_u16, get_u32, set_u32}

-- `NUM_PTRS_INODE`
abbrev pub num_ptrs : ℕ
num_ptrs = block_size / 4 - 5

abbrev pub uid : Block → ℕ
uid b = get_u16 b 0

abbrev pub gid : Block → ℕ
gid b = get_u16 b 2

abbrev pub mode : Block → ℕ
mode b = get_u32 b 4

abbrev pub ctime : Block → ℕ
ctime b = get_u32 b 8

abbrev pub mtime : Block → ℕ
mtime b = get_u32 b 12

-- The bit pattern of the `int32_t`.
abbrev pub size : Block → ℕ
size b = get_u32 b 16

-- `ptrs[i]`, for `i < num_ptrs`.
abbrev pub ptr : Block → ℕ → ℕ
ptr b i = get_u32 b (20 + 4 * i)

abbrev pub set_ptr : Block → ℕ → ℕ → Block
set_ptr b i v = set_u32 b (20 + 4 * i) v

-- `S_ISDIR`: the four bits of a mode from bit 12 on are those of `S_IFDIR`.
unfoldable pub is_dir : Block → Bool
is_dir b = mode b / 2 ^ 12 % 2 ^ 4 == 4

-- `DIV_ROUND_UP(size, FS_BLOCK_SIZE)` as the number of rounds of a loop that counts up to it. The
-- division rounds towards 0, so a negative size gives no round.
unfoldable pub rounds_up : ℕ → ℕ
rounds_up n = if ltb n (2 ^ 31) then (n + block_size - 1) / block_size else 0

-- Directory entries: 128 of 32 bytes.
abbrev pub num_dirents : ℕ
num_dirents = block_size / 32

abbrev pub name_size : ℕ
name_size = 28

abbrev pub valid : Block → ℕ → Bool
valid b k = get_u32 b (32 * k) % 2 == 1

abbrev pub entry_inode : Block → ℕ → ℕ
entry_inode b k = get_u32 b (32 * k) / 2

abbrev pub name_at : ℕ → ℕ
name_at k = 32 * k + 4

-- `dirs[k].valid = v` and `dirs[k].inode = n` write the bits of one word.
unfoldable pub set_valid : Block → ℕ → ℕ → Block
set_valid b k v = set_u32 b (32 * k) (entry_inode b k * 2 + v % 2)

unfoldable pub set_entry_inode : Block → ℕ → ℕ → Block
set_entry_inode b k n = set_u32 b (32 * k) (n % 2 ^ 31 * 2 + get_u32 b (32 * k) % 2)

-- `strcmp(s, b + o) == 0`: a text of non-zero bytes against the bytes up to a NUL. It reads no
-- further than one byte past the length of `s`.
unfoldable pub same_text : List ℕ → Block → ℕ → Bool
same_text [] b o = byte b o == 0
same_text (c ∷ s) b o = (byte b o == c) && same_text s b (o + 1)

-- `strcpy(b + o, s)`, with the NUL.
unfoldable pub copy_text : List ℕ → Block → ℕ → Block
unfolding set_byte
copy_text [] b o = set_byte b o 0
copy_text (c ∷ s) b o = copy_text s (set_byte b o c) (o + 1)

-- `in.size + 4096 - 1` as an int overflows.
abbrev pub size_overflows : Block → Bool
size_overflows b = leb (2 ^ 31 - (block_size - 1)) (size b) && ltb (size b) (2 ^ 31)

-- The size is negative as an int32_t.
abbrev pub is_negative : Block → Bool
is_negative b = leb (2 ^ 31) (size b)
