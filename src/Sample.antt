-- ===== src/Sample.antt =====
-- A small image for the tests: a root directory with the file "a", which holds "hello", and the empty
-- directory "d".
use unix_like_file_system.Base.{ℕ, [], ◌∷◌, ◌==◌, if◌then◌else◌}
use unix_like_file_system.Block.{Block, set_byte, set_u32}
use unix_like_file_system.Disk.{Disk, zero_block}
use unix_like_file_system.Inode.{set_valid, set_entry_inode, copy_text, name_at}
use unix_like_file_system.Path.{Text}

unfoldable pub super : Block
unfolding set_u32
super = set_u32 (set_u32 zero_block 0 0x30303635) 4 12

-- Blocks 0 to 7 are in use.
unfoldable pub map : Block
unfolding set_byte
map = set_byte zero_block 0 255

unfoldable pub inode : ℕ → ℕ → ℕ → Block
unfolding set_u32
inode mode size block = set_u32 (set_u32 (set_u32 zero_block 4 mode) 16 size) 20 block

unfoldable pub entry : ℕ → ℕ → Text → Block → Block
unfolding set_valid set_entry_inode copy_text
entry k n name dirs = copy_text name (set_entry_inode (set_valid dirs k 1) k n) (name_at k)

abbrev pub name_a : Text
name_a = b'a' ∷ []

abbrev pub name_d : Text
name_d = b'd' ∷ []

abbrev pub name_x : Text
name_x = b'x' ∷ []

unfoldable pub root_entries : Block
unfolding entry
root_entries = entry 1 6 name_d (entry 0 4 name_a zero_block)

unfoldable pub hello : Block
unfolding copy_text
hello = copy_text (b'h' ∷ b'e' ∷ b'l' ∷ b'l' ∷ b'o' ∷ []) zero_block 0

-- The blocks, for a map and the size of the file "a".
unfoldable pub block_of : Block → ℕ → ℕ → Block
unfolding super inode root_entries hello
block_of used bytes l =
    if l == 0
    then super
    else if l == 1
    then used
    else if l == 2
    then inode 0x41ed 4096 3
    else if l == 3
    then root_entries
    else if l == 4
    then inode 0x81a4 bytes 5
    else if l == 5
    then hello
    else if l == 6
    then inode 0x41ed 4096 7
    else zero_block

unfoldable pub image : Disk
unfolding map block_of
image = record { blocks = 8; block = block_of map 5 }

-- The same with every block marked as used and the file empty.
unfoldable pub full_image : Disk
unfolding block_of
full_image = record { blocks = 8; block = block_of (λ i. 255) 0 }

-- The same with a file "d" of three bytes in place of the directory.
unfoldable pub pair_image : Disk
unfolding map block_of inode hello
pair_image = record {
  blocks = 8;
  block = λ l. if l == 6 then inode 0x81a4 3 7 else if l == 7 then hello else block_of map 5 l;
}
