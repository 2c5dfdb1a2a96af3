-- ===== src/Tests/Facts.antt =====
-- Facts on the sample image.
use unix_like_file_system.Base.{
  ℕ, ◌==◌, ==→eq, sym, ◌+◌, ◌^◌, ◌<◌, ◌≡◌, refl, [], ◌∷◌, List, Bool, true, false, arith, not,
  length, ◌≤◌, ◌-◌, ◌*◌, zero, suc,
}
use unix_like_file_system.Base.Bits.{holds_below, holds_below_lem}
use unix_like_file_system.Block.{Block, get_u32, set_byte, set_u32}
use unix_like_file_system.Disk.{Disk, Outcome, done, failed, enoent, block_read}
use unix_like_file_system.Disk.Reads.{Holds}
use unix_like_file_system.Inode.{same_text, is_dir, num_dirents, size, ptr, num_ptrs}
use unix_like_file_system.Path.{Text, skip, word, strtok, tokens, tokenise}
use unix_like_file_system.Path.Tokens.{slashed}
use unix_like_file_system.Lookup.{
  find_entry, enter, lookup_entry, descend, walk, from_root, path2inum,
}
use unix_like_file_system.Lookup.Resolves.{entry_matches, HasEntry, Lists}
use unix_like_file_system.Lookup.Missing.{IsMissing}
use unix_like_file_system.Lookup.Paths.{Fits}
use unix_like_file_system.Bitmap.{bit_test}
use unix_like_file_system.Attr.Named.{Named}
use unix_like_file_system.Attr.Count.{used_blocks, used_from}
use unix_like_file_system.Content.Read.{IsFile}
use unix_like_file_system.Content.Free.{InMap, IsOfFile, Marks}
use unix_like_file_system.Sample.{
  name_a, name_d, name_x, image, full_image, root_entries, inode, super, map,
}

abbrev pub root : Block
root = inode 0x41ed 4096 3

abbrev pub node_a : Block
node_a = inode 0x81a4 5 5

abbrev pub node_d : Block
node_d = inode 0x41ed 4096 7

abbrev pub names_a : List Text
names_a = name_a ∷ []

abbrev pub names_dx : List Text
names_dx = name_d ∷ name_x ∷ []

-- Everything that a call on the image computes with.
unfoldable pub looked_up : List Text → Disk → Outcome ℕ
unfolding path2inum from_root walk descend lookup_entry enter find_entry tokenise tokens strtok word
    skip same_text block_read image full_image is_dir get_u32
looked_up names d = path2inum (slashed names) d

pub root_there : Holds image 2 root
unfolding image
root_there = record { inside = omega arith; reachable = omega arith; content = refl }

pub a_there : Holds image 4 node_a
unfolding image
a_there = record { inside = omega arith; reachable = omega arith; content = refl }

pub path_a : path2inum (slashed names_a) image ≡ done 4 image
unfolding looked_up
path_a = refl

pub node_a-Named : Named image (slashed names_a) 4 node_a
node_a-Named = record { found = path_a; positive = omega arith; holds = a_there }

pub names_a-Fits : Fits names_a
names_a-Fits = record { are_names = ((refl, tt), tt); short = omega arith; few = omega arith }

pub name_x-Fits : Fits (name_x ∷ [])
name_x-Fits = record { are_names = ((refl, tt), tt); short = omega arith; few = omega arith }

pub name_d-Fits : Fits (name_d ∷ [])
name_d-Fits = record { are_names = ((refl, tt), tt); short = omega arith; few = omega arith }

pub listed : (name : Text) → length name ≤ 27 → Lists image root name root_entries
unfolding image get_u32
listed name short = record {
  short = short;
  nonempty = λ e. absurd (omega arith);
  entries = record { inside = omega arith; reachable = omega arith; content = refl };
}

pub entry_a : HasEntry root_entries name_a 4
unfolding root_entries get_u32 same_text set_u32
entry_a = record {
  index = 0;
  in_range = omega arith;
  matches = refl;
  earlier = λ j lt. absurd (omega arith);
  number = refl;
}

x_absent : holds_below num_dirents (λ k. not (entry_matches name_x root_entries k)) ≡ true
unfolding root_entries get_u32 same_text set_u32 holds_below
x_absent = refl

not-true : (b : Bool) → not b ≡ true → b ≡ false
not-true b h = ground arith

pub no_entry_x : (k : ℕ) → k < num_dirents → entry_matches name_x root_entries k ≡ false
no_entry_x k lt =
    not-true _
      (holds_below_lem num_dirents (λ k'. not (entry_matches name_x root_entries k')) k x_absent lt)

abbrev pub x_missing : IsMissing image root name_x
x_missing = record {
  dirs = root_entries;
  listed = listed name_x (omega arith);
  absent = no_entry_x;
}

pub path_x : path2inum (slashed (name_x ∷ [])) image ≡ failed enoent image
unfolding looked_up
path_x = refl

pub a_is_file : is_dir node_a ≡ false
unfolding is_dir get_u32 inode set_u32
a_is_file = refl

pub image_has_map : 1 < image.blocks
unfolding image
image_has_map = omega arith

pub super_there : Holds image 0 super
unfolding image
super_there = record { inside = omega arith; reachable = omega arith; content = refl }

pub map_there : Holds image 1 map
unfolding image
map_there = record { inside = omega arith; reachable = omega arith; content = refl }

pub few_used : used_blocks image + 2 ≤ get_u32 super 4
unfolding image map super bit_test get_u32 set_u32 set_byte used_from
few_used = ground arith

pub small_a : size node_a < 2 ^ 31 - 4096
unfolding get_u32 inode set_u32
small_a = omega arith

pub fits_in_a : size node_a ≤ 4096 * num_ptrs
unfolding get_u32 inode set_u32
fits_in_a = omega arith

in_block_a :
    (b : ℕ) → b * 4096 < size node_a → Holds image (ptr node_a b) (image.block (ptr node_a b))
unfolding image get_u32 set_u32
in_block_a zero lt = record { inside = omega arith; reachable = omega arith; content = refl }
in_block_a (suc b) lt = absurd (omega arith)

pub node_a-IsFile : IsFile image node_a
node_a-IsFile = record { fits = fits_in_a; in_image = in_block_a }

pub node_a-InMap : InMap node_a
unfolding get_u32 inode set_u32
node_a-InMap zero lt = omega arith
node_a-InMap (suc i) lt = absurd (omega arith)

-- The five bytes of "a" are in block 5.
pub node_a-Marks : Marks (λ j. 5 == j) (IsOfFile node_a)
unfolding get_u32 inode set_u32
node_a-Marks j = (λ h. (0, omega arith, ==→eq 5 j h), named_5)
  where
    named_5 : IsOfFile node_a j → (5 == j) ≡ true
    named_5 (zero, lt, same) = rw (sym same) refl
    named_5 (suc i, lt, same) = absurd (omega arith)

pub size_a : size node_a ≡ 5
unfolding get_u32 inode set_u32
size_a = refl
